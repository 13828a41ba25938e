-- ===== src/KeyStore.antt =====
-- src/providers/veniceKeyStore.ts: the keys of the boot configuration under an overlay that operators
-- change, kept in a file. The file holds what `JSON.parse` makes of it; the numbers of its `stat`, and how
-- a write ends, are arguments.
pub mod Store
pub mod Keys
pub mod Overlays
pub mod Parsing
pub mod Changes
pub mod States
pub mod Writes
pub mod Refinement
pub mod Last
mod Tests
use Prim.Native.Char.{code}
use confidential_content_pla.Prelude.{
  ℕ, suc, ◌+◌, Option, none, some, Bool, true, false, not, ◌&&◌, ◌||◌, List, [], ◌∷◌, ◌++◌, String,
  str_eq, ◌==◌, ltb, leb, if◌then◌else◌, Result, ok, err, ◌>>=◌, ◌>>◌, guard, has, insert_new,
  distinct_from, select, trim,
}
use confidential_content_pla.Prelude.Values.{
  Json, null, boolean, number, string, array, object, Items, nothing, item, Fields, no_field, field,
  get_field, field_names,
}

pub record VeniceKey : Type 0 where
  pub id : String
  pub label : Option String
  pub key : String

pub record KeysetOverlay : Type 0 where
  pub added : List VeniceKey
  pub removed_ids : List String

abbrev pub empty_overlay : KeysetOverlay
empty_overlay = record { added = []; removed_ids = [] }

-- The refusal of an ambiguous state, and the error of the file system.
pub data KeyError : Type 0 where
  unavailable write_failed : KeyError

abbrev pub Outcome : Type 0 → Type 0
Outcome = Result KeyError

abbrev pub is_id_start : ℕ → Bool
is_id_start c = (leb b'a' c && leb c b'z') || (leb b'0' c && leb c b'9')

abbrev pub is_id_character : ℕ → Bool
is_id_character c = is_id_start c || (c == b'_' || c == b'-')

unfoldable pub id_rest : (seen : ℕ) → String → Bool
id_rest seen String.[] = true
id_rest seen (String.◌∷◌ c s) = (is_id_character (code c) && ltb seen 63) && id_rest (suc seen) s

-- `KEY_ID_PATTERN`, `^[a-z0-9][a-z0-9_-]{0,63}$`
unfoldable pub is_key_id : String → Bool
unfolding id_rest
is_key_id String.[] = false
is_key_id (String.◌∷◌ c s) = is_id_start (code c) && id_rest 0 s

abbrev pub ids : List VeniceKey → List String
ids [] = []
ids (k ∷ ks) = k.id ∷ ids ks

-- Every name is one of these.
abbrev pub only_names : List String → List String → Bool
only_names known [] = true
only_names known (f ∷ fs) = has f known && only_names known fs

abbrev pub as_id : (seen : List String) → Option Json → Outcome String
as_id seen (some (string s)) = if is_key_id s && not (has s seen) then ok s else err unavailable
as_id seen _ = err unavailable

-- The trimmed text, or `null` for what trims to nothing.
abbrev pub trimmed : String → Option String
trimmed s = if str_eq (trim s) "" then none else some (trim s)

abbrev pub as_secret : Option Json → Outcome String
as_secret (some (string s)) = if str_eq (trim s) "" then err unavailable else ok (trim s)
as_secret _ = err unavailable

abbrev pub as_label : Option Json → Outcome (Option String)
as_label none = ok none
as_label (some null) = ok none
as_label (some (string s)) = ok (trimmed s)
as_label _ = err unavailable

unfoldable pub parse_fields : (seen : List String) → Fields → Outcome VeniceKey
unfolding is_key_id trim
parse_fields seen key = do
  guard (only_names ("id" ∷ "label" ∷ "key" ∷ []) (field_names key)) unavailable
  id ← as_id seen (get_field "id" key)
  secret ← as_secret (get_field "key" key)
  label ← as_label (get_field "label" key)
  ok (record { id = id; label = label; key = secret })

abbrev pub parse_key : (seen : List String) → Json → Outcome VeniceKey
parse_key seen (object key) = parse_fields seen key
parse_key seen _ = err unavailable

-- `seen` holds the ids of `added`.
unfoldable pub parse_added : Items → (added : List VeniceKey) → Outcome (List VeniceKey)
unfolding parse_fields
parse_added nothing added = ok added
parse_added (item entry rest) added = do
  key ← parse_key (ids added) entry
  parse_added rest (added ++ key ∷ [])

unfoldable pub parse_removed :
    (seen : List String) → Items → (removed : List String) → Outcome (List String)
unfolding is_key_id
parse_removed seen nothing removed = ok removed
parse_removed seen (item entry rest) removed = do
  id ← as_id (seen ++ removed) (some entry)
  parse_removed seen rest (removed ++ id ∷ [])

abbrev pub as_items : Option Json → Outcome Items
as_items (some (array xs)) = ok xs
as_items _ = err unavailable

unfoldable pub parse_object : Fields → Outcome KeysetOverlay
unfolding parse_added parse_removed
parse_object candidate = do
  guard (only_names ("added" ∷ "removedIds" ∷ []) (field_names candidate)) unavailable
  raw_added ← as_items (get_field "added" candidate)
  raw_removed ← as_items (get_field "removedIds" candidate)
  added ← parse_added raw_added []
  removed ← parse_removed (ids added) raw_removed []
  ok (record { added = added; removed_ids = removed })

abbrev pub parse_overlay : Json → Outcome KeysetOverlay
parse_overlay (object candidate) = parse_object candidate
parse_overlay _ = err unavailable

abbrev pub read_overlay : Option Json → Outcome KeysetOverlay
read_overlay none = err unavailable
read_overlay (some parsed) = parse_overlay parsed

-- `JSON.stringify(overlay)`, as the value that it prints.
abbrev pub label_value : Option String → Json
label_value none = null
label_value (some l) = string l

abbrev pub key_value : VeniceKey → Json
key_value k = object (
    field "id" (string k.id)
      (field "label" (label_value k.label) (field "key" (string k.key) no_field)))

abbrev pub key_items : List VeniceKey → Items
key_items [] = nothing
key_items (k ∷ ks) = item (key_value k) (key_items ks)

abbrev pub text_items : List String → Items
text_items [] = nothing
text_items (s ∷ ss) = item (string s) (text_items ss)

abbrev pub overlay_value : KeysetOverlay → Json
overlay_value o = object (
    field "added" (array (key_items o.added))
      (field "removedIds" (array (text_items o.removed_ids)) no_field))
