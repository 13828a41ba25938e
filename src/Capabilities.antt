-- ===== src/Capabilities.antt =====
-- src/credentials/consumedCapabilities.ts: the log of used capabilities, a file that every call reads
-- again. The file holds what `JSON.parse` makes of it; how a write ends is an argument, and so is the time.
pub mod Entries
pub mod Decisions
pub mod Worlds
pub mod SingleUse
mod Tests
use Prim.Native.Char.{code}
use confidential_content_pla.Prelude.{
  ℕ, suc, ◌+◌, ◌*◌, ◌≡◌, Option, none, some, Bool, true, false, not, ◌&&◌, ◌||◌, List, [], ◌∷◌,
  ◌++◌, String, str_eq, ◌==◌, ltb, leb, if◌then◌else◌, Result, ok, err, ◌>>=◌, ◌>>◌, guard, has,
  map, select, length, sort_texts,
}
use confidential_content_pla.Prelude.Int.{pos}
use confidential_content_pla.Prelude.Values.{
  Number, integer, Json, null, boolean, number, string, array, object, Items, nothing, item, Fields,
  no_field, field, max_safe_integer, safe_natural, get_field, field_names, join, count_items,
}

pub record ConsumedEntry : Type 0 where
  pub capability_id : String
  pub consumed_at_ms : ℕ
  pub expires_at_ms : ℕ

pub data ConsumedCapabilityLogError : Type 0 where
  unavailable : ConsumedCapabilityLogError

abbrev pub retention_grace_ms : ℕ
retention_grace_ms = 24 * 60 * 60 * 1_000

abbrev pub max_entries : ℕ
max_entries = 10_000

abbrev pub is_id_start : ℕ → Bool
is_id_start c = (leb b'a' c && leb c b'z') || (leb b'0' c && leb c b'9')

abbrev pub is_id_character : ℕ → Bool
is_id_character c = is_id_start c || (c == b'_' || c == b'-')

-- From 2 to 63 characters more, `seen` of them read.
unfoldable pub id_rest : (seen : ℕ) → String → Bool
id_rest seen String.[] = leb 2 seen
id_rest seen (String.◌∷◌ c s) = (is_id_character (code c) && ltb seen 63) && id_rest (suc seen) s

-- `CAPABILITY_ID_PATTERN`, `^[a-z0-9][a-z0-9_-]{2,63}$`
unfoldable pub is_capability_id : String → Bool
unfolding id_rest
is_capability_id String.[] = false
is_capability_id (String.◌∷◌ c s) = is_id_start (code c) && id_rest 0 s

abbrev pub Outcome : Type 0 → Type 0
Outcome = Result ConsumedCapabilityLogError

abbrev pub as_id : Option Json → Outcome String
as_id (some (string s)) = if is_capability_id s then ok s else err unavailable
as_id _ = err unavailable

abbrev pub found {ℓ} : {A : Type ℓ} → Option A → Result ConsumedCapabilityLogError A
found none = err unavailable
found (some a) = ok a

abbrev pub as_time : Option Json → Outcome ℕ
as_time (some (number n)) = found (safe_natural n)
as_time _ = err unavailable

unfoldable pub parse_fields : (seen : List String) → Fields → Outcome ConsumedEntry
unfolding is_capability_id
parse_fields seen entry = do
  guard (str_eq (join (sort_texts (field_names entry))) "capabilityId,consumedAtMs,expiresAtMs")
      unavailable
  id ← as_id (get_field "capabilityId" entry)
  guard (not (has id seen)) unavailable
  consumed ← as_time (get_field "consumedAtMs" entry)
  expires ← as_time (get_field "expiresAtMs" entry)
  ok (record { capability_id = id; consumed_at_ms = consumed; expires_at_ms = expires })

abbrev pub parse_entry : (seen : List String) → Json → Outcome ConsumedEntry
parse_entry seen (object entry) = parse_fields seen entry
parse_entry seen _ = err unavailable

abbrev pub ids : List ConsumedEntry → List String
ids [] = []
ids (e ∷ es) = e.capability_id ∷ ids es

-- `seen` holds the ids of `entries`.
unfoldable pub parse_items : Items → (entries : List ConsumedEntry) → Outcome (List ConsumedEntry)
unfolding parse_fields
parse_items nothing entries = ok entries
parse_items (item raw rest) entries = do
  entry ← parse_entry (ids entries) raw
  parse_items rest (entries ++ entry ∷ [])

unfoldable pub parse_state : Json → Outcome (List ConsumedEntry)
unfolding parse_items
parse_state (array raw) = do
  guard (leb (count_items raw) max_entries) unavailable
  parse_items raw []
parse_state _ = err unavailable

-- The file: absent, not to be had or no regular file, or a text that may be no JSON.
pub data File : Type 0 where
  absent irregular : File
  holds : Option Json → File

pub record World : Type 0 where
  pub file : File
  pub observed_persisted_state : Bool

abbrev pub read : Option Json → Outcome (List ConsumedEntry)
read none = err unavailable
read (some parsed) = parse_state parsed

abbrev pub load_file : File → (observed : Bool) → Outcome (List ConsumedEntry)
load_file absent observed = if observed then err unavailable else ok []
load_file irregular observed = err unavailable
load_file (holds content) observed = read content

-- `load`: what it gives, and what it remembers.
unfoldable pub load : World → Outcome (List ConsumedEntry)
unfolding parse_state
load w = load_file w.file w.observed_persisted_state

abbrev pub is_regular : File → Bool
is_regular (holds content) = true
is_regular _ = false

unfoldable pub remember : World → World
remember w = record w { observed_persisted_state = w.observed_persisted_state || is_regular w.file }

-- `JSON.stringify(entries)`, as the value that it prints.
abbrev pub entry_value : ConsumedEntry → Json
entry_value e = object (
    field "capabilityId" (string e.capability_id) (
      field "consumedAtMs" (number (integer (pos e.consumed_at_ms)))
        (field "expiresAtMs" (number (integer (pos e.expires_at_ms))) no_field)))

abbrev pub entry_items : List ConsumedEntry → Items
entry_items [] = nothing
entry_items (e ∷ es) = item (entry_value e) (entry_items es)

-- A write ends well, or leaves the file, or replaces it and then fails to set its mode.
pub data WriteResult : Type 0 where
  written not_written mode_not_set : WriteResult

abbrev pub is_used : String → List ConsumedEntry → Bool
is_used id entries = has id (ids entries)

abbrev pub is_retained : (now : ℕ) → ConsumedEntry → Bool
is_retained now entry = ltb now (entry.expires_at_ms + retention_grace_ms)

-- What `consume` decides from the entries: nothing to write for a capability that was used.
unfoldable pub decide :
    List ConsumedEntry
    → (capability_id : String) → (expires_at_seconds now : Number)
    → Outcome (Option (List ConsumedEntry))
unfolding is_capability_id
decide entries id expires_at_seconds now = if is_used id entries then ok none else do
  guard (is_capability_id id) unavailable
  seconds ← found (safe_natural expires_at_seconds)
  guard (leb (seconds * 1_000) max_safe_integer) unavailable
  time ← found (safe_natural now)
  let retained = select (is_retained time) entries
  guard (ltb (length retained) max_entries) unavailable
  ok (
      some (
        retained
        ++ record { capability_id = id; consumed_at_ms = time; expires_at_ms = seconds * 1_000 }
          ∷ []))

abbrev pub persisted : World → List ConsumedEntry → World
persisted w entries = record {
  file = holds (some (array (entry_items entries)));
  observed_persisted_state = true;
}

-- `persist`, where there is something to write; the result is `firstUse`.
abbrev pub settle :
    WriteResult → World → Outcome (Option (List ConsumedEntry)) → World × Outcome Bool
settle outcome w (err e) = (w, err e)
settle outcome w (ok none) = (w, ok false)
settle written w (ok (some entries)) = (persisted w entries, ok true)
settle not_written w (ok (some entries)) = (w, err unavailable)
settle mode_not_set w (ok (some entries)) = (persisted w entries, err unavailable)

unfoldable pub consume :
    WriteResult
    → World
    → (capability_id : String) → (expires_at_seconds now : Number) → World × Outcome Bool
unfolding load remember decide
consume outcome w id expires_at_seconds now =
    settle outcome (remember w) (do entries ← load w; decide entries id expires_at_seconds now)

unfoldable pub was_consumed : World → String → World × Outcome Bool
unfolding load remember
was_consumed w id = (remember w, do entries ← load w; ok (is_used id entries))
