-- ===== src/KeyStore/Store.antt =====
-- src/providers/veniceKeyStore.ts, class VeniceKeysetStore, over the one file that it reads and writes.
use confidential_content_pla.Prelude.{
  ℕ, Option, none, some, Bool, true, false, not, ◌&&◌, List, [], ◌∷◌, ◌++◌, String, str_eq, ◌==◌,
  if◌then◌else◌, Result, ok, err, has, distinct_from, select,
}
use confidential_content_pla.Prelude.Values.{Json}
use confidential_content_pla.KeyStore.{
  VeniceKey, KeysetOverlay, empty_overlay, KeyError, unavailable, write_failed, Outcome, ids,
  read_overlay, overlay_value, parse_object,
}

pub record Stat : Type 0 where
  pub mtime_ms : ℕ
  pub ctime_ms : ℕ
  pub size : ℕ
  pub ino : ℕ

-- The file: absent, not to be examined, or there with a text that may be no JSON.
pub data File : Type 0 where
  absent hidden : File
  there : Stat → Option Json → File

pub record Store : Type 0 where
  pub boot_keys : List VeniceKey
  pub overlay : KeysetOverlay
  pub loaded_stat : Option Stat
  pub loaded : Bool
  pub observed_overlay : Bool
  pub file : File

unfoldable pub new_store : List VeniceKey → File → Store
new_store boot_keys file = record {
  boot_keys = boot_keys;
  overlay = empty_overlay;
  loaded_stat = none;
  loaded = false;
  observed_overlay = false;
  file = file;
}

abbrev pub same_stat : Option Stat → Stat → Bool
same_stat none stat = false
same_stat (some old) stat =
    old.mtime_ms == stat.mtime_ms
    && (old.size == stat.size && (old.ctime_ms == stat.ctime_ms && old.ino == stat.ino))

abbrev pub adopt : Store → Stat → Outcome KeysetOverlay → Store × Outcome (Unit {0})
adopt s stat (err e) = (s, err unavailable)
adopt s stat (ok overlay) =
    (record s { overlay = overlay; loaded_stat = some stat; loaded = true }, ok tt)

abbrev pub refresh_from : Store → File → Store × Outcome (Unit {0})
refresh_from s absent =
    if s.observed_overlay
    then (s, err unavailable)
    else (record s { overlay = empty_overlay; loaded_stat = none; loaded = true }, ok tt)
refresh_from s hidden = (s, err unavailable)
refresh_from s (there stat content) =
    if s.loaded && same_stat s.loaded_stat stat
    then (record s { observed_overlay = true }, ok tt)
    else adopt (record s { observed_overlay = true }) stat (read_overlay content)

unfoldable pub refresh : Store → Store × Outcome (Unit {0})
unfolding parse_object
refresh s = refresh_from s s.file

-- A write ends well, or leaves the file, or replaces it and then fails to set its mode or to examine it.
pub data WriteResult : Type 0 where
  written : Stat → WriteResult
  not_written : WriteResult
  mode_not_set : Stat → WriteResult

unfoldable pub persist : WriteResult → Store → KeysetOverlay → Store × Outcome (Unit {0})
persist (written stat) s overlay = (
  record s {
    overlay = overlay;
    loaded_stat = some stat;
    loaded = true;
    observed_overlay = true;
    file = there stat (some (overlay_value overlay));
  },
  ok tt,
)
persist not_written s overlay = (s, err write_failed)
persist (mode_not_set stat) s overlay =
    (record s { file = there stat (some (overlay_value overlay)) }, err write_failed)

-- `(boot keys - shadowed) + added`
unfoldable pub keys_of : List VeniceKey → KeysetOverlay → List VeniceKey
keys_of boot overlay =
    select (λ (k : VeniceKey). not (has k.id (overlay.removed_ids ++ ids overlay.added))) boot
    ++ overlay.added

abbrev pub after {ℓ} :
    {A : Type ℓ}
    → Store × Outcome (Unit {0})
    → (Store → Store × Result KeyError A)
    → Store × Result KeyError A
after (s, err e) next = (s, err e)
after (s, ok u) next = next s

unfoldable pub effective_keys : Store → Store × Outcome (List VeniceKey)
unfolding refresh keys_of
effective_keys s = after (refresh s) (λ r. (r, ok (keys_of r.boot_keys r.overlay)))

abbrev pub find_key : String → List VeniceKey → Option String
find_key id [] = none
find_key id (k ∷ ks) = if str_eq k.id id then some k.key else find_key id ks

abbrev pub first_key : List VeniceKey → Option String
first_key [] = none
first_key (k ∷ ks) = some k.key

abbrev pub is_only : String → List VeniceKey → Bool
is_only id (k ∷ []) = str_eq k.id id
is_only id _ = false

abbrev pub ask {ℓ} :
    {A : Type ℓ}
    → (List VeniceKey → A)
    → Store × Outcome (List VeniceKey)
    → Store × Result KeyError A
ask f (s, err e) = (s, err e)
ask f (s, ok keys) = (s, ok (f keys))

unfoldable pub key_by_id : Store → String → Store × Outcome (Option String)
unfolding effective_keys
key_by_id s id = ask (find_key id) (effective_keys s)

unfoldable pub default_key : Store → Store × Outcome (Option String)
unfolding effective_keys
default_key s = ask first_key (effective_keys s)

unfoldable pub is_last_remaining : Store → String → Store × Outcome Bool
unfolding effective_keys
is_last_remaining s id = ask (is_only id) (effective_keys s)

unfoldable pub with_key : VeniceKey → KeysetOverlay → KeysetOverlay
with_key entry o = record {
  added = select (λ (k : VeniceKey). not (str_eq k.id entry.id)) o.added ++ entry ∷ [];
  removed_ids = select (λ id. not (str_eq id entry.id)) o.removed_ids;
}

unfoldable pub add_key : WriteResult → Store → VeniceKey → Store × Outcome (Unit {0})
unfolding refresh persist with_key
add_key result s entry = after (refresh s) (λ r. persist result r (with_key entry r.overlay))

unfoldable pub without_key : List VeniceKey → String → KeysetOverlay → KeysetOverlay
unfolding distinct_from
without_key boot id o = record {
  added = select (λ (k : VeniceKey). not (str_eq k.id id)) o.added;
  removed_ids =
      if has id (ids boot) then distinct_from [] (o.removed_ids ++ id ∷ []) else o.removed_ids;
}

abbrev pub done : Store × Outcome (Unit {0}) → Store × Outcome Bool
done (s, err e) = (s, err e)
done (s, ok u) = (s, ok true)

abbrev pub remove_known :
    WriteResult → String → Store × Outcome (List VeniceKey) → Store × Outcome Bool
remove_known result id (s, err e) = (s, err e)
remove_known result id (s, ok keys) =
    if has id (ids keys)
    then done (persist result s (without_key s.boot_keys id s.overlay))
    else (s, ok false)

-- The second refresh is that of `effectiveKeys`.
unfoldable pub remove_key : WriteResult → Store → String → Store × Outcome Bool
unfolding refresh effective_keys persist without_key
remove_key result s id = after (refresh s) (λ r. remove_known result id (effective_keys r))

-- `server.veniceKeyStore`, for the one provider that has a store.
unfoldable pub provider_credential_store :
    (server : Option Store) → (provider : String) → Option Store
provider_credential_store server provider = if str_eq provider "venice" then server else none
