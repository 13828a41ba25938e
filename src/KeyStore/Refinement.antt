-- ===== src/KeyStore/Refinement.antt =====
-- src/providers/veniceKeyStore.ts: the store is a finite map from ids to keys, that additions and removals
-- change at one id, across failing writes and new processes over the same file.
use mathlib.Core.Path.{subst}
use confidential_content_pla.Prelude.{
  ◌≡◌, refl, ap, ◌∙◌, Option, none, some, Bool, true, false, ◌&&◌, List, [], ◌∷◌, String, str_eq,
  eq_iff, if◌then◌else◌, ok, has, Bool-cases, inl, inr,
}
use confidential_content_pla.KeyStore.{VeniceKey, KeysetOverlay, ids, is_key_id}
use confidential_content_pla.KeyStore.Store.{
  File, absent, hidden, there, Store, WriteResult, refresh, keys_of, find_key, add_key, remove_key,
  new_store, key_by_id, with_key, without_key,
}
use confidential_content_pla.KeyStore.Keys.{
  find_key-with_key, find_key-without_key, find_key-absent,
}
use confidential_content_pla.KeyStore.Overlays.{IsKey}
use confidential_content_pla.KeyStore.States.{Stands, said, new_store-IsSound}
use confidential_content_pla.KeyStore.Writes.{
  IsFresh, is_replaced, key_by_id_lem, add_key-Stands, remove_key-Stands,
}

pub data Operation : Type 0 where
  add : WriteResult → VeniceKey → Operation
  remove : WriteResult → String → Operation
  reopen : Operation

abbrev pub step : Store → Operation → Store
step s (add result entry) = (add_key result s entry).0
step s (remove result id) = (remove_key result s id).0
step s reopen = new_store s.boot_keys s.file

abbrev pub run : Store → List Operation → Store
run s [] = s
run s (op ∷ ops) = run (step s op) ops

-- What an operation needs: a well-formed key, and for a write whose mode is not set a file that then looks
-- changed.
abbrev pub Permits : Store → Operation → Type 0
Permits s (add result entry) = IsKey entry × IsFresh result (refresh s).0
Permits s (remove result id) = IsFresh result (refresh (refresh s).0).0
Permits s reopen = Unit {0}

abbrev pub AllPermitted : Store → List Operation → Type 0
AllPermitted s [] = Unit {0}
AllPermitted s (op ∷ ops) = Permits s op × AllPermitted (step s op) ops

-- The map, and what an operation does to it: nothing where the file is not replaced.
abbrev pub KeyMap : Type 0
KeyMap = String → Option String

abbrev pub change : KeyMap → Operation → KeyMap
change m (add result entry) id =
    if is_replaced result && str_eq entry.id id then some entry.key else m id
change m (remove result i) id = if is_replaced result && str_eq i id then none else m id
change m reopen id = m id

abbrev pub changes : KeyMap → List Operation → KeyMap
changes m [] = m
changes m (op ∷ ops) = changes (change m op) ops

-- Every key of the boot configuration has an id of the pattern.
abbrev pub IsBoot : List VeniceKey → Type 0
IsBoot boot = (id : String) → has id (ids boot) ≡ true → is_key_id id ≡ true

-- The store shows the map.
record Shows (s : Store) (boot : List VeniceKey) (m : KeyMap) : Type 0 where
  overlay : KeysetOverlay
  stands : Stands s boot overlay
  shown : (id : String) → find_key id (keys_of boot overlay) ≡ m id

added-shown :
    (replaced : Bool) (boot : List VeniceKey) (entry : VeniceKey) (o : KeysetOverlay) (id : String)
    (v : Option String)
    → find_key id (keys_of boot o) ≡ v
    → find_key id (keys_of boot (if replaced then with_key entry o else o))
      ≡ (if replaced && str_eq entry.id id then some entry.key else v)
added-shown true boot entry o id v h =
    find_key-with_key id boot entry o ∙ ap (λ u. if str_eq entry.id id then some entry.key else u) h
added-shown false boot entry o id v h = h

absent-shown :
    (i id : String) (keys : List VeniceKey)
    → has i (ids keys) ≡ false
    → find_key id keys ≡ (if str_eq i id then none else find_key id keys)
absent-shown i id keys h = elim (Bool-cases (str_eq i id)) [
  | inl same ↦
      rw same
        (subst (λ j. find_key j keys ≡ none) ((eq_iff i id).0 same) (find_key-absent i keys h))
  | inr other ↦ rw other
]

removed-shown :
    (replaced : Bool) (boot : List VeniceKey) (i : String) (o : KeysetOverlay) (id : String)
    (v : Option String)
    → find_key id (keys_of boot o) ≡ v
    → find_key id (
        keys_of boot (if has i (ids (keys_of boot o)) && replaced then without_key boot i o else o))
      ≡ (if replaced && str_eq i id then none else v)
removed-shown true boot i o id v h = elim (Bool-cases (has i (ids (keys_of boot o)))) [
  | inl known ↦
      rw known (find_key-without_key id i boot o ∙ ap (λ u. if str_eq i id then none else u) h)
  | inr unknown ↦
      rw unknown
        (absent-shown i id (keys_of boot o) unknown ∙ ap (λ u. if str_eq i id then none else u) h)
]
removed-shown false boot i o id v h = elim (Bool-cases (has i (ids (keys_of boot o)))) [
  | inl known ↦ rw known h
  | inr unknown ↦ rw unknown h
]

said_anyhow :
    (observed : Bool) (f : File) (o : KeysetOverlay) → said observed f ≡ ok o → said false f ≡ ok o
said_anyhow true absent o h = cc h
said_anyhow false absent o h = h
said_anyhow observed hidden o h = h
said_anyhow observed (there stat content) o h = h

reopened :
    (s : Store) (boot : List VeniceKey) (o : KeysetOverlay)
    → Stands s boot o
    → Stands (new_store s.boot_keys s.file) boot o
unfolding new_store
reopened s boot o (v, b, h) =
    (new_store-IsSound s.boot_keys s.file, b, said_anyhow s.observed_overlay s.file o h)

step-Shows :
    (s : Store) (boot : List VeniceKey) (m : KeyMap) (op : Operation)
    → IsBoot boot
    → Permits s op
    → Shows s boot m
    → Shows (step s op) boot (change m op)
step-Shows s boot m (add result entry) b p w = record {
  overlay = if is_replaced result then with_key entry w.overlay else w.overlay;
  stands = add_key-Stands result s boot w.overlay entry w.stands p.0 p.1;
  shown = λ id. added-shown (is_replaced result) boot entry w.overlay id (m id) (w.shown id);
}
step-Shows s boot m (remove result i) b p w = record {
  overlay =
      if has i (ids (keys_of boot w.overlay)) && is_replaced result
      then without_key boot i w.overlay
      else w.overlay;
  stands = remove_key-Stands result s boot w.overlay i w.stands (b i) p;
  shown = λ id. removed-shown (is_replaced result) boot i w.overlay id (m id) (w.shown id);
}
step-Shows s boot m reopen b p w = record {
  overlay = w.overlay;
  stands = reopened s boot w.overlay w.stands;
  shown = w.shown;
}

run-Shows :
    (s : Store) (boot : List VeniceKey) (m : KeyMap) (ops : List Operation)
    → IsBoot boot
    → AllPermitted s ops
    → Shows s boot m
    → Shows (run s ops) boot (changes m ops)
run-Shows s boot m [] b p w = w
run-Shows s boot m (op ∷ ops) b p w =
    run-Shows (step s op) boot (change m op) ops b p.1 (step-Shows s boot m op b p.0 w)

opened-Shows :
    (boot : List VeniceKey) (file : File) (o : KeysetOverlay)
    → said false file ≡ ok o
    → Shows (new_store boot file) boot (λ i. find_key i (keys_of boot o))
unfolding new_store
opened-Shows boot file o h = record {
  overlay = o;
  stands = (new_store-IsSound boot file, refl, h);
  shown = λ i. refl;
}

module _ (boot : List VeniceKey) (file : File) (o : KeysetOverlay) (b : IsBoot boot)
    (h : said false file ≡ ok o) (ops : List Operation)
    (p : AllPermitted (new_store boot file) ops) where
  history-Shows :
      Shows (run (new_store boot file) ops) boot (changes (λ i. find_key i (keys_of boot o)) ops)
  history-Shows =
      run-Shows (new_store boot file) boot (λ i. find_key i (keys_of boot o)) ops b p
        (opened-Shows boot file o h)

  -- After the operations the store still stands on its file.
  pub history-Stands : (o' : KeysetOverlay) × Stands (run (new_store boot file) ops) boot o'
  history-Stands = (history-Shows.overlay, history-Shows.stands)

-- A store opened over a readable file finds for every id, after any permitted sequence of additions,
-- removals and reopenings, the key that a map finds which held the boot keys under the file's overlay and
-- was changed at one id by each operation that replaced the file.
pub key_by_id-run :
    (boot : List VeniceKey) (file : File) (o : KeysetOverlay)
    → IsBoot boot
    → said false file ≡ ok o
    → (ops : List Operation) → AllPermitted (new_store boot file) ops
    → (id : String)
    → (key_by_id (run (new_store boot file) ops) id).1
      ≡ ok (changes (λ i. find_key i (keys_of boot o)) ops id)
key_by_id-run boot file o b h ops p id =
    let w = history-Shows boot file o b h ops p in
    key_by_id_lem (run (new_store boot file) ops) boot w.overlay id w.stands ∙ ap ok (w.shown id)
