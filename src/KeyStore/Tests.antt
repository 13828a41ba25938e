-- ===== src/KeyStore/Tests.antt =====
-- src/providers/veniceKeyStore.ts: a store over one boot key.
use mathlib.Core.Path.{subst}
use confidential_content_pla.Prelude.{
  ℕ, ◌≡◌, refl, none, some, true, List, [], ◌∷◌, eq_iff, ok, trim, arith,
}
use confidential_content_pla.KeyStore.{VeniceKey, empty_overlay, is_key_id, parse_object}
use confidential_content_pla.KeyStore.Store.{
  Stat, absent, written, not_written, mode_not_set, new_store, keys_of, key_by_id, default_key,
  is_last_remaining, add_key, remove_key, find_key,
}
use confidential_content_pla.KeyStore.Overlays.{IsKey}
use confidential_content_pla.KeyStore.Refinement.{
  Operation, add, remove, reopen, run, AllPermitted, changes, IsBoot, key_by_id-run,
}
use confidential_content_pla.KeyStore.Last.{default_key-remove_key}

abbrev boot : List VeniceKey
boot = record { id = "boot"; label = none; key = "s-0" } ∷ []

abbrev stat : ℕ → Stat
stat n = record { mtime_ms = n; ctime_ms = n; size = 90; ino = n }

abbrev extra : VeniceKey
extra = record { id = "extra"; label = some "Extra"; key = "s-1" }

abbrev operations : List Operation
operations =
    add (written (stat 1)) extra
    ∷ remove (mode_not_set (stat 2)) "boot"
    ∷ reopen
    ∷ remove not_written "extra"
    ∷ []

extra-IsKey : IsKey extra
unfolding is_key_id trim
extra-IsKey = (refl, (refl, refl), (refl, refl))

boot-IsBoot : IsBoot boot
unfolding is_key_id
boot-IsBoot id h = subst (λ j. is_key_id j ≡ true) ((eq_iff "boot" id).0 (ground arith)) refl

operations-AllPermitted : AllPermitted (new_store boot absent) operations
unfolding add_key remove_key new_store parse_object is_key_id trim
operations-AllPermitted = ((extra-IsKey, tt), (refl, (tt, (tt, tt))))

extra_found : (key_by_id (run (new_store boot absent) operations) "extra").1 ≡ ok (some "s-1")
unfolding key_by_id add_key remove_key new_store parse_object is_key_id trim
extra_found = refl

key_by_id-run_example :
    (key_by_id (run (new_store boot absent) operations) "boot").1
    ≡ ok (changes (λ i. find_key i (keys_of boot empty_overlay)) operations "boot")
key_by_id-run_example =
    key_by_id-run boot absent empty_overlay boot-IsBoot refl operations operations-AllPermitted
      "boot"

abbrev emptied : List Operation
emptied = add (written (stat 1)) extra ∷ remove (written (stat 2)) "boot" ∷ reopen ∷ []

emptied-AllPermitted : AllPermitted (new_store boot absent) emptied
unfolding add_key remove_key new_store parse_object is_key_id trim
emptied-AllPermitted = ((extra-IsKey, tt), (tt, (tt, tt)))

extra_is_last : (is_last_remaining (run (new_store boot absent) emptied) "extra").1 ≡ ok true
unfolding is_last_remaining add_key remove_key new_store parse_object is_key_id trim
extra_is_last = refl

last_example :
    (default_key (remove_key (written (stat 3)) (run (new_store boot absent) emptied) "extra").0).1
    ≡ ok none
last_example =
    default_key-remove_key boot absent empty_overlay boot-IsBoot refl emptied emptied-AllPermitted
      "extra" (stat 3) extra_is_last
