-- ===== src/KeyStore/Last.antt =====
-- src/providers/veniceKeyStore.ts: `isLastRemaining` tells whether a removal would leave no key.
use mathlib.Core.Path.{subst}
use confidential_content_pla.Prelude.{
  ◌≡◌, refl, sym, ap, ◌∙◌, none, true, false, List, [], ◌∷◌, String, str_eq, eq_iff, eq_refl,
  if◌then◌else◌, ok, has, subst_ok, arith, ◌&&◌,
}
use confidential_content_pla.KeyStore.{VeniceKey, KeysetOverlay, ids, is_key_id}
use confidential_content_pla.KeyStore.Store.{
  Stat, File, new_store, Store, written, keys_of, find_key, first_key, is_only, ask, remove_key,
  is_last_remaining, default_key, without_key,
}
use confidential_content_pla.KeyStore.Keys.{find_key-without_key}
use confidential_content_pla.KeyStore.States.{Stands, said}
use confidential_content_pla.KeyStore.Refinement.{
  Operation, run, AllPermitted, IsBoot, history-Stands,
}
use confidential_content_pla.KeyStore.Writes.{effective_keys_lem, remove_key-Stands}

-- A key that the only one does not hide is none at all.
only_left :
    (id : String) (keys rest : List VeniceKey)
    → is_only id keys ≡ true
    → ((j : String) → find_key j rest ≡ (if str_eq id j then none else find_key j keys))
    → rest ≡ []
only_left id keys [] h f = refl
only_left id [] (r ∷ rest) h f = cc h
only_left id (k ∷ []) (r ∷ rest) h f =
    absurd (ground (arith, f r.id, eq_iff k.id id, eq_iff id r.id, eq_iff k.id r.id, eq_refl r.id))
only_left id (k ∷ l ∷ keys) (r ∷ rest) h f = cc h

only-has : (id : String) (keys : List VeniceKey) → is_only id keys ≡ true → has id (ids keys) ≡ true
only-has id [] h = h
only-has id (k ∷ []) h = ground arith
only-has id (k ∷ l ∷ keys) h = absurd (ground arith)

-- In a store that stands on its file.
removed_last :
    (s : Store) (boot : List VeniceKey) (o : KeysetOverlay) (id : String) (stat : Stat)
    → Stands s boot o
    → ((j : String) → has j (ids boot) ≡ true → is_key_id j ≡ true)
    → (is_last_remaining s id).1 ≡ ok true
    → (default_key (remove_key (written stat) s id).0).1 ≡ ok none
unfolding is_last_remaining default_key
removed_last s boot o id stat h b last =
    let asked : ok (is_only id (keys_of boot o)) ≡ ok true =
      sym (ap (λ x. (ask (is_only id) x).1) (effective_keys_lem s boot o h)) ∙ last in
    let only : is_only id (keys_of boot o) ≡ true =
      subst_ok (λ c. c ≡ true) true (is_only id (keys_of boot o)) (sym asked) refl in
    let known : has id (ids (keys_of boot o)) ≡ true = only-has id (keys_of boot o) only in
    let after = remove_key-Stands (written stat) s boot o id h (b id) tt in
    let stands : Stands (remove_key (written stat) s id).0 boot (without_key boot id o) =
      subst
        (λ c.
          Stands (remove_key (written stat) s id).0 boot
            (if c && true then without_key boot id o else o))
        known after in
    ap (λ x. (ask first_key x).1)
      (effective_keys_lem (remove_key (written stat) s id).0 boot (without_key boot id o) stands)
    ∙ ap (λ keys. ok (first_key keys))
        (only_left id (keys_of boot o) (keys_of boot (without_key boot id o)) only
          (λ j. find_key-without_key j id boot o))

-- In a store that was opened over a readable file, with boot keys whose ids are of the pattern, after any
-- permitted sequence of additions, removals and reopenings: removing the key that `isLastRemaining` calls
-- the last, where the write succeeds, leaves no key.
pub default_key-remove_key :
    (boot : List VeniceKey) (file : File) (o : KeysetOverlay)
    → IsBoot boot
    → said false file ≡ ok o
    → (ops : List Operation) → AllPermitted (new_store boot file) ops
    → (id : String) (stat : Stat)
    → (is_last_remaining (run (new_store boot file) ops) id).1 ≡ ok true
    → (default_key (remove_key (written stat) (run (new_store boot file) ops) id).0).1 ≡ ok none
default_key-remove_key boot file o b h ops p id stat last =
    let (o', stands) = history-Stands boot file o b h ops p in
    removed_last (run (new_store boot file) ops) boot o' id stat stands b last
