-- ===== src/KeyStore/Writes.antt =====
-- src/providers/veniceKeyStore.ts: what the file says after a call that writes.
use mathlib.Core.Path.{subst}
use confidential_content_pla.Prelude.{
  ◌≡◌, refl, sym, ap, ◌∙◌, Option, some, Bool, true, false, ◌&&◌, List, String, if◌then◌else◌, ok,
  err, has, Bool-cases, inl, inr, arith,
}
use confidential_content_pla.Prelude.Values.{Json}
use confidential_content_pla.KeyStore.{
  VeniceKey, KeysetOverlay, Outcome, ids, is_key_id, read_overlay, overlay_value,
}
use confidential_content_pla.KeyStore.Store.{
  Stat, there, Store, same_stat, refresh, WriteResult, written, not_written, mode_not_set, persist,
  after, keys_of, effective_keys, with_key, without_key, add_key, remove_key, remove_known, done,
  key_by_id, ask, find_key,
}
use confidential_content_pla.KeyStore.Overlays.{IsKey, IsOverlay, parse-overlay_value}
use confidential_content_pla.KeyStore.Changes.{with_key-IsOverlay, without_key-IsOverlay}
use confidential_content_pla.KeyStore.States.{Stands, Refreshed, refresh_lem, there_content}

-- A write whose mode is not set is told apart from the file as it was.
abbrev pub IsFresh : WriteResult → Store → Type 0
IsFresh (mode_not_set stat) s = same_stat s.loaded_stat stat ≡ false
IsFresh _ s = Unit {0}

abbrev pub is_replaced : WriteResult → Bool
is_replaced not_written = false
is_replaced _ = true

both-true : (a b : Bool) → (a && b) ≡ true → b ≡ true
both-true a b h = ground arith

contradiction : (b : Bool) → b ≡ true → b ≡ false → ⊥
contradiction b h k = ground arith

there_stat : (s t : Stat) (c d : Option Json) → there s c ≡ there t d → s ≡ t
there_stat s t c d e = cc e

-- After a write the file says the new overlay, if it was replaced.
pub persist-Stands :
    (result : WriteResult) (s : Store) (boot : List VeniceKey) (o changed : KeysetOverlay)
    → Stands s boot o
    → IsOverlay changed
    → IsFresh result s
    → Stands (persist result s changed).0 boot (if is_replaced result then changed else o)
unfolding persist
persist-Stands (written stat) s boot o changed (v, b, h) w f = (
  record {
    overlay_valid = w;
    coherent = λ t d e c.
        ap read_overlay (sym (there_content stat t (some (overlay_value changed)) d e))
        ∙ parse-overlay_value changed w;
  },
  b,
  parse-overlay_value changed w,
)
persist-Stands not_written s boot o changed (v, b, h) w f = (v, b, h)
persist-Stands (mode_not_set stat) s boot o changed (v, b, h) w f = (
  record {
    overlay_valid = v.overlay_valid;
    coherent = λ t d e c. absurd (
        contradiction (same_stat s.loaded_stat stat)
          (ap (same_stat s.loaded_stat) (there_stat stat t (some (overlay_value changed)) d e)
            ∙ both-true s.loaded (same_stat s.loaded_stat t) c)
          f);
  },
  b,
  parse-overlay_value changed w,
)

-- A refresh that succeeds, as an equation.
refreshed :
    (s : Store) (boot : List VeniceKey) (o : KeysetOverlay)
    → Stands s boot o
    → refresh s ≡ ((refresh s).0, ok tt)
refreshed s boot o h = ap (λ u. ((refresh s).0, u)) (refresh_lem s boot o h).fine

-- The keys in effect are those of the overlay that the file says.
pub effective_keys_lem :
    (s : Store) (boot : List VeniceKey) (o : KeysetOverlay)
    → Stands s boot o
    → effective_keys s ≡ ((refresh s).0, ok (keys_of boot o))
unfolding effective_keys
effective_keys_lem s boot o h =
    let r = refresh_lem s boot o h in
    ap (λ x. after x (λ t. (t, ok (keys_of t.boot_keys t.overlay)))) (refreshed s boot o h)
    ∙ ap (λ b. ((refresh s).0, ok (keys_of b (refresh s).0.overlay))) r.stands.1
    ∙ ap (λ p. ((refresh s).0, ok (keys_of boot p))) r.current

pub key_by_id_lem :
    (s : Store) (boot : List VeniceKey) (o : KeysetOverlay) (id : String)
    → Stands s boot o
    → (key_by_id s id).1 ≡ ok (find_key id (keys_of boot o))
unfolding key_by_id
key_by_id_lem s boot o id h = ap (λ x. (ask (find_key id) x).1) (effective_keys_lem s boot o h)

pub add_key-Stands :
    (result : WriteResult) (s : Store) (boot : List VeniceKey) (o : KeysetOverlay)
    (entry : VeniceKey)
    → Stands s boot o
    → IsKey entry
    → IsFresh result (refresh s).0
    → Stands (add_key result s entry).0 boot (if is_replaced result then with_key entry o else o)
unfolding add_key
add_key-Stands result s boot o entry h k f =
    let r = refresh_lem s boot o h in
    let valid : IsOverlay (refresh s).0.overlay = r.stands.0.overlay_valid in
    let made =
      persist-Stands result (refresh s).0 boot o (with_key entry (refresh s).0.overlay) r.stands
        (with_key-IsOverlay entry (refresh s).0.overlay k valid) f in
    subst (λ x. Stands x boot (if is_replaced result then with_key entry o else o))
      (ap (λ x. (after x (λ t. persist result t (with_key entry t.overlay))).0)
        (sym (refreshed s boot o h)))
      (subst
        (λ p.
          Stands (persist result (refresh s).0 (with_key entry (refresh s).0.overlay)).0 boot
            (if is_replaced result then with_key entry p else o))
        r.current made)

done_state : (x : Store × Outcome (Unit {0})) → (done x).0 ≡ x.0
done_state (s, err e) = refl
done_state (s, ok u) = refl

remove_known-Stands :
    (result : WriteResult) (s : Store) (boot : List VeniceKey) (o : KeysetOverlay) (id : String)
    → Refreshed s boot o (refresh s)
    → (has id (ids boot) ≡ true → is_key_id id ≡ true)
    → IsFresh result (refresh s).0
    → Stands
        (remove_known result id ((refresh s).0, ok (keys_of boot o))).0
        boot
        (if has id (ids (keys_of boot o)) && is_replaced result then without_key boot id o else o)
remove_known-Stands result s boot o id r valid f =
    elim (Bool-cases (has id (ids (keys_of boot o)))) [
      | inl known ↦
          let t : Store = (refresh s).0 in
          let overlay = λ (b : List VeniceKey) (p : KeysetOverlay). without_key b id p in
          let made =
            persist-Stands result t boot o (without_key boot id o) r.stands
              (without_key-IsOverlay boot id o (subst IsOverlay r.current r.stands.0.overlay_valid)
                valid)
              f in
          let same : without_key t.boot_keys id t.overlay ≡ without_key boot id o =
            ap (λ b. without_key b id t.overlay) r.stands.1 ∙ ap (without_key boot id) r.current in
          rw known (
            subst (λ x. Stands x boot (if is_replaced result then without_key boot id o else o))
              (sym (
                done_state (persist result t (without_key t.boot_keys id t.overlay))
                ∙ ap (λ p. (persist result t p).0) same))
              made)
      | inr unknown ↦ rw unknown r.stands
    ]

pub remove_key-Stands :
    (result : WriteResult) (s : Store) (boot : List VeniceKey) (o : KeysetOverlay) (id : String)
    → Stands s boot o
    → (has id (ids boot) ≡ true → is_key_id id ≡ true)
    → IsFresh result (refresh (refresh s).0).0
    → Stands
        (remove_key result s id).0
        boot
        (if has id (ids (keys_of boot o)) && is_replaced result then without_key boot id o else o)
unfolding remove_key
remove_key-Stands result s boot o id h valid f =
    let r = refresh_lem s boot o h in
    let path : (remove_key result s id).0
        ≡ (remove_known result id ((refresh (refresh s).0).0, ok (keys_of boot o))).0 =
      ap (λ x. (after x (λ t. remove_known result id (effective_keys t))).0) (refreshed s boot o h)
      ∙ ap (λ x. (remove_known result id x).0) (effective_keys_lem (refresh s).0 boot o r.stands) in
    subst
      (λ x.
        Stands x boot (
          if has id (ids (keys_of boot o)) && is_replaced result then without_key boot id o else o))
      (sym path)
      (remove_known-Stands result (refresh s).0 boot o id
        (refresh_lem (refresh s).0 boot o r.stands) valid f)
