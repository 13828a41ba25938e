-- ===== src/KeyStore/Changes.antt =====
-- src/providers/veniceKeyStore.ts: an overlay stays well formed when a key is added or removed.
use mathlib.Core.Path.{subst}
use confidential_content_pla.Prelude.{
  ◌≡◌, refl, sym, ap, ◌∙◌, Bool, true, false, not, List, [], ◌∷◌, ◌++◌, String, str_eq, eq_iff,
  eq_refl, if◌then◌else◌, has, Distinct, Distinct-append_new, has-append, distinct_from, All,
  All-append, All-select, All-map, select, Bool-cases, inl, inr, arith,
}
use confidential_content_pla.KeyStore.{VeniceKey, KeysetOverlay, ids, is_key_id}
use confidential_content_pla.KeyStore.Store.{with_key, without_key}
use confidential_content_pla.KeyStore.Keys.{ids-append, has-ids_kept}
use confidential_content_pla.KeyStore.Overlays.{IsKey, Apart, IsOverlay}

has-ids-select :
    (s : String) (p : VeniceKey → Bool) (ks : List VeniceKey)
    → has s (ids ks) ≡ false
    → has s (ids (select p ks)) ≡ false
has-ids-select s p [] h = refl
has-ids-select s p (k ∷ ks) h = ground (arith, has-ids-select s p ks)

Distinct-ids-select :
    (p : VeniceKey → Bool) (ks : List VeniceKey) → Distinct (ids ks) → Distinct (ids (select p ks))
Distinct-ids-select p [] d = tt
Distinct-ids-select p (k ∷ ks) d = elim (Bool-cases (p k)) [
  | inl stays ↦ rw stays (has-ids-select k.id p ks d.0, Distinct-ids-select p ks d.1)
  | inr goes ↦ rw goes (Distinct-ids-select p ks d.1)
]

has-select :
    (s : String) (p : String → Bool) (ss : List String)
    → has s ss ≡ false
    → has s (select p ss) ≡ false
has-select s p [] h = refl
has-select s p (t ∷ ss) h = ground (arith, has-select s p ss)

Distinct-select : (p : String → Bool) (ss : List String) → Distinct ss → Distinct (select p ss)
Distinct-select p [] d = tt
Distinct-select p (s ∷ ss) d = elim (Bool-cases (p s)) [
  | inl stays ↦ rw stays (has-select s p ss d.0, Distinct-select p ss d.1)
  | inr goes ↦ rw goes (Distinct-select p ss d.1)
]

-- The others, without this id.
abbrev others : String → List VeniceKey → List VeniceKey
others i = select (λ (k : VeniceKey). not (str_eq k.id i))

not-others : (i : String) (ks : List VeniceKey) → has i (ids (others i ks)) ≡ false
not-others i ks = has-ids_kept i i ks ∙ rw (eq_refl i)

Apart-with_key :
    (entry : VeniceKey) (ks : List VeniceKey) (ss : List String)
    → All (Apart ks) ss
    → All (Apart (others entry.id ks ++ entry ∷ [])) (select (λ s. not (str_eq s entry.id)) ss)
Apart-with_key entry ks [] a = tt
Apart-with_key entry ks (s ∷ ss) a = elim (Bool-cases (str_eq s entry.id)) [
  | inl same ↦ rw same (Apart-with_key entry ks ss a.1)
  | inr other ↦
      let new : has s (ids (others entry.id ks ++ entry ∷ [])) ≡ false =
        ap (has s) (ids-append (others entry.id ks) (entry ∷ []))
        ∙ has-append s (ids (others entry.id ks)) (entry.id ∷ [])
        ∙ ground (
          arith,
          has-ids-select s (λ (k : VeniceKey). not (str_eq k.id entry.id)) ks a.0,
          eq_iff s entry.id,
          eq_iff entry.id s,
        ) in
      rw other (new, Apart-with_key entry ks ss a.1)
]

pub with_key-IsOverlay :
    (entry : VeniceKey) (o : KeysetOverlay)
    → IsKey entry
    → IsOverlay o
    → IsOverlay (with_key entry o)
unfolding with_key
with_key-IsOverlay entry o k v =
    let p = λ (j : VeniceKey). not (str_eq j.id entry.id) in
    record {
      keys =
          All-append IsKey (select p o.added) (entry ∷ []) (All-select IsKey p o.added v.keys)
            (k, tt);
      added_distinct = subst Distinct (sym (ids-append (select p o.added) (entry ∷ []))) (
          Distinct-append_new entry.id (ids (select p o.added)) (not-others entry.id o.added)
            (Distinct-ids-select p o.added v.added_distinct));
      removed_valid =
          All-select (λ s. is_key_id s ≡ true) (λ s. not (str_eq s entry.id)) o.removed_ids
            v.removed_valid;
      removed_distinct =
          Distinct-select (λ s. not (str_eq s entry.id)) o.removed_ids v.removed_distinct;
      apart = Apart-with_key entry o.added o.removed_ids v.apart;
    }

All-distinct_from {ℓ} :
    (P : String → Type ℓ) (out ss : List String)
    → All P out
    → All P ss
    → All P (distinct_from out ss)
unfolding distinct_from
All-distinct_from P out [] h k = h
All-distinct_from P out (s ∷ ss) h k = elim (Bool-cases (has s out)) [
  | inl known ↦ rw known (All-distinct_from P out ss h k.1)
  | inr new ↦
      rw new (All-distinct_from P (out ++ s ∷ []) ss (All-append P out (s ∷ []) h (k.0, tt)) k.1)
]

distinct_from-Distinct : (out ss : List String) → Distinct out → Distinct (distinct_from out ss)
unfolding distinct_from
distinct_from-Distinct out [] d = d
distinct_from-Distinct out (s ∷ ss) d = elim (Bool-cases (has s out)) [
  | inl known ↦ rw known (distinct_from-Distinct out ss d)
  | inr new ↦ rw new (distinct_from-Distinct (out ++ s ∷ []) ss (Distinct-append_new s out new d))
]

-- What the removed ids are after a removal: well formed, each once, and not among the added keys.
abbrev Removed : List VeniceKey → List String → Type 0
Removed added ss = All (λ s. is_key_id s ≡ true) ss × Distinct ss × All (Apart added) ss

without-Removed :
    (boot : List VeniceKey) (i : String) (o : KeysetOverlay)
    → IsOverlay o
    → (has i (ids boot) ≡ true → is_key_id i ≡ true)
    → Removed
        (others i o.added)
        (if has i (ids boot) then distinct_from [] (o.removed_ids ++ i ∷ []) else o.removed_ids)
without-Removed boot i o v valid =
    let away : All (Apart (others i o.added)) o.removed_ids =
      All-map {P = Apart o.added}
        (λ s h. has-ids-select s (λ (k : VeniceKey). not (str_eq k.id i)) o.added h) o.removed_ids
        v.apart in
    elim (Bool-cases (has i (ids boot))) [
      | inl booted ↦ rw booted (
        All-distinct_from (λ s. is_key_id s ≡ true) [] (o.removed_ids ++ i ∷ []) tt
            (All-append (λ s. is_key_id s ≡ true) o.removed_ids (i ∷ []) v.removed_valid
              (valid booted, tt)),
        distinct_from-Distinct [] (o.removed_ids ++ i ∷ []) tt,
        All-distinct_from (Apart (others i o.added)) [] (o.removed_ids ++ i ∷ []) tt (
            All-append (Apart (others i o.added)) o.removed_ids (i ∷ []) away
              (not-others i o.added, tt)),
      )
      | inr added_only ↦ rw added_only (v.removed_valid, v.removed_distinct, away)
    ]

pub without_key-IsOverlay :
    (boot : List VeniceKey) (i : String) (o : KeysetOverlay)
    → IsOverlay o
    → (has i (ids boot) ≡ true → is_key_id i ≡ true)
    → IsOverlay (without_key boot i o)
unfolding without_key
without_key-IsOverlay boot i o v valid =
    let r = without-Removed boot i o v valid in
    let p = λ (j : VeniceKey). not (str_eq j.id i) in
    record {
      keys = All-select IsKey p o.added v.keys;
      added_distinct = Distinct-ids-select p o.added v.added_distinct;
      removed_valid = r.0;
      removed_distinct = r.1;
      apart = r.2;
    }
