-- ===== src/KeyStore/Keys.antt =====
-- src/providers/veniceKeyStore.ts: which key an id finds under an overlay, before and after a change.
use confidential_content_pla.Prelude.{
  ◌≡◌, refl, ap, ◌∙◌, none, some, true, false, not, ◌&&◌, ◌||◌, List, [], ◌∷◌, ◌++◌, String, str_eq,
  eq_iff, if◌then◌else◌, has, has-append, insert_new, distinct_from, select, or_else, Bool-cases,
  inl, inr, arith,
}
use confidential_content_pla.KeyStore.{VeniceKey, KeysetOverlay, ids}
use confidential_content_pla.KeyStore.Store.{keys_of, find_key, with_key, without_key}

find_key-append :
    (id : String) (xs ys : List VeniceKey)
    → find_key id (xs ++ ys) ≡ or_else (find_key id xs) (find_key id ys)
find_key-append id [] ys = refl
find_key-append id (x ∷ xs) ys = ground (arith, find_key-append id xs ys)

find_key-shadowed :
    (id : String) (hidden : List String) (boot : List VeniceKey)
    → find_key id (select (λ (k : VeniceKey). not (has k.id hidden)) boot)
      ≡ (if has id hidden then none else find_key id boot)
find_key-shadowed id hidden [] = ground arith
find_key-shadowed id hidden (k ∷ boot) = elim (Bool-cases (str_eq k.id id)) [
  | inl same ↦
      let e : has k.id hidden ≡ has id hidden = ap (λ x. has x hidden) ((eq_iff k.id id).0 same) in
      ground (arith, e, find_key-shadowed id hidden boot)
  | inr other ↦ ground (arith, find_key-shadowed id hidden boot)
]

-- What an id finds, from the three lists.
pub find_key-keys_of :
    (id : String) (boot : List VeniceKey) (o : KeysetOverlay)
    → find_key id (keys_of boot o)
      ≡ or_else
          (if has id o.removed_ids || has id (ids o.added) then none else find_key id boot)
          (find_key id o.added)
unfolding keys_of
find_key-keys_of id boot o =
    find_key-append id (select _ boot) o.added
    ∙ rw (
      find_key-shadowed id (o.removed_ids ++ ids o.added) boot,
      has-append id o.removed_ids (ids o.added),
    )

pub has-ids_kept :
    (id i : String) (ks : List VeniceKey)
    → has id (ids (select (λ (k : VeniceKey). not (str_eq k.id i)) ks))
      ≡ (not (str_eq i id) && has id (ids ks))
has-ids_kept id i [] = ground arith
has-ids_kept id i (k ∷ ks) =
    ground (arith, has-ids_kept id i ks, eq_iff k.id i, eq_iff i id, eq_iff k.id id)

pub has-kept :
    (id i : String) (ss : List String)
    → has id (select (λ s. not (str_eq s i)) ss) ≡ (not (str_eq i id) && has id ss)
has-kept id i [] = ground arith
has-kept id i (s ∷ ss) = ground (arith, has-kept id i ss, eq_iff s i, eq_iff i id, eq_iff s id)

find_key-kept :
    (id i : String) (ks : List VeniceKey)
    → find_key id (select (λ (k : VeniceKey). not (str_eq k.id i)) ks)
      ≡ (if str_eq i id then none else find_key id ks)
find_key-kept id i [] = ground arith
find_key-kept id i (k ∷ ks) =
    ground (arith, find_key-kept id i ks, eq_iff k.id i, eq_iff i id, eq_iff k.id id)

pub ids-append : (xs ys : List VeniceKey) → ids (xs ++ ys) ≡ ids xs ++ ids ys
ids-append [] ys = refl
ids-append (x ∷ xs) ys = ap (◌∷◌ x.id) (ids-append xs ys)

-- After an addition the id finds the new key, and every other id what it found.
pub find_key-with_key :
    (id : String) (boot : List VeniceKey) (entry : VeniceKey) (o : KeysetOverlay)
    → find_key id (keys_of boot (with_key entry o))
      ≡ (if str_eq entry.id id then some entry.key else find_key id (keys_of boot o))
unfolding with_key
find_key-with_key id boot entry o =
    let kept : List VeniceKey = select (λ (k : VeniceKey). not (str_eq k.id entry.id)) o.added in
    let hidden : has id (ids (kept ++ entry ∷ [])) ≡ (has id (ids kept) || has id (entry.id ∷ [])) =
      ap (has id) (ids-append kept (entry ∷ [])) ∙ has-append id (ids kept) (entry.id ∷ []) in
    ground (
      arith,
      find_key-keys_of id boot (with_key entry o),
      find_key-keys_of id boot o,
      hidden,
      has-kept id entry.id o.removed_ids,
      has-ids_kept id entry.id o.added,
      find_key-append id kept (entry ∷ []),
      find_key-kept id entry.id o.added,
    )

has-same : (s t : String) (ss : List String) → str_eq s t ≡ true → has s ss ≡ has t ss
has-same s t ss e = ap (λ x. has x ss) ((eq_iff s t).0 e)

has-distinct_from :
    (id : String) (out ss : List String) → has id (distinct_from out ss) ≡ (has id out || has id ss)
unfolding distinct_from
has-distinct_from id out [] = ground arith
has-distinct_from id out (s ∷ ss) = ground (
  arith,
  has-distinct_from id (insert_new s out) ss,
  has-append id out (s ∷ []),
  eq_iff s id,
  has-same s id out,
)

pub find_key-absent :
    (id : String) (ks : List VeniceKey) → has id (ids ks) ≡ false → find_key id ks ≡ none
find_key-absent id [] h = refl
find_key-absent id (k ∷ ks) h = ground (arith, find_key-absent id ks)

-- After a removal the id finds nothing, and every other id what it found.
pub find_key-without_key :
    (id i : String) (boot : List VeniceKey) (o : KeysetOverlay)
    → find_key id (keys_of boot (without_key boot i o))
      ≡ (if str_eq i id then none else find_key id (keys_of boot o))
unfolding without_key
find_key-without_key id i boot o = ground (
  arith,
  find_key-keys_of id boot (without_key boot i o),
  find_key-keys_of id boot o,
  has-distinct_from id [] (o.removed_ids ++ i ∷ []),
  has-append id o.removed_ids (i ∷ []),
  has-ids_kept id i o.added,
  find_key-kept id i o.added,
  find_key-absent id boot,
  has-same i id (ids boot),
)
