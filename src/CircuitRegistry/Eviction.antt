-- ===== src/CircuitRegistry/Eviction.antt =====
-- src/providers/circuitBreaker.ts: the registry as a bounded, least recently used map.
use confidential_content_pla.Prelude.{
  ℕ, suc, ◌+◌, ◌-◌, ◌≤◌, ◌≡◌, refl, inl, inr, Option, none, some, false, List, [], ◌∷◌, ◌++◌, arith,
  length, length-append, Bool-cases,
}
use mathlib.Core.Path.{subst}
use confidential_content_pla.CircuitRegistry.{
  VeniceCircuitOperation, Registry, RegistryOptions, new_registry, scope_key, same_text, get,
  delete, remove_oldest, refresh, evict, create, scoped_with, scoped, scoped_size, scoped_all,
}
use confidential_content_pla.CircuitRegistry.Lookup.{same_text_iff, Fresh, Distinct, get-Fresh}
use confidential_content_pla.CircuitRegistry.References.{
  RefsBelow, DistinctRefs, RefsBelow-delete, RefsBelow-append, RefsBelow-suc, RefsBelow-NoRef,
  get-below, get-NoRef-delete, DistinctRefs-delete, DistinctRefs-append, remove_oldest-DistinctRefs,
  remove_oldest-RefsBelow,
}

pub record Inv (g : Registry) : Type 0 where
  pub keys : Distinct g.scoped_breakers
  pub refs : DistinctRefs g.scoped_breakers
  pub below : RefsBelow g.next g.scoped_breakers
  pub room : 1 ≤ g.max_scoped_breakers
  pub limit : g.max_scoped_breakers ≤ 4_096
  pub bounded : length g.scoped_breakers ≤ g.max_scoped_breakers

Fresh-delete_ne : (j k : List ℕ) (m : List (List ℕ × ℕ)) → Fresh j m → Fresh j (delete k m)
unfolding delete
Fresh-delete_ne j k [] h = tt
Fresh-delete_ne j k ((i, r) ∷ m) h = ground (arith, Fresh-delete_ne j k m h.1)

pub Fresh-delete : (k : List ℕ) (m : List (List ℕ × ℕ)) → Distinct m → Fresh k (delete k m)
unfolding delete
Fresh-delete k [] h = tt
Fresh-delete k ((i, r) ∷ m) h = elim (Bool-cases (same_text i k)) [
  | inl same ↦ rw same (subst (λ x. Fresh x m) ((same_text_iff i k).0 same) h.0)
  | inr other ↦ rw other (other, Fresh-delete k m h.1)
]

Distinct-delete : (k : List ℕ) (m : List (List ℕ × ℕ)) → Distinct m → Distinct (delete k m)
unfolding delete
Distinct-delete k [] h = tt
Distinct-delete k ((i, r) ∷ m) h =
    ground (arith, Distinct-delete k m h.1, Fresh-delete_ne i k m h.0)

same_text_sym : (s t : List ℕ) → same_text s t ≡ false → same_text t s ≡ false
same_text_sym s t h = ground (arith, same_text_iff s t, same_text_iff t s)

Fresh-append :
    (j k : List ℕ) (r : ℕ) (m : List (List ℕ × ℕ))
    → Fresh j m
    → same_text j k ≡ false
    → Fresh j (m ++ (k, r) ∷ [])
Fresh-append j k r [] f n = (same_text_sym j k n, tt)
Fresh-append j k r ((i, s) ∷ m) f n = (f.0, Fresh-append j k r m f.1 n)

Distinct-append :
    (k : List ℕ) (r : ℕ) (m : List (List ℕ × ℕ))
    → Distinct m
    → Fresh k m
    → Distinct (m ++ (k, r) ∷ [])
Distinct-append k r [] d f = (tt, tt)
Distinct-append k r ((i, s) ∷ m) d f = (Fresh-append i k r m d.0 f.0, Distinct-append k r m d.1 f.1)

length-delete :
    (k : List ℕ) (r : ℕ) (m : List (List ℕ × ℕ))
    → get k m ≡ some r
    → length (delete k m) + 1 ≡ length m
unfolding get delete
length-delete k r [] e = cc
length-delete k r ((i, s) ∷ m) e = ground (arith, length-delete k r m)

remove_oldest-Distinct : (m : List (List ℕ × ℕ)) → Distinct m → Distinct (remove_oldest m)
remove_oldest-Distinct [] h = tt
remove_oldest-Distinct (x ∷ m) h = h.1

pub remove_oldest-Fresh :
    (k : List ℕ) (m : List (List ℕ × ℕ)) → Fresh k m → Fresh k (remove_oldest m)
remove_oldest-Fresh k [] h = tt
remove_oldest-Fresh k (x ∷ m) h = h.1

length-remove_oldest : (m : List (List ℕ × ℕ)) → length (remove_oldest m) ≡ length m - 1
length-remove_oldest [] = omega arith
length-remove_oldest (x ∷ m) = omega arith

pub evict-Fresh :
    (g : Registry) (k : List ℕ) → Fresh k g.scoped_breakers → Fresh k (evict g).scoped_breakers
unfolding evict
evict-Fresh g k h = ground (arith, remove_oldest-Fresh k g.scoped_breakers h)

module _ (g : Registry) (v : Inv g) where
  evict-Inv : Inv (evict g)
  unfolding evict
  evict-Inv = ground (
    arith,
    remove_oldest-Distinct g.scoped_breakers v.keys,
    remove_oldest-DistinctRefs g.scoped_breakers v.refs,
    remove_oldest-RefsBelow g.next g.scoped_breakers v.below,
    length-remove_oldest g.scoped_breakers,
  )

  evict_room : suc (length (evict g).scoped_breakers) ≤ (evict g).max_scoped_breakers
  unfolding evict
  evict_room = ground (arith, length-remove_oldest g.scoped_breakers)

refresh-Inv :
    (k : List ℕ) (r : ℕ) (g : Registry)
    → Inv g
    → get k g.scoped_breakers ≡ some r
    → Inv (refresh k r g)
unfolding refresh
refresh-Inv k r g v e = record {
  keys = Distinct-append k r _ (Distinct-delete k m v.keys) (Fresh-delete k m v.keys);
  refs =
      DistinctRefs-append k r _ (DistinctRefs-delete k m v.refs) (get-NoRef-delete k r m v.refs e);
  below =
      RefsBelow-append g.next k r _ (RefsBelow-delete g.next k m v.below)
        (get-below g.next k r m v.below e);
  room = v.room;
  limit = v.limit;
  bounded =
      omega (arith, length-append (delete k m) ((k, r) ∷ []), length-delete k r m e, v.bounded);
}
  where
    m : List (List ℕ × ℕ)
    m = g.scoped_breakers

create-Inv :
    (k : List ℕ) (g : Registry)
    → Inv g
    → suc (length g.scoped_breakers) ≤ g.max_scoped_breakers
    → Fresh k g.scoped_breakers
    → Inv (create k g)
unfolding create
create-Inv k g v s f = record {
  keys = Distinct-append k g.next _ v.keys f;
  refs = DistinctRefs-append k g.next _ v.refs (RefsBelow-NoRef g.next _ v.below);
  below = RefsBelow-append (g.next + 1) k g.next _ (RefsBelow-suc g.next _ v.below) (omega arith);
  room = v.room;
  limit = v.limit;
  bounded = omega (arith, length-append g.scoped_breakers ((k, g.next) ∷ []));
}

scoped_with-Inv :
    (k : List ℕ) (g : Registry) (o : Option ℕ)
    → get k g.scoped_breakers ≡ o
    → Inv g
    → Inv (scoped_with k g o).1
unfolding scoped_with
scoped_with-Inv k g (some r) e v = refresh-Inv k r g v e
scoped_with-Inv k g none e v =
    create-Inv k (evict g) (evict-Inv g v) (evict_room g v) (evict-Fresh g k (get-Fresh k _ e))

pub new_registry-Inv : (options : RegistryOptions) → Inv (new_registry options)
unfolding new_registry
new_registry-Inv options = omega arith

pub scoped_all-Inv :
    (calls : List (VeniceCircuitOperation × List ℕ)) (g : Registry)
    → Inv g
    → Inv (scoped_all calls g)
unfolding scoped_all scoped
scoped_all-Inv [] g v = v
scoped_all-Inv ((o, m) ∷ calls) g v =
    scoped_all-Inv calls _
      (scoped_with-Inv (scope_key o m) g (get (scope_key o m) g.scoped_breakers) refl v)

-- After any calls, the registry holds no more breakers than its cap, which lies between 1 and 4,096
-- whatever the options say; no two entries share a scope key, and no two share a breaker.
pub scoped_all-bounded :
    (options : RegistryOptions) (calls : List (VeniceCircuitOperation × List ℕ))
    → let g = scoped_all calls (new_registry options) in
      (scoped_size g ≤ g.max_scoped_breakers)
      × (1 ≤ g.max_scoped_breakers)
      × (g.max_scoped_breakers ≤ 4_096)
      × Distinct g.scoped_breakers
      × DistinctRefs g.scoped_breakers
unfolding scoped_size
scoped_all-bounded options calls =
    let v = scoped_all-Inv calls (new_registry options) (new_registry-Inv options) in
    (v.bounded, v.room, v.limit, v.keys, v.refs)
