-- ===== src/CircuitRegistry/Recency.antt =====
-- src/providers/circuitBreaker.ts: which breaker a scope gets, and which scope is forgotten.
use confidential_content_pla.Prelude.{
  ℕ, ◌≡◌, ◌≢◌, refl, ap, ◌∙◌, inl, inr, none, some, Bool, false, List, [], ◌∷◌, ◌++◌, arith, leb,
  ◌&&◌, if◌then◌else◌, length, Bool-cases,
}
use mathlib.Core.Path.{subst}
use confidential_content_pla.Breaker.{new}
use confidential_content_pla.CircuitRegistry.{
  VeniceCircuitOperation, Registry, scope_key, same_text, get, delete, remove_oldest, evict, create,
  scoped_with, scoped,
}
use confidential_content_pla.CircuitRegistry.Lookup.{
  same_text_iff, get-append, get-delete_ne, Fresh, Distinct, Fresh-get, get-Fresh,
}
use confidential_content_pla.CircuitRegistry.References.{NoRef, RefsBelow-NoRef}
use confidential_content_pla.CircuitRegistry.Eviction.{Inv, Fresh-delete, evict-Fresh}

-- Is the scope the first in the map: the least recently used?
abbrev pub is_oldest : List ℕ → List (List ℕ × ℕ) → Bool
is_oldest j [] = false
is_oldest j ((k, r) ∷ m) = same_text k j

-- Does a full registry forget the scope to make room?
abbrev pub forgets : Registry → List ℕ → Bool
forgets g j = leb g.max_scoped_breakers (length g.scoped_breakers) && is_oldest j g.scoped_breakers

get-remove_oldest :
    (j : List ℕ) (m : List (List ℕ × ℕ))
    → Distinct m
    → get j (remove_oldest m) ≡ (if is_oldest j m then none else get j m)
unfolding get
get-remove_oldest j [] d = refl
get-remove_oldest j ((k, r) ∷ m) d = elim (Bool-cases (same_text k j)) [
  | inl same ↦ rw same (Fresh-get j m (subst (λ x. Fresh x m) ((same_text_iff k j).0 same) d.0))
  | inr other ↦ rw other refl
]

refresh-get :
    (j k : List ℕ) (r : ℕ) (m : List (List ℕ × ℕ))
    → Distinct m
    → get k m ≡ some r
    → get j (delete k m ++ (k, r) ∷ []) ≡ get j m
refresh-get j k r m d e = ground (
  arith,
  get-append j k r (delete k m),
  get-delete_ne j k m,
  same_text_iff k j,
  Fresh-get k (delete k m) (Fresh-delete k m d),
)

create-get :
    (j k : List ℕ) (r : ℕ) (m : List (List ℕ × ℕ))
    → get k m ≡ none
    → get j (m ++ (k, r) ∷ []) ≡ (if same_text k j then some r else get j m)
create-get j k r m e = elim (Bool-cases (same_text k j)) [
  | inl same ↦
      let k_is_j : k ≡ j = (same_text_iff k j).0 same in
      let missing : get j m ≡ none = subst (λ x. get x m ≡ none) k_is_j e in
      rw (get-append j k r m, missing, same) refl
  | inr other ↦ rw (get-append j k r m, other) (ground arith)
]

evict-get :
    (j : List ℕ) (g : Registry)
    → Distinct g.scoped_breakers
    → get j (evict g).scoped_breakers ≡ (if forgets g j then none else get j g.scoped_breakers)
unfolding evict
evict-get j g d = ground (arith, get-remove_oldest j g.scoped_breakers d)

evict-next : (g : Registry) → (evict g).next ≡ g.next
unfolding evict
evict-next g = ground arith

evict-options : (g : Registry) → (evict g).scoped_options ≡ g.scoped_options
unfolding evict
evict-options g = ground arith

evict-store : (g : Registry) → (evict g).store ≡ g.store
unfolding evict
evict-store g = elim (Bool-cases (leb g.max_scoped_breakers (length g.scoped_breakers))) [
  | inl full ↦ rw full
  | inr room ↦ rw room
]

module _ (operation : VeniceCircuitOperation) (model : List ℕ) (g : Registry) where
  abbrev key : List ℕ
  key = scope_key operation model

  -- In a registry that keeps its invariant, a scope that it knows gets its breaker again, and no lookup
  -- changes: the call moves the scope to the recent end of the map, and touches no breaker.
  pub scoped_known :
      (r : ℕ)
      → Inv g
      → get (scope_key operation model) g.scoped_breakers ≡ some r
      → ((scoped operation model g).0 ≡ r)
        × ((j : List ℕ)
            → get j (scoped operation model g).1.scoped_breakers ≡ get j g.scoped_breakers)
        × ((scoped operation model g).1.scoped_breakers
            ≡ delete (scope_key operation model) g.scoped_breakers
              ++ (scope_key operation model, r) ∷ [])
        × ((scoped operation model g).1.store ≡ g.store)
  unfolding scoped
  scoped_known r v e =
      rw (e, scoped, scoped_with)
        (refl, λ j. refresh-get j key r g.scoped_breakers v.keys e, refl, refl)

  -- In a registry that keeps its invariant, a scope that it does not know gets a new closed breaker with the
  -- scoped options, which is none of those in the map. Every other scope keeps its breaker, except that a
  -- full registry forgets the least recently used one, and every other breaker stays as it is.
  pub scoped_unknown :
      Inv g
      → get (scope_key operation model) g.scoped_breakers ≡ none
      → let g' = (scoped operation model g).1 in
        (g'.store (scoped operation model g).0 ≡ new g.scoped_options)
        × NoRef (scoped operation model g).0 g.scoped_breakers
        × ((j : List ℕ)
            → get j g'.scoped_breakers ≡ (
                if same_text (scope_key operation model) j
                then some (scoped operation model g).0
                else if forgets g j
                then none
                else get j g.scoped_breakers))
        × ((r : ℕ) → r ≢ (scoped operation model g).0 → g'.store r ≡ g.store r)
  unfolding scoped create
  scoped_unknown v e =
      let missing : get key (evict g).scoped_breakers ≡ none =
        Fresh-get key (evict g).scoped_breakers
          (evict-Fresh g key (get-Fresh key g.scoped_breakers e)) in
      let kept : (r : ℕ) → r ≢ g.next → (create key (evict g)).store r ≡ g.store r =
        λ r other. ground (arith, evict-next g, ap (λ f. f r) (evict-store g)) in
      let found : (j : List ℕ)
          → get j ((evict g).scoped_breakers ++ (key, (evict g).next) ∷ []) ≡ (
              if same_text key j
              then some g.next
              else if forgets g j
              then none
              else get j g.scoped_breakers) =
        λ j.
          create-get j key (evict g).next (evict g).scoped_breakers missing
          ∙ rw (evict-get j g v.keys, evict-next g) refl in
      rw (e, scoped, scoped_with)
        (
          ground (arith, evict-next g, evict-options g),
          RefsBelow-NoRef g.next g.scoped_breakers v.below,
          found,
          λ r other. kept r other,
        )
