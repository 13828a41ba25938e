-- ===== src/Routing/Confinement.antt =====
-- src/providers/routing/engine.ts: default routing stays in the strongest privacy class.
use mathlib.Core.Path.{subst}
use confidential_content_pla.Prelude.{
  ℕ, ◌≤◌, ◌≡◌, refl, ap, sym, inl, inr, none, Bool, true, false, List, [], ◌∷◌, String,
  if◌then◌else◌, select, leb, ltb, arith, All, All-select, All-map, All-passed, Bool-cases,
}
use confidential_content_pla.Routing.{
  Amounts, privacy, NormalizedProviderRoutingPolicy, ProviderRoute, ProviderRoutingRequest,
}
use confidential_content_pla.Routing.Filters.{
  technically_eligible_routes, route_fits_request_context, passes_max_price, rank_of,
}
use confidential_content_pla.Routing.Engine.{
  confine, confine_floor, order_routes, within_hard_floor, ProviderRoutingPlan, planned, make_plan,
  build_provider_routing_plan,
}
use confidential_content_pla.Routing.Ordering.{
  Comparison, before, after, compare_routes, comparison_keys, is_after, insert_route, sort_routes,
}
use confidential_content_pla.Routing.Members.{All-choose_attempts}
use confidential_content_pla.Routing.Plans.{pool, chosen, planned-chosen}

module _ (A : Amounts) where
  abbrev Route : Type 0
  Route = ProviderRoute A.Amount

  abbrev Policy : Type 0
  Policy = NormalizedProviderRoutingPolicy A.Amount

  by_rank : (m n : ℕ) → Comparison A → Comparison A
  by_rank m n rest = if ltb n m then before else if ltb m n then after else rest

  by_rank-after : (m n : ℕ) (rest : Comparison A) → is_after A (by_rank m n rest) ≡ true → m ≤ n
  unfolding by_rank
  by_rank-after m n rest h = elim (Bool-cases (ltb n m)) [
    | inl less ↦ let no : false ≡ true = rw less at h in cc no
    | inr other ↦ ground arith
  ]

  by_rank-not_after :
      (m n : ℕ) (rest : Comparison A) → is_after A (by_rank m n rest) ≡ false → n ≤ m
  unfolding by_rank
  by_rank-not_after m n rest h = elim (Bool-cases (ltb n m)) [
    | inl less ↦ ground arith
    | inr other ↦ elim (Bool-cases (ltb m n)) [
      | inl more ↦ let no : true ≡ false = rw (other, more) at h in cc no
      | inr equal ↦ ground arith
    ]
  ]

  after-rank :
      (r s : Route) → is_after A (compare_routes A privacy r s) ≡ true → rank_of A r ≤ rank_of A s
  unfolding compare_routes comparison_keys by_rank
  after-rank r s h = by_rank-after (rank_of A r) (rank_of A s) _ h

  not_after-rank :
      (r s : Route) → is_after A (compare_routes A privacy r s) ≡ false → rank_of A s ≤ rank_of A r
  unfolding compare_routes comparison_keys by_rank
  not_after-rank r s h = by_rank-not_after (rank_of A r) (rank_of A s) _ h

  -- Every route stands in front of those of no stronger class.
  abbrev Descending : List Route → Type 0
  Descending [] = Unit {0}
  Descending (r ∷ rs) = All (λ s. rank_of A s ≤ rank_of A r) rs × Descending rs

  All-insert_below :
      (n : ℕ) (r : Route) (rs : List Route)
      → rank_of A r ≤ n
      → All (λ s. rank_of A s ≤ n) rs
      → All (λ s. rank_of A s ≤ n) (insert_route A privacy r rs)
  unfolding insert_route
  All-insert_below n r [] h k = (h, tt)
  All-insert_below n r (t ∷ rs) h k =
      elim (Bool-cases (is_after A (compare_routes A privacy r t))) [
        | inl later ↦ rw later (k.0, All-insert_below n r rs h k.1)
        | inr sooner ↦ rw sooner (h, k)
      ]

  insert_route-Descending :
      (r : Route) (rs : List Route) → Descending rs → Descending (insert_route A privacy r rs)
  unfolding insert_route
  insert_route-Descending r [] d = (tt, tt)
  insert_route-Descending r (t ∷ rs) d =
      elim (Bool-cases (is_after A (compare_routes A privacy r t))) [
        | inl later ↦ rw later (
          All-insert_below (rank_of A t) r rs (after-rank r t later) d.0,
          insert_route-Descending r rs d.1,
        )
        | inr sooner ↦
            let le : rank_of A t ≤ rank_of A r = not_after-rank r t sooner in
            rw sooner (
              (le, All-map {P = λ s. rank_of A s ≤ rank_of A t} (λ s h. omega (arith, le)) rs d.0),
              d,
            )
      ]

  sort_routes-Descending : (rs : List Route) → Descending (sort_routes A privacy rs)
  unfolding sort_routes
  sort_routes-Descending [] = tt
  sort_routes-Descending (r ∷ rs) =
      insert_route-Descending r (sort_routes A privacy rs) (sort_routes-Descending rs)

  -- What holds of the sorted routes holds of the routes.
  insert_route-All :
      (P : Route → Type 0) (r : Route) (rs : List Route)
      → All P (insert_route A privacy r rs)
      → P r × All P rs
  unfolding insert_route
  insert_route-All P r [] h = h
  insert_route-All P r (t ∷ rs) h = elim (Bool-cases (is_after A (compare_routes A privacy r t))) [
    | inl later ↦
        let h' : P t × All P (insert_route A privacy r rs) = rw later at h in
        let (p, k) = insert_route-All P r rs h'.1 in (p, (h'.0, k))
    | inr sooner ↦ let h' : P r × (P t × All P rs) = rw sooner at h in h'
  ]

  sort_routes-All :
      (P : Route → Type 0) (rs : List Route) → All P (sort_routes A privacy rs) → All P rs
  unfolding sort_routes
  sort_routes-All P [] h = tt
  sort_routes-All P (r ∷ rs) h =
      let (p, k) = insert_route-All P r (sort_routes A privacy rs) h in (p, sort_routes-All P rs k)

  select-all : (rs : List Route) → select (λ r. true) rs ≡ rs
  select-all [] = refl
  select-all (r ∷ rs) = ap (◌∷◌ r) (select-all rs)

  Descending-confine_floor :
      (rs : List Route) → Descending rs → All (λ s. rank_of A s ≤ confine_floor A [] rs) rs
  Descending-confine_floor [] d = tt
  Descending-confine_floor (r ∷ rs) d = (omega arith, d.0)

  order_routes-default :
      (policy : Policy) (rs : List Route)
      → policy.order ≡ []
      → policy.minimum_privacy ≡ none
      → policy.sort ≡ privacy
      → order_routes A policy rs
        ≡ select
            (λ r. leb (confine_floor A [] (sort_routes A privacy rs)) (rank_of A r))
            (sort_routes A privacy rs)
  unfolding order_routes confine
  order_routes-default policy rs o m s = elim (Bool-cases policy.allow_fallbacks) [
    | inl several ↦ rw (several, o, m, s) (rw (select-all (sort_routes A privacy rs)) refl)
    | inr one ↦ rw (one, o, m, s) (rw (select-all (sort_routes A privacy rs)) refl)
  ]

  affordable : Policy → ProviderRoutingRequest → List Route → List Route
  affordable policy request routes =
      select (passes_max_price A policy) (technically_eligible_routes A policy request routes)

  within_hard_floor-default :
      (policy : Policy) (rs : List Route)
      → policy.minimum_privacy ≡ none
      → policy.sort ≡ privacy
      → within_hard_floor A policy rs ≡ rs
  unfolding within_hard_floor
  within_hard_floor-default policy rs m s = rw (m, s) (select-all rs)

  pool-default :
      (policy : Policy) (request : ProviderRoutingRequest) (routes : List Route)
      → policy.minimum_privacy ≡ none
      → policy.sort ≡ privacy
      → pool A policy request routes ≡ affordable policy request routes
  unfolding affordable
  pool-default policy request routes m s = within_hard_floor-default policy _ m s

  confined-All :
      (policy : Policy) (rs : List Route)
      → policy.order ≡ []
      → policy.minimum_privacy ≡ none
      → policy.sort ≡ privacy
      → All
          (λ a. confine_floor A [] (sort_routes A privacy rs) ≤ rank_of A a)
          (order_routes A policy rs)
  confined-All policy rs o m s =
      let sorted : List Route = sort_routes A privacy rs in
      let floor : ℕ = confine_floor A [] sorted in
      let kept : List Route = select (λ r. leb floor (rank_of A r)) sorted in
      let passed : All (λ a. floor ≤ rank_of A a) kept =
        All-map {P = λ r. leb floor (rank_of A r) ≡ true} (λ r h. ground arith) kept
          (All-passed (λ r. leb floor (rank_of A r)) sorted) in
      subst (All (λ a. floor ≤ rank_of A a)) (sym (order_routes-default policy rs o m s)) passed

  -- If the policy names no order and no privacy floor and sorts by privacy, as the default policy does,
  -- then no attempt of a plan has a weaker privacy class than any route that may serve the request under
  -- the policy's lists and price ceilings.
  pub plan-strongest :
      (model : String) (routes : List Route) (policy : Policy) (request : ProviderRoutingRequest)
      (cost : Route → A.Amount) (p : ProviderRoutingPlan A)
      → policy.order ≡ []
      → policy.minimum_privacy ≡ none
      → policy.sort ≡ privacy
      → build_provider_routing_plan A model routes policy request cost ≡ planned p
      → All
          (λ a.
            All
              (λ r. rank_of A r ≤ rank_of A a)
              (select
                (passes_max_price A policy)
                (technically_eligible_routes A policy request routes)))
          p.attempts
  unfolding make_plan affordable
  plan-strongest model routes policy request cost p o m s e =
      let (_, made) = planned-chosen A model routes policy request cost p e in
      let rs : List Route = affordable policy request routes in
      let sorted : List Route = sort_routes A privacy rs in
      let floor : ℕ = confine_floor A [] sorted in
      let ordered : List Route = order_routes A policy (pool A policy request routes) in
      let fits : Route → Bool = route_fits_request_context A request in
      let strongest : All (λ r. rank_of A r ≤ floor) rs =
        sort_routes-All (λ r. rank_of A r ≤ floor) rs
          (Descending-confine_floor sorted (sort_routes-Descending rs)) in
      let above : All (λ a. floor ≤ rank_of A a) ordered =
        subst (λ x. All (λ a. floor ≤ rank_of A a) (order_routes A policy x))
          (sym (pool-default policy request routes m s)) (confined-All policy rs o m s) in
      let attempts : All (λ a. floor ≤ rank_of A a) (chosen A policy request routes) =
        All-choose_attempts A (λ a. floor ≤ rank_of A a) policy (select fits ordered)
          (All-select (λ a. floor ≤ rank_of A a) fits ordered above) in
      subst (λ q. All (λ a. All (λ r. rank_of A r ≤ rank_of A a) rs) q.attempts) made
        (All-map {P = λ a. floor ≤ rank_of A a}
          (λ a h. All-map {P = λ r. rank_of A r ≤ floor} (λ r k. omega (arith, h, k)) rs strongest)
          (chosen A policy request routes) attempts)
