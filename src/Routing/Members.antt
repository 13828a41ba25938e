-- ===== src/Routing/Members.antt =====
-- src/providers/routing/engine.ts: ordering routes neither adds any nor changes one.
use confidential_content_pla.Prelude.{
  ℕ, inl, inr, Bool, true, false, not, ◌&&◌, List, [], ◌∷◌, ◌++◌, String, if◌then◌else◌, select,
  take, max, All, All-append, All-select, All-take, Bool-cases,
}
use confidential_content_pla.Routing.{
  Amounts, ProviderSort, NormalizedProviderRoutingPolicy, ProviderRoute, matches_slug,
}
use confidential_content_pla.Routing.Engine.{
  has_seen, objects, named_by, explicit_routes, is_nil, confine, order_routes, choose_attempts,
  is_none, by_privacy,
}
use confidential_content_pla.Routing.Ordering.{compare_routes, is_after, insert_route, sort_routes}

module _ (A : Amounts) (P : ProviderRoute A.Amount → Type 0) where
  abbrev Routes : Type 0
  Routes = List (ProviderRoute A.Amount)

  All-insert_route :
      (s : ProviderSort) (r : ProviderRoute A.Amount) (rs : Routes)
      → P r
      → All P rs
      → All P (insert_route A s r rs)
  unfolding insert_route
  All-insert_route s r [] p h = (p, tt)
  All-insert_route s r (t ∷ rs) p h = elim (Bool-cases (is_after A (compare_routes A s r t))) [
    | inl later ↦ rw later (h.0, All-insert_route s r rs p h.1)
    | inr sooner ↦ rw sooner (p, h)
  ]

  pub All-sort_routes : (s : ProviderSort) (rs : Routes) → All P rs → All P (sort_routes A s rs)
  unfolding sort_routes
  All-sort_routes s [] h = tt
  All-sort_routes s (r ∷ rs) h =
      All-insert_route s r (sort_routes A s rs) h.0 (All-sort_routes s rs h.1)

  All-named_by :
      (slug : String) (seen : List ℕ) (rs : Routes) → All P rs → All P (named_by A slug seen rs)
  All-named_by slug seen [] h = tt
  All-named_by slug seen (r ∷ rs) h =
      elim (Bool-cases (not (has_seen A seen r) && matches_slug r.provider slug)) [
        | inl named ↦ rw named (h.0, All-named_by slug (r.object ∷ seen) rs h.1)
        | inr other ↦ rw other (All-named_by slug seen rs h.1)
      ]

  pub All-explicit_routes :
      (order : List String) (seen : List ℕ) (rs : Routes)
      → All P rs
      → All P (explicit_routes A order seen rs)
  All-explicit_routes [] seen rs h = tt
  All-explicit_routes (slug ∷ order) seen rs h =
      All-append P (named_by A slug seen rs) _ (All-named_by slug seen rs h)
        (All-explicit_routes order (objects A (named_by A slug seen rs) ++ seen) rs h)

  All-if : (b : Bool) (xs ys : Routes) → All P xs → All P ys → All P (if b then xs else ys)
  All-if true xs ys h k = h
  All-if false xs ys h k = k

  pub All-confine :
      (policy : NormalizedProviderRoutingPolicy A.Amount) (explicit ordered : Routes)
      → All P ordered
      → All P (confine A policy explicit ordered)
  unfolding confine
  All-confine policy explicit ordered h =
      All-if (is_none A policy.minimum_privacy && by_privacy A policy.sort) _ ordered
        (All-select P _ ordered h) h

  pub All-order_routes :
      (policy : NormalizedProviderRoutingPolicy A.Amount) (pool : Routes)
      → All P pool
      → All P (order_routes A policy pool)
  unfolding order_routes
  All-order_routes policy pool h =
      let sorted : Routes = sort_routes A policy.sort pool in
      let explicit : Routes = explicit_routes A policy.order [] sorted in
      let remainder : Routes = select (λ r. not (has_seen A (objects A explicit) r)) sorted in
      let hs : All P sorted = All-sort_routes policy.sort pool h in
      let he : All P explicit = All-explicit_routes policy.order [] sorted hs in
      let hr : All P remainder = All-select P _ sorted hs in
      All-confine policy explicit _ (
        All-if policy.allow_fallbacks (explicit ++ remainder) _
          (All-append P explicit remainder he hr)
          (All-if (is_nil A explicit) remainder explicit hr he))

  pub All-choose_attempts :
      (policy : NormalizedProviderRoutingPolicy A.Amount) (rs : Routes)
      → All P rs
      → All P (choose_attempts A policy rs)
  unfolding choose_attempts
  All-choose_attempts policy rs h =
      All-take P (max 1 policy.max_attempts) _
        (All-if policy.allow_fallbacks rs (take 1 rs) h (All-take P 1 rs h))
