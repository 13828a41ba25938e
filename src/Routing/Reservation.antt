-- ===== src/Routing/Reservation.antt =====
-- src/providers/routing/engine.ts: the cost that a plan reserves.
use mathlib.Core.Path.{subst}
use confidential_content_pla.Prelude.{
  ◌≡◌, inl, inr, true, false, List, [], ◌∷◌, String, All, Bool-cases,
}
use confidential_content_pla.Routing.{
  Amounts, NormalizedProviderRoutingPolicy, ProviderRoute, ProviderRoutingRequest,
}
use confidential_content_pla.Routing.Engine.{
  ProviderRoutingPlan, planned, make_plan, build_provider_routing_plan, highest_cost, greater,
}
use confidential_content_pla.Routing.Plans.{chosen, planned-chosen}

module _ (A : Amounts) where
  open A use {Amount, lt, nought, lt_irrefl, lt_trans, lt_tied}

  abbrev Route : Type 0
  Route = ProviderRoute A.Amount

  -- `x` covers `y`.
  abbrev Covers : Amount → Amount → Type 0
  Covers x y = lt x y ≡ false

  not_both : (x y : Amount) → lt x y ≡ true → lt y x ≡ false
  not_both x y h = elim (Bool-cases (lt y x)) [
    | inl back ↦ let no : true ≡ false = cc (lt_trans x y x h back, lt_irrefl x) in cc no
    | inr fine ↦ fine
  ]

  Covers-trans : (x y z : Amount) → Covers x y → Covers y z → Covers x z
  Covers-trans x y z h k = elim (Bool-cases (lt y x)) [
    | inr tied ↦ subst (λ w. lt w z ≡ false) (lt_tied y x tied h) k
    | inl less ↦ elim (Bool-cases (lt x z)) [
      | inr fine ↦ fine
      | inl bad ↦ let no : true ≡ false = cc (lt_trans y x z less bad, k) in cc no
    ]
  ]

  greater-Covers : (a b : Amount) → Covers (greater A a b) a × Covers (greater A a b) b
  greater-Covers a b = elim (Bool-cases (lt a b)) [
    | inl less ↦ rw less (not_both a b less, lt_irrefl b)
    | inr other ↦ rw other (lt_irrefl a, other)
  ]

  highest_cost-Covers :
      (cost : Route → Amount) (top : Amount) (rs : List Route)
      → Covers (highest_cost A cost top rs) top
        × All (λ r. Covers (highest_cost A cost top rs) (cost r)) rs
  highest_cost-Covers cost top [] = (lt_irrefl top, tt)
  highest_cost-Covers cost top (r ∷ rs) =
      let (first, rest) = highest_cost-Covers cost (greater A top (cost r)) rs in
      let (old, new) = greater-Covers top (cost r) in
      let most : Amount = highest_cost A cost (greater A top (cost r)) rs in
      (
        Covers-trans most (greater A top (cost r)) top first old,
        (Covers-trans most (greater A top (cost r)) (cost r) first new, rest),
      )

  -- No attempt of a plan costs more than the amount that the plan reserves.
  pub plan-reserved :
      (model : String) (routes : List Route) (policy : NormalizedProviderRoutingPolicy Amount)
      (request : ProviderRoutingRequest) (cost : Route → Amount) (p : ProviderRoutingPlan A)
      → build_provider_routing_plan A model routes policy request cost ≡ planned p
      → All (λ r. lt p.maximum_reservation_usd (cost r) ≡ false) p.attempts
  unfolding make_plan
  plan-reserved model routes policy request cost p e =
      let (_, made) = planned-chosen A model routes policy request cost p e in
      subst (λ q. All (λ r. lt q.maximum_reservation_usd (cost r) ≡ false) q.attempts) made
        (highest_cost-Covers cost nought (chosen A policy request routes)).1
