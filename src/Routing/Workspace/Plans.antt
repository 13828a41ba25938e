-- ===== src/Routing/Workspace/Plans.antt =====
-- src/providers/routing/policy.ts and engine.ts: a plan made under a merged policy.
use confidential_content_pla.Prelude.{
  ℕ, ◌≡◌, ◌≤◌, refl, sym, ◌∙◌, Option, none, some, Bool, true, false, not, ◌&&◌, List, String,
  if◌then◌else◌, arith, All, All-map, Member, min, max, length,
}
use confidential_content_pla.Routing.{
  Amounts, NormalizedProviderRoutingPolicy, ProviderRoute, ProviderRoutingRequest,
  ProviderPrivacyFloor, ProviderSort,
}
use confidential_content_pla.Routing.Filters.{is_provider_route_eligible, below_floor, outside_only}
use confidential_content_pla.Routing.Engine.{
  ProviderRoutingPlan, planned, build_provider_routing_plan, hard_floor_rank, at_least,
}
use confidential_content_pla.Routing.Plans.{Allowed, plan-Allowed}
use confidential_content_pla.Routing.Bounds.{plan-attempts_bounded}
use confidential_content_pla.Routing.Workspace.{
  WorkspaceProviderDefaults, merge_workspace_provider_policy, intersect_only,
}
use confidential_content_pla.Routing.Workspace.Restricts.{standing, eligible_tests, eligible-merge}

module _ (A : Amounts) where
  open A use {Amount}

  above_floor :
      (floor : Option ProviderPrivacyFloor) (sort : ProviderSort) (route : ProviderRoute Amount)
      → at_least A (hard_floor_rank A floor sort) route ≡ true
      → below_floor A floor route ≡ false
  above_floor none sort route h = refl
  above_floor (some floor) sort route h = ground arith

  -- What may be attempted may be used.
  Allowed-eligible :
      (policy : NormalizedProviderRoutingPolicy Amount) (request : ProviderRoutingRequest)
      (routes : List (ProviderRoute Amount)) (route : ProviderRoute Amount)
      → Allowed A policy request routes route
      → is_provider_route_eligible A policy request route ≡ true
  Allowed-eligible policy request routes route a =
      eligible_tests A policy request route
      ∙ rw (
        a.eligible,
        a.affordable,
        a.fitting,
        above_floor policy.minimum_privacy policy.sort route a.private_enough,
      )

  parts : (a b o : Bool) → ((a && b) && o) ≡ true → (a ≡ true) × (b ≡ true)
  parts a b o h = ground arith

  attempts_of_merged :
      (amount_text : Amount → String) (r : NormalizedProviderRoutingPolicy Amount)
      (w : WorkspaceProviderDefaults A) (n : ℕ)
      → let merged = merge_workspace_provider_policy A amount_text r w in
        n ≤ (if merged.allow_fallbacks then max 1 merged.max_attempts else 1)
        → n ≤ (
            if r.allow_fallbacks && w.allow_fallbacks
            then max 1 (min r.max_attempts w.max_attempts)
            else 1)
  unfolding merge_workspace_provider_policy
  attempts_of_merged amount_text r w n h = ground arith

  -- A plan for a merged policy attempts only listed routes that may be used under the request's policy
  -- and may be used under the workspace's defaults, and it attempts as many as the lower of
  -- the two numbers of attempts at most, or one if that is zero or either side allows no fallbacks.
  pub plan-merged :
      (amount_text : Amount → String) (model : String) (routes : List (ProviderRoute Amount))
      (r : NormalizedProviderRoutingPolicy Amount) (w : WorkspaceProviderDefaults A)
      (request : ProviderRoutingRequest) (cost : ProviderRoute Amount → Amount)
      (p : ProviderRoutingPlan A)
      → build_provider_routing_plan A model routes
          (merge_workspace_provider_policy A amount_text r w)
          request
          cost
        ≡ planned p
      → All
          (λ route.
            Member route routes
            × (is_provider_route_eligible A r request route ≡ true)
            × (is_provider_route_eligible A (standing A w) request route ≡ true))
          p.attempts
        × (length p.attempts ≤ (
            if r.allow_fallbacks && w.allow_fallbacks
            then max 1 (min r.max_attempts w.max_attempts)
            else 1))
  plan-merged amount_text model routes r w request cost p e =
      let merged = merge_workspace_provider_policy A amount_text r w in
      let eligible = λ (route : ProviderRoute Amount) (a : Allowed A merged request routes route).
        parts (is_provider_route_eligible A r request route)
          (is_provider_route_eligible A (standing A w) request route)
          (not (outside_only route.provider (intersect_only r.only w.only)))
          (sym (eligible-merge A amount_text r w request route)
            ∙ Allowed-eligible merged request routes route a) in
      (
        All-map {P = Allowed A merged request routes}
            (λ route a. (a.listed, (eligible route a).0, (eligible route a).1)) p.attempts
            (plan-Allowed A model routes merged request cost p e),
        attempts_of_merged amount_text r w (length p.attempts)
            (plan-attempts_bounded A model routes merged request cost p e).1,
      )
