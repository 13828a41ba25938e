-- ===== src/Routing/Plans.antt =====
-- src/providers/routing/engine.ts: what the attempts of a plan have in common.
use mathlib.Core.Path.{subst}
use confidential_content_pla.Prelude.{
  ◌≡◌, refl, Bool, true, false, not, ◌&&◌, List, String, if◌then◌else◌, select, All, All-select,
  All-map, All-pair, All-passed, Member, All-Member,
}
use confidential_content_pla.Routing.{
  Amounts, NormalizedProviderRoutingPolicy, ProviderRoute, ProviderRoutingRequest,
}
use confidential_content_pla.Routing.Filters.{
  technically_eligible, technically_eligible_routes, route_fits_request_context, passes_max_price,
}
use confidential_content_pla.Routing.Engine.{
  UnavailableReason, is_nil, order_routes, choose_attempts, hard_floor_rank, at_least,
  within_hard_floor, ProviderRoutingPlan, ProviderRoutingResult, planned, unavailable, make_plan,
  finish_plan, build_provider_routing_plan, no_provider_route, no_provider_route_meets_price,
  no_provider_route_meets_privacy, no_provider_route_fits_context,
}
use confidential_content_pla.Routing.Members.{All-order_routes, All-choose_attempts}

module _ (A : Amounts) where
  abbrev Route : Type 0
  Route = ProviderRoute A.Amount

  abbrev Policy : Type 0
  Policy = NormalizedProviderRoutingPolicy A.Amount

  -- The routes that pass every filter but the context fit, and the attempts.
  abbrev pub pool : Policy → ProviderRoutingRequest → List Route → List Route
  pool policy request routes =
      within_hard_floor A policy
        (select (passes_max_price A policy) (technically_eligible_routes A policy request routes))

  abbrev pub chosen : Policy → ProviderRoutingRequest → List Route → List Route
  chosen policy request routes = choose_attempts A policy (
      select (route_fits_request_context A request)
        (order_routes A policy (pool policy request routes)))

  planned-else :
      (b : Bool) (reason : UnavailableReason) (r : ProviderRoutingResult A)
      (p : ProviderRoutingPlan A)
      → (if b then unavailable reason else r) ≡ planned p
      → (b ≡ false) × (r ≡ planned p)
  planned-else true reason r p e = cc e
  planned-else false reason r p e = (refl, e)

  planned-finish :
      (model : String) (policy : Policy) (request : ProviderRoutingRequest)
      (cost : Route → A.Amount) (ordered : List Route) (p : ProviderRoutingPlan A)
      → finish_plan A model policy request cost ordered ≡ planned p
      → let attempts =
          choose_attempts A policy (select (route_fits_request_context A request) ordered) in
        (is_nil A attempts ≡ false) × (make_plan A model policy cost attempts ≡ p)
  unfolding finish_plan
  planned-finish model policy request cost ordered p e =
      let fitting : List Route = select (route_fits_request_context A request) ordered in
      let attempts : List Route = choose_attempts A policy fitting in
      let (_, e') =
        planned-else (not (is_nil A ordered) && is_nil A fitting) no_provider_route_fits_context _ p
          e in
      let (some_attempt, e'') =
        planned-else (is_nil A attempts) no_provider_route
          (planned (make_plan A model policy cost attempts)) p e' in
      (some_attempt, cc e'')

  pub planned-chosen :
      (model : String) (routes : List Route) (policy : Policy) (request : ProviderRoutingRequest)
      (cost : Route → A.Amount) (p : ProviderRoutingPlan A)
      → build_provider_routing_plan A model routes policy request cost ≡ planned p
      → (is_nil A (chosen policy request routes) ≡ false)
        × (make_plan A model policy cost (chosen policy request routes) ≡ p)
  unfolding build_provider_routing_plan
  planned-chosen model routes policy request cost p e =
      let (_, e1) = planned-else _ no_provider_route _ p e in
      let (_, e2) = planned-else _ no_provider_route_meets_price _ p e1 in
      let (_, e3) = planned-else _ no_provider_route_meets_privacy _ p e2 in
      planned-finish model policy request cost (order_routes A policy (pool policy request routes))
        p e3

  -- What an attempt has to be: one of the routes given, able to serve the request under the policy's
  -- lists, within the price ceilings, above the privacy floor, and with room for the prompt.
  pub record Allowed (policy : Policy) (request : ProviderRoutingRequest) (routes : List Route)
      (r : Route) : Type 0 where
    pub listed : Member r routes
    pub eligible : technically_eligible A policy request r ≡ true
    pub affordable : passes_max_price A policy r ≡ true
    pub private_enough : at_least A (hard_floor_rank A policy.minimum_privacy policy.sort) r ≡ true
    pub fitting : route_fits_request_context A request r ≡ true

  chosen-Allowed :
      (policy : Policy) (request : ProviderRoutingRequest) (routes : List Route)
      → All (Allowed policy request routes) (chosen policy request routes)
  unfolding within_hard_floor
  chosen-Allowed policy request routes =
      let floor : Route → Bool =
        at_least A (hard_floor_rank A policy.minimum_privacy policy.sort) in
      let fits : Route → Bool = route_fits_request_context A request in
      let affordable : Route → Bool = passes_max_price A policy in
      let eligible : Route → Bool = technically_eligible A policy request in
      let capable : List Route = select eligible routes in
      let within : List Route = select affordable capable in
      let P1 : Route → Type 0 = λ r. Member r routes × (eligible r ≡ true) in
      let P2 : Route → Type 0 = λ r. P1 r × (affordable r ≡ true) in
      let P3 : Route → Type 0 = λ r. P2 r × (floor r ≡ true) in
      let P4 : Route → Type 0 = λ r. P3 r × (fits r ≡ true) in
      let h1 : All P1 capable =
        All-pair (λ r. Member r routes) (λ r. eligible r ≡ true) capable
          (All-select (λ r. Member r routes) eligible routes (All-Member routes))
          (All-passed eligible routes) in
      let h2 : All P2 within =
        All-pair P1 (λ r. affordable r ≡ true) within (All-select P1 affordable capable h1)
          (All-passed affordable capable) in
      let h3 : All P3 (select floor within) =
        All-pair P2 (λ r. floor r ≡ true) (select floor within) (All-select P2 floor within h2)
          (All-passed floor within) in
      let ordered : List Route = order_routes A policy (select floor within) in
      let h4 : All P4 (select fits ordered) =
        All-pair P3 (λ r. fits r ≡ true) (select fits ordered)
          (All-select P3 fits ordered (All-order_routes A P3 policy (select floor within) h3))
          (All-passed fits ordered) in
      All-map {P = P4}
        (λ r h. record {
          listed = h.0.0.0.0;
          eligible = h.0.0.0.1;
          affordable = h.0.0.1;
          private_enough = h.0.1;
          fitting = h.1;
        })
        (chosen policy request routes) (All-choose_attempts A P4 policy (select fits ordered) h4)

  -- Every attempt of a plan is one of the routes given, may serve the request under the policy's lists,
  -- has a price within its ceilings and a privacy class at or above its floor, and holds the prompt.
  pub plan-Allowed :
      (model : String) (routes : List Route) (policy : Policy) (request : ProviderRoutingRequest)
      (cost : Route → A.Amount) (p : ProviderRoutingPlan A)
      → build_provider_routing_plan A model routes policy request cost ≡ planned p
      → All (Allowed policy request routes) p.attempts
  unfolding make_plan
  plan-Allowed model routes policy request cost p e =
      let (_, made) = planned-chosen model routes policy request cost p e in
      subst (λ q. All (Allowed policy request routes) q.attempts) made
        (chosen-Allowed policy request routes)
