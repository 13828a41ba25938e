-- ===== src/Routing/Engine.antt =====
-- src/providers/routing/engine.ts: the order of the routes, and the plan.
use confidential_content_pla.Prelude.{
  ℕ, ◌==◌, min, max, Option, none, some, Bool, true, false, not, ◌&&◌, ◌||◌, List, [], ◌∷◌, ◌++◌,
  String, ltb, leb, if◌then◌else◌, select, take, length,
}
use confidential_content_pla.Routing.{
  Amounts, ProviderSort, privacy, ProviderPrivacyFloor, floor_rank, NormalizedProviderRoutingPolicy,
  ProviderRoute, ProviderRoutingRequest, matches_slug,
}
use confidential_content_pla.Routing.Filters.{
  technically_eligible_routes, route_fits_request_context, passes_max_price, rank_of,
}
use confidential_content_pla.Routing.Ordering.{sort_routes}

pub data UnavailableReason : Type 0 where
  no_provider_route no_provider_route_meets_privacy no_provider_route_meets_price :
      UnavailableReason
  no_provider_route_fits_context : UnavailableReason

module _ (A : Amounts) where
  open A use {Amount, lt, sum, nought, infinity, minus_infinity}

  abbrev Route : Type 0
  Route = ProviderRoute Amount

  abbrev Policy : Type 0
  Policy = NormalizedProviderRoutingPolicy Amount

  abbrev pub is_nil : List Route → Bool
  is_nil [] = true
  is_nil (r ∷ rs) = false

  -- `seen.has(route)`: a Set of objects.
  abbrev pub has_seen : List ℕ → Route → Bool
  has_seen [] route = false
  has_seen (o ∷ seen) route = o == route.object || has_seen seen route

  abbrev pub objects : List Route → List ℕ
  objects [] = []
  objects (r ∷ rs) = r.object ∷ objects rs

  abbrev pub named_by : String → List ℕ → List Route → List Route
  named_by slug seen [] = []
  named_by slug seen (r ∷ rs) =
      if not (has_seen seen r) && matches_slug r.provider slug
      then r ∷ named_by slug (r.object ∷ seen) rs
      else named_by slug seen rs

  abbrev pub explicit_routes : List String → List ℕ → List Route → List Route
  explicit_routes [] seen pool = []
  explicit_routes (slug ∷ order) seen pool =
      let named = named_by slug seen pool in
      named ++ explicit_routes order (objects named ++ seen) pool

  abbrev pub lowest_rank : List Route → ℕ
  lowest_rank [] = 0
  lowest_rank (r ∷ []) = rank_of A r
  lowest_rank (r ∷ s ∷ rs) = min (rank_of A r) (lowest_rank (s ∷ rs))

  abbrev pub highest_rank : List Route → ℕ
  highest_rank [] = 0
  highest_rank (r ∷ rs) = max (rank_of A r) (highest_rank rs)

  abbrev pub by_privacy : ProviderSort → Bool
  by_privacy privacy = true
  by_privacy _ = false

  abbrev pub is_none {ℓ} : {B : Type ℓ} → Option B → Bool
  is_none none = true
  is_none (some b) = false

  abbrev pub hard_floor_rank : Option ProviderPrivacyFloor → ProviderSort → Option ℕ
  hard_floor_rank (some floor) sort = some (floor_rank floor)
  hard_floor_rank none sort = if by_privacy sort then none else some 1

  abbrev pub at_least : Option ℕ → Route → Bool
  at_least none route = true
  at_least (some floor) route = leb floor (rank_of A route)

  unfoldable pub within_hard_floor : Policy → List Route → List Route
  within_hard_floor policy = select (at_least (hard_floor_rank policy.minimum_privacy policy.sort))

  -- The class that default privacy sorting does not go below.
  abbrev pub confine_floor : List Route → List Route → ℕ
  confine_floor [] [] = 0
  confine_floor [] (r ∷ ordered) = rank_of A r
  confine_floor (e ∷ explicit) ordered = lowest_rank (e ∷ explicit)

  unfoldable pub confine : Policy → List Route → List Route → List Route
  confine policy explicit ordered =
      if is_none policy.minimum_privacy && by_privacy policy.sort
      then select
          (λ r. has_seen (objects explicit) r || leb (confine_floor explicit ordered) (rank_of A r))
          ordered
      else ordered

  unfoldable pub order_routes : Policy → List Route → List Route
  order_routes policy pool =
      let sorted = sort_routes A policy.sort pool in
      let explicit = explicit_routes policy.order [] sorted in
      let remainder = select (λ r. not (has_seen (objects explicit) r)) sorted in
      confine policy explicit (
        if policy.allow_fallbacks
        then explicit ++ remainder
        else if is_nil explicit
        then remainder
        else explicit)

  -- `attempts.find(…)!.privacyClass`
  abbrev pub class_with_rank : ℕ → List Route → String
  class_with_rank n [] = ""
  class_with_rank n (r ∷ rs) = if rank_of A r == n then r.privacy_class else class_with_rank n rs

  abbrev pub greater : Amount → Amount → Amount
  greater a b = if lt a b then b else a

  -- The greatest cost of an attempt, from 0 on.
  abbrev pub highest_cost : (Route → Amount) → Amount → List Route → Amount
  highest_cost cost top [] = top
  highest_cost cost top (r ∷ rs) = highest_cost cost (greater top (cost r)) rs

  pub record ProviderRoutingPlan : Type 0 where
    pub canonical_model_id : String
    pub policy : Policy
    pub attempts : List Route
    pub effective_privacy_class : String
    pub minimum_privacy_class : String
    pub fallback_available : Bool
    pub maximum_reservation_usd : Amount

  pub data ProviderRoutingResult : Type 0 where
    planned : ProviderRoutingPlan → ProviderRoutingResult
    unavailable : UnavailableReason → ProviderRoutingResult

  unfoldable pub choose_attempts : Policy → List Route → List Route
  choose_attempts policy fitting =
      take (max 1 policy.max_attempts) (if policy.allow_fallbacks then fitting else take 1 fitting)

  unfoldable pub make_plan : String → Policy → (Route → Amount) → List Route → ProviderRoutingPlan
  make_plan model policy cost attempts = record {
    canonical_model_id = model;
    policy = policy;
    attempts = attempts;
    effective_privacy_class = class_with_rank (highest_rank attempts) attempts;
    minimum_privacy_class = class_with_rank (lowest_rank attempts) attempts;
    fallback_available = ltb 1 (length attempts);
    maximum_reservation_usd = highest_cost cost nought attempts;
  }

  unfoldable pub finish_plan :
      String
      → Policy
      → ProviderRoutingRequest
      → (Route → Amount)
      → List Route
      → ProviderRoutingResult
  finish_plan model policy request cost ordered =
      let fitting = select (route_fits_request_context A request) ordered in
      if not (is_nil ordered) && is_nil fitting
      then unavailable no_provider_route_fits_context
      else let attempts = choose_attempts policy fitting in
        if is_nil attempts
        then unavailable no_provider_route
        else planned (make_plan model policy cost attempts)

  unfoldable pub build_provider_routing_plan :
      String
      → List Route
      → Policy
      → ProviderRoutingRequest
      → (Route → Amount)
      → ProviderRoutingResult
  build_provider_routing_plan model routes policy request cost =
      let capable = technically_eligible_routes A policy request routes in
      if is_nil capable
      then unavailable no_provider_route
      else let within_price = select (passes_max_price A policy) capable in
        if is_nil within_price
        then unavailable no_provider_route_meets_price
        else let pool = within_hard_floor policy within_price in
          if is_nil pool
          then unavailable no_provider_route_meets_privacy
          else finish_plan model policy request cost (order_routes policy pool)
