-- ===== src/Routing/Health.antt =====
-- src/providers/routing/engine.ts: the health of a route from its signals, and the attempts by index. A
-- rate of success is a JavaScript number, as prices are; `half` is the literal 0.5.
use confidential_content_pla.Prelude.{
  ℕ, zero, suc, ◌≡◌, Option, none, some, Bool, true, false, not, ◌&&◌, ◌||◌, List, [], ◌∷◌, leb,
  if◌then◌else◌, default, arith, All, All-map, All-at, sym, ap, ◌∙◌, String,
}
use confidential_content_pla.Prelude.Int.{ℤ, pos, negsuc}
use confidential_content_pla.Routing.{
  Amounts, ProviderHealth, healthy, degraded, temporarily_unavailable, disabled, ProviderRoute,
  NormalizedProviderRoutingPolicy, ProviderRoutingRequest,
}
use confidential_content_pla.Routing.Filters.{route_is_attemptable, technically_eligible}
use confidential_content_pla.Routing.Engine.{
  ProviderRoutingPlan, planned, build_provider_routing_plan,
}
use confidential_content_pla.Routing.Plans.{Allowed, plan-Allowed}

pub data CircuitState : Type 0 where
  closed half_open opened : CircuitState

module _ (A : Amounts) (half : A.Amount) where
  open A use {Amount, lt}

  pub record ProviderHealthSignals : Type 0 where
    pub emergency_disabled : Bool
    pub kill_switch_engaged : Bool
    pub circuit_state : Option CircuitState
    pub catalog_stale : Option Bool
    pub provider_active : Option Bool
    pub model_callable : Option Bool
    pub recent_attempts : Option ℕ
    pub recent_success_rate : Option Amount

  -- `flag === false`
  abbrev pub denied : Option Bool → Bool
  denied none = false
  denied (some b) = not b

  abbrev pub is_open : Option CircuitState → Bool
  is_open (some opened) = true
  is_open _ = false

  abbrev pub is_half_open : Option CircuitState → Bool
  is_half_open (some half_open) = true
  is_half_open _ = false

  abbrev pub fails_often : Option Amount → Option ℕ → Bool
  fails_often none attempts = false
  fails_often (some rate) attempts = leb 8 (default 0 attempts) && lt rate half

  unfoldable pub provider_health_from_signals : ProviderHealthSignals → ProviderHealth
  provider_health_from_signals s =
      if s.emergency_disabled || (denied s.provider_active || denied s.model_callable)
      then disabled
      else if s.kill_switch_engaged || is_open s.circuit_state
      then temporarily_unavailable
      else if is_half_open s.circuit_state || default false s.catalog_stale
      then degraded
      else if fails_often s.recent_success_rate s.recent_attempts
      then degraded
      else healthy

  -- No control and no circuit forbids the provider.
  pub record IsRunning (s : ProviderHealthSignals) : Type 0 where
    pub enabled : s.emergency_disabled ≡ false
    pub active : denied s.provider_active ≡ false
    pub callable : denied s.model_callable ≡ false
    pub live : s.kill_switch_engaged ≡ false
    pub connected : is_open s.circuit_state ≡ false

  attemptable-IsRunning :
      (s : ProviderHealthSignals)
      → route_is_attemptable (provider_health_from_signals s) ≡ true
      → IsRunning s
  unfolding provider_health_from_signals
  attemptable-IsRunning s h = ground arith

  eligible-attemptable :
      (policy : NormalizedProviderRoutingPolicy Amount) (request : ProviderRoutingRequest)
      (route : ProviderRoute Amount)
      → technically_eligible A policy request route ≡ true
      → route_is_attemptable route.health ≡ true
  unfolding technically_eligible
  eligible-attemptable policy request route h = ground arith

  -- Where the health of every route is what its signals say, a plan attempts no route of a provider that
  -- is disabled for an emergency, inactive, not callable, stopped by a kill switch, or behind an open
  -- circuit.
  pub plan-IsRunning :
      (signals : ProviderRoute Amount → ProviderHealthSignals) (model : String)
      (routes : List (ProviderRoute Amount)) (policy : NormalizedProviderRoutingPolicy Amount)
      (request : ProviderRoutingRequest) (cost : ProviderRoute Amount → Amount)
      (p : ProviderRoutingPlan A)
      → All (λ route. route.health ≡ provider_health_from_signals (signals route)) routes
      → build_provider_routing_plan A model routes policy request cost ≡ planned p
      → All (λ route. IsRunning (signals route)) p.attempts
  plan-IsRunning signals model routes policy request cost p says e =
      All-map {P = Allowed A policy request routes}
        (λ route a. attemptable-IsRunning (signals route) (
          ap route_is_attemptable (
            sym (
              All-at (λ r. r.health ≡ provider_health_from_signals (signals r)) route routes says
                a.listed))
          ∙ eligible-attemptable policy request route a.eligible))
        p.attempts (plan-Allowed A model routes policy request cost p e)

module _ (A : Amounts) where
  open A use {Amount}

  abbrev pub attempt_at : List (ProviderRoute Amount) → ℕ → Option (ProviderRoute Amount)
  attempt_at [] i = none
  attempt_at (r ∷ rs) zero = some r
  attempt_at (r ∷ rs) (suc i) = attempt_at rs i

  unfoldable pub select_next_provider_attempt :
      ProviderRoutingPlan A → ℤ → Option (ProviderRoute Amount)
  select_next_provider_attempt plan (pos i) = attempt_at plan.attempts i
  select_next_provider_attempt plan (negsuc i) = none
