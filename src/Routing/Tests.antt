-- ===== src/Routing/Tests.antt =====
-- src/providers/routing/engine.ts: a plan over three routes.
use confidential_content_pla.Prelude.{
  ℕ, ◌≤◌, ◌≡◌, refl, none, some, true, false, List, [], ◌∷◌, String, if◌then◌else◌, select, length,
  max, ltb, All,
}
use confidential_content_pla.Routing.{
  Amounts, privacy, healthy, temporarily_unavailable, text, chat, class_rank,
  NormalizedProviderRoutingPolicy, ProviderRoute, ProviderRoutingRequest,
}
use confidential_content_pla.Routing.Whole.{Whole, whole, wholes}
use confidential_content_pla.Routing.Filters.{
  technically_eligible_routes, technically_eligible, passes_max_price, rank_of,
  route_fits_request_context,
}
use confidential_content_pla.Routing.Engine.{
  ProviderRoutingPlan, planned, make_plan, finish_plan, build_provider_routing_plan,
  within_hard_floor, order_routes, confine, choose_attempts,
}
use confidential_content_pla.Routing.Ordering.{
  sort_routes, insert_route, compare_routes, comparison_keys, price_key, latency_key,
  provider_tie_break_rank,
}
use confidential_content_pla.Prelude.Int.{pos}
use confidential_content_pla.Routing.Health.{
  ProviderHealthSignals, closed, opened, provider_health_from_signals, IsRunning, plan-IsRunning,
  select_next_provider_attempt,
}
use confidential_content_pla.Routing.Plans.{Allowed, plan-Allowed}
use confidential_content_pla.Routing.Bounds.{plan-attempts_bounded, HasClass, plan-classes}
use confidential_content_pla.Routing.Confinement.{plan-strongest}
use confidential_content_pla.Routing.Reservation.{plan-reserved}

abbrev pub route : ℕ → String → String → ℕ → ProviderRoute Whole
route object provider class cents = record {
  object = object;
  provider = provider;
  canonical_model_id = "m";
  public_model_id = "m";
  external_model_id = "m";
  privacy_class = class;
  model_type = text;
  input_price_per_million = whole cents;
  output_price_per_million = whole cents;
  cache_read_price_per_million = none;
  cache_write_price_per_million = none;
  unit_price_usd = none;
  priced = true;
  supports_streaming = true;
  supports_tools = false;
  supports_vision = false;
  supports_reasoning = false;
  max_output_tokens = some 100;
  context_window = 1_000;
  expected_latency_ms = none;
  latency_p50_ms = none;
  throughput_tps = none;
  health = healthy;
  stable_id = provider;
}

abbrev pub three : List (ProviderRoute Whole)
three = route 0 "mock" "private" 1 ∷ route 1 "venice" "tee" 5 ∷ route 2 "tinfoil" "tee" 3 ∷ []

abbrev pub auto : NormalizedProviderRoutingPolicy Whole
auto = record {
  order = [];
  only = none;
  ignore = [];
  allow_fallbacks = true;
  sort = privacy;
  minimum_privacy = none;
  max_price = none;
  require_parameters = false;
  max_attempts = 3;
  pin = false;
}

abbrev pub short_chat : ProviderRoutingRequest
short_chat = record {
  operation = chat;
  stream = true;
  requires_tools = false;
  requires_vision = false;
  requires_reasoning = false;
  e2ee_request = false;
  requested_max_output_tokens = some 50;
  input_token_ceiling = some 100;
}

abbrev pub cost : ProviderRoute Whole → Whole
cost r = r.input_price_per_million

-- The two enclaves, the cheaper first.
abbrev expected : ProviderRoutingPlan wholes
expected = record {
  canonical_model_id = "m";
  policy = auto;
  attempts = route 2 "tinfoil" "tee" 3 ∷ route 1 "venice" "tee" 5 ∷ [];
  effective_privacy_class = "tee";
  minimum_privacy_class = "tee";
  fallback_available = true;
  maximum_reservation_usd = whole 5;
}

plan_three : build_provider_routing_plan wholes "m" three auto short_chat cost ≡ planned expected
unfolding build_provider_routing_plan finish_plan make_plan within_hard_floor order_routes
    sort_routes insert_route compare_routes comparison_keys confine choose_attempts
    technically_eligible passes_max_price route_fits_request_context price_key latency_key
    provider_tie_break_rank
plan_three = refl

plan-Allowed_example : All (Allowed wholes auto short_chat three) expected.attempts
plan-Allowed_example = plan-Allowed wholes "m" three auto short_chat cost expected plan_three

bounded_example :
    (1 ≤ length expected.attempts)
    × (length expected.attempts ≤ (if auto.allow_fallbacks then max 1 auto.max_attempts else 1))
    × (expected.fallback_available ≡ ltb 1 (length expected.attempts))
bounded_example = plan-attempts_bounded wholes "m" three auto short_chat cost expected plan_three

classes_example :
    HasClass wholes expected.minimum_privacy_class expected.attempts
    × HasClass wholes expected.effective_privacy_class expected.attempts
    × All (λ r. class_rank expected.minimum_privacy_class ≤ rank_of wholes r) expected.attempts
    × All (λ r. rank_of wholes r ≤ class_rank expected.effective_privacy_class) expected.attempts
classes_example = plan-classes wholes "m" three auto short_chat cost expected plan_three

strongest_example :
    All
      (λ a.
        All
          (λ r. rank_of wholes r ≤ rank_of wholes a)
          (select
            (passes_max_price wholes auto)
            (technically_eligible_routes wholes auto short_chat three)))
      expected.attempts
strongest_example =
    plan-strongest wholes "m" three auto short_chat cost expected refl refl refl plan_three

reserved_example :
    All (λ r. Amounts.lt wholes expected.maximum_reservation_usd (cost r) ≡ false) expected.attempts
reserved_example = plan-reserved wholes "m" three auto short_chat cost expected plan_three

abbrev quiet : ProviderHealthSignals wholes (whole 50)
quiet = record {
  emergency_disabled = false;
  kill_switch_engaged = false;
  circuit_state = some closed;
  catalog_stale = none;
  provider_active = some true;
  model_callable = none;
  recent_attempts = some 9;
  recent_success_rate = some (whole 90);
}

health_open :
    provider_health_from_signals wholes (whole 50) (record quiet { circuit_state = some opened })
    ≡ temporarily_unavailable
unfolding provider_health_from_signals
health_open = refl

next_attempt :
    select_next_provider_attempt wholes expected (pos 1) ≡ some (route 1 "venice" "tee" 5)
unfolding select_next_provider_attempt
next_attempt = refl

quiet_everywhere : All (λ r. r.health ≡ provider_health_from_signals wholes (whole 50) quiet) three
unfolding provider_health_from_signals
quiet_everywhere = (refl, (refl, (refl, tt)))

plan-IsRunning_example : All (λ r. IsRunning wholes (whole 50) quiet) expected.attempts
plan-IsRunning_example =
    plan-IsRunning wholes (whole 50) (λ r. quiet) "m" three auto short_chat cost expected
      quiet_everywhere plan_three
