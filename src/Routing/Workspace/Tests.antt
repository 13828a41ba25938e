-- ===== src/Routing/Workspace/Tests.antt =====
-- src/providers/routing/policy.ts: the three routes of the engine's tests under a workspace's defaults.
use confidential_content_pla.Prelude.{
  ◌≤◌, ◌≡◌, refl, none, some, true, false, not, ◌&&◌, [], ◌∷◌, String, if◌then◌else◌, length, max,
  min, All, Member, decimal, json_list, json_text, sort_texts,
}
use confidential_content_pla.Prelude.TextOrder.{swapped}
use confidential_content_pla.Routing.{price, tee, NormalizedProviderRoutingPolicy, matches_slug}
use confidential_content_pla.Routing.Whole.{Whole, whole, lowest, highest, wholes}
use confidential_content_pla.Routing.Filters.{
  technically_eligible, passes_max_price, route_fits_request_context, is_provider_route_eligible,
  outside_only,
}
use confidential_content_pla.Routing.Engine.{
  ProviderRoutingPlan, planned, make_plan, finish_plan, build_provider_routing_plan,
  within_hard_floor, order_routes, confine, choose_attempts,
}
use confidential_content_pla.Routing.Ordering.{
  sort_routes, insert_route, compare_routes, comparison_keys, price_key, latency_key,
  provider_tie_break_rank,
}
use confidential_content_pla.Routing.Tests.{route, three, auto, short_chat, cost}
use confidential_content_pla.Routing.Workspace.{
  WorkspaceProviderDefaults, merge_workspace_provider_policy, provider_policy_digest,
  intersect_only,
}
use confidential_content_pla.Routing.Workspace.Restricts.{standing, eligible-merge}
use confidential_content_pla.Routing.Workspace.Plans.{plan-merged}
use confidential_content_pla.Routing.Workspace.Digest.{digest-Reordered}

abbrev amount_text : Whole → String
amount_text lowest = "-Infinity"
amount_text highest = "null"
amount_text (whole n) = decimal n

abbrev strict : WorkspaceProviderDefaults wholes
strict = record {
  sort = price;
  only = none;
  ignore = "mock" ∷ "tinfoil" ∷ [];
  allow_fallbacks = true;
  max_attempts = 2;
  minimum_privacy = some tee;
  max_price = some (record { input = some (whole 9); output = none });
  require_parameters = false;
}

auto_digest :
    provider_policy_digest wholes amount_text auto
    ≡ "{\"o\":[],\"y\":null,\"i\":[],\"f\":true,\"s\":\"privacy\",\"p\":null,\"x\":null,\"r\":false,\"a\":3,\"n\":false}"
unfolding provider_policy_digest json_list json_text decimal sort_texts
auto_digest = refl

abbrev merged : NormalizedProviderRoutingPolicy Whole
merged = record {
  order = [];
  only = none;
  ignore = "mock" ∷ "tinfoil" ∷ [];
  allow_fallbacks = true;
  sort = price;
  minimum_privacy = some tee;
  max_price = some (record { input = some (whole 9); output = none });
  require_parameters = false;
  max_attempts = 2;
  pin = false;
}

merge_auto : merge_workspace_provider_policy wholes amount_text auto strict ≡ merged
unfolding merge_workspace_provider_policy provider_policy_digest json_list json_text decimal
    sort_texts
merge_auto = refl

eligible-merge_example :
    is_provider_route_eligible wholes
      (merge_workspace_provider_policy wholes amount_text auto strict)
      short_chat
      (route 2 "tinfoil" "tee" 3)
    ≡ (is_provider_route_eligible wholes auto short_chat (route 2 "tinfoil" "tee" 3)
        && is_provider_route_eligible wholes
            (standing wholes strict)
            short_chat
            (route 2 "tinfoil" "tee" 3))
      && not (outside_only "tinfoil" (intersect_only none none))
eligible-merge_example =
    eligible-merge wholes amount_text auto strict short_chat (route 2 "tinfoil" "tee" 3)

abbrev single : ProviderRoutingPlan wholes
single = record {
  canonical_model_id = "m";
  policy = merged;
  attempts = route 1 "venice" "tee" 5 ∷ [];
  effective_privacy_class = "tee";
  minimum_privacy_class = "tee";
  fallback_available = false;
  maximum_reservation_usd = whole 5;
}

plan_strict :
    build_provider_routing_plan wholes "m" three
      (merge_workspace_provider_policy wholes amount_text auto strict)
      short_chat
      cost
    ≡ planned single
unfolding merge_workspace_provider_policy provider_policy_digest json_list json_text decimal
    sort_texts build_provider_routing_plan finish_plan make_plan within_hard_floor order_routes
    sort_routes insert_route compare_routes comparison_keys confine choose_attempts
    technically_eligible passes_max_price route_fits_request_context price_key latency_key
    provider_tie_break_rank matches_slug
plan_strict = refl

plan-merged_example :
    All
      (λ r.
        Member r three
        × (is_provider_route_eligible wholes auto short_chat r ≡ true)
        × (is_provider_route_eligible wholes (standing wholes strict) short_chat r ≡ true))
      single.attempts
    × (length single.attempts ≤ (
        if auto.allow_fallbacks && strict.allow_fallbacks
        then max 1 (min auto.max_attempts strict.max_attempts)
        else 1))
plan-merged_example =
    plan-merged wholes amount_text "m" three auto strict short_chat cost single plan_strict

digest-Reordered_example :
    provider_policy_digest wholes amount_text merged
    ≡ provider_policy_digest wholes amount_text
        (record merged { only = none; ignore = "tinfoil" ∷ "mock" ∷ [] })
digest-Reordered_example =
    digest-Reordered wholes amount_text merged none ("tinfoil" ∷ "mock" ∷ []) tt
      (swapped "mock" "tinfoil" [])
