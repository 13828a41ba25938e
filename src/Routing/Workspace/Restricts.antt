-- ===== src/Routing/Workspace/Restricts.antt =====
-- src/providers/routing/policy.ts: a route may be used under a merged policy exactly when the request's
-- policy and the workspace's defaults both let it be used, and the merged only list does.
use confidential_content_pla.Prelude.{
  ◌≡◌, refl, ap, ◌∙◌, Bool, true, false, not, ◌&&◌, ◌||◌, [], String, if◌then◌else◌, arith, str_eq,
}
use confidential_content_pla.Routing.{
  Amounts, NormalizedProviderRoutingPolicy, ProviderRoute, ProviderRoutingRequest, in_list,
}
use confidential_content_pla.Routing.Filters.{
  technically_eligible, passes_max_price, route_fits_request_context, is_provider_route_eligible,
  list_eligible_provider_routes, outside_only, below_floor, within_ceiling, same_type,
  operation_model_type, route_is_attemptable, asks_too_much,
}
use confidential_content_pla.Routing.Workspace.{
  WorkspaceProviderDefaults, merge_workspace_provider_policy, intersect_only,
}
use confidential_content_pla.Routing.Workspace.Lists.{
  in_list-merged, outside_only-intersect, below_floor-stronger, within_ceiling-tighter,
}

module _ (A : Amounts) where
  open A use {Amount}

  -- The defaults as a policy of their own.
  abbrev pub standing : WorkspaceProviderDefaults A → NormalizedProviderRoutingPolicy Amount
  standing w = record {
    order = [];
    only = w.only;
    ignore = w.ignore;
    allow_fallbacks = w.allow_fallbacks;
    sort = w.sort;
    minimum_privacy = w.minimum_privacy;
    max_price = w.max_price;
    require_parameters = w.require_parameters;
    max_attempts = w.max_attempts;
    pin = false;
  }

  -- What a policy says of a route, apart from what only the request and the route say.
  abbrev admits :
      NormalizedProviderRoutingPolicy Amount → ProviderRoutingRequest → ProviderRoute Amount → Bool
  admits policy request route =
      not (outside_only route.provider policy.only)
      && (not (in_list route.provider policy.ignore)
          && (not (
                policy.require_parameters
                && (request.requires_reasoning && not route.supports_reasoning))
              && (within_ceiling A policy.max_price route
                  && not (below_floor A policy.minimum_privacy route))))

  abbrev fits : ProviderRoutingRequest → ProviderRoute Amount → Bool
  fits request route =
      same_type route.model_type (operation_model_type request.operation)
      && ((if request.e2ee_request
            then str_eq route.privacy_class "e2ee"
            else not (str_eq route.privacy_class "e2ee"))
          && (route_is_attemptable route.health
              && (route.priced
                  && (not (request.stream && not route.supports_streaming)
                      && (not (request.requires_tools && not route.supports_tools)
                          && (not (request.requires_vision && not route.supports_vision)
                              && (not (
                                    asks_too_much request.requested_max_output_tokens
                                      route.max_output_tokens)
                                  && route_fits_request_context A request route)))))))

  regroup :
      (a b c d e f g h i j k l m n : Bool)
      → ((a && (b && (c && (d && (e && (f && (g && (h && (i && (j && k)))))))))) && (l && m)) && n
        ≡ ((a && (b && (c && (d && (g && (h && (i && (k && m))))))))
            && (e && (f && (j && (l && n)))))
  regroup a b c d e f g h i j k l m n = ground arith

  -- The test of a single route is the conjunction of the filters.
  pub eligible_tests :
      (policy : NormalizedProviderRoutingPolicy Amount) (request : ProviderRoutingRequest)
      (route : ProviderRoute Amount)
      → is_provider_route_eligible A policy request route
        ≡ (technically_eligible A policy request route
            && (passes_max_price A policy route && route_fits_request_context A request route))
          && not (below_floor A policy.minimum_privacy route)
  unfolding is_provider_route_eligible list_eligible_provider_routes
  eligible_tests policy request route = ground arith

  split :
      (policy : NormalizedProviderRoutingPolicy Amount) (request : ProviderRoutingRequest)
      (route : ProviderRoute Amount)
      → is_provider_route_eligible A policy request route
        ≡ (fits request route && admits policy request route)
  unfolding technically_eligible passes_max_price
  split policy request route =
      eligible_tests policy request route
      ∙ regroup (same_type route.model_type (operation_model_type request.operation))
          (if request.e2ee_request
            then str_eq route.privacy_class "e2ee"
            else not (str_eq route.privacy_class "e2ee"))
          (route_is_attemptable route.health) route.priced
          (not (outside_only route.provider policy.only))
          (not (in_list route.provider policy.ignore))
          (not (request.stream && not route.supports_streaming))
          (not (request.requires_tools && not route.supports_tools))
          (not (request.requires_vision && not route.supports_vision))
          (not (
            policy.require_parameters
            && (request.requires_reasoning && not route.supports_reasoning)))
          (not (asks_too_much request.requested_max_output_tokens route.max_output_tokens))
          (within_ceiling A policy.max_price route) (route_fits_request_context A request route)
          (not (below_floor A policy.minimum_privacy route))

  -- Each part of a merged policy is the conjunction of the two sides; the list is stricter than both.
  conjunction :
      (o o1 o2 i1 i2 r1 r2 q c1 c2 f1 f2 : Bool)
      → (o ≡ false → (o1 ≡ false) × (o2 ≡ false))
      → (not o && (not (i1 || i2) && (not ((r1 || r2) && q) && ((c1 && c2) && not (f1 || f2)))))
        ≡ ((not o1 && (not i1 && (not (r1 && q) && (c1 && not f1))))
            && (not o2 && (not i2 && (not (r2 && q) && (c2 && not f2)))))
          && not o
  conjunction true o1 o2 i1 i2 r1 r2 q c1 c2 f1 f2 h = ground arith
  conjunction false o1 o2 i1 i2 r1 r2 q c1 c2 f1 f2 h = rw ((h refl).0, (h refl).1) (ground arith)

  both : (x a b o : Bool) → (x && ((a && b) && not o)) ≡ ((x && a) && (x && b)) && not o
  both x a b o = ground arith

  module _ (amount_text : Amount → String) where
    admits-merge :
        (r : NormalizedProviderRoutingPolicy Amount) (w : WorkspaceProviderDefaults A)
        (request : ProviderRoutingRequest) (route : ProviderRoute Amount)
        → admits (merge_workspace_provider_policy A amount_text r w) request route
          ≡ (admits r request route && admits (standing w) request route)
            && not (outside_only route.provider (intersect_only r.only w.only))
    unfolding merge_workspace_provider_policy
    admits-merge r w request route =
        rw
          (
            in_list-merged route.provider r.ignore w.ignore,
            below_floor-stronger A r.minimum_privacy w.minimum_privacy route,
            within_ceiling-tighter A r.max_price w.max_price route,
          )
          (conjunction (outside_only route.provider (intersect_only r.only w.only))
            (outside_only route.provider r.only) (outside_only route.provider w.only)
            (in_list route.provider r.ignore) (in_list route.provider w.ignore) r.require_parameters
            w.require_parameters (request.requires_reasoning && not route.supports_reasoning)
            (within_ceiling A r.max_price route) (within_ceiling A w.max_price route)
            (below_floor A r.minimum_privacy route) (below_floor A w.minimum_privacy route)
            (outside_only-intersect route.provider r.only w.only))

    -- A route may be used under the merged policy exactly when it may be used under the request's policy,
    -- it may be used under the workspace's defaults, and the only lists, intersected, list it.
    pub eligible-merge :
        (r : NormalizedProviderRoutingPolicy Amount) (w : WorkspaceProviderDefaults A)
        (request : ProviderRoutingRequest) (route : ProviderRoute Amount)
        → is_provider_route_eligible A
            (merge_workspace_provider_policy A amount_text r w)
            request
            route
          ≡ (is_provider_route_eligible A r request route
              && is_provider_route_eligible A (standing w) request route)
            && not (outside_only route.provider (intersect_only r.only w.only))
    eligible-merge r w request route =
        split (merge_workspace_provider_policy A amount_text r w) request route
        ∙ ap (λ b. fits request route && b) (admits-merge r w request route)
        ∙ both (fits request route) (admits r request route) (admits (standing w) request route) _
        ∙ rw (split r request route, split (standing w) request route)
