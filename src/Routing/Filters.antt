-- ===== src/Routing/Filters.antt =====
-- src/providers/routing/engine.ts: which routes may serve a request.
use confidential_content_pla.Prelude.{
  ℕ, ◌-◌, Option, none, some, Bool, true, false, not, ◌&&◌, List, [], ◌∷◌, String, str_eq, ltb, leb,
  if◌then◌else◌, select,
}
use confidential_content_pla.Routing.{
  Amounts, ProviderPrivacyFloor, ProviderHealth, healthy, degraded, temporarily_unavailable,
  disabled, ModelType, text, image, tts, embedding, Operation, chat, embeddings, images, speech,
  class_rank, floor_rank, PriceCeiling, NormalizedProviderRoutingPolicy, ProviderRoute,
  ProviderRoutingRequest, in_list,
}

abbrev pub route_is_attemptable : ProviderHealth → Bool
route_is_attemptable healthy = true
route_is_attemptable degraded = true
route_is_attemptable temporarily_unavailable = false
route_is_attemptable disabled = false

abbrev pub operation_model_type : Operation → ModelType
operation_model_type embeddings = embedding
operation_model_type images = image
operation_model_type speech = tts
operation_model_type chat = text

abbrev pub same_type : ModelType → ModelType → Bool
same_type text text = true
same_type image image = true
same_type tts tts = true
same_type embedding embedding = true
same_type _ _ = false

-- `policy.only && !inList(…)`: refused by a list that is there.
abbrev pub outside_only : String → Option (List String) → Bool
outside_only provider none = false
outside_only provider (some slugs) = not (in_list provider slugs)

-- `requested !== undefined && limit !== null && requested > limit`
abbrev pub asks_too_much : Option ℕ → Option ℕ → Bool
asks_too_much (some requested) (some limit) = ltb limit requested
asks_too_much _ _ = false

module _ (A : Amounts) where
  open A use {Amount, lt}

  -- The filter of `technicallyEligibleRoutes`.
  unfoldable pub technically_eligible :
      NormalizedProviderRoutingPolicy Amount → ProviderRoutingRequest → ProviderRoute Amount → Bool
  technically_eligible policy request route =
      same_type route.model_type (operation_model_type request.operation)
      && ((if request.e2ee_request
            then str_eq route.privacy_class "e2ee"
            else not (str_eq route.privacy_class "e2ee"))
          && (route_is_attemptable route.health
              && (route.priced
                  && (not (outside_only route.provider policy.only)
                      && (not (in_list route.provider policy.ignore)
                          && (not (request.stream && not route.supports_streaming)
                              && (not (request.requires_tools && not route.supports_tools)
                                  && (not (request.requires_vision && not route.supports_vision)
                                      && (not (
                                            policy.require_parameters
                                            && (request.requires_reasoning
                                                && not route.supports_reasoning))
                                          && not (
                                              asks_too_much request.requested_max_output_tokens
                                                route.max_output_tokens))))))))))

  abbrev pub technically_eligible_routes :
      NormalizedProviderRoutingPolicy Amount
      → ProviderRoutingRequest
      → List (ProviderRoute Amount)
      → List (ProviderRoute Amount)
  technically_eligible_routes policy request = select (technically_eligible policy request)

  -- `requested === undefined || requested <= remaining`
  abbrev pub leaves_room : Option ℕ → ℕ → Bool
  leaves_room none remaining = true
  leaves_room (some requested) remaining = leb requested remaining

  abbrev pub fits_window : ModelType → (window ceiling : ℕ) → Option ℕ → Bool
  fits_window text window ceiling requested =
      if leb window ceiling then false else leaves_room requested (window - ceiling)
  fits_window embedding window ceiling requested = leb ceiling window
  fits_window _ window ceiling requested = true

  abbrev pub fits_ceiling : ModelType → ℕ → Option ℕ → Option ℕ → Bool
  fits_ceiling type window none requested = true
  fits_ceiling type window (some ceiling) requested = fits_window type window ceiling requested

  unfoldable pub route_fits_request_context : ProviderRoutingRequest → ProviderRoute Amount → Bool
  route_fits_request_context request route =
      fits_ceiling route.model_type route.context_window request.input_token_ceiling
        request.requested_max_output_tokens

  -- `ceiling !== null && price > ceiling`
  abbrev pub above_ceiling : Option Amount → Amount → Bool
  above_ceiling none price_per_million = false
  above_ceiling (some ceiling) price_per_million = lt ceiling price_per_million

  abbrev pub within_ceiling : Option (PriceCeiling Amount) → ProviderRoute Amount → Bool
  within_ceiling none route = true
  within_ceiling (some c) route =
      not (above_ceiling c.input route.input_price_per_million)
      && not (above_ceiling c.output route.output_price_per_million)

  unfoldable pub passes_max_price :
      NormalizedProviderRoutingPolicy Amount → ProviderRoute Amount → Bool
  passes_max_price policy = within_ceiling policy.max_price

  unfoldable pub list_eligible_provider_routes :
      NormalizedProviderRoutingPolicy Amount
      → ProviderRoutingRequest
      → List (ProviderRoute Amount)
      → List (ProviderRoute Amount)
  list_eligible_provider_routes policy request routes =
      select (λ route. passes_max_price policy route && route_fits_request_context request route)
        (technically_eligible_routes policy request routes)

  abbrev pub rank_of : ProviderRoute Amount → ℕ
  rank_of route = class_rank route.privacy_class

  abbrev pub below_floor : Option ProviderPrivacyFloor → ProviderRoute Amount → Bool
  below_floor none route = false
  below_floor (some floor) route = ltb (rank_of route) (floor_rank floor)

  unfoldable pub is_provider_route_eligible :
      NormalizedProviderRoutingPolicy Amount → ProviderRoutingRequest → ProviderRoute Amount → Bool
  is_provider_route_eligible policy request route =
      elim (list_eligible_provider_routes policy request (route ∷ [])) [
        | [] ↦ false
        | ◌∷◌ _ _ ↦ not (below_floor policy.minimum_privacy route)
      ]
