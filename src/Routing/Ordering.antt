-- ===== src/Routing/Ordering.antt =====
-- src/providers/routing/engine.ts: the order in which routes are tried, by the policy's strategy.
use confidential_content_pla.Prelude.{
  ℕ, suc, Bool, true, false, List, [], ◌∷◌, String, str_eq, ltb, if◌then◌else◌, default,
  text_before, ◌==◌,
}
use confidential_content_pla.Prelude.Int.{ℤ, pos, negsuc, sub_ℕ}
use confidential_content_pla.Routing.{
  Amounts, ProviderSort, privacy, price, latency, throughput, ProviderHealth, healthy, ModelType,
  image, tts, NormalizedProviderRoutingPolicy, ProviderRoute,
}
use confidential_content_pla.Routing.Filters.{rank_of}

-- `PROVIDER_TIE_BREAK_ORDER`
abbrev pub provider_tie_break_order : List String
provider_tie_break_order =
    "aws-bedrock" ∷ "chutes" ∷ "deepinfra" ∷ "fireworks" ∷ "mock" ∷ "phala-ai" ∷ "tinfoil"
    ∷ "venice" ∷ "near-ai" ∷ []

-- `indexOf`, and the length where it finds nothing.
abbrev pub position : String → List String → ℕ
position p [] = 0
position p (q ∷ qs) = if str_eq q p then 0 else suc (position p qs)

unfoldable pub provider_tie_break_rank : String → ℕ
provider_tie_break_rank provider = position provider provider_tie_break_order

-- Only two providers that are not listed are compared by their ids.
unfoldable pub compare_provider_tie_break : String → String → ℤ
unfolding provider_tie_break_rank text_before
compare_provider_tie_break left right =
    if provider_tie_break_rank left == provider_tie_break_rank right
    then if text_before left right
      then negsuc 0
      else if text_before right left
      then pos 1
      else pos 0
    else sub_ℕ (provider_tie_break_rank left) (provider_tie_break_rank right)

abbrev pub health_key : ProviderHealth → ℕ
health_key healthy = 0
health_key _ = 1

module _ (A : Amounts) where
  open A use {Amount, lt, sum, nought, infinity, minus_infinity}

  abbrev Route : Type 0
  Route = ProviderRoute Amount

  abbrev Policy : Type 0
  Policy = NormalizedProviderRoutingPolicy Amount

  -- A key of the comparison; the reversed ones are negated in the source.
  pub data Key : Type 0 where
    amount : Amount → Key
    reversed_amount : Amount → Key
    count : ℕ → Key
    reversed_count : ℕ → Key
    name : String → Key

  abbrev pub key_before : Key → Key → Bool
  key_before (amount a) (amount b) = lt a b
  key_before (reversed_amount a) (reversed_amount b) = lt b a
  key_before (count a) (count b) = ltb a b
  key_before (reversed_count a) (reversed_count b) = ltb b a
  key_before (name a) (name b) = text_before a b
  key_before _ _ = false

  abbrev media_price : ModelType → Route → Amount
  media_price image route = default infinity route.unit_price_usd
  media_price tts route = default infinity route.unit_price_usd
  media_price _ route = sum route.input_price_per_million route.output_price_per_million

  unfoldable pub price_key : Route → Amount
  price_key route = media_price route.model_type route

  unfoldable pub latency_key : Route → Amount
  latency_key route = default (default infinity route.expected_latency_ms) route.latency_p50_ms

  unfoldable pub throughput_key : Route → Amount
  throughput_key route = default minus_infinity route.throughput_tps

  unfoldable pub comparison_keys : ProviderSort → Route → List Key
  comparison_keys price route =
      amount (price_key route)
      ∷ count (health_key route.health)
      ∷ amount (latency_key route)
      ∷ count (provider_tie_break_rank route.provider)
      ∷ name route.stable_id
      ∷ []
  comparison_keys latency route =
      amount (latency_key route)
      ∷ count (health_key route.health)
      ∷ amount (price_key route)
      ∷ count (provider_tie_break_rank route.provider)
      ∷ name route.stable_id
      ∷ []
  comparison_keys throughput route =
      reversed_amount (throughput_key route)
      ∷ count (health_key route.health)
      ∷ amount (price_key route)
      ∷ count (provider_tie_break_rank route.provider)
      ∷ name route.stable_id
      ∷ []
  comparison_keys privacy route =
      reversed_count (rank_of A route)
      ∷ count (health_key route.health)
      ∷ amount (price_key route)
      ∷ amount (latency_key route)
      ∷ count (provider_tie_break_rank route.provider)
      ∷ name route.stable_id
      ∷ []

  pub data Comparison : Type 0 where
    before tied after : Comparison

  abbrev pub compare_keys : List Key → List Key → Comparison
  compare_keys (a ∷ keys) (b ∷ others) =
      if key_before a b then before else if key_before b a then after else compare_keys keys others
  compare_keys _ _ = tied

  unfoldable pub compare_routes : ProviderSort → Route → Route → Comparison
  compare_routes sort a b = compare_keys (comparison_keys sort a) (comparison_keys sort b)

  abbrev pub is_after : Comparison → Bool
  is_after after = true
  is_after _ = false

  -- `Array.prototype.sort`, which is stable.
  unfoldable pub insert_route : ProviderSort → Route → List Route → List Route
  insert_route sort r [] = r ∷ []
  insert_route sort r (s ∷ rs) =
      if is_after (compare_routes sort r s) then s ∷ insert_route sort r rs else r ∷ s ∷ rs

  unfoldable pub sort_routes : ProviderSort → List Route → List Route
  sort_routes sort [] = []
  sort_routes sort (r ∷ rs) = insert_route sort r (sort_routes sort rs)
