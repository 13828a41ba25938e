-- ===== src/Routing.antt =====
-- src/providers/routing/policy.ts and engine.ts: the routes of one model, and a request's policy. Prices
-- and times are JavaScript numbers, an interface; counts are natural. A route is an object, so it
-- has an identity.
pub mod Whole
pub mod Policy
pub mod Workspace
pub mod Filters
pub mod Ordering
pub mod Engine
pub mod Members
pub mod Plans
pub mod Bounds
pub mod Confinement
pub mod Reservation
pub mod Health
mod Tests
use confidential_content_pla.Prelude.{
  ℕ, ◌+◌, ◌-◌, ◌≡◌, Option, none, some, Bool, true, false, not, ◌&&◌, ◌||◌, List, [], ◌∷◌, String,
  str_eq, ◌^^◌, ltb, leb, starts_with, if◌then◌else◌,
}

-- The numbers but NaN, as `<`, `+` and the infinities show them.
pub record Amounts : Type 1 where
  pub Amount : Type 0
  pub lt : Amount → Amount → Bool
  pub sum : Amount → Amount → Amount
  pub nought : Amount
  pub infinity : Amount
  pub minus_infinity : Amount
  pub lt_irrefl : (a : Amount) → lt a a ≡ false
  pub lt_trans : (a b c : Amount) → lt a b ≡ true → lt b c ≡ true → lt a c ≡ true
  pub lt_tied : (a b : Amount) → lt a b ≡ false → lt b a ≡ false → a ≡ b

pub data ProviderSort : Type 0 where
  privacy price latency throughput : ProviderSort

pub data ProviderPrivacyFloor : Type 0 where
  anonymous private tee e2ee : ProviderPrivacyFloor

pub data ProviderHealth : Type 0 where
  healthy degraded temporarily_unavailable disabled : ProviderHealth

pub data ModelType : Type 0 where
  text image tts embedding : ModelType

pub data Operation : Type 0 where
  chat embeddings images speech : Operation

-- `PRIVACY_RANK`, on the classes of routes (any text) and on floors.
abbrev pub class_rank : String → ℕ
class_rank c =
    if str_eq c "private" then 1 else if str_eq c "tee" then 2 else if str_eq c "e2ee" then 3 else 0

abbrev pub floor_rank : ProviderPrivacyFloor → ℕ
floor_rank anonymous = 0
floor_rank private = 1
floor_rank tee = 2
floor_rank e2ee = 3

pub record PriceCeiling (Amount : Type 0) : Type 0 where
  pub input : Option Amount
  pub output : Option Amount

pub record NormalizedProviderRoutingPolicy (Amount : Type 0) : Type 0 where
  pub order : List String
  pub only : Option (List String)
  pub ignore : List String
  pub allow_fallbacks : Bool
  pub sort : ProviderSort
  pub minimum_privacy : Option ProviderPrivacyFloor
  pub max_price : Option (PriceCeiling Amount)
  pub require_parameters : Bool
  pub max_attempts : ℕ
  pub pin : Bool

pub record ProviderRoute (Amount : Type 0) : Type 0 where
  pub object : ℕ
  pub provider : String
  pub canonical_model_id : String
  pub public_model_id : String
  pub external_model_id : String
  pub privacy_class : String
  pub model_type : ModelType
  pub input_price_per_million : Amount
  pub output_price_per_million : Amount
  pub cache_read_price_per_million : Option Amount
  pub cache_write_price_per_million : Option Amount
  pub unit_price_usd : Option Amount
  pub priced : Bool
  pub supports_streaming : Bool
  pub supports_tools : Bool
  pub supports_vision : Bool
  pub supports_reasoning : Bool
  pub max_output_tokens : Option ℕ
  pub context_window : ℕ
  pub expected_latency_ms : Option Amount
  pub latency_p50_ms : Option Amount
  pub throughput_tps : Option Amount
  pub health : ProviderHealth
  pub stable_id : String

pub record ProviderRoutingRequest : Type 0 where
  pub operation : Operation
  pub stream : Bool
  pub requires_tools : Bool
  pub requires_vision : Bool
  pub requires_reasoning : Bool
  pub e2ee_request : Bool
  pub requested_max_output_tokens : Option ℕ
  pub input_token_ceiling : Option ℕ

-- `publicProviderSlug` of src/providers/publicIdentity.ts.
abbrev pub public_provider_slug : String → String
public_provider_slug provider = if str_eq provider "near-ai" then "other" else provider

unfoldable pub matches_slug : String → String → Bool
matches_slug provider slug =
    str_eq (public_provider_slug provider) slug
    || starts_with (public_provider_slug provider) (slug ^^ "/")

abbrev pub in_list : String → List String → Bool
in_list provider [] = false
in_list provider (slug ∷ slugs) = matches_slug provider slug || in_list provider slugs
