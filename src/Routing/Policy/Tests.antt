-- ===== src/Routing/Policy/Tests.antt =====
-- src/providers/routing/policy.ts: values of the wire, accepted and refused.
use confidential_content_pla.Prelude.{
  ◌≡◌, refl, none, some, true, false, [], ◌∷◌, ok, err, trim, to_lower_case,
}
use confidential_content_pla.Routing.{price, tee, NormalizedProviderRoutingPolicy}
use confidential_content_pla.Routing.Whole.{Whole}
use confidential_content_pla.Routing.Policy.{
  ProviderRoutingPolicyObject, exact_pin, fields, fits_schema, normalize_provider_policy,
  provider_slug, invalid_provider_policy, provider_policy_conflict,
}
use confidential_content_pla.Routing.Policy.Normal.{IsNormal, normalize-IsNormal}
use confidential_content_pla.Routing.Policy.Again.{said_again, normalize-said_again}

abbrev wanted : ProviderRoutingPolicyObject Whole
wanted = record {
  order = some (" Venice " ∷ "venice" ∷ []);
  only = some ("venice" ∷ "DeepInfra/Turbo" ∷ []);
  ignore = some ("mock" ∷ []);
  allow_fallbacks = none;
  sort = some price;
  minimum_privacy = some tee;
  max_price = some (record { input = none; output = none });
  require_parameters = none;
  max_attempts = some 9;
}

abbrev accepted : NormalizedProviderRoutingPolicy Whole
accepted = record {
  order = "venice" ∷ [];
  only = some ("venice" ∷ "deepinfra/turbo" ∷ []);
  ignore = "mock" ∷ [];
  allow_fallbacks = true;
  sort = price;
  minimum_privacy = some tee;
  max_price = none;
  require_parameters = false;
  max_attempts = 3;
  pin = false;
}

normalize_wanted : normalize_provider_policy Whole (fields wanted) ≡ ok accepted
unfolding normalize_provider_policy to_lower_case trim provider_slug
normalize_wanted = refl

normalize_conflict :
    normalize_provider_policy Whole (fields (record wanted { ignore = some ("venice" ∷ []) }))
    ≡ err provider_policy_conflict
unfolding normalize_provider_policy to_lower_case trim provider_slug
normalize_conflict = refl

normalize_no_slug :
    normalize_provider_policy Whole (exact_pin "two/slashes/here") ≡ err invalid_provider_policy
unfolding normalize_provider_policy to_lower_case trim provider_slug
normalize_no_slug = refl

normalize-IsNormal_example : IsNormal Whole accepted
normalize-IsNormal_example = normalize-IsNormal Whole (fields wanted) accepted normalize_wanted

-- The same with two attempts asked for, as the schema has it.
abbrev asked : ProviderRoutingPolicyObject Whole
asked = record wanted { max_attempts = some 2 }

abbrev taken : NormalizedProviderRoutingPolicy Whole
taken = record accepted { max_attempts = 2 }

normalize_asked : normalize_provider_policy Whole (fields asked) ≡ ok taken
unfolding normalize_provider_policy to_lower_case trim provider_slug
normalize_asked = refl

said_again_example :
    (fits_schema Whole (said_again Whole taken) ≡ true)
    × (normalize_provider_policy Whole (said_again Whole taken) ≡ ok taken)
said_again_example = normalize-said_again Whole (fields asked) taken refl normalize_asked

-- An empty order is no value of the schema.
empty_order : fits_schema Whole (fields (record asked { order = some [] })) ≡ false
empty_order = refl
