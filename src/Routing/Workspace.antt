-- ===== src/Routing/Workspace.antt =====
-- src/providers/routing/policy.ts: the digest of a policy, and the merge under a workspace's defaults.
-- How a price is printed is a parameter: prices are an interface.
pub mod Lists
pub mod Restricts
pub mod Plans
pub mod Digest
mod Tests
use confidential_content_pla.Prelude.{
  ℕ, min, max, Option, none, some, Bool, true, false, ◌&&◌, ◌||◌, List, [], ◌∷◌, ◌++◌, String,
  str_eq, concat, has, distinct_from, Result, ok, err, ◌>>=◌, leb, if◌then◌else◌, select, decimal,
  json_text, json_list, json_bool, sort_texts,
}
use confidential_content_pla.Routing.{
  Amounts, ProviderSort, privacy, price, latency, throughput, ProviderPrivacyFloor, anonymous,
  private, tee, e2ee, floor_rank, PriceCeiling, NormalizedProviderRoutingPolicy,
}
use confidential_content_pla.Routing.Policy.{
  PolicyError, ProviderRoutingPolicyInput, auto_provider_policy, max_provider_attempts,
  normalize_provider_policy,
}

abbrev pub sort_text : ProviderSort → String
sort_text privacy = "privacy"
sort_text price = "price"
sort_text latency = "latency"
sort_text throughput = "throughput"

abbrev pub floor_text : ProviderPrivacyFloor → String
floor_text anonymous = "anonymous"
floor_text private = "private"
floor_text tee = "tee"
floor_text e2ee = "e2ee"

abbrev pub or_null {ℓ} : {A : Type ℓ} → (A → String) → Option A → String
or_null f none = "null"
or_null f (some a) = f a

unfoldable pub stronger_floor :
    Option ProviderPrivacyFloor → Option ProviderPrivacyFloor → Option ProviderPrivacyFloor
stronger_floor none b = b
stronger_floor (some a) none = some a
stronger_floor (some a) (some b) = if leb (floor_rank b) (floor_rank a) then some a else some b

unfoldable pub intersect_only : Option (List String) → Option (List String) → Option (List String)
intersect_only none b = b
intersect_only (some a) none = some a
intersect_only (some a) (some b) = some (select (λ slug. has slug b) a)

module _ (A : Amounts) where
  open A use {Amount, lt}

  pub record WorkspaceProviderDefaults : Type 0 where
    pub sort : ProviderSort
    pub only : Option (List String)
    pub ignore : List String
    pub allow_fallbacks : Bool
    pub max_attempts : ℕ
    pub minimum_privacy : Option ProviderPrivacyFloor
    pub max_price : Option (PriceCeiling Amount)
    pub require_parameters : Bool

  abbrev pub default_workspace_provider_defaults : WorkspaceProviderDefaults
  default_workspace_provider_defaults = record {
    sort = privacy;
    only = none;
    ignore = [];
    allow_fallbacks = true;
    max_attempts = max_provider_attempts;
    minimum_privacy = none;
    max_price = none;
    require_parameters = false;
  }

  -- `Math.min(x, y)`
  abbrev pub lower_amount : Amount → Amount → Amount
  lower_amount x y = if lt y x then y else x

  abbrev pub tighter : Option Amount → Option Amount → Option Amount
  tighter none y = y
  tighter (some x) none = some x
  tighter (some x) (some y) = some (lower_amount x y)

  abbrev pub names_none : Option Amount → Option Amount → Bool
  names_none none none = true
  names_none _ _ = false

  unfoldable pub tighter_price :
      Option (PriceCeiling Amount) → Option (PriceCeiling Amount) → Option (PriceCeiling Amount)
  tighter_price none b = b
  tighter_price (some a) none = some a
  tighter_price (some a) (some b) =
      let input = tighter a.input b.input in
      let output = tighter a.output b.output in
      if names_none input output then none else some (record { input = input; output = output })

module _ (A : Amounts) (amount_text : A.Amount → String) where
  open A use {Amount}

  abbrev pub ceiling_text : PriceCeiling Amount → String
  ceiling_text c = concat (
      "{\"i\":" ∷ or_null amount_text c.input ∷ ",\"o\":" ∷ or_null amount_text c.output ∷ "}" ∷ [])

  abbrev pub sorted_text : List String → String
  sorted_text slugs = json_list (sort_texts slugs)

  unfoldable pub provider_policy_digest : NormalizedProviderRoutingPolicy Amount → String
  provider_policy_digest policy = concat (
      "{\"o\":"
      ∷ json_list policy.order
      ∷ ",\"y\":"
      ∷ or_null sorted_text policy.only
      ∷ ",\"i\":"
      ∷ sorted_text policy.ignore
      ∷ ",\"f\":"
      ∷ json_bool policy.allow_fallbacks
      ∷ ",\"s\":"
      ∷ json_text (sort_text policy.sort)
      ∷ ",\"p\":"
      ∷ or_null (λ floor. json_text (floor_text floor)) policy.minimum_privacy
      ∷ ",\"x\":"
      ∷ or_null ceiling_text policy.max_price
      ∷ ",\"r\":"
      ∷ json_bool policy.require_parameters
      ∷ ",\"a\":"
      ∷ decimal policy.max_attempts
      ∷ ",\"n\":"
      ∷ json_bool policy.pin
      ∷ "}"
      ∷ [])

  unfoldable pub provider_policy_digest_from_input :
      ProviderRoutingPolicyInput Amount → Result PolicyError String
  unfolding provider_policy_digest
  provider_policy_digest_from_input input = do
    policy ← normalize_provider_policy Amount input
    ok (provider_policy_digest policy)

  unfoldable pub is_auto_provider_policy : NormalizedProviderRoutingPolicy Amount → Bool
  unfolding provider_policy_digest
  is_auto_provider_policy policy =
      str_eq (provider_policy_digest policy) (provider_policy_digest (auto_provider_policy Amount))

  unfoldable pub merge_workspace_provider_policy :
      NormalizedProviderRoutingPolicy Amount
      → WorkspaceProviderDefaults A
      → NormalizedProviderRoutingPolicy Amount
  unfolding is_auto_provider_policy intersect_only distinct_from stronger_floor tighter_price
  merge_workspace_provider_policy request workspace =
      let allow_fallbacks = request.allow_fallbacks && workspace.allow_fallbacks in
      record {
        order = request.order;
        only = intersect_only request.only workspace.only;
        ignore = distinct_from [] (request.ignore ++ workspace.ignore);
        allow_fallbacks = allow_fallbacks;
        sort = if is_auto_provider_policy request then workspace.sort else request.sort;
        minimum_privacy = stronger_floor request.minimum_privacy workspace.minimum_privacy;
        max_price = tighter_price A request.max_price workspace.max_price;
        require_parameters = request.require_parameters || workspace.require_parameters;
        max_attempts = max 1 (
            min request.max_attempts
              (min workspace.max_attempts (if allow_fallbacks then max_provider_attempts else 1)));
        pin = request.pin;
      }
