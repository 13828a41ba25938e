-- ===== src/Routing/Policy.antt =====
-- src/providers/routing/policy.ts: a wire value is made into the one internal policy, or refused with a
-- code; the messages are left out. Zod's checks come before: the input has the schema's type.
pub mod Slugs
pub mod Normal
pub mod Sizes
pub mod Again
mod Tests
use Prim.Native.Char.{Char, char, code, IsScalar}
use mathlib.Core.Logic.{dite}
use native.Mathlib.Decide.{dec_lt}
use confidential_content_pla.Prelude.{
  ℕ, ◌+◌, ◌-◌, ◌<◌, min, max, Option, none, some, Bool, true, false, not, ◌&&◌, ◌||◌, List, [], ◌∷◌,
  ◌++◌, String, str_eq, ◌==◌, ltb, leb, if◌then◌else◌, default, has, insert_new, trim, length,
  Result, ok, err, ◌>>=◌, ◌>>◌, arith, to_lower_case,
}
use confidential_content_pla.Routing.{
  ProviderSort, privacy, ProviderPrivacyFloor, PriceCeiling, NormalizedProviderRoutingPolicy,
}

pub data PolicyError : Type 0 where
  invalid_provider_policy provider_policy_conflict : PolicyError

-- `[a-z0-9]`
abbrev pub is_alphanumeric : ℕ → Bool
is_alphanumeric c = (leb b'a' c && leb c b'z') || (leb b'0' c && leb c b'9')

-- `[a-z0-9-]`
abbrev pub is_slug_character : ℕ → Bool
is_slug_character c = is_alphanumeric c || c == b'-'

-- May the text end here?
abbrev pub is_started : Option ℕ → Bool
is_started none = false
is_started (some room) = true

-- Is this the character of the part that is being read?
abbrev pub stays : Option ℕ → ℕ → Bool
stays none c = true
stays (some room) c = is_slug_character c

abbrev pub accepts : (second : Bool) → Option ℕ → ℕ → Bool
accepts second none c = is_alphanumeric c
accepts second (some room) c = if is_slug_character c then ltb 0 room else second && c == b'/'

abbrev pub room_after : Option ℕ → ℕ → Option ℕ
room_after none c = some 63
room_after (some room) c = if is_slug_character c then some (room - 1) else none

-- `^[a-z0-9][a-z0-9-]{0,63}(\/[a-z0-9][a-z0-9-]{0,63})?$`: whether a second part may follow, and how many
-- characters the part has left, which is none before its first.
unfoldable pub matches_from : (second : Bool) → Option ℕ → String → Bool
matches_from second room String.[] = is_started room
matches_from second room (String.◌∷◌ c s) =
    accepts second room (code c)
    && matches_from (second && stays room (code c)) (room_after room (code c)) s

unfoldable pub provider_slug : String → Bool
unfolding matches_from
provider_slug s = matches_from true none s

unfoldable pub normalize_slug : String → Result PolicyError String
unfolding to_lower_case trim provider_slug
normalize_slug raw =
    let slug = to_lower_case (trim raw) in
    if provider_slug slug then ok slug else err invalid_provider_policy

-- `seen` holds what `out` holds.
unfoldable pub normalize_slugs :
    List String → (out : List String) → Result PolicyError (List String)
unfolding normalize_slug
normalize_slugs [] out = ok out
normalize_slugs (value ∷ raw) out = do
  slug ← normalize_slug value
  normalize_slugs raw (insert_new slug out)

abbrev pub normalize_slug_list : Option (List String) → Result PolicyError (List String)
normalize_slug_list none = ok []
normalize_slug_list (some raw) = normalize_slugs raw []

abbrev pub normalize_only : Option (List String) → Result PolicyError (Option (List String))
normalize_only none = ok none
normalize_only (some raw) = do slugs ← normalize_slugs raw []; ok (some slugs)

-- `slugs.find(p)`, thrown when it is there: a slug is never the empty text.
abbrev pub refuse_any : (String → Bool) → List String → Result PolicyError (Unit {0})
refuse_any p [] = ok tt
refuse_any p (s ∷ ss) = if p s then err provider_policy_conflict else refuse_any p ss

abbrev pub check_only : Option (List String) → List String → Result PolicyError (Unit {0})
check_only none ignore = ok tt
check_only (some only) ignore = refuse_any (λ slug. has slug ignore) only

abbrev pub check_order_only : Option (List String) → List String → Result PolicyError (Unit {0})
check_order_only none order = ok tt
check_order_only (some only) order = refuse_any (λ slug. not (has slug only)) order

-- The rules are not looked at for an empty `order`, which breaks none.
unfoldable pub check_conflicts :
    (order : List String)
    → Option (List String)
    → (ignore : List String) → Result PolicyError (Unit {0})
check_conflicts order only ignore = do
  check_only only ignore
  refuse_any (λ slug. has slug ignore) order
  check_order_only only order

abbrev pub max_provider_attempts : ℕ
max_provider_attempts = 3

abbrev pub max_provider_list : ℕ
max_provider_list = 16

abbrev pub clamp_attempts : ℕ → ℕ
clamp_attempts n = max 1 (min max_provider_attempts n)

module _ (Amount : Type 0) where
  pub record ProviderRoutingPolicyObject : Type 0 where
    pub order : Option (List String)
    pub only : Option (List String)
    pub ignore : Option (List String)
    pub allow_fallbacks : Option Bool
    pub sort : Option ProviderSort
    pub minimum_privacy : Option ProviderPrivacyFloor
    pub max_price : Option (PriceCeiling Amount)
    pub require_parameters : Option Bool
    pub max_attempts : Option ℕ

  -- The value that is `undefined` or `null`, the bare text, and the object.
  pub data ProviderRoutingPolicyInput : Type 0 where
    absent : ProviderRoutingPolicyInput
    exact_pin : String → ProviderRoutingPolicyInput
    fields : ProviderRoutingPolicyObject → ProviderRoutingPolicyInput

  -- What the wire's schema asks of the lists and of the attempts; its bounds on the lengths of texts and on
  -- prices are left out.
  abbrev pub is_provider_list : Option (List String) → Bool
  is_provider_list none = true
  is_provider_list (some ss) = leb 1 (length ss) && leb (length ss) max_provider_list

  abbrev pub is_ignore_list : Option (List String) → Bool
  is_ignore_list none = true
  is_ignore_list (some ss) = leb (length ss) max_provider_list

  abbrev pub is_attempt_count : Option ℕ → Bool
  is_attempt_count none = true
  is_attempt_count (some n) = leb 1 n && leb n max_provider_attempts

  abbrev pub fits_schema : ProviderRoutingPolicyInput → Bool
  fits_schema absent = true
  fits_schema (exact_pin s) = true
  fits_schema (fields input) =
      is_provider_list input.order
      && (is_provider_list input.only
          && (is_ignore_list input.ignore && is_attempt_count input.max_attempts))

  abbrev pub auto_provider_policy : NormalizedProviderRoutingPolicy Amount
  auto_provider_policy = record {
    order = [];
    only = none;
    ignore = [];
    allow_fallbacks = true;
    sort = privacy;
    minimum_privacy = none;
    max_price = none;
    require_parameters = false;
    max_attempts = max_provider_attempts;
    pin = false;
  }

  abbrev pub pin_policy : String → NormalizedProviderRoutingPolicy Amount
  pin_policy slug = record {
    order = slug ∷ [];
    only = some (slug ∷ []);
    ignore = [];
    allow_fallbacks = false;
    sort = privacy;
    minimum_privacy = none;
    max_price = none;
    require_parameters = false;
    max_attempts = 1;
    pin = true;
  }

  abbrev pub both_absent : Option Amount → Option Amount → Bool
  both_absent none none = true
  both_absent _ _ = false

  -- A ceiling that names no price is as good as none.
  abbrev pub normalize_max_price : Option (PriceCeiling Amount) → Option (PriceCeiling Amount)
  normalize_max_price none = none
  normalize_max_price (some p) = if both_absent p.input p.output then none else some p

  abbrev pub attempts_of : Bool → Option ℕ → ℕ
  attempts_of allow_fallbacks requested =
      clamp_attempts (if allow_fallbacks then default max_provider_attempts requested else 1)

  abbrev pub policy_of :
      ProviderRoutingPolicyObject
      → List String
      → Option (List String)
      → List String
      → NormalizedProviderRoutingPolicy Amount
  policy_of input order only ignore = record {
    order = order;
    only = only;
    ignore = ignore;
    allow_fallbacks = default true input.allow_fallbacks;
    sort = default privacy input.sort;
    minimum_privacy = input.minimum_privacy;
    max_price = normalize_max_price input.max_price;
    require_parameters = default false input.require_parameters;
    max_attempts = attempts_of (default true input.allow_fallbacks) input.max_attempts;
    pin = false;
  }

  unfoldable pub normalize_fields :
      ProviderRoutingPolicyObject → Result PolicyError (NormalizedProviderRoutingPolicy Amount)
  unfolding normalize_slugs check_conflicts
  normalize_fields input = do
    order ← normalize_slug_list input.order
    only ← normalize_only input.only
    ignore ← normalize_slug_list input.ignore
    check_conflicts order only ignore
    ok (policy_of input order only ignore)

  unfoldable pub normalize_provider_policy :
      ProviderRoutingPolicyInput → Result PolicyError (NormalizedProviderRoutingPolicy Amount)
  unfolding normalize_slug normalize_fields
  normalize_provider_policy absent = ok auto_provider_policy
  normalize_provider_policy (exact_pin raw) = do slug ← normalize_slug raw; ok (pin_policy slug)
  normalize_provider_policy (fields input) = normalize_fields input
