-- ===== src/Routing/Policy/Again.antt =====
-- src/providers/routing/policy.ts: to write a normalized policy on the wire and normalize it is to keep it.
use mathlib.Core.Path.{subst}
use confidential_content_pla.Prelude.{
  ℕ, ◌≤◌, ◌≡◌, refl, sym, ap, ◌∙◌, Option, none, some, Bool, true, false, not, ◌&&◌, List, [], ◌∷◌,
  ◌++◌, String, if◌then◌else◌, ok, subst_ok, >>=-eq-ok, All, All-map, has, Distinct, not-repeated,
  default, arith, append_assoc, append-nil, insert_new,
}
use confidential_content_pla.Routing.{PriceCeiling, NormalizedProviderRoutingPolicy}
use confidential_content_pla.Routing.Policy.{
  ProviderRoutingPolicyObject, ProviderRoutingPolicyInput, absent, exact_pin, fields,
  normalize_provider_policy, normalize_fields, normalize_slug, normalize_slugs, normalize_slug_list,
  normalize_only, check_conflicts, check_only, check_order_only, policy_of, pin_policy, fits_schema,
  is_provider_list, is_ignore_list, auto_provider_policy, normalize_max_price, attempts_of,
}
use confidential_content_pla.Routing.Policy.Slugs.{
  IsSlug, refuse_any-passes, normalize_slug-slug, normalize_slug-IsSlug,
}
use confidential_content_pla.Routing.Policy.Sizes.{unless_empty, order-fits, only-fits, ignore-fits}
use confidential_content_pla.Routing.Policy.Normal.{
  IsNormal, listed, names_a_price, normalize-IsNormal,
}

normalize_slugs-again :
    (ss out : List String)
    → All IsSlug ss
    → Distinct (out ++ ss)
    → normalize_slugs ss out ≡ ok (out ++ ss)
unfolding normalize_slugs
normalize_slugs-again [] out h d = rw append-nil
normalize_slugs-again (s ∷ ss) out h d =
    let step : insert_new s out ≡ out ++ s ∷ [] = rw (not-repeated s out ss d) in
    let regroup : (out ++ s ∷ []) ++ ss ≡ out ++ s ∷ ss = append_assoc out (s ∷ []) ss in
    rw (normalize_slug-slug s h.0, step)
      (normalize_slugs-again ss (out ++ s ∷ []) h.1 (subst Distinct (sym regroup) d)
        ∙ ap ok regroup)

order-again :
    (ss : List String) → All IsSlug ss → Distinct ss → normalize_slug_list (unless_empty ss) ≡ ok ss
order-again [] h d = refl
order-again (s ∷ ss) h d = normalize_slugs-again (s ∷ ss) [] h d

and-both : (a b : Bool) → (a && b) ≡ true → (a ≡ true) × (b ≡ true)
and-both a b h = ground arith

module _ (Amount : Type 0) where
  abbrev Policy : Type 0
  Policy = NormalizedProviderRoutingPolicy Amount

  abbrev object_of : Policy → ProviderRoutingPolicyObject Amount
  object_of p = record {
    order = unless_empty p.order;
    only = p.only;
    ignore = some p.ignore;
    allow_fallbacks = some p.allow_fallbacks;
    sort = some p.sort;
    minimum_privacy = p.minimum_privacy;
    max_price = p.max_price;
    require_parameters = some p.require_parameters;
    max_attempts = some p.max_attempts;
  }

  abbrev pin_of : List String → ProviderRoutingPolicyInput Amount
  pin_of [] = absent
  pin_of (s ∷ ss) = exact_pin s

  -- The wire value that says what the policy says: its one provider as a bare text, if it is a pin, and
  -- no order where the policy has none.
  abbrev pub said_again : Policy → ProviderRoutingPolicyInput Amount
  said_again p = if p.pin then pin_of p.order else fields (object_of p)

  only-again :
      (o : Option (List String))
      → All IsSlug (default [] o)
      → Distinct (default [] o)
      → normalize_only o ≡ ok o
  only-again none h d = refl
  only-again (some ss) h d = rw (normalize_slugs-again ss [] h d)

  check_only-passes :
      (o : Option (List String)) (ignore : List String)
      → All (λ s. has s ignore ≡ false) (default [] o)
      → check_only o ignore ≡ ok tt
  check_only-passes none ignore h = refl
  check_only-passes (some ss) ignore h = refuse_any-passes (λ s. has s ignore) ss h

  check_order_only-passes :
      (o : Option (List String)) (order : List String)
      → All (λ s. listed o s ≡ true) order
      → check_order_only o order ≡ ok tt
  check_order_only-passes none order h = refl
  check_order_only-passes (some ss) order h =
      refuse_any-passes (λ s. not (has s ss)) order
        (All-map {P = λ s. has s ss ≡ true} (λ s e. rw e) order h)

  price-again :
      (o : Option (PriceCeiling Amount))
      → names_a_price Amount o ≡ true
      → normalize_max_price Amount o ≡ o
  price-again none h = refl
  price-again (some p) h = ground arith

  attempts-again :
      (fallbacks : Bool) (n : ℕ)
      → 1 ≤ n
      → n ≤ 3
      → (fallbacks ≡ false → n ≡ 1)
      → attempts_of Amount fallbacks (some n) ≡ n
  attempts-again true n l h s = ground arith
  attempts-again false n l h s = ground (arith, s refl)

  same_policy :
      (p : Policy) (price : Option (PriceCeiling Amount)) (n : ℕ)
      → price ≡ p.max_price
      → n ≡ p.max_attempts
      → p.pin ≡ false
      → record p { max_price = price; max_attempts = n; pin = false } ≡ p
  same_policy p price n e f g = ground arith

  fields-again :
      (p : Policy)
      → IsNormal Amount p
      → p.pin ≡ false
      → normalize_fields Amount (object_of p) ≡ ok p
  unfolding normalize_fields check_conflicts
  fields-again p n e =
      rw
        (
          order-again p.order n.order_slugs.0 n.order_slugs.1,
          only-again p.only n.only_slugs.0 n.only_slugs.1,
          normalize_slugs-again p.ignore [] n.ignore_slugs.0 n.ignore_slugs.1,
          check_only-passes p.only p.ignore n.only_kept,
          refuse_any-passes (λ s. has s p.ignore) p.order n.order_kept,
          check_order_only-passes p.only p.order n.order_listed,
        )
        (ap ok (
          same_policy p (normalize_max_price Amount p.max_price)
            (attempts_of Amount p.allow_fallbacks (some p.max_attempts))
            (price-again p.max_price n.priced)
            (attempts-again p.allow_fallbacks p.max_attempts n.attempts.0 n.attempts.1 n.single) e))

  fields-not_pin :
      (input : ProviderRoutingPolicyObject Amount) (p : Policy)
      → normalize_fields Amount input ≡ ok p
      → p.pin ≡ false
  unfolding normalize_fields
  fields-not_pin input p e =
      let (order, _, r1) = >>=-eq-ok (normalize_slug_list input.order) _ e in
      let (only, _, r2) = >>=-eq-ok (normalize_only input.only) _ r1 in
      let (ignore, _, r3) = >>=-eq-ok (normalize_slug_list input.ignore) _ r2 in
      let (_, _, r4) = >>=-eq-ok (check_conflicts order only ignore) _ r3 in
      subst_ok (λ q. q.pin ≡ false) (policy_of Amount input order only ignore) p r4 refl

  no_pin_says : (p : Policy) → p.pin ≡ false → said_again p ≡ fields (object_of p)
  no_pin_says p e = ap (λ b. if b then pin_of p.order else fields (object_of p)) e

  abbrev Again : Policy → Type 0
  Again p = normalize_provider_policy Amount (said_again p) ≡ ok p

  normalize-again :
      (input : ProviderRoutingPolicyInput Amount) (p : Policy)
      → normalize_provider_policy Amount input ≡ ok p
      → normalize_provider_policy Amount (said_again p) ≡ ok p
  unfolding normalize_provider_policy
  normalize-again absent p e =
      subst_ok Again (auto_provider_policy Amount) p e
        (fields-again (auto_provider_policy Amount) (normalize-IsNormal Amount absent _ refl) refl)
  normalize-again (exact_pin raw) p e =
      let (s, e1, e2) = >>=-eq-ok (normalize_slug raw) (λ s. ok (pin_policy Amount s)) e in
      subst_ok Again (pin_policy Amount s) p e2
        (rw (normalize_slug-slug s (normalize_slug-IsSlug raw s e1)))
  normalize-again (fields input) p e =
      let no_pin = fields-not_pin input p e in
      ap (normalize_provider_policy Amount) (no_pin_says p no_pin)
      ∙ fields-again p (normalize-IsNormal Amount (fields input) p e) no_pin

  fits-fields :
      (input : ProviderRoutingPolicyObject Amount) (p : Policy)
      → fits_schema Amount (fields input) ≡ true
      → normalize_fields Amount input ≡ ok p
      → fits_schema Amount (fields (object_of p)) ≡ true
  unfolding normalize_fields
  fits-fields input p h e =
      let (order, e1, r1) = >>=-eq-ok (normalize_slug_list input.order) _ e in
      let (only, e2, r2) = >>=-eq-ok (normalize_only input.only) _ r1 in
      let (ignore, e3, r3) = >>=-eq-ok (normalize_slug_list input.ignore) _ r2 in
      let (_, _, r4) = >>=-eq-ok (check_conflicts order only ignore) _ r3 in
      let (h1, h') = and-both (is_provider_list Amount input.order) _ h in
      let (h2, h'') = and-both (is_provider_list Amount input.only) _ h' in
      let (h3, _) = and-both (is_ignore_list Amount input.ignore) _ h'' in
      subst_ok (λ q. fits_schema Amount (fields (object_of q)) ≡ true)
        (policy_of Amount input order only ignore) p r4
        (rw
          (
            order-fits Amount input.order order h1 e1,
            only-fits Amount input.only only h2 e2,
            ignore-fits Amount input.ignore ignore h3 e3,
          )
          (ground arith))

  fits-again :
      (input : ProviderRoutingPolicyInput Amount) (p : Policy)
      → fits_schema Amount input ≡ true
      → normalize_provider_policy Amount input ≡ ok p
      → fits_schema Amount (said_again p) ≡ true
  unfolding normalize_provider_policy
  fits-again absent p h e =
      subst_ok (λ q. fits_schema Amount (said_again q) ≡ true) (auto_provider_policy Amount) p e
        refl
  fits-again (exact_pin raw) p h e =
      let (s, _, e2) = >>=-eq-ok (normalize_slug raw) (λ s. ok (pin_policy Amount s)) e in
      subst_ok (λ q. fits_schema Amount (said_again q) ≡ true) (pin_policy Amount s) p e2 refl
  fits-again (fields input) p h e =
      ap (fits_schema Amount) (no_pin_says p (fields-not_pin input p e)) ∙ fits-fields input p h e

  -- A policy that was normalized from a value within the schema's bounds on the lists and the attempts,
  -- written on the wire as what it says, is within these bounds and normalizes to itself.
  pub normalize-said_again :
      (input : ProviderRoutingPolicyInput Amount) (p : Policy)
      → fits_schema Amount input ≡ true
      → normalize_provider_policy Amount input ≡ ok p
      → (fits_schema Amount (said_again p) ≡ true)
        × (normalize_provider_policy Amount (said_again p) ≡ ok p)
  normalize-said_again input p h e = (fits-again input p h e, normalize-again input p e)
