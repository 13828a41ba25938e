-- ===== src/Routing/Policy/Normal.antt =====
-- src/providers/routing/policy.ts: what every normalized policy satisfies, and that normalizing what a
-- policy says again changes nothing.
use confidential_content_pla.Prelude.{
  ◌≤◌, ◌≡◌, refl, Option, none, some, Bool, true, false, not, List, [], ◌∷◌, String, ok, subst_ok,
  >>=-eq-ok, All, All-map, has, Distinct, eq_iff, default, arith,
}
use confidential_content_pla.Routing.{PriceCeiling, NormalizedProviderRoutingPolicy}
use confidential_content_pla.Routing.Policy.{
  ProviderRoutingPolicyObject, ProviderRoutingPolicyInput, absent, exact_pin, fields,
  normalize_provider_policy, normalize_fields, normalize_slug, normalize_slugs, normalize_slug_list,
  normalize_only, check_conflicts, check_only, check_order_only, refuse_any, policy_of, pin_policy,
  auto_provider_policy, both_absent, normalize_max_price,
}
use confidential_content_pla.Routing.Policy.Slugs.{
  IsSlug, normalize_slugs-keeps, refuse_any-none, normalize_slug-IsSlug,
}

abbrev pub listed : Option (List String) → String → Bool
listed none slug = true
listed (some only) slug = has slug only

module _ (Amount : Type 0) where
  abbrev Policy : Type 0
  Policy = NormalizedProviderRoutingPolicy Amount

  abbrev pub names_a_price : Option (PriceCeiling Amount) → Bool
  names_a_price none = true
  names_a_price (some p) = not (both_absent Amount p.input p.output)

  -- No list names a provider twice or says anything but slugs; no provider is both wanted and ignored;
  -- the order stays within the only list; the attempts are from one to three, one without fallbacks;
  -- and a ceiling limits something.
  pub record IsNormal (p : Policy) : Type 0 where
    pub order_slugs : All IsSlug p.order × Distinct p.order
    pub only_slugs : All IsSlug (default [] p.only) × Distinct (default [] p.only)
    pub ignore_slugs : All IsSlug p.ignore × Distinct p.ignore
    pub only_kept : All (λ s. has s p.ignore ≡ false) (default [] p.only)
    pub order_kept : All (λ s. has s p.ignore ≡ false) p.order
    pub order_listed : All (λ s. listed p.only s ≡ true) p.order
    pub attempts : (1 ≤ p.max_attempts) × (p.max_attempts ≤ 3)
    pub single : p.allow_fallbacks ≡ false → p.max_attempts ≡ 1
    pub priced : names_a_price p.max_price ≡ true

  lists-keep :
      (o : Option (List String)) (slugs : List String)
      → normalize_slug_list o ≡ ok slugs
      → All IsSlug slugs × Distinct slugs
  lists-keep none slugs e = subst_ok (λ t. All IsSlug t × Distinct t) [] slugs e (tt, tt)
  lists-keep (some raw) slugs e = normalize_slugs-keeps raw [] slugs e (tt, tt)

  only-keeps :
      (o only : Option (List String))
      → normalize_only o ≡ ok only
      → All IsSlug (default [] only) × Distinct (default [] only)
  only-keeps none only e =
      subst_ok (λ t. All IsSlug (default [] t) × Distinct (default [] t)) none only e (tt, tt)
  only-keeps (some raw) only e =
      let (slugs, e1, e2) = >>=-eq-ok (normalize_slugs raw []) (λ slugs. ok (some slugs)) e in
      subst_ok (λ t. All IsSlug (default [] t) × Distinct (default [] t)) (some slugs) only e2
        (normalize_slugs-keeps raw [] slugs e1 (tt, tt))

  check_only-kept :
      (only : Option (List String)) (ignore : List String) (u : Unit {0})
      → check_only only ignore ≡ ok u
      → All (λ s. has s ignore ≡ false) (default [] only)
  check_only-kept none ignore u e = tt
  check_only-kept (some only) ignore u e = refuse_any-none (λ s. has s ignore) only u e

  not-false : (b : Bool) → not b ≡ false → b ≡ true
  not-false b h = ground arith

  everything_listed : (order : List String) → All (λ s. listed none s ≡ true) order
  everything_listed [] = tt
  everything_listed (s ∷ ss) = (refl, everything_listed ss)

  check_order_only-listed :
      (only : Option (List String)) (order : List String) (u : Unit {0})
      → check_order_only only order ≡ ok u
      → All (λ s. listed only s ≡ true) order
  check_order_only-listed none order u e = everything_listed order
  check_order_only-listed (some only) order u e =
      All-map {P = λ s. not (has s only) ≡ false} (λ s h. not-false (has s only) h) order
        (refuse_any-none (λ s. not (has s only)) order u e)

  priced-normalize :
      (o : Option (PriceCeiling Amount)) → names_a_price (normalize_max_price Amount o) ≡ true
  priced-normalize none = refl
  priced-normalize (some p) = ground arith

  normalize_fields-IsNormal :
      (input : ProviderRoutingPolicyObject Amount) (p : Policy)
      → normalize_fields Amount input ≡ ok p
      → IsNormal p
  unfolding normalize_fields check_conflicts
  normalize_fields-IsNormal input p e =
      let (order, e1, r1) = >>=-eq-ok (normalize_slug_list input.order) _ e in
      let (only, e2, r2) = >>=-eq-ok (normalize_only input.only) _ r1 in
      let (ignore, e3, r3) = >>=-eq-ok (normalize_slug_list input.ignore) _ r2 in
      let (_, c, r4) = >>=-eq-ok (check_conflicts order only ignore) _ r3 in
      let (_, c1, c') = >>=-eq-ok (check_only only ignore) _ c in
      let (_, c2, c3) = >>=-eq-ok (refuse_any (λ slug. has slug ignore) order) _ c' in
      subst_ok IsNormal (policy_of Amount input order only ignore) p r4 record {
        order_slugs = lists-keep input.order order e1;
        only_slugs = only-keeps input.only only e2;
        ignore_slugs = lists-keep input.ignore ignore e3;
        only_kept = check_only-kept only ignore _ c1;
        order_kept = refuse_any-none (λ slug. has slug ignore) order _ c2;
        order_listed = check_order_only-listed only order _ c3;
        attempts = ground arith;
        single = λ h. ground arith;
        priced = priced-normalize input.max_price;
      }

  pin-IsNormal : (s : String) → IsSlug s → IsNormal (pin_policy Amount s)
  pin-IsNormal s h = record {
    order_slugs = ((h, tt), (refl, tt));
    only_slugs = ((h, tt), (refl, tt));
    ignore_slugs = (tt, tt);
    only_kept = (refl, tt);
    order_kept = (refl, tt);
    order_listed = (ground (arith, eq_iff s s), tt);
    attempts = omega arith;
    single = λ _. refl;
    priced = refl;
  }

  -- Whatever is accepted is made into a normal policy.
  pub normalize-IsNormal :
      (input : ProviderRoutingPolicyInput Amount) (p : Policy)
      → normalize_provider_policy Amount input ≡ ok p
      → IsNormal p
  unfolding normalize_provider_policy
  normalize-IsNormal absent p e = subst_ok IsNormal (auto_provider_policy Amount) p e record {
    order_slugs = (tt, tt);
    only_slugs = (tt, tt);
    ignore_slugs = (tt, tt);
    only_kept = tt;
    order_kept = tt;
    order_listed = tt;
    attempts = omega arith;
    single = λ off. absurd (cc off);
    priced = refl;
  }
  normalize-IsNormal (exact_pin raw) p e =
      let (s, e1, e2) = >>=-eq-ok (normalize_slug raw) (λ s. ok (pin_policy Amount s)) e in
      subst_ok IsNormal (pin_policy Amount s) p e2 (pin-IsNormal s (normalize_slug-IsSlug raw s e1))
  normalize-IsNormal (fields input) p e = normalize_fields-IsNormal input p e
