-- ===== src/Routing/Workspace/Lists.antt =====
-- src/providers/routing/policy.ts: what the merged lists, floor and ceilings say of a route.
use confidential_content_pla.Prelude.{
  ◌≡◌, refl, ap, ◌∙◌, Option, none, some, Bool, true, false, ◌&&◌, ◌||◌, List, [], ◌∷◌, ◌++◌,
  String, has, str_eq, eq_iff, select, Bool-cases, inl, inr, arith, distinct_from, insert_new,
}
use confidential_content_pla.Routing.{
  Amounts, ProviderPrivacyFloor, PriceCeiling, ProviderRoute, in_list, matches_slug,
}
use confidential_content_pla.Routing.Filters.{
  within_ceiling, above_ceiling, below_floor, outside_only,
}
use confidential_content_pla.Routing.Workspace.{
  intersect_only, stronger_floor, tighter_price, tighter, lower_amount,
}

in_list-append :
    (p : String) (xs ys : List String) → in_list p (xs ++ ys) ≡ (in_list p xs || in_list p ys)
in_list-append p [] ys = refl
in_list-append p (x ∷ xs) ys = ground (arith, in_list-append p xs ys)

-- A slug that is listed lists what it matches.
in_list-has :
    (p s : String) (ss : List String)
    → has s ss ≡ true
    → matches_slug p s ≡ true
    → in_list p ss ≡ true
in_list-has p s [] h m = cc h
in_list-has p s (t ∷ ss) h m = elim (Bool-cases (str_eq t s)) [
  | inl same ↦
      let e : matches_slug p t ≡ true = ap (matches_slug p) ((eq_iff t s).0 same) ∙ m in rw e refl
  | inr other ↦ ground (arith, in_list-has p s ss)
]

in_list-insert_new :
    (p s : String) (out : List String)
    → in_list p (insert_new s out) ≡ (in_list p out || matches_slug p s)
in_list-insert_new p s out = ground (arith, in_list-has p s out, in_list-append p out (s ∷ []))

pub in_list-distinct_from :
    (p : String) (out ss : List String)
    → in_list p (distinct_from out ss) ≡ (in_list p out || in_list p ss)
unfolding distinct_from
in_list-distinct_from p out [] = ground arith
in_list-distinct_from p out (s ∷ ss) =
    ground (arith, in_list-distinct_from p (insert_new s out) ss, in_list-insert_new p s out)

pub in_list-merged :
    (p : String) (xs ys : List String)
    → in_list p (distinct_from [] (xs ++ ys)) ≡ (in_list p xs || in_list p ys)
in_list-merged p xs ys = in_list-distinct_from p [] (xs ++ ys) ∙ in_list-append p xs ys

in_list-select_first :
    (p : String) (f : String → Bool) (xs : List String)
    → in_list p (select f xs) ≡ true
    → in_list p xs ≡ true
in_list-select_first p f [] h = cc h
in_list-select_first p f (x ∷ xs) h = ground (arith, in_list-select_first p f xs)

in_list-select_second :
    (p : String) (xs ys : List String)
    → in_list p (select (λ s. has s ys) xs) ≡ true
    → in_list p ys ≡ true
in_list-select_second p [] ys h = cc h
in_list-select_second p (x ∷ xs) ys h =
    ground (arith, in_list-select_second p xs ys, in_list-has p x ys)

-- A route inside the intersection is inside both lists.
pub outside_only-intersect :
    (p : String) (a b : Option (List String))
    → outside_only p (intersect_only a b) ≡ false
    → (outside_only p a ≡ false) × (outside_only p b ≡ false)
unfolding intersect_only
outside_only-intersect p none b h = (refl, h)
outside_only-intersect p (some a) none h = (h, refl)
outside_only-intersect p (some a) (some b) h =
    ground (arith, in_list-select_first p (λ s. has s b) a, in_list-select_second p a b)

module _ (A : Amounts) where
  open A use {Amount, lt, lt_trans, lt_tied}

  pub below_floor-stronger :
      (a b : Option ProviderPrivacyFloor) (route : ProviderRoute Amount)
      → below_floor A (stronger_floor a b) route ≡ (below_floor A a route || below_floor A b route)
  unfolding stronger_floor
  below_floor-stronger none b route = refl
  below_floor-stronger (some a) none route = ground arith
  below_floor-stronger (some a) (some b) route = ground arith

  lt-lower : (x y price : Amount) → lt (lower_amount A x y) price ≡ (lt x price || lt y price)
  lt-lower x y price = elim (Bool-cases (lt y x)) [
    | inl below ↦ rw below (ground (arith, lt_trans y x price))
    | inr above ↦ elim (Bool-cases (lt x y)) [
      | inl strictly ↦ rw above (ground (arith, lt_trans x y price))
      | inr tied ↦ rw above (ground (arith, lt_tied x y tied above))
    ]
  ]

  above_ceiling-tighter :
      (x y : Option Amount) (price : Amount)
      → above_ceiling A (tighter A x y) price ≡ (above_ceiling A x price || above_ceiling A y price)
  above_ceiling-tighter none y price = refl
  above_ceiling-tighter (some x) none price = ground arith
  above_ceiling-tighter (some x) (some y) price = lt-lower x y price

  pub within_ceiling-tighter :
      (a b : Option (PriceCeiling Amount)) (route : ProviderRoute Amount)
      → within_ceiling A (tighter_price A a b) route
        ≡ (within_ceiling A a route && within_ceiling A b route)
  unfolding tighter_price
  within_ceiling-tighter none b route = refl
  within_ceiling-tighter (some a) none route = ground arith
  within_ceiling-tighter (some a) (some b) route = ground (
    arith,
    above_ceiling-tighter a.input b.input route.input_price_per_million,
    above_ceiling-tighter a.output b.output route.output_price_per_million,
  )
