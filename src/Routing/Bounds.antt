-- ===== src/Routing/Bounds.antt =====
-- src/providers/routing/engine.ts: the number of attempts, the classes and the cost that a plan reports.
use mathlib.Core.Path.{subst}
use confidential_content_pla.Prelude.{
  ℕ, zero, suc, ◌≤◌, ◌≡◌, refl, sym, ◌⊎◌, inl, inr, false, List, [], ◌∷◌, String, if◌then◌else◌,
  take, length, min, max, leb, ltb, ◌==◌, ==_iff, arith, All, All-map, Bool-cases,
}
use confidential_content_pla.Routing.{
  Amounts, class_rank, NormalizedProviderRoutingPolicy, ProviderRoute, ProviderRoutingRequest,
}
use confidential_content_pla.Routing.Filters.{rank_of}
use confidential_content_pla.Routing.Engine.{
  is_nil, choose_attempts, ProviderRoutingPlan, planned, make_plan, build_provider_routing_plan,
  class_with_rank, lowest_rank, highest_rank,
}
use confidential_content_pla.Routing.Plans.{chosen, planned-chosen}

module _ (A : Amounts) where
  open A use {Amount, lt, nought, lt_irrefl, lt_trans, lt_tied}

  abbrev Route : Type 0
  Route = ProviderRoute A.Amount

  abbrev Policy : Type 0
  Policy = NormalizedProviderRoutingPolicy A.Amount

  length-take-le : (n : ℕ) (rs : List Route) → length (take n rs) ≤ n
  length-take-le zero rs = omega arith
  length-take-le (suc n) [] = omega arith
  length-take-le (suc n) (r ∷ rs) = omega (arith, length-take-le n rs)

  take-le : (n : ℕ) (rs : List Route) → length (take n rs) ≤ length rs
  take-le zero rs = omega arith
  take-le (suc n) [] = omega arith
  take-le (suc n) (r ∷ rs) = omega (arith, take-le n rs)

  length-choose_attempts :
      (policy : Policy) (rs : List Route)
      → length (choose_attempts A policy rs)
        ≤ (if policy.allow_fallbacks then max 1 policy.max_attempts else 1)
  unfolding choose_attempts
  length-choose_attempts policy rs = elim (Bool-cases policy.allow_fallbacks) [
    | inl several ↦ rw several (length-take-le (max 1 policy.max_attempts) rs)
    | inr one ↦
        rw one (omega (arith, take-le (max 1 policy.max_attempts) (take 1 rs), length-take-le 1 rs))
  ]

  is_nil-length : (rs : List Route) → is_nil A rs ≡ false → 1 ≤ length rs
  is_nil-length [] h = cc
  is_nil-length (r ∷ rs) h = omega arith

  -- A plan makes at least one attempt, at most one if the policy allows no fallbacks, and at most the
  -- policy's number of attempts otherwise (one if that is zero).
  pub plan-attempts_bounded :
      (model : String) (routes : List Route) (policy : Policy) (request : ProviderRoutingRequest)
      (cost : Route → Amount) (p : ProviderRoutingPlan A)
      → build_provider_routing_plan A model routes policy request cost ≡ planned p
      → (1 ≤ length p.attempts)
        × (length p.attempts ≤ (if policy.allow_fallbacks then max 1 policy.max_attempts else 1))
        × (p.fallback_available ≡ ltb 1 (length p.attempts))
  unfolding make_plan
  plan-attempts_bounded model routes policy request cost p e =
      let (some_attempt, made) = planned-chosen A model routes policy request cost p e in
      subst
        (λ q.
          (1 ≤ length q.attempts)
          × (length q.attempts ≤ (if policy.allow_fallbacks then max 1 policy.max_attempts else 1))
          × (q.fallback_available ≡ ltb 1 (length q.attempts)))
        made
        (
          is_nil-length (chosen A policy request routes) some_attempt,
          length-choose_attempts policy _,
          refl,
        )

  -- The classes.
  lowest_rank-least : (rs : List Route) → All (λ r. lowest_rank A rs ≤ rank_of A r) rs
  lowest_rank-least [] = tt
  lowest_rank-least (r ∷ []) = (omega arith, tt)
  lowest_rank-least (r ∷ s ∷ rs) = (
    omega arith,
    All-map {P = λ t. lowest_rank A (s ∷ rs) ≤ rank_of A t} (λ t h. omega arith) (s ∷ rs)
        (lowest_rank-least (s ∷ rs)),
  )

  highest_rank-greatest : (rs : List Route) → All (λ r. rank_of A r ≤ highest_rank A rs) rs
  highest_rank-greatest [] = tt
  highest_rank-greatest (r ∷ rs) = (
    omega arith,
    All-map {P = λ t. rank_of A t ≤ highest_rank A rs} (λ t h. omega arith) rs
        (highest_rank-greatest rs),
  )

  -- Some route has the rank.
  abbrev HasRank : ℕ → List Route → Type 0
  HasRank n [] = ⊥
  HasRank n (r ∷ rs) = (rank_of A r ≡ n) ⊎ HasRank n rs

  lowest_rank-HasRank : (rs : List Route) → is_nil A rs ≡ false → HasRank (lowest_rank A rs) rs
  lowest_rank-HasRank [] h = cc
  lowest_rank-HasRank (r ∷ []) h = inl refl
  lowest_rank-HasRank (r ∷ s ∷ rs) h =
      elim (Bool-cases (leb (rank_of A r) (lowest_rank A (s ∷ rs)))) [
        | inl low ↦ inl (ground arith)
        | inr high ↦
            let rest : min (rank_of A r) (lowest_rank A (s ∷ rs)) ≡ lowest_rank A (s ∷ rs) =
              ground arith in
            inr (subst (λ n. HasRank n (s ∷ rs)) (sym rest) (lowest_rank-HasRank (s ∷ rs) refl))
      ]

  highest_rank-HasRank : (rs : List Route) → is_nil A rs ≡ false → HasRank (highest_rank A rs) rs
  highest_rank-HasRank [] h = cc
  highest_rank-HasRank (r ∷ []) h = inl (omega arith)
  highest_rank-HasRank (r ∷ s ∷ rs) h =
      elim (Bool-cases (leb (highest_rank A (s ∷ rs)) (rank_of A r))) [
        | inl high ↦ inl (ground arith)
        | inr low ↦
            let rest : max (rank_of A r) (highest_rank A (s ∷ rs)) ≡ highest_rank A (s ∷ rs) =
              ground arith in
            inr (subst (λ n. HasRank n (s ∷ rs)) (sym rest) (highest_rank-HasRank (s ∷ rs) refl))
      ]

  -- Some route has this class.
  abbrev pub HasClass : String → List Route → Type 0
  HasClass c [] = ⊥
  HasClass c (r ∷ rs) = (r.privacy_class ≡ c) ⊎ HasClass c rs

  class_with_rank_lem :
      (n : ℕ) (rs : List Route)
      → HasRank n rs
      → HasClass (class_with_rank A n rs) rs × (class_rank (class_with_rank A n rs) ≡ n)
  class_with_rank_lem n [] h = absurd h
  class_with_rank_lem n (r ∷ rs) h = elim (Bool-cases (rank_of A r == n)) [
    | inl here ↦ rw here (inl refl, (==_iff (rank_of A r) n).0 here)
    | inr other ↦
        let later : HasRank n rs = elim h [
          | inl e ↦ absurd (ground (arith, ==_iff (rank_of A r) n, e))
          | inr l ↦ l
        ] in
        let (c, k) = class_with_rank_lem n rs later in
        let same : class_with_rank A n rs ≡ class_with_rank A n (r ∷ rs) = rw other refl in
        subst (λ x. HasClass x (r ∷ rs) × (class_rank x ≡ n)) same (inr c, k)
  ]

  -- The classes that a plan reports are those of attempts: no attempt has a weaker class than the one
  -- reported as minimum, and none a stronger than the one reported as effective.
  pub plan-classes :
      (model : String) (routes : List Route) (policy : Policy) (request : ProviderRoutingRequest)
      (cost : Route → Amount) (p : ProviderRoutingPlan A)
      → build_provider_routing_plan A model routes policy request cost ≡ planned p
      → HasClass p.minimum_privacy_class p.attempts
        × HasClass p.effective_privacy_class p.attempts
        × All (λ r. class_rank p.minimum_privacy_class ≤ rank_of A r) p.attempts
        × All (λ r. rank_of A r ≤ class_rank p.effective_privacy_class) p.attempts
  unfolding make_plan
  plan-classes model routes policy request cost p e =
      let (some_attempt, made) = planned-chosen A model routes policy request cost p e in
      let rs : List Route = chosen A policy request routes in
      let (low, low_rank) =
        class_with_rank_lem (lowest_rank A rs) rs (lowest_rank-HasRank rs some_attempt) in
      let (high, high_rank) =
        class_with_rank_lem (highest_rank A rs) rs (highest_rank-HasRank rs some_attempt) in
      subst
        (λ q.
          HasClass q.minimum_privacy_class q.attempts
          × HasClass q.effective_privacy_class q.attempts
          × All (λ r. class_rank q.minimum_privacy_class ≤ rank_of A r) q.attempts
          × All (λ r. rank_of A r ≤ class_rank q.effective_privacy_class) q.attempts)
        made
        (
          low,
          high,
          subst (λ n. All (λ r. n ≤ rank_of A r) rs) (sym low_rank) (lowest_rank-least rs),
          subst (λ n. All (λ r. rank_of A r ≤ n) rs) (sym high_rank) (highest_rank-greatest rs),
        )
