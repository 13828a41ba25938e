-- ===== src/Prelude/Lists.antt =====
-- Lists measured and indexed by native numbers, and predicates on their elements.
use Prim.Native.Nat.{ℕ, zero, suc, ◌+◌, ◌≤◌}
use mathlib.Core.Path.{◌≡◌, refl, sym, ap, subst, ◌∙◌}
use mathlib.Core.Bool.{Bool, true}
use mathlib.Core.Logic.{◌⊎◌, inl, inr}
use mathlib.Core.List.{List, [], ◌∷◌, ◌++◌, map}
use native.Mathlib.Omega.{arith}
use confidential_content_pla.Prelude.Tests.{if◌then◌else◌, Bool-cases}

module _ {ℓ} {A : Type ℓ} where
  abbrev pub length : List A → ℕ
  length [] = 0
  length (x ∷ xs) = suc (length xs)

  abbrev pub take : ℕ → List A → List A
  take zero xs = []
  take (suc n) [] = []
  take (suc n) (x ∷ xs) = x ∷ take n xs

  abbrev pub drop : ℕ → List A → List A
  drop zero xs = xs
  drop (suc n) [] = []
  drop (suc n) (x ∷ xs) = drop n xs

  -- `Array.prototype.filter`.
  abbrev pub select : (A → Bool) → List A → List A
  select p [] = []
  select p (x ∷ xs) = if p x then x ∷ select p xs else select p xs

  pub length-append : (xs ys : List A) → length (xs ++ ys) ≡ length xs + length ys
  length-append [] ys = omega arith
  length-append (x ∷ xs) ys = omega (arith, length-append xs ys)

  pub length-select-le : (p : A → Bool) (xs : List A) → length (select p xs) ≤ length xs
  length-select-le p [] = omega arith
  length-select-le p (x ∷ xs) = ground (arith, length-select-le p xs)

  pub take_append : (xs ys : List A) → take (length xs) (xs ++ ys) ≡ xs
  take_append [] ys = refl
  take_append (x ∷ xs) ys = ap (◌∷◌ x) (take_append xs ys)

  pub drop_append : (xs ys : List A) → drop (length xs) (xs ++ ys) ≡ ys
  drop_append [] ys = refl
  drop_append (x ∷ xs) ys = drop_append xs ys

module _ {ℓ κ} {A : Type ℓ} (P : A → Type κ) where
  -- Every element has the property.
  abbrev pub All : List A → Type κ
  All [] = Unit
  All (x ∷ xs) = P x × All xs

  pub All-append : (xs ys : List A) → All xs → All ys → All (xs ++ ys)
  All-append [] ys hx hy = hy
  All-append (x ∷ xs) ys hx hy = (hx.0, All-append xs ys hx.1 hy)

  pub All-select : (p : A → Bool) (xs : List A) → All xs → All (select p xs)
  All-select p [] h = tt
  All-select p (x ∷ xs) h = ground (arith, All-select p xs h.1)

pub All-halves {ℓ κ} :
    {A : Type ℓ} (P : A → Type κ) (xs ys : List A) → All P (xs ++ ys) → All P xs × All P ys
All-halves P [] ys h = (tt, h)
All-halves P (x ∷ xs) ys h = let (front, back) = All-halves P xs ys h.1 in ((h.0, front), back)

pub All-map {ℓ κ} :
    {A : Type ℓ} {P Q : A → Type κ} → ((a : A) → P a → Q a) → (xs : List A) → All P xs → All Q xs
All-map f [] h = tt
All-map f (x ∷ xs) h = (f x h.0, All-map f xs h.1)

module _ {ℓ κ} {A : Type ℓ} (P : A → Type κ) where
  pub All-take : (n : ℕ) (xs : List A) → All P xs → All P (take n xs)
  All-take zero xs h = tt
  All-take (suc n) [] h = tt
  All-take (suc n) (x ∷ xs) h = (h.0, All-take n xs h.1)

  pub All-pair {μ} : (Q : A → Type μ) (xs : List A) → All P xs → All Q xs → All (λ x. P x × Q x) xs
  All-pair Q [] p q = tt
  All-pair Q (x ∷ xs) p q = ((p.0, q.0), All-pair Q xs p.1 q.1)

-- What is selected passes the test.
pub All-passed {ℓ} : {A : Type ℓ} (p : A → Bool) (xs : List A) → All (λ x. p x ≡ true) (select p xs)
All-passed p [] = tt
All-passed p (x ∷ xs) = elim (Bool-cases (p x)) [
  | inl passes ↦ rw passes (passes, All-passed p xs)
  | inr fails ↦ rw fails (All-passed p xs)
]

module _ {A : Type 0} where
  abbrev pub Member : A → List A → Type 0
  Member a [] = ⊥
  Member a (x ∷ xs) = (a ≡ x) ⊎ Member a xs

  pub All-Member : (xs : List A) → All (λ x. Member x xs) xs
  All-Member [] = tt
  All-Member (x ∷ xs) = (inl refl, All-map {P = λ y. Member y xs} (λ y h. inr h) xs (All-Member xs))

  pub All-at {κ} : (P : A → Type κ) (a : A) (xs : List A) → All P xs → Member a xs → P a
  All-at P a [] h m = absurd m
  All-at P a (x ∷ xs) h (inl e) = subst P {x = x} {y = a} (sym e) h.0
  All-at P a (x ∷ xs) h (inr m) = All-at P a xs h.1 m

  pub Member-append_left : (a : A) (xs ys : List A) → Member a xs → Member a (xs ++ ys)
  Member-append_left a [] ys m = absurd m
  Member-append_left a (x ∷ xs) ys (inl e) = inl e
  Member-append_left a (x ∷ xs) ys (inr m) = inr (Member-append_left a xs ys m)

  pub Member-append_last : (a : A) (xs : List A) → Member a (xs ++ a ∷ [])
  Member-append_last a [] = inl refl
  Member-append_last a (x ∷ xs) = inr (Member-append_last a xs)

  pub Member-append_right : (a : A) (xs ys : List A) → Member a ys → Member a (xs ++ ys)
  Member-append_right a [] ys m = m
  Member-append_right a (x ∷ xs) ys m = inr (Member-append_right a xs ys m)

  pub All-Member_front : (xs ys : List A) → All (λ x. Member x (xs ++ ys)) xs
  All-Member_front xs ys =
      All-map {P = λ x. Member x xs} (λ x m. Member-append_left x xs ys m) xs (All-Member xs)

  pub All-Member_back : (xs ys : List A) → All (λ x. Member x (xs ++ ys)) ys
  All-Member_back xs ys =
      All-map {P = λ x. Member x ys} (λ x m. Member-append_right x xs ys m) ys (All-Member ys)

  pub Member-select :
      (p : A → Bool) (a : A) (xs : List A) → p a ≡ true → Member a xs → Member a (select p xs)
  Member-select p a [] h m = absurd m
  Member-select p a (x ∷ xs) h (inl e) =
      let h' : p x ≡ true = subst (λ b. p b ≡ true) e h in rw h' (inl e)
  Member-select p a (x ∷ xs) h (inr m) = elim (Bool-cases (p x)) [
    | inl passes ↦ rw passes (inr (Member-select p a xs h m))
    | inr fails ↦ rw fails (Member-select p a xs h m)
  ]

  pub Member-selected :
      (p : A → Bool) (a : A) (xs : List A) → Member a (select p xs) → Member a xs × (p a ≡ true)
  Member-selected p a [] m = absurd m
  Member-selected p a (x ∷ xs) m = elim (Bool-cases (p x)) [
    | inl passes ↦
        let m' : Member a (x ∷ select p xs) = rw passes at m in
        elim m' [
          | inl e ↦ (inl e, ap p e ∙ passes)
          | inr later ↦ let (found, passed) = Member-selected p a xs later in (inr found, passed)
        ]
    | inr fails ↦
        let (found, passed) = Member-selected p a xs (rw fails at m) in (inr found, passed)
  ]

module _ {A B : Type 0} (f : A → B) where
  pub Member-map : (a : A) (xs : List A) → Member a xs → Member (f a) (map f xs)
  Member-map a [] m = absurd m
  Member-map a (x ∷ xs) (inl e) = inl (ap f e)
  Member-map a (x ∷ xs) (inr m) = inr (Member-map a xs m)

  pub Member-mapped :
      (b : B) (xs : List A) → Member b (map f xs) → (a : A) × Member a xs × (b ≡ f a)
  Member-mapped b [] m = absurd m
  Member-mapped b (x ∷ xs) (inl e) = (x, inl refl, e)
  Member-mapped b (x ∷ xs) (inr m) = let (a, found, e) = Member-mapped b xs m in (a, inr found, e)
