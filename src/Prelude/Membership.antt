-- ===== src/Prelude/Membership.antt =====
-- Lists of texts that name each text once.
use Prim.Native.String.{String}
use mathlib.Core.Path.{◌≡◌, refl}
use mathlib.Core.Bool.{Bool, false, ◌||◌}
use mathlib.Core.List.{List, [], ◌∷◌, ◌++◌}
use native.Mathlib.Omega.{arith}
use text.Mathlib.Text.{◌==◌ as str_eq}
use text.Mathlib.TextEquality.{eq_iff}
use confidential_content_pla.Prelude.Tests.{if◌then◌else◌}

-- `Set.has`, and `includes`.
abbrev pub has : String → List String → Bool
has s [] = false
has s (t ∷ ts) = str_eq t s || has s ts

abbrev pub insert_new : String → List String → List String
insert_new s out = if has s out then out else out ++ s ∷ []

-- `[...new Set(texts)]`, after what is there.
unfoldable pub distinct_from : (out texts : List String) → List String
distinct_from out [] = out
distinct_from out (s ∷ ss) = distinct_from (insert_new s out) ss

abbrev pub Distinct : List String → Type 0
Distinct [] = Unit {0}
Distinct (s ∷ ss) = (has s ss ≡ false) × Distinct ss

pub has-append : (s : String) (xs ys : List String) → has s (xs ++ ys) ≡ (has s xs || has s ys)
has-append s [] ys = refl
has-append s (x ∷ xs) ys = ground (arith, has-append s xs ys)

pub Distinct-append_new :
    (s : String) (xs : List String) → has s xs ≡ false → Distinct xs → Distinct (xs ++ s ∷ [])
Distinct-append_new s [] h d = (refl, tt)
Distinct-append_new s (x ∷ xs) h d =
    ground (arith, Distinct-append_new s xs, has-append x xs (s ∷ []), eq_iff x s, eq_iff s x)

pub not-repeated :
    (s : String) (out ss : List String) → Distinct (out ++ s ∷ ss) → has s out ≡ false
not-repeated s [] ss d = refl
not-repeated s (x ∷ out) ss d =
    ground (arith, not-repeated s out ss, has-append x out (s ∷ ss), eq_iff x s, eq_iff s x)
