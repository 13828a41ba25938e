-- ===== src/Prelude/TextOrder.antt =====
-- JavaScript's order of texts is total, so the sorted list does not depend on the order it is sorted from.
use Prim.Native.Char.{char, IsScalar}
use Prim.Native.Nat.{ℕ}
use Prim.Native.String.{String}
use mathlib.Core.Path.{◌≡◌, refl, ap, ◌∙◌}
use mathlib.Core.Bool.{true, false}
use mathlib.Core.List.{List, [], ◌∷◌}
use native.Mathlib.Omega.{arith}
use text.Mathlib.TextEquality.{Char-path}
use confidential_content_pla.Prelude.Json.{
  units_of, code_units, units_before, text_before, insert_text, sort_texts,
}

units_of_injective :
    (m n : ℕ) (s t : List ℕ)
    → IsScalar m
    → IsScalar n
    → units_of m s ≡ units_of n t
    → (m ≡ n) × (s ≡ t)
units_of_injective m n s t p q e = ground arith

code_units_injective : (s t : String) → code_units s ≡ code_units t → s ≡ t
code_units_injective String.[] String.[] e = refl
code_units_injective String.[] (String.◌∷◌ d t) e = ground arith
code_units_injective (String.◌∷◌ c s) String.[] e = ground arith
code_units_injective (String.◌∷◌ (char m p) s) (String.◌∷◌ (char n q) t) e =
    let (same, rest) = units_of_injective m n (code_units s) (code_units t) p q e in
    cc (Char-path (char m p) (char n q) same, code_units_injective s t rest)

units_tied : (s t : List ℕ) → units_before s t ≡ false → units_before t s ≡ false → s ≡ t
unfolding units_before
units_tied [] [] h k = refl
units_tied [] (b ∷ t) h k = cc h
units_tied (a ∷ s) [] h k = cc k
units_tied (a ∷ s) (b ∷ t) h k = ground (arith, units_tied s t)

units_between :
    (s t u : List ℕ) → units_before s u ≡ true → units_before s t ≡ false → units_before t u ≡ true
unfolding units_before
units_between [] [] u h k = h
units_between [] (b ∷ t) u h k = cc k
units_between (a ∷ s) [] [] h k = h
units_between (a ∷ s) [] (c ∷ u) h k = refl
units_between (a ∷ s) (b ∷ t) [] h k = cc h
units_between (a ∷ s) (b ∷ t) (c ∷ u) h k = ground (arith, units_between s t u)

units_asym : (s t : List ℕ) → units_before s t ≡ true → units_before t s ≡ false
unfolding units_before
units_asym [] [] h = refl
units_asym [] (b ∷ t) h = refl
units_asym (a ∷ s) [] h = ground arith
units_asym (a ∷ s) (b ∷ t) h = ground (arith, units_asym s t)

text_asym : (s t : String) → text_before s t ≡ true → text_before t s ≡ false
unfolding text_before
text_asym s t = units_asym (code_units s) (code_units t)

text_tied : (s t : String) → text_before s t ≡ false → text_before t s ≡ false → s ≡ t
unfolding text_before
text_tied s t h k = code_units_injective s t (units_tied (code_units s) (code_units t) h k)

text_between :
    (s t u : String) → text_before s u ≡ true → text_before s t ≡ false → text_before t u ≡ true
unfolding text_before
text_between s t u = units_between (code_units s) (code_units t) (code_units u)

insert_comm :
    (a b : String) (ts : List String)
    → insert_text a (insert_text b ts) ≡ insert_text b (insert_text a ts)
unfolding insert_text
insert_comm a b [] = ground (arith, text_tied a b, text_asym a b)
insert_comm a b (t ∷ ts) = ground (
  arith,
  insert_comm a b ts,
  text_tied a b,
  text_asym a b,
  text_between t a b,
  text_between t b a,
)

-- Two lists with the same texts, each as often.
pub data Reordered : List String → List String → Type 0 where
  none_left : Reordered [] []
  kept : (s : String) {xs ys : List String} → Reordered xs ys → Reordered (s ∷ xs) (s ∷ ys)
  swapped : (s t : String) (xs : List String) → Reordered (s ∷ t ∷ xs) (t ∷ s ∷ xs)
  then_so : {xs ys zs : List String} → Reordered xs ys → Reordered ys zs → Reordered xs zs

pub sort_texts-Reordered : {xs ys : List String} → Reordered xs ys → sort_texts xs ≡ sort_texts ys
unfolding sort_texts
sort_texts-Reordered none_left = refl
sort_texts-Reordered (kept s r) = ap (insert_text s) (sort_texts-Reordered r)
sort_texts-Reordered (swapped s t xs) = insert_comm s t (sort_texts xs)
sort_texts-Reordered (then_so r q) = sort_texts-Reordered r ∙ sort_texts-Reordered q
