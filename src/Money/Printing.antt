-- ===== src/Money/Printing.antt =====
-- src/metering/money.ts: an amount that is printed in dollars is read again as the amount.
use Prim.Native.Char.{Char, code}
use Prim.Native.String.append
use confidential_content_pla.Prelude.{
  ℕ, suc, ◌-◌, ◌*◌, ◌/◌, ◌<◌, ◌≤◌, ◌≡◌, refl, ap, ◌∙◌, true, false, String, ◌^^◌, ◌==◌, ok,
  is_space, trim_start, with_head, trim_end, trim, decimal, texts_assoc, arith,
}
use confidential_content_pla.Prelude.Int.{ℤ, pos, negsuc, pos_part, neg_part, sub_ℕ}
use confidential_content_pla.Prelude.Values.{Number, integer}
use confidential_content_pla.Money.{
  micros_per_usd, max_pool_micros, is_outside, assert_micros, text, is_digit, are_digits,
  is_natural_text, digits_value, read_number, read_micros, text_length, abs, whole_text,
  fraction_text, pad_start, micros_to_usd_string,
}
use confidential_content_pla.Money.Digits.{
  digits_value-append, are_digits-append, text_length-append, decimal_value, decimal-are_digits,
  length-pad_start, pad_start-are_digits, pad_start_value,
}

digit_ink : (n : ℕ) → is_digit n ≡ true → is_space n ≡ false
digit_ink n h = ground arith

with_head_lem : (c : Char) (s : String) → is_space (code c) ≡ false → with_head c s ≡ String.◌∷◌ c s
with_head_lem c String.[] h = rw h refl
with_head_lem c (String.◌∷◌ d s) h = refl

trim_end-are_digits : (s : String) → are_digits s ≡ true → trim_end s ≡ s
unfolding trim_end
trim_end-are_digits String.[] h = refl
trim_end-are_digits (String.◌∷◌ c s) h =
    ap (with_head c) (trim_end-are_digits s (ground arith))
    ∙ with_head_lem c s (digit_ink (code c) (ground arith))

-- A text of ink and digits is trimmed already.
trim_lem :
    (c : Char) (s : String)
    → is_space (code c) ≡ false
    → are_digits s ≡ true
    → trim (String.◌∷◌ c s) ≡ String.◌∷◌ c s
unfolding trim trim_start trim_end
trim_lem c s h k = rw h (ap (with_head c) (trim_end-are_digits s k) ∙ with_head_lem c s h)

-- Digits are read as their value, and behind a minus as its opposite.
read_micros-are_digits :
    (s : String) (fallback : Number)
    → are_digits s ≡ true
    → 1 ≤ text_length s
    → read_micros (text s) fallback ≡ assert_micros (integer (pos (digits_value 0 s)))
unfolding read_micros read_number digits_value
read_micros-are_digits String.[] fallback h l = absurd (omega (arith, l))
read_micros-are_digits (String.◌∷◌ c s) fallback h l =
    let no_minus : (code c == b'-') ≡ false = ground arith in
    rw (trim_lem c s (digit_ink (code c) (ground arith)) (ground arith)) (rw no_minus (rw h refl))

natural_text : (s : String) → are_digits s ≡ true → 1 ≤ text_length s → is_natural_text s ≡ true
natural_text String.[] h l = absurd (omega (arith, l))
natural_text (String.◌∷◌ c s) h l = h

read_micros-minus :
    (s : String) (fallback : Number)
    → are_digits s ≡ true
    → 1 ≤ text_length s
    → read_micros (text (String.◌∷◌ "-" s)) fallback
      ≡ assert_micros (integer (sub_ℕ 0 (digits_value 0 s)))
unfolding read_micros read_number digits_value
read_micros-minus s fallback h l = rw (trim_lem "-" s refl h) (rw (natural_text s h l) refl)

-- What stands before and after the point, without a sign.
module _ (n : ℕ) where
  abbrev whole : String
  whole = decimal (n / micros_per_usd)

  abbrev fraction : String
  fraction = pad_start 6 (decimal (n - n / micros_per_usd * micros_per_usd))

  rest_small : n - n / micros_per_usd * micros_per_usd < 1_000_000
  rest_small = omega arith

  both_value : digits_value 0 (whole ^^ fraction) ≡ n
  both_value =
      digits_value-append 0 whole fraction
      ∙ ap (λ m. digits_value m fraction) (decimal_value (n / micros_per_usd))
      ∙ pad_start_value (n - n / micros_per_usd * micros_per_usd) rest_small (n / micros_per_usd)
      ∙ omega arith

  both_are_digits : are_digits (whole ^^ fraction) ≡ true
  both_are_digits =
      are_digits-append whole fraction (decimal-are_digits (n / micros_per_usd))
        (pad_start-are_digits (n - n / micros_per_usd * micros_per_usd) rest_small)

  both_length : 1 ≤ text_length (whole ^^ fraction)
  both_length = omega (
    arith,
    text_length-append whole fraction,
    length-pad_start (n - n / micros_per_usd * micros_per_usd) rest_small,
  )

inside :
    (z : ℤ) → pos_part z ≤ max_pool_micros → neg_part z ≤ max_pool_micros → is_outside z ≡ false
inside z h k = ground arith

assert_micros_lem : (z : ℤ) → is_outside z ≡ false → assert_micros (integer z) ≡ ok z
unfolding assert_micros
assert_micros_lem z h = rw h refl

printed :
    (z : ℤ)
    → is_outside z ≡ false
    → micros_to_usd_string (integer z) ≡ ok (whole_text z ^^ ("." ^^ fraction_text z))
unfolding micros_to_usd_string
printed z h = rw h refl

-- The printed amount without its point.
joined_pos : (n m : ℕ) → m ≡ n → ("" ^^ whole m) ^^ fraction m ≡ whole n ^^ fraction n
joined_pos n m e =
    ap (λ k. ("" ^^ whole k) ^^ fraction k) e ∙ ap (λ s. s ^^ fraction n) (append.nil (whole n))

joined_neg :
    (n m : ℕ) → m ≡ n → ("-" ^^ whole m) ^^ fraction m ≡ String.◌∷◌ "-" (whole n ^^ fraction n)
joined_neg n m e =
    ap (λ k. ("-" ^^ whole k) ^^ fraction k) e
    ∙ texts_assoc "-" (whole n) (fraction n)
    ∙ append.cons "-" "" (whole n ^^ fraction n)
    ∙ ap (String.◌∷◌ "-") (append.nil (whole n ^^ fraction n))

read_again :
    (z : ℤ) (fallback : Number)
    → is_outside z ≡ false
    → read_micros (text (whole_text z ^^ fraction_text z)) fallback ≡ ok z
read_again (pos n) fallback h =
    ap (λ s. read_micros (text s) fallback) (joined_pos n (abs (pos n)) (omega arith))
    ∙ read_micros-are_digits (whole n ^^ fraction n) fallback (both_are_digits n) (both_length n)
    ∙ ap (λ m. assert_micros (integer (pos m))) (both_value n)
    ∙ assert_micros_lem (pos n) h
read_again (negsuc n) fallback h =
    ap (λ s. read_micros (text s) fallback) (joined_neg (suc n) (abs (negsuc n)) (omega arith))
    ∙ read_micros-minus (whole (suc n) ^^ fraction (suc n)) fallback (both_are_digits (suc n))
        (both_length (suc n))
    ∙ ap (λ m. assert_micros (integer (sub_ℕ 0 m))) (both_value (suc n))
    ∙ ap (λ w. assert_micros (integer w)) (ground arith)
    ∙ assert_micros_lem (negsuc n) h

-- An amount of at most a million dollars either way is printed with six digits after the point, and
-- without the point it is read again as the amount.
pub read_micros-micros_to_usd_string :
    (z : ℤ) (fallback : Number)
    → pos_part z ≤ max_pool_micros
    → neg_part z ≤ max_pool_micros
    → (front : String) × (back : String) × (micros_to_usd_string (integer z)
        ≡ ok (front ^^ ("." ^^ back)))
      × (text_length back ≡ 6)
      × (read_micros (text (front ^^ back)) fallback ≡ ok z)
read_micros-micros_to_usd_string z fallback h k = (
  whole_text z,
  fraction_text z,
  printed z (inside z h k),
  length-pad_start (abs z - abs z / micros_per_usd * micros_per_usd) (rest_small (abs z)),
  read_again z fallback (inside z h k),
)
