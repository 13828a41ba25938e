-- ===== src/Money/Digits.antt =====
-- src/metering/money.ts: the digits that a number is printed as are read as the number.
use Prim.Native.Char.{code}
use Prim.Native.String.append
use confidential_content_pla.Prelude.{
  ℕ, zero, suc, ◌+◌, ◌-◌, ◌*◌, ◌/◌, ◌%◌, ◌^◌, ◌<◌, ◌≤◌, ◌≡◌, refl, ap, ◌∙◌, Bool, true, ◌&&◌,
  String, ◌^^◌, ltb, Bool-cases, all_below, below-all, ◌==◌, inl, inr, digit_text, decimal_in,
  decimal, arith,
}
use confidential_content_pla.Money.{are_digits, digits_value, text_length, zeros, pad_start}

pub digits_value-append :
    (n : ℕ) (s t : String) → digits_value n (s ^^ t) ≡ digits_value (digits_value n s) t
unfolding digits_value
digits_value-append n String.[] t = ap (digits_value n) (append.nil t)
digits_value-append n (String.◌∷◌ c s) t =
    ap (digits_value n) (append.cons c s t) ∙ digits_value-append (10 * n + (code c - 48)) s t

pub are_digits-append :
    (s t : String) → are_digits s ≡ true → are_digits t ≡ true → are_digits (s ^^ t) ≡ true
are_digits-append String.[] t h k = ap are_digits (append.nil t) ∙ k
are_digits-append (String.◌∷◌ c s) t h k =
    ap are_digits (append.cons c s t) ∙ ground (arith, are_digits-append s t)

pub text_length-append : (s t : String) → text_length (s ^^ t) ≡ text_length s + text_length t
text_length-append String.[] t = ap text_length (append.nil t) ∙ omega arith
text_length-append (String.◌∷◌ c s) t =
    ap text_length (append.cons c s t) ∙ omega (arith, text_length-append s t)

-- The digit that is written for a number below ten.
abbrev reads_back : ℕ → Bool
reads_back n =
    are_digits (digit_text n)
    && (text_length (digit_text n) == 1 && digits_value 0 (digit_text n) == n)

digits_read : all_below 10 reads_back ≡ true
unfolding digits_value
digits_read = refl

reads_back-digit : (n : ℕ) → n < 10 → reads_back n ≡ true
reads_back-digit n h = below-all 10 reads_back n digits_read h

digit_are_digits : (n : ℕ) → n < 10 → are_digits (digit_text n) ≡ true
digit_are_digits n h = ground (arith, reads_back-digit n h)

digit_length : (n : ℕ) → n < 10 → text_length (digit_text n) ≡ 1
digit_length n h = ground (arith, reads_back-digit n h)

one_digit : (m : ℕ) (s : String) → text_length s ≡ 1 → digits_value m s ≡ 10 * m + digits_value 0 s
unfolding digits_value
one_digit m String.[] h = absurd (omega (arith, h))
one_digit m (String.◌∷◌ c String.[]) h = omega arith
one_digit m (String.◌∷◌ c (String.◌∷◌ d s)) h = absurd (omega (arith, h))

digit_value : (m n : ℕ) → n < 10 → digits_value m (digit_text n) ≡ 10 * m + n
digit_value m n h =
    one_digit m (digit_text n) (digit_length n h)
    ∙ ap (λ k. 10 * m + k) (ground (arith, reads_back-digit n h))

decimal_in_value : (room n : ℕ) → n < room → digits_value 0 (decimal_in room n) ≡ n
unfolding decimal_in
decimal_in_value zero n h = absurd (omega arith)
decimal_in_value (suc room) n h = elim (Bool-cases (ltb n 10)) [
  | inl small ↦ rw small (digit_value 0 n (ground arith) ∙ omega arith)
  | inr large ↦ rw large (
      digits_value-append 0 (decimal_in room (n / 10)) (digit_text (n % 10))
      ∙ ap (λ m. digits_value m (digit_text (n % 10)))
          (decimal_in_value room (n / 10) (ground arith))
      ∙ digit_value (n / 10) (n % 10) (omega arith)
      ∙ omega arith)
]

decimal_in-are_digits : (room n : ℕ) → are_digits (decimal_in room n) ≡ true
unfolding decimal_in
decimal_in-are_digits zero n = refl
decimal_in-are_digits (suc room) n = elim (Bool-cases (ltb n 10)) [
  | inl small ↦ rw small (digit_are_digits n (ground arith))
  | inr large ↦ rw large (
      are_digits-append (decimal_in room (n / 10)) (digit_text (n % 10))
        (decimal_in-are_digits room (n / 10)) (digit_are_digits (n % 10) (omega arith)))
]

-- At most as many digits as the power of ten has noughts.
pub length-decimal_in : (room n k : ℕ) → n < 10 ^ suc k → text_length (decimal_in room n) ≤ suc k
unfolding decimal_in
length-decimal_in zero n k l = omega arith
length-decimal_in (suc room) n zero l =
    let small : ltb n 10 ≡ true = ground arith in rw small (rw (digit_length n l) (omega arith))
length-decimal_in (suc room) n (suc k) l = elim (Bool-cases (ltb n 10)) [
  | inl small ↦ rw small (rw (digit_length n (ground arith)) (omega arith))
  | inr large ↦ rw large (
      rw (text_length-append (decimal_in room (n / 10)) (digit_text (n % 10))) (
        rw (digit_length (n % 10) (omega arith))
          (omega (arith, length-decimal_in room (n / 10) k (omega arith)))))
]

-- What `String` of a number makes: digits, at least one, that say the number.
pub decimal_value : (n : ℕ) → digits_value 0 (decimal n) ≡ n
unfolding decimal
decimal_value n = decimal_in_value (suc n) n (omega arith)

pub decimal-are_digits : (n : ℕ) → are_digits (decimal n) ≡ true
unfolding decimal
decimal-are_digits n = decimal_in-are_digits (suc n) n

-- Noughts in front change no value.
zeros_value : (n : ℕ) (s : String) → digits_value 0 (zeros n ^^ s) ≡ digits_value 0 s
unfolding digits_value
zeros_value zero s = ap (digits_value 0) (append.nil s)
zeros_value (suc n) s = ap (digits_value 0) (append.cons "0" (zeros n) s) ∙ zeros_value n s

zeros-are_digits : (n : ℕ) → are_digits (zeros n) ≡ true
zeros-are_digits zero = refl
zeros-are_digits (suc n) = zeros-are_digits n

length-zeros : (n : ℕ) → text_length (zeros n) ≡ n
length-zeros zero = refl
length-zeros (suc n) = ap suc (length-zeros n)

ten_times : (k : ℕ) → 10 * 10 ^ k ≡ 10 ^ suc k
ten_times k = omega arith

place : (m d x v w : ℕ) → w ≡ (0 + d) * x + v → (10 * m + d) * x + v ≡ m * (10 * x) + w
place m d x v w h = grind arith

-- A text of digits on the left shifts what follows by one place for each.
shifted : (m : ℕ) (s : String) → digits_value m s ≡ m * 10 ^ text_length s + digits_value 0 s
unfolding digits_value
shifted m String.[] = omega arith
shifted m (String.◌∷◌ c s) =
    shifted (10 * m + (code c - 48)) s
    ∙ place m (code c - 48) (10 ^ text_length s) (digits_value 0 s)
        (digits_value (0 + (code c - 48)) s) (shifted (0 + (code c - 48)) s)
    ∙ ap (λ x. m * x + digits_value (0 + (code c - 48)) s) (ten_times (text_length s))

module _ (n : ℕ) (small : n < 1_000_000) where
  pub length-pad_start : text_length (pad_start 6 (decimal n)) ≡ 6
  unfolding decimal
  length-pad_start =
      text_length-append (zeros (6 - text_length (decimal n))) (decimal n)
      ∙ omega
          (arith, length-zeros (6 - text_length (decimal n)), length-decimal_in (suc n) n 5 small)

  pub pad_start-are_digits : are_digits (pad_start 6 (decimal n)) ≡ true
  pad_start-are_digits =
      are_digits-append (zeros (6 - text_length (decimal n))) (decimal n)
        (zeros-are_digits (6 - text_length (decimal n))) (decimal-are_digits n)

  pub pad_start_value : (m : ℕ) → digits_value m (pad_start 6 (decimal n)) ≡ m * 1_000_000 + n
  pad_start_value m =
      shifted m (pad_start 6 (decimal n))
      ∙ ap (λ k. m * 10 ^ k + digits_value 0 (pad_start 6 (decimal n))) length-pad_start
      ∙ ap (λ k. m * 1_000_000 + k)
          (zeros_value (6 - text_length (decimal n)) (decimal n) ∙ decimal_value n)
