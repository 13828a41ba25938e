-- ===== src/EventLog/Hex.antt =====
-- src/gateway/eventLog.ts: hexadecimal texts and bytes say the same.
use Prim.Native.Char.{Char, code}
use text.Mathlib.TextEquality.{Char-path}
use confidential_content_pla.Prelude.{
  ℕ, ◌+◌, ◌*◌, ◌/◌, ◌%◌, ◌<◌, ◌≡◌, refl, ap, Option, none, some, Bool, true, false, ◌&&◌, ◌||◌, [],
  ◌∷◌, String, ◌==◌, ltb, leb, not, ==_iff, All, all_below, below-all, arith,
}
use confidential_content_pla.EventLog.{
  Bytes, hex_value, from_hex, hex_character, to_hex, is_clean_hex,
}

abbrev is_value : Option ℕ → ℕ → Bool
is_value none n = false
is_value (some v) n = v == n

is_value-eq : (o : Option ℕ) (n : ℕ) → is_value o n ≡ true → o ≡ some n
is_value-eq none n h = cc h
is_value-eq (some v) n h = ap some ((==_iff v n).0 h)

digits_read : all_below 16 (λ n. is_value (hex_value (code (hex_character n))) n) ≡ true
digits_read = refl

hex_value-hex_character : (n : ℕ) → n < 16 → hex_value (code (hex_character n)) ≡ some n
hex_value-hex_character n h =
    is_value-eq (hex_value (code (hex_character n))) n
      (below-all 16 (λ m. is_value (hex_value (code (hex_character m))) m) n digits_read h)

pub from_hex-to_hex : (bs : Bytes) → All (λ b. ltb b 256 ≡ true) bs → from_hex (to_hex bs) ≡ bs
unfolding from_hex to_hex
from_hex-to_hex [] h = refl
from_hex-to_hex (b ∷ bs) h =
    rw
      (
        hex_value-hex_character (b / 16) (ground arith),
        hex_value-hex_character (b % 16) (omega arith),
        from_hex-to_hex bs h.1,
      )
      (ap (λ c. c ∷ bs) (omega arith))

abbrev is_lower-Digit : ℕ → Bool
is_lower-Digit c = (leb b'0' c && leb c b'9') || (leb b'a' c && leb c b'f')

-- The digit is written again as it was.
abbrev rewrites : ℕ → Option ℕ → Bool
rewrites c none = not (is_lower-Digit c)
rewrites c (some v) = not (is_lower-Digit c) || (ltb v 16 && code (hex_character v) == c)

digits_rewrite : all_below 103 (λ c. rewrites c (hex_value c)) ≡ true
digits_rewrite = refl

abbrev Digit : Char → Type 0
Digit c = (v : ℕ) × (hex_value (code c) ≡ some v) × (v < 16) × (hex_character v ≡ c)

rewritten :
    (c : Char) (o : Option ℕ)
    → hex_value (code c) ≡ o
    → is_lower-Digit (code c) ≡ true
    → rewrites (code c) o ≡ true
    → Digit c
rewritten c none e l r = absurd (ground arith)
rewritten c (some v) e l r = (
  v,
  e,
  ground arith,
  Char-path (hex_character v) c ((==_iff (code (hex_character v)) (code c)).0 (ground arith)),
)

lower-Digit : (c : Char) → is_lower-Digit (code c) ≡ true → Digit c
lower-Digit c l =
    rewritten c (hex_value (code c)) refl l
      (below-all 103 (λ n. rewrites n (hex_value n)) (code c) digits_rewrite (ground arith))

-- A clean text is what its bytes are written as.
pub to_hex-from_hex : (s : String) → is_clean_hex s ≡ true → to_hex (from_hex s) ≡ s
unfolding to_hex from_hex
to_hex-from_hex String.[] h = refl
to_hex-from_hex (String.◌∷◌ c String.[]) h = absurd (ground arith)
to_hex-from_hex (String.◌∷◌ c (String.◌∷◌ d s)) h =
    let (u, eu, lu, cu) = lower-Digit c (ground arith) in
    let (v, ev, lv, dv) = lower-Digit d (ground arith) in
    let high : (16 * u + v) / 16 ≡ u = omega arith in
    let low : (16 * u + v) % 16 ≡ v = omega arith in
    rw (eu, ev, high, low, cu, dv, to_hex-from_hex s (ground arith))
