-- ===== src/Money.antt =====
-- src/metering/money.ts: amounts of micro-dollars. What a message of the error says is left out, as are
-- the functions that take or give fractions of a dollar. Minus zero is zero.
pub mod Digits
pub mod Printing
mod Tests
use Prim.Native.Char.{code}
use confidential_content_pla.Prelude.{
  ℕ, zero, suc, ◌+◌, ◌-◌, ◌*◌, ◌/◌, ◌%◌, ◌<◌, ◌≡◌, min, max, Bool, true, false, ◌&&◌, ◌||◌, String,
  ◌^^◌, ltb, leb, ◌==◌, if◌then◌else◌, Result, ok, err, ◌>>=◌, ◌>>◌, guard, decimal, trim,
}
use confidential_content_pla.Prelude.Int.{
  ℤ, pos, negsuc, pos_part, neg_part, sub_ℕ, ltb_ℤ, is_negative,
}
use confidential_content_pla.Prelude.Values.{Number, integer, no_integer}

pub data MoneyError : Type 0 where
  refused : MoneyError

abbrev pub micros_per_usd : ℕ
micros_per_usd = 1_000_000

abbrev pub max_pool_micros : ℕ
max_pool_micros = 1_000_000 * micros_per_usd

abbrev pub is_outside : ℤ → Bool
is_outside z = ltb_ℤ z (negsuc (max_pool_micros - 1)) || ltb_ℤ (pos max_pool_micros) z

unfoldable pub assert_micros : Number → Result MoneyError ℤ
assert_micros no_integer = err refused
assert_micros (integer z) = if is_outside z then err refused else ok z

unfoldable pub assert_non_negative_micros : Number → Result MoneyError ℤ
unfolding assert_micros
assert_non_negative_micros value = do
  micros ← assert_micros value
  if is_negative micros then err refused else ok micros

-- What a column holds: null or undefined, a number, or a text.
pub data DatabaseValue : Type 0 where
  missing : DatabaseValue
  number : Number → DatabaseValue
  text : String → DatabaseValue

abbrev pub is_digit : ℕ → Bool
is_digit c = leb b'0' c && leb c b'9'

abbrev pub are_digits : String → Bool
are_digits String.[] = true
are_digits (String.◌∷◌ c s) = is_digit (code c) && are_digits s

-- `^\d+$`
abbrev pub is_natural_text : String → Bool
is_natural_text String.[] = false
is_natural_text (String.◌∷◌ c s) = is_digit (code c) && are_digits s

-- `^-?\d+$`
abbrev pub is_integer_text : String → Bool
is_integer_text String.[] = false
is_integer_text (String.◌∷◌ c s) =
    if code c == b'-' then is_natural_text s else is_digit (code c) && are_digits s

-- The number that digits say, after the number that is read already.
unfoldable pub digits_value : ℕ → String → ℕ
digits_value n String.[] = n
digits_value n (String.◌∷◌ c s) = digits_value (10 * n + (code c - 48)) s

-- `Number(text)` of a text that is an integer. One that is rounded, or infinite, is as far outside the
-- range as the integer that the text says.
unfoldable pub read_number : String → Number
unfolding digits_value
read_number String.[] = integer (pos 0)
read_number (String.◌∷◌ c s) =
    if code c == b'-'
    then integer (sub_ℕ 0 (digits_value 0 s))
    else integer (pos (digits_value 0 (String.◌∷◌ c s)))

unfoldable pub read_micros : DatabaseValue → (fallback : Number) → Result MoneyError ℤ
unfolding assert_micros read_number trim
read_micros missing fallback = assert_micros fallback
read_micros (number value) fallback = assert_micros value
read_micros (text value) fallback = do
  guard (is_integer_text (trim value)) refused
  assert_micros (read_number (trim value))

abbrev pub text_length : String → ℕ
text_length String.[] = 0
text_length (String.◌∷◌ c s) = suc (text_length s)

-- `"0".repeat(n)`
abbrev pub zeros : ℕ → String
zeros zero = String.[]
zeros (suc n) = String.◌∷◌ "0" (zeros n)

-- `text.padStart(width, "0")`
abbrev pub pad_start : ℕ → String → String
pad_start width s = zeros (width - text_length s) ^^ s

abbrev pub sign : ℤ → String
sign z = if is_negative z then "-" else ""

-- `Math.abs`
abbrev pub abs : ℤ → ℕ
abs z = pos_part z + neg_part z

-- What stands before the point, and what stands after it.
abbrev pub whole_text : ℤ → String
whole_text z = sign z ^^ decimal (abs z / micros_per_usd)

abbrev pub fraction_text : ℤ → String
fraction_text z = pad_start 6 (decimal (abs z - abs z / micros_per_usd * micros_per_usd))

unfoldable pub micros_to_usd_string : Number → Result MoneyError String
unfolding assert_micros decimal
micros_to_usd_string micros = do
  value ← assert_micros micros
  ok (whole_text value ^^ ("." ^^ fraction_text value))

-- `Math.min(high, Math.max(low, amount))`
abbrev pub clamp : ℤ → ℤ → ℤ → ℤ
clamp low high amount =
    let raised = if ltb_ℤ amount low then low else amount in
    if ltb_ℤ raised high then raised else high

unfoldable pub clamp_micros : (micros minimum maximum : Number) → Result MoneyError ℤ
unfolding assert_micros assert_non_negative_micros
clamp_micros micros minimum maximum = do
  amount ← assert_micros micros
  low ← assert_non_negative_micros minimum
  high ← assert_non_negative_micros maximum
  if ltb_ℤ high low then err refused else ok (clamp low high amount)
