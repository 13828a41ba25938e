-- ===== src/Numbers/Counting.antt =====
-- Numbers that are NaN or natural, a natural one printed as a row of strokes and four noughts: the interface can be met.
use confidential_content_pla.Prelude.{
  ℕ, zero, suc, ◌+◌, ◌-◌, ◌≡◌, refl, ◌≢◌, Bool, false, String, ◌==◌, ltb, if◌then◌else◌, arith,
}
use confidential_content_pla.Numbers.{Numbers}

pub data Count : Type 0 where
  not_a_number : Count
  whole : ℕ → Count

strokes : ℕ → String
strokes zero = "0000"
strokes (suc n) = String.◌∷◌ "1" (strokes n)

measure : String → ℕ
measure String.[] = 0
measure (String.◌∷◌ c s) = suc (measure s)

pub print_count : Count → String
print_count not_a_number = "NaN"
print_count (whole n) = strokes n

pub read_count : String → Count
read_count s = if measure s == 3 then not_a_number else whole (measure s - 4)

unfoldable pub is_positive : Count → Bool
is_positive not_a_number = false
is_positive (whole n) = ltb 0 n

measure-strokes : (n : ℕ) → measure (strokes n) ≡ n + 4
unfolding measure strokes
measure-strokes zero = refl
measure-strokes (suc n) = omega (arith, measure-strokes n)

pub read-print_count : (c : Count) → read_count (print_count c) ≡ c
unfolding read_count print_count measure
read-print_count not_a_number = refl
read-print_count (whole n) = ground (arith, measure-strokes n)

pub print_count-ne-empty : (c : Count) → print_count c ≢ ""
unfolding print_count strokes
print_count-ne-empty not_a_number h = cc
print_count-ne-empty (whole zero) h = cc
print_count-ne-empty (whole (suc n)) h = cc

abbrev pub counting : Numbers
counting = record {
  Number = Count;
  nan = not_a_number;
  zero_number = whole 0;
  print = print_count;
  read = read_count;
  is_positive_integer = is_positive;
  read-print = read-print_count;
  print-ne-empty = print_count-ne-empty;
}
