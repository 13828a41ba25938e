-- ===== src/Routing/Whole.antt =====
-- Natural numbers between two infinities: the interface of amounts can be met.
use confidential_content_pla.Prelude.{ℕ, ◌+◌, ◌≡◌, refl, Bool, true, false, ltb, arith}
use confidential_content_pla.Routing.{Amounts}

pub data Whole : Type 0 where
  lowest highest : Whole
  whole : ℕ → Whole

abbrev pub whole_lt : Whole → Whole → Bool
whole_lt (whole a) (whole b) = ltb a b
whole_lt lowest lowest = false
whole_lt lowest _ = true
whole_lt _ lowest = false
whole_lt highest _ = false
whole_lt (whole a) highest = true

abbrev pub whole_sum : Whole → Whole → Whole
whole_sum (whole a) (whole b) = whole (a + b)
whole_sum highest _ = highest
whole_sum _ highest = highest
whole_sum _ _ = lowest

pub whole_lt_irrefl : (a : Whole) → whole_lt a a ≡ false
whole_lt_irrefl lowest = refl
whole_lt_irrefl highest = refl
whole_lt_irrefl (whole a) = ground arith

pub whole_lt_trans :
    (a b c : Whole) → whole_lt a b ≡ true → whole_lt b c ≡ true → whole_lt a c ≡ true
whole_lt_trans lowest b lowest h k = ground arith
whole_lt_trans lowest b highest h k = refl
whole_lt_trans lowest b (whole c) h k = refl
whole_lt_trans highest b c h k = ground arith
whole_lt_trans (whole a) b c h k = ground arith

pub whole_lt_tied : (a b : Whole) → whole_lt a b ≡ false → whole_lt b a ≡ false → a ≡ b
whole_lt_tied a b h k = ground arith

abbrev pub wholes : Amounts
wholes = record {
  Amount = Whole;
  lt = whole_lt;
  sum = whole_sum;
  nought = whole 0;
  infinity = highest;
  minus_infinity = lowest;
  lt_irrefl = whole_lt_irrefl;
  lt_trans = whole_lt_trans;
  lt_tied = whole_lt_tied;
}
