-- ===== src/Numbers.antt =====
-- JavaScript numbers (all but -0) where the program only prints, reads and compares them: `String(n)`,
-- `Number(s)` and `Number.isSafeInteger(n) && n > 0` of ECMAScript, as an interface.
pub mod Counting
use confidential_content_pla.Prelude.{◌≡◌, ◌≢◌, Bool, String}

pub record Numbers : Type 1 where
  pub Number : Type 0
  pub nan : Number
  pub zero_number : Number
  pub print : Number → String
  pub read : String → Number
  pub is_positive_integer : Number → Bool
  pub read-print : (n : Number) → read (print n) ≡ n
  pub print-ne-empty : (n : Number) → print n ≢ ""
