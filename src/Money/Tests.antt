-- ===== src/Money/Tests.antt =====
-- src/metering/money.ts: amounts that are printed, read and clamped.
use confidential_content_pla.Prelude.{◌≡◌, refl, Result, ok, err, String, ◌^^◌, arith}
use confidential_content_pla.Prelude.Int.{ℤ, pos, negsuc}
use confidential_content_pla.Prelude.Values.{integer, no_integer}
use confidential_content_pla.Money.{
  MoneyError, refused, text, missing, number, micros_to_usd_string, read_micros, clamp_micros,
  text_length,
}
use confidential_content_pla.Money.Printing.{read_micros-micros_to_usd_string}

abbrev gives : ℤ → Result MoneyError ℤ
gives z = ok z

abbrev says : String → Result MoneyError String
says s = ok s

abbrev fails : Result MoneyError ℤ
fails = err refused

abbrev debt : ℤ
debt = negsuc 2_000_049

debt_printed : micros_to_usd_string (integer debt) ≡ says "-2.000050"
unfolding micros_to_usd_string
debt_printed = refl

debt_read : read_micros (text " -2000050 ") no_integer ≡ gives debt
unfolding read_micros
debt_read = refl

fraction_refused : read_micros (text "1.5") (integer (pos 0)) ≡ fails
unfolding read_micros
fraction_refused = refl

nothing_read : read_micros missing (integer (pos 7)) ≡ gives (pos 7)
unfolding read_micros
nothing_read = refl

too_much : read_micros (number (integer (pos 1_000_000_000_001))) no_integer ≡ fails
unfolding read_micros
too_much = refl

raised : clamp_micros (integer debt) (integer (pos 5)) (integer (pos 9)) ≡ gives (pos 5)
unfolding clamp_micros
raised = refl

swapped : clamp_micros (integer debt) (integer (pos 9)) (integer (pos 5)) ≡ fails
unfolding clamp_micros
swapped = refl

printed_example :
    (front : String) × (back : String) × (micros_to_usd_string (integer debt)
      ≡ ok (front ^^ ("." ^^ back)))
    × (text_length back ≡ 6)
    × (read_micros (text (front ^^ back)) no_integer ≡ ok debt)
printed_example = read_micros-micros_to_usd_string debt no_integer (omega arith) (omega arith)
