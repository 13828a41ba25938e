-- ===== src/Prelude/Lower.antt =====
-- `String.prototype.toLowerCase`, for texts of which only the ASCII part matters.
use Prim.Native.Char.{Char, char, code, IsScalar}
use Prim.Native.Nat.{ℕ, ◌+◌, ◌<◌}
use Prim.Native.String.{String}
use mathlib.Core.Bool.{◌&&◌}
use mathlib.Core.Logic.{dite}
use native.Mathlib.Decide.{dec_lt}
use native.Mathlib.Omega.{arith}
use confidential_content_pla.Prelude.Tests.{ltb, ◌==◌, if◌then◌else◌}

pub IsScalar-small : (n : ℕ) → n < 55_296 → IsScalar n
IsScalar-small n h = ground arith

-- What `toLowerCase` makes of a character, as far as ASCII goes: beyond ASCII only the
-- Kelvin sign has an ASCII image, and every other image is as little ASCII as the character itself.
abbrev pub lower_of : Char → ℕ
lower_of c =
    if ltb 64 (code c) && ltb (code c) 91
    then code c + 32
    else if code c == 8_490
    then b'k'
    else code c

unfoldable pub lower_character : Char → Char
unfolding dec_lt
lower_character c =
    dite (dec_lt (lower_of c) 55_296) (λ h. char (lower_of c) (IsScalar-small (lower_of c) h))
      (λ _. c)

unfoldable pub to_lower_case : String → String
unfolding lower_character
to_lower_case String.[] = String.[]
to_lower_case (String.◌∷◌ c s) = String.◌∷◌ (lower_character c) (to_lower_case s)
