-- ===== src/Prelude/Trim.antt =====
-- `String.prototype.trim`
use Prim.Native.Char.{Char, code}
use Prim.Native.Nat.{ℕ}
use Prim.Native.String.{String}
use mathlib.Core.Bool.{Bool, ◌&&◌, ◌||◌}
use confidential_content_pla.Prelude.Tests.{leb, ◌==◌, if◌then◌else◌}

-- White space and line terminators.
abbrev pub is_space : ℕ → Bool
is_space c =
    (leb 9 c && leb c 13)
    || (c == 32
        || (c == 160
            || (c == 5_760
                || ((leb 8_192 c && leb c 8_202)
                    || (c == 8_232
                        || (c == 8_233
                            || (c == 8_239 || (c == 8_287 || (c == 12_288 || c == 65_279)))))))))

unfoldable pub trim_start : String → String
trim_start String.[] = String.[]
trim_start (String.◌∷◌ c s) = if is_space (code c) then trim_start s else String.◌∷◌ c s

-- A text of spaces only is dropped at the end, and so is each space before a dropped rest.
abbrev pub with_head : Char → String → String
with_head c String.[] = if is_space (code c) then String.[] else String.◌∷◌ c String.[]
with_head c (String.◌∷◌ d s) = String.◌∷◌ c (String.◌∷◌ d s)

unfoldable pub trim_end : String → String
trim_end String.[] = String.[]
trim_end (String.◌∷◌ c s) = with_head c (trim_end s)

unfoldable pub trim : String → String
unfolding trim_start trim_end
trim s = trim_end (trim_start s)
