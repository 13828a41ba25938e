-- ===== src/Prelude/Trimming.antt =====
-- A trimmed text trims to itself.
use Prim.Native.Char.{Char, code}
use Prim.Native.String.{String}
use mathlib.Core.Path.{◌≡◌, refl, ap, ◌∙◌}
use mathlib.Core.Bool.{false}
use mathlib.Core.Logic.{inl, inr}
use confidential_content_pla.Prelude.Tests.{Bool-cases}
use confidential_content_pla.Prelude.Trim.{is_space, trim_start, with_head, trim_end, trim}

-- A text that does not begin with a space.
abbrev Starts : String → Type 0
Starts String.[] = Unit {0}
Starts (String.◌∷◌ c s) = is_space (code c) ≡ false

trim_start-Starts : (s : String) → Starts (trim_start s)
unfolding trim_start
trim_start-Starts String.[] = tt
trim_start-Starts (String.◌∷◌ c s) = elim (Bool-cases (is_space (code c))) [
  | inl space ↦ rw space (trim_start-Starts s)
  | inr ink ↦ rw ink ink
]

trim_start_lem : (s : String) → Starts s → trim_start s ≡ s
unfolding trim_start
trim_start_lem String.[] h = refl
trim_start_lem (String.◌∷◌ c s) h = rw h

with_head-Starts : (c : Char) (s : String) → is_space (code c) ≡ false → Starts (with_head c s)
with_head-Starts c String.[] h = rw h h
with_head-Starts c (String.◌∷◌ d s) h = h

trim_end-Starts : (s : String) → Starts s → Starts (trim_end s)
unfolding trim_end
trim_end-Starts String.[] h = tt
trim_end-Starts (String.◌∷◌ c s) h = with_head-Starts c (trim_end s) h

trim_end-with_head :
    (c : Char) (s : String) → trim_end s ≡ s → trim_end (with_head c s) ≡ with_head c s
unfolding trim_end
trim_end-with_head c String.[] h = elim (Bool-cases (is_space (code c))) [
  | inl space ↦ rw space
  | inr ink ↦ rw ink (rw ink)
]
trim_end-with_head c (String.◌∷◌ d s) h = ap (with_head c) h

trim_end_twice : (s : String) → trim_end (trim_end s) ≡ trim_end s
unfolding trim_end
trim_end_twice String.[] = refl
trim_end_twice (String.◌∷◌ c s) = trim_end-with_head c (trim_end s) (trim_end_twice s)

pub trim_twice : (s : String) → trim (trim s) ≡ trim s
unfolding trim
trim_twice s =
    ap trim_end (
      trim_start_lem (trim_end (trim_start s))
        (trim_end-Starts (trim_start s) (trim_start-Starts s)))
    ∙ trim_end_twice (trim_start s)
