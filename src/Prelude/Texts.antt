-- ===== src/Prelude/Texts.antt =====
-- Texts: concatenation on the left cancels, and a dictionary written as a log of assignments, of
-- which the last one to a field counts.
use Prim.Native.Char.{Char}
use Prim.Native.String
use Prim.Native.String.{String}
use Prim.Native.String.append
use mathlib.Core.Path.{◌≡◌}
use mathlib.Core.Logic.{◌≢◌}
use mathlib.Core.List.{List, [], ◌∷◌, ◌++◌}
use mathlib.Core.Option.{Option, none, some}
use native.Mathlib.Omega.{arith}
use text.Mathlib.Text.{◌==◌}
use confidential_content_pla.Prelude.Tests.{if◌then◌else◌}

infixl 65 ◌^^◌
-- `${s}${t}`
abbrev pub ◌^^◌ : String → String → String
s ^^ t = String.◌++◌ s t

-- The texts one after the other.
abbrev pub concat : List String → String
concat [] = ""
concat (s ∷ ss) = s ^^ concat ss

pub append-cancel : (p s t : String) → p ^^ s ≡ p ^^ t → s ≡ t
append-cancel String.[] s t h = cc (append.nil s, append.nil t)
append-cancel (String.◌∷◌ c p) s t h =
    append-cancel p s t (cc (append.cons c p s, append.cons c p t))

pub texts_assoc : (p s t : String) → (p ^^ s) ^^ t ≡ p ^^ (s ^^ t)
texts_assoc String.[] s t = cc (append.nil s, append.nil (s ^^ t))
texts_assoc (String.◌∷◌ c p) s t =
    cc (append.cons c p s, append.cons c (p ^^ s) t, append.cons c p (s ^^ t), texts_assoc p s t)

-- Texts whose first characters differ.
pub heads_differ :
    (c d : Char) (p q s t : String) → c ≢ d → String.◌∷◌ c p ^^ s ≢ String.◌∷◌ d q ^^ t
heads_differ c d p q s t n h = n (cc (h, append.cons c p s, append.cons d q t))

module _ {ℓ} {V : Type ℓ} where
  abbrev pub or_else : Option V → Option V → Option V
  or_else (some v) o = some v
  or_else none o = o

  abbrev pub last_lookup : String → List (String × V) → Option V
  last_lookup f [] = none
  last_lookup f ((g, v) ∷ m) = or_else (last_lookup f m) (if g == f then some v else none)

  pub last_lookup-append :
      (f : String) (m n : List (String × V))
      → last_lookup f (m ++ n) ≡ or_else (last_lookup f n) (last_lookup f m)
  last_lookup-append f [] n = ground arith
  last_lookup-append f ((g, v) ∷ m) n = ground (arith, last_lookup-append f m n)
