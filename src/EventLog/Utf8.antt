-- ===== src/EventLog/Utf8.antt =====
-- src/gateway/eventLog.ts: a text is told from its UTF-8 bytes, also where a colon ends it.
use Prim.Native.Char.{char, code, IsScalar}
use text.Mathlib.TextEquality.{Char-path}
use confidential_content_pla.Prelude.{ℕ, ◌≡◌, refl, sym, ◌∙◌, false, ◌∷◌, ◌++◌, String, ◌==◌, arith}
use confidential_content_pla.EventLog.{Bytes, utf8_of, utf8}

-- No colon stands in the text.
abbrev pub Colonless : String → Type 0
Colonless String.[] = Unit {0}
Colonless (String.◌∷◌ c s) = ((code c == b':') ≡ false) × Colonless s

utf8_of_injective :
    (m n : ℕ) (s t : Bytes)
    → IsScalar m
    → IsScalar n
    → utf8_of m s ≡ utf8_of n t
    → (m ≡ n) × (s ≡ t)
utf8_of_injective m n s t p q e = ground arith

utf8_of-append : (m : ℕ) (s t : Bytes) → utf8_of m s ++ t ≡ utf8_of m (s ++ t)
utf8_of-append m s t = ground arith

utf8_of-colon : (m : ℕ) (s t : Bytes) → (m == b':') ≡ false → utf8_of m s ≡ b':' ∷ t → ⊥
utf8_of-colon m s t h e = ground arith

-- The names and what follows them are told from the bytes.
pub utf8-colon :
    (n m : String) (s t : Bytes)
    → Colonless n
    → Colonless m
    → utf8 n ++ (b':' ∷ s) ≡ utf8 m ++ (b':' ∷ t)
    → (n ≡ m) × (s ≡ t)
unfolding utf8
utf8-colon String.[] String.[] s t h k e = (refl, cc e)
utf8-colon String.[] (String.◌∷◌ d m) s t h k e = absurd (
    utf8_of-colon (code d) (utf8 m ++ (b':' ∷ t)) s k.0
      (sym (utf8_of-append (code d) (utf8 m) (b':' ∷ t)) ∙ sym e))
utf8-colon (String.◌∷◌ c n) String.[] s t h k e = absurd (
    utf8_of-colon (code c) (utf8 n ++ (b':' ∷ s)) t h.0
      (sym (utf8_of-append (code c) (utf8 n) (b':' ∷ s)) ∙ e))
utf8-colon (String.◌∷◌ (char c p) n) (String.◌∷◌ (char d q) m) s t h k e =
    let (same, rest) =
      utf8_of_injective c d (utf8 n ++ (b':' ∷ s)) (utf8 m ++ (b':' ∷ t)) p q
        (sym (utf8_of-append c (utf8 n) (b':' ∷ s)) ∙ e ∙ utf8_of-append d (utf8 m) (b':' ∷ t)) in
    let (names, after) = utf8-colon n m s t h.1 k.1 rest in
    (cc (Char-path (char c p) (char d q) same, names), after)
