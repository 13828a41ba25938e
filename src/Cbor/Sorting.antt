-- ===== src/Cbor/Sorting.antt =====
-- src/gcp/control/cbor.ts: `compareBytes` orders encodings, and sorting leaves an ordered list alone.
use confidential_content_pla.Prelude.{◌≡◌, refl, ap, ◌∙◌, Bool, false, true, List, [], ◌∷◌, arith}
use confidential_content_pla.Prelude.Int.{ℤ, pos, negsuc}
use confidential_content_pla.Cbor.{
  Bytes, Encoded, compare_bytes, is_zero, is_at_most_zero, insert_sorted, sort_entries,
  has_duplicate,
}

abbrev pub is_negative : ℤ → Bool
is_negative (pos n) = false
is_negative (negsuc n) = true

-- The first stands strictly before the second.
abbrev pub precedes : Bytes → Bytes → Bool
precedes s t = is_negative (compare_bytes s t)

pub compare_bytes_refl : (s : Bytes) → compare_bytes s s ≡ pos 0
unfolding compare_bytes
compare_bytes_refl [] = refl
compare_bytes_refl (a ∷ s) = ground (arith, compare_bytes_refl s)

pub compare_bytes-zero→eq : (s t : Bytes) → is_zero (compare_bytes s t) ≡ true → s ≡ t
unfolding compare_bytes
compare_bytes-zero→eq [] [] h = refl
compare_bytes-zero→eq [] (b ∷ t) h = ground arith
compare_bytes-zero→eq (a ∷ s) [] h = ground arith
compare_bytes-zero→eq (a ∷ s) (b ∷ t) h = ground (arith, compare_bytes-zero→eq s t)

pub precedes_trans :
    (s t u : Bytes) → precedes s t ≡ true → precedes t u ≡ true → precedes s u ≡ true
unfolding compare_bytes
precedes_trans [] [] u h k = k
precedes_trans [] (b ∷ t) [] h k = ground arith
precedes_trans [] (b ∷ t) (c ∷ u) h k = ground arith
precedes_trans (a ∷ s) [] u h k = ground arith
precedes_trans (a ∷ s) (b ∷ t) [] h k = ground arith
precedes_trans (a ∷ s) (b ∷ t) (c ∷ u) h k = ground (arith, precedes_trans s t u)

pub precedes_irrefl : (s : Bytes) → precedes s s ≡ false
precedes_irrefl s = rw (compare_bytes_refl s)

-- Entries in strictly rising order of their keys.
abbrev pub Ordered : List Encoded → Type 0
Ordered [] = Unit {0}
Ordered (e ∷ []) = Unit {0}
Ordered (e ∷ f ∷ es) = (precedes e.0 f.0 ≡ true) × Ordered (f ∷ es)

negative→at_most_zero : (z : ℤ) → is_negative z ≡ true → is_at_most_zero z ≡ true
negative→at_most_zero (pos n) h = cc
negative→at_most_zero (negsuc n) h = refl

negative→not_zero : (z : ℤ) → is_negative z ≡ true → is_zero z ≡ false
negative→not_zero (pos n) h = cc
negative→not_zero (negsuc n) h = refl

pub sort_entries-Ordered : (es : List Encoded) → Ordered es → sort_entries es ≡ es
unfolding sort_entries
sort_entries-Ordered [] h = refl
sort_entries-Ordered (e ∷ []) h = refl
sort_entries-Ordered (e ∷ f ∷ es) h =
    ap (insert_sorted e) (sort_entries-Ordered (f ∷ es) h.1)
    ∙ rw (negative→at_most_zero (compare_bytes e.0 f.0) h.0)

pub has_duplicate-Ordered : (es : List Encoded) → Ordered es → has_duplicate es ≡ false
unfolding has_duplicate
has_duplicate-Ordered [] h = refl
has_duplicate-Ordered (e ∷ []) h = refl
has_duplicate-Ordered (e ∷ f ∷ es) h =
    rw (negative→not_zero (compare_bytes e.0 f.0) h.0) (has_duplicate-Ordered (f ∷ es) h.1)
