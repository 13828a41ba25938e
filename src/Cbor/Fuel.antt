-- ===== src/Cbor/Fuel.antt =====
-- src/gcp/control/cbor.ts: decoding ends. Every nested call is on fewer bytes, so the fuel that
-- `decode_canonical_cbor` gives never runs out.
use confidential_content_pla.Prelude.{
  ℕ, zero, suc, ◌+◌, ◌-◌, ◌*◌, ◌/◌, ◌%◌, ◌^◌, ◌≤◌, ◌<◌, ◌≡◌, refl, ◌≢◌, inl, inr, Option-cases,
  Bool, false, true, not, List, [], ◌∷◌, arith, length, drop, ok, err, ◌>>=◌, ◌>>◌, guard, ltb,
  ◌==◌, if◌then◌else◌,
}
use mathlib.Core.Path.{subst}
use confidential_content_pla.Cbor.{
  Utf8, CborValue, string, Items, Entries, CborError, out_of_fuel, Bytes, Outcome,
  duplicate_map_key,
}
use confidential_content_pla.Cbor.Decoder.{
  Head, read_head, read_argument, read_bytes, read_text, decode_body, decode_value, decode_items,
  decode_entries, text_key, has_key, enough,
}

abbrev is_fuel_error : CborError → Bool
is_fuel_error out_of_fuel = true
is_fuel_error _ = false

-- The outcome is not the lack of fuel, and a success leaves at most `n` bytes.
abbrev pub Leaves : {A : Type 0} → ℕ → Outcome (A × Bytes) → Type 0
Leaves n (ok r) = length r.1 ≤ n
Leaves n (err e) = is_fuel_error e ≡ false

-- A success leaves fewer than `n` bytes.
abbrev Shrinks : {A : Type 0} → ℕ → Outcome (A × Bytes) → Type 0
Shrinks n (ok r) = length r.1 < n
Shrinks n (err e) = is_fuel_error e ≡ false

Leaves-Shrinks : {A : Type 0} (m n : ℕ) (r : Outcome (A × Bytes)) → Leaves m r → m < n → Shrinks n r
Leaves-Shrinks m n (ok r) l h = omega arith
Leaves-Shrinks m n (err e) l h = l

Shrinks-bind :
    {A B : Type 0} (n m : ℕ) (r : Outcome (A × Bytes)) (k : A × Bytes → Outcome (B × Bytes))
    → Shrinks n r
    → ((a : A) (rest : Bytes) → length rest < n → Leaves m (k (a, rest)))
    → Leaves m (r >>= k)
Shrinks-bind n m (ok r) k l next = next r.0 r.1 l
Shrinks-bind n m (err e) k l next = l

Leaves-bind :
    {A B : Type 0} (n m : ℕ) (r : Outcome (A × Bytes)) (k : A × Bytes → Outcome (B × Bytes))
    → Leaves n r
    → ((a : A) (rest : Bytes) → length rest ≤ n → Leaves m (k (a, rest)))
    → Leaves m (r >>= k)
Leaves-bind n m (ok r) k l next = next r.0 r.1 l
Leaves-bind n m (err e) k l next = l

Leaves-weaken : {A : Type 0} (m n : ℕ) (r : Outcome (A × Bytes)) → Leaves m r → m ≤ n → Leaves n r
Leaves-weaken m n (ok r) l h = omega arith
Leaves-weaken m n (err e) l h = l

-- What holds of both branches holds of the conditional.
if_both : {A : Type 0} (P : A → Type 0) (b : Bool) (x y : A) → P x → P y → P (if b then x else y)
if_both P true x y px py = px
if_both P false x y px py = py

length-drop-le : {A : Type 0} (n : ℕ) (xs : List A) → length (drop n xs) ≤ length xs
length-drop-le zero xs = omega arith
length-drop-le (suc n) [] = omega arith
length-drop-le (suc n) (x ∷ xs) = omega (arith, length-drop-le n xs)

read_bytes-Leaves : (n : ℕ) (bs : Bytes) → Leaves (length bs) (read_bytes n bs)
read_bytes-Leaves n bs = ground (arith, length-drop-le n bs)

-- A head takes at least one byte.
abbrev HeadLeaves : ℕ → Outcome Head → Type 0
HeadLeaves n (ok h) = length h.rest < n
HeadLeaves n (err e) = is_fuel_error e ≡ false

HeadLeaves-bind :
    {A : Type 0} (n : ℕ) (r : Outcome Head) (k : Head → Outcome (A × Bytes))
    → HeadLeaves n r
    → ((h : Head) → length h.rest < n → Shrinks n (k h))
    → Shrinks n (r >>= k)
HeadLeaves-bind n (ok h) k l next = next h l
HeadLeaves-bind n (err e) k l next = l

read_argument-HeadLeaves :
    (major width : ℕ) (bs : Bytes) → HeadLeaves (suc (length bs)) (read_argument major width bs)
read_argument-HeadLeaves major width bs =
    if_both (HeadLeaves (suc (length bs))) (ltb (length bs) width) _ _ refl
      (omega (arith, length-drop-le width bs))

read_head-HeadLeaves : (bs : Bytes) → HeadLeaves (length bs) (read_head bs)
unfolding read_head
read_head-HeadLeaves [] = refl
read_head-HeadLeaves (b ∷ bs) =
    let P = HeadLeaves (suc (length bs)) in
    if_both P (ltb (b % 32) 24) _ _ (omega arith) (
      if_both P (b % 32 == 31) _ _ refl (
        if_both P (ltb 27 (b % 32)) _ _ refl
          (read_argument-HeadLeaves (b / 32) (2 ^ (b % 32 - 24)) bs)))

module _ (U : Utf8) where
  open U use {Text, decode}

  read_text-Leaves : (n : ℕ) (r : Bytes × Bytes) → length r.1 ≤ n → Leaves n (read_text U r)
  read_text-Leaves n r h = elim (Option-cases (decode r.0)) [
    | inl bad ↦ rw (bad, read_text) refl
    | inr (s, good) ↦ rw (good, read_text) h
  ]

  body-Leaves :
      (n : ℕ) (items : ℕ → Bytes → Outcome (Items Text × Bytes))
      (entries : ℕ → Bytes → Outcome (Entries Text × Bytes)) (h : Head)
      → length h.rest ≤ n
      → Leaves n (items h.argument h.rest)
      → Leaves n (entries h.argument h.rest)
      → Leaves n (decode_body U items entries h)
  unfolding decode_body
  body-Leaves n items entries h l li le =
      let P : Outcome (CborValue Text × Bytes) → Type 0 = Leaves n in
      let raw = read_bytes-Leaves h.argument h.rest in
      if_both P (h.major == 0) _ _ l (
        if_both P (h.major == 1) _ _ l (
          if_both P (h.major == 2) _ _
            (Leaves-bind (length h.rest) n (read_bytes h.argument h.rest) _ raw
              (λ a rest k. omega arith))
            (if_both P (h.major == 3) _ _
              (Leaves-bind (length h.rest) n (read_bytes h.argument h.rest) _ raw
                (λ a rest k. read_text-Leaves n (a, rest) (omega arith)))
              (if_both P (h.major == 4) _ _
                (Leaves-bind n n (items h.argument h.rest) _ li (λ a rest k. k))
                (if_both P (h.major == 5) _ _
                  (Leaves-bind n n (entries h.argument h.rest) _ le (λ a rest k. k))
                  (if_both P (h.major == 7) _ _
                    (if_both P (h.argument == 20) _ _ l (
                      if_both P (h.argument == 21) _ _ l (if_both P (h.argument == 22) _ _ l refl)))
                    refl))))))

  key-Leaves :
      {A : Type 0} (n : ℕ) (v : CborValue Text) (k : Text → Outcome (A × Bytes))
      → ((s : Text) → Leaves n (k s))
      → Leaves n (text_key U v >>= k)
  key-Leaves n (string s) k h = h s
  key-Leaves n _ k h = refl

  guard-Leaves :
      {A : Type 0} (n : ℕ) (b : Bool) (r : Outcome (A × Bytes))
      → Leaves n r
      → Leaves n (guard b duplicate_map_key >> r)
  guard-Leaves n true r h = h
  guard-Leaves n false r h = refl

  mutual
    unfolding decode_value decode_items decode_entries

    value-Shrinks :
        (f : ℕ) (bs : Bytes) → 2 * length bs + 1 ≤ f → Shrinks (length bs) (decode_value U f bs)
    value-Shrinks zero bs h = absurd (omega arith)
    value-Shrinks (suc f) bs h =
        HeadLeaves-bind (length bs) (read_head bs) _ (read_head-HeadLeaves bs) (λ d less.
          Leaves-Shrinks (length d.rest) (length bs) _
            (body-Leaves (length d.rest) (decode_items U f) (decode_entries U f []) d (omega arith)
              (items-Leaves f d.argument d.rest (omega arith))
              (entries-Leaves f [] d.argument d.rest (omega arith)))
            less)

    items-Leaves :
        (f n : ℕ) (bs : Bytes) → 2 * length bs + 2 ≤ f → Leaves (length bs) (decode_items U f n bs)
    items-Leaves zero n bs h = absurd (omega arith)
    items-Leaves (suc f) zero bs h = omega arith
    items-Leaves (suc f) (suc n) bs h =
        Shrinks-bind (length bs) (length bs) (decode_value U f bs) _
          (value-Shrinks f bs (omega arith))
          (λ v rest less.
            Leaves-bind (length rest) (length bs) (decode_items U f n rest) _
              (items-Leaves f n rest (omega arith)) (λ vs last l. omega arith))

    entries-Leaves :
        (f : ℕ) (seen : List Text) (n : ℕ) (bs : Bytes)
        → 2 * length bs + 2 ≤ f
        → Leaves (length bs) (decode_entries U f seen n bs)
    entries-Leaves zero seen n bs h = absurd (omega arith)
    entries-Leaves (suc f) seen zero bs h = omega arith
    entries-Leaves (suc f) seen (suc n) bs h =
        Shrinks-bind (length bs) (length bs) (decode_value U f bs) _
          (value-Shrinks f bs (omega arith))
          (λ kv rest less. key-Leaves (length bs) kv _ (λ k.
            guard-Leaves (length bs) (not (has_key U seen k)) _ (
              Shrinks-bind (length rest) (length bs) (decode_value U f rest) _
                (value-Shrinks f rest (omega arith))
                (λ v last l.
                  Leaves-bind (length last) (length bs) (decode_entries U f (k ∷ seen) n last) _
                    (entries-Leaves f (k ∷ seen) n last (omega arith))
                    (λ es end_bytes l'. omega arith)))))

  -- With the fuel that `decode_canonical_cbor` gives, decoding never runs out of fuel, whatever the bytes.
  pub decode_value-ends : (bs : Bytes) → decode_value U (enough U bs) bs ≢ err out_of_fuel
  decode_value-ends bs e =
      let ends : Shrinks (length bs) (decode_value U (enough U bs) bs) =
        value-Shrinks (enough U bs) bs (omega arith) in
      let no : Shrinks {A = CborValue Text} (length bs) (err out_of_fuel) =
        subst (Shrinks (length bs)) e ends in
      cc no
