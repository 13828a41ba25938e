-- ===== src/Cbor/Heads.antt =====
-- src/gcp/control/cbor.ts: `readHead` reads back what `head` writes.
use confidential_content_pla.Prelude.{
  ℕ, ◌-◌, ◌/◌, ◌%◌, ◌^◌, ◌≤◌, ◌<◌, ◌≡◌, refl, inl, inr, false, true, [], ◌∷◌, ◌++◌, arith, length,
  length-append, take, drop, take_append, drop_append, ok, ltb, leb, Bool-cases, ◌==◌,
}
use mathlib.Core.Path.{subst}
use confidential_content_pla.Cbor.{Bytes, big_endian, initial_byte, head}
use confidential_content_pla.Cbor.Decoder.{read_head, read_argument}
use confidential_content_pla.Cbor.Bytes.{bound, length-big_endian, big_value-big_endian}

take-big_endian : (k v : ℕ) (rest : Bytes) → take k (big_endian k v ++ rest) ≡ big_endian k v
take-big_endian k v rest =
    subst (λ n. take n (big_endian k v ++ rest) ≡ big_endian k v) (length-big_endian k v)
      (take_append (big_endian k v) rest)

drop-big_endian : (k v : ℕ) (rest : Bytes) → drop k (big_endian k v ++ rest) ≡ rest
drop-big_endian k v rest =
    subst (λ n. drop n (big_endian k v ++ rest) ≡ rest) (length-big_endian k v)
      (drop_append (big_endian k v) rest)

read_argument-big_endian :
    (major k v : ℕ) (rest : Bytes)
    → v < bound k
    → read_argument major k (big_endian k v ++ rest)
      ≡ ok (record { major = major; argument = v; rest = rest })
read_argument-big_endian major k v rest h =
    let there : ltb (length (big_endian k v ++ rest)) k ≡ false =
      ground (arith, length-append (big_endian k v) rest, length-big_endian k v) in
    rw (there, take-big_endian k v rest, drop-big_endian k v rest, big_value-big_endian k v h)

abbrev pub Reads : ℕ → ℕ → Bytes → Bytes → Type 0
Reads major v bs rest = read_head bs ≡ ok (record { major = major; argument = v; rest = rest })

-- With a short argument, and with one of each width.
module _ (major : ℕ) (small : major < 8) (v : ℕ) (rest : Bytes) where
  read_short : v < 24 → Reads major v (initial_byte major v ∷ rest) rest
  unfolding read_head
  read_short h =
      let high : initial_byte major v / 32 ≡ major = omega arith in
      let low : initial_byte major v % 32 ≡ v = omega arith in
      let direct : ltb v 24 ≡ true = ground arith in rw (high, low, direct)

  read_wide :
      (information k : ℕ)
      → 24 ≤ information
      → information ≤ 27
      → 2 ^ (information - 24) ≡ k
      → v < bound k
      → Reads major v (initial_byte major information ∷ (big_endian k v ++ rest)) rest
  unfolding read_head
  read_wide i k lo hi w h =
      let high : initial_byte major i / 32 ≡ major = omega arith in
      let low : initial_byte major i % 32 ≡ i = omega arith in
      let not_direct : ltb i 24 ≡ false = ground arith in
      let definite : (i == 31) ≡ false = ground arith in
      let known : ltb 27 i ≡ false = ground arith in
      rw (high, low, not_direct, definite, known, w) (read_argument-big_endian major k v rest h)

  wide_case :
      (information k : ℕ) (h : Bytes)
      → initial_byte major information ∷ big_endian k v ≡ h
      → 24 ≤ information
      → information ≤ 27
      → 2 ^ (information - 24) ≡ k
      → v < bound k
      → Reads major v (h ++ rest) rest
  wide_case i k h e lo hi w b =
      subst (λ x. Reads major v (x ++ rest) rest) e (read_wide i k lo hi w b)

  -- The head that is written for an argument is read back, whatever bytes stand behind it.
  pub read_head-head : (h : Bytes) → head major v ≡ ok h → Reads major v (h ++ rest) rest
  unfolding head
  read_head-head h e = elim (Bool-cases (ltb v 24)) [
    | inl a ↦
        let w : initial_byte major v ∷ [] ≡ h = ground arith in
        subst (λ x. Reads major v (x ++ rest) rest) w (read_short (ground arith))
    | inr a ↦ elim (Bool-cases (leb v 0xff)) [
      | inl b ↦ wide_case 24 1 h (ground arith) (omega arith) (omega arith) refl (ground arith)
      | inr b ↦ elim (Bool-cases (leb v 0xffff)) [
        | inl c ↦ wide_case 25 2 h (ground arith) (omega arith) (omega arith) refl (ground arith)
        | inr c ↦ elim (Bool-cases (leb v 0xffff_ffff)) [
          | inl d ↦ wide_case 26 4 h (ground arith) (omega arith) (omega arith) refl (ground arith)
          | inr d ↦ wide_case 27 8 h (ground arith) (omega arith) (omega arith) refl (ground arith)
        ]
      ]
    ]
  ]
