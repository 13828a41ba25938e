-- ===== src/Cbor/Canonical.antt =====
-- src/gcp/control/cbor.ts: which bytes `decodeCanonicalCbor` takes.
use confidential_content_pla.Prelude.{
  ◌≡◌, refl, ◌∙◌, ap, sym, inl, inr, [], append-nil, arith, ok, err, ◌>>◌, guard, Bool-cases,
  >>=-eq-ok,
}
use mathlib.Core.Path.{subst}
use confidential_content_pla.Cbor.{
  Utf8, CborValue, Bytes, Outcome, encode_cbor, compare_bytes, is_zero, non_canonical,
}
use confidential_content_pla.Cbor.Decoder.{decode_value, decode_canonical_cbor, enough, all_read}
use confidential_content_pla.Cbor.Sorting.{compare_bytes_refl, compare_bytes-zero→eq}
use confidential_content_pla.Cbor.Normal.{IsNormal}
use confidential_content_pla.Cbor.RoundTrip.{decode-encode_cbor}

module _ (U : Utf8) where
  open U use {Text}

  -- The encoding of a normal value is accepted, and read as that value.
  pub decode_canonical-encode :
      (v : CborValue Text) (bs : Bytes)
      → IsNormal U v
      → encode_cbor U v ≡ ok bs
      → decode_canonical_cbor U bs ≡ ok v
  unfolding decode_canonical_cbor
  decode_canonical-encode v bs n e =
      let read : decode_value U (enough U bs) bs ≡ ok (v, []) =
        subst (λ b. decode_value U (enough U bs) b ≡ ok (v, [])) (append-nil bs)
          (decode-encode_cbor U v bs [] (enough U bs) n e (omega arith)) in
      rw (read, e, compare_bytes_refl bs) refl

  accepted :
      (w v : CborValue Text) (again bs : Bytes)
      → (guard (is_zero (compare_bytes again bs)) non_canonical >> ok w) ≡ ok v
      → (again ≡ bs) × (w ≡ v)
  accepted w v again bs e = elim (Bool-cases (is_zero (compare_bytes again bs))) [
    | inl zero_difference ↦
        let kept : ◌≡◌ {A = Outcome (CborValue Text)} (ok w) (ok v) = rw zero_difference at e in
        (compare_bytes-zero→eq again bs zero_difference, cc kept)
    | inr difference ↦
        let no : ◌≡◌ {A = Outcome (CborValue Text)} (err non_canonical) (ok v) =
          rw difference at e in
        cc no
  ]

  -- What is accepted as a value is the encoding of that value.
  pub encode-decode_canonical :
      (v : CborValue Text) (bs : Bytes)
      → decode_canonical_cbor U bs ≡ ok v
      → encode_cbor U v ≡ ok bs
  unfolding decode_canonical_cbor
  encode-decode_canonical v bs e =
      let (r, _, e') = >>=-eq-ok (decode_value U (enough U bs) bs) _ e in
      let (w, _, e'') = >>=-eq-ok (all_read U r) _ e' in
      let (again, written, e3) = >>=-eq-ok (encode_cbor U w) _ e'' in
      let (same_bytes, w_is_v) = accepted w v again bs e3 in
      let step : encode_cbor U v ≡ encode_cbor U w = ap (encode_cbor U) (sym w_is_v) in
      step ∙ written ∙ ap ok same_bytes

  -- At most one byte string is accepted as a given value.
  pub decode_canonical_unique :
      (v : CborValue Text) (s t : Bytes)
      → decode_canonical_cbor U s ≡ ok v
      → decode_canonical_cbor U t ≡ ok v
      → s ≡ t
  decode_canonical_unique v s t es et =
      let twice : ◌≡◌ {A = Outcome Bytes} (ok s) (ok t) =
        sym (encode-decode_canonical v s es) ∙ encode-decode_canonical v t et in
      cc twice
