-- ===== src/Cbor/Scalars.antt =====
-- src/gcp/control/cbor.ts: reading back heads, scalars and arrays.
use confidential_content_pla.Prelude.{
  ℕ, suc, ◌+◌, ◌*◌, ◌≤◌, ◌<◌, ◌≡◌, refl, ◌∙◌, ap, false, true, [], ◌∷◌, ◌++◌, append_assoc, arith,
  length, length-append, take_append, drop_append, ok, ◌>>=◌, ltb, if◌then◌else◌, >>=-eq-ok,
}
use confidential_content_pla.Prelude.Int.{ℤ, pos, negsuc}
use confidential_content_pla.Cbor.{
  Utf8, CborValue, number, bigint, boolean, null, string, bytes, array, Items, cons, Bytes, Outcome,
  head, initial_byte, is_safe, encode_int, encode_cbor, encode_items, item_count,
}
use confidential_content_pla.Cbor.Decoder.{
  read_head, read_bytes, read_text, decode_body, decode_value, decode_items, decode_entries,
}
use mathlib.Core.Path.{subst}
use confidential_content_pla.Cbor.Heads.{read_head-head}
use confidential_content_pla.Cbor.Normal.{length-head, length-encode}

read_bytes-append : (bs rest : Bytes) → read_bytes (length bs) (bs ++ rest) ≡ ok (bs, rest)
read_bytes-append bs rest =
    let there : ltb (length (bs ++ rest)) (length bs) ≡ false =
      ground (arith, length-append bs rest) in
    rw (there, take_append bs rest, drop_append bs rest)

module _ (U : Utf8) where
  open U use {Text, encode, decode, same, same_iff, IsPlain, decode-encode}

  abbrev pub Decodes : CborValue Text → Bytes → ℕ → Type 0
  Decodes v bs f = (rest : Bytes) → decode_value U f (bs ++ rest) ≡ ok (v, rest)

  abbrev pub ItemsDecode : Items Text → Bytes → ℕ → Type 0
  ItemsDecode vs bs f =
      (rest : Bytes) → decode_items U f (item_count vs) (bs ++ rest) ≡ ok (vs, rest)

  -- A head is read, and then the payload of its major type.
  decode_headed :
      (f major n : ℕ) (h rest : Bytes)
      → major < 8
      → head major n ≡ ok h
      → decode_value U (suc f) (h ++ rest)
        ≡ decode_body U
            (decode_items U f)
            (decode_entries U f [])
            (record { major = major; argument = n; rest = rest })
  unfolding decode_value
  decode_headed f major n h rest m e = rw (read_head-head major m n rest h e)

  pub decode_payload :
      (f major n : ℕ) (h payload rest : Bytes)
      → major < 8
      → head major n ≡ ok h
      → decode_value U (suc f) ((h ++ payload) ++ rest)
        ≡ decode_body U
            (decode_items U f)
            (decode_entries U f [])
            (record { major = major; argument = n; rest = payload ++ rest })
  decode_payload f major n h payload rest m e =
      rw (append_assoc h payload rest) (decode_headed f major n h (payload ++ rest) m e)

  decode_int :
      (z : ℤ) (f : ℕ) (bs : Bytes)
      → encode_int z ≡ ok bs
      → Decodes (if is_safe z then number z else bigint z) bs (suc f)
  unfolding decode_body
  decode_int (pos n) f bs e rest = decode_headed f 0 n bs rest (omega arith) e ∙ ground arith
  decode_int (negsuc n) f bs e rest = decode_headed f 1 n bs rest (omega arith) e ∙ ground arith

  read_text-encode :
      (s : Text) → IsPlain s → (rest : Bytes) → read_text U (encode s, rest) ≡ ok (string s, rest)
  read_text-encode s p rest = rw (decode-encode s p, read_text)

  pub decode_string :
      (s : Text) (f : ℕ) (bs : Bytes)
      → IsPlain s
      → encode_cbor U (string s) ≡ ok bs
      → Decodes (string s) bs (suc f)
  unfolding decode_body encode_cbor
  decode_string s f bs p e rest =
      let (h, eh, g) = >>=-eq-ok (head 3 (length (encode s))) (λ x. ok (x ++ encode s)) e in
      let same_bytes : h ++ encode s ≡ bs = cc g in
      rw (← same_bytes) (
        decode_payload f 3 (length (encode s)) h (encode s) rest (omega arith) eh
        ∙ rw (read_bytes-append (encode s) rest) (read_text-encode s p rest))

  pub decode_blob :
      (b : Bytes) (f : ℕ) (bs : Bytes)
      → encode_cbor U (bytes b) ≡ ok bs
      → Decodes (bytes b) bs (suc f)
  unfolding decode_body encode_cbor
  decode_blob b f bs e rest =
      let (h, eh, g) = >>=-eq-ok (head 2 (length b)) (λ x. ok (x ++ b)) e in
      let same_bytes : h ++ b ≡ bs = cc g in
      rw (← same_bytes) (
        decode_payload f 2 (length b) h b rest (omega arith) eh
        ∙ rw (read_bytes-append b rest) refl)

  pub decode_array :
      (vs : Items Text) (f : ℕ) (bs : Bytes)
      → ((b : Bytes) → encode_items U vs ≡ ok b → 2 * length b + 1 ≤ f → ItemsDecode vs b f)
      → encode_cbor U (array vs) ≡ ok bs
      → 2 * length bs ≤ suc f
      → Decodes (array vs) bs (suc f)
  unfolding decode_body encode_cbor
  decode_array vs f bs items e fuel rest =
      let (h, eh, g) =
        >>=-eq-ok (head 4 (item_count vs)) (λ x. encode_items U vs >>= λ y. ok (x ++ y)) e in
      let (b, eb, g') = >>=-eq-ok (encode_items U vs) (λ y. ok (h ++ y)) g in
      let same_bytes : h ++ b ≡ bs = cc g' in
      let there : 2 * length b + 1 ≤ f =
        omega
          (arith, ap length same_bytes, length-append h b, length-head 4 (item_count vs) h eh) in
      rw (← same_bytes) (
        decode_payload f 4 (item_count vs) h b rest (omega arith) eh
        ∙ rw (items b eb there rest) refl)

  pub cons_items :
      (v : CborValue Text) (vs : Items Text) (f : ℕ) (bs : Bytes)
      → ((b : Bytes) → encode_cbor U v ≡ ok b → 2 * length b ≤ f → Decodes v b f)
      → ((b : Bytes) → encode_items U vs ≡ ok b → 2 * length b + 1 ≤ f → ItemsDecode vs b f)
      → encode_items U (cons v vs) ≡ ok bs
      → 2 * length bs ≤ f
      → ItemsDecode (cons v vs) bs (suc f)
  unfolding decode_items encode_items
  cons_items v vs f bs value items e fuel rest =
      let (b, eb, g) =
        >>=-eq-ok (encode_cbor U v) (λ x. encode_items U vs >>= λ y. ok (x ++ y)) e in
      let (c, ec, g') = >>=-eq-ok (encode_items U vs) (λ y. ok (b ++ y)) g in
      let same_bytes : b ++ c ≡ bs = cc g' in
      let some_byte : 1 ≤ length b = length-encode U v b eb in
      let sizes : length b + length c ≡ length bs =
        omega (arith, ap length same_bytes, length-append b c) in
      rw (← same_bytes, append_assoc b c rest)
        (rw (value b eb (omega arith) (c ++ rest)) (rw (items c ec (omega arith) rest) refl))

  pub decode_constants :
      (f : ℕ) (rest : Bytes)
      → (decode_value U (suc f) (initial_byte 7 22 ∷ rest) ≡ ok (null, rest))
        × (decode_value U (suc f) (initial_byte 7 21 ∷ rest) ≡ ok (boolean true, rest))
        × (decode_value U (suc f) (initial_byte 7 20 ∷ rest) ≡ ok (boolean false, rest))
  unfolding decode_value read_head decode_body
  decode_constants f rest = (refl, refl, refl)

  pub decode_scalar :
      (v : CborValue Text) (b bs : Bytes) (f : ℕ)
      → ◌≡◌ {A = Outcome Bytes} (ok b) (ok bs)
      → Decodes v b f
      → Decodes v bs f
  decode_scalar v b bs f e d =
      let same_bytes : b ≡ bs = cc e in subst (λ x. Decodes v x f) same_bytes d

  pub decode_number :
      (z : ℤ) (f : ℕ) (bs : Bytes)
      → is_safe z ≡ true
      → encode_cbor U (number z) ≡ ok bs
      → Decodes (number z) bs (suc f)
  unfolding encode_cbor
  decode_number z f bs safe e rest = decode_int z f bs (rw safe at e) rest ∙ rw safe refl

  pub decode_bigint :
      (z : ℤ) (f : ℕ) (bs : Bytes)
      → is_safe z ≡ false
      → encode_cbor U (bigint z) ≡ ok bs
      → Decodes (bigint z) bs (suc f)
  unfolding encode_cbor
  decode_bigint z f bs large e rest = decode_int z f bs e rest ∙ rw large refl
