-- ===== src/Cbor/RoundTrip.antt =====
-- src/gcp/control/cbor.ts: what `encodeCbor` writes for a normal value, `decodeValue` reads back.
use confidential_content_pla.Prelude.{
  ℕ, zero, suc, ◌+◌, ◌-◌, ◌*◌, ◌≤◌, ◌≡◌, refl, sym, false, true, List, [], ◌∷◌, ◌++◌, arith, length,
  ok,
}
use confidential_content_pla.Cbor.{
  Utf8, CborValue, number, bigint, boolean, null, string, bytes, array, dict, Items, nil, cons,
  Entries, end, entry, Bytes, Encoded, initial_byte, encode_cbor, encode_items, encode_entries,
  concat_entries,
}
use confidential_content_pla.Cbor.Decoder.{decode_value, decode_items, decode_entries}
use mathlib.Core.Path.{subst}
use confidential_content_pla.Cbor.Normal.{
  length-encode, RisingKeys, IsNormal, AreNormal, EntriesNormal,
}
use confidential_content_pla.Cbor.Scalars.{
  Decodes, ItemsDecode, decode_string, decode_blob, decode_array, cons_items, decode_constants,
  decode_scalar, decode_number, decode_bigint,
}
use confidential_content_pla.Cbor.Keys.{Before, Before-next}
use confidential_content_pla.Cbor.Dicts.{EntriesDecode, positive_fuel, cons_entry, decode_dict}

module _ (U : Utf8) where
  open U use {Text, encode, decode, same, same_iff, IsPlain, decode-encode}

  Decodes-fuel :
      (v : CborValue Text) (bs : Bytes) (f : ℕ)
      → encode_cbor U v ≡ ok bs
      → 2 * length bs ≤ f
      → (2 * length bs ≤ suc (f - 1) → Decodes U v bs (suc (f - 1)))
      → Decodes U v bs f
  Decodes-fuel v bs f e fuel d =
      let some_byte : 1 ≤ length bs = length-encode U v bs e in
      let is_suc : f ≡ suc (f - 1) = positive_fuel U f (omega arith) in
      subst (Decodes U v bs) (sym is_suc) (d (omega arith))

  Before-none : (es : Entries Text) → Before U [] es
  Before-none end = tt
  Before-none (entry k v es) = tt

  mutual
    unfolding encode_cbor encode_items encode_entries decode_items decode_entries

    decode-encode_step :
        (v : CborValue Text) (bs : Bytes) (f : ℕ)
        → IsNormal U v
        → encode_cbor U v ≡ ok bs
        → 2 * length bs ≤ suc f
        → Decodes U v bs (suc f)
    decode-encode_step null bs f n e fuel =
        decode_scalar U null (initial_byte 7 22 ∷ []) bs (suc f) e
          (λ rest. (decode_constants U f rest).0)
    decode-encode_step (boolean true) bs f n e fuel =
        decode_scalar U (boolean true) (initial_byte 7 21 ∷ []) bs (suc f) e
          (λ rest. (decode_constants U f rest).1)
    decode-encode_step (boolean false) bs f n e fuel =
        decode_scalar U (boolean false) (initial_byte 7 20 ∷ []) bs (suc f) e
          (λ rest. (decode_constants U f rest).2)
    decode-encode_step (number z) bs f n e fuel = decode_number U z f bs n e
    decode-encode_step (bigint z) bs f n e fuel = decode_bigint U z f bs n e
    decode-encode_step (string s) bs f n e fuel = decode_string U s f bs n e
    decode-encode_step (bytes b) bs f n e fuel = decode_blob U b f bs e
    decode-encode_step (array vs) bs f n e fuel =
        decode_array U vs f bs (λ b eb h. decode-encode_items vs b f n eb h) e fuel
    decode-encode_step (dict es) bs f n e fuel =
        decode_dict U es f bs
          (λ l el h. decode-encode_entries es l [] f n.0 n.1 (Before-none es) el h) n.1 e fuel

    decode-encode_items :
        (vs : Items Text) (bs : Bytes) (f : ℕ)
        → AreNormal U vs
        → encode_items U vs ≡ ok bs
        → 2 * length bs + 1 ≤ f
        → ItemsDecode U vs bs f
    decode-encode_items vs bs zero n e fuel rest = absurd (omega arith)
    decode-encode_items nil bs (suc f) n e fuel rest = ground arith
    decode-encode_items (cons v vs) bs (suc f) n e fuel rest =
        cons_items U v vs f bs
          (λ b eb h. Decodes-fuel v b f eb h (λ h'. decode-encode_step v b (f - 1) n.0 eb h'))
          (λ b eb h. decode-encode_items vs b f n.1 eb h) e (omega arith) rest

    decode-encode_entries :
        (es : Entries Text) (encoded : List Encoded) (seen : List Text) (f : ℕ)
        → EntriesNormal U es
        → RisingKeys U es
        → Before U seen es
        → encode_entries U es ≡ ok encoded
        → 2 * length (concat_entries encoded) + 1 ≤ f
        → EntriesDecode U es encoded seen f
    decode-encode_entries es encoded seen zero n r b e fuel rest = absurd (omega arith)
    decode-encode_entries end encoded seen (suc f) n r b e fuel rest =
        let listed : [] ≡ encoded = cc e in
        subst (λ l. EntriesDecode U end l seen (suc f)) listed (λ _. refl) rest
    decode-encode_entries (entry k v es) encoded seen (suc f) n r b e fuel rest =
        let (later, rising) = Before-next U seen k v es b r in
        cons_entry U k v es f encoded seen n.0 b
          (λ x ex h. Decodes-fuel v x f ex h (λ h'. decode-encode_step v x (f - 1) n.1 ex h'))
          (λ l el h. decode-encode_entries es l (k ∷ seen) f n.2 rising later el h) e (omega arith)
          rest

  -- With fuel for its length, the encoding of a normal value is decoded to that value, whatever
  -- bytes stand behind it.
  pub decode-encode_cbor :
      (v : CborValue Text) (bs rest : Bytes) (f : ℕ)
      → IsNormal U v
      → encode_cbor U v ≡ ok bs
      → 2 * length bs ≤ f
      → decode_value U f (bs ++ rest) ≡ ok (v, rest)
  decode-encode_cbor v bs rest f n e fuel =
      Decodes-fuel v bs f e fuel (λ h. decode-encode_step v bs (f - 1) n e h) rest
