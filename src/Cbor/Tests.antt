-- ===== src/Cbor/Tests.antt =====
-- src/gcp/control/cbor.ts: small values, with texts that are their own bytes.
use confidential_content_pla.Prelude.{
  ℕ, ◌≡◌, refl, ◌≢◌, ◌&&◌, some, Bool, true, false, List, [], ◌∷◌, ◌++◌, ◌==◌, ok, err, arith,
}
use confidential_content_pla.Prelude.Int.{pos, negsuc}
use confidential_content_pla.Cbor.{
  Utf8, CborValue, number, null, array, dict, nil, cons, end, entry, Bytes, out_of_fuel,
  non_canonical, encode_cbor, head, encode_map, compare_bytes,
}
use confidential_content_pla.Cbor.Decoder.{decode_value, decode_canonical_cbor, enough}
use confidential_content_pla.Cbor.Normal.{IsNormal}
use confidential_content_pla.Cbor.RoundTrip.{decode-encode_cbor}
use confidential_content_pla.Cbor.Fuel.{decode_value-ends}
use confidential_content_pla.Cbor.Canonical.{
  decode_canonical-encode, encode-decode_canonical, decode_canonical_unique,
}

same_octets : List ℕ → List ℕ → Bool
same_octets [] [] = true
same_octets (a ∷ s) (b ∷ t) = a == b && same_octets s t
same_octets _ _ = false

same_octets→eq : (s t : List ℕ) → same_octets s t ≡ true → s ≡ t
unfolding same_octets
same_octets→eq [] [] h = refl
same_octets→eq (a ∷ s) (b ∷ t) h = ground (arith, same_octets→eq s t)
same_octets→eq _ _ h = cc

same_octets_refl : (s : List ℕ) → same_octets s s ≡ true
unfolding same_octets
same_octets_refl [] = refl
same_octets_refl (a ∷ s) = ground (arith, same_octets_refl s)

abbrev octets : Utf8
octets = record {
  Text = List ℕ;
  encode = λ s. s;
  decode = λ s. some s;
  same = same_octets;
  same_iff = λ s t. (same_octets→eq s t, λ e. rw e (same_octets_refl t));
  IsPlain = λ s. Unit {0};
  decode-encode = λ s p. refl;
}

-- A map with two keys, the shorter first, and a list in it.
abbrev sample : CborValue (List ℕ)
sample = dict (
    entry (b'a' ∷ []) (array (cons (number (pos 500)) (cons null nil)))
      (entry (b'a' ∷ b'b' ∷ []) (number (negsuc 9)) end))

abbrev sample_bytes : Bytes
sample_bytes =
    0xa2 ∷ 0x61 ∷ b'a' ∷ 0x82 ∷ 0x19 ∷ 0x01 ∷ 0xf4 ∷ 0xf6 ∷ 0x62 ∷ b'a' ∷ b'b' ∷ 0x29 ∷ []

sample-encoded : encode_cbor octets sample ≡ ok sample_bytes
unfolding encode_cbor head encode_map
sample-encoded = refl

sample-IsNormal : IsNormal octets sample
unfolding head compare_bytes
sample-IsNormal = (((tt, (refl, (tt, tt)), (tt, refl, tt))), (refl, tt))

read-canonical : decode_canonical_cbor octets sample_bytes ≡ ok sample
unfolding decode_canonical_cbor decode_value encode_cbor head encode_map compare_bytes same_octets
read-canonical = refl

-- The same list with its number in a longer head than needed.
refuses_long_head : decode_canonical_cbor octets (0x81 ∷ 0x18 ∷ 0x05 ∷ []) ≡ err non_canonical
unfolding decode_canonical_cbor decode_value encode_cbor head compare_bytes
refuses_long_head = refl

decode-encode_example : decode_value octets 30 (sample_bytes ++ 0xff ∷ []) ≡ ok (sample, 0xff ∷ [])
decode-encode_example =
    decode-encode_cbor octets sample sample_bytes (0xff ∷ []) 30 sample-IsNormal sample-encoded
      (omega arith)

ends_example : decode_value octets (enough octets sample_bytes) sample_bytes ≢ err out_of_fuel
ends_example = decode_value-ends octets sample_bytes

canonical-encode_example : decode_canonical_cbor octets sample_bytes ≡ ok sample
canonical-encode_example =
    decode_canonical-encode octets sample sample_bytes sample-IsNormal sample-encoded

encode-canonical_example : encode_cbor octets sample ≡ ok sample_bytes
encode-canonical_example = encode-decode_canonical octets sample sample_bytes read-canonical

unique_example : sample_bytes ≡ sample_bytes
unique_example =
    decode_canonical_unique octets sample sample_bytes sample_bytes read-canonical read-canonical
