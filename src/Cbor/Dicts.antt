-- ===== src/Cbor/Dicts.antt =====
-- src/gcp/control/cbor.ts: reading back maps.
use confidential_content_pla.Prelude.{
  ℕ, suc, ◌+◌, ◌-◌, ◌*◌, ◌≤◌, ◌≡◌, refl, ◌∙◌, ap, sym, false, List, [], ◌∷◌, ◌++◌, append_assoc,
  arith, length, length-append, ok, ◌>>=◌, >>=-eq-ok,
}
use confidential_content_pla.Cbor.{
  Utf8, CborValue, string, dict, Entries, entry, Bytes, Encoded, head, encode_cbor, encode_entries,
  encode_map, concat_entries,
}
use confidential_content_pla.Cbor.Decoder.{decode_body, decode_entries, has_key}
use mathlib.Core.Path.{subst}
use confidential_content_pla.Cbor.Sorting.{sort_entries-Ordered, has_duplicate-Ordered}
use confidential_content_pla.Cbor.Normal.{length-head, length-encode, RisingKeys}
use confidential_content_pla.Cbor.Scalars.{Decodes, decode_payload, decode_string}
use confidential_content_pla.Cbor.Keys.{AllBefore, has_key-AllBefore, encode_entries-Ordered}

module _ (U : Utf8) where
  open U use {Text, encode, decode, same, same_iff, IsPlain, decode-encode}

  pub positive_fuel : (f : ℕ) → 1 ≤ f → f ≡ suc (f - 1)
  positive_fuel f h = omega arith

  abbrev pub EntriesDecode : Entries Text → List Encoded → List Text → ℕ → Type 0
  EntriesDecode es encoded seen f =
      (rest : Bytes)
      → decode_entries U f seen (length encoded) (concat_entries encoded ++ rest) ≡ ok (es, rest)

  entry_step :
      (k : Text) (v : CborValue Text) (es : Entries Text) (f : ℕ) (kb b : Bytes)
      (encoded : List Encoded) (seen : List Text)
      → has_key U seen k ≡ false
      → Decodes U (string k) kb f
      → Decodes U v b f
      → EntriesDecode es encoded (k ∷ seen) f
      → EntriesDecode (entry k v es) ((kb, b) ∷ encoded) seen (suc f)
  unfolding decode_entries
  entry_step k v es f kb b encoded seen fresh key value entries rest =
      rw
        (
          append_assoc kb (b ++ concat_entries encoded) rest,
          append_assoc b (concat_entries encoded) rest,
          key (b ++ (concat_entries encoded ++ rest)),
        )
        (rw fresh (rw (value (concat_entries encoded ++ rest)) (rw (entries rest) refl)))

  pub cons_entry :
      (k : Text) (v : CborValue Text) (es : Entries Text) (f : ℕ) (encoded : List Encoded)
      (seen : List Text)
      → IsPlain k
      → AllBefore U seen k
      → ((b : Bytes) → encode_cbor U v ≡ ok b → 2 * length b ≤ f → Decodes U v b f)
      → ((rest : List Encoded)
          → encode_entries U es ≡ ok rest
          → 2 * length (concat_entries rest) + 1 ≤ f
          → EntriesDecode es rest (k ∷ seen) f)
      → encode_entries U (entry k v es) ≡ ok encoded
      → 2 * length (concat_entries encoded) ≤ f
      → EntriesDecode (entry k v es) encoded seen (suc f)
  unfolding decode_entries encode_entries encode_cbor
  cons_entry k v es f encoded seen p a value entries e fuel rest =
      let (h, eh, g) =
        >>=-eq-ok (head 3 (length (encode k)))
          (λ h. encode_cbor U v >>= λ b. encode_entries U es >>= λ bs. ok ((h ++ encode k, b) ∷ bs))
          e in
      let (b, eb, g') =
        >>=-eq-ok (encode_cbor U v)
          (λ b. encode_entries U es >>= λ bs. ok ((h ++ encode k, b) ∷ bs)) g in
      let (bs, ebs, g'') =
        >>=-eq-ok (encode_entries U es) (λ bs. ok ((h ++ encode k, b) ∷ bs)) g' in
      let listed : (h ++ encode k, b) ∷ bs ≡ encoded = cc g'' in
      let key_bytes : 1 ≤ length (h ++ encode k) =
        omega (arith, length-append h (encode k), length-head 3 (length (encode k)) h eh) in
      let value_bytes : 1 ≤ length b = length-encode U v b eb in
      let sizes : length (h ++ encode k) + length b + length (concat_entries bs)
          ≡ length (concat_entries encoded) =
        omega (
          arith,
          ap (λ (l : List Encoded). length (concat_entries l)) listed,
          length-append (h ++ encode k) (b ++ concat_entries bs),
          length-append b (concat_entries bs),
        ) in
      let is_suc : f ≡ suc (f - 1) = positive_fuel f (omega arith) in
      let coded : encode_cbor U (string k) ≡ ok (h ++ encode k) =
        ap (λ r. r >>= λ x. ok (x ++ encode k)) eh in
      let key : Decodes U (string k) (h ++ encode k) f =
        subst (Decodes U (string k) (h ++ encode k)) (sym is_suc)
          (decode_string U k (f - 1) (h ++ encode k) p coded) in
      subst (λ l. EntriesDecode (entry k v es) l seen (suc f)) listed
        (entry_step k v es f (h ++ encode k) b bs seen (has_key-AllBefore U seen k a) key
          (value b eb (omega arith)) (entries bs ebs (omega arith)))
        rest

  pub decode_dict :
      (es : Entries Text) (f : ℕ) (bs : Bytes)
      → ((l : List Encoded)
          → encode_entries U es ≡ ok l
          → 2 * length (concat_entries l) + 1 ≤ f
          → EntriesDecode es l [] f)
      → RisingKeys U es
      → encode_cbor U (dict es) ≡ ok bs
      → 2 * length bs ≤ suc f
      → Decodes U (dict es) bs (suc f)
  unfolding decode_body encode_cbor encode_map
  decode_dict es f bs entries r e fuel rest =
      let (l, el, g) = >>=-eq-ok (encode_entries U es) encode_map e in
      let ordered = encode_entries-Ordered U es l el r in
      let plain : (head 5 (length l) >>= λ h. ok (h ++ concat_entries l)) ≡ ok bs =
        rw (sort_entries-Ordered l ordered, has_duplicate-Ordered l ordered) at g in
      let (h, eh, g') = >>=-eq-ok (head 5 (length l)) (λ h. ok (h ++ concat_entries l)) plain in
      let same_bytes : h ++ concat_entries l ≡ bs = cc g' in
      let there : 2 * length (concat_entries l) + 1 ≤ f = omega (
        arith,
        ap length same_bytes,
        length-append h (concat_entries l),
        length-head 5 (length l) h eh,
      ) in
      rw (← same_bytes) (
        decode_payload U f 5 (length l) h (concat_entries l) rest (omega arith) eh
        ∙ rw (entries l el there rest) refl)
