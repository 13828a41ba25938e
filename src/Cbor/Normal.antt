-- ===== src/Cbor/Normal.antt =====
-- src/gcp/control/cbor.ts: the values that decoding can give, and the size of encodings.
use confidential_content_pla.Prelude.{
  ℕ, ◌≤◌, ◌≡◌, inl, inr, Bool, false, true, List, ◌++◌, arith, length, length-append, ok, err,
  ◌>>=◌, Bool-cases, >>=-eq-ok,
}
use confidential_content_pla.Prelude.Int.{pos, negsuc}
use confidential_content_pla.Cbor.{
  Utf8, CborValue, number, bigint, boolean, null, string, bytes, array, dict, Items, nil, cons,
  Entries, end, entry, Bytes, Encoded, Outcome, duplicate_map_key, item_count, head, is_safe,
  encode_cbor, encode_items, encode_entries, encode_map, sort_entries, has_duplicate,
  concat_entries,
}
use confidential_content_pla.Cbor.Sorting.{precedes}

pub length-head : (major v : ℕ) (h : Bytes) → head major v ≡ ok h → 1 ≤ length h
unfolding head
length-head major v h e = ground arith

module _ (U : Utf8) where
  open U use {Text, encode, IsPlain}

  -- The encoding of a key.
  abbrev pub encode_key : Text → Outcome Bytes
  encode_key k = head 3 (length (encode k)) >>= λ h. ok (h ++ encode k)

  abbrev pub precedes_outcome : Outcome Bytes → Outcome Bytes → Bool
  precedes_outcome (ok s) (ok t) = precedes s t
  precedes_outcome _ _ = false

  abbrev pub RisingKeys : Entries Text → Type 0
  RisingKeys end = Unit {0}
  RisingKeys (entry k v end) = Unit {0}
  RisingKeys (entry k v (entry k' v' es)) =
      (precedes_outcome (encode_key k) (encode_key k') ≡ true) × RisingKeys (entry k' v' es)

  -- Safe integers are numbers and the others bigints, texts are plain, and the keys of a map rise in
  -- the order of their encodings.
  abbrev mutual
    pub IsNormal : CborValue Text → Type 0
    IsNormal (number z) = is_safe z ≡ true
    IsNormal (bigint z) = is_safe z ≡ false
    IsNormal (boolean b) = Unit {0}
    IsNormal null = Unit {0}
    IsNormal (string s) = IsPlain s
    IsNormal (bytes bs) = Unit {0}
    IsNormal (array vs) = AreNormal vs
    IsNormal (dict es) = EntriesNormal es × RisingKeys es

    pub AreNormal : Items Text → Type 0
    AreNormal nil = Unit {0}
    AreNormal (cons v vs) = IsNormal v × AreNormal vs

    pub EntriesNormal : Entries Text → Type 0
    EntriesNormal end = Unit {0}
    EntriesNormal (entry k v es) = IsPlain k × IsNormal v × EntriesNormal es

  length-encode_map : (es : List Encoded) (bs : Bytes) → encode_map es ≡ ok bs → 1 ≤ length bs
  unfolding encode_map
  length-encode_map es bs e = elim (Bool-cases (has_duplicate (sort_entries es))) [
    | inl twice ↦ let no : err duplicate_map_key ≡ ok bs = rw twice at e in cc no
    | inr once ↦
        let (h, f, g) =
          >>=-eq-ok (head 5 (length (sort_entries es)))
            (λ x. ok (x ++ concat_entries (sort_entries es))) (rw once at e) in
        ground (
          arith,
          g,
          length-head 5 (length (sort_entries es)) h f,
          length-append h (concat_entries (sort_entries es)),
        )
  ]

  -- No encoding is empty.
  pub length-encode : (v : CborValue Text) (bs : Bytes) → encode_cbor U v ≡ ok bs → 1 ≤ length bs
  unfolding encode_cbor
  length-encode null bs e = ground arith
  length-encode (boolean true) bs e = ground arith
  length-encode (boolean false) bs e = ground arith
  length-encode (number (pos n)) bs e = ground (arith, length-head 0 n bs)
  length-encode (number (negsuc n)) bs e = ground (arith, length-head 1 n bs)
  length-encode (bigint (pos n)) bs e = ground (arith, length-head 0 n bs)
  length-encode (bigint (negsuc n)) bs e = ground (arith, length-head 1 n bs)
  length-encode (string s) bs e =
      let (h, f, g) = >>=-eq-ok (head 3 (length (encode s))) _ e in
      ground (arith, g, length-head 3 _ h f, length-append h (encode s))
  length-encode (bytes b) bs e =
      let (h, f, g) = >>=-eq-ok (head 2 (length b)) _ e in
      ground (arith, g, length-head 2 _ h f, length-append h b)
  length-encode (array vs) bs e =
      let (h, f, g) = >>=-eq-ok (head 4 (item_count vs)) _ e in
      let (b, f', g') = >>=-eq-ok (encode_items U vs) _ g in
      ground (arith, g', length-head 4 _ h f, length-append h b)
  length-encode (dict es) bs e =
      let (encoded, _, g) = >>=-eq-ok (encode_entries U es) _ e in length-encode_map encoded bs g
