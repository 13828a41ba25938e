-- ===== src/Cbor/Decoder.antt =====
-- src/gcp/control/cbor.ts: decoding. The cursor is the list of the bytes that are left.
use confidential_content_pla.Prelude.{
  ℕ, zero, suc, ◌+◌, ◌-◌, ◌*◌, ◌/◌, ◌%◌, ◌^◌, none, some, Bool, true, false, not, ◌||◌, List, [],
  ◌∷◌, ok, err, ◌>>=◌, ◌>>◌, guard, ltb, leb, ◌==◌, if◌then◌else◌, length, take, drop,
}
use confidential_content_pla.Prelude.Int.{pos, negsuc}
use confidential_content_pla.Cbor.{
  Utf8, duplicate_map_key, truncated, indefinite_length, reserved_information, not_text_key,
  not_utf8, unsupported_simple, tag, trailing_bytes, non_canonical, out_of_fuel, CborValue, number,
  bigint, boolean, null, string, bytes, array, dict, Items, nil, cons, Entries, end, entry, Bytes,
  Outcome, max_safe, compare_bytes, is_zero, encode_cbor,
}

-- What `readHead` gives: the major type, the argument and the bytes behind it.
pub record Head : Type 0 where
  pub major : ℕ
  pub argument : ℕ
  pub rest : Bytes

-- `argument = (argument << 8n) | byte`
unfoldable pub big_value : ℕ → Bytes → ℕ
big_value acc [] = acc
big_value acc (b ∷ bs) = big_value (acc * 256 + b) bs

abbrev pub read_argument : ℕ → ℕ → Bytes → Outcome Head
read_argument major width rest =
    if ltb (length rest) width
    then err truncated
    else ok
        (record { major = major; argument = big_value 0 (take width rest); rest = drop width rest })

unfoldable pub read_head : Bytes → Outcome Head
unfolding big_value
read_head [] = err truncated
read_head (initial ∷ rest) =
    let major = initial / 32 in
    let additional = initial % 32 in
    if ltb additional 24
    then ok (record { major = major; argument = additional; rest = rest })
    else if additional == 31
    then err indefinite_length
    else if ltb 27 additional
    then err reserved_information
    else read_argument major (2 ^ (additional - 24)) rest

abbrev pub simple_value : {Text : Type 0} → ℕ → Bytes → Outcome (CborValue Text × Bytes)
simple_value argument rest =
    if argument == 20
    then ok (boolean false, rest)
    else if argument == 21
    then ok (boolean true, rest)
    else if argument == 22
    then ok (null, rest)
    else err unsupported_simple

abbrev pub read_uint : {Text : Type 0} → ℕ → CborValue Text
read_uint n = if leb n max_safe then number (pos n) else bigint (pos n)

abbrev pub read_negint : {Text : Type 0} → ℕ → CborValue Text
read_negint n = if ltb n max_safe then number (negsuc n) else bigint (negsuc n)

abbrev pub read_bytes : ℕ → Bytes → Outcome (Bytes × Bytes)
read_bytes n rest = if ltb (length rest) n then err truncated else ok (take n rest, drop n rest)

module _ (U : Utf8) where
  open U use {Text, encode, decode, same}

  abbrev pub read_text : Bytes × Bytes → Outcome (CborValue Text × Bytes)
  read_text (raw, rest) = elim (decode raw) [ none ↦ err not_utf8 | some s ↦ ok (string s, rest) ]

  abbrev pub has_key : List Text → Text → Bool
  has_key [] k = false
  has_key (j ∷ js) k = same j k || has_key js k

  -- The switch of `decodeValue`; the loops over items and entries are arguments.
  unfoldable pub decode_body :
      (ℕ → Bytes → Outcome (Items Text × Bytes))
      → (ℕ → Bytes → Outcome (Entries Text × Bytes))
      → Head
      → Outcome (CborValue Text × Bytes)
  decode_body items entries h =
      if h.major == 0
      then ok (read_uint h.argument, h.rest)
      else if h.major == 1
      then ok (read_negint h.argument, h.rest)
      else if h.major == 2
      then (read_bytes h.argument h.rest >>= λ r. ok (bytes r.0, r.1))
      else if h.major == 3
      then (read_bytes h.argument h.rest >>= read_text)
      else if h.major == 4
      then (items h.argument h.rest >>= λ r. ok (array r.0, r.1))
      else if h.major == 5
      then (entries h.argument h.rest >>= λ r. ok (dict r.0, r.1))
      else if h.major == 7
      then simple_value h.argument h.rest
      else err tag

  abbrev pub text_key : CborValue Text → Outcome Text
  text_key (string s) = ok s
  text_key v = err not_text_key

  unfoldable mutual
    unfolding decode_body read_head

    pub decode_value : ℕ → Bytes → Outcome (CborValue Text × Bytes)
    decode_value zero bs = err out_of_fuel
    decode_value (suc f) bs = do
      h ← read_head bs
      decode_body (decode_items f) (decode_entries f []) h

    pub decode_items : ℕ → ℕ → Bytes → Outcome (Items Text × Bytes)
    decode_items zero n bs = err out_of_fuel
    decode_items (suc f) zero bs = ok (nil, bs)
    decode_items (suc f) (suc n) bs =
        decode_value f bs >>= λ v. decode_items f n v.1 >>= λ vs. ok (cons v.0 vs.0, vs.1)

    pub decode_entries : ℕ → List Text → ℕ → Bytes → Outcome (Entries Text × Bytes)
    decode_entries zero seen n bs = err out_of_fuel
    decode_entries (suc f) seen zero bs = ok (end, bs)
    decode_entries (suc f) seen (suc n) bs = decode_value f bs >>= λ kv. text_key kv.0 >>= λ k.
        guard (not (has_key seen k)) duplicate_map_key
        >> (decode_value f kv.1 >>= λ v.
            decode_entries f (k ∷ seen) n v.1 >>= λ es. ok (entry k v.0 es.0, es.1))

  -- Each nested call is made with less fuel; `enough bs` suffices for the bytes `bs`.
  abbrev pub enough : Bytes → ℕ
  enough bs = 2 * length bs + 2

  abbrev pub all_read : CborValue Text × Bytes → Outcome (CborValue Text)
  all_read (v, []) = ok v
  all_read (v, b ∷ bs) = err trailing_bytes

  unfoldable pub decode_canonical_cbor : Bytes → Outcome (CborValue Text)
  decode_canonical_cbor bs = do
    read ← decode_value (enough bs) bs
    v ← all_read read
    again ← encode_cbor U v
    guard (is_zero (compare_bytes again bs)) non_canonical
    ok v
