-- ===== src/Cbor.antt =====
-- src/gcp/control/cbor.ts: deterministic CBOR. Bytes are numbers below 256. A `number` stands for an
-- integer: a fraction is refused like an unsafe integer. TextEncoder and TextDecoder are an interface.
pub mod Decoder
pub mod Bytes
pub mod Heads
pub mod Sorting
pub mod Normal
pub mod Scalars
pub mod Keys
pub mod Dicts
pub mod RoundTrip
pub mod Fuel
pub mod Canonical
mod Tests
use confidential_content_pla.Prelude.{
  ℕ, zero, suc, ◌+◌, ◌-◌, ◌*◌, ◌/◌, ◌%◌, ◌^◌, ◌≡◌, ◌↔◌, Option, none, some, Bool, true, false, not,
  ◌&&◌, ◌||◌, List, [], ◌∷◌, ◌++◌, Result, ok, err, ◌>>=◌, ◌>>◌, guard, ltb, leb, ◌==◌,
  if◌then◌else◌, length, take, drop,
}
use confidential_content_pla.Prelude.Int.{ℤ, pos, negsuc, sub_ℕ}

-- `encode` is TextEncoder, `decode` a fatal TextDecoder, which refuses what is no UTF-8 and drops a
-- leading byte order mark. A text is plain if it has no lone surrogate and no such mark in front.
pub record Utf8 : Type 1 where
  pub Text : Type 0
  pub encode : Text → List ℕ
  pub decode : List ℕ → Option Text
  pub same : Text → Text → Bool
  pub same_iff : (s t : Text) → (same s t ≡ true) ↔ (s ≡ t)
  pub IsPlain : Text → Type 0
  pub decode-encode : (s : Text) → IsPlain s → decode (encode s) ≡ some s

pub data CborError : Type 0 where
  argument_exceeds_64_bits unsafe_number duplicate_map_key truncated indefinite_length : CborError
  reserved_information not_text_key not_utf8 unsupported_simple tag trailing_bytes : CborError
  non_canonical out_of_fuel : CborError

mutual
  pub data CborValue (Text : Type 0) : Type 0 where
    number : ℤ → CborValue Text
    bigint : ℤ → CborValue Text
    boolean : Bool → CborValue Text
    null : CborValue Text
    string : Text → CborValue Text
    bytes : List ℕ → CborValue Text
    array : Items Text → CborValue Text
    dict : Entries Text → CborValue Text

  pub data Items (Text : Type 0) : Type 0 where
    nil : Items Text
    cons : CborValue Text → Items Text → Items Text

  -- The entries of a Map, in insertion order.
  pub data Entries (Text : Type 0) : Type 0 where
    end : Entries Text
    entry : Text → CborValue Text → Entries Text → Entries Text

abbrev pub item_count : {Text : Type 0} → Items Text → ℕ
item_count nil = 0
item_count (cons v vs) = suc (item_count vs)

abbrev pub Bytes : Type 0
Bytes = List ℕ

abbrev pub Outcome : Type 0 → Type 0
Outcome A = Result CborError A

-- The `k` low bytes of a number, the highest first.
unfoldable pub big_endian : ℕ → ℕ → Bytes
big_endian zero v = []
big_endian (suc k) v = big_endian k (v / 256) ++ (v % 256) ∷ []

-- `(major << 5) | information`
abbrev pub initial_byte : ℕ → ℕ → ℕ
initial_byte major information = major * 32 + information

unfoldable pub head : ℕ → ℕ → Outcome Bytes
unfolding big_endian
head major v =
    if ltb v 24
    then ok (initial_byte major v ∷ [])
    else if leb v 0xff
    then ok (initial_byte major 24 ∷ big_endian 1 v)
    else if leb v 0xffff
    then ok (initial_byte major 25 ∷ big_endian 2 v)
    else if leb v 0xffff_ffff
    then ok (initial_byte major 26 ∷ big_endian 4 v)
    else if leb v 0xffff_ffff_ffff_ffff
    then ok (initial_byte major 27 ∷ big_endian 8 v)
    else err argument_exceeds_64_bits

abbrev pub max_safe : ℕ
max_safe = 9_007_199_254_740_991

-- `Number.isSafeInteger`
abbrev pub is_safe : ℤ → Bool
is_safe (pos n) = leb n max_safe
is_safe (negsuc n) = ltb n max_safe

abbrev pub encode_int : ℤ → Outcome Bytes
encode_int (pos n) = head 0 n
encode_int (negsuc n) = head 1 n

-- `a[i] - b[i]` at the first difference, else the difference of the lengths.
unfoldable pub compare_bytes : Bytes → Bytes → ℤ
compare_bytes (a ∷ s) (b ∷ t) = if a == b then compare_bytes s t else sub_ℕ a b
compare_bytes s t = sub_ℕ (length s) (length t)

abbrev pub is_zero : ℤ → Bool
is_zero (pos n) = n == 0
is_zero (negsuc n) = false

abbrev pub is_at_most_zero : ℤ → Bool
is_at_most_zero (pos n) = n == 0
is_at_most_zero (negsuc n) = true

abbrev pub Encoded : Type 0
Encoded = Bytes × Bytes

-- The sort by encoded keys, which is stable.
unfoldable pub insert_sorted : Encoded → List Encoded → List Encoded
unfolding compare_bytes
insert_sorted e [] = e ∷ []
insert_sorted e (f ∷ fs) =
    if is_at_most_zero (compare_bytes e.0 f.0) then e ∷ f ∷ fs else f ∷ insert_sorted e fs

unfoldable pub sort_entries : List Encoded → List Encoded
unfolding insert_sorted
sort_entries [] = []
sort_entries (e ∷ es) = insert_sorted e (sort_entries es)

unfoldable pub has_duplicate : List Encoded → Bool
unfolding compare_bytes
has_duplicate [] = false
has_duplicate (e ∷ []) = false
has_duplicate (e ∷ f ∷ es) = is_zero (compare_bytes e.0 f.0) || has_duplicate (f ∷ es)

abbrev pub concat_entries : List Encoded → Bytes
concat_entries [] = []
concat_entries ((k, v) ∷ es) = k ++ (v ++ concat_entries es)

unfoldable pub encode_map : List Encoded → Outcome Bytes
unfolding sort_entries has_duplicate head
encode_map es =
    let sorted = sort_entries es in
    if has_duplicate sorted
    then err duplicate_map_key
    else do h ← head 5 (length sorted); ok (h ++ concat_entries sorted)

module _ (U : Utf8) where
  open U use {Text, encode, decode, same}

  unfoldable mutual
    pub encode_cbor : CborValue Text → Outcome Bytes
    encode_cbor null = ok (initial_byte 7 22 ∷ [])
    encode_cbor (boolean true) = ok (initial_byte 7 21 ∷ [])
    encode_cbor (boolean false) = ok (initial_byte 7 20 ∷ [])
    encode_cbor (number z) = if is_safe z then encode_int z else err unsafe_number
    encode_cbor (bigint z) = encode_int z
    encode_cbor (string s) = do h ← head 3 (length (encode s)); ok (h ++ encode s)
    encode_cbor (bytes bs) = do h ← head 2 (length bs); ok (h ++ bs)
    encode_cbor (array vs) = do h ← head 4 (item_count vs); bs ← encode_items vs; ok (h ++ bs)
    encode_cbor (dict es) = do encoded ← encode_entries es; encode_map encoded

    pub encode_items : Items Text → Outcome Bytes
    encode_items nil = ok []
    encode_items (cons v vs) = do b ← encode_cbor v; bs ← encode_items vs; ok (b ++ bs)

    pub encode_entries : Entries Text → Outcome (List Encoded)
    encode_entries end = ok []
    encode_entries (entry k v es) = do
      h ← head 3 (length (encode k))
      b ← encode_cbor v
      bs ← encode_entries es
      ok ((h ++ encode k, b) ∷ bs)
