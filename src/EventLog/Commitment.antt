-- ===== src/EventLog/Commitment.antt =====
-- src/gateway/eventLog.ts: a log whose RTMR3 entries carry no preimage is told from its register.
use confidential_content_pla.Prelude.{
  ℕ, ◌-◌, ◌^◌, ◌<◌, ◌≡◌, ◌⊎◌, inl, inr, refl, sym, ap, ◌∙◌, Option, none, some, true, false, List,
  [], ◌∷◌, ◌++◌, String, ◌==◌, if◌then◌else◌, zero, suc, default, map, select, length, ltb, All,
  All-halves, All-Member_front, All-Member_back, Member, append-nil, arith,
}
use confidential_content_pla.Prelude.Int.{ℤ, pos, negsuc, is_negative}
use confidential_content_pla.Prelude.Values.{Json}
use confidential_content_pla.EventLog.{
  Bytes, Sha384, DstackEventLogEntry, from_hex, to_hex, zeros, digest_bytes, rtmr_initial_value,
  pad, to_uint32, little_endian, is_clean_hex, extend, replay_register, v1_bytes,
  compute_rtmr3_event_digest_v1, derive, rtmr3_event_digest, unhashable, replayed_digest,
  replay_rtmr,
}
use confidential_content_pla.EventLog.Hex.{from_hex-to_hex, to_hex-from_hex}
use confidential_content_pla.EventLog.Utf8.{Colonless, utf8-colon}
use confidential_content_pla.EventLog.Replay.{Broken, hashed_texts, hash-eq, halves, extend_same}

-- An entry of the first serialization, with a payload that is clean, and no colon in its name.
pub record IsV1 (e : DstackEventLogEntry) : Type 0 where
  pub plain : e.preimage ≡ none
  pub clean : is_clean_hex e.event_payload ≡ true
  pub typed : is_negative e.event_type ≡ false
  pub colonless : Colonless e.event

-- What is measured of an entry.
abbrev pub measured : DstackEventLogEntry → ℕ × String × String
measured e = (to_uint32 e.event_type, e.event, e.event_payload)

to_uint32_small : (z : ℤ) → to_uint32 z < 2 ^ 32
to_uint32_small (pos n) = omega arith
to_uint32_small (negsuc n) = omega arith

little_endian_injective :
    (m n : ℕ) → m < 2 ^ 32 → n < 2 ^ 32 → little_endian m ≡ little_endian n → m ≡ n
little_endian_injective m n h k e = ground arith

module _ (sha : Sha384) where
  open sha use {hash, hash_length, hash_bytes}

  v1_bytes-measured :
      (e f : DstackEventLogEntry)
      → IsV1 e
      → IsV1 f
      → v1_bytes sha e ≡ v1_bytes sha f
      → measured e ≡ measured f
  unfolding v1_bytes
  v1_bytes-measured e f v w h =
      let (types, rest) =
        halves (little_endian (to_uint32 e.event_type)) (little_endian (to_uint32 f.event_type)) _ _
          refl h in
      let (names, payloads) =
        utf8-colon e.event f.event (from_hex e.event_payload) (from_hex f.event_payload) v.colonless
          w.colonless (cc rest) in
      let same_type =
        little_endian_injective (to_uint32 e.event_type) (to_uint32 f.event_type)
          (to_uint32_small e.event_type) (to_uint32_small f.event_type) types in
      let same_payload : e.event_payload ≡ f.event_payload =
        sym (to_hex-from_hex e.event_payload v.clean)
        ∙ ap to_hex payloads
        ∙ to_hex-from_hex f.event_payload w.clean in
      λ i. (same_type i, names i, same_payload i)

  pad_full : (bs : Bytes) → length bs ≡ 48 → pad bs ≡ bs
  unfolding pad
  pad_full bs l = ap (λ n. bs ++ zeros (48 - n)) l ∙ append-nil bs

  module _ (parse_json : Bytes → Option Json) where
    derived :
        (e : DstackEventLogEntry)
        → IsV1 e
        → rtmr3_event_digest sha parse_json e ≡ some (to_hex (hash (v1_bytes sha e)))
    unfolding rtmr3_event_digest compute_rtmr3_event_digest_v1
    derived e v =
        ap (λ b. if b then derive sha parse_json e.preimage e else none) v.clean
        ∙ ap (λ p. derive sha parse_json p e) v.plain
        ∙ ap (λ b. if b then none else some (compute_rtmr3_event_digest_v1 sha e)) v.typed

    -- What an entry extends the register by.
    content :
        (e : DstackEventLogEntry)
        → IsV1 e
        → pad (from_hex (replayed_digest sha parse_json 3 e)) ≡ hash (v1_bytes sha e)
    unfolding replayed_digest
    content e v =
        ap (λ d. pad (from_hex (default (unhashable sha parse_json) d))) (derived e v)
        ∙ ap pad (from_hex-to_hex (hash (v1_bytes sha e)) (hash_bytes (v1_bytes sha e)))
        ∙ pad_full (hash (v1_bytes sha e)) (hash_length (v1_bytes sha e))

    abbrev contents : List DstackEventLogEntry → List Bytes
    contents es = map (λ d. pad (from_hex d)) (map (replayed_digest sha parse_json 3) es)

    -- The same contents are of the same entries, as far as they are measured.
    contents_same :
        (Hashed : Bytes → Type 0) (es fs : List DstackEventLogEntry)
        → All IsV1 es
        → All IsV1 fs
        → All Hashed (map (v1_bytes sha) es)
        → All Hashed (map (v1_bytes sha) fs)
        → contents es ≡ contents fs
        → (map measured es ≡ map measured fs) ⊎ Broken sha Hashed
    contents_same Hashed [] [] v w a b h = inl refl
    contents_same Hashed [] (f ∷ fs) v w a b h = absurd (ground arith)
    contents_same Hashed (e ∷ es) [] v w a b h = absurd (ground arith)
    contents_same Hashed (e ∷ es) (f ∷ fs) v w a b h =
        let first : pad (from_hex (replayed_digest sha parse_json 3 e))
            ≡ pad (from_hex (replayed_digest sha parse_json 3 f)) =
          cc h in
        elim (hash-eq sha Hashed (v1_bytes sha e) (v1_bytes sha f) a.0 b.0
          (sym (content e v.0) ∙ first ∙ content f w.0)) [
            | inl same ↦ elim (contents_same Hashed es fs v.1 w.1 a.1 b.1 (cc h)) [
              | inl rest ↦ inl (cc (v1_bytes-measured e f v.0 w.0 same, rest))
              | inr broken ↦ inr broken
            ]
            | inr broken ↦ inr broken
          ]

    -- A register is bytes, so its hexadecimal text tells it.
    extend_bytes :
        (r : Bytes) (xs : List Bytes)
        → All (λ b. ltb b 256 ≡ true) r
        → All (λ b. ltb b 256 ≡ true) (extend sha r xs)
    unfolding extend
    extend_bytes r [] h = h
    extend_bytes r (x ∷ xs) h = extend_bytes (hash (r ++ x)) xs (hash_bytes (r ++ x))

    zeros_bytes : (n : ℕ) → All (λ b. ltb b 256 ≡ true) (zeros n)
    zeros_bytes zero = tt
    zeros_bytes (suc n) = (refl, zeros_bytes n)

    abbrev register : List DstackEventLogEntry → Bytes
    register es = extend sha rtmr_initial_value (contents es)

    register_bytes : (es : List DstackEventLogEntry) → All (λ b. ltb b 256 ≡ true) (register es)
    unfolding rtmr_initial_value
    register_bytes es = extend_bytes rtmr_initial_value (contents es) (zeros_bytes digest_bytes)

    abbrev pub rtmr3_entries : List DstackEventLogEntry → List DstackEventLogEntry
    rtmr3_entries = select (λ (e : DstackEventLogEntry). e.imr == 3)

    replay_rtmr_lem :
        (es : List DstackEventLogEntry)
        → from_hex (replay_rtmr sha parse_json es 3) ≡ register (rtmr3_entries es)
    unfolding replay_rtmr replay_register
    replay_rtmr_lem es =
        from_hex-to_hex (register (rtmr3_entries es)) (register_bytes (rtmr3_entries es))

    -- What the replay of RTMR3 hashes.
    abbrev pub replayed_texts : List DstackEventLogEntry → List Bytes
    replayed_texts es =
        hashed_texts sha rtmr_initial_value (contents (rtmr3_entries es))
        ++ map (v1_bytes sha) (rtmr3_entries es)

    -- Two logs that replay to one RTMR3 have the same measured entries, or break the hash.
    pub replay-measured :
        (es fs : List DstackEventLogEntry)
        → All IsV1 (rtmr3_entries es)
        → All IsV1 (rtmr3_entries fs)
        → replay_rtmr sha parse_json es 3 ≡ replay_rtmr sha parse_json fs 3
        → (map measured (rtmr3_entries es) ≡ map measured (rtmr3_entries fs))
          ⊎ Broken sha (λ x. Member x (replayed_texts es ++ replayed_texts fs))
    replay-measured es fs v w h =
        let Hashed : Bytes → Type 0 = λ x. Member x (replayed_texts es ++ replayed_texts fs) in
        let (a, c) =
          All-halves Hashed (hashed_texts sha rtmr_initial_value (contents (rtmr3_entries es)))
            (map (v1_bytes sha) (rtmr3_entries es))
            (All-Member_front (replayed_texts es) (replayed_texts fs)) in
        let (b, d) =
          All-halves Hashed (hashed_texts sha rtmr_initial_value (contents (rtmr3_entries fs)))
            (map (v1_bytes sha) (rtmr3_entries fs))
            (All-Member_back (replayed_texts es) (replayed_texts fs)) in
        elim (extend_same sha Hashed (contents (rtmr3_entries es)) (contents (rtmr3_entries fs)) a b
          (sym (replay_rtmr_lem es) ∙ ap from_hex h ∙ replay_rtmr_lem fs)) [
            | inl same ↦ contents_same Hashed (rtmr3_entries es) (rtmr3_entries fs) v w c d same
            | inr broken ↦ inr broken
          ]
