-- ===== src/Cbor/Keys.antt =====
-- src/gcp/control/cbor.ts: the keys of a map, in the order of their encodings.
use confidential_content_pla.Prelude.{
  ◌≡◌, refl, ap, sym, inl, inr, false, true, List, [], ◌∷◌, ◌++◌, length, ok, err, ◌>>=◌,
  Bool-cases, >>=-eq-ok,
}
use confidential_content_pla.Cbor.{
  Utf8, CborValue, Entries, end, entry, Bytes, Encoded, Outcome, head, encode_cbor, encode_entries,
}
use confidential_content_pla.Cbor.Decoder.{has_key}
use mathlib.Core.Path.{subst}
use confidential_content_pla.Cbor.Sorting.{precedes, precedes_trans, precedes_irrefl, Ordered}
use confidential_content_pla.Cbor.Normal.{encode_key, precedes_outcome, RisingKeys}

module _ (U : Utf8) where
  open U use {Text, encode, decode, same, same_iff, IsPlain, decode-encode}

  -- Every key seen so far stands before `k`.
  abbrev pub AllBefore : List Text → Text → Type 0
  AllBefore [] k = Unit {0}
  AllBefore (j ∷ js) k =
      (precedes_outcome U (encode_key U j) (encode_key U k) ≡ true) × AllBefore js k

  abbrev pub Before : List Text → Entries Text → Type 0
  Before seen end = Unit {0}
  Before seen (entry k v es) = AllBefore seen k

  precedes_outcome_trans :
      (s t u : Outcome Bytes)
      → precedes_outcome U s t ≡ true
      → precedes_outcome U t u ≡ true
      → precedes_outcome U s u ≡ true
  precedes_outcome_trans (ok s) (ok t) (ok u) p q = precedes_trans s t u p q
  precedes_outcome_trans (ok s) (ok t) (err e) p q = cc
  precedes_outcome_trans (ok s) (err e) u p q = cc
  precedes_outcome_trans (err e) t u p q = cc

  precedes_outcome_irrefl : (s : Outcome Bytes) → precedes_outcome U s s ≡ false
  precedes_outcome_irrefl (ok s) = precedes_irrefl s
  precedes_outcome_irrefl (err e) = refl

  AllBefore-trans :
      (seen : List Text) (k k' : Text)
      → AllBefore seen k
      → precedes_outcome U (encode_key U k) (encode_key U k') ≡ true
      → AllBefore seen k'
  AllBefore-trans [] k k' a p = tt
  AllBefore-trans (j ∷ js) k k' a p = (
    precedes_outcome_trans (encode_key U j) (encode_key U k) (encode_key U k') a.0 p,
    AllBefore-trans js k k' a.1 p,
  )

  pub Before-next :
      (seen : List Text) (k : Text) (v : CborValue Text) (es : Entries Text)
      → AllBefore seen k
      → RisingKeys U (entry k v es)
      → Before (k ∷ seen) es × RisingKeys U es
  Before-next seen k v end a r = (tt, tt)
  Before-next seen k v (entry k' v' es) a r = ((r.0, AllBefore-trans seen k k' a r.0), r.1)

  pub has_key-AllBefore :
      (seen : List Text) (k : Text) → AllBefore seen k → has_key U seen k ≡ false
  has_key-AllBefore [] k a = refl
  has_key-AllBefore (j ∷ js) k a = elim (Bool-cases (same j k)) [
    | inl equal ↦
        let j_is_k : j ≡ k = (same_iff j k).0 equal in
        let twice =
          subst (λ x. precedes_outcome U (encode_key U x) (encode_key U k) ≡ true) j_is_k a.0 in
        cc (twice, precedes_outcome_irrefl (encode_key U k))
    | inr other ↦ rw other (has_key-AllBefore js k a.1)
  ]

  entry_inversion :
      (k : Text) (v : CborValue Text) (es : Entries Text) (encoded : List Encoded)
      → encode_entries U (entry k v es) ≡ ok encoded
      → (kb b : Bytes) × (rest : List Encoded) × (encode_key U k ≡ ok kb)
        × (encode_entries U es ≡ ok rest)
        × ((kb, b) ∷ rest ≡ encoded)
  unfolding encode_entries
  entry_inversion k v es encoded e =
      let (h, eh, g) =
        >>=-eq-ok (head 3 (length (encode k)))
          (λ h. encode_cbor U v >>= λ b. encode_entries U es >>= λ bs. ok ((h ++ encode k, b) ∷ bs))
          e in
      let (b, eb, g') =
        >>=-eq-ok (encode_cbor U v)
          (λ b. encode_entries U es >>= λ bs. ok ((h ++ encode k, b) ∷ bs)) g in
      let (bs, ebs, g'') =
        >>=-eq-ok (encode_entries U es) (λ bs. ok ((h ++ encode k, b) ∷ bs)) g' in
      (h ++ encode k, b, bs, ap (λ r. r >>= λ x. ok (x ++ encode k)) eh, ebs, cc g'')

  -- The encoded keys of entries that rise are ordered, so sorting leaves them alone.
  pub encode_entries-Ordered :
      (es : Entries Text) (encoded : List Encoded)
      → encode_entries U es ≡ ok encoded
      → RisingKeys U es
      → Ordered encoded
  unfolding encode_entries
  encode_entries-Ordered end encoded e r =
      let listed : [] ≡ encoded = cc e in subst Ordered listed tt
  encode_entries-Ordered (entry k v end) encoded e r =
      let (kb, b, rest, _, er, listed) = entry_inversion k v end encoded e in
      let none_left : [] ≡ rest = cc er in
      subst Ordered listed (subst (λ l. Ordered ((kb, b) ∷ l)) none_left tt)
  encode_entries-Ordered (entry k v (entry k' v' es)) encoded e r =
      let (kb, b, rest, ek, er, listed) = entry_inversion k v (entry k' v' es) encoded e in
      let (kb', b', rest', ek', _, listed') = entry_inversion k' v' es rest er in
      let later : Ordered ((kb', b') ∷ rest') =
        subst Ordered (sym listed') (encode_entries-Ordered (entry k' v' es) rest er r.1) in
      let first : precedes kb kb' ≡ true =
        subst (λ x. precedes_outcome U (ok kb) x ≡ true) ek'
          (subst (λ x. precedes_outcome U x (encode_key U k') ≡ true) ek r.0) in
      subst Ordered listed (subst (λ l. Ordered ((kb, b) ∷ l)) listed' (first, later))
