-- ===== src/EventLog/Replay.antt =====
-- src/gateway/eventLog.ts: two replays that end alike extend a register by the same contents, or show
-- two texts that were hashed alike, or one whose hash is the initial value.
use mathlib.Core.Path.{subst}
use confidential_content_pla.Prelude.{
  ℕ, suc, ◌≤◌, ◌≡◌, ◌≢◌, ◌⊎◌, inl, inr, refl, sym, ap, ◌∙◌, Bool, true, false, ◌&&◌, List, [], ◌∷◌,
  ◌++◌, ==_iff, ◌==◌, length, All, Bool-cases, leb, leb→le, arith,
}
use confidential_content_pla.EventLog.{Bytes, Sha384, extend, rtmr_initial_value}

-- Of the texts that were hashed, two have one hash, or one has the initial value as its hash.
pub data Broken (sha : Sha384) (Hashed : Bytes → Type 0) : Type 0 where
  collision :
      (x y : Bytes) → Hashed x → Hashed y → x ≢ y → sha.hash x ≡ sha.hash y → Broken sha Hashed
  preimage : (x : Bytes) → Hashed x → sha.hash x ≡ rtmr_initial_value → Broken sha Hashed

same_bytes : Bytes → Bytes → Bool
same_bytes [] [] = true
same_bytes (a ∷ s) (b ∷ t) = a == b && same_bytes s t
same_bytes _ _ = false

same_bytes-eq : (s t : Bytes) → same_bytes s t ≡ true → s ≡ t
unfolding same_bytes
same_bytes-eq [] [] h = refl
same_bytes-eq [] (b ∷ t) h = cc h
same_bytes-eq (a ∷ s) [] h = cc h
same_bytes-eq (a ∷ s) (b ∷ t) h = ground (arith, same_bytes-eq s t)

same_bytes_refl : (s : Bytes) → same_bytes s s ≡ true
unfolding same_bytes
same_bytes_refl [] = refl
same_bytes_refl (a ∷ s) = ground (arith, same_bytes_refl s)

differ : (s t : Bytes) → same_bytes s t ≡ false → s ≢ t
differ s t h e = ground (arith, ap (same_bytes s) e, same_bytes_refl s)

pub halves : (r q x y : Bytes) → length r ≡ length q → r ++ x ≡ q ++ y → (r ≡ q) × (x ≡ y)
halves [] [] x y l e = (refl, e)
halves [] (b ∷ q) x y l e = absurd (omega (arith, l))
halves (a ∷ r) [] x y l e = absurd (omega (arith, l))
halves (a ∷ r) (b ∷ q) x y l e =
    let (same, rest) = halves r q x y (omega (arith, l)) (cc e) in (cc (e, same), rest)

-- The texts that extending a register hashes.
abbrev pub hashed_texts : Sha384 → Bytes → List Bytes → List Bytes
hashed_texts sha register [] = []
hashed_texts sha register (content ∷ rest) =
    (register ++ content) ∷ hashed_texts sha (sha.hash (register ++ content)) rest

module _ (sha : Sha384) (Hashed : Bytes → Type 0) where
  open sha use {hash, hash_length}

  -- Equal hashes are of equal texts, or else they break the hash.
  pub hash-eq : (x y : Bytes) → Hashed x → Hashed y → hash x ≡ hash y → (x ≡ y) ⊎ Broken sha Hashed
  hash-eq x y a b e = elim (Bool-cases (same_bytes x y)) [
    | inl same ↦ inl (same_bytes-eq x y same)
    | inr other ↦ inr (collision x y a b (differ x y other) e)
  ]

  -- As many contents: the registers before and the contents are the same.
  extend_even :
      (r q : Bytes) (xs ys : List Bytes)
      → length r ≡ 48
      → length q ≡ 48
      → length xs ≡ length ys
      → All Hashed (hashed_texts sha r xs)
      → All Hashed (hashed_texts sha q ys)
      → extend sha r xs ≡ extend sha q ys
      → ((r ≡ q) × (xs ≡ ys)) ⊎ Broken sha Hashed
  unfolding extend
  extend_even r q [] [] lr lq l a b e = inl (e, refl)
  extend_even r q [] (y ∷ ys) lr lq l a b e = absurd (omega (arith, l))
  extend_even r q (x ∷ xs) [] lr lq l a b e = absurd (omega (arith, l))
  extend_even r q (x ∷ xs) (y ∷ ys) lr lq l a b e =
      elim (extend_even (hash (r ++ x)) (hash (q ++ y)) xs ys (hash_length (r ++ x))
        (hash_length (q ++ y)) (omega (arith, l)) a.1 b.1 e) [
          | inl same ↦ elim (hash-eq (r ++ x) (q ++ y) a.0 b.0 same.0) [
            | inl eq ↦
                let parts = halves r q x y (lr ∙ sym lq) eq in inl (parts.0, cc (parts.1, same.1))
            | inr broken ↦ inr broken
          ]
          | inr broken ↦ inr broken
        ]

  extend-append :
      (r : Bytes) (xs ys : List Bytes) → extend sha r (xs ++ ys) ≡ extend sha (extend sha r xs) ys
  unfolding extend
  extend-append r [] ys = refl
  extend-append r (x ∷ xs) ys = extend-append (hash (r ++ x)) xs ys

  -- A register that was extended is a hash.
  extended :
      (r : Bytes) (x : Bytes) (xs : List Bytes)
      → All Hashed (hashed_texts sha r (x ∷ xs))
      → (z : Bytes) × Hashed z × (extend sha r (x ∷ xs) ≡ hash z)
  unfolding extend
  extended r x [] h = (r ++ x, h.0, refl)
  extended r x (y ∷ xs) h = extended (hash (r ++ x)) y xs h.1

  hashed_texts-append :
      (r : Bytes) (xs ys : List Bytes)
      → All Hashed (hashed_texts sha r (xs ++ ys))
      → All Hashed (hashed_texts sha r xs) × All Hashed (hashed_texts sha (extend sha r xs) ys)
  unfolding extend
  hashed_texts-append r [] ys h = (tt, h)
  hashed_texts-append r (x ∷ xs) ys h =
      let (front, back) = hashed_texts-append (hash (r ++ x)) xs ys h.1 in ((h.0, front), back)

  length-extend : (r : Bytes) (xs : List Bytes) → length r ≡ 48 → length (extend sha r xs) ≡ 48
  unfolding extend
  length-extend r [] l = l
  length-extend r (x ∷ xs) l = length-extend (hash (r ++ x)) xs (hash_length (r ++ x))

  initial_length : length rtmr_initial_value ≡ 48
  unfolding rtmr_initial_value
  initial_length = refl

  abbrev initial : Bytes
  initial = rtmr_initial_value

  -- The contents in front are none, since what they make is the initial value.
  extend_longer :
      (front back ys : List Bytes)
      → length back ≡ length ys
      → All Hashed (hashed_texts sha initial (front ++ back))
      → All Hashed (hashed_texts sha initial ys)
      → extend sha initial (front ++ back) ≡ extend sha initial ys
      → (front ++ back ≡ ys) ⊎ Broken sha Hashed
  extend_longer [] back ys l a b e =
      elim (extend_even initial initial back ys initial_length initial_length l a b e) [
        | inl same ↦ inl same.1
        | inr broken ↦ inr broken
      ]
  extend_longer (x ∷ front) back ys l a b e =
      let (before, after) = hashed_texts-append initial (x ∷ front) back a in
      elim (extend_even (extend sha initial (x ∷ front)) initial back ys
        (length-extend initial (x ∷ front) initial_length) initial_length l after b
        (sym (extend-append initial (x ∷ front) back) ∙ e)) [
          | inl same ↦
              let (z, was, h) = extended initial x front before in
              inr (preimage z was (sym h ∙ same.0))
          | inr broken ↦ inr broken
        ]

  record Ended (n : ℕ) (xs : List Bytes) : Type 0 where
    front : List Bytes
    back : List Bytes
    whole : front ++ back ≡ xs
    long : length back ≡ n

  ends : (n : ℕ) (xs : List Bytes) → n ≤ length xs → Ended n xs
  ends n [] h = record { front = []; back = []; whole = refl; long = omega arith }
  ends n (x ∷ xs) h = elim (Bool-cases (n == suc (length xs))) [
    | inl all ↦ record {
      front = [];
      back = x ∷ xs;
      whole = refl;
      long = sym ((==_iff n (suc (length xs))).0 all);
    }
    | inr less ↦
        let rest = ends n xs (ground arith) in
        record {
          front = x ∷ rest.front;
          back = rest.back;
          whole = ap (◌∷◌ x) rest.whole;
          long = rest.long;
        }
  ]

  longer_same :
      (xs ys : List Bytes)
      → length ys ≤ length xs
      → All Hashed (hashed_texts sha initial xs)
      → All Hashed (hashed_texts sha initial ys)
      → extend sha initial xs ≡ extend sha initial ys
      → (xs ≡ ys) ⊎ Broken sha Hashed
  longer_same xs ys l a b e =
      let d = ends (length ys) xs l in
      let before = subst (λ zs. All Hashed (hashed_texts sha initial zs)) (sym d.whole) a in
      elim (extend_longer d.front d.back ys d.long before b (ap (extend sha initial) d.whole ∙ e)) [
        | inl same ↦ inl (sym d.whole ∙ same)
        | inr broken ↦ inr broken
      ]

  -- Replays that end alike have the same contents, or break the hash.
  pub extend_same :
      (xs ys : List Bytes)
      → All Hashed (hashed_texts sha initial xs)
      → All Hashed (hashed_texts sha initial ys)
      → extend sha initial xs ≡ extend sha initial ys
      → (xs ≡ ys) ⊎ Broken sha Hashed
  extend_same xs ys a b e = elim (Bool-cases (leb (length ys) (length xs))) [
    | inl longer ↦ longer_same xs ys (leb→le _ _ longer) a b e
    | inr shorter ↦ elim (longer_same ys xs (ground arith) b a (sym e)) [
      | inl same ↦ inl (sym same)
      | inr broken ↦ inr broken
    ]
  ]
