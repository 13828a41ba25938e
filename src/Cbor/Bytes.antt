-- ===== src/Cbor/Bytes.antt =====
-- src/gcp/control/cbor.ts: bytes in big-endian order.
use confidential_content_pla.Prelude.{
  ℕ, zero, suc, ◌+◌, ◌*◌, ◌/◌, ◌%◌, ◌<◌, ◌≡◌, refl, ◌∙◌, List, [], ◌∷◌, ◌++◌, arith, length,
  length-append,
}
use confidential_content_pla.Cbor.{big_endian}
use confidential_content_pla.Cbor.Decoder.{big_value}

-- 256 to the power `k`.
abbrev pub bound : ℕ → ℕ
bound zero = 1
bound (suc k) = 256 * bound k

pub length-big_endian : (k v : ℕ) → length (big_endian k v) ≡ k
unfolding big_endian
length-big_endian zero v = refl
length-big_endian (suc k) v =
    omega (
      arith,
      length-append (big_endian k (v / 256)) ((v % 256) ∷ []),
      length-big_endian k (v / 256),
    )

big_value-append :
    (acc : ℕ) (bs : List ℕ) (b : ℕ) → big_value acc (bs ++ b ∷ []) ≡ big_value acc bs * 256 + b
unfolding big_value
big_value-append acc [] b = refl
big_value-append acc (c ∷ bs) b = big_value-append (acc * 256 + c) bs b

pub big_value-big_endian : (k v : ℕ) → v < bound k → big_value 0 (big_endian k v) ≡ v
unfolding big_endian big_value
big_value-big_endian zero v h = omega arith
big_value-big_endian (suc k) v h =
    big_value-append 0 (big_endian k (v / 256)) (v % 256)
    ∙ omega (arith, big_value-big_endian k (v / 256) (omega arith))
