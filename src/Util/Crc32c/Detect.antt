-- ===== src/Util/Crc32c/Detect.antt =====
-- What the CRC guarantees: it fits 32 bits, it chains through the seed, and it changes whenever one
-- byte of the data does.
use mathlib.Core.List.{foldl, foldl-append}
use ati_tcp_file_transfer.Base.{ℕ, zero, suc, ◌/◌, ◌^◌, ◌<◌, ◌≡◌, ◌≢◌, sym, ap}
use ati_tcp_file_transfer.Base.{◌∙◌, arith, bit_xor, List, [], ◌∷◌, ◌++◌, All}
use ati_tcp_file_transfer.Base.Bits.{xor_bound, xor_cancel, xor_comm, xor_self, xor_assoc, zero-xor}
use ati_tcp_file_transfer.Util.Byteorder.{IsByte, u32_mod}
use ati_tcp_file_transfer.Util.Crc32c.{
  k_poly_reflected, table_round, table_rounds, complement, crc_byte, crc32c,
}
use ati_tcp_file_transfer.Util.Crc32c.Table.{crc_byte_bitwise, crc_byte-bitwise}

table_round-bound : (c : ℕ) → c < 2 ^ 32 → table_round c < 2 ^ 32
unfolding table_round
table_round-bound c h = ground (arith, xor_bound 32 (c / 2) k_poly_reflected (omega arith))

table_rounds-bound : (k c : ℕ) → c < 2 ^ 32 → table_rounds k c < 2 ^ 32
unfolding table_rounds
table_rounds-bound zero c h = h
table_rounds-bound (suc k) c h = table_rounds-bound k (table_round c) (table_round-bound c h)

crc_byte-bound : (c b : ℕ) → c < 2 ^ 32 → IsByte b → crc_byte c b < 2 ^ 32
unfolding crc_byte_bitwise
crc_byte-bound c b h hb =
    rw (crc_byte-bitwise c b hb)
      (table_rounds-bound 8 (bit_xor c b) (xor_bound 32 c b h (omega arith)))

foldl-bound :
    (bytes : List ℕ) (c : ℕ) → c < 2 ^ 32 → All IsByte bytes → foldl crc_byte c bytes < 2 ^ 32
foldl-bound [] c h k = h
foldl-bound (b ∷ bytes) c h k = foldl-bound bytes (crc_byte c b) (crc_byte-bound c b h k.0) k.1

pub crc32c-bound : (bytes : List ℕ) (seed : ℕ) → crc32c bytes seed < u32_mod
unfolding crc32c
crc32c-bound bytes seed = omega arith

complement_twice : (c : ℕ) → c < 2 ^ 32 → complement (complement c) ≡ c
unfolding complement
complement_twice c h = omega arith

complement-bound : (c : ℕ) → complement c < 2 ^ 32
unfolding complement
complement-bound c = omega arith

-- The seed chains: if `a` holds bytes, the CRC of `b` with the CRC of `a` as its seed is the CRC of
-- `a` followed by `b`, at any first seed.
crc32c-append :
    (a b : List ℕ) (seed : ℕ) → All IsByte a → crc32c b (crc32c a seed) ≡ crc32c (a ++ b) seed
unfolding crc32c
crc32c-append a b seed h = rw (
  complement_twice (foldl crc_byte (complement seed) a)
      (foldl-bound a (complement seed) (complement-bound seed) h),
  foldl-append,
)

no_feedback : (x y : ℕ) → x < 2 ^ 31 → y < 2 ^ 31 → x ≡ bit_xor y k_poly_reflected → ⊥
no_feedback x y hx hy e =
    let poly : bit_xor y x ≡ k_poly_reflected =
      cc (xor_assoc y y k_poly_reflected, xor_self y, zero-xor k_poly_reflected) in
    omega (arith, xor_bound 31 y x hy hx)

-- A round loses nothing of a 32-bit value: the top bit of the result tells what was shifted out.
table_round-injective : (a b : ℕ) → a < 2 ^ 32 → b < 2 ^ 32 → table_round a ≡ table_round b → a ≡ b
unfolding table_round
table_round-injective a b ha hb e = ground (
  arith,
  no_feedback (a / 2) (b / 2) (omega arith) (omega arith),
  no_feedback (b / 2) (a / 2) (omega arith) (omega arith),
  xor_cancel (a / 2) (b / 2) k_poly_reflected,
)

table_rounds-injective :
    (k a b : ℕ) → a < 2 ^ 32 → b < 2 ^ 32 → table_rounds k a ≡ table_rounds k b → a ≡ b
unfolding table_rounds
table_rounds-injective zero a b ha hb e = e
table_rounds-injective (suc k) a b ha hb e = table_round-injective a b ha hb (
    table_rounds-injective k (table_round a) (table_round b) (table_round-bound a ha)
      (table_round-bound b hb) e)

bitwise-injective :
    (c d b b' : ℕ)
    → c < 2 ^ 32
    → d < 2 ^ 32
    → IsByte b
    → IsByte b'
    → crc_byte c b ≡ crc_byte d b'
    → bit_xor c b ≡ bit_xor d b'
unfolding crc_byte_bitwise
bitwise-injective c d b b' hc hd hb hb' e =
    table_rounds-injective 8 (bit_xor c b) (bit_xor d b') (xor_bound 32 c b hc (omega arith))
      (xor_bound 32 d b' hd (omega arith))
      (sym (crc_byte-bitwise c b hb) ∙ e ∙ crc_byte-bitwise d b' hb')

-- Different states stay different over the same bytes.
foldl-injective :
    (bytes : List ℕ) (c d : ℕ)
    → c < 2 ^ 32
    → d < 2 ^ 32
    → All IsByte bytes
    → foldl crc_byte c bytes ≡ foldl crc_byte d bytes
    → c ≡ d
foldl-injective [] c d hc hd h e = e
foldl-injective (b ∷ bytes) c d hc hd h e = xor_cancel c d b (
    bitwise-injective c d b b hc hd h.0 h.0 (
      foldl-injective bytes (crc_byte c b) (crc_byte d b) (crc_byte-bound c b hc h.0)
        (crc_byte-bound d b hd h.0) h.1 e))

complement-injective : (c d : ℕ) → c < 2 ^ 32 → d < 2 ^ 32 → complement c ≡ complement d → c ≡ d
unfolding complement
complement-injective c d hc hd e = omega arith

crc32c-split :
    (front back : List ℕ) (b seed : ℕ)
    → crc32c (front ++ b ∷ back) seed
      ≡ complement (foldl crc_byte (crc_byte (foldl crc_byte (complement seed) front) b) back)
unfolding crc32c
crc32c-split front back b seed =
    ap complement (foldl-append crc_byte (complement seed) front (b ∷ back))

-- Two sequences of bytes that differ in exactly one byte, at any place, have different CRCs.
pub crc32c_detects :
    (front back : List ℕ) (b b' seed : ℕ)
    → All IsByte front
    → All IsByte back
    → IsByte b
    → IsByte b'
    → b ≢ b'
    → crc32c (front ++ b ∷ back) seed ≢ crc32c (front ++ b' ∷ back) seed
crc32c_detects front back b b' seed hf hk hb hb' differ e =
    differ (xor_cancel b b' c (cc (same, xor_comm c b, xor_comm c b')))
  where
    c : ℕ
    c = foldl crc_byte (complement seed) front

    hc : c < 2 ^ 32
    hc = foldl-bound front (complement seed) (complement-bound seed) hf

    run : (x : ℕ) → IsByte x → foldl crc_byte (crc_byte c x) back < 2 ^ 32
    run x hx = foldl-bound back (crc_byte c x) (crc_byte-bound c x hc hx) hk

    states : foldl crc_byte (crc_byte c b) back ≡ foldl crc_byte (crc_byte c b') back
    states =
        complement-injective _ _ (run b hb) (run b' hb')
          (sym (crc32c-split front back b seed) ∙ e ∙ crc32c-split front back b' seed)

    same : bit_xor c b ≡ bit_xor c b'
    same = bitwise-injective c c b b' hc hc hb hb' (
        foldl-injective back (crc_byte c b) (crc_byte c b') (crc_byte-bound c b hc hb)
          (crc_byte-bound c b' hc hb') hk states)
