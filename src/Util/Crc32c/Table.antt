-- ===== src/Util/Crc32c/Table.antt =====
-- The table-driven loop computes what the bit-by-bit definition of the CRC does.
use mathlib.Core.List.{foldl}
use ati_tcp_file_transfer.Base.{ℕ, zero, suc, ◌+◌, ◌*◌, ◌/◌, ◌%◌, ◌^◌, ◌<◌, ◌≡◌, refl, ap}
use ati_tcp_file_transfer.Base.{arith, bit_xor, ◌==◌, if◌then◌else◌, List, [], ◌∷◌, get_or, All}
use ati_tcp_file_transfer.Base.Bits.{
  xor_half, xor_parity, xor_swap, xor_self, xor-zero, zero-xor, xor_disjoint, xor_bound, xor_assoc,
  double_shift,
}
use ati_tcp_file_transfer.Util.Byteorder.{IsByte}
use ati_tcp_file_transfer.Util.Crc32c.{
  k_poly_reflected, table_round, table_rounds, build_rows, k_table, complement, crc_byte, crc32c,
}

build_rows-row : (n i j : ℕ) → j < n → get_or (build_rows n i) j 0 ≡ table_rounds 8 (i + j)
unfolding build_rows
build_rows-row zero i j h = elim h [ ]
build_rows-row (suc n) i zero h = let e : i + 0 ≡ i = omega arith in rw e
build_rows-row (suc n) i (suc j) h =
    let e : i + suc j ≡ i + 1 + j = omega arith in rw e (build_rows-row n (i + 1) j (omega arith))

k_table-row : (j : ℕ) → j < 256 → get_or k_table j 0 ≡ table_rounds 8 j
unfolding k_table
k_table-row j h = let e : 0 + j ≡ j = omega arith in rw e at (build_rows-row 256 0 j h)

-- What a round adds to the shifted value.
feedback : ℕ → ℕ
feedback c = if c % 2 == 0 then 0 else k_poly_reflected

table_round-feedback : (c : ℕ) → table_round c ≡ bit_xor (c / 2) (feedback c)
unfolding table_round feedback
table_round-feedback c = ground (arith, xor-zero (c / 2))

feedback-xor : (a b : ℕ) → feedback (bit_xor a b) ≡ bit_xor (feedback a) (feedback b)
unfolding feedback
feedback-xor a b = ground (
  arith,
  xor_parity a b,
  xor-zero k_poly_reflected,
  zero-xor k_poly_reflected,
  xor_self k_poly_reflected,
  zero-xor 0,
)

-- A round is linear over exclusive or.
pub table_round-xor :
    (a b : ℕ) → table_round (bit_xor a b) ≡ bit_xor (table_round a) (table_round b)
table_round-xor a b = cc (
  table_round-feedback (bit_xor a b),
  table_round-feedback a,
  table_round-feedback b,
  xor_half a b,
  feedback-xor a b,
  xor_swap (a / 2) (b / 2) (feedback a) (feedback b),
)

table_rounds-xor :
    (k a b : ℕ) → table_rounds k (bit_xor a b) ≡ bit_xor (table_rounds k a) (table_rounds k b)
unfolding table_rounds
table_rounds-xor zero a b = refl
table_rounds-xor (suc k) a b =
    rw (table_round-xor a b) (table_rounds-xor k (table_round a) (table_round b))

even_round : (n : ℕ) → table_round (2 * n) ≡ n
unfolding table_round
even_round n = ground arith

-- Rounds on a value whose low bits are clear only shift.
table_rounds_shift : (k q : ℕ) → table_rounds k (q * 2 ^ k) ≡ q
unfolding table_rounds
table_rounds_shift zero q = omega arith
table_rounds_shift (suc k) q =
    rw (double_shift q k, even_round (q * 2 ^ k)) (table_rounds_shift k q)

-- Eight rounds shift out the low byte and add its row.
table_rounds-eight : (x : ℕ) → table_rounds 8 x ≡ bit_xor (x / 2 ^ 8) (get_or k_table (x % 256) 0)
table_rounds-eight x =
    let split : bit_xor (x / 2 ^ 8 * 2 ^ 8) (x % 256) ≡ x =
      omega (arith, xor_disjoint 8 (x / 2 ^ 8) (x % 256) (omega arith)) in
    cc (
      split,
      table_rounds-xor 8 (x / 2 ^ 8 * 2 ^ 8) (x % 256),
      table_rounds_shift 8 (x / 2 ^ 8),
      k_table-row (x % 256) (omega arith),
    )

-- The CRC by bits: the byte is added to the low end and shifted out in eight rounds.
unfoldable pub crc_byte_bitwise : ℕ → ℕ → ℕ
crc_byte_bitwise c b = table_rounds 8 (bit_xor c b)

xor_high : (c b : ℕ) → IsByte b → bit_xor c b / 2 ^ 8 ≡ c / 2 ^ 8
xor_high c b h =
    let low = bit_xor (c % 256) b in
    let split : bit_xor (c / 2 ^ 8 * 2 ^ 8) (c % 256) ≡ c =
      omega (arith, xor_disjoint 8 (c / 2 ^ 8) (c % 256) (omega arith)) in
    let fits : low < 2 ^ 8 = xor_bound 8 (c % 256) b (omega arith) h in
    let whole : bit_xor c b ≡ bit_xor (c / 2 ^ 8 * 2 ^ 8) low =
      cc (split, xor_assoc (c / 2 ^ 8 * 2 ^ 8) (c % 256) b) in
    omega (arith, whole, xor_disjoint 8 (c / 2 ^ 8) low fits)

pub crc_byte-bitwise : (c b : ℕ) → IsByte b → crc_byte c b ≡ crc_byte_bitwise c b
unfolding crc_byte crc_byte_bitwise
crc_byte-bitwise c b h = cc (xor_high c b h, table_rounds-eight (bit_xor c b))

unfoldable pub crc32c_bitwise : List ℕ → ℕ → ℕ
unfolding complement
crc32c_bitwise bytes seed = complement (foldl crc_byte_bitwise (complement seed) bytes)

foldl-bitwise :
    (bytes : List ℕ) (c : ℕ)
    → All IsByte bytes
    → foldl crc_byte c bytes ≡ foldl crc_byte_bitwise c bytes
foldl-bitwise [] c h = refl
foldl-bitwise (b ∷ bytes) c h =
    rw (crc_byte-bitwise c b h.0) (foldl-bitwise bytes (crc_byte_bitwise c b) h.1)

-- On bytes, the table-driven CRC is the bit-by-bit CRC with the reflected polynomial, at any seed.
pub crc32c-bitwise :
    (bytes : List ℕ) (seed : ℕ) → All IsByte bytes → crc32c bytes seed ≡ crc32c_bitwise bytes seed
unfolding crc32c crc32c_bitwise
crc32c-bitwise bytes seed h = ap complement (foldl-bitwise bytes (complement seed) h)
