-- ===== src/Util/Byteorder.antt =====
-- include/ftx/util/byteorder.hpp. A span of bytes is a list of numbers below 256; a writer returns
-- the bytes that the source stores into its fixed-extent destination. `v >> k` is `shr v k`, and
-- `& 0xFF` with the cast to `unsigned char` is `low_byte`.
pub mod RoundTrip
use Prim.Native.Nat.{ℕ, zero, suc}
use mathlib.Core.List.{foldl}
use ati_tcp_file_transfer.Base.{
  ◌+◌, ◌-◌, ◌*◌, ◌/◌, ◌%◌, ◌^◌, ◌<◌, bit_or, List, [], ◌∷◌, get_or, take,
}

abbrev pub IsByte : ℕ → Type 0
IsByte b = b < 256

abbrev pub u16_mod : ℕ
u16_mod = 2 ^ 16

abbrev pub u32_mod : ℕ
u32_mod = 2 ^ 32

abbrev pub u64_mod : ℕ
u64_mod = 2 ^ 64

abbrev pub shr : ℕ → ℕ → ℕ
shr v k = v / 2 ^ k

abbrev pub low_byte : ℕ → ℕ
low_byte v = v % 256

unfoldable pub write_be_u16 : ℕ → List ℕ
write_be_u16 v = low_byte (shr v 8) ∷ low_byte v ∷ []

unfoldable pub write_be_u32 : ℕ → List ℕ
write_be_u32 v = low_byte (shr v 24) ∷ low_byte (shr v 16) ∷ low_byte (shr v 8) ∷ low_byte v ∷ []

-- The loop `for (i = 0; i < 8; ++i)`: the rounds that are left, and `i`.
unfoldable pub write_be_u64_loop : ℕ → ℕ → ℕ → List ℕ
write_be_u64_loop zero i v = []
write_be_u64_loop (suc n) i v = low_byte (shr v (56 - 8 * i)) ∷ write_be_u64_loop n (i + 1) v

unfoldable pub write_be_u64 : ℕ → List ℕ
unfolding write_be_u64_loop
write_be_u64 v = write_be_u64_loop 8 0 v

unfoldable pub read_be_u16 : List ℕ → ℕ
read_be_u16 src = bit_or (get_or src 0 0 * 2 ^ 8) (get_or src 1 0)

unfoldable pub read_be_u32 : List ℕ → ℕ
read_be_u32 src =
    bit_or
      (bit_or (bit_or (get_or src 0 0 * 2 ^ 24) (get_or src 1 0 * 2 ^ 16)) (get_or src 2 0 * 2 ^ 8))
      (get_or src 3 0)

-- `v = (v << 8) | src[i]`; the shift drops the bits above the 64th.
unfoldable pub push_byte : ℕ → ℕ → ℕ
push_byte v b = bit_or (v * 2 ^ 8 % 2 ^ 64) b

unfoldable pub read_be_u64 : List ℕ → ℕ
unfolding push_byte
read_be_u64 src = foldl push_byte 0 (take 8 src)
