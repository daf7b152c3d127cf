-- ===== src/Util/Crc32c.antt =====
-- include/ftx/util/crc32c.hpp and src/lib/util/crc32c.cpp: the table-driven CRC-32C. A uint32 is a
-- number below 2 ^ 32; the shift to the right, the masks and `~` are arithmetic.
pub mod Table
pub mod Detect
use mathlib.Core.List.{foldl}
use ati_tcp_file_transfer.Base.{ℕ, zero, suc, ◌+◌, ◌-◌, ◌/◌, ◌%◌, ◌^◌, bit_xor, ◌==◌}
use ati_tcp_file_transfer.Base.{if◌then◌else◌, List, [], ◌∷◌, get_or}

abbrev pub k_poly_reflected : ℕ
k_poly_reflected = 0x82f63b78

-- One round of the inner loop of `build_table`.
unfoldable pub table_round : ℕ → ℕ
table_round c = if c % 2 == 0 then c / 2 else bit_xor (c / 2) k_poly_reflected

-- `for (k = 0; k < 8; ++k)`, on the rounds that are left.
unfoldable pub table_rounds : ℕ → ℕ → ℕ
table_rounds zero c = c
table_rounds (suc k) c = table_rounds k (table_round c)

-- `for (i = 0; i < 256; ++i)`: the rows that are left, and `i`.
unfoldable pub build_rows : ℕ → ℕ → List ℕ
build_rows zero i = []
build_rows (suc n) i = table_rounds 8 i ∷ build_rows n (i + 1)

unfoldable pub k_table : List ℕ
unfolding build_rows table_rounds table_round
k_table = build_rows 256 0

unfoldable pub complement : ℕ → ℕ
complement c = 2 ^ 32 - 1 - c

-- The body of the loop over the data.
unfoldable pub crc_byte : ℕ → ℕ → ℕ
crc_byte c b = bit_xor (c / 2 ^ 8) (get_or k_table (bit_xor c b % 256) 0)

unfoldable pub crc32c : List ℕ → ℕ → ℕ
unfolding crc_byte complement
crc32c bytes seed = complement (foldl crc_byte (complement seed) bytes)
