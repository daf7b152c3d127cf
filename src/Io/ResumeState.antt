-- ===== src/Io/ResumeState.antt =====
-- include/ftx/io/resume_state.hpp and src/lib/io/resume_state.cpp: the bitmap of received chunks and
-- its file format. Its files are in Save.
pub mod Bitmap
pub mod Laws
pub mod Format
pub mod Prefix
pub mod Missing
pub mod Save
use ati_tcp_file_transfer.Base.{
  ℕ, zero, suc, ◌+◌, ◌*◌, ◌/◌, ◌%◌, ◌^◌, ◌==◌, ltb, if◌then◌else◌, not,
}
use ati_tcp_file_transfer.Base.{Bool, true, false, Option, none, some, bit_and, bit_or, bytes_eq}
use ati_tcp_file_transfer.Base.{
  List, [], ◌∷◌, ◌++◌, length, get_or, set, replicate, take, drop, ◌||◌,
}
use ati_tcp_file_transfer.Util.Byteorder.{u32_mod, low_byte, shr}

pub record ResumeState : Type 0 where
  pub manifest_id : List ℕ
  pub chunk_count : ℕ
  pub bitmap : List ℕ

-- `(chunk_count + 7u) / 8u`, in uint32 arithmetic.
unfoldable pub bitmap_bytes : ℕ → ℕ
bitmap_bytes count = (count + 7) % u32_mod / 8

-- `ResumeState()`
abbrev pub empty_state : ResumeState
empty_state = record { manifest_id = replicate 32 0; chunk_count = 0; bitmap = [] }

unfoldable pub resume_state : List ℕ → ℕ → ResumeState
unfolding bitmap_bytes
resume_state id count = record {
  manifest_id = id;
  chunk_count = count;
  bitmap = replicate (bitmap_bytes count) 0;
}

-- `1u << (i % 8u)`
abbrev pub bit_of : ℕ → ℕ
bit_of i = 2 ^ (i % 8)

-- A read past the end of the bitmap, which is undefined in the source, reads 0 here; `Bitmap` shows
-- that there is none.
unfoldable pub is_set : ResumeState → ℕ → Bool
is_set s i =
    if not (ltb i s.chunk_count)
    then false
    else not (bit_and (get_or s.bitmap (i / 8) 0) (bit_of i) == 0)

unfoldable pub mark_received : ResumeState → ℕ → ResumeState
mark_received s i = if not (ltb i s.chunk_count) then s else record s {
  bitmap = set s.bitmap (i / 8) (bit_or (get_or s.bitmap (i / 8) 0) (bit_of i) % 256);
}

-- `for (i = 0; i < chunk_count_; ++i)`: the rounds that are left, and `i`.
unfoldable pub missing_from : ResumeState → ℕ → ℕ → List ℕ
missing_from s zero i = []
missing_from s (suc n) i =
    let others = missing_from s n (i + 1) in if not (is_set s i) then i ∷ others else others

unfoldable pub missing : ResumeState → List ℕ
unfolding missing_from
missing s = missing_from s s.chunk_count 0

unfoldable pub complete_from : ResumeState → ℕ → ℕ → Bool
complete_from s zero i = true
complete_from s (suc n) i =
    let others = complete_from s n (i + 1) in if not (is_set s i) then false else others

unfoldable pub complete : ResumeState → Bool
unfolding complete_from
complete s = complete_from s s.chunk_count 0

abbrev pub k_magic : List ℕ
k_magic = b'F' ∷ b'T' ∷ b'X' ∷ b'S' ∷ []

abbrev pub k_version : ℕ
k_version = 1

-- The four bytes `cc` of `save`, lowest first.
unfoldable pub write_le_u32 : ℕ → List ℕ
write_le_u32 v = low_byte v ∷ low_byte (shr v 8) ∷ low_byte (shr v 16) ∷ low_byte (shr v 24) ∷ []

unfoldable pub read_le_u32 : List ℕ → ℕ
read_le_u32 s =
    bit_or (bit_or (bit_or (get_or s 0 0) (get_or s 1 0 * 2 ^ 8)) (get_or s 2 0 * 2 ^ 16))
      (get_or s 3 0 * 2 ^ 24)

-- What `save` writes to its file.
unfoldable pub serialize : ResumeState → List ℕ
serialize s = k_magic ++ (k_version ∷ (s.manifest_id ++ (write_le_u32 s.chunk_count ++ s.bitmap)))

-- `f.read(buf, n)` and `f.gcount() != n`: the bytes that were read and those behind them.
unfoldable pub read_exactly : ℕ → List ℕ → Option (List ℕ × List ℕ)
read_exactly n s = if ltb (length s) n then none else some (take n s, drop n s)

infixl 5 ◌>>=◌
abbrev pub ◌>>=◌ : {A B : Type 0} → Option A → (A → Option B) → Option B
none >>= f = none
some a >>= f = f a

-- What `load` makes of the bytes of the file; `none` is its answer false.
unfoldable pub deserialize : List ℕ → Option ResumeState
deserialize file = do
  (magic, s₁) ← read_exactly 4 file
  (version, s₂) ← (if not (bytes_eq magic k_magic) then none else read_exactly 1 s₁)
  (id, s₃) ← (if not (get_or version 0 0 == k_version) then none else read_exactly 32 s₂)
  (cc_bytes, s₄) ← read_exactly 4 s₃
  (bitmap, _) ← read_exactly (bitmap_bytes (read_le_u32 cc_bytes)) s₄
  some (record { manifest_id = id; chunk_count = read_le_u32 cc_bytes; bitmap = bitmap })
