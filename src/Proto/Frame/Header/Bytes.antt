-- ===== src/Proto/Frame/Header/Bytes.antt =====
-- The bytes of the frame header, and how many they are.
use ati_tcp_file_transfer.Base.{ℕ, ◌≡◌, refl, arith}
use ati_tcp_file_transfer.Base.{[], ◌∷◌, length, All}
use ati_tcp_file_transfer.Base.{All-append}
use ati_tcp_file_transfer.Util.Byteorder.{IsByte, write_be_u32}
use ati_tcp_file_transfer.Util.Crc32c.{crc32c}
use ati_tcp_file_transfer.Proto.Types.{type_byte, type_byte-bound, k_header_size}
use ati_tcp_file_transfer.Proto.Frame.{FrameHeader, covered_bytes, encode_to}

pub length-write_be_u32 : (v : ℕ) → length (write_be_u32 v) ≡ 4
unfolding write_be_u32
length-write_be_u32 v = refl

pub write_be_u32-IsByte : (v : ℕ) → All IsByte (write_be_u32 v)
unfolding write_be_u32
write_be_u32-IsByte v = omega arith

pub length-covered_bytes : (h : FrameHeader) → length (covered_bytes h) ≡ 5
unfolding covered_bytes write_be_u32
length-covered_bytes h = refl

pub covered_bytes-IsByte : (h : FrameHeader) → All IsByte (covered_bytes h)
unfolding covered_bytes
covered_bytes-IsByte h =
    All-append IsByte (write_be_u32 h.payload_len) (type_byte h.type ∷ [])
      (write_be_u32-IsByte h.payload_len) (type_byte-bound h.type, tt)

pub length-encode_to : (h : FrameHeader) → length (encode_to h) ≡ k_header_size
unfolding encode_to write_be_u32
length-encode_to h = refl

pub encode_to-IsByte : (h : FrameHeader) → All IsByte (encode_to h)
unfolding encode_to
encode_to-IsByte h =
    All-append IsByte (covered_bytes h) (write_be_u32 (crc32c (covered_bytes h) 0))
      (covered_bytes-IsByte h) (write_be_u32-IsByte (crc32c (covered_bytes h) 0))
