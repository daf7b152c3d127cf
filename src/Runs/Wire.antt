-- ===== src/Runs/Wire.antt =====
-- Runs of the byte order, the CRC and the frame header.
use ati_tcp_file_transfer.Base.{◌≡◌, ◌≢◌, ◌≤◌, refl, arith, [], ◌∷◌, ◌++◌, All}
use ati_tcp_file_transfer.Util.Byteorder.{IsByte, write_be_u32}
use ati_tcp_file_transfer.Util.Crc32c.{k_table, crc32c}
use ati_tcp_file_transfer.Util.Crc32c.Table.{crc32c_bitwise, crc32c-bitwise}
use ati_tcp_file_transfer.Util.Crc32c.Detect.{crc32c_detects}
use ati_tcp_file_transfer.Proto.Types.{type_byte}
use ati_tcp_file_transfer.Proto.Frame.{covered_bytes, encode_to, decode_from, failed, bad_crc}
use ati_tcp_file_transfer.Proto.Frame.Header.{
  length-encode_to, encode_to-IsByte, decode_from_sound, decode_from_corrupted,
}
use ati_tcp_file_transfer.Runs.Data.{text, chunk_header, chunk_decoded}

-- The check value of CRC-32C.
crc32c_check :
    crc32c (b'1' ∷ b'2' ∷ b'3' ∷ b'4' ∷ b'5' ∷ b'6' ∷ b'7' ∷ b'8' ∷ b'9' ∷ []) 0 ≡ 0xe3069283
unfolding crc32c k_table
crc32c_check = refl

text-IsByte : All IsByte text
text-IsByte = omega arith

crc32c-bitwise_example : crc32c text 0 ≡ crc32c_bitwise text 0
crc32c-bitwise_example = crc32c-bitwise text 0 text-IsByte

crc32c_detects_example : crc32c (text ++ 1 ∷ text) 0 ≢ crc32c (text ++ 3 ∷ text) 0
crc32c_detects_example =
    crc32c_detects text text 1 3 0 text-IsByte text-IsByte (omega arith) (omega arith) (omega arith)

decode_from_sound_example : (encode_to chunk_header ≡ encode_to chunk_header) × (3 ≤ 10)
decode_from_sound_example =
    decode_from_sound (encode_to chunk_header) 10 chunk_header (length-encode_to chunk_header)
      (encode_to-IsByte chunk_header) chunk_decoded

-- The lowest byte of the length, 3, arrives as 2.
decode_from_corrupted_example :
    decode_from
      (((0 ∷ 0 ∷ 0 ∷ []) ++ 2 ∷ 4 ∷ []) ++ write_be_u32 (crc32c (covered_bytes chunk_header) 0))
      10
    ≡ failed bad_crc
unfolding covered_bytes write_be_u32 type_byte
decode_from_corrupted_example =
    decode_from_corrupted chunk_header 10 (0 ∷ 0 ∷ 0 ∷ []) (4 ∷ []) 3 2 refl (omega arith)
      (omega arith)
