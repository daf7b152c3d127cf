-- ===== src/Proto/Frame.antt =====
-- include/ftx/proto/frame.hpp and src/lib/proto/frame.cpp: the 9-byte frame header and one-shot
-- frame encoding. `encode_to` returns the nine bytes that the source stores into its destination;
-- a decode error is the value that the source writes through `err_out` before it returns nullopt.
pub mod Header
use ati_tcp_file_transfer.Base.{ℕ, ◌%◌, ◌==◌, ltb, if◌then◌else◌, not, Option, none, some}
use ati_tcp_file_transfer.Base.{List, [], ◌∷◌, ◌++◌, length, get_or, take, drop}
use ati_tcp_file_transfer.Util.Byteorder.{u32_mod, write_be_u32, read_be_u32}
use ati_tcp_file_transfer.Util.Crc32c.{crc32c}
use ati_tcp_file_transfer.Proto.Types.{
  FrameType, type_byte, is_known_frame_type, cast_frame_type, k_default_max_payload,
}

abbrev pub k_header_crc_offset : ℕ
k_header_crc_offset = 5

abbrev pub k_header_crc_coverage : ℕ
k_header_crc_coverage = 5

pub record FrameHeader : Type 0 where
  pub payload_len : ℕ
  pub type : FrameType

-- The bytes that the CRC covers: length and type.
unfoldable pub covered_bytes : FrameHeader → List ℕ
covered_bytes h = write_be_u32 h.payload_len ++ type_byte h.type ∷ []

unfoldable pub encode_to : FrameHeader → List ℕ
unfolding covered_bytes
encode_to h = covered_bytes h ++ write_be_u32 (crc32c (covered_bytes h) 0)

pub data DecodeError : Type 0 where
  bad_crc unknown_type payload_too_large : DecodeError

pub data Decoded : Type 0 where
  header : FrameHeader → Decoded
  failed : DecodeError → Decoded

unfoldable pub decode_from : List ℕ → ℕ → Decoded
decode_from src max_payload =
    let actual_crc = crc32c (take k_header_crc_coverage src) 0 in
    let expected_crc = read_be_u32 (take 4 (drop k_header_crc_offset src)) in
    let byte = get_or src 4 0 in
    let len = read_be_u32 (take 4 src) in
    if not (expected_crc == actual_crc)
    then failed bad_crc
    else if not (is_known_frame_type byte)
    then failed unknown_type
    else if ltb max_payload len
    then failed payload_too_large
    else header (record { payload_len = len; type = cast_frame_type byte })

pub record Frame : Type 0 where
  pub header : FrameHeader
  pub payload : List ℕ

-- `none` is the exception `std::invalid_argument`.
unfoldable pub encode_frame : FrameType → List ℕ → Option (List ℕ)
encode_frame type payload =
    let hdr : FrameHeader = record { payload_len = length payload % u32_mod; type = type } in
    if ltb k_default_max_payload (length payload) then none else some (encode_to hdr ++ payload)
