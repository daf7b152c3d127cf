-- ===== src/Proto/Types.antt =====
-- include/ftx/proto/types.hpp and src/lib/proto/types.cpp: frame types, error codes and limits.
use Prim.Native.String.{String}
use ati_tcp_file_transfer.Base.{ℕ, ◌*◌, ◌<◌, ◌≡◌, refl, arith, ◌==◌, ==_iff, ==_self, if◌then◌else◌}
use ati_tcp_file_transfer.Base.{Bool, true, ◌||◌}

pub data FrameType : Type 0 where
  hello manifest req_chunks chunk ack complete error : FrameType

-- `static_cast<uint8_t>(t)`, the enumerator's value.
unfoldable pub type_byte : FrameType → ℕ
type_byte hello = 0x01
type_byte manifest = 0x02
type_byte req_chunks = 0x03
type_byte chunk = 0x04
type_byte ack = 0x05
type_byte complete = 0x06
type_byte error = 0xff

unfoldable pub is_known_frame_type : ℕ → Bool
is_known_frame_type v =
    v == 0x01 || v == 0x02 || v == 0x03 || v == 0x04 || v == 0x05 || v == 0x06 || v == 0xff

-- `static_cast<FrameType>(v)` where `is_known_frame_type(v)`; the source casts no other value.
unfoldable pub cast_frame_type : ℕ → FrameType
cast_frame_type v =
    if v == 0x01
    then hello
    else if v == 0x02
    then manifest
    else if v == 0x03
    then req_chunks
    else if v == 0x04
    then chunk
    else if v == 0x05
    then ack
    else if v == 0x06
    then complete
    else error

unfoldable pub to_string : FrameType → String
to_string hello = "HELLO"
to_string manifest = "MANIFEST"
to_string req_chunks = "REQ_CHUNKS"
to_string chunk = "CHUNK"
to_string ack = "ACK"
to_string complete = "COMPLETE"
to_string error = "ERROR"

-- `t == FrameType::X`, the comparison of two enumerators.
unfoldable pub type_eq : FrameType → FrameType → Bool
unfolding type_byte
type_eq s t = type_byte s == type_byte t

abbrev pub k_protocol_version : ℕ
k_protocol_version = 1

abbrev pub k_header_size : ℕ
k_header_size = 9

abbrev pub k_default_max_payload : ℕ
k_default_max_payload = 64 * 1024 * 1024

pub type_byte-bound : (t : FrameType) → type_byte t < 256
unfolding type_byte
type_byte-bound hello = omega arith
type_byte-bound _ = omega arith

-- Every enumerator's value is known, and the cast gives the enumerator back.
pub known_type_byte :
    (t : FrameType)
    → (is_known_frame_type (type_byte t) ≡ true) × (cast_frame_type (type_byte t) ≡ t)
unfolding type_byte is_known_frame_type cast_frame_type
known_type_byte hello = (refl, refl)
known_type_byte _ = (refl, refl)

-- A known value is that of the enumerator it is cast to.
pub type_byte-cast : (v : ℕ) → is_known_frame_type v ≡ true → type_byte (cast_frame_type v) ≡ v
unfolding type_byte is_known_frame_type cast_frame_type
type_byte-cast v h = ground arith

pub type_eq→eq : (s t : FrameType) → type_eq s t ≡ true → s ≡ t
unfolding type_eq
type_eq→eq s t h =
    cc ((==_iff (type_byte s) (type_byte t)).0 h, (known_type_byte s).1, (known_type_byte t).1)

pub type_eq_self : (t : FrameType) → type_eq t t ≡ true
unfolding type_eq
type_eq_self t = ==_self (type_byte t)
