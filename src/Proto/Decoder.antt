-- ===== src/Proto/Decoder.antt =====
-- include/ftx/proto/decoder.hpp and src/lib/proto/decoder.cpp: the streaming frame decoder. A
-- method returns the new object and its result.
pub mod Steps
pub mod Invariant
pub mod Stream
use Prim.Native.String.{String}
use ati_tcp_file_transfer.Base.{ℕ, zero, suc, ◌==◌, ltb, if◌then◌else◌, Bool, true, false}
use ati_tcp_file_transfer.Base.{List, [], ◌∷◌, ◌++◌, length, take, drop}
use ati_tcp_file_transfer.Proto.Types.{FrameType, k_header_size}
use ati_tcp_file_transfer.Proto.Frame.{FrameHeader, DecodeError, header, failed, decode_from, Frame}

pub data Error : Type 0 where
  no_error bad_crc unknown_type payload_too_large : Error

pub data State : Type 0 where
  reading_header reading_payload frame_ready poisoned : State

pub record FrameDecoder : Type 0 where
  pub max_payload : ℕ
  pub state : State
  pub last_error : Error
  pub buffer : List ℕ
  pub pending_header : FrameHeader

-- `FrameHeader{}`
abbrev pub no_header : FrameHeader
no_header = record { payload_len = 0; type = FrameType.hello }

-- The constructor. The reserved capacity is not modelled.
abbrev pub frame_decoder : ℕ → FrameDecoder
frame_decoder max_payload = record {
  max_payload = max_payload;
  state = reading_header;
  last_error = no_error;
  buffer = [];
  pending_header = no_header;
}

-- The `switch (reason)` of `try_consume_header_`.
unfoldable pub error_of : DecodeError → Error
error_of DecodeError.bad_crc = bad_crc
error_of DecodeError.unknown_type = unknown_type
error_of DecodeError.payload_too_large = payload_too_large

unfoldable pub try_consume_header : FrameDecoder → FrameDecoder × Bool
unfolding error_of
try_consume_header d = elim (decode_from (take k_header_size d.buffer) d.max_payload) [
  | failed reason ↦ (record d { last_error = error_of reason; state = poisoned }, false)
  | header hdr ↦ (
    record d {
      pending_header = hdr;
      buffer = drop k_header_size d.buffer;
      state = if hdr.payload_len == 0 then frame_ready else reading_payload;
    },
    true,
  )
]

-- `while (true) switch (state_)` on the rounds that are left. With none left the model answers as
-- the unreachable last line of the source does.
unfoldable pub drive_loop : ℕ → FrameDecoder → FrameDecoder × Bool
drive_loop zero d = (d, true)
drive_loop (suc rounds) d = elim d.state [
  | poisoned ↦ (d, false)
  | frame_ready ↦ (d, true)
  | reading_header ↦
      if ltb (length d.buffer) k_header_size
      then (d, true)
      else (let (d', consumed) = try_consume_header d in
          let rest = drive_loop rounds d' in if consumed then rest else (d', false))
  | reading_payload ↦
      if ltb (length d.buffer) d.pending_header.payload_len
      then (d, true)
      else (record d { state = frame_ready }, true)
]

-- A header is consumed in the first round at the latest, and the second returns.
unfoldable pub drive : FrameDecoder → FrameDecoder × Bool
unfolding drive_loop
drive d = drive_loop 2 d

-- The insertion of the received bytes at the end of the buffer.
abbrev pub append : FrameDecoder → List ℕ → FrameDecoder
append d bytes = record d { buffer = d.buffer ++ bytes }

unfoldable pub feed : FrameDecoder → List ℕ → FrameDecoder × Bool
feed d bytes = elim d.state [ poisoned ↦ (d, false) | _ ↦ drive (append d bytes) ]

unfoldable pub has_frame : FrameDecoder → Bool
has_frame d = elim d.state [ frame_ready ↦ true | _ ↦ false ]

unfoldable pub is_poisoned : FrameDecoder → Bool
is_poisoned d = elim d.last_error [ no_error ↦ false | _ ↦ true ]

-- What `take_frame` leaves before it advances.
abbrev pub after_take : FrameDecoder → FrameDecoder
after_take d = record d {
  buffer =
      if ltb 0 d.pending_header.payload_len
      then drop d.pending_header.payload_len d.buffer
      else d.buffer;
  pending_header = no_header;
  state = reading_header;
}

unfoldable pub take_frame : FrameDecoder → Frame × FrameDecoder
take_frame d = (
  record {
    header = d.pending_header;
    payload =
        if ltb 0 d.pending_header.payload_len
        then take d.pending_header.payload_len d.buffer
        else [];
  },
  (drive (after_take d)).0,
)

unfoldable pub last_error_message : FrameDecoder → String
last_error_message d = elim d.last_error [
  | no_error ↦ ""
  | bad_crc ↦ "header CRC mismatch"
  | unknown_type ↦ "unknown frame type"
  | payload_too_large ↦ "payload exceeds maximum"
]
