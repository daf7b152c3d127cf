-- ===== src/Runs/Data.antt =====
-- The inputs of the runs: two frames, a decoder that holds one of them, messages, a resume state.
use ati_tcp_file_transfer.Base.{ℕ, ◌≡◌, refl, arith, List, [], ◌∷◌, ◌++◌, replicate, some}
use ati_tcp_file_transfer.Proto.Types.{FrameType}
use ati_tcp_file_transfer.Proto.Frame.{FrameHeader, encode_to, encode_frame, header, decode_from}
use ati_tcp_file_transfer.Proto.Frame.Header.{decode_from-encode_to}
use ati_tcp_file_transfer.Proto.Decoder.Stream.{encode_all}
use ati_tcp_file_transfer.Io.ResumeState.{ResumeState, resume_state, mark_received}

abbrev pub text : List ℕ
text = b'a' ∷ b'b' ∷ b'c' ∷ []

abbrev pub chunk_header : FrameHeader
chunk_header = record { payload_len = 3; type = FrameType.chunk }

abbrev pub ack_header : FrameHeader
ack_header = record { payload_len = 0; type = FrameType.ack }

abbrev pub chunk_wire : List ℕ
chunk_wire = encode_to chunk_header ++ text

abbrev pub ack_wire : List ℕ
ack_wire = encode_to ack_header ++ []

pub chunk_encoded : encode_frame FrameType.chunk text ≡ some chunk_wire
unfolding encode_frame
chunk_encoded = refl

pub both_encoded :
    encode_all ((FrameType.chunk, text) ∷ (FrameType.ack, []) ∷ [])
    ≡ some (chunk_wire ++ (ack_wire ++ []))
unfolding encode_all encode_frame
both_encoded = refl

pub chunk_decoded : decode_from (encode_to chunk_header) 10 ≡ header chunk_header
chunk_decoded = decode_from-encode_to chunk_header 10 (omega arith)

-- A hash, and the file of three chunks of which the first and the last have arrived.
abbrev pub some_hash : List ℕ
some_hash = replicate 32 7

abbrev pub two_of_three : ResumeState
two_of_three = mark_received (mark_received (resume_state some_hash 3) 0) 2
