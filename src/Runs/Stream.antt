-- ===== src/Runs/Stream.antt =====
-- Runs of the streaming decoder.
use mathlib.Core.List.{flatten}
use ati_tcp_file_transfer.Base.{◌≡◌, ◌<◌, ◌+◌, refl, sym, arith, true, false, [], ◌∷◌, ◌++◌}
use ati_tcp_file_transfer.Base.{append_assoc, append-nil, length, take-append}
use ati_tcp_file_transfer.Proto.Types.{FrameType, k_header_size}
use ati_tcp_file_transfer.Proto.Frame.{encode_to}
use ati_tcp_file_transfer.Proto.Frame.Header.{decode_from-encode_to, length-encode_to}
use ati_tcp_file_transfer.Proto.Decoder.{
  FrameDecoder, frame_decoder, feed, drive, has_frame, try_consume_header,
}
use ati_tcp_file_transfer.Proto.Decoder.Steps.{feed-append}
use ati_tcp_file_transfer.Proto.Decoder.Invariant.{
  IsValid, frame_decoder-IsValid, feed-IsValid, feed-buffer_bound,
}
use ati_tcp_file_transfer.Proto.Decoder.Stream.{
  frame_of, take_frame-encode_frame, drain, feed_all, drain-feed_all,
}
use ati_tcp_file_transfer.Runs.Data.{
  text, chunk_header, ack_wire, chunk_wire, chunk_encoded, both_encoded,
}

-- The decoder that holds the chunk, and three bytes behind it.
abbrev holding : FrameDecoder
holding = (feed (frame_decoder 10) (chunk_wire ++ text)).0

holding-fed : (feed (frame_decoder 10) (chunk_wire ++ text)).1 ≡ true
holding-fed =
    (take_frame-encode_frame 10 FrameType.chunk text text chunk_wire (omega arith) chunk_encoded).0

holding-ready : has_frame holding ≡ true
holding-ready =
    (take_frame-encode_frame 10 FrameType.chunk text text chunk_wire (omega arith) chunk_encoded).1

-- The first piece ends inside the header of the second frame.
drain-feed_all_example :
    drain 2 (feed_all (frame_decoder 10) (encode_to chunk_header ∷ text ∷ ack_wire ∷ []))
    ≡ (frame_of FrameType.chunk text ∷ frame_of FrameType.ack [] ∷ [], frame_decoder 10)
unfolding flatten
drain-feed_all_example =
    drain-feed_all 10 ((FrameType.chunk, text) ∷ (FrameType.ack, []) ∷ [])
      (chunk_wire ++ (ack_wire ++ [])) (encode_to chunk_header ∷ text ∷ ack_wire ∷ [])
      (omega arith, (omega arith, tt)) both_encoded
      (sym (append_assoc (encode_to chunk_header) text (ack_wire ++ [])))

feed-append_example : feed (frame_decoder 10) ((chunk_wire ++ text) ++ text) ≡ feed holding text
feed-append_example = feed-append (frame_decoder 10) (chunk_wire ++ text) text holding-fed

-- A limit below the announced length poisons the decoder.
refused : (feed (frame_decoder 2) (encode_to chunk_header)).1 ≡ false
unfolding feed drive try_consume_header
refused = ground (
  arith,
  length-encode_to chunk_header,
  append-nil (encode_to chunk_header),
  take-append k_header_size (encode_to chunk_header) [] (length-encode_to chunk_header),
  decode_from-encode_to chunk_header 2 (omega arith),
)

feed-IsValid_example : IsValid holding
feed-IsValid_example =
    feed-IsValid (frame_decoder 10) (chunk_wire ++ text) (frame_decoder-IsValid 10)

holding-IsValid : IsValid holding
holding-IsValid = feed-IsValid (frame_decoder 10) (chunk_wire ++ text) (frame_decoder-IsValid 10)

feed-buffer_bound_example : length (feed (frame_decoder 10) text).0.buffer < 9 + 10
feed-buffer_bound_example =
    feed-buffer_bound (frame_decoder 10) text (frame_decoder-IsValid 10) waits.0 waits.1
  where
    waits :
        ((feed (frame_decoder 10) text).1 ≡ true)
        × (has_frame (feed (frame_decoder 10) text).0 ≡ false)
    waits = unfold feed drive has_frame in (refl, refl)
