-- ===== src/Proto/Decoder/Invariant.antt =====
-- What holds of a decoder at every moment, and how much it buffers.
use ati_tcp_file_transfer.Base.{ℕ, ◌+◌, ◌≤◌, ◌<◌, ◌≡◌, ◌≢◌, arith}
use ati_tcp_file_transfer.Base.{true, false}
use ati_tcp_file_transfer.Base.{List, length, take, length-append}
use ati_tcp_file_transfer.Proto.Types.{k_header_size}
use ati_tcp_file_transfer.Proto.Frame.Header.{decode_from-within}
use ati_tcp_file_transfer.Proto.Decoder.{
  FrameDecoder, no_error, frame_ready, poisoned, frame_decoder, error_of, try_consume_header, drive,
  append, feed, has_frame, after_take, take_frame,
}

-- The pending length is within the limit; a frame that is ready is wholly in the buffer; an error
-- is recorded exactly when the decoder is poisoned.
pub record IsValid (d : FrameDecoder) : Type 0 where
  pub within : d.pending_header.payload_len ≤ d.max_payload
  pub whole : d.state ≡ frame_ready → d.pending_header.payload_len ≤ length d.buffer
  pub failed_once : d.last_error ≢ no_error → d.state ≡ poisoned
  pub has_error : d.state ≡ poisoned → d.last_error ≢ no_error

drive-IsValid : (d : FrameDecoder) → IsValid d → IsValid (drive d).0
unfolding drive try_consume_header error_of
drive-IsValid d v =
    let within = decode_from-within (take k_header_size d.buffer) d.max_payload in
    record {
      within = ground (arith, within);
      whole = ground (arith, within);
      failed_once = ground arith;
      has_error = ground arith;
    }

pub frame_decoder-IsValid : (max_payload : ℕ) → IsValid (frame_decoder max_payload)
frame_decoder-IsValid m = ground arith

append-IsValid : (d : FrameDecoder) (bytes : List ℕ) → IsValid d → IsValid (append d bytes)
append-IsValid d bytes v = ground (arith, length-append d.buffer bytes)

after_take-IsValid : (d : FrameDecoder) → has_frame d ≡ true → IsValid d → IsValid (after_take d)
unfolding has_frame
after_take-IsValid d r v = ground arith

drive-short :
    (d : FrameDecoder)
    → IsValid d
    → (drive d).1 ≡ true
    → has_frame (drive d).0 ≡ false
    → length (drive d).0.buffer < k_header_size + d.max_payload
unfolding drive try_consume_header has_frame
drive-short d v a r = ground (arith, decode_from-within (take k_header_size d.buffer) d.max_payload)

-- Feeding any bytes keeps the decoder valid.
pub feed-IsValid : (d : FrameDecoder) (bytes : List ℕ) → IsValid d → IsValid (feed d bytes).0
unfolding feed
feed-IsValid d bytes v = ground (arith, drive-IsValid (append d bytes) (append-IsValid d bytes v))

-- Taking the frame that is ready keeps the decoder valid.
pub take_frame-IsValid :
    (d : FrameDecoder) → has_frame d ≡ true → IsValid d → IsValid (take_frame d).1
unfolding take_frame
take_frame-IsValid d r v = drive-IsValid (after_take d) (after_take-IsValid d r v)

-- A valid decoder that accepts a feed and has no frame ready afterwards buffers less than a header
-- and the largest payload.
pub feed-buffer_bound :
    (d : FrameDecoder) (bytes : List ℕ)
    → IsValid d
    → (feed d bytes).1 ≡ true
    → has_frame (feed d bytes).0 ≡ false
    → length (feed d bytes).0.buffer < k_header_size + d.max_payload
unfolding feed
feed-buffer_bound d bytes v a r =
    ground (arith, drive-short (append d bytes) (append-IsValid d bytes v))
