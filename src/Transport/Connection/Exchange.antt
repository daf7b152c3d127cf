-- ===== src/Transport/Connection/Exchange.antt =====
-- What one side sends the other receives; what is received was sent as a frame; and the connection
-- reads frames as the streaming decoder does.
use ati_tcp_file_transfer.Base.{ℕ, ◌%◌, ◌≤◌, ◌≡◌, ◌≢◌, refl, sym, ap, ◌∙◌, arith}
use ati_tcp_file_transfer.Base.{true, none, some, ◌⊎◌, inl, inr}
use ati_tcp_file_transfer.Base.{List, [], ◌∷◌, ◌++◌, length, take, drop, All, append_assoc}
use ati_tcp_file_transfer.Base.{
  length-append, take-append, drop-append, take-append-drop, length-take, All-take,
}
use ati_tcp_file_transfer.Util.Byteorder.{IsByte, u32_mod}
use ati_tcp_file_transfer.Proto.Types.{FrameType, k_header_size, k_default_max_payload}
use ati_tcp_file_transfer.Proto.Frame.{
  FrameHeader, encode_to, DecodeError, Decoded, header, failed, decode_from, Frame, encode_frame,
}
use ati_tcp_file_transfer.Proto.Frame.Header.{
  length-encode_to, decode_from-encode_to, decode_from_sound, encode_frame_wire,
}
use ati_tcp_file_transfer.Proto.Decoder.{
  frame_decoder, drive, try_consume_header, feed, has_frame, take_frame, after_take,
}
use ati_tcp_file_transfer.Proto.Decoder.Stream.{frame_of}
use ati_tcp_file_transfer.Transport.Connection.{Connection, no_error, send_frame, recv_frame}

-- A send that succeeds has written exactly what `encode_frame` gives for the frame, and has read
-- nothing.
pub send_frame-encode_frame :
    (c c' : Connection) (t : FrameType) (p : List ℕ)
    → send_frame c t p ≡ (c', true)
    → (wire : List ℕ) × (encode_frame t p ≡ some wire)
      × (c'.outgoing ≡ c.outgoing ++ wire)
      × (c'.incoming ≡ c.incoming)
unfolding send_frame encode_frame
send_frame-encode_frame c c' t p e = (
  encode_to (record { payload_len = length p % u32_mod; type = t }) ++ p,
  ground arith,
  ground arith,
  ground arith,
)

-- An encoded frame within the limit that stands at the front of the incoming bytes is received, and
-- nothing but the incoming bytes changes: those behind the frame stay.
pub recv_frame-encode_frame :
    (c : Connection) (m : ℕ) (t : FrameType) (p wire rest : List ℕ)
    → encode_frame t p ≡ some wire
    → length p ≤ m
    → c.incoming ≡ wire ++ rest
    → recv_frame c m ≡ (record c { incoming = rest }, some (frame_of t p))
unfolding recv_frame
recv_frame-encode_frame c m t p wire rest e within arrives = ground (
  arith,
  front,
  length-encode_to h,
  length-append (encode_to h) (p ++ rest),
  length-append p rest,
  take-append k_header_size (encode_to h) (p ++ rest) (length-encode_to h),
  drop-append k_header_size (encode_to h) (p ++ rest) (length-encode_to h),
  take-append (length p) p rest refl,
  drop-append (length p) p rest refl,
  decode_from-encode_to h m (omega (arith, wire_parts.0)),
  no_payload p,
)
  where
    h : FrameHeader
    h = record { payload_len = length p; type = t }

    wire_parts : (length p ≤ k_default_max_payload) × (wire ≡ encode_to h ++ p)
    wire_parts = encode_frame_wire t p wire e

    front : c.incoming ≡ encode_to h ++ (p ++ rest)
    front = arrives ∙ rw (wire_parts.1) (append_assoc (encode_to h) p rest)

    no_payload : (q : List ℕ) → length q ≡ 0 → q ≡ []
    no_payload [] n = refl
    no_payload (x ∷ q) n = absurd (omega arith)

pub Decoded-cases :
    (r : Decoded)
    → ((h : FrameHeader) × (r ≡ header h)) ⊎ ((reason : DecodeError) × (r ≡ failed reason))
Decoded-cases (header h) = inl (h, refl)
Decoded-cases (failed reason) = inr (reason, refl)

-- What `recv_frame` took of the bytes `s` where the header `hdr` was decoded.
received :
    (s : List ℕ) (m : ℕ) (hdr : FrameHeader)
    → All IsByte s
    → k_header_size ≤ length s
    → decode_from (take k_header_size s) m ≡ header hdr
    → (s ≡ encode_to hdr ++ drop k_header_size s) × (hdr.payload_len ≤ m)
received s m hdr h room e =
    let (same, within) =
      decode_from_sound (take k_header_size s) m hdr
        (omega (arith, length-take k_header_size s, room)) (All-take IsByte k_header_size s h) e in
    (
      sym (take-append-drop k_header_size s) ∙ ap (λ t. t ++ drop k_header_size s) (sym same),
      within,
    )

-- If the incoming bytes are bytes, a frame that is received stood at their front as its encoding,
-- with a length within the limit; what is left is what stood behind it, and nothing was written.
pub recv_frame_sound :
    (c c' : Connection) (m : ℕ) (f : Frame)
    → All IsByte c.incoming
    → recv_frame c m ≡ (c', some f)
    → (c.incoming ≡ encode_to f.header ++ (f.payload ++ c'.incoming))
      × (length f.payload ≡ f.header.payload_len)
      × (f.header.payload_len ≤ m)
      × (c'.outgoing ≡ c.outgoing)
unfolding recv_frame
recv_frame_sound c c' m f h e =
    elim (Decoded-cases (decode_from (take k_header_size c.incoming) m)) [
      | inr (reason, r) ↦ absurd (ground arith)
      | inl (hdr, r) ↦ ground (
        arith,
        received c.incoming m hdr h,
        take-append-drop hdr.payload_len (drop k_header_size c.incoming),
        length-take hdr.payload_len (drop k_header_size c.incoming),
      )
    ]

-- Whenever no frame is received, the reason is recorded.
pub recv_frame_error :
    (c : Connection) (m : ℕ) → (recv_frame c m).1 ≡ none → (recv_frame c m).0.last_error ≢ no_error
unfolding recv_frame
recv_frame_error c m e = ground arith

-- If a fresh streaming decoder that is fed the incoming bytes has a frame ready, the connection
-- receives the same frame, and leaves the bytes that the decoder buffers behind it.
pub recv_frame-take_frame :
    (c : Connection) (m : ℕ)
    → has_frame (feed (frame_decoder m) c.incoming).0 ≡ true
    → ((recv_frame c m).1 ≡ some (take_frame (feed (frame_decoder m) c.incoming).0).0)
      × ((recv_frame c m).0.incoming ≡ (after_take (feed (frame_decoder m) c.incoming).0).buffer)
unfolding recv_frame feed drive try_consume_header has_frame take_frame
recv_frame-take_frame c m e = (ground arith, ground arith)
