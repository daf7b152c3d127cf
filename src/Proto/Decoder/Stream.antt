-- ===== src/Proto/Decoder/Stream.antt =====
-- A stream of encoded frames, received in pieces of any sizes, is decoded into those frames.
use mathlib.Core.List.{flatten}
use mathlib.Core.Option.{some-injective}
use ati_tcp_file_transfer.Base.{ℕ, zero, suc, ◌≤◌, ◌<◌, ◌≡◌, refl, sym, ap, ◌∙◌, arith}
use ati_tcp_file_transfer.Base.{Bool, true, false, Option, none, some}
use ati_tcp_file_transfer.Base.{List, [], ◌∷◌, ◌++◌, length, map, append-nil}
use ati_tcp_file_transfer.Base.{
  append_assoc, length-append, take-append, drop-append, Bool-cases, Option-cases, inl, inr,
}
use ati_tcp_file_transfer.Util.Byteorder.{u32_mod}
use ati_tcp_file_transfer.Proto.Types.{FrameType, k_header_size, k_default_max_payload}
use ati_tcp_file_transfer.Proto.Frame.{FrameHeader, encode_to, Frame, encode_frame}
use ati_tcp_file_transfer.Proto.Frame.Header.{
  length-encode_to, decode_from-encode_to, encode_frame_wire,
}
use ati_tcp_file_transfer.Proto.Decoder.{
  FrameDecoder, frame_ready, frame_decoder, no_error, try_consume_header, drive, feed, has_frame,
  take_frame,
}
use ati_tcp_file_transfer.Proto.Decoder.Steps.{feed-append, feed-append_poisoned}

abbrev pub frame_of : FrameType → List ℕ → Frame
frame_of t p = record { header = record { payload_len = length p; type = t }; payload = p }

-- The decoder with the frame `t`, `p` ready and `rest` behind it.
abbrev ready : ℕ → FrameType → List ℕ → List ℕ → FrameDecoder
ready m t p rest = record {
  max_payload = m;
  state = frame_ready;
  last_error = no_error;
  buffer = p ++ rest;
  pending_header = record { payload_len = length p; type = t };
}

feed-encode_to :
    (m : ℕ) (t : FrameType) (p rest : List ℕ)
    → length p < u32_mod
    → length p ≤ m
    → feed
        (frame_decoder m)
        (encode_to (record { payload_len = length p; type = t }) ++ (p ++ rest))
      ≡ (ready m t p rest, true)
unfolding feed drive try_consume_header
feed-encode_to m t p rest fits within =
    let h : FrameHeader = record { payload_len = length p; type = t } in
    ground (
      arith,
      length-encode_to h,
      length-append (encode_to h) (p ++ rest),
      length-append p rest,
      take-append k_header_size (encode_to h) (p ++ rest) (length-encode_to h),
      drop-append k_header_size (encode_to h) (p ++ rest) (length-encode_to h),
      decode_from-encode_to h m fits,
    )

take_frame-ready :
    (m : ℕ) (t : FrameType) (p rest : List ℕ)
    → take_frame (ready m t p rest) ≡ (frame_of t p, (feed (frame_decoder m) rest).0)
unfolding take_frame feed
take_frame-ready m t [] rest = refl
take_frame-ready m t (b ∷ p) rest = ground (
  arith,
  take-append (length (b ∷ p)) (b ∷ p) rest refl,
  drop-append (length (b ∷ p)) (b ∷ p) rest refl,
)

-- A fresh decoder that is fed an encoded frame within its limit, and any bytes behind it, accepts
-- them and has that frame ready; taking it gives the frame, and leaves the decoder that the bytes
-- behind it alone would have made.
pub take_frame-encode_frame :
    (m : ℕ) (t : FrameType) (p rest wire : List ℕ)
    → length p ≤ m
    → encode_frame t p ≡ some wire
    → ((feed (frame_decoder m) (wire ++ rest)).1 ≡ true)
      × (has_frame (feed (frame_decoder m) (wire ++ rest)).0 ≡ true)
      × (take_frame (feed (frame_decoder m) (wire ++ rest)).0
          ≡ (frame_of t p, (feed (frame_decoder m) rest).0))
unfolding has_frame
take_frame-encode_frame m t p rest wire within e =
    rw whole ((refl, refl, take_frame-ready m t p rest))
  where
    parts :
        (length p ≤ k_default_max_payload)
        × (wire ≡ encode_to (record { payload_len = length p; type = t }) ++ p)
    parts = encode_frame_wire t p wire e

    whole : feed (frame_decoder m) (wire ++ rest) ≡ (ready m t p rest, true)
    whole = rw (parts.1, append_assoc) (feed-encode_to m t p rest (omega (arith, parts.0)) within)

-- The loop of a caller that pulls every frame that is ready: at most `n`.
unfoldable pub drain : ℕ → FrameDecoder → List Frame × FrameDecoder
drain zero d = ([], d)
drain (suc n) d = elim (has_frame d) [
  | true ↦ let (f, d') = take_frame d in let rest = drain n d' in (f ∷ rest.0, rest.1)
  | false ↦ ([], d)
]

-- Bytes that arrive in pieces.
unfoldable pub feed_all : FrameDecoder → List (List ℕ) → FrameDecoder
feed_all d [] = d
feed_all d (c ∷ chunks) = feed_all (feed d c).0 chunks

-- The frames as they are put on the wire, one after the other.
unfoldable pub encode_all : List (FrameType × List ℕ) → Option (List ℕ)
encode_all [] = some []
encode_all ((t, p) ∷ frames) = elim (encode_frame t p) [
  | none ↦ none
  | some wire ↦ elim (encode_all frames) [ none ↦ none | some rest ↦ some (wire ++ rest) ]
]

abbrev pub PayloadsWithin : ℕ → List (FrameType × List ℕ) → Type 0
PayloadsWithin m [] = Unit
PayloadsWithin m ((t, p) ∷ frames) = (length p ≤ m) × PayloadsWithin m frames

feed-nil : (m : ℕ) → feed (frame_decoder m) [] ≡ (frame_decoder m, true)
unfolding feed drive
feed-nil m = refl

feed_all-flatten :
    (d : FrameDecoder) (chunks : List (List ℕ))
    → feed d [] ≡ (d, true)
    → (feed d (flatten chunks)).1 ≡ true
    → feed_all d chunks ≡ (feed d (flatten chunks)).0
unfolding feed_all flatten
feed_all-flatten d [] rest h = sym (ap (λ (r : FrameDecoder × Bool). r.0) rest)
feed_all-flatten d (c ∷ chunks) rest h = elim (Bool-cases (feed d c).1) [
  | inr bad ↦ absurd (cc (h, feed-append_poisoned d c (flatten chunks) bad))
  | inl good ↦
      feed_all-flatten (feed d c).0 chunks
        (sym (feed-append d c [] good) ∙ ap (feed d) (append-nil c) ∙ (λ i. ((feed d c).0, good i)))
        (ap (λ (r : FrameDecoder × Bool). r.1) (sym (feed-append d c (flatten chunks) good)) ∙ h)
      ∙ ap (λ (r : FrameDecoder × Bool). r.0) (sym (feed-append d c (flatten chunks) good))
]

record EncodedCons (t : FrameType) (p : List ℕ) (frames : List (FrameType × List ℕ)) (wire : List ℕ)
    : Type 0 where
  first : List ℕ
  rest : List ℕ
  encoded : encode_frame t p ≡ some first
  others : encode_all frames ≡ some rest
  whole : wire ≡ first ++ rest

encode_all-cons :
    (t : FrameType) (p : List ℕ) (frames : List (FrameType × List ℕ)) (wire : List ℕ)
    → encode_all ((t, p) ∷ frames) ≡ some wire
    → EncodedCons t p frames wire
unfolding encode_all
encode_all-cons t p frames wire e = elim (Option-cases (encode_frame t p)) [
  | inl thrown ↦ absurd (ground arith)
  | inr (first, encoded) ↦ elim (Option-cases (encode_all frames)) [
    | inl thrown ↦ absurd (ground arith)
    | inr (rest, others) ↦ record {
      first = first;
      rest = rest;
      encoded = encoded;
      others = others;
      whole = ground arith;
    }
  ]
]

drain-ready :
    (n : ℕ) (d : FrameDecoder)
    → has_frame d ≡ true
    → drain (suc n) d
      ≡ ((take_frame d).0 ∷ (drain n (take_frame d).1).0, (drain n (take_frame d).1).1)
unfolding drain
drain-ready n d r = ground arith

drain-encode_all :
    (m : ℕ) (frames : List (FrameType × List ℕ)) (wire : List ℕ)
    → PayloadsWithin m frames
    → encode_all frames ≡ some wire
    → ((feed (frame_decoder m) wire).1 ≡ true)
      × (drain (length frames) (feed (frame_decoder m) wire).0
          ≡ (map (λ (t, p). frame_of t p) frames, frame_decoder m))
unfolding encode_all drain
drain-encode_all m [] wire w e = rw (sym (some-injective _ _ e), feed-nil m) (refl, refl)
drain-encode_all m ((t, p) ∷ frames) wire w e =
    let k = encode_all-cons t p frames wire e in
    let (ok, r, next) = take_frame-encode_frame m t p k.rest k.first w.0 k.encoded in
    let (_, ih) = drain-encode_all m frames k.rest w.1 k.others in
    let front : FrameDecoder = (feed (frame_decoder m) (k.first ++ k.rest)).0 in
    rw (k.whole) (ok, drain-ready (length frames) front r ∙ rw (next, ih))

-- Frames within the limit are encoded one after the other and the bytes are fed to a fresh decoder
-- in pieces that are cut anywhere: pulling that many frames gives them back in order, and leaves the
-- decoder as it was made.
pub drain-feed_all :
    (m : ℕ) (frames : List (FrameType × List ℕ)) (wire : List ℕ) (chunks : List (List ℕ))
    → PayloadsWithin m frames
    → encode_all frames ≡ some wire
    → flatten chunks ≡ wire
    → drain (length frames) (feed_all (frame_decoder m) chunks)
      ≡ (map (λ (t, p). frame_of t p) frames, frame_decoder m)
drain-feed_all m frames wire chunks w e cut =
    let (ok, frames_back) = drain-encode_all m frames wire w e in
    ap (drain (length frames)) (
      feed_all-flatten (frame_decoder m) chunks (feed-nil m) (rw cut ok)
      ∙ ap (λ t. (feed (frame_decoder m) t).0) cut)
    ∙ frames_back
