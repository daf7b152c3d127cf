-- ===== src/Proto/Frame/Header.antt =====
-- The frame header round trip, what a decoded header guarantees, and what the CRC refuses.
pub mod Bytes
use ati_tcp_file_transfer.Base.{ℕ, ◌%◌, ◌≤◌, ◌<◌, ◌≡◌, ◌≢◌, refl, sym, ap, ◌∙◌, arith, ◌==◌, ltb}
use ati_tcp_file_transfer.Base.{if◌then◌else◌, not, true, some}
use ati_tcp_file_transfer.Base.{==_self, ne→==_false}
use ati_tcp_file_transfer.Base.{List, [], ◌∷◌, ◌++◌, length, take, All, append_assoc}
use ati_tcp_file_transfer.Base.{length-append, All-append_parts}
use ati_tcp_file_transfer.Util.Byteorder.{IsByte, u32_mod, write_be_u32, read_be_u32}
use ati_tcp_file_transfer.Util.Byteorder.RoundTrip.{
  read_be_u32-write_be_u32, write_be_u32-read_be_u32, read_be_u32-bound,
}
use ati_tcp_file_transfer.Util.Crc32c.{crc32c}
use ati_tcp_file_transfer.Util.Crc32c.Detect.{crc32c-bound, crc32c_detects}
use ati_tcp_file_transfer.Proto.Types.{
  FrameType, type_byte, is_known_frame_type, cast_frame_type, known_type_byte, type_byte-cast,
  k_header_size, k_default_max_payload,
}
use ati_tcp_file_transfer.Proto.Frame.{
  FrameHeader, covered_bytes, encode_to, decode_from, Decoded, header, failed, bad_crc,
  unknown_type, payload_too_large, encode_frame,
}
use ati_tcp_file_transfer.Proto.Frame.Header.Bytes.{length-covered_bytes, covered_bytes-IsByte}
pub use ati_tcp_file_transfer.Proto.Frame.Header.Bytes.{
  length-write_be_u32, write_be_u32-IsByte, length-encode_to, encode_to-IsByte,
}

-- The tests of `decode_from` on a header that is split into its covered bytes and its CRC bytes.
decode_parts :
    (len : List ℕ) (byte crc max_payload : ℕ)
    → length len ≡ 4
    → crc < u32_mod
    → decode_from (len ++ byte ∷ write_be_u32 crc) max_payload ≡ (
        if not (crc == crc32c (len ++ byte ∷ []) 0)
        then failed bad_crc
        else if not (is_known_frame_type byte)
        then failed unknown_type
        else if ltb max_payload (read_be_u32 len)
        then failed payload_too_large
        else header (record { payload_len = read_be_u32 len; type = cast_frame_type byte }))
decode_parts [] byte crc m n hc = absurd (omega arith)
decode_parts (a ∷ []) byte crc m n hc = absurd (omega arith)
decode_parts (a ∷ b ∷ []) byte crc m n hc = absurd (omega arith)
decode_parts (a ∷ b ∷ c ∷ []) byte crc m n hc = absurd (omega arith)
decode_parts (a ∷ b ∷ c ∷ d ∷ []) byte crc m n hc =
    unfold decode_from in rw (take_all crc, read_be_u32-write_be_u32 crc hc)
  where
    take_all : (v : ℕ) → take 4 (write_be_u32 v) ≡ write_be_u32 v
    take_all v = unfold write_be_u32 in refl
decode_parts (a ∷ b ∷ c ∷ d ∷ e ∷ len) byte crc m n hc = absurd (omega arith)

encode_to-parts :
    (h : FrameHeader)
    → encode_to h
      ≡ write_be_u32 h.payload_len
        ++ type_byte h.type
          ∷ write_be_u32 (crc32c (write_be_u32 h.payload_len ++ type_byte h.type ∷ []) 0)
unfolding encode_to
encode_to-parts h = append_assoc (write_be_u32 h.payload_len) _ _

-- Decoding an encoded header whose length fits 32 bits gives the header back, or the error that the
-- payload is too large where its length exceeds the limit.
pub decode_from-encode_to :
    (h : FrameHeader) (max_payload : ℕ)
    → h.payload_len < u32_mod
    → decode_from (encode_to h) max_payload
      ≡ (if ltb max_payload h.payload_len then failed payload_too_large else header h)
decode_from-encode_to h m fits = rw (encode_to-parts h) (
    decode_parts (write_be_u32 h.payload_len) (type_byte h.type) _ m
      (length-write_be_u32 h.payload_len) (crc32c-bound _ 0)
    ∙ rw (
      ==_self,
      (known_type_byte h.type).0,
      (known_type_byte h.type).1,
      read_be_u32-write_be_u32 h.payload_len fits,
    ))

-- What is known of nine bytes that are split as a header.
record Parts (src : List ℕ) : Type 0 where
  len : List ℕ
  byte : ℕ
  crc : List ℕ
  whole : src ≡ len ++ byte ∷ crc
  length_len : length len ≡ 4
  length_crc : length crc ≡ 4
  bytes : All IsByte len × IsByte byte × All IsByte crc

parts : (src : List ℕ) → length src ≡ k_header_size → All IsByte src → Parts src
parts [] n h = absurd (omega arith)
parts (a ∷ []) n h = absurd (omega arith)
parts (a ∷ b ∷ []) n h = absurd (omega arith)
parts (a ∷ b ∷ c ∷ []) n h = absurd (omega arith)
parts (a ∷ b ∷ c ∷ d ∷ []) n h = absurd (omega arith)
parts (a ∷ b ∷ c ∷ d ∷ e ∷ crc) n h = record {
  len = a ∷ b ∷ c ∷ d ∷ [];
  byte = e;
  crc = crc;
  whole = refl;
  length_len = refl;
  length_crc = omega arith;
  bytes = ((h.0, (h.1.0, (h.1.1.0, (h.1.1.1.0, tt)))), h.1.1.1.1.0, h.1.1.1.1.1);
}

-- A header that the tests let through has the bytes that encoding it gives.
accepted :
    (len : List ℕ) (byte crc max_payload : ℕ) (h : FrameHeader)
    → length len ≡ 4
    → All IsByte len
    → crc < u32_mod
    → decode_from (len ++ byte ∷ write_be_u32 crc) max_payload ≡ header h
    → (encode_to h ≡ len ++ byte ∷ write_be_u32 crc) × (h.payload_len ≤ max_payload)
accepted len byte crc m h n hb hc e = (
  encode_to-parts h
      ∙ rw (
        sym fields.0,
        sym fields.1,
        type_byte-cast byte known,
        write_be_u32-read_be_u32 len n hb,
        sym same,
      ),
  omega (arith, facts.2, fields.0),
)
  where
    facts :
        (crc ≡ crc32c (len ++ byte ∷ []) 0)
        × (is_known_frame_type byte ≡ true)
        × (read_be_u32 len ≤ m)
        × (h ≡ record { payload_len = read_be_u32 len; type = cast_frame_type byte })
    facts = ground (arith, decode_parts len byte crc m n hc, e)

    same : crc ≡ crc32c (len ++ byte ∷ []) 0
    same = facts.0

    known : is_known_frame_type byte ≡ true
    known = facts.1

    fields : (read_be_u32 len ≡ h.payload_len) × (cast_frame_type byte ≡ h.type)
    fields = (
      sym (ap (λ (r : FrameHeader). r.payload_len) facts.3),
      sym (ap (λ (r : FrameHeader). r.type) facts.3),
    )

-- Nine bytes are accepted only if they are the encoding of the header that is returned, whose length
-- is then within the limit.
pub decode_from_sound :
    (src : List ℕ) (max_payload : ℕ) (h : FrameHeader)
    → length src ≡ k_header_size
    → All IsByte src
    → decode_from src max_payload ≡ header h
    → (encode_to h ≡ src) × (h.payload_len ≤ max_payload)
decode_from_sound src m h n k e =
    let p = parts src n k in
    let crc : write_be_u32 (read_be_u32 p.crc) ≡ p.crc =
      write_be_u32-read_be_u32 p.crc p.length_crc p.bytes.2 in
    let shape : src ≡ p.len ++ p.byte ∷ write_be_u32 (read_be_u32 p.crc) =
      p.whole ∙ ap (λ t. p.len ++ p.byte ∷ t) (sym crc) in
    let (same, within) =
      accepted p.len p.byte (read_be_u32 p.crc) m h p.length_len p.bytes.0
        (read_be_u32-bound p.crc p.length_crc p.bytes.2)
        (ap (λ t. decode_from t m) (sym shape) ∙ e) in
    (same ∙ sym shape, within)

refused :
    (src : List ℕ) (crc max_payload : ℕ)
    → length src ≡ 5
    → crc < u32_mod
    → crc ≢ crc32c src 0
    → decode_from (src ++ write_be_u32 crc) max_payload ≡ failed bad_crc
refused [] crc m n hc differ = absurd (omega arith)
refused (a ∷ []) crc m n hc differ = absurd (omega arith)
refused (a ∷ b ∷ []) crc m n hc differ = absurd (omega arith)
refused (a ∷ b ∷ c ∷ []) crc m n hc differ = absurd (omega arith)
refused (a ∷ b ∷ c ∷ d ∷ []) crc m n hc differ = absurd (omega arith)
refused (a ∷ b ∷ c ∷ d ∷ e ∷ []) crc m n hc differ =
    decode_parts (a ∷ b ∷ c ∷ d ∷ []) e crc m refl hc ∙ rw (ne→==_false _ _ differ)
refused (a ∷ b ∷ c ∷ d ∷ e ∷ f ∷ src) crc m n hc differ = absurd (omega arith)

-- A header in which one byte of the length or of the type was replaced by another byte, with the
-- CRC that was sent, is refused as a CRC error, at any limit.
pub decode_from_corrupted :
    (h : FrameHeader) (max_payload : ℕ) (front back : List ℕ) (b b' : ℕ)
    → covered_bytes h ≡ front ++ b ∷ back
    → IsByte b'
    → b ≢ b'
    → decode_from ((front ++ b' ∷ back) ++ write_be_u32 (crc32c (covered_bytes h) 0)) max_payload
      ≡ failed bad_crc
decode_from_corrupted h m front back b b' e hb' differ =
    refused (front ++ b' ∷ back) (crc32c (covered_bytes h) 0) m
      (omega (
        arith,
        length-append front (b' ∷ back),
        length-append front (b ∷ back),
        ap length e,
        length-covered_bytes h,
      ))
      (crc32c-bound _ 0)
      (λ same.
        crc32c_detects front back b b' 0 split.0 split.1.1 split.1.0 hb' differ
          (ap (λ t. crc32c t 0) (sym e) ∙ same))
  where
    split : All IsByte front × All IsByte (b ∷ back)
    split = All-append_parts IsByte front (b ∷ back) (rw e at (covered_bytes-IsByte h))

abbrev pub decoded_len : Decoded → ℕ
decoded_len (header h) = h.payload_len
decoded_len (failed reason) = 0

-- Any header that is decoded, from whatever bytes, has a length within the limit.
pub decode_from-within :
    (src : List ℕ) (max_payload : ℕ) → decoded_len (decode_from src max_payload) ≤ max_payload
unfolding decode_from
decode_from-within src m = ground arith

-- What `encode_frame` puts on the wire where it does not throw.
pub encode_frame_wire :
    (t : FrameType) (p wire : List ℕ)
    → encode_frame t p ≡ some wire
    → (length p ≤ k_default_max_payload)
      × (wire ≡ encode_to (record { payload_len = length p; type = t }) ++ p)
unfolding encode_frame
encode_frame_wire t p wire e = (
  fits,
  ground (arith, ap (λ (n : ℕ). encode_to (record { payload_len = n; type = t }) ++ p) small),
)
  where
    fits : length p ≤ k_default_max_payload
    fits = ground arith

    small : length p % u32_mod ≡ length p
    small = omega (arith, fits)
