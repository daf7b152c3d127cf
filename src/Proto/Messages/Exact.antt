-- ===== src/Proto/Messages/Exact.antt =====
-- The decoders and the encoders of the messages determine each other.
use ati_tcp_file_transfer.Base.{ℕ, ◌<◌, ◌≡◌, ◌↔◌, sym, ap, ◌∙◌, some, List, All}
use ati_tcp_file_transfer.Util.Byteorder.{IsByte, u32_mod}
use ati_tcp_file_transfer.Proto.Messages.{
  HelloMsg, encode_hello, decode_hello, ManifestMsg, encode_manifest, decode_manifest, ReqChunksMsg,
  encode_req_chunks, decode_req_chunks, ChunkMsg, encode_chunk, decode_chunk, CompleteMsg,
  encode_complete, decode_complete, AckMsg, encode_ack, decode_ack, ErrorMsg, encode_error,
  decode_error,
}
use ati_tcp_file_transfer.Proto.Messages.Layout.{
  HelloFits, ManifestFits, ReqChunksFits, ChunkFits, CompleteFits, ErrorFits,
}
use ati_tcp_file_transfer.Proto.Messages.RoundTrip.{
  decode_hello-encode_hello, decode_manifest-encode_manifest, decode_req_chunks-encode_req_chunks,
  decode_chunk-encode_chunk, decode_complete-encode_complete, decode_ack-encode_ack,
  decode_error-encode_error,
}
use ati_tcp_file_transfer.Proto.Messages.Canonical.{
  decode_hello-canonical, decode_manifest-canonical, decode_req_chunks-canonical,
  decode_chunk-canonical, decode_complete-canonical, decode_ack-canonical, decode_error-canonical,
}

-- A payload of bytes decodes to a HELLO message exactly when it is the encoding of that message
-- and the message's fields fit their widths.
decode_hello_exact :
    (payload : List ℕ) (m : HelloMsg)
    → All IsByte payload
    → (decode_hello payload ≡ some m) ↔ ((encode_hello m ≡ payload) × HelloFits m)
decode_hello_exact payload m h = (
  decode_hello-canonical payload m h,
  λ (e, fits). ap decode_hello (sym e) ∙ decode_hello-encode_hello m fits,
)

-- A payload of bytes decodes to a MANIFEST message exactly when it is the encoding of that message
-- and the message's fields fit their widths and it
-- has as many hashes as it declares.
pub decode_manifest_exact :
    (payload : List ℕ) (m : ManifestMsg)
    → All IsByte payload
    → (decode_manifest payload ≡ some m) ↔ ((encode_manifest m ≡ payload) × ManifestFits m)
decode_manifest_exact payload m h = (
  decode_manifest-canonical payload m h,
  λ (e, fits). ap decode_manifest (sym e) ∙ decode_manifest-encode_manifest m fits,
)

-- A payload of bytes decodes to a REQ_CHUNKS message exactly when it is the encoding of that message
-- and the message's fields fit their widths.
pub decode_req_chunks_exact :
    (payload : List ℕ) (m : ReqChunksMsg)
    → All IsByte payload
    → (decode_req_chunks payload ≡ some m) ↔ ((encode_req_chunks m ≡ payload) × ReqChunksFits m)
decode_req_chunks_exact payload m h = (
  decode_req_chunks-canonical payload m h,
  λ (e, fits). ap decode_req_chunks (sym e) ∙ decode_req_chunks-encode_req_chunks m fits,
)

-- A payload of bytes decodes to a CHUNK message exactly when it is the encoding of that message
-- and the message's fields fit their widths.
pub decode_chunk_exact :
    (payload : List ℕ) (m : ChunkMsg)
    → All IsByte payload
    → (decode_chunk payload ≡ some m) ↔ ((encode_chunk m ≡ payload) × ChunkFits m)
decode_chunk_exact payload m h = (
  decode_chunk-canonical payload m h,
  λ (e, fits). ap decode_chunk (sym e) ∙ decode_chunk-encode_chunk m fits,
)

-- A payload of bytes decodes to a COMPLETE message exactly when it is the encoding of that message
-- and the message's fields fit their widths.
decode_complete_exact :
    (payload : List ℕ) (m : CompleteMsg)
    → All IsByte payload
    → (decode_complete payload ≡ some m) ↔ ((encode_complete m ≡ payload) × CompleteFits m)
decode_complete_exact payload m h = (
  decode_complete-canonical payload m h,
  λ (e, fits). ap decode_complete (sym e) ∙ decode_complete-encode_complete m fits,
)

-- A payload of bytes decodes to a ACK message exactly when it is the encoding of that message
-- and the message's fields fit their widths.
pub decode_ack_exact :
    (payload : List ℕ) (m : AckMsg)
    → All IsByte payload
    → (decode_ack payload ≡ some m) ↔ ((encode_ack m ≡ payload) × (m.last_index < u32_mod))
decode_ack_exact payload m h = (
  decode_ack-canonical payload m h,
  λ (e, fits). ap decode_ack (sym e) ∙ decode_ack-encode_ack m fits,
)

-- A payload of bytes decodes to a ERROR message exactly when it is the encoding of that message
-- and the message's fields fit their widths, the text
-- being shorter than 64 KiB.
decode_error_exact :
    (payload : List ℕ) (m : ErrorMsg)
    → All IsByte payload
    → (decode_error payload ≡ some m) ↔ ((encode_error m ≡ payload) × ErrorFits m)
decode_error_exact payload m h = (
  decode_error-canonical payload m h,
  λ (e, fits). ap decode_error (sym e) ∙ decode_error-encode_error m fits,
)
