-- ===== src/Proto/Messages/Canonical.antt =====
-- A payload of bytes that a decoder accepts is the encoding of the message that it returns: no
-- other payload decodes to that message, and the fields fit their widths.
mod Loops
use Loops.{step_hashes, step_indices, step_count, step_rest}
use ati_tcp_file_transfer.Base.{ℕ, ◌%◌, ◌<◌, ◌≡◌, ◌∙◌, arith}
use ati_tcp_file_transfer.Base.{some, List, [], ◌∷◌, ◌++◌, length, All}
use ati_tcp_file_transfer.Util.Byteorder.{IsByte, u16_mod, u32_mod}
use ati_tcp_file_transfer.Proto.Cursor.{pure, ◌>>=◌, ◌>>◌}
use ati_tcp_file_transfer.Proto.Cursor.Returns.{
  Returns, step_u8, step_u16, step_u32, step_u64, step_hash, step_string, step_end, step_pure,
  Returns-run,
}
use ati_tcp_file_transfer.Proto.Messages.{
  HelloMsg, encode_hello, parse_hello, decode_hello, ManifestMsg, encode_manifest, parse_manifest,
  decode_manifest, ReqChunksMsg, encode_req_chunks, parse_req_chunks, decode_req_chunks, ChunkMsg,
  encode_chunk, parse_chunk, decode_chunk, CompleteMsg, encode_complete, parse_complete,
  decode_complete, AckMsg, encode_ack, parse_ack, decode_ack, ErrorMsg, encode_error, parse_error,
  decode_error,
}
use ati_tcp_file_transfer.Proto.Messages.Layout.{
  HelloFits, ManifestFits, ReqChunksFits, ChunkFits, CompleteFits, ErrorFits, encode_hello-layout,
  encode_manifest-layout, encode_req_chunks-layout, encode_chunk-layout, encode_complete-layout,
  encode_ack-layout, encode_error-layout,
}

pub decode_ack-canonical :
    (payload : List ℕ) (m : AckMsg)
    → All IsByte payload
    → decode_ack payload ≡ some m
    → (encode_ack m ≡ payload) × (m.last_index < u32_mod)
unfolding decode_ack
decode_ack-canonical payload m =
    let Q : AckMsg → Type 0 = λ m. (encode_ack m ≡ payload) × (m.last_index < u32_mod) in
    Returns-run parse_ack payload Q m (
      step_u32 payload Q _
        λ v s₁ k e₁. step_end s₁ Q _ λ e₂. step_pure [] Q _ (encode_ack-layout _ ∙ rw (e₁, e₂), k))

pub decode_hello-canonical :
    (payload : List ℕ) (m : HelloMsg)
    → All IsByte payload
    → decode_hello payload ≡ some m
    → (encode_hello m ≡ payload) × HelloFits m
unfolding decode_hello
decode_hello-canonical payload m =
    let Q : HelloMsg → Type 0 = λ m. (encode_hello m ≡ payload) × HelloFits m in
    Returns-run parse_hello payload Q m (
      step_u8 payload Q _ λ v s₁ k₁ e₁. step_u32 s₁ Q _ λ chunk s₂ k₂ e₂.
        step_u32 s₂ Q _ λ flags s₃ k₃ e₃. step_end s₃ Q _ λ e₄. step_pure [] Q _ (
          encode_hello-layout _ ∙ rw (e₁, e₂, e₃, e₄),
          record { version = k₁; chunk = k₂; flags = k₃ },
        ))

pub decode_complete-canonical :
    (payload : List ℕ) (m : CompleteMsg)
    → All IsByte payload
    → decode_complete payload ≡ some m
    → (encode_complete m ≡ payload) × CompleteFits m
unfolding decode_complete
decode_complete-canonical payload m =
    let Q : CompleteMsg → Type 0 = λ m. (encode_complete m ≡ payload) × CompleteFits m in
    Returns-run parse_complete payload Q m (
      step_hash payload Q _ λ h s₁ k₁ e₁. step_u8 s₁ Q _ λ status s₂ k₂ e₂. step_end s₂ Q _ λ e₃.
        step_pure [] Q _
          (encode_complete-layout _ ∙ rw (e₁, e₂, e₃), record { root = k₁; status = k₂ }))

pub decode_error-canonical :
    (payload : List ℕ) (m : ErrorMsg)
    → All IsByte payload
    → decode_error payload ≡ some m
    → (encode_error m ≡ payload) × ErrorFits m
unfolding decode_error
decode_error-canonical payload m =
    let Q : ErrorMsg → Type 0 = λ m. (encode_error m ≡ payload) × ErrorFits m in
    Returns-run parse_error payload Q m (
      step_u16 payload Q _ λ code s₁ k₁ e₁. step_u16 s₁ Q _ λ n s₂ k₂ e₂.
        step_string s₂ Q n _ λ text s₃ k₃ e₃. step_end s₃ Q _ λ e₄.
          let small : length text % u16_mod ≡ n = omega (arith, k₂, k₃) in
          step_pure [] Q _ (
            encode_error-layout _ ∙ rw (small, e₁, e₂, e₃, e₄),
            record { code = k₁; message_len = omega (arith, k₂, k₃) },
          ))

pub decode_manifest-canonical :
    (payload : List ℕ) (m : ManifestMsg)
    → All IsByte payload
    → decode_manifest payload ≡ some m
    → (encode_manifest m ≡ payload) × ManifestFits m
unfolding decode_manifest
decode_manifest-canonical payload m =
    let Q : ManifestMsg → Type 0 = λ m. (encode_manifest m ≡ payload) × ManifestFits m in
    Returns-run parse_manifest payload Q m (
      step_u64 payload Q _ λ size s₁ k₁ e₁. step_u32 s₁ Q _ λ chunk s₂ k₂ e₂.
        step_u32 s₂ Q _ λ count s₃ k₃ e₃. step_hash s₃ Q _ λ root s₄ k₄ e₄.
          step_u16 s₄ Q _ λ n s₅ k₅ e₅. step_string s₅ Q n _ λ path s₆ k₆ e₆.
            step_hashes s₆ Q count _ λ hashes s₇ k₇ e₇. step_end s₇ Q _ λ e₈.
              let small : length path % u16_mod ≡ n = omega (arith, k₅, k₆) in
              step_pure [] Q _ (
                encode_manifest-layout _ ∙ rw (small, e₁, e₂, e₃, e₄, e₅, e₆, e₇, e₈),
                record {
                  size = k₁;
                  chunk = k₂;
                  count = k₃;
                  root = k₄;
                  path_len = omega (arith, k₅, k₆);
                  as_declared = k₇.0;
                  hashes = k₇.1;
                },
              ))

pub decode_req_chunks-canonical :
    (payload : List ℕ) (m : ReqChunksMsg)
    → All IsByte payload
    → decode_req_chunks payload ≡ some m
    → (encode_req_chunks m ≡ payload) × ReqChunksFits m
unfolding decode_req_chunks
decode_req_chunks-canonical payload m =
    let Q : ReqChunksMsg → Type 0 = λ m. (encode_req_chunks m ≡ payload) × ReqChunksFits m in
    Returns-run parse_req_chunks payload Q m (
      step_u32 payload Q _ λ n s₁ k₁ e₁. step_count s₁ Q n _ (
        step_indices s₁ Q n _ λ indices s₂ k₂ e₂. step_end s₂ Q _ λ e₃.
          let small : length indices % u32_mod ≡ n = omega (arith, k₁, k₂.0) in
          step_pure [] Q _ (
            encode_req_chunks-layout _ ∙ rw (small, e₁, e₂, e₃),
            record { count = omega (arith, k₁, k₂.0); indices = k₂.1 },
          )))

pub decode_chunk-canonical :
    (payload : List ℕ) (m : ChunkMsg)
    → All IsByte payload
    → decode_chunk payload ≡ some m
    → (encode_chunk m ≡ payload) × ChunkFits m
unfolding decode_chunk
decode_chunk-canonical payload m =
    let Q : ChunkMsg → Type 0 = λ m. (encode_chunk m ≡ payload) × ChunkFits m in
    Returns-run parse_chunk payload Q m (
      step_u32 payload Q _ λ index s₁ k₁ e₁. step_hash s₁ Q _ λ h s₂ k₂ e₂.
        step_rest s₂ Q (λ bytes. pure (record { index = index; hash = h; bytes = bytes }))
          (step_pure s₂ Q _
            (encode_chunk-layout _ ∙ rw (e₁, e₂), record { index = k₁; hash = k₂ })))
