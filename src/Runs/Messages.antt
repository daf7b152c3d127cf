-- ===== src/Runs/Messages.antt =====
-- Runs of the message decoders.
use ati_tcp_file_transfer.Base.{ℕ, ◌≡◌, ◌↔◌, arith, none, some, List, [], ◌∷◌, ◌++◌, replicate}
use ati_tcp_file_transfer.Base.{length-replicate}
use ati_tcp_file_transfer.Proto.Messages.{
  ManifestMsg, encode_manifest, decode_manifest, ReqChunksMsg, encode_req_chunks, decode_req_chunks,
  ChunkMsg, CompleteMsg, ErrorMsg, encode_error, decode_error,
}
use ati_tcp_file_transfer.Proto.Messages.Layout.{ManifestFits, ReqChunksFits}
use ati_tcp_file_transfer.Proto.Messages.Exact.{decode_manifest_exact, decode_req_chunks_exact}
use ati_tcp_file_transfer.Proto.Messages.Limits.{decode_error_too_long}
use ati_tcp_file_transfer.Runs.Data.{text, some_hash}

abbrev hello_bytes : List ℕ
hello_bytes = 1 ∷ 0 ∷ 16 ∷ 0 ∷ 0 ∷ 0 ∷ 0 ∷ 0 ∷ 0 ∷ []

-- Three bytes at "abc", in one chunk.
abbrev manifest : ManifestMsg
manifest = record {
  file_size = 3;
  chunk_size = 4;
  chunk_count = 1;
  root_hash = some_hash;
  path = text;
  chunk_hashes = some_hash ∷ [];
}

abbrev manifest_bytes : List ℕ
manifest_bytes =
    0
    ∷ 0
    ∷ 0
    ∷ 0
    ∷ 0
    ∷ 0
    ∷ 0
    ∷ 3
    ∷ 0
    ∷ 0
    ∷ 0
    ∷ 4
    ∷ 0
    ∷ 0
    ∷ 0
    ∷ 1
    ∷ (some_hash ++ (0 ∷ 3 ∷ (text ++ some_hash)))

decode_manifest_exact_example :
    (decode_manifest manifest_bytes ≡ some manifest)
    ↔ ((encode_manifest manifest ≡ manifest_bytes) × ManifestFits manifest)
decode_manifest_exact_example = decode_manifest_exact manifest_bytes manifest (omega arith)

abbrev req_chunks_bytes : List ℕ
req_chunks_bytes = 0 ∷ 0 ∷ 0 ∷ 2 ∷ 0 ∷ 0 ∷ 0 ∷ 5 ∷ 0 ∷ 0 ∷ 1 ∷ 0 ∷ []

abbrev req_chunks : ReqChunksMsg
req_chunks = record { indices = 5 ∷ 256 ∷ [] }

decode_req_chunks_exact_example :
    (decode_req_chunks req_chunks_bytes ≡ some req_chunks)
    ↔ ((encode_req_chunks req_chunks ≡ req_chunks_bytes) × ReqChunksFits req_chunks)
decode_req_chunks_exact_example = decode_req_chunks_exact req_chunks_bytes req_chunks (omega arith)

abbrev chunk_bytes : List ℕ
chunk_bytes = 0 ∷ 0 ∷ 0 ∷ 5 ∷ (some_hash ++ text)

abbrev chunk : ChunkMsg
chunk = record { index = 5; hash = some_hash; bytes = text }

abbrev complete_bytes : List ℕ
complete_bytes = some_hash ++ 1 ∷ []

abbrev complete : CompleteMsg
complete = record { final_root_hash = some_hash; status = 1 }

abbrev error_bytes : List ℕ
error_bytes = 0 ∷ 4 ∷ 0 ∷ 3 ∷ text

abbrev refusal : ErrorMsg
refusal = record { code = 4; message = text }

-- A text of 64 KiB.
abbrev long_refusal : ErrorMsg
long_refusal = record { code = 4; message = replicate 65536 97 }

decode_error_too_long_example : decode_error (encode_error long_refusal) ≡ none
decode_error_too_long_example =
    decode_error_too_long long_refusal (omega arith)
      (omega (arith, length-replicate {A = ℕ} 65536 97))
