-- ===== src/Proto/Messages/Layout.antt =====
-- The payload of each message as its fields in wire order, and the widths of the fields.
use mathlib.Core.List.{flatten}
use ati_tcp_file_transfer.Base.{ℕ, ◌%◌, ◌<◌, ◌≡◌, refl, sym, ◌∙◌}
use ati_tcp_file_transfer.Base.{List, [], ◌∷◌, ◌++◌, map, length, All, append_assoc, append-nil}
use ati_tcp_file_transfer.Util.Byteorder.{
  IsByte, u16_mod, u32_mod, u64_mod, write_be_u16, write_be_u32, write_be_u64,
}
use ati_tcp_file_transfer.Proto.Cursor.{Hash}
use ati_tcp_file_transfer.Proto.Cursor.Returns.{IsHash}
use ati_tcp_file_transfer.Proto.Messages.{
  HelloMsg, encode_hello, ManifestMsg, append_hashes, encode_manifest, ReqChunksMsg, append_indices,
  encode_req_chunks, ChunkMsg, encode_chunk, CompleteMsg, encode_complete, AckMsg, encode_ack,
  ErrorMsg, encode_error,
}

-- The fields fit the widths that messages.hpp declares; the two counts that an encoder narrows to
-- 16 or 32 bits fit those, and a manifest has as many hashes as it says.
pub record HelloFits (m : HelloMsg) : Type 0 where
  pub version : IsByte m.protocol_version
  pub chunk : m.max_chunk_size < u32_mod
  pub flags : m.capabilities < u32_mod

pub record ManifestFits (m : ManifestMsg) : Type 0 where
  pub size : m.file_size < u64_mod
  pub chunk : m.chunk_size < u32_mod
  pub count : m.chunk_count < u32_mod
  pub root : IsHash m.root_hash
  pub path_len : length m.path < u16_mod
  pub as_declared : length m.chunk_hashes ≡ m.chunk_count
  pub hashes : All IsHash m.chunk_hashes

pub record ReqChunksFits (m : ReqChunksMsg) : Type 0 where
  pub count : length m.indices < u32_mod
  pub indices : All (λ i. i < u32_mod) m.indices

pub record ChunkFits (m : ChunkMsg) : Type 0 where
  pub index : m.index < u32_mod
  pub hash : IsHash m.hash

pub record CompleteFits (m : CompleteMsg) : Type 0 where
  pub root : IsHash m.final_root_hash
  pub status : IsByte m.status

pub record ErrorFits (m : ErrorMsg) : Type 0 where
  pub code : m.code < u16_mod
  pub message_len : length m.message < u16_mod

append_hashes-flatten :
    (out : List ℕ) (hashes : List Hash) → append_hashes out hashes ≡ out ++ flatten hashes
unfolding append_hashes flatten
append_hashes-flatten out [] = sym (append-nil out)
append_hashes-flatten out (h ∷ hashes) =
    append_hashes-flatten (out ++ h) hashes ∙ append_assoc out h (flatten hashes)

append_indices-flatten :
    (out indices : List ℕ) → append_indices out indices ≡ out ++ flatten (map write_be_u32 indices)
unfolding append_indices flatten
append_indices-flatten out [] = sym (append-nil out)
append_indices-flatten out (i ∷ indices) =
    append_indices-flatten (out ++ write_be_u32 i) indices
    ∙ append_assoc out (write_be_u32 i) (flatten (map write_be_u32 indices))

pub encode_hello-layout :
    (m : HelloMsg)
    → encode_hello m
      ≡ m.protocol_version ∷ (write_be_u32 m.max_chunk_size ++ (write_be_u32 m.capabilities ++ []))
unfolding encode_hello
encode_hello-layout m = simp (append_assoc, append-nil)

pub encode_manifest-layout :
    (m : ManifestMsg)
    → encode_manifest m
      ≡ write_be_u64 m.file_size
        ++ (write_be_u32 m.chunk_size
            ++ (write_be_u32 m.chunk_count
                ++ (m.root_hash
                    ++ (write_be_u16 (length m.path % u16_mod)
                        ++ (m.path ++ (flatten m.chunk_hashes ++ []))))))
unfolding encode_manifest
encode_manifest-layout m = simp (append_hashes-flatten, append_assoc, append-nil)

pub encode_req_chunks-layout :
    (m : ReqChunksMsg)
    → encode_req_chunks m
      ≡ write_be_u32 (length m.indices % u32_mod) ++ (flatten (map write_be_u32 m.indices) ++ [])
unfolding encode_req_chunks
encode_req_chunks-layout m = simp (append_indices-flatten, append-nil)

pub encode_chunk-layout :
    (m : ChunkMsg) → encode_chunk m ≡ write_be_u32 m.index ++ (m.hash ++ m.bytes)
unfolding encode_chunk
encode_chunk-layout m = append_assoc (write_be_u32 m.index) m.hash m.bytes

pub encode_complete-layout :
    (m : CompleteMsg) → encode_complete m ≡ m.final_root_hash ++ m.status ∷ []
unfolding encode_complete
encode_complete-layout m = refl

pub encode_ack-layout : (m : AckMsg) → encode_ack m ≡ write_be_u32 m.last_index ++ []
unfolding encode_ack
encode_ack-layout m = sym (append-nil (write_be_u32 m.last_index))

pub encode_error-layout :
    (m : ErrorMsg)
    → encode_error m
      ≡ write_be_u16 m.code ++ (write_be_u16 (length m.message % u16_mod) ++ (m.message ++ []))
unfolding encode_error
encode_error-layout m = simp (append_assoc, append-nil)
