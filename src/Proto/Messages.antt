-- ===== src/Proto/Messages.antt =====
-- include/ftx/proto/messages.hpp and src/lib/proto/messages.cpp: the seven messages, their encoders
-- and decoders. A `std::string` is the list of its bytes; a decoder's nullopt is `none`.
pub mod Layout
pub mod RoundTrip
pub mod Canonical
pub mod Limits
pub mod Exact
use ati_tcp_file_transfer.Base.{ℕ, zero, suc, ◌*◌, ◌/◌, ◌%◌, ltb, if◌then◌else◌}
use ati_tcp_file_transfer.Base.{Option, none, some, List, [], ◌∷◌, ◌++◌, length}
use ati_tcp_file_transfer.Util.Byteorder.{u16_mod, u32_mod}
use ati_tcp_file_transfer.Proto.Types.{k_protocol_version}
use ati_tcp_file_transfer.Proto.Cursor.{
  Hash, append_u8, append_u16, append_u32, append_u64, append_hash, append_bytes, Parser, ◌>>=◌,
  ◌>>◌, pure, rest, remaining, take_u8, take_u16, take_u32, take_u64, take_hash, take_string,
  at_end, run,
}

pub record HelloMsg : Type 0 where
  pub protocol_version : ℕ
  pub max_chunk_size : ℕ
  pub capabilities : ℕ

-- `HelloMsg{}`
abbrev pub default_hello : HelloMsg
default_hello = record {
  protocol_version = k_protocol_version;
  max_chunk_size = 1 * 1024 * 1024;
  capabilities = 0;
}

pub record ManifestMsg : Type 0 where
  pub file_size : ℕ
  pub chunk_size : ℕ
  pub chunk_count : ℕ
  pub root_hash : Hash
  pub path : List ℕ
  pub chunk_hashes : List Hash

pub record ReqChunksMsg : Type 0 where
  pub indices : List ℕ

pub record ChunkMsg : Type 0 where
  pub index : ℕ
  pub hash : Hash
  pub bytes : List ℕ

pub record CompleteMsg : Type 0 where
  pub final_root_hash : Hash
  pub status : ℕ

pub record AckMsg : Type 0 where
  pub last_index : ℕ

pub record ErrorMsg : Type 0 where
  pub code : ℕ
  pub message : List ℕ

unfoldable pub encode_hello : HelloMsg → List ℕ
encode_hello m =
    append_u32 (append_u32 (append_u8 [] m.protocol_version) m.max_chunk_size) m.capabilities

parse_hello : Parser HelloMsg
parse_hello = do
  version ← take_u8
  max_chunk_size ← take_u32
  capabilities ← take_u32
  at_end
  pure (record {
    protocol_version = version;
    max_chunk_size = max_chunk_size;
    capabilities = capabilities;
  })

unfoldable pub decode_hello : List ℕ → Option HelloMsg
unfolding parse_hello
decode_hello payload = run parse_hello payload

-- `for (const auto& h : m.chunk_hashes) append_hash(out, h);`
unfoldable pub append_hashes : List ℕ → List Hash → List ℕ
append_hashes out [] = out
append_hashes out (h ∷ hashes) = append_hashes (append_hash out h) hashes

unfoldable pub encode_manifest : ManifestMsg → List ℕ
unfolding append_hashes
encode_manifest m =
    let sizes = append_u32 (append_u32 (append_u64 [] m.file_size) m.chunk_size) m.chunk_count in
    let out = append_u16 (append_hash sizes m.root_hash) (length m.path % u16_mod) in
    append_hashes (append_bytes out m.path) m.chunk_hashes

-- The loop over the `chunk_count` hashes of the resized vector.
unfoldable pub take_hashes : ℕ → Parser (List Hash)
take_hashes zero = pure []
take_hashes (suc n) = do h ← take_hash; hashes ← take_hashes n; pure (h ∷ hashes)

parse_manifest : Parser ManifestMsg
unfolding take_hashes
parse_manifest = do
  file_size ← take_u64
  chunk_size ← take_u32
  chunk_count ← take_u32
  root_hash ← take_hash
  path_len ← take_u16
  path ← take_string path_len
  chunk_hashes ← take_hashes chunk_count
  at_end
  pure (record {
    file_size = file_size;
    chunk_size = chunk_size;
    chunk_count = chunk_count;
    root_hash = root_hash;
    path = path;
    chunk_hashes = chunk_hashes;
  })

unfoldable pub decode_manifest : List ℕ → Option ManifestMsg
unfolding parse_manifest
decode_manifest payload = run parse_manifest payload

-- `for (const auto idx : m.indices) append_u32(out, idx);`
unfoldable pub append_indices : List ℕ → List ℕ → List ℕ
append_indices out [] = out
append_indices out (i ∷ indices) = append_indices (append_u32 out i) indices

unfoldable pub encode_req_chunks : ReqChunksMsg → List ℕ
unfolding append_indices
encode_req_chunks m = append_indices (append_u32 [] (length m.indices % u32_mod)) m.indices

unfoldable pub take_indices : ℕ → Parser (List ℕ)
take_indices zero = pure []
take_indices (suc n) = do i ← take_u32; indices ← take_indices n; pure (i ∷ indices)

-- `if (count > c.remaining() / 4) return std::nullopt;`
unfoldable pub check_count : ℕ → Parser (Unit {0})
unfolding remaining
check_count count c = if ltb (remaining c / 4) count then none else some (tt, c)

parse_req_chunks : Parser ReqChunksMsg
unfolding take_indices check_count
parse_req_chunks = do
  count ← take_u32
  check_count count
  indices ← take_indices count
  at_end
  pure (record { indices = indices })

unfoldable pub decode_req_chunks : List ℕ → Option ReqChunksMsg
unfolding parse_req_chunks
decode_req_chunks payload = run parse_req_chunks payload

unfoldable pub encode_chunk : ChunkMsg → List ℕ
encode_chunk m = append_bytes (append_hash (append_u32 [] m.index) m.hash) m.bytes

-- `c.rest()`: the cursor does not move, and nothing is checked behind it.
abbrev pub rest_of : Parser (List ℕ)
rest_of c = some (rest c, c)

parse_chunk : Parser ChunkMsg
parse_chunk = do
  index ← take_u32
  hash ← take_hash
  bytes ← rest_of
  pure (record { index = index; hash = hash; bytes = bytes })

unfoldable pub decode_chunk : List ℕ → Option ChunkMsg
unfolding parse_chunk
decode_chunk payload = run parse_chunk payload

unfoldable pub encode_complete : CompleteMsg → List ℕ
encode_complete m = append_u8 (append_hash [] m.final_root_hash) m.status

parse_complete : Parser CompleteMsg
parse_complete = do
  final_root_hash ← take_hash
  status ← take_u8
  at_end
  pure (record { final_root_hash = final_root_hash; status = status })

unfoldable pub decode_complete : List ℕ → Option CompleteMsg
unfolding parse_complete
decode_complete payload = run parse_complete payload

unfoldable pub encode_ack : AckMsg → List ℕ
encode_ack m = append_u32 [] m.last_index

parse_ack : Parser AckMsg
parse_ack = do last_index ← take_u32; at_end; pure (record { last_index = last_index })

unfoldable pub decode_ack : List ℕ → Option AckMsg
unfolding parse_ack
decode_ack payload = run parse_ack payload

unfoldable pub encode_error : ErrorMsg → List ℕ
encode_error m =
    append_bytes (append_u16 (append_u16 [] m.code) (length m.message % u16_mod)) m.message

parse_error : Parser ErrorMsg
parse_error = do
  code ← take_u16
  msg_len ← take_u16
  message ← take_string msg_len
  at_end
  pure (record { code = code; message = message })

unfoldable pub decode_error : List ℕ → Option ErrorMsg
unfolding parse_error
decode_error payload = run parse_error payload
