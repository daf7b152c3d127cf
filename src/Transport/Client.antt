-- ===== src/Transport/Client.antt =====
-- src/lib/transport/client.cpp: how Client::send cuts its file into chunks and hashes them in its
-- first pass (here), and the whole of it (`Send`). The name resolution, the connect and the TLS
-- context are not modelled: how the first two end is a field of the client.
pub mod Chunks
pub mod Send
use ati_tcp_file_transfer.Base.{ℕ, zero, suc, ◌+◌, ◌-◌, ◌*◌, ◌/◌, ◌%◌, ◌==◌, if◌then◌else◌, Bool}
use ati_tcp_file_transfer.Base.{Option, List, [], ◌∷◌}
use ati_tcp_file_transfer.Util.Byteorder.{u32_mod, u64_mod}
use ati_tcp_file_transfer.Util.Blake3.{Blake3, blake3, update}
use ati_tcp_file_transfer.Proto.Types.{FrameType}
use ati_tcp_file_transfer.Proto.Cursor.{Hash}
use ati_tcp_file_transfer.Io.Files.{Files}
use ati_tcp_file_transfer.Io.FileSource.{FileSource, SourceError, read_at}
use ati_tcp_file_transfer.Transport.Session.{Exec, pure, or_stop, ◌>>=◌, ◌>>◌, on_files}

pub data Network : Type 0 where
  unresolved unreachable connected : Network

pub record Client : Type 1 where
  pub chunk_size : ℕ
  pub has_tls : Bool
  pub network : Network
  pub hash : Blake3

-- What `last_error_` says of a send that fails.
pub data SendError : Type 0 where
  source_not_opened : SourceError → SendError
  not_resolved not_connected handshake_failed : SendError
  not_sent not_received malformed : FrameType → SendError
  version_mismatch : SendError
  hash_pass_failed source_not_read : SourceError → SendError
  index_out_of_range : ℕ → SendError
  server_error : Option (List ℕ) → SendError
  not_an_ack : SendError

-- The sum is one of uint64, and the quotient is narrowed to uint32. A chunk size of 0, by which the
-- source would divide, gives 0 here.
unfoldable pub chunk_count : ℕ → ℕ → ℕ
chunk_count file_size chunk_size =
    if file_size == 0
    then 0
    else (file_size + chunk_size + u64_mod - 1) % u64_mod / chunk_size % u32_mod

-- A read of the source, into a buffer of the chunk size.
abbrev pub on_source :
    (Files → Option (List ℕ) × FileSource × Files) → Exec SendError (Option (List ℕ) × FileSource)
on_source f = on_files (λ fs. let (got, src, fs') = f fs in ((got, src), fs'))

unfoldable pub read_chunk :
    Client → (SourceError → SendError) → FileSource → ℕ → Exec SendError (List ℕ × FileSource)
read_chunk client reason src i = do
  (got, src') ← on_source (λ fs. read_at src fs (i * client.chunk_size) client.chunk_size)
  chunk ← or_stop got (reason src'.last_error)
  pure (chunk, src')

-- `for (i = 0; i < chunk_count; ++i)`, on the rounds that are left, from `i` on.
unfoldable pub hash_pass :
    (client : Client)
    → FileSource
    → ℕ
    → ℕ
    → client.hash.Hasher
    → Exec SendError (List Hash × client.hash.Hasher × FileSource)
hash_pass client src zero i hasher = pure ([], hasher, src)
hash_pass client src (suc n) i hasher = do
  (chunk, src') ← read_chunk client hash_pass_failed src i
  (hashes, hasher', src'') ← hash_pass client src' n (i + 1) (update client.hash hasher chunk)
  pure (blake3 client.hash chunk ∷ hashes, hasher', src'')
