-- ===== src/Transport/Server/Finish.antt =====
-- Server::handle_session_ behind the loop: the inventory, the root hash, the rename, ACK; then the
-- whole of it.
use ati_tcp_file_transfer.Base.{
  ℕ, zero, suc, ◌+◌, ◌-◌, ◌*◌, ◌==◌, ltb, if◌then◌else◌, not, Bool, true, false,
}
use ati_tcp_file_transfer.Base.{bytes_eq, Option, none, some, List, [], length}
use ati_tcp_file_transfer.Util.Blake3.{Blake3, update, finalize, new_hasher}
use ati_tcp_file_transfer.Proto.Types.{FrameType}
use ati_tcp_file_transfer.Proto.ErrorCode
use ati_tcp_file_transfer.Proto.Cursor.{Hash}
use ati_tcp_file_transfer.Proto.Messages.{ManifestMsg, encode_ack}
use ati_tcp_file_transfer.Io.Files.{FilePath, open_existing, read_bytes}
use ati_tcp_file_transfer.Io.FileSink.{FileSink, partial_path}
use ati_tcp_file_transfer.Io.FileSink
use ati_tcp_file_transfer.Io.ResumeState.{complete}
use ati_tcp_file_transfer.Io.ResumeState.Save.{remove}
use ati_tcp_file_transfer.Transport.Session.{
  Session, Result, ok, err, Exec, pure, ◌>>=◌, ◌>>◌, on_files,
}
use ati_tcp_file_transfer.Transport.Server.Text.{
  chunks_missing, byte_count_mismatch, chunk_count_mismatch, cannot_reopen, root_mismatch_manifest,
  root_mismatch_complete, sink_error,
}
use ati_tcp_file_transfer.Transport.Server.Calls.{Server, Failure, send, reject}
use ati_tcp_file_transfer.Transport.Server.Start.{
  handshake, exchange_hello, receive_manifest, choose_dest, state_path, load_state, on_sink,
  open_dest, request_chunks,
}
use ati_tcp_file_transfer.Transport.Server.Receive.{Progress, start_progress, receive_chunks}

unfoldable pub check_inventory :
    (v : Server) → ManifestMsg → Bool → Progress v.hash.Hasher → Exec Failure (Unit {0})
check_inventory v manifest resume_active p =
    if resume_active
    then (if not (complete p.state)
        then reject v ErrorCode.protocol_violation chunks_missing
        else pure tt)
    else if not (p.bytes_received == manifest.file_size)
    then reject v ErrorCode.protocol_violation
        (byte_count_mismatch manifest.file_size p.bytes_received)
    else if not (p.chunks_received == manifest.chunk_count)
    then reject v ErrorCode.protocol_violation chunk_count_mismatch
    else pure tt

-- The block size of the read-back.
abbrev pub block_size : ℕ
block_size = 64 * 1024

-- A block that was read: a read that fails, or that ends at the end of the file, is the last.
unfoldable pub take_block :
    (b : Blake3)
    → (b.Hasher → Exec Failure b.Hasher)
    → b.Hasher
    → Option (List ℕ)
    → Exec Failure b.Hasher
take_block b next h none = pure h
take_block b next h (some block) =
    if ltb (length block) block_size then pure (update b h block) else next (update b h block)

-- `while (fb.good())`, on the rounds that are left.
unfoldable pub hash_blocks : (b : Blake3) → FilePath → ℕ → ℕ → b.Hasher → Exec Failure b.Hasher
hash_blocks b path zero offset h = pure h
hash_blocks b path (suc rounds) offset h = do
  got ← on_files (λ fs. read_bytes fs path offset block_size)
  take_block b (hash_blocks b path rounds (offset + block_size)) h got

-- The bytes of a file, none where there is no file.
abbrev pub stored : Option (List ℕ) → List ℕ
stored none = []
stored (some bytes) = bytes

-- A round that is not the last reads a whole block, so there are no more rounds than bytes.
unfoldable pub hash_file : (b : Blake3) → FilePath → Exec Failure Hash
hash_file b path s =
    (hash_blocks b path (suc (length (stored (s.files.contents path)))) 0 (new_hasher b) >>= λ h.
    pure (finalize b h))
      s

-- The root hash, by the hasher of the loop or from the partial file, and the sink.
unfoldable pub root_hash : (v : Server) → Progress v.hash.Hasher → Exec Failure (Hash × FileSink)
root_hash v p = if p.all_in_order then pure (finalize v.hash p.inorder_root_hasher, p.sink) else do
  (flushed, sink) ← on_sink (FileSink.flush p.sink)
  if not flushed then reject v ErrorCode.internal_error (sink_error sink.last_error) else do
    reopened ← on_files (λ fs. open_existing fs (partial_path sink))
    if not reopened
        then reject v ErrorCode.internal_error cannot_reopen
        else do hash ← hash_file v.hash (partial_path sink); pure (hash, sink)

unfoldable pub check_root_hash : Server → ManifestMsg → Hash → Hash → Exec Failure (Unit {0})
check_root_hash v manifest actual client_final =
    if not (bytes_eq actual manifest.root_hash)
    then reject v ErrorCode.hash_mismatch root_mismatch_manifest
    else if not (bytes_eq actual client_final)
    then reject v ErrorCode.hash_mismatch root_mismatch_complete
    else pure tt

-- `if (!sink.flush() || !sink.finalize())`, and the removal of the resume state.
unfoldable pub commit : Server → FileSink → FilePath → Exec Failure (Unit {0})
commit v sink state_file = do
  (flushed, sink') ← on_sink (FileSink.flush sink)
  if not flushed then reject v ErrorCode.internal_error (sink_error sink'.last_error) else do
    (finalized, sink'') ← on_sink (FileSink.finalize sink')
    if not finalized
        then reject v ErrorCode.internal_error (sink_error sink''.last_error)
        else do on_files (λ fs. (tt, remove fs state_file)); pure tt

unfoldable pub acknowledge : ManifestMsg → Exec Failure (Unit {0})
acknowledge manifest = send FrameType.ack (
    encode_ack
      (record { last_index = if manifest.chunk_count == 0 then 0 else manifest.chunk_count - 1 }))

-- From the destination to the last check of the root hash: the sink whose partial file passed.
unfoldable pub receive_partial : Server → ManifestMsg → FilePath → Exec Failure FileSink
receive_partial v manifest dest = do
  (state, resume_active) ← load_state v manifest dest
  sink ← open_dest v manifest dest resume_active
  request_chunks state
  (p, client_final) ←
      receive_chunks v manifest (state_path dest) (start_progress v.hash state sink resume_active)
  check_inventory v manifest resume_active p
  (actual, sink') ← root_hash v p
  check_root_hash v manifest actual client_final
  pure sink'

-- The session from the destination on.
unfoldable pub receive_file : Server → ManifestMsg → FilePath → Exec Failure (Unit {0})
receive_file v manifest dest = do
  sink ← receive_partial v manifest dest
  commit v sink (state_path dest)
  acknowledge manifest

unfoldable pub session : Server → Exec Failure (Unit {0})
session v = do
  handshake v
  exchange_hello v
  manifest ← receive_manifest v
  dest ← choose_dest v manifest
  receive_file v manifest dest

abbrev pub is_ok : {E A : Type 0} → Result E A → Bool
is_ok (ok a) = true
is_ok (err e) = false

unfoldable pub handle_session : Server → Session → Bool × Session
handle_session v s = let (r, s') = session v s in (is_ok r, s')
