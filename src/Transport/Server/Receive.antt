-- ===== src/Transport/Server/Receive.antt =====
-- The CHUNK loop of Server::handle_session_.
use ati_tcp_file_transfer.Base.{
  ℕ, zero, suc, ◌+◌, ◌*◌, ◌%◌, ◌==◌, ltb, if◌then◌else◌, not, Bool, false,
}
use ati_tcp_file_transfer.Base.{◌&&◌, bytes_eq, Option, none, some, [], length, get_or}
use ati_tcp_file_transfer.Util.Byteorder.{u32_mod, u64_mod}
use ati_tcp_file_transfer.Util.Blake3.{Blake3, blake3, update, new_hasher}
use ati_tcp_file_transfer.Proto.Types.{FrameType, type_eq}
use ati_tcp_file_transfer.Proto.ErrorCode
use ati_tcp_file_transfer.Proto.Frame.{Frame}
use ati_tcp_file_transfer.Proto.Cursor.{Hash}
use ati_tcp_file_transfer.Proto.Messages.{
  ManifestMsg, ChunkMsg, CompleteMsg, decode_chunk, decode_complete,
}
use ati_tcp_file_transfer.Io.Files.{FilePath}
use ati_tcp_file_transfer.Io.FileSink.{FileSink, write_at}
use ati_tcp_file_transfer.Io.ResumeState.{ResumeState, mark_received}
use ati_tcp_file_transfer.Io.ResumeState.Save.{save}
use ati_tcp_file_transfer.Transport.Session.{Exec, pure, stop, ◌>>=◌, ◌>>◌, on_files}
use ati_tcp_file_transfer.Transport.Server.Text.{
  malformed_complete, malformed_chunk, expected_chunk_or_complete, index_out_of_range,
  hash_mismatch_at, diverges_at, sink_error,
}
use ati_tcp_file_transfer.Transport.Server.Calls.{Server, Failure, out_of_rounds, recv_any, reject}
use ati_tcp_file_transfer.Transport.Server.Start.{on_sink}

-- The variables of the loop.
pub record Progress (H : Type 0) : Type 0 where
  pub state : ResumeState
  pub sink : FileSink
  pub bytes_received : ℕ
  pub chunks_received : ℕ
  pub inorder_root_hasher : H
  pub all_in_order : Bool
  pub next_expected : ℕ

-- What a round of the loop leads to: the next one, or the `break` with the hash of COMPLETE.
pub data Next (H : Type 0) : Type 0 where
  more : Progress H → Next H
  completed : Hash → Next H

abbrev pub start_progress : (b : Blake3) → ResumeState → FileSink → Bool → Progress b.Hasher
start_progress b state sink resume_active = record {
  state = state;
  sink = sink;
  bytes_received = 0;
  chunks_received = 0;
  inorder_root_hasher = new_hasher b;
  all_in_order = not resume_active;
  next_expected = 0;
}

-- `if (all_in_order && chunk->index == next_expected) … else all_in_order = false;`
unfoldable pub take_in_order : (b : Blake3) → Progress b.Hasher → ChunkMsg → Progress b.Hasher
take_in_order b p chunk =
    if p.all_in_order && chunk.index == p.next_expected
    then record p {
      inorder_root_hasher = update b p.inorder_root_hasher chunk.bytes;
      next_expected = (p.next_expected + 1) % u32_mod;
    }
    else record p { all_in_order = false }

-- The write of a chunk that has passed its checks, and the save of the resume state, whose result is
-- not looked at. The offset is a product of two uint32 in uint64.
unfoldable pub store_chunk :
    (v : Server)
    → ManifestMsg
    → FilePath
    → Progress v.hash.Hasher
    → ChunkMsg
    → Exec Failure (Progress v.hash.Hasher)
store_chunk v manifest state_file p chunk = do
  (written, sink) ←
      on_sink (λ fs. write_at p.sink fs (chunk.index * manifest.chunk_size) chunk.bytes)
  if not written then reject v ErrorCode.internal_error (sink_error sink.last_error) else do
    let state = mark_received p.state chunk.index
    on_files (λ fs. save state fs state_file)
    pure (record p {
      state = state;
      sink = sink;
      bytes_received = (p.bytes_received + length chunk.bytes) % u64_mod;
      chunks_received = (p.chunks_received + 1) % u32_mod;
    })

unfoldable pub on_chunk :
    (v : Server)
    → ManifestMsg
    → FilePath
    → Progress v.hash.Hasher
    → ChunkMsg
    → Exec Failure (Progress v.hash.Hasher)
on_chunk v manifest state_file p chunk =
    if not (ltb chunk.index manifest.chunk_count)
    then reject v ErrorCode.protocol_violation index_out_of_range
    else if not (bytes_eq (blake3 v.hash chunk.bytes) chunk.hash)
    then reject v ErrorCode.hash_mismatch (hash_mismatch_at chunk.index)
    else if not (bytes_eq (get_or manifest.chunk_hashes chunk.index []) chunk.hash)
    then reject v ErrorCode.hash_mismatch (diverges_at chunk.index)
    else store_chunk v manifest state_file (take_in_order v.hash p chunk) chunk

unfoldable pub on_complete : {H : Type 0} → Server → Option CompleteMsg → Exec Failure (Next H)
on_complete v none = reject v ErrorCode.protocol_violation malformed_complete
on_complete v (some complete) = pure (completed complete.final_root_hash)

unfoldable pub on_chunk_frame :
    (v : Server)
    → ManifestMsg
    → FilePath
    → Progress v.hash.Hasher
    → Option ChunkMsg
    → Exec Failure (Next v.hash.Hasher)
on_chunk_frame v manifest state_file p none = reject v ErrorCode.protocol_violation malformed_chunk
on_chunk_frame v manifest state_file p (some chunk) =
    on_chunk v manifest state_file p chunk >>= λ p'. pure (more p')

unfoldable pub on_frame :
    (v : Server)
    → ManifestMsg
    → FilePath
    → Progress v.hash.Hasher
    → Frame
    → Exec Failure (Next v.hash.Hasher)
on_frame v manifest state_file p frame =
    if type_eq frame.header.type FrameType.complete
    then on_complete v (decode_complete frame.payload)
    else if not (type_eq frame.header.type FrameType.chunk)
    then reject v ErrorCode.protocol_violation expected_chunk_or_complete
    else on_chunk_frame v manifest state_file p (decode_chunk frame.payload)

-- The `break`, or the next round.
unfoldable pub next_round :
    {H : Type 0}
    → (Progress H → Exec Failure (Progress H × Hash))
    → Progress H
    → Next H
    → Exec Failure (Progress H × Hash)
next_round loop p (completed hash) = pure (p, hash)
next_round loop p (more p') = loop p'

-- `while (true)`, on the rounds that are left.
unfoldable pub receive_loop :
    (v : Server)
    → ManifestMsg
    → FilePath
    → ℕ
    → Progress v.hash.Hasher
    → Exec Failure (Progress v.hash.Hasher × Hash)
receive_loop v manifest state_file zero p = stop out_of_rounds
receive_loop v manifest state_file (suc rounds) p = do
  frame ← recv_any
  next ← on_frame v manifest state_file p frame
  next_round (receive_loop v manifest state_file rounds) p next

-- A round takes a header off the incoming bytes, so there are no more rounds than bytes.
unfoldable pub receive_chunks :
    (v : Server)
    → ManifestMsg
    → FilePath
    → Progress v.hash.Hasher
    → Exec Failure (Progress v.hash.Hasher × Hash)
receive_chunks v manifest state_file p s =
    receive_loop v manifest state_file (suc (length s.conn.incoming)) p s
