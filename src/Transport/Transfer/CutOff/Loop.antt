-- ===== src/Transport/Transfer/CutOff/Loop.antt =====
-- The loop over the chunks, whatever the client sends: what it leaves on the disk is resumable.
use mathlib.Core.Path.{subst⁻¹}
use ati_tcp_file_transfer.Base.{
  ℕ, zero, suc, ◌+◌, ◌*◌, ◌%◌, ◌<◌, ltb, ltb→lt, ◌≡◌, ap, ◌∙◌, not, Bool, true, false,
}
use ati_tcp_file_transfer.Base.{bytes_eq, Option, none, some, List, [], length, get_or}
use ati_tcp_file_transfer.Util.Byteorder.{u32_mod, u64_mod}
use ati_tcp_file_transfer.Util.Blake3.{IsStreaming, blake3}
use ati_tcp_file_transfer.Proto.Types.{FrameType, type_eq}
use ati_tcp_file_transfer.Proto.Cursor.{Hash}
use ati_tcp_file_transfer.Proto.Frame.{Frame}
use ati_tcp_file_transfer.Proto.Messages.{
  ManifestMsg, ChunkMsg, CompleteMsg, decode_complete, decode_chunk,
}
use ati_tcp_file_transfer.Io.Files.{FilePath}
use ati_tcp_file_transfer.Io.FileSink.{FileSink, write_at}
use ati_tcp_file_transfer.Io.ResumeState.{ResumeState, mark_received}
use ati_tcp_file_transfer.Transport.Session.{Session, Exec}
use ati_tcp_file_transfer.Transport.Session.Rules.{
  Runs, Runs-pure, Runs-stop, Runs-if, Runs-or_stop, Runs-on_connection, Runs-on_files, Runs-bind,
  Runs-bind_known,
}
use ati_tcp_file_transfer.Transport.Server.Text.{Text}
use ati_tcp_file_transfer.Transport.Server.Calls.{Server, Failure, recv_any, reject}
use ati_tcp_file_transfer.Transport.Server.Start.{state_path, manifest_id}
use ati_tcp_file_transfer.Transport.Server.Receive.{
  Progress, Next, more, completed, take_in_order, store_chunk, on_chunk, on_complete,
  on_chunk_frame, on_frame, next_round, receive_loop, receive_chunks,
}
use ati_tcp_file_transfer.Transport.Server.Honest.{slice, IsBinding}
use ati_tcp_file_transfer.Transport.Server.Safety.{reject_keeps_files}
use ati_tcp_file_transfer.Transport.Server.Store.{IsChunk, not-false}
use ati_tcp_file_transfer.Transport.Server.Store.Chunks.{IsChunk-of_file}
use ati_tcp_file_transfer.Transport.Transfer.{IsTransferable, file_manifest}
use ati_tcp_file_transfer.Transport.Transfer.Fits.{manifest_honest}
use ati_tcp_file_transfer.Transport.Transfer.Resume.Store.{
  Steady, Partial, Steady-marked, kept, written,
}
use ati_tcp_file_transfer.Transport.Transfer.CutOff.{
  Resumable, Storing, Storing-Resumable, saved_Storing, id-marked,
}

module _ (v : Server) (k : ℕ) (c path : List ℕ) (dest : FilePath) (ok : IsTransferable k c path)
    (streaming : IsStreaming v.hash)
    (binding : IsBinding v.hash c (file_manifest v.hash k c path)) where
  abbrev m : ManifestMsg
  m = file_manifest v.hash k c path

  abbrev pub Stores : Progress v.hash.Hasher → Session → Type 0
  Stores q s = Storing v k c path dest ok streaming q s.files

  -- Where a session ends early.
  abbrev pub CutOff : Failure → Session → Type 0
  CutOff e s = Resumable v k c path dest ok streaming s.files

  pub rejects :
      {A : Type 0} (q : Progress v.hash.Hasher) (Q : A → Session → Type 0) (code : ℕ) (text : Text)
      → Runs (Stores q) (reject {A = A} v code text) Q CutOff
  rejects q Q code text =
      reject_keeps_files (Storing v k c path dest ok streaming q)
        (λ s. Resumable v k c path dest ok streaming s.files)
        (λ s d. Storing-Resumable v k c path dest ok streaming q s.files d) Q v code text

  recv_any-Stores : (q : Progress v.hash.Hasher) → Runs (Stores q) recv_any (λ _. Stores q) CutOff
  unfolding recv_any
  recv_any-Stores q =
      Runs-bind _ _ CutOff (λ _. Stores q) _ _
        (Runs-on_connection _ (λ _. Stores q) CutOff _ (λ s d. d))
        (λ frame.
          Runs-or_stop _ (λ _. Stores q) CutOff frame Failure.recv_failed (λ _ _ s d. d)
            (λ s d. Storing-Resumable v k c path dest ok streaming q s.files d))

  module _ (q : Progress v.hash.Hasher) (i : ℕ) (hash : Hash) (h : i < m.chunk_count) where
    abbrev chunk : ChunkMsg
    chunk = record { index = i; hash = hash; bytes = slice k c i }

    abbrev q' : Progress v.hash.Hasher
    q' = take_in_order v.hash q chunk

    abbrev after : Progress v.hash.Hasher
    after = record {
      state = mark_received q'.state i;
      sink = q'.sink;
      bytes_received = (q'.bytes_received + length (slice k c i)) % u64_mod;
      chunks_received = (q'.chunks_received + 1) % u32_mod;
      inorder_root_hasher = q'.inorder_root_hasher;
      all_in_order = q'.all_in_order;
      next_expected = q'.next_expected;
    }

    marked : after.state ≡ mark_received q.state i
    marked =
        ap (λ (x : ResumeState). mark_received x i) (kept v k c path dest ok streaming q chunk).1

    store_chunk-Stores : Runs (Stores q) (store_chunk v m (state_path dest) q' chunk) Stores CutOff
    unfolding store_chunk
    store_chunk-Stores =
        let (sink, _, _) = kept v k c path dest ok streaming q chunk in
        let Q : Progress v.hash.Hasher → Session → Type 0 = Stores in
        let Ready' : Session → Type 0 = λ s.
          Steady v k c path dest ok streaming after
          × (after.state.manifest_id ≡ manifest_id v m)
          × Partial v k c path dest ok streaming after.state s.files in
        Runs-bind_known (Stores q) Ready' Q CutOff (true, q'.sink) _ _
          (Runs-on_files (Stores q) _ CutOff _ (λ s d.
            let (good, same_sink, partial) =
              written v k c path dest ok streaming i q q'.sink s.files h sink d.steady d.partial in
            (
              ap (λ (x : Bool). (x, (write_at q'.sink s.files (i * k) (slice k c i)).1)) good
                  ∙ ap (λ (x : FileSink). (true, x)) same_sink,
              (
                Steady-marked v k c path dest ok streaming i q after sink marked d.steady,
                id-marked v k c path dest ok streaming q after i marked d.id,
                rw marked partial,
              ),
            )))
          (Runs-bind Ready' Q CutOff (λ _. Stores after) _ _
            (Runs-on_files Ready' (λ _. Stores after) CutOff _
              (λ s (steady, id, partial).
                saved_Storing v k c path dest ok streaming after s.files steady id partial))
            (λ _. Runs-pure (Stores after) Q CutOff after (λ s d. d)))

  store_chunk-Stores_file :
      (q : Progress v.hash.Hasher) (chunk : ChunkMsg)
      → IsChunk c m false chunk
      → Runs
          (Stores q)
          (store_chunk v m (state_path dest) (take_in_order v.hash q chunk) chunk)
          Stores
          CutOff
  store_chunk-Stores_file q chunk is_chunk =
      let same : chunk
          ≡ record { index = chunk.index; hash = chunk.hash; bytes = slice k c chunk.index } =
        ap
          (λ (b : List ℕ).
            let x : ChunkMsg = record { index = chunk.index; hash = chunk.hash; bytes = b } in x)
          is_chunk.bytes in
      subst⁻¹
        (λ (x : ChunkMsg).
          Runs (Stores q) (store_chunk v m (state_path dest) (take_in_order v.hash q x) x) Stores
            CutOff)
        same (store_chunk-Stores q chunk.index chunk.hash is_chunk.index)

  on_chunk-Stores :
      (q : Progress v.hash.Hasher) (chunk : ChunkMsg)
      → Runs (Stores q) (on_chunk v m (state_path dest) q chunk) Stores CutOff
  unfolding on_chunk
  on_chunk-Stores q chunk =
      let P = Stores q in
      let honest = manifest_honest k c path ok v.hash streaming in
      Runs-if P Stores CutOff (not (ltb chunk.index m.chunk_count)) _ _ (λ _. rejects q Stores _ _)
        λ index.
          Runs-if P Stores CutOff (not (bytes_eq (blake3 v.hash chunk.bytes) chunk.hash)) _ _
            (λ _. rejects q Stores _ _)
            λ computed.
              Runs-if P Stores CutOff
                (not (bytes_eq (get_or m.chunk_hashes chunk.index []) chunk.hash)) _ _
                (λ _. rejects q Stores _ _)
                λ declared. store_chunk-Stores_file q chunk (
                  IsChunk-of_file v c m false dest honest chunk binding
                    (ltb→lt _ _ (not-false _ index)) (not-false _ computed) (not-false _ declared))

  -- The next round goes on from a state that is stored; `break` leaves it as it was.
  abbrev Onward : Progress v.hash.Hasher → Next v.hash.Hasher → Session → Type 0
  Onward q (more p) s = Stores p s
  Onward q (completed hash) s = Stores q s

  on_complete-Stores :
      (q : Progress v.hash.Hasher) (decoded : Option CompleteMsg)
      → Runs (Stores q) (on_complete v decoded) (Onward q) CutOff
  unfolding on_complete
  on_complete-Stores q none = rejects q (Onward q) _ _
  on_complete-Stores q (some complete) = Runs-pure _ (Onward q) CutOff _ (λ s d. d)

  on_chunk_frame-Stores :
      (q : Progress v.hash.Hasher) (decoded : Option ChunkMsg)
      → Runs (Stores q) (on_chunk_frame v m (state_path dest) q decoded) (Onward q) CutOff
  unfolding on_chunk_frame
  on_chunk_frame-Stores q none = rejects q (Onward q) _ _
  on_chunk_frame-Stores q (some chunk) =
      Runs-bind _ (Onward q) CutOff Stores _ _ (on_chunk-Stores q chunk)
        (λ p. Runs-pure (Stores p) (Onward q) CutOff (more p) (λ s d. d))

  on_frame-Stores :
      (q : Progress v.hash.Hasher) (frame : Frame)
      → Runs (Stores q) (on_frame v m (state_path dest) q frame) (Onward q) CutOff
  unfolding on_frame
  on_frame-Stores q frame =
      Runs-if _ (Onward q) CutOff (type_eq frame.header.type FrameType.complete) _ _
        (λ _. on_complete-Stores q (decode_complete frame.payload))
        (λ _.
          Runs-if _ (Onward q) CutOff (not (type_eq frame.header.type FrameType.chunk)) _ _
            (λ _. rejects q (Onward q) _ _)
            (λ _. on_chunk_frame-Stores q (decode_chunk frame.payload)))

  abbrev pub Stored : Progress v.hash.Hasher × Hash → Session → Type 0
  Stored r = Stores r.0

  next_round-Stores :
      (loop : Progress v.hash.Hasher → Exec Failure (Progress v.hash.Hasher × Hash))
      → ((p : Progress v.hash.Hasher) → Runs (Stores p) (loop p) Stored CutOff)
      → (q : Progress v.hash.Hasher) (next : Next v.hash.Hasher)
      → Runs (Onward q next) (next_round loop q next) Stored CutOff
  unfolding next_round
  next_round-Stores loop rest q (more p) = rest p
  next_round-Stores loop rest q (completed hash) = Runs-pure _ Stored CutOff (q, hash) (λ s d. d)

  receive_loop-Stores :
      (rounds : ℕ) (q : Progress v.hash.Hasher)
      → Runs (Stores q) (receive_loop v m (state_path dest) rounds q) Stored CutOff
  unfolding receive_loop
  receive_loop-Stores zero q =
      Runs-stop _ Stored CutOff _
        (λ s d. Storing-Resumable v k c path dest ok streaming q s.files d)
  receive_loop-Stores (suc rounds) q =
      Runs-bind _ Stored CutOff (λ _. Stores q) _ _ (recv_any-Stores q)
        (λ frame.
          Runs-bind _ Stored CutOff (Onward q) _ _ (on_frame-Stores q frame)
            (next_round-Stores _ (receive_loop-Stores rounds) q))

  pub receive_chunks-Stores :
      (q : Progress v.hash.Hasher)
      → Runs (Stores q) (receive_chunks v m (state_path dest) q) Stored CutOff
  unfolding receive_chunks
  receive_chunks-Stores q = record {
    at = λ s d. (receive_loop-Stores (suc (length s.conn.incoming)) q).at s d;
  }
