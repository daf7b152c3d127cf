-- ===== src/Transport/Server/Keeps/Body.antt =====
-- Which files the loop over the chunks and the end of a session change.
use ati_tcp_file_transfer.Base.{ℕ, zero, suc, ◌*◌, ltb, ◌≡◌, ◌≢◌, ap, ◌∙◌, arith, not}
use ati_tcp_file_transfer.Base.{bytes_eq, Option, none, some, List, [], length, get_or}
use ati_tcp_file_transfer.Util.Blake3.{Blake3, blake3}
use ati_tcp_file_transfer.Proto.Types.{FrameType, type_eq}
use ati_tcp_file_transfer.Proto.Frame.{Frame}
use ati_tcp_file_transfer.Proto.Cursor.{Hash}
use ati_tcp_file_transfer.Proto.Messages.{
  ManifestMsg, ChunkMsg, CompleteMsg, decode_chunk, decode_complete,
}
use ati_tcp_file_transfer.Io.Files.{FilePath}
use ati_tcp_file_transfer.Io.FileSink.{FileSink, file_sink, with_partial_suffix, partial_path}
use ati_tcp_file_transfer.Io.FileSink.Others.{write_at-others, write_at-final_path}
use ati_tcp_file_transfer.Io.ResumeState.{mark_received}
use ati_tcp_file_transfer.Io.ResumeState.Save.{tmp_path}
use ati_tcp_file_transfer.Io.ResumeState.Save.Laws.{save-others}
use ati_tcp_file_transfer.Transport.Session.{Session, Exec}
use ati_tcp_file_transfer.Transport.Session.Rules.{
  Keeps, Keeps-pure, Keeps-stop, Keeps-if, Keeps-on_files, Keeps-bind,
}
use ati_tcp_file_transfer.Transport.Server.Calls.{Server, Failure}
use ati_tcp_file_transfer.Transport.Server.Start.{state_path}
use ati_tcp_file_transfer.Transport.Server.Receive.{
  Progress, Next, more, completed, take_in_order, store_chunk, on_chunk, on_complete,
  on_chunk_frame, on_frame, next_round, receive_loop, receive_chunks,
}
use ati_tcp_file_transfer.Transport.Server.Keeps.{Any, SinkOf, K, recv_any-Keeps, reject-Keeps}

take_in_order-sink :
    (b : Blake3) (q : Progress b.Hasher) (c : ChunkMsg) → (take_in_order b q c).sink ≡ q.sink
unfolding take_in_order
take_in_order-sink b q c = ground arith

-- A path other than the partial file, the resume state and its temporary file.
pub record IsApart (p dest : FilePath) : Type 0 where
  pub partial : p ≢ partial_path (file_sink dest)
  pub state : p ≢ state_path dest
  pub tmp : p ≢ tmp_path (state_path dest)

module _ (p : FilePath) (o : Option (List ℕ)) (v : Server) (m : ManifestMsg) (dest : FilePath)
    (apart : IsApart p dest) where
  abbrev pub Kept : Session → Type 0
  Kept = K p o

  abbrev ProgressOf : Progress v.hash.Hasher → Type 0
  ProgressOf q = SinkOf dest q.sink

  abbrev NextOf : Next v.hash.Hasher → Type 0
  NextOf (more q) = ProgressOf q
  NextOf (completed h) = Unit {0}

  store_chunk-Keeps :
      (q : Progress v.hash.Hasher) (c : ChunkMsg)
      → ProgressOf q
      → Keeps Kept (store_chunk v m (state_path dest) q c) ProgressOf
  unfolding store_chunk
  store_chunk-Keeps q c good =
      Keeps-bind Kept (λ r. SinkOf dest r.1) ProgressOf _ _
        (Keeps-on_files Kept (λ r. SinkOf dest r.1) _
          (λ s h. (
            write_at-final_path q.sink s.files (c.index * m.chunk_size) c.bytes ∙ good,
            write_at-others q.sink s.files (c.index * m.chunk_size) c.bytes p
                  (λ e. apart.partial (e ∙ ap with_partial_suffix good))
                ∙ h,
          )))
        λ (written, sink) good'.
          Keeps-if Kept ProgressOf (not written) _ _ (λ _. reject-Keeps p o ProgressOf v _ _)
            λ _.
              Keeps-bind Kept Any ProgressOf _ _
                (Keeps-on_files Kept Any _ (λ s h. (
                  tt,
                  save-others (mark_received q.state c.index) s.files (state_path dest) p
                        apart.state apart.tmp
                      ∙ h,
                )))
                λ _ _. Keeps-pure Kept ProgressOf _ good'

  on_chunk-Keeps :
      (q : Progress v.hash.Hasher) (c : ChunkMsg)
      → ProgressOf q
      → Keeps Kept (on_chunk v m (state_path dest) q c) ProgressOf
  unfolding on_chunk
  on_chunk-Keeps q c good =
      Keeps-if Kept ProgressOf (not (ltb c.index m.chunk_count)) _ _
        (λ _. reject-Keeps p o ProgressOf v _ _)
        λ _.
          Keeps-if Kept ProgressOf (not (bytes_eq (blake3 v.hash c.bytes) c.hash)) _ _
            (λ _. reject-Keeps p o ProgressOf v _ _)
            λ _.
              Keeps-if Kept ProgressOf (not (bytes_eq (get_or m.chunk_hashes c.index []) c.hash)) _
                _ (λ _. reject-Keeps p o ProgressOf v _ _)
                λ _.
                  store_chunk-Keeps (take_in_order v.hash q c) c
                    (ap (λ (k : FileSink). k.final_path) (take_in_order-sink v.hash q c) ∙ good)

  on_complete-Keeps : (c : Option CompleteMsg) → Keeps Kept (on_complete v c) NextOf
  unfolding on_complete
  on_complete-Keeps none = reject-Keeps p o NextOf v _ _
  on_complete-Keeps (some c) = Keeps-pure Kept NextOf _ tt

  on_chunk_frame-Keeps :
      (q : Progress v.hash.Hasher) (c : Option ChunkMsg)
      → ProgressOf q
      → Keeps Kept (on_chunk_frame v m (state_path dest) q c) NextOf
  unfolding on_chunk_frame
  on_chunk_frame-Keeps q none good = reject-Keeps p o NextOf v _ _
  on_chunk_frame-Keeps q (some c) good =
      Keeps-bind Kept ProgressOf NextOf _ _ (on_chunk-Keeps q c good)
        λ q' good'. Keeps-pure Kept NextOf (more q') good'

  on_frame-Keeps :
      (q : Progress v.hash.Hasher) (f : Frame)
      → ProgressOf q
      → Keeps Kept (on_frame v m (state_path dest) q f) NextOf
  unfolding on_frame
  on_frame-Keeps q f good =
      Keeps-if Kept NextOf (type_eq f.header.type FrameType.complete) _ _
        (λ _. on_complete-Keeps (decode_complete f.payload))
        λ _.
          Keeps-if Kept NextOf (not (type_eq f.header.type FrameType.chunk)) _ _
            (λ _. reject-Keeps p o NextOf v _ _)
            λ _. on_chunk_frame-Keeps q (decode_chunk f.payload) good

  next_round-Keeps :
      (loop : Progress v.hash.Hasher → Exec Failure (Progress v.hash.Hasher × Hash))
      → ((q : Progress v.hash.Hasher) → ProgressOf q → Keeps Kept (loop q) (λ r. ProgressOf r.0))
      → (q : Progress v.hash.Hasher) (n : Next v.hash.Hasher) → ProgressOf q
      → NextOf n
      → Keeps Kept (next_round loop q n) (λ r. ProgressOf r.0)
  unfolding next_round
  next_round-Keeps loop rest q (more q') good good' = rest q' good'
  next_round-Keeps loop rest q (completed h) good good' =
      Keeps-pure Kept (λ r. ProgressOf r.0) (q, h) good

  receive_loop-Keeps :
      (rounds : ℕ) (q : Progress v.hash.Hasher)
      → ProgressOf q
      → Keeps Kept (receive_loop v m (state_path dest) rounds q) (λ r. ProgressOf r.0)
  unfolding receive_loop
  receive_loop-Keeps zero q good = Keeps-stop Kept (λ r. ProgressOf r.0) _
  receive_loop-Keeps (suc rounds) q good =
      Keeps-bind Kept Any (λ r. ProgressOf r.0) _ _ (recv_any-Keeps p o)
        λ f _.
          Keeps-bind Kept NextOf (λ r. ProgressOf r.0) _ _ (on_frame-Keeps q f good)
            λ n good'. next_round-Keeps _ (receive_loop-Keeps rounds) q n good good'

  pub receive_chunks-Keeps :
      (q : Progress v.hash.Hasher)
      → ProgressOf q
      → Keeps Kept (receive_chunks v m (state_path dest) q) (λ r. ProgressOf r.0)
  unfolding receive_chunks
  receive_chunks-Keeps q good = record {
    at = λ s. (receive_loop-Keeps (suc (length s.conn.incoming)) q good).at s;
  }
