-- ===== src/Transport/Server/Integrity.antt =====
-- A session that succeeds on the manifest of a file has put that file at the destination.
pub mod RootHash
pub mod File
use ati_tcp_file_transfer.Base.{
  ℕ, zero, suc, ◌+◌, ◌*◌, ◌==◌, ◌≤◌, ◌≡◌, ◌≢◌, ◌⊎◌, sym, ◌∙◌, arith, if◌then◌else◌, not, Bool, true,
}
use ati_tcp_file_transfer.Base.{inl, inr, bytes_eq→eq, Option, none, some, List, [], ◌∷◌, length}
use ati_tcp_file_transfer.Util.Blake3.{Blake3}
use ati_tcp_file_transfer.Proto.Types.{FrameType, type_eq}
use ati_tcp_file_transfer.Proto.ErrorCode
use ati_tcp_file_transfer.Proto.Frame.{Frame}
use ati_tcp_file_transfer.Proto.Cursor.{Hash}
use ati_tcp_file_transfer.Proto.Messages.{
  ManifestMsg, ChunkMsg, CompleteMsg, decode_chunk, decode_complete,
}
use ati_tcp_file_transfer.Io.Files.{FilePath, Files}
use ati_tcp_file_transfer.Io.Files.Calm.{IsCalm}
use ati_tcp_file_transfer.Io.FileSink.{FileSink, with_partial_suffix}
use ati_tcp_file_transfer.Io.FileSink
use ati_tcp_file_transfer.Io.ResumeState.{complete}
use ati_tcp_file_transfer.Transport.Session.{
  Session, Exec, pure, ◌>>=◌, ◌>>◌, on_connection, or_stop,
}
use ati_tcp_file_transfer.Transport.Session.Rules.{
  Runs, Runs-pure, Runs-stop, Runs-if, Runs-or_stop, Runs-on_connection, Runs-bind,
}
use ati_tcp_file_transfer.Transport.Server.Calls.{Server, Failure, recv_any}
use ati_tcp_file_transfer.Transport.Server.Start.{state_path}
use ati_tcp_file_transfer.Transport.Server.Receive.{
  Progress, Next, more, completed, on_chunk, on_complete, on_chunk_frame, on_frame, next_round,
  receive_loop, receive_chunks,
}
use ati_tcp_file_transfer.Transport.Server.Finish.{check_inventory}
use ati_tcp_file_transfer.Transport.Server.Keeps.{SinkOf}
use ati_tcp_file_transfer.Transport.Server.ReadBack.{Never}
use ati_tcp_file_transfer.Transport.Server.Honest.{IsManifestOf, IsBinding, Agrees, Agrees-whole}
use ati_tcp_file_transfer.Transport.Server.Store.Chunks.{on_chunk-Runs}
use ati_tcp_file_transfer.Transport.Server.Store.{rejects, InOrder, Filled, Inv}

-- A frame is received without a look at the files.
recv_any-Runs : (F : Files → Type 0) → Runs (λ s. F s.files) recv_any (λ _ s. F s.files) Never
unfolding recv_any
recv_any-Runs F =
    Runs-bind (λ s. F s.files) (λ _ s. F s.files) Never (λ _ s. F s.files) _ _
      (Runs-on_connection (λ s. F s.files) (λ _ s. F s.files) Never _ (λ s h. h))
      λ frame.
        Runs-or_stop (λ s. F s.files) (λ _ s. F s.files) Never frame Failure.recv_failed
          (λ f e s h. h) (λ s h. tt)

-- Where all chunks arrived in order, the content is the file.
pub whole-InOrder :
    (b : Blake3) (c : List ℕ) (m : ManifestMsg) (resume : Bool) (next chunks : ℕ) (w : List ℕ)
    → IsManifestOf b c m
    → InOrder c m resume next chunks w
    → chunks ≡ m.chunk_count
    → w ≡ c
whole-InOrder b c m resume next chunks w honest o all =
    let count : next ≡ m.chunk_count = sym o.counted ∙ all in
    let covered : length c ≤ next * m.chunk_size = rw count honest.covered in
    Agrees-whole (next * m.chunk_size) w c o.agrees covered

module _ (v : Server) (c : List ℕ) (m : ManifestMsg) (dest : FilePath)
    (honest : IsManifestOf v.hash c m) (binding : IsBinding v.hash c m) where
  module _ (resume : Bool) where
    abbrev I : Progress v.hash.Hasher → Session → Type 0
    I = Inv c m resume dest

    abbrev AfterFrame : Progress v.hash.Hasher → Next v.hash.Hasher → Session → Type 0
    AfterFrame q (more q') = I q'
    AfterFrame q (completed h) = I q

    on_complete-Runs :
        (q : Progress v.hash.Hasher) (msg : Option CompleteMsg)
        → Runs (I q) (on_complete v msg) (AfterFrame q) Never
    unfolding on_complete
    on_complete-Runs q none = rejects (I q) (AfterFrame q) v _ _
    on_complete-Runs q (some msg) = Runs-pure (I q) (AfterFrame q) Never _ (λ s h. h)

    on_chunk_frame-Runs :
        (q : Progress v.hash.Hasher) (msg : Option ChunkMsg)
        → Runs (I q) (on_chunk_frame v m (state_path dest) q msg) (AfterFrame q) Never
    unfolding on_chunk_frame
    on_chunk_frame-Runs q none = rejects (I q) (AfterFrame q) v _ _
    on_chunk_frame-Runs q (some chunk) =
        Runs-bind (I q) (AfterFrame q) Never I _ _
          (on_chunk-Runs v c m resume dest honest q chunk binding)
          (λ q'. Runs-pure (I q') (AfterFrame q) Never (more q') (λ s h. h))

    on_frame-Runs :
        (q : Progress v.hash.Hasher) (f : Frame)
        → Runs (I q) (on_frame v m (state_path dest) q f) (AfterFrame q) Never
    unfolding on_frame
    on_frame-Runs q f =
        Runs-if (I q) (AfterFrame q) Never (type_eq f.header.type FrameType.complete) _ _
          (λ _. on_complete-Runs q (decode_complete f.payload))
          λ _.
            Runs-if (I q) (AfterFrame q) Never (not (type_eq f.header.type FrameType.chunk)) _ _
              (λ _. rejects (I q) (AfterFrame q) v _ _)
              (λ _. on_chunk_frame-Runs q (decode_chunk f.payload))

    abbrev AfterLoop : Progress v.hash.Hasher × Hash → Session → Type 0
    AfterLoop r = I r.0

    next_round-Runs :
        (loop : Progress v.hash.Hasher → Exec Failure (Progress v.hash.Hasher × Hash))
        → ((q : Progress v.hash.Hasher) → Runs (I q) (loop q) AfterLoop Never)
        → (q : Progress v.hash.Hasher) (n : Next v.hash.Hasher)
        → Runs (AfterFrame q n) (next_round loop q n) AfterLoop Never
    unfolding next_round
    next_round-Runs loop rest q (more q') = rest q'
    next_round-Runs loop rest q (completed h) = Runs-pure (I q) AfterLoop Never (q, h) (λ s k. k)

    receive_loop-Runs :
        (rounds : ℕ) (q : Progress v.hash.Hasher)
        → Runs (I q) (receive_loop v m (state_path dest) rounds q) AfterLoop Never
    unfolding receive_loop
    receive_loop-Runs zero q = Runs-stop (I q) AfterLoop Never _ (λ s h. tt)
    receive_loop-Runs (suc rounds) q =
        Runs-bind (I q) AfterLoop Never (λ _. I q) _ _
          (recv_any-Runs
            (Filled c m resume dest q.sink q.all_in_order q.next_expected q.chunks_received))
          λ f.
            Runs-bind (I q) AfterLoop Never (AfterFrame q) _ _ (on_frame-Runs q f)
              (next_round-Runs _ (receive_loop-Runs rounds) q)

    receive_chunks-Runs :
        (q : Progress v.hash.Hasher)
        → Runs (I q) (receive_chunks v m (state_path dest) q) AfterLoop Never
    unfolding receive_chunks
    receive_chunks-Runs q = record {
      at = λ s. (receive_loop-Runs (suc (length s.conn.incoming)) q).at s;
    }

    -- The content behind the inventory: the file, where the chunks came in order.
    pub record Checked (sink : FileSink) (in_order : Bool) (fs : Files) : Type 0 where
      pub sink_of : SinkOf dest sink
      pub calm : IsCalm fs
      pub content : List ℕ
      pub there : fs.contents (with_partial_suffix dest) ≡ some content
      pub whole : in_order ≡ true → content ≡ c

    checked :
        (q : Progress v.hash.Hasher) (s : Session)
        → I q s
        → (resume ≡ true) ⊎ (q.chunks_received ≡ m.chunk_count)
        → Checked q.sink q.all_in_order s.files
    checked q s i passed = record {
      sink_of = i.sink_of;
      calm = i.calm;
      content = i.content;
      there = i.there;
      whole = λ e.
          let o = i.ordered e in
          elim passed [
            | inl resumed ↦ absurd (ground (arith, o.fresh))
            | inr all ↦
                whole-InOrder v.hash c m resume q.next_expected q.chunks_received i.content honest o
                  all
          ];
    }

    check_inventory-Runs :
        (q : Progress v.hash.Hasher)
        → Runs
            (I q)
            (check_inventory v m resume q)
            (λ _ s. Checked q.sink q.all_in_order s.files)
            Never
    unfolding check_inventory
    check_inventory-Runs q =
        let Q : Unit {0} → Session → Type 0 = λ _ s. Checked q.sink q.all_in_order s.files in
        Runs-if (I q) Q Never resume _ _
          (λ resumed.
            Runs-if (I q) Q Never (not (complete q.state)) _ _ (λ _. rejects (I q) Q v _ _)
              (λ _. Runs-pure (I q) Q Never tt (λ s i. checked q s i (inl resumed))))
          λ _.
            Runs-if (I q) Q Never (not (q.bytes_received == m.file_size)) _ _
              (λ _. rejects (I q) Q v _ _)
              λ _.
                Runs-if (I q) Q Never (not (q.chunks_received == m.chunk_count)) _ _
                  (λ _. rejects (I q) Q v _ _)
                  (λ all. Runs-pure (I q) Q Never tt (λ s i. checked q s i (inr (ground arith))))
