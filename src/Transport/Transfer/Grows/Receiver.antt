-- ===== src/Transport/Transfer/Grows/Receiver.antt =====
-- What Server::handle_session_ has written stays written: up to the chunks and the checks behind them.
use ati_tcp_file_transfer.Base.{
  ℕ, zero, suc, ◌==◌, ltb, not, Bool, Option, Option-cases, inl, inr, none, some, List, [], length,
  bytes_eq, get_or, if◌then◌else◌,
}
use ati_tcp_file_transfer.Util.Blake3.{blake3}
use ati_tcp_file_transfer.Proto.Types.{FrameType, type_eq}
use ati_tcp_file_transfer.Proto.Frame.{Frame}
use ati_tcp_file_transfer.Proto.Cursor.{Hash}
use ati_tcp_file_transfer.Proto.Messages.{
  ManifestMsg, ChunkMsg, CompleteMsg, decode_manifest, decode_chunk, decode_complete,
}
use ati_tcp_file_transfer.Io.Files.{FilePath}
use ati_tcp_file_transfer.Io.ResumeState.{ResumeState, complete}
use ati_tcp_file_transfer.Transport.Session.{Exec}
use ati_tcp_file_transfer.Transport.Server.Dest.{resolve_dest}
use ati_tcp_file_transfer.Transport.Server.Text.{Text}
use ati_tcp_file_transfer.Transport.Server.Calls.{
  Server, Failure, recv_any, recv_expected, send, send_error, reject,
}
use ati_tcp_file_transfer.Transport.Server.Start.{
  receive_manifest, dest_or_reject, choose_dest, matching, load_state, open_dest, request_chunks,
  state_path,
}
use ati_tcp_file_transfer.Transport.Server.Receive.{
  Progress, Next, more, completed, take_in_order, store_chunk, on_chunk, on_complete,
  on_chunk_frame, on_frame, next_round, receive_loop, receive_chunks,
}
use ati_tcp_file_transfer.Transport.Server.Finish.{check_inventory, check_root_hash}
use ati_tcp_file_transfer.Transport.Transfer.Grows.{
  Grows, Grows-pure, Grows-stop, Grows-or_stop, Grows-if, Grows-on_files, Grows-bind, Grows-send,
  Grows-recv,
}

module _ (o : List ℕ) (v : Server) where
  recv_any-Grows : Grows o recv_any
  unfolding recv_any
  recv_any-Grows = Grows-bind o _ _ (Grows-recv o) (λ frame. Grows-or_stop o frame _)

  recv_expected-Grows : (t : FrameType) → Grows o (recv_expected t)
  unfolding recv_expected
  recv_expected-Grows t = Grows-bind o _ _ recv_any-Grows (λ frame.
      Grows-if o (not (type_eq frame.header.type t)) _ _ (Grows-stop o _) (Grows-pure o frame))

  pub send-Grows : (t : FrameType) (p : List ℕ) → Grows o (send t p)
  unfolding send
  send-Grows t p =
      Grows-bind o _ _ (Grows-send o t p)
        (λ sent. Grows-if o (not sent) _ _ (Grows-stop o _) (Grows-pure o tt))

  reject-Grows : {A : Type 0} (code : ℕ) (text : Text) → Grows o (reject {A = A} v code text)
  unfolding reject send_error
  reject-Grows code text =
      Grows-bind o _ _ (Grows-bind o _ _ (Grows-send o FrameType.error _) (λ sent. Grows-pure o tt))
        (λ _. Grows-stop o _)

  pub guard :
      {A : Type 0} (b : Bool) (code : ℕ) (text : Text) (m : Exec Failure A)
      → Grows o m
      → Grows o (if b then reject v code text else m)
  guard b code text m h = Grows-if o b _ m (reject-Grows code text) h

  pub receive_manifest-Grows : Grows o (receive_manifest v)
  unfolding receive_manifest
  receive_manifest-Grows = Grows-bind o _ _ (recv_expected-Grows FrameType.manifest) (λ frame.
      elim (Option-cases (decode_manifest frame.payload)) [
        | inl bad ↦ rw bad (reject-Grows _ _)
        | inr (manifest, good) ↦ rw good (Grows-pure o manifest)
      ])

  dest_or_reject-Grows : (m : ManifestMsg) (d : Option FilePath) → Grows o (dest_or_reject v m d)
  unfolding dest_or_reject
  dest_or_reject-Grows m none = reject-Grows _ _
  dest_or_reject-Grows m (some dest) = Grows-pure o dest

  pub choose_dest-Grows : (m : ManifestMsg) → Grows o (choose_dest v m)
  unfolding choose_dest
  choose_dest-Grows m = dest_or_reject-Grows m (resolve_dest v.root m.path)

  pub load_state-Grows : (m : ManifestMsg) (dest : FilePath) → Grows o (load_state v m dest)
  unfolding load_state
  load_state-Grows m dest = Grows-bind o _ _ (Grows-on_files o _) (λ loaded.
      elim (Option-cases (matching v m loaded)) [
        | inr (state, same) ↦ rw same (Grows-pure o _)
        | inl differs ↦ rw differs (Grows-bind o _ _ (Grows-on_files o _) (λ _. Grows-pure o _))
      ])

  pub open_dest-Grows :
      (m : ManifestMsg) (dest : FilePath) (resume : Bool) → Grows o (open_dest v m dest resume)
  unfolding open_dest
  open_dest-Grows m dest resume =
      Grows-bind o _ _ (Grows-on_files o _)
        (λ (opened, sink). guard (not opened) _ _ _ (Grows-pure o sink))

  pub request_chunks-Grows : (state : ResumeState) → Grows o (request_chunks state)
  unfolding request_chunks
  request_chunks-Grows state = send-Grows FrameType.req_chunks _

  module _ (m : ManifestMsg) (dest : FilePath) where
    store_chunk-Grows :
        (q : Progress v.hash.Hasher) (c : ChunkMsg)
        → Grows o (store_chunk v m (state_path dest) q c)
    unfolding store_chunk
    store_chunk-Grows q c = Grows-bind o _ _ (Grows-on_files o _) (λ (written, sink).
        guard (not written) _ _ _ (Grows-bind o _ _ (Grows-on_files o _) (λ _. Grows-pure o _)))

    on_chunk-Grows :
        (q : Progress v.hash.Hasher) (c : ChunkMsg) → Grows o (on_chunk v m (state_path dest) q c)
    unfolding on_chunk
    on_chunk-Grows q c = guard (not (ltb c.index m.chunk_count)) _ _ _ (
        guard (not (bytes_eq (blake3 v.hash c.bytes) c.hash)) _ _ _ (
          guard (not (bytes_eq (get_or m.chunk_hashes c.index []) c.hash)) _ _ _
            (store_chunk-Grows (take_in_order v.hash q c) c)))

    on_complete-Grows :
        (c : Option CompleteMsg) → Grows {A = Next v.hash.Hasher} o (on_complete v c)
    unfolding on_complete
    on_complete-Grows none = reject-Grows _ _
    on_complete-Grows (some c) = Grows-pure o _

    on_chunk_frame-Grows :
        (q : Progress v.hash.Hasher) (c : Option ChunkMsg)
        → Grows o (on_chunk_frame v m (state_path dest) q c)
    unfolding on_chunk_frame
    on_chunk_frame-Grows q none = reject-Grows _ _
    on_chunk_frame-Grows q (some c) =
        Grows-bind o _ _ (on_chunk-Grows q c) (λ q'. Grows-pure o (more q'))

    on_frame-Grows :
        (q : Progress v.hash.Hasher) (f : Frame) → Grows o (on_frame v m (state_path dest) q f)
    unfolding on_frame
    on_frame-Grows q f =
        Grows-if o (type_eq f.header.type FrameType.complete) _ _
          (on_complete-Grows (decode_complete f.payload))
          (guard (not (type_eq f.header.type FrameType.chunk)) _ _ _
            (on_chunk_frame-Grows q (decode_chunk f.payload)))

    next_round-Grows :
        (loop : Progress v.hash.Hasher → Exec Failure (Progress v.hash.Hasher × Hash))
        → ((q : Progress v.hash.Hasher) → Grows o (loop q))
        → (q : Progress v.hash.Hasher) (next : Next v.hash.Hasher)
        → Grows o (next_round loop q next)
    unfolding next_round
    next_round-Grows loop rest q (more q') = rest q'
    next_round-Grows loop rest q (completed h) = Grows-pure o _

    receive_loop-Grows :
        (rounds : ℕ) (q : Progress v.hash.Hasher)
        → Grows o (receive_loop v m (state_path dest) rounds q)
    unfolding receive_loop
    receive_loop-Grows zero q = Grows-stop o _
    receive_loop-Grows (suc rounds) q = Grows-bind o _ _ recv_any-Grows (λ frame.
        Grows-bind o _ _ (on_frame-Grows q frame)
          (λ next. next_round-Grows _ (receive_loop-Grows rounds) q next))

    pub receive_chunks-Grows :
        (q : Progress v.hash.Hasher) → Grows o (receive_chunks v m (state_path dest) q)
    unfolding receive_chunks
    receive_chunks-Grows q = record {
      at = λ s. (receive_loop-Grows (suc (length s.conn.incoming)) q).at s;
    }

    pub check_inventory-Grows :
        (resume : Bool) (q : Progress v.hash.Hasher) → Grows o (check_inventory v m resume q)
    unfolding check_inventory
    check_inventory-Grows resume q =
        Grows-if o resume _ _ (guard (not (complete q.state)) _ _ _ (Grows-pure o tt)) (
          guard (not (q.bytes_received == m.file_size)) _ _ _
            (guard (not (q.chunks_received == m.chunk_count)) _ _ _ (Grows-pure o tt)))

    pub check_root_hash-Grows : (actual final : Hash) → Grows o (check_root_hash v m actual final)
    unfolding check_root_hash
    check_root_hash-Grows actual final =
        guard (not (bytes_eq actual m.root_hash)) _ _ _
          (guard (not (bytes_eq actual final)) _ _ _ (Grows-pure o tt))
