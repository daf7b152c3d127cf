-- ===== src/Transport/Server/Rounds.antt =====
-- The loop over the chunks ends: each round takes a header off the incoming bytes.
use ati_tcp_file_transfer.Base.{ℕ, zero, suc, ltb, ◌≡◌, ◌≢◌, ap, arith, if◌then◌else◌, not, Bool}
use ati_tcp_file_transfer.Base.{inl, inr, bytes_eq, Option, none, some, List, [], length, get_or}
use ati_tcp_file_transfer.Util.Blake3.{blake3}
use ati_tcp_file_transfer.Proto.Types.{FrameType, type_eq, k_default_max_payload}
use ati_tcp_file_transfer.Proto.Frame.{Frame, FrameHeader, decode_from}
use ati_tcp_file_transfer.Proto.Cursor.{Hash}
use ati_tcp_file_transfer.Proto.Messages.{
  encode_error, ManifestMsg, ChunkMsg, CompleteMsg, decode_chunk, decode_complete,
}
use ati_tcp_file_transfer.Io.Files.{FilePath, Files}
use ati_tcp_file_transfer.Transport.Connection.{Connection, recv_frame, send_frame}
use ati_tcp_file_transfer.Transport.Session.{Session, Exec, pure, ◌>>=◌, on_files}
use ati_tcp_file_transfer.Transport.Server.Text.{Text, text_of}
use ati_tcp_file_transfer.Transport.Server.Calls.{Server, Failure, recv_any, send_error, reject}
use ati_tcp_file_transfer.Transport.Server.Receive.{
  Progress, Next, more, completed, take_in_order, store_chunk, on_chunk, on_complete,
  on_chunk_frame, on_frame, next_round, receive_loop, receive_chunks,
}
use ati_tcp_file_transfer.Base.{◌<◌, ◌≤◌}
use ati_tcp_file_transfer.Transport.Connection.Exchange.{Decoded-cases}
use ati_tcp_file_transfer.Transport.Session.{Result, ok, err}
use ati_tcp_file_transfer.Transport.Server.Calls.{out_of_rounds, rejected}
use ati_tcp_file_transfer.Transport.Session.Rules.{
  Ends, Runs, Runs-pure, Runs-stop, Runs-if, Runs-or_stop, Runs-on_connection, Runs-on_files,
  Runs-bind,
}
use ati_tcp_file_transfer.Transport.Connection.{recv_payload}
use ati_tcp_file_transfer.Base.{length-drop, take, drop}
use ati_tcp_file_transfer.Proto.Types.{k_header_size}

recv_payload-incoming :
    (c : Connection) (hdr : FrameHeader)
    → length (recv_payload c hdr).0.incoming ≤ length c.incoming
unfolding recv_payload
recv_payload-incoming c hdr = ground (arith, length-drop hdr.payload_len c.incoming)

recv_frame-shorter :
    (c : Connection) (max_payload : ℕ)
    → (recv_frame c max_payload).1 ≢ none
    → length (recv_frame c max_payload).0.incoming < length c.incoming
unfolding recv_frame
recv_frame-shorter c max_payload got =
    let c' : Connection = record c { incoming = drop k_header_size c.incoming } in
    elim (Decoded-cases (decode_from (take k_header_size c.incoming) max_payload)) [
      | inr (reason, r) ↦ absurd (got (ground arith))
      | inl (hdr, r) ↦
          ground (arith, length-drop k_header_size c.incoming, recv_payload-incoming c' hdr)
    ]

send_frame-incoming :
    (c : Connection) (t : FrameType) (payload : List ℕ)
    → (send_frame c t payload).0.incoming ≡ c.incoming
unfolding send_frame
send_frame-incoming c t payload = ground arith

-- An early return of the source's own.
abbrev Ended : Failure → Session → Type 0
Ended e s = e ≢ out_of_rounds

module _ (n : ℕ) where
  -- Fewer than `n` bytes are still to come.
  abbrev Left : Session → Type 0
  Left s = length s.conn.incoming < n

  abbrev Steady : {A : Type 0} → Exec Failure A → Type 0
  Steady m = Runs Left m (λ _. Left) Ended

  Steady-bind :
      {A B : Type 0} (m : Exec Failure A) (f : A → Exec Failure B)
      → Steady m
      → ((a : A) → Steady (f a))
      → Steady (m >>= f)
  Steady-bind m f = Runs-bind Left (λ _. Left) Ended (λ _. Left) m f

  Steady-if :
      {A : Type 0} (b : Bool) (m k : Exec Failure A)
      → Steady m
      → Steady k
      → Steady (if b then m else k)
  Steady-if b m k hm hk = Runs-if Left (λ _. Left) Ended b m k (λ _. hm) (λ _. hk)

  Steady-pure : {A : Type 0} (a : A) → Steady (pure a)
  Steady-pure a = Runs-pure Left (λ _. Left) Ended a (λ s h. h)

  Steady-on_files : {A : Type 0} (f : Files → A × Files) → Steady (on_files f)
  Steady-on_files f = Runs-on_files Left (λ _. Left) Ended f (λ s h. h)

  send_error-Steady : (v : Server) (code : ℕ) (text : Text) → Steady (send_error v code text)
  unfolding send_error
  send_error-Steady v code text =
      Steady-bind _ _
        (Runs-on_connection Left (λ _. Left) Ended _
          (λ s h. omega (
            arith,
            h,
            ap length (
                send_frame-incoming s.conn FrameType.error
                  (encode_error (record { code = code; message = text_of v.sink_text text }))),
          )))
        (λ _. Steady-pure tt)

  reject-Steady :
      {A : Type 0} (v : Server) (code : ℕ) (text : Text) → Steady (reject {A = A} v code text)
  unfolding reject
  reject-Steady v code text =
      Steady-bind _ _ (send_error-Steady v code text)
        (λ _. Runs-stop Left (λ _. Left) Ended _ (λ s h. rejected_ends))
    where
      rejected_ends : rejected code text ≢ out_of_rounds
      rejected_ends e = ground arith

  module _ (v : Server) (m : ManifestMsg) (state_file : FilePath) (q : Progress v.hash.Hasher) where
    store_chunk-Steady : (c : ChunkMsg) → Steady (store_chunk v m state_file q c)
    unfolding store_chunk
    store_chunk-Steady c = Steady-bind _ _ (Steady-on_files _) λ (written, sink).
        Steady-if (not written) _ _ (reject-Steady v _ _)
          (Steady-bind _ _ (Steady-on_files _) (λ _. Steady-pure _))

  module _ (v : Server) (m : ManifestMsg) (state_file : FilePath) (q : Progress v.hash.Hasher) where
    on_chunk-Steady : (c : ChunkMsg) → Steady (on_chunk v m state_file q c)
    unfolding on_chunk
    on_chunk-Steady c = Steady-if (not (ltb c.index m.chunk_count)) _ _ (reject-Steady v _ _) (
        Steady-if (not (bytes_eq (blake3 v.hash c.bytes) c.hash)) _ _ (reject-Steady v _ _) (
          Steady-if (not (bytes_eq (get_or m.chunk_hashes c.index []) c.hash)) _ _
            (reject-Steady v _ _) (store_chunk-Steady v m state_file (take_in_order v.hash q c) c)))

    on_complete-Steady : {H : Type 0} (c : Option CompleteMsg) → Steady (on_complete {H = H} v c)
    unfolding on_complete
    on_complete-Steady none = reject-Steady v _ _
    on_complete-Steady (some c) = Steady-pure _

    on_chunk_frame-Steady : (c : Option ChunkMsg) → Steady (on_chunk_frame v m state_file q c)
    unfolding on_chunk_frame
    on_chunk_frame-Steady none = reject-Steady v _ _
    on_chunk_frame-Steady (some c) = Steady-bind _ _ (on_chunk-Steady c) (λ q'. Steady-pure _)

    on_frame-Steady : (f : Frame) → Steady (on_frame v m state_file q f)
    unfolding on_frame
    on_frame-Steady f =
        Steady-if (type_eq f.header.type FrameType.complete) _ _
          (on_complete-Steady (decode_complete f.payload))
          (Steady-if (not (type_eq f.header.type FrameType.chunk)) _ _ (reject-Steady v _ _)
            (on_chunk_frame-Steady (decode_chunk f.payload)))

-- A frame that is received takes bytes.
recv_any-Runs : (n : ℕ) → Runs (Left (suc n)) recv_any (λ _. Left n) Ended
unfolding recv_any
recv_any-Runs n =
    Runs-bind (Left (suc n)) (λ _. Left n) Ended (λ frame s. frame ≢ none → Left n s) _ _
      (Runs-on_connection (Left (suc n)) (λ frame s. frame ≢ none → Left n s) Ended _
        (λ s h got. omega (arith, h, recv_frame-shorter s.conn k_default_max_payload got)))
      λ frame.
        Runs-or_stop (λ s. frame ≢ none → Left n s) (λ _. Left n) Ended frame _
          (λ f e s h. h (λ k. ground arith)) (λ s h. recv_failed_ends)
  where
    recv_failed_ends : Failure.recv_failed ≢ out_of_rounds
    recv_failed_ends e = ground arith

next_round-Runs :
    {H : Type 0} (n : ℕ) (loop : Progress H → Exec Failure (Progress H × Hash))
    → ((q : Progress H) → Runs (Left n) (loop q) (λ _ _. Unit {0}) Ended)
    → (q : Progress H) (next : Next H)
    → Runs (Left n) (next_round loop q next) (λ _ _. Unit {0}) Ended
unfolding next_round
next_round-Runs n loop rest q (more q') = rest q'
next_round-Runs n loop rest q (completed h) =
    Runs-pure (Left n) (λ _ _. Unit {0}) Ended (q, h) (λ s k. tt)

-- With more rounds than bytes to come, the loop is not left for want of rounds.
receive_loop-Runs :
    (v : Server) (m : ManifestMsg) (state_file : FilePath) (rounds : ℕ) (q : Progress v.hash.Hasher)
    → Runs (Left rounds) (receive_loop v m state_file rounds q) (λ _ _. Unit {0}) Ended
unfolding receive_loop
receive_loop-Runs v m state_file zero q =
    Runs-stop (Left zero) (λ _ _. Unit {0}) Ended _ (λ s h. absurd (omega (arith, h)))
receive_loop-Runs v m state_file (suc rounds) q =
    Runs-bind (Left (suc rounds)) (λ _ _. Unit {0}) Ended (λ _. Left rounds) _ _
      (recv_any-Runs rounds)
      λ f.
        Runs-bind (Left rounds) (λ _ _. Unit {0}) Ended (λ _. Left rounds) _ _
          (on_frame-Steady rounds v m state_file q f)
          (next_round-Runs rounds _ (receive_loop-Runs v m state_file rounds) q)

of_source :
    {A : Type 0} (r : Result Failure A) (s : Session)
    → Ends (λ _ _. Unit {0}) Ended r s
    → r ≢ err out_of_rounds
of_source (ok a) s h e = ground arith
of_source (err f) s h e = h (ground arith)

-- The loop over the chunks ends by COMPLETE or by an early return of the source's own, whatever the
-- client sends: the rounds that the model gives it are enough.
pub receive_chunks_ends :
    (v : Server) (m : ManifestMsg) (state_file : FilePath) (q : Progress v.hash.Hasher)
    (s : Session)
    → (receive_chunks v m state_file q s).0 ≢ err out_of_rounds
unfolding receive_chunks
receive_chunks_ends v m state_file q s =
    of_source _ _
      ((receive_loop-Runs v m state_file (suc (length s.conn.incoming)) q).at s (omega arith))
