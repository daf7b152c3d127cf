-- ===== src/Transport/Transfer/Resume/Rounds.antt =====
-- The loop of the server on the missing chunks of a file that a transfer that was cut off has left.
use ati_tcp_file_transfer.Base.{
  ℕ, zero, suc, ◌*◌, ◌<◌, ltb, ◌≡◌, refl, ap, ◌∙◌, arith, Bool, true, lt→ltb,
}
use ati_tcp_file_transfer.Base.{bytes_eq_self, List, [], ◌∷◌, ◌++◌, append_assoc, length, get_or}
use ati_tcp_file_transfer.Util.Blake3.{IsStreaming, blake3}
use ati_tcp_file_transfer.Proto.Types.{FrameType, type_eq}
use ati_tcp_file_transfer.Proto.Cursor.{Hash}
use ati_tcp_file_transfer.Proto.Decoder.Stream.{frame_of}
use ati_tcp_file_transfer.Proto.Messages.{ManifestMsg}
use ati_tcp_file_transfer.Io.Files.{FilePath}
use ati_tcp_file_transfer.Io.FileSink.{FileSink, write_at}
use ati_tcp_file_transfer.Io.ResumeState.{mark_received}
use ati_tcp_file_transfer.Transport.Session.{Session}
use ati_tcp_file_transfer.Transport.Session.Rules.{
  Runs, Runs-pure, Runs-on_files, Runs-bind, Runs-bind_known,
}
use ati_tcp_file_transfer.Transport.Server.Calls.{Server}
use ati_tcp_file_transfer.Transport.Server.Start.{state_path}
use ati_tcp_file_transfer.Transport.Server.Receive.{
  Progress, more, completed, take_in_order, store_chunk, on_chunk, on_complete, on_chunk_frame,
  on_frame, next_round, receive_loop,
}
use ati_tcp_file_transfer.Transport.Server.Honest.{slice}
use ati_tcp_file_transfer.Transport.Transfer.{
  wires_of, IsTransferable, wire, file_manifest, chunk_payload, complete_payload,
}
use ati_tcp_file_transfer.Transport.Transfer.Talks.{Fails, Talks, with_files, recv_any-Succeeds}
use ati_tcp_file_transfer.Transport.Transfer.Fits.{
  n, manifest_honest, decode_chunk-file, chunk_payload_room, decode_complete-file, complete_room,
}
use ati_tcp_file_transfer.Transport.Transfer.Resume.Store.{
  Going, Partial, chunk_of, after, kept, below, Going-after, written, saved,
}

module _ (v : Server) (k : ℕ) (c path : List ℕ) (dest : FilePath) (ok : IsTransferable k c path)
    (streaming : IsStreaming v.hash) where
  abbrev m : ManifestMsg
  m = file_manifest v.hash k c path

  module _ (inc out : List ℕ) (w i : ℕ) (rest : List ℕ) (q : Progress v.hash.Hasher)
      (g : Going v k c path dest ok streaming (i ∷ rest) q) where
    abbrev q' : Progress v.hash.Hasher
    q' = take_in_order v.hash q (chunk_of v k c path dest ok streaming i)

    abbrev Here : Session → Type 0
    Here = Talks inc out w (Partial v k c path dest ok streaming q.state)

    abbrev Stored : Session → Type 0
    Stored = Talks inc out w (Partial v k c path dest ok streaming (mark_received q'.state i))

    abbrev NextRound : Progress v.hash.Hasher → Session → Type 0
    NextRound p s =
        Going v k c path dest ok streaming rest p
        × Talks inc out w (Partial v k c path dest ok streaming p.state) s

    store_chunk-Succeeds :
        Runs Here
          (store_chunk v m (state_path dest) q' (chunk_of v k c path dest ok streaming i))
          NextRound
          Fails
    unfolding store_chunk
    store_chunk-Succeeds =
        Runs-bind_known Here Stored NextRound Fails (true, q'.sink) _ _
          (Runs-on_files Here _ Fails _ (λ s t.
            let (same, state, order) =
              kept v k c path dest ok streaming q (chunk_of v k c path dest ok streaming i) in
            let (good, same_sink, d) =
              written v k c path dest ok streaming i q q'.sink s.files
                (below v k c path dest ok streaming i rest q g) same g.steady t.files in
            (
              ap (λ (x : Bool). (x, (write_at q'.sink s.files (i * k) (slice k c i)).1)) good
                  ∙ ap (λ (x : FileSink). (true, x)) same_sink,
              with_files _ _ _ _ _ _ _ t (rw state d),
            )))
          (Runs-bind Stored NextRound Fails (λ _. Stored) _ _
            (Runs-on_files Stored (λ _. Stored) Fails _
              (λ s t.
                with_files _ _ _ _ _ _ _ t (
                  saved v k c path dest ok streaming _ (mark_received q'.state i) s.files t.files)))
            (λ _.
              Runs-pure Stored NextRound Fails (after v k c path dest ok streaming q i)
                (λ s t. (Going-after v k c path dest ok streaming i rest q g, t))))

    on_chunk-Succeeds :
        Runs Here
          (on_chunk v m (state_path dest) q (chunk_of v k c path dest ok streaming i))
          NextRound
          Fails
    unfolding on_chunk
    on_chunk-Succeeds =
        let h = below v k c path dest ok streaming i rest q g in
        let declared : get_or m.chunk_hashes i [] ≡ blake3 v.hash (slice k c i) =
          (manifest_honest k c path ok v.hash streaming).hashes i h in
        let in_range : ltb i (n k c path ok) ≡ true = lt→ltb i (n k c path ok) h in
        rw (in_range, declared, bytes_eq_self (blake3 v.hash (slice k c i))) store_chunk-Succeeds

    on_frame-Succeeds :
        Runs Here
          (on_frame v m (state_path dest) q (frame_of FrameType.chunk (chunk_payload v.hash k c i)))
          (λ r s. (p : Progress v.hash.Hasher) × (r ≡ more p) × NextRound p s)
          Fails
    unfolding on_frame on_chunk_frame type_eq
    on_frame-Succeeds =
        rw
          (decode_chunk-file k c path ok v.hash streaming i
            (below v k c path dest ok streaming i rest q g))
          (Runs-bind Here _ Fails NextRound _ _ on_chunk-Succeeds
            (λ p. Runs-pure (NextRound p) _ Fails (more p) (λ s r. (p, refl, r))))

  abbrev pub Ended : Progress v.hash.Hasher × Hash → List ℕ → List ℕ → ℕ → Session → Type 0
  Ended r rest out w s =
      Going v k c path dest ok streaming [] r.0
      × (r.1 ≡ blake3 v.hash c)
      × Talks rest out w (Partial v k c path dest ok streaming r.0.state) s

  on_complete-Succeeds :
      (inc out : List ℕ) (w : ℕ) (q : Progress v.hash.Hasher)
      → Runs
          (Talks inc out w (Partial v k c path dest ok streaming q.state))
          (on_frame v m
            (state_path dest)
            q
            (frame_of FrameType.complete (complete_payload v.hash k c)))
          (λ r s.
            (r ≡ completed (blake3 v.hash c))
            × Talks inc out w (Partial v k c path dest ok streaming q.state) s)
          Fails
  unfolding on_frame on_complete type_eq
  on_complete-Succeeds inc out w q =
      rw (decode_complete-file k c path ok v.hash streaming)
        (Runs-pure _ _ Fails _ (λ s t. (refl, t)))

  pub receive_loop-resumes :
      (rest out : List ℕ) (w rounds : ℕ) (left : List ℕ) (q : Progress v.hash.Hasher)
      → length left < rounds
      → Going v k c path dest ok streaming left q
      → Runs
          (Talks
            (wires_of v.hash k c left
              ++ (wire FrameType.complete (complete_payload v.hash k c) ++ rest))
            out
            w
            (Partial v k c path dest ok streaming q.state))
          (receive_loop v m (state_path dest) rounds q)
          (λ r. Ended r rest out w)
          Fails
  unfolding receive_loop next_round wires_of
  receive_loop-resumes rest out w zero left q enough g = absurd (omega (arith, enough))
  receive_loop-resumes rest out w (suc rounds) [] q enough g =
      Runs-bind_known _ (Talks rest out w (Partial v k c path dest ok streaming q.state)) _ Fails _
        _ _
        (recv_any-Succeeds (Partial v k c path dest ok streaming q.state) out w FrameType.complete
          (complete_payload v.hash k c) (complete_room k c path ok v.hash streaming) rest)
        (Runs-bind_known _ (Talks rest out w (Partial v k c path dest ok streaming q.state)) _ Fails
          _ _ _ (on_complete-Succeeds rest out w q) (Runs-pure _ _ Fails _ (λ s t. (g, refl, t))))
  receive_loop-resumes rest out w (suc rounds) (i ∷ left) q enough g =
      let last = wire FrameType.complete (complete_payload v.hash k c) ++ rest in
      let body = wires_of v.hash k c left in
      let others = body ++ last in
      let first = wire FrameType.chunk (chunk_payload v.hash k c i) in
      rw (append_assoc first body last) (
        Runs-bind_known _ (Talks others out w (Partial v k c path dest ok streaming q.state)) _
          Fails _ _ _
          (recv_any-Succeeds (Partial v k c path dest ok streaming q.state) out w FrameType.chunk
            (chunk_payload v.hash k c i) (chunk_payload_room k c path ok v.hash streaming i) others)
          (Runs-bind _ _ Fails _ _ _ (on_frame-Succeeds others out w i left q g) (λ r. record {
            at = λ s (p, same, (g', t)).
                rw same (
                  (receive_loop-resumes rest out w rounds left p (omega (arith, enough)) g').at s
                    t);
          })))
