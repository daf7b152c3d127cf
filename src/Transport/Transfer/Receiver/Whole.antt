-- ===== src/Transport/Transfer/Receiver/Whole.antt =====
-- Server::handle_session_ on what a client writes for a file: the rename, ACK, and the whole of it.
use ati_tcp_file_transfer.Base.{ℕ, suc, ◌≡◌, refl, sym, ap, ◌∙◌, not, Bool, true}
use ati_tcp_file_transfer.Base.{none, some, List, [], ◌++◌, append_assoc}
use ati_tcp_file_transfer.Util.Blake3.{IsStreaming}
use ati_tcp_file_transfer.Proto.Types.{FrameType}
use ati_tcp_file_transfer.Proto.Decoder.Stream.{frame_of}
use ati_tcp_file_transfer.Proto.Messages.{default_hello, encode_hello, ManifestMsg, encode_manifest}
use ati_tcp_file_transfer.Io.Files.{FilePath, Files}
use ati_tcp_file_transfer.Io.Files.Calm.{IsCalm}
use ati_tcp_file_transfer.Io.Files.Laws.{remove-contents}
use ati_tcp_file_transfer.Io.FileSink.{FileSink, with_partial_suffix}
use ati_tcp_file_transfer.Io.FileSink
use ati_tcp_file_transfer.Io.FileSink.Laws.{finalize_sound}
use ati_tcp_file_transfer.Io.FileSink.Others.{flush-others}
use ati_tcp_file_transfer.Io.FileSink.Calm.{flush_sink-IsCalm}
use ati_tcp_file_transfer.Io.FileSink.Succeeds.{flush-succeeds, finalize-succeeds}
use ati_tcp_file_transfer.Io.ResumeState.Save.{remove}
use ati_tcp_file_transfer.Transport.Session.{Session}
use ati_tcp_file_transfer.Transport.Session.Rules.{
  Runs, Runs-pure, Runs-if, Runs-on_files, Runs-bind, Runs-bind_known,
}
use ati_tcp_file_transfer.Transport.Server.Dest.{resolve_dest}
use ati_tcp_file_transfer.Transport.Server.Calls.{Server}
use ati_tcp_file_transfer.Transport.Server.Start.{
  handshake, exchange_hello, receive_manifest, dest_or_reject, choose_dest, state_path,
}
use ati_tcp_file_transfer.Transport.Server.Finish.{commit, acknowledge, receive_file, session}
use ati_tcp_file_transfer.Transport.Server.Safety.{dest-IsApart}
use ati_tcp_file_transfer.Transport.Transfer.{
  IsTransferable, wire, indices_from, file_manifest, client_body, client_wire, request_payload,
  ack_payload, server_wire,
}
use ati_tcp_file_transfer.Transport.Transfer.Talks.{
  Fails, Talks, with_files, on_files-Succeeds, send-Succeeds, recv_expected-Succeeds,
  tls_handshake-Succeeds,
}
use ati_tcp_file_transfer.Transport.Transfer.Fits.{
  n, hello_room, decode_hello-default, decode_manifest-file, manifest_room, ack_room,
}
use ati_tcp_file_transfer.Transport.Transfer.Receiver.Body.{Received, receive_partial-Succeeds}

module _ (v : Server) (k : ℕ) (c path : List ℕ) (dest : FilePath) (ok : IsTransferable k c path)
    (streaming : IsStreaming v.hash) where
  abbrev m : ManifestMsg
  m = file_manifest v.hash k c path

  abbrev count : ℕ
  count = n k c path ok

  -- The file is at the destination.
  abbrev pub Arrived : Files → Type 0
  Arrived fs = fs.contents dest ≡ some c

  commits :
      (sink : FileSink) (fs : Files)
      → Received v k c path dest ok streaming sink fs
      → ((FileSink.finalize sink fs).0 ≡ true) × Arrived (FileSink.finalize sink fs).2
  commits sink fs (calm, final, there) =
      let path : fs.contents (with_partial_suffix sink.final_path) ≡ some c =
        ap (λ p. fs.contents (with_partial_suffix p)) final ∙ there in
      let good = finalize-succeeds sink fs c calm path in
      let moved = finalize_sound sink fs good in
      (
        good,
        ap (FileSink.finalize sink fs).2.contents (sym final)
            ∙ moved.target
            ∙ sym moved.source
            ∙ path,
      )

  module _ (inc out : List ℕ) (w : ℕ) where
    pub commit-Succeeds :
        (sink : FileSink)
        → Runs
            (Talks inc out w (Received v k c path dest ok streaming sink))
            (commit v sink (state_path dest))
            (λ r s. (r ≡ tt) × Talks inc out w Arrived s)
            Fails
    unfolding commit remove
    commit-Succeeds sink =
        let flushes : (fs : Files)
            → Received v k c path dest ok streaming sink fs
            → (◌≡◌ {A = Bool × FileSink} ((FileSink.flush sink fs).0, (FileSink.flush sink fs).1)
                (true, sink))
              × Received v k c path dest ok streaming sink (FileSink.flush sink fs).2 =
          λ fs (calm, final, there).
            let (good, kept) = flush-succeeds sink fs calm in
            (
              ap (λ (x : Bool). (x, (FileSink.flush sink fs).1)) good
                  ∙ ap (λ (x : FileSink). (true, x)) kept,
              (
                flush_sink-IsCalm sink fs calm,
                final,
                ap (λ f. f (with_partial_suffix dest)) (flush-others sink fs) ∙ there,
              ),
            ) in
        Runs-bind_known _ (Talks inc out w (Received v k c path dest ok streaming sink)) _ Fails
          (true, sink) _ _
          (on_files-Succeeds (Received v k c path dest ok streaming sink)
            (Received v k c path dest ok streaming sink) inc out w (true, sink) _ flushes)
          (Runs-bind _ _ Fails (λ (r : Bool × FileSink) s. (r.0 ≡ true) × Talks inc out w Arrived s)
            _ _
            (Runs-on_files _ _ Fails _ (λ s t.
              let (good, there) = commits sink s.files t.files in
              (good, with_files _ _ _ _ _ _ _ t (there))))
            (λ (finalized, closed). record {
              at = λ s (good, t). rw good (
                  (Runs-bind_known _ (Talks inc out w Arrived) _ Fails tt _ _
                      (on_files-Succeeds Arrived Arrived inc out w tt _ (λ fs there. (
                        refl,
                        remove-contents fs (state_path dest) dest (dest-IsApart dest).state ∙ there,
                      )))
                      (Runs-pure _ _ Fails tt (λ s' t'. (refl, t')))).at
                    s t);
            }))

    pub acknowledge-Succeeds :
        Runs
          (Talks inc out (suc w) Arrived)
          (acknowledge m)
          (λ _. Talks inc (out ++ wire FrameType.ack (ack_payload count)) w Arrived)
          Fails
    unfolding acknowledge
    acknowledge-Succeeds =
        send-Succeeds Arrived out w FrameType.ack (ack_payload count) (ack_room k c path ok) inc

  abbrev pub Ready : Files → Type 0
  Ready fs = IsCalm fs × (fs.contents (state_path dest) ≡ none)

  module _ (out : List ℕ) (w : ℕ) where
    receive_file-Succeeds :
        Runs
          (Talks (client_body v.hash k c (indices_from count 0)) out (suc (suc w)) Ready)
          (receive_file v m dest)
          (λ _.
            Talks []
              ((out ++ wire FrameType.req_chunks (request_payload (indices_from count 0)))
                ++ wire FrameType.ack (ack_payload count))
              w
              Arrived)
          Fails
    unfolding receive_file
    receive_file-Succeeds =
        let asked = out ++ wire FrameType.req_chunks (request_payload (indices_from count 0)) in
        Runs-bind _ _ Fails _ _ _
          (receive_partial-Succeeds v k c path dest ok streaming out (suc w))
          (λ sink.
            Runs-bind_known _ (Talks [] asked (suc w) Arrived) _ Fails tt _ _
              (commit-Succeeds [] asked (suc w) sink) (acknowledge-Succeeds [] asked w))

    pub exchange_hello-Succeeds :
        (F : Files → Type 0) (inc : List ℕ)
        → Runs
            (Talks (wire FrameType.hello (encode_hello default_hello) ++ inc) out (suc w) F)
            (exchange_hello v)
            (λ _. Talks inc (out ++ wire FrameType.hello (encode_hello default_hello)) w F)
            Fails
    unfolding exchange_hello
    exchange_hello-Succeeds F inc =
        let hello = encode_hello default_hello in
        Runs-bind_known _ (Talks inc out (suc w) F) _ Fails (frame_of FrameType.hello hello) _ _
          (recv_expected-Succeeds F out (suc w) FrameType.hello hello hello_room inc)
          (rw decode_hello-default (send-Succeeds F out w FrameType.hello hello hello_room inc))

    pub receive_manifest-Succeeds :
        (F : Files → Type 0) (inc : List ℕ)
        → Runs
            (Talks (wire FrameType.manifest (encode_manifest m) ++ inc) out w F)
            (receive_manifest v)
            (λ r s. (r ≡ m) × Talks inc out w F s)
            Fails
    unfolding receive_manifest
    receive_manifest-Succeeds F inc =
        let payload = encode_manifest m in
        Runs-bind_known _ (Talks inc out w F) _ Fails (frame_of FrameType.manifest payload) _ _
          (recv_expected-Succeeds F out w FrameType.manifest payload
            (manifest_room k c path ok v.hash streaming) inc)
          (rw (decode_manifest-file k c path ok v.hash streaming)
            (Runs-pure _ _ Fails m (λ s t. (refl, t))))

  pub handshake-Succeeds :
      (inc out : List ℕ) (w : ℕ) (F : Files → Type 0)
      → Runs (Talks inc out w F) (handshake v) (λ _. Talks inc out w F) Fails
  unfolding handshake
  handshake-Succeeds inc out w F =
      let P = Talks inc out w F in
      Runs-if P (λ _. P) Fails (not v.has_tls) _ _ (λ _. Runs-pure P (λ _. P) Fails tt (λ s t. t))
        (λ _.
          Runs-bind_known P P (λ _. P) Fails true _ _ (tls_handshake-Succeeds inc out w F)
            (Runs-pure P (λ _. P) Fails tt (λ s t. t)))

  pub choose_dest-Succeeds :
      (P : Session → Type 0)
      → resolve_dest v.root path ≡ some dest
      → Runs P (choose_dest v m) (λ r s. (r ≡ dest) × P s) Fails
  unfolding choose_dest dest_or_reject
  choose_dest-Succeeds P resolved = rw resolved (Runs-pure P _ Fails dest (λ s t. (refl, t)))

  pub session-Succeeds :
      (w : ℕ)
      → resolve_dest v.root path ≡ some dest
      → Runs
          (Talks (client_wire v.hash k c path (indices_from count 0)) [] (suc (suc (suc w))) Ready)
          (session v)
          (λ _. Talks [] (server_wire (indices_from count 0) count) w Arrived)
          Fails
  unfolding session
  session-Succeeds w resolved =
      let hello = wire FrameType.hello (encode_hello default_hello) in
      let body = client_body v.hash k c (indices_from count 0) in
      let offer = wire FrameType.manifest (encode_manifest m) ++ body in
      let asked = wire FrameType.req_chunks (request_payload (indices_from count 0)) in
      let acked = wire FrameType.ack (ack_payload count) in
      let Q : Unit {0} → Session → Type 0 =
        λ _. Talks [] (server_wire (indices_from count 0) count) w Arrived in
      Runs-bind _ Q Fails _ _ _ (handshake-Succeeds (hello ++ offer) [] (suc (suc (suc w))) Ready)
        (λ _. Runs-bind _ Q Fails _ _ _ (exchange_hello-Succeeds [] (suc (suc w)) Ready offer) (λ _.
          Runs-bind_known _ (Talks body hello (suc (suc w)) Ready) Q Fails m _ _
            (receive_manifest-Succeeds hello (suc (suc w)) Ready body)
            (Runs-bind_known _ (Talks body hello (suc (suc w)) Ready) Q Fails dest _ _
              (choose_dest-Succeeds _ resolved)
              (rw (sym (append_assoc hello asked acked)) (receive_file-Succeeds hello w)))))
