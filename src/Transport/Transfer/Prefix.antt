-- ===== src/Transport/Transfer/Prefix.antt =====
-- What the server has written once it has read so much of what a client writes, whatever comes behind.
pub mod Sender
use ati_tcp_file_transfer.Base.{ℕ, suc, ◌≡◌, Bool, false, some, List, [], ◌++◌}
use ati_tcp_file_transfer.Util.Blake3.{IsStreaming}
use ati_tcp_file_transfer.Proto.Types.{FrameType}
use ati_tcp_file_transfer.Proto.Messages.{default_hello, encode_hello, encode_manifest}
use ati_tcp_file_transfer.Io.Files.{FilePath, Files}
use ati_tcp_file_transfer.Io.FileSink.{FileSink}
use ati_tcp_file_transfer.Io.ResumeState.{ResumeState}
use ati_tcp_file_transfer.Transport.Session.Rules.{Runs}
use ati_tcp_file_transfer.Transport.Server.Start.{load_state, open_dest, request_chunks}
use ati_tcp_file_transfer.Transport.Server.Dest.{resolve_dest}
use ati_tcp_file_transfer.Transport.Server.Calls.{Server}
use ati_tcp_file_transfer.Transport.Server.Receive.{start_progress}
use ati_tcp_file_transfer.Transport.Server.Finish.{receive_partial, receive_file, session}
use ati_tcp_file_transfer.Transport.Transfer.{IsTransferable, wire, indices_from, request_payload}
use ati_tcp_file_transfer.Transport.Transfer.Talks.{Fails, Talks}
use ati_tcp_file_transfer.Transport.Transfer.Receiver.{
  m, count, Opened, load_state-Succeeds, open_dest-Succeeds, request_chunks-Succeeds,
}
use ati_tcp_file_transfer.Transport.Transfer.Receiver.Whole.{
  Ready, receive_manifest-Succeeds, exchange_hello-Succeeds, handshake-Succeeds,
  choose_dest-Succeeds,
}
use ati_tcp_file_transfer.Transport.Transfer.Grows.{
  Wrote, Reaches, Reaches-bind, Reaches-known, Reaches-then, Grows-bind, Grows-Reaches,
  Talks-Reaches,
}
use ati_tcp_file_transfer.Transport.Transfer.Grows.Receiver.{
  receive_manifest-Grows, choose_dest-Grows,
}
use ati_tcp_file_transfer.Transport.Transfer.Grows.Whole.{
  receive_file-Grows, behind_request-Grows, finish-Grows,
}

abbrev pub hello : List ℕ
hello = wire FrameType.hello (encode_hello default_hello)

module _ (v : Server) (k : ℕ) (c path : List ℕ) (dest : FilePath) (ok : IsTransferable k c path)
    (streaming : IsStreaming v.hash) where
  abbrev offer : List ℕ
  offer = wire FrameType.manifest (encode_manifest (m v k c path dest ok streaming))

  pub session_greets :
      (F : Files → Type 0) (inc : List ℕ) (w : ℕ)
      → Reaches (Wrote hello) (Talks (hello ++ inc) [] (suc w) F) (session v)
  unfolding session
  session_greets F inc w =
      Reaches-bind _ _ _ _ _
        (handshake-Succeeds v k c path dest ok streaming (hello ++ inc) [] (suc w) F)
        (λ _.
          Reaches-bind _ _ _ _ _ (exchange_hello-Succeeds v k c path dest ok streaming [] w F inc)
            (λ _. Talks-Reaches inc hello w F _ (
              Grows-bind hello _ _ (receive_manifest-Grows hello v) (λ m'.
                Grows-bind hello _ _ (choose_dest-Grows hello v m')
                  (λ dest'. receive_file-Grows hello v m' dest')))))

  -- A session that has loaded this state, opened this sink and asked for these chunks.
  pub receive_file_asks :
      (F G O : Files → Type 0) (state : ResumeState) (resume : Bool) (sink : FileSink)
      (is inc : List ℕ) (w : ℕ)
      → let m' = m v k c path dest ok streaming in
        let asked = hello ++ wire FrameType.req_chunks (request_payload is) in
        Runs
          (Talks inc hello (suc w) F)
          (load_state v m' dest)
          (λ r s. (r ≡ (state, resume)) × Talks inc hello (suc w) G s)
          Fails
        → Runs
            (Talks inc hello (suc w) G)
            (open_dest v m' dest resume)
            (λ r s. (r ≡ sink) × Talks inc hello (suc w) O s)
            Fails
        → Runs
            (Talks inc hello (suc w) O)
            (request_chunks state)
            (λ r s. (r ≡ tt) × Talks inc asked w O s)
            Fails
        → Reaches (Wrote asked) (Talks inc hello (suc w) F) (receive_file v m' dest)
  unfolding receive_file receive_partial
  receive_file_asks F G O state resume sink is inc w loads opens requests =
      let m' = m v k c path dest ok streaming in
      let asked = hello ++ wire FrameType.req_chunks (request_payload is) in
      Reaches-then _ _ _ _
        (Reaches-known _ _ _ _ _ (state, resume) loads
          (Reaches-known _ _ _ _ _ sink opens (
            Reaches-known _ _ _ _ _ tt requests (
              Talks-Reaches inc asked w O _ (
                behind_request-Grows asked v m' dest (start_progress v.hash state sink resume)
                  resume)))))
        (λ sink'. Grows-Reaches asked _ (finish-Grows asked v m' dest sink'))

  pub session_asks :
      (F : Files → Type 0) (is inc : List ℕ) (w : ℕ)
      → let asked = hello ++ wire FrameType.req_chunks (request_payload is) in
        resolve_dest v.root path ≡ some dest
        → Reaches
            (Wrote asked)
            (Talks inc hello (suc w) F)
            (receive_file v (m v k c path dest ok streaming) dest)
        → Reaches (Wrote asked) (Talks (hello ++ (offer ++ inc)) [] (suc (suc w)) F) (session v)
  unfolding session
  session_asks F is inc w resolved asks =
      Reaches-bind _ _ _ _ _
        (handshake-Succeeds v k c path dest ok streaming (hello ++ (offer ++ inc)) [] (suc (suc w))
          F)
        (λ _.
          Reaches-bind _ _ _ _ _
            (exchange_hello-Succeeds v k c path dest ok streaming [] (suc w) F (offer ++ inc))
            (λ _.
              Reaches-known _ _ _ _ _ (m v k c path dest ok streaming)
                (receive_manifest-Succeeds v k c path dest ok streaming hello (suc w) F inc)
                (Reaches-known _ _ _ _ _ dest
                  (choose_dest-Succeeds v k c path dest ok streaming _ resolved) asks)))

  -- From a fresh start, all chunks are asked for.
  pub receive_file_asks_all :
      (inc : List ℕ) (w : ℕ)
      → let all = indices_from (count v k c path dest ok streaming) 0 in
        Reaches
          (Wrote (hello ++ wire FrameType.req_chunks (request_payload all)))
          (Talks inc hello (suc w) (Ready v k c path dest ok streaming))
          (receive_file v (m v k c path dest ok streaming) dest)
  receive_file_asks_all inc w =
      let O : Files → Type 0 = Opened v k c path dest ok streaming inc hello w in
      receive_file_asks _ _ O _ false _ _ inc w
        (load_state-Succeeds v k c path dest ok streaming inc hello (suc w))
        (open_dest-Succeeds v k c path dest ok streaming inc hello (suc w))
        (request_chunks-Succeeds v k c path dest ok streaming inc hello w O)
