-- ===== src/Transport/Transfer/Resume/Body.antt =====
-- Server::handle_session_ on the missing chunks of a file that a transfer that was cut off has left: from
-- the destination to the check of the root hash.
use ati_tcp_file_transfer.Base.{ℕ, suc, true}
use ati_tcp_file_transfer.Base.{List, [], ◌++◌}
use ati_tcp_file_transfer.Util.Blake3.{IsStreaming, blake3}
use ati_tcp_file_transfer.Proto.Types.{FrameType}
use ati_tcp_file_transfer.Io.Files.{FilePath}
use ati_tcp_file_transfer.Io.FileSink.{FileSink}
use ati_tcp_file_transfer.Io.ResumeState.{missing, ResumeState}
use ati_tcp_file_transfer.Transport.Session.{Session}
use ati_tcp_file_transfer.Transport.Session.Rules.{Runs, Runs-pure, Runs-bind, Runs-bind_known}
use ati_tcp_file_transfer.Transport.Server.Calls.{Server}
use ati_tcp_file_transfer.Transport.Server.Finish.{receive_partial}
use ati_tcp_file_transfer.Transport.Transfer.{client_body, request_payload}
use ati_tcp_file_transfer.Transport.Transfer.{IsTransferable, wire, file_manifest}
use ati_tcp_file_transfer.Transport.Transfer.Talks.{Fails, Talks, with_files}
use ati_tcp_file_transfer.Transport.Transfer.Receiver.Body.{Received}
use ati_tcp_file_transfer.Transport.Transfer.Resume.Start.{
  IsLeft, IsStateOf, opened, load_state-resumes, open_dest-resumes, request_chunks-resumes,
  receive_chunks-resumes,
}
use ati_tcp_file_transfer.Transport.Transfer.Resume.Checks.{
  whole_file, check_inventory-resumes, root_hash-resumes, check_root_hash-resumes,
}

module _ (v : Server) (k : ℕ) (c path : List ℕ) (dest : FilePath) (ok : IsTransferable k c path)
    (streaming : IsStreaming v.hash) (state : ResumeState) where
  pub receive_partial-resumes :
      (out : List ℕ) (w : ℕ)
      → IsStateOf v k c path dest ok streaming state
      → Runs
          (Talks
            (client_body v.hash k c (missing state))
            out
            (suc w)
            (IsLeft v k c path dest ok streaming state))
          (receive_partial v (file_manifest v.hash k c path) dest)
          (λ sink.
            Talks []
              (out ++ wire FrameType.req_chunks (request_payload (missing state)))
              w
              (Received v k c path dest ok streaming sink))
          Fails
  unfolding receive_partial
  receive_partial-resumes out w is_state =
      let body = client_body v.hash k c (missing state) in
      let left = IsLeft v k c path dest ok streaming state in
      let asked = out ++ wire FrameType.req_chunks (request_payload (missing state)) in
      let Q : FileSink → Session → Type 0 =
        λ sink. Talks [] asked w (Received v k c path dest ok streaming sink) in
      Runs-bind_known _ _ Q Fails (state, true) _ _
        (load_state-resumes v k c path dest ok streaming state is_state body out (suc w))
        (Runs-bind_known _ _ Q Fails (opened v k c path dest ok streaming state) _ _
          (open_dest-resumes v k c path dest ok streaming state is_state body out (suc w))
          (Runs-bind_known _ _ Q Fails tt _ _
            (request_chunks-resumes v k c path dest ok streaming state body out w left is_state)
            (Runs-bind _ Q Fails _ _ _
              (receive_chunks-resumes v k c path dest ok streaming state asked w is_state)
              (λ (q, client_final). record {
                at = λ s (g, final, t).
                    let P : Session → Type 0 =
                      Talks [] asked w (Received v k c path dest ok streaming q.sink) in
                    rw final (
                      (Runs-bind_known P P Q Fails tt _ _
                          (check_inventory-resumes v k c path dest ok streaming q g P)
                          (Runs-bind_known P P Q Fails (blake3 v.hash c, q.sink) _ _
                            (root_hash-resumes v k c path dest ok streaming q g [] asked w)
                            (Runs-bind_known P P Q Fails tt _ _
                              (check_root_hash-resumes v k c path dest ok streaming q g [] asked w)
                              (Runs-pure P Q Fails q.sink (λ s' t'. t'))))).at
                        s
                        (with_files _ _ _ _ _ _ _ t
                          (whole_file v k c path dest ok streaming q g s.files t.files)));
              }))))
