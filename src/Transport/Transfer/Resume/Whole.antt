-- ===== src/Transport/Transfer/Resume/Whole.antt =====
-- Server::handle_session_ on the missing chunks of a file that a transfer that was cut off has left: the
-- whole session.
use ati_tcp_file_transfer.Base.{
  ℕ, suc, ◌≤◌, ◌≡◌, sym, arith, true, some, List, [], ◌++◌, append_assoc, length,
}
use ati_tcp_file_transfer.Util.Blake3.{IsStreaming}
use ati_tcp_file_transfer.Proto.Types.{FrameType}
use ati_tcp_file_transfer.Proto.Messages.{default_hello, encode_hello, ManifestMsg, encode_manifest}
use ati_tcp_file_transfer.Io.Files.{FilePath, Files}
use ati_tcp_file_transfer.Io.ResumeState.{ResumeState, missing}
use ati_tcp_file_transfer.Transport.Session.{Session}
use ati_tcp_file_transfer.Transport.Session.Rules.{Runs, Runs-bind, Runs-bind_known}
use ati_tcp_file_transfer.Transport.Client.{chunk_count}
use ati_tcp_file_transfer.Transport.Server.Dest.{resolve_dest}
use ati_tcp_file_transfer.Transport.Server.Calls.{Server}
use ati_tcp_file_transfer.Transport.Server.Finish.{receive_file, session, handle_session}
use ati_tcp_file_transfer.Transport.Transfer.{IsTransferable, wire, file_manifest, ack_payload}
use ati_tcp_file_transfer.Transport.Transfer.Talks.{Fails, Talks}
use ati_tcp_file_transfer.Transport.Transfer.{
  client_body, client_wire, server_wire, request_payload,
}
use ati_tcp_file_transfer.Transport.Transfer.Serves.{succeeded}
use ati_tcp_file_transfer.Transport.Transfer.Receiver.Whole.{
  Arrived, commit-Succeeds, acknowledge-Succeeds, handshake-Succeeds, exchange_hello-Succeeds,
  receive_manifest-Succeeds, choose_dest-Succeeds,
}
use ati_tcp_file_transfer.Transport.Transfer.Resume.{Holds}
use ati_tcp_file_transfer.Transport.Server.Start.{state_path, manifest_id}
use ati_tcp_file_transfer.Io.Files.Calm.{IsCalm}
use ati_tcp_file_transfer.Io.FileSink.{with_partial_suffix}
use ati_tcp_file_transfer.Io.ResumeState.{serialize}
use ati_tcp_file_transfer.Io.ResumeState.Laws.{IsValid}
use ati_tcp_file_transfer.Transport.Transfer.Resume.Start.{IsLeft, IsStateOf}
use ati_tcp_file_transfer.Transport.Transfer.Resume.Body.{receive_partial-resumes}

module _ (v : Server) (k : ℕ) (c path : List ℕ) (dest : FilePath) (ok : IsTransferable k c path)
    (streaming : IsStreaming v.hash) (state : ResumeState) where
  abbrev m : ManifestMsg
  m = file_manifest v.hash k c path

  abbrev hello : List ℕ
  hello = wire FrameType.hello (encode_hello default_hello)

  abbrev asked : List ℕ
  asked = wire FrameType.req_chunks (request_payload (missing state))

  abbrev acked : List ℕ
  acked = wire FrameType.ack (ack_payload (chunk_count (length c) k))

  abbrev Left : Files → Type 0
  Left = IsLeft v k c path dest ok streaming state

  abbrev Delivered : Files → Type 0
  Delivered = Arrived v k c path dest ok streaming

  abbrev body : List ℕ
  body = client_body v.hash k c (missing state)

  receive_file-resumes :
      (out : List ℕ) (w : ℕ)
      → IsStateOf v k c path dest ok streaming state
      → Runs
          (Talks body out (suc (suc w)) Left)
          (receive_file v m dest)
          (λ _. Talks [] ((out ++ asked) ++ acked) w Delivered)
          Fails
  unfolding receive_file
  receive_file-resumes out w is_state =
      Runs-bind _ _ Fails _ _ _
        (receive_partial-resumes v k c path dest ok streaming state out (suc w) is_state)
        (λ sink.
          Runs-bind_known _ (Talks [] (out ++ asked) (suc w) Delivered) _ Fails tt _ _
            (commit-Succeeds v k c path dest ok streaming [] (out ++ asked) (suc w) sink)
            (acknowledge-Succeeds v k c path dest ok streaming [] (out ++ asked) w))

  pub session-resumes :
      (w : ℕ)
      → IsStateOf v k c path dest ok streaming state
      → resolve_dest v.root path ≡ some dest
      → Runs
          (Talks
            (hello ++ (wire FrameType.manifest (encode_manifest m) ++ body))
            []
            (suc (suc (suc w)))
            Left)
          (session v)
          (λ _. Talks [] (hello ++ (asked ++ acked)) w Delivered)
          Fails
  unfolding session
  session-resumes w is_state resolved =
      let offer = wire FrameType.manifest (encode_manifest m) ++ body in
      let Q : Unit {0} → Session → Type 0 = λ _. Talks [] (hello ++ (asked ++ acked)) w Delivered in
      Runs-bind _ Q Fails _ _ _
        (handshake-Succeeds v k c path dest ok streaming (hello ++ offer) [] (suc (suc (suc w)))
          Left)
        (λ _.
          Runs-bind _ Q Fails _ _ _
            (exchange_hello-Succeeds v k c path dest ok streaming [] (suc (suc w)) Left offer)
            (λ _.
              Runs-bind_known _ (Talks body hello (suc (suc w)) Left) Q Fails m _ _
                (receive_manifest-Succeeds v k c path dest ok streaming hello (suc (suc w)) Left
                  body)
                (Runs-bind_known _ (Talks body hello (suc (suc w)) Left) Q Fails dest _ _
                  (choose_dest-Succeeds v k c path dest ok streaming _ resolved)
                  (rw (sym (append_assoc hello asked acked))
                    (receive_file-resumes hello w is_state)))))

-- The server's session before the rest of the transfer of the file `c`: the connection lets its writes
-- through, no call on the files will fail, the saved state is a valid one of the file's manifest, and
-- the partial file holds the chunks that are set in it.
pub record CanResume (v : Server) (k : ℕ) (c path dest content : List ℕ) (state : ResumeState)
    (inc : List ℕ) (s : Session) : Type 0 where
  pub resolved : resolve_dest v.root path ≡ some dest
  pub incoming : s.conn.incoming ≡ inc
  pub outgoing : s.conn.outgoing ≡ []
  pub writes : 3 ≤ s.conn.writes_left
  pub handshake : s.conn.handshake_ok ≡ true
  pub calm : IsCalm s.files
  pub saved : s.files.contents (state_path dest) ≡ some (serialize state)
  pub there : s.files.contents (with_partial_suffix dest) ≡ some content
  pub holds : Holds k c state content
  pub valid : IsValid state
  pub id : state.manifest_id ≡ manifest_id v (file_manifest v.hash k c path)
  pub chunks : state.chunk_count ≡ chunk_count (length c) k

-- If a server's connection and files are as `CanResume` says, the path resolves to the destination, the
-- file and the chunk size are transferable, the library hashes a stream as it hashes the whole, and
-- the bytes that arrive are those of a client that is asked for the chunks that are missing in the
-- saved state, then the session succeeds, has asked for exactly these chunks, and has put the whole
-- file at the destination.
pub handle_session-resumes :
    (v : Server) (k : ℕ) (c path dest content : List ℕ) (state : ResumeState) (s : Session)
    → IsTransferable k c path
    → IsStreaming v.hash
    → CanResume v k c path dest content state (client_wire v.hash k c path (missing state)) s
    → ((handle_session v s).0 ≡ true)
      × ((handle_session v s).1.conn.outgoing
          ≡ server_wire (missing state) (chunk_count (length c) k))
      × ((handle_session v s).1.files.contents dest ≡ some c)
unfolding handle_session
handle_session-resumes v k c path dest content state s fits streaming can =
    let (good, t) = succeeded _ _ _ (
      (session-resumes v k c path dest fits streaming state 0
          (record { valid = can.valid; id = can.id; chunks = can.chunks }) can.resolved).at
        s
        (record {
          incoming = can.incoming;
          outgoing = can.outgoing;
          writes = omega (arith, can.writes);
          files = record {
            saved = can.saved;
            partial = record {
              calm = can.calm;
              content = content;
              there = can.there;
              holds = can.holds;
            };
          };
          handshake = can.handshake;
        })) in
    (good, t.outgoing, t.files)
