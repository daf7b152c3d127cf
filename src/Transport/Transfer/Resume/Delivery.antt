-- ===== src/Transport/Transfer/Resume/Delivery.antt =====
-- A client, and a server that goes on from a transfer of the same file that was cut off, each of which
-- reads what the other writes.
use ati_tcp_file_transfer.Base.{ℕ, suc, ◌≤◌, ◌≡◌, arith, Bool, true, some, List, [], ◌++◌}
use ati_tcp_file_transfer.Util.Blake3.{IsStreaming}
use ati_tcp_file_transfer.Proto.Types.{FrameType}
use ati_tcp_file_transfer.Io.ResumeState.{ResumeState, missing}
use ati_tcp_file_transfer.Transport.Session.{Session}
use ati_tcp_file_transfer.Transport.Client.Send.{send_file}
use ati_tcp_file_transfer.Transport.Server.Calls.{Server}
use ati_tcp_file_transfer.Transport.Server.Finish.{handle_session, receive_file}
use ati_tcp_file_transfer.Transport.Transfer.{IsTransferable, wire, file_manifest, request_payload}
use ati_tcp_file_transfer.Transport.Transfer.Talks.{Talks}
use ati_tcp_file_transfer.Transport.Transfer.Grows.{Wrote, Reaches}
use ati_tcp_file_transfer.Transport.Transfer.Prefix.{
  hello, session_greets, session_asks, receive_file_asks,
}
use ati_tcp_file_transfer.Transport.Transfer.Serves.{
  CanSend, ends_in, client_of, Serves, Serves-delivers,
}
use ati_tcp_file_transfer.Transport.Transfer.Resume.Start.{
  IsLeft, IsStateOf, missing-AreChunks, load_state-resumes, open_dest-resumes,
  request_chunks-resumes,
}
use ati_tcp_file_transfer.Transport.Transfer.Resume.Whole.{CanResume, handle_session-resumes}

module _ (v : Server) (k : ℕ) (c path dest content : List ℕ) (state : ResumeState)
    (fits : IsTransferable k c path) (streaming : IsStreaming v.hash) where
  abbrev asked : List ℕ
  asked = hello ++ wire FrameType.req_chunks (request_payload (missing state))

  abbrev StateOf : Type 0
  StateOf = IsStateOf v k c path dest fits streaming state

  receive_file_asks_missing :
      StateOf
      → (inc : List ℕ) (w : ℕ)
      → Reaches
          (Wrote asked)
          (Talks inc hello (suc w) (IsLeft v k c path dest fits streaming state))
          (receive_file v (file_manifest v.hash k c path) dest)
  receive_file_asks_missing is_state inc w =
      let left = IsLeft v k c path dest fits streaming state in
      receive_file_asks v k c path dest fits streaming _ left left state true _ (missing state) inc
        w (load_state-resumes v k c path dest fits streaming state is_state inc hello (suc w))
        (open_dest-resumes v k c path dest fits streaming state is_state inc hello (suc w))
        (request_chunks-resumes v k c path dest fits streaming state inc hello w left is_state)

  module _ (inc : List ℕ) (s : Session) (can : CanResume v k c path dest content state inc s) where
    state_of : StateOf
    state_of = record { valid = can.valid; id = can.id; chunks = can.chunks }

    talks :
        (read : List ℕ) (w : ℕ)
        → s.conn.incoming ≡ read
        → w ≤ 3
        → Talks read [] w (IsLeft v k c path dest fits streaming state) s
    talks read w e h = record {
      incoming = e;
      outgoing = can.outgoing;
      writes = omega (arith, h, can.writes);
      files = record {
        saved = can.saved;
        partial = record {
          calm = can.calm;
          content = content;
          there = can.there;
          holds = can.holds;
        };
      };
      handshake = can.handshake;
    }

    resumes-Serves : Serves v k c path dest (missing state) s
    resumes-Serves = record {
      greets = λ rest e. ends_in (Wrote hello) _ _ (
          (session_greets v k c path dest fits streaming _ rest 0).at s
            (talks _ 1 e (omega arith)));
      asks = λ rest e. ends_in (Wrote asked) _ _ (
          (session_asks v k c path dest fits streaming _ (missing state) rest 0 can.resolved
              (receive_file_asks_missing state_of rest 0)).at
            s (talks _ 2 e (omega arith)));
      delivers = λ e.
          handle_session-resumes v k c path dest content state s fits streaming (record {
            resolved = can.resolved;
            incoming = e;
            outgoing = can.outgoing;
            writes = can.writes;
            handshake = can.handshake;
            calm = can.calm;
            saved = can.saved;
            there = can.there;
            holds = can.holds;
            valid = can.valid;
            id = can.id;
            chunks = can.chunks;
          });
    }

-- If each side's connection and files are as `CanSend` and `CanResume` say, the path resolves to the
-- destination, the file and the chunk size are transferable, the library hashes a stream as it
-- hashes the whole, and each side reads exactly what the other one writes in all, then both succeed,
-- and the whole file is at the destination.
pub transfer_resumes :
    (v : Server) (k : ℕ) (tls : Bool) (c path source_path dest content : List ℕ)
    (state : ResumeState) (sc ss : Session)
    → IsTransferable k c path
    → IsStreaming v.hash
    → CanSend (client_of v k tls) c source_path (handle_session v ss).1.conn.outgoing sc
    → CanResume v k c path dest content state
        (send_file (client_of v k tls) source_path path sc).1.conn.outgoing
        ss
    → ((send_file (client_of v k tls) source_path path sc).0 ≡ true)
      × ((handle_session v ss).0 ≡ true)
      × ((handle_session v ss).1.files.contents dest ≡ some c)
transfer_resumes v k tls c path source_path dest content state sc ss fits streaming cs cr =
    Serves-delivers v k tls c path source_path dest (missing state) sc ss fits streaming
      (missing-AreChunks v k c path dest fits streaming state
        (state_of v k c path dest content state fits streaming _ ss cr))
      cs (resumes-Serves v k c path dest content state fits streaming _ ss cr) cr.incoming
