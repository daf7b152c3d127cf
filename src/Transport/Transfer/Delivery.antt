-- ===== src/Transport/Transfer/Delivery.antt =====
-- A client and a server from a fresh start, each of which reads what the other writes.
use ati_tcp_file_transfer.Base.{ℕ, ◌≤◌, ◌≡◌, arith, Bool, true, some, none, length, List, [], ◌++◌}
use ati_tcp_file_transfer.Util.Blake3.{IsStreaming}
use ati_tcp_file_transfer.Io.Files.Calm.{IsCalm}
use ati_tcp_file_transfer.Transport.Server.Start.{state_path}
use ati_tcp_file_transfer.Transport.Session.{Session}
use ati_tcp_file_transfer.Transport.Client.{chunk_count}
use ati_tcp_file_transfer.Transport.Client.Send.{send_file}
use ati_tcp_file_transfer.Transport.Server.Dest.{resolve_dest}
use ati_tcp_file_transfer.Transport.Server.Calls.{Server}
use ati_tcp_file_transfer.Transport.Server.Finish.{handle_session}
use ati_tcp_file_transfer.Transport.Transfer.{
  IsTransferable, indices_from, wire, request_payload, client_wire, server_wire,
}
use ati_tcp_file_transfer.Proto.Types.{FrameType}
use ati_tcp_file_transfer.Transport.Transfer.Grows.{Wrote}
use ati_tcp_file_transfer.Transport.Transfer.Talks.{Talks}
use ati_tcp_file_transfer.Transport.Transfer.Receiver.Whole.{Ready, session-Succeeds}
use ati_tcp_file_transfer.Transport.Transfer.Prefix.{
  hello, session_greets, session_asks, receive_file_asks_all,
}
use ati_tcp_file_transfer.Transport.Transfer.Fits.{all-AreChunks}
use ati_tcp_file_transfer.Transport.Transfer.Serves.{
  succeeded, CanSend, ends_in, client_of, Serves, Serves-delivers,
}

-- The server's session before the transfer of a file: the connection lets its writes through, no call on
-- its files will fail, and there is no saved state.
pub record CanReceive (v : Server) (path dest inc : List ℕ) (s : Session) : Type 0 where
  pub resolved : resolve_dest v.root path ≡ some dest
  pub incoming : s.conn.incoming ≡ inc
  pub outgoing : s.conn.outgoing ≡ []
  pub writes : 3 ≤ s.conn.writes_left
  pub handshake : s.conn.handshake_ok ≡ true
  pub calm : IsCalm s.files
  pub no_state : s.files.contents (state_path dest) ≡ none

-- If a server's connection and files are as `CanReceive` says, the path resolves to the destination, the
-- file and the chunk size are transferable, the library hashes a stream as it hashes the whole, and
-- the bytes that arrive are those of a client that sends the file, then the session succeeds, has
-- written HELLO, the request for all chunks and ACK, and has put the file at the destination.
pub handle_session-succeeds :
    (v : Server) (k : ℕ) (c path dest : List ℕ) (s : Session)
    → let all = indices_from (chunk_count (length c) k) 0 in
      IsTransferable k c path
      → IsStreaming v.hash
      → CanReceive v path dest (client_wire v.hash k c path all) s
      → ((handle_session v s).0 ≡ true)
        × ((handle_session v s).1.conn.outgoing ≡ server_wire all (chunk_count (length c) k))
        × ((handle_session v s).1.files.contents dest ≡ some c)
unfolding handle_session
handle_session-succeeds v k c path dest s fits streaming can =
    let (good, t) = succeeded _ _ _ (
      (session-Succeeds v k c path dest fits streaming 0 can.resolved).at s (record {
        incoming = can.incoming;
        outgoing = can.outgoing;
        writes = omega (arith, can.writes);
        files = (can.calm, can.no_state);
        handshake = can.handshake;
      })) in
    (good, t.outgoing, t.files)

-- If each side's connection and files are as `CanSend` and `CanReceive` say, the path resolves to the
-- destination, the file and the chunk size are transferable, the library hashes a stream as it
-- hashes the whole, and each side reads exactly what the other one writes in all, then both succeed,
-- and the file is at the destination.
pub transfer_delivers :
    (v : Server) (k : ℕ) (tls : Bool) (c path source_path dest : List ℕ) (sc ss : Session)
    → IsTransferable k c path
    → IsStreaming v.hash
    → CanSend (client_of v k tls) c source_path (handle_session v ss).1.conn.outgoing sc
    → CanReceive v path dest (send_file (client_of v k tls) source_path path sc).1.conn.outgoing ss
    → ((send_file (client_of v k tls) source_path path sc).0 ≡ true)
      × ((handle_session v ss).0 ≡ true)
      × ((handle_session v ss).1.files.contents dest ≡ some c)
transfer_delivers v k tls c path source_path dest sc ss fits streaming cs cr =
    let n = chunk_count (length c) k in
    let talks : (inc : List ℕ) (w : ℕ)
        → ss.conn.incoming ≡ inc
        → w ≤ 3
        → Talks inc [] w (Ready v k c path dest fits streaming) ss =
      λ inc w e h. record {
        incoming = e;
        outgoing = cr.outgoing;
        writes = omega (arith, h, cr.writes);
        files = (cr.calm, cr.no_state);
        handshake = cr.handshake;
      } in
    let serves : Serves v k c path dest (indices_from n 0) ss = record {
      greets = λ rest e. ends_in (Wrote hello) _ _ (
          (session_greets v k c path dest fits streaming _ rest 0).at ss
            (talks _ 1 e (omega arith)));
      asks = λ rest e.
          ends_in (Wrote (hello ++ wire FrameType.req_chunks (request_payload (indices_from n 0))))
            _ _
            ((session_asks v k c path dest fits streaming _ (indices_from n 0) rest 0 cr.resolved
                (receive_file_asks_all v k c path dest fits streaming rest 0)).at
              ss (talks _ 2 e (omega arith)));
      delivers = λ e. handle_session-succeeds v k c path dest ss fits streaming (record {
        resolved = cr.resolved;
        incoming = e;
        outgoing = cr.outgoing;
        writes = cr.writes;
        handshake = cr.handshake;
        calm = cr.calm;
        no_state = cr.no_state;
      });
    } in
    Serves-delivers v k tls c path source_path dest _ sc ss fits streaming (all-AreChunks n) cs
      serves cr.incoming
