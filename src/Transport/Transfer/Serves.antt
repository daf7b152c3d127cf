-- ===== src/Transport/Transfer/Serves.antt =====
-- A client, and a server by what its session promises to it, each of which reads what the other writes.
use ati_tcp_file_transfer.Base.{
  ℕ, suc, ◌∙◌, append_assoc, ◌+◌, ◌≤◌, ◌≡◌, refl, arith, Bool, true, some, length, List, [], ◌++◌,
}
use ati_tcp_file_transfer.Util.Blake3.{IsStreaming}
use ati_tcp_file_transfer.Io.FileSource.Succeeds.{There}
use ati_tcp_file_transfer.Transport.Session.{Session, Result, ok, err}
use ati_tcp_file_transfer.Transport.Session.Rules.{Ends}
use ati_tcp_file_transfer.Transport.Client.{Client, connected, chunk_count}
use ati_tcp_file_transfer.Transport.Client.Send.{transfer, send_file}
use ati_tcp_file_transfer.Transport.Server.Calls.{Server}
use ati_tcp_file_transfer.Transport.Server.Finish.{session, handle_session, is_ok}
use ati_tcp_file_transfer.Transport.Transfer.{
  IsTransferable, AreChunks, wire, file_manifest, request_payload, client_wire, server_wire,
}
use ati_tcp_file_transfer.Proto.Types.{FrameType}
use ati_tcp_file_transfer.Proto.Messages.{encode_manifest}
use ati_tcp_file_transfer.Transport.Transfer.Grows.{Wrote}
use ati_tcp_file_transfer.Transport.Transfer.Talks.{Fails, Talks}
use ati_tcp_file_transfer.Transport.Transfer.Sender.Sending.{transfer-Succeeds}
use ati_tcp_file_transfer.Transport.Transfer.Prefix.{hello}
use ati_tcp_file_transfer.Transport.Transfer.Prefix.Sender.{
  transfer_greets, transfer_offers, transfer_sends,
}

pub succeeded :
    {E : Type 0} (Q : Unit {0} → Session → Type 0) (r : Result E (Unit {0})) (s : Session)
    → Ends Q Fails r s
    → (is_ok r ≡ true) × Q tt s
succeeded Q (ok a) s h = (refl, h)
succeeded Q (err e) s h = elim h [ ]

-- The client's session before the transfer of the file `c`: the network and the connection let its
-- writes through, and no call on its files will fail.
pub record CanSend (client : Client) (c source_path inc : List ℕ) (s : Session) : Type 0 where
  pub reached : client.network ≡ connected
  pub incoming : s.conn.incoming ≡ inc
  pub outgoing : s.conn.outgoing ≡ []
  pub writes : 3 + chunk_count (length c) client.chunk_size ≤ s.conn.writes_left
  pub handshake : s.conn.handshake_ok ≡ true
  pub source : There source_path c s.files

-- If a client's connection, network and file are as `CanSend` says, the file and the chunk size are
-- transferable, the library hashes a stream as it hashes the whole, and the bytes that arrive are
-- those of a server that asks for some chunks of the file, no more than it has, then `send` succeeds,
-- and has written HELLO, the manifest of the file, exactly these chunks in the order that they were
-- asked for, and COMPLETE.
pub send_file-succeeds :
    (client : Client) (c path source_path is : List ℕ) (s : Session)
    → let count = chunk_count (length c) client.chunk_size in
      IsTransferable client.chunk_size c path
      → IsStreaming client.hash
      → AreChunks count is
      → CanSend client c source_path (server_wire is count) s
      → ((send_file client source_path path s).0 ≡ true)
        × ((send_file client source_path path s).1.conn.outgoing
            ≡ client_wire client.hash client.chunk_size c path is)
unfolding send_file
send_file-succeeds client c path source_path is s fits streaming chunks can =
    let (good, t) = succeeded _ _ _ (
      (transfer-Succeeds client c path source_path fits streaming is chunks 0 can.reached).at s
        (record {
          incoming = can.incoming;
          outgoing = can.outgoing;
          writes = omega (arith, can.writes, chunks.few);
          files = can.source;
          handshake = can.handshake;
        })) in
    (good, t.outgoing)

pub ends_in :
    {E : Type 0} (W : Session → Type 0) (r : Result E (Unit {0})) (s : Session)
    → Ends (λ _. W) (λ _. W) r s
    → W s
ends_in W (ok a) s h = h
ends_in W (err e) s h = h

-- A client of the server's hash library.
abbrev pub client_of : Server → ℕ → Bool → Client
client_of v k tls = record { chunk_size = k; has_tls = tls; network = connected; hash = v.hash }

-- What a server's session promises to a client that sends it the file, step by step: it greets, asks for
-- these chunks, and takes them.
pub record Serves (v : Server) (k : ℕ) (c path dest is : List ℕ) (s : Session) : Type 0 where
  pub greets : (rest : List ℕ) → s.conn.incoming ≡ hello ++ rest → Wrote hello (session v s).1
  pub asks :
      (rest : List ℕ)
      → s.conn.incoming
        ≡ hello
          ++ (wire FrameType.manifest (encode_manifest (file_manifest v.hash k c path)) ++ rest)
      → Wrote (hello ++ wire FrameType.req_chunks (request_payload is)) (session v s).1
  pub delivers :
      s.conn.incoming ≡ client_wire v.hash k c path is
      → ((handle_session v s).0 ≡ true)
        × ((handle_session v s).1.conn.outgoing ≡ server_wire is (chunk_count (length c) k))
        × ((handle_session v s).1.files.contents dest ≡ some c)

-- A client and a server that keeps such a promise, each of which reads what the other writes.
pub Serves-delivers :
    (v : Server) (k : ℕ) (tls : Bool) (c path source_path dest is : List ℕ) (sc ss : Session)
    → IsTransferable k c path
    → IsStreaming v.hash
    → AreChunks (chunk_count (length c) k) is
    → CanSend (client_of v k tls) c source_path (handle_session v ss).1.conn.outgoing sc
    → Serves v k c path dest is ss
    → ss.conn.incoming ≡ (send_file (client_of v k tls) source_path path sc).1.conn.outgoing
    → ((send_file (client_of v k tls) source_path path sc).0 ≡ true)
      × ((handle_session v ss).0 ≡ true)
      × ((handle_session v ss).1.files.contents dest ≡ some c)
unfolding send_file handle_session
Serves-delivers v k tls c path source_path dest is sc ss fits streaming chunks cs serves reads =
    let client = client_of v k tls in
    let talks : (inc : List ℕ) (w : ℕ)
        → (session v ss).1.conn.outgoing ≡ inc
        → w ≤ 3 + chunk_count (length c) k
        → Talks inc [] w (There source_path c) sc =
      λ inc w e h. record {
        incoming = cs.incoming ∙ e;
        outgoing = cs.outgoing;
        writes = omega (arith, h, cs.writes);
        files = cs.source;
        handshake = cs.handshake;
      } in
    let ask : List ℕ = wire FrameType.req_chunks (request_payload is) in
    let offer : List ℕ =
      wire FrameType.manifest (encode_manifest (file_manifest v.hash k c path)) in
    let (x, greeted) = ends_in (Wrote hello) _ _ (
      (transfer_greets client c path source_path fits streaming is chunks refl _ 0).at sc
        (talks _ 1 refl (omega arith))) in
    let (y, answered) = serves.greets x (reads ∙ greeted) in
    let (x', offered) = ends_in (Wrote (hello ++ offer)) _ _ (
      (transfer_offers client c path source_path fits streaming is chunks refl y 0).at sc
        (talks _ 2 answered (omega arith))) in
    let (y', asked) = serves.asks x' (reads ∙ offered ∙ append_assoc hello offer x') in
    let sent : (transfer client source_path path sc).1.conn.outgoing
        ≡ client_wire v.hash k c path is =
      ends_in (λ s. s.conn.outgoing ≡ client_wire v.hash k c path is) _ _
        ((transfer_sends client c path source_path fits streaming is chunks refl y' 0).at sc (
          talks _ (suc (suc (length is + 1))) (asked ∙ append_assoc hello ask y')
            (omega (arith, chunks.few)))) in
    let (received, replied, arrived) = serves.delivers (reads ∙ sent) in
    let (done, _) =
      send_file-succeeds client c path source_path is sc fits streaming chunks (record {
        reached = refl;
        incoming = cs.incoming ∙ replied;
        outgoing = cs.outgoing;
        writes = cs.writes;
        handshake = cs.handshake;
        source = cs.source;
      }) in
    (done, received, arrived)
