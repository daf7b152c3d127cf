-- ===== src/Transport/Transfer/CutOff/Delivery.antt =====
-- Transfers of a file that were cut off, one after the other, and the one behind them.
use ati_tcp_file_transfer.Base.{
  ℕ, ◌≤◌, ◌≡◌, inl, inr, refl, Bool, true, none, some, All, List, [], ◌∷◌,
}
use ati_tcp_file_transfer.Util.Blake3.{IsStreaming}
use ati_tcp_file_transfer.Io.Files.{Files}
use ati_tcp_file_transfer.Io.Files.Calm.{IsCalm}
use ati_tcp_file_transfer.Transport.Connection.{Connection}
use ati_tcp_file_transfer.Transport.Session.{Session}
use ati_tcp_file_transfer.Transport.Client.Send.{send_file}
use ati_tcp_file_transfer.Transport.Server.Dest.{resolve_dest}
use ati_tcp_file_transfer.Transport.Server.Calls.{Server}
use ati_tcp_file_transfer.Transport.Server.Start.{state_path}
use ati_tcp_file_transfer.Transport.Server.Finish.{session, handle_session}
use ati_tcp_file_transfer.Transport.Server.Honest.{IsBinding}
use ati_tcp_file_transfer.Transport.Transfer.{IsTransferable, file_manifest}
use ati_tcp_file_transfer.Transport.Transfer.Serves.{CanSend, client_of, ends_in}
use ati_tcp_file_transfer.Transport.Transfer.Delivery.{transfer_delivers}
use ati_tcp_file_transfer.Transport.Transfer.Resume.Delivery.{transfer_resumes}
use ati_tcp_file_transfer.Transport.Transfer.CutOff.{Resumable}
use ati_tcp_file_transfer.Transport.Transfer.CutOff.Hears.{Offers}
use ati_tcp_file_transfer.Transport.Transfer.CutOff.Whole.{session-Resumable}

-- The files behind sessions on these connections, one after the other.
unfoldable pub attempts : Server → List Connection → Files → Files
attempts v [] fs = fs
attempts v (conn ∷ conns) fs =
    attempts v conns (handle_session v (record { conn = conn; files = fs })).1.files

-- A connection on which a client has sent HELLO and the manifest of the file, or a part of them, and
-- behind them anything; it ends anywhere, and fails for writes at any time.
pub record IsAttempt (v : Server) (k : ℕ) (c path : List ℕ) (conn : Connection) : Type 0 where
  pub incoming : Offers v.hash k c path conn.incoming
  pub handshake : conn.handshake_ok ≡ true

-- A connection with these bytes to come, which lets the writes of a session through.
pub record IsWhole (inc : List ℕ) (conn : Connection) : Type 0 where
  pub incoming : conn.incoming ≡ inc
  pub outgoing : conn.outgoing ≡ []
  pub writes : 3 ≤ conn.writes_left
  pub handshake : conn.handshake_ok ≡ true

module _ (v : Server) (k : ℕ) (c path dest : List ℕ) (fits : IsTransferable k c path)
    (streaming : IsStreaming v.hash) (binding : IsBinding v.hash c (file_manifest v.hash k c path))
    (resolved : resolve_dest v.root path ≡ some dest) where
  pub attempts-Resumable :
      (conns : List Connection) (fs : Files)
      → All (IsAttempt v k c path) conns
      → Resumable v k c path dest fits streaming fs
      → Resumable v k c path dest fits streaming (attempts v conns fs)
  unfolding attempts handle_session
  attempts-Resumable [] fs made r = r
  attempts-Resumable (conn ∷ conns) fs (made, others) r =
      let s : Session = record { conn = conn; files = fs } in
      attempts-Resumable conns _ others (
        ends_in (λ s'. Resumable v k c path dest fits streaming s'.files) (session v s).0
          (session v s).1
          ((session-Resumable v k c path dest fits streaming binding conn.incoming made.incoming
              resolved).at
            s (record { incoming = refl; handshake = made.handshake; files = r })))

-- Transfers of the file have been tried any number of times from files without a saved state: each time
-- the client has sent HELLO and the manifest of the file and then anything, or only a part of these,
-- behind a TLS handshake that succeeded, if there was one. If then a client and a server's session on these files talk to each other as `CanSend` and `IsWhole` say,
-- each reading exactly what the other one writes, the path resolves to the destination, the file and the
-- chunk size are transferable, the library hashes a stream as it hashes the whole, no other bytes
-- have the hash of the file or of one of its chunks, and no call on the files fails, then both
-- succeed, and the whole file is at the destination.
pub cut_off_delivers :
    (v : Server) (k : ℕ) (tls : Bool) (c path source_path dest : List ℕ) (conns : List Connection)
    (fs : Files) (sc ss : Session)
    → IsTransferable k c path
    → IsStreaming v.hash
    → IsBinding v.hash c (file_manifest v.hash k c path)
    → resolve_dest v.root path ≡ some dest
    → IsCalm fs
    → fs.contents (state_path dest) ≡ none
    → All (IsAttempt v k c path) conns
    → ss.files ≡ attempts v conns fs
    → CanSend (client_of v k tls) c source_path (handle_session v ss).1.conn.outgoing sc
    → IsWhole (send_file (client_of v k tls) source_path path sc).1.conn.outgoing ss.conn
    → ((send_file (client_of v k tls) source_path path sc).0 ≡ true)
      × ((handle_session v ss).0 ≡ true)
      × ((handle_session v ss).1.files.contents dest ≡ some c)
cut_off_delivers v k tls c path source_path dest conns fs sc ss fits streaming binding resolved calm
      nothing made left cs w =
    let at_start : Resumable v k c path dest fits streaming fs = record {
      calm = calm;
      begun = inl nothing;
    } in
    let now : Resumable v k c path dest fits streaming ss.files =
      rw left (
        attempts-Resumable v k c path dest fits streaming binding resolved conns fs made
          at_start) in
    elim (now.begun) [
      | inl none_left ↦
          transfer_delivers v k tls c path source_path dest sc ss fits streaming cs (record {
            resolved = resolved;
            incoming = w.incoming;
            outgoing = w.outgoing;
            writes = w.writes;
            handshake = w.handshake;
            calm = now.calm;
            no_state = none_left;
          })
      | inr b ↦
          transfer_resumes v k tls c path source_path dest b.left.partial.content b.state sc ss fits
            streaming cs
            (record {
              resolved = resolved;
              incoming = w.incoming;
              outgoing = w.outgoing;
              writes = w.writes;
              handshake = w.handshake;
              calm = now.calm;
              saved = b.left.saved;
              there = b.left.partial.there;
              holds = b.left.partial.holds;
              valid = b.state_of.valid;
              id = b.state_of.id;
              chunks = b.state_of.chunks;
            })
    ]
