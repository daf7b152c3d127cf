-- ===== src/Runs/Transfer.antt =====
-- Runs of a whole transfer: the file "s" of five bytes, sent in chunks of two to a server below "r", as
-- "a".
use ati_tcp_file_transfer.Base.{
  ℕ, ◌≡◌, refl, sym, arith, false, true, some, none, List, [], ◌∷◌, bytes_eq, if◌then◌else◌,
}
use ati_tcp_file_transfer.Io.Files.{FilePath}
use ati_tcp_file_transfer.Io.Paths.{
  starts_with, lexically_normal, is_empty, is_absolute, join, normal_names, names_of, append,
  ends_with_slash, is_directory_form,
}
use ati_tcp_file_transfer.Transport.Session.{Session}
use ati_tcp_file_transfer.Transport.Client.{chunk_count}
use ati_tcp_file_transfer.Transport.Client.Send.{send_file}
use ati_tcp_file_transfer.Transport.Server.Dest.{resolve_dest, is_path_safe}
use ati_tcp_file_transfer.Transport.Server.Calls.{Server}
use ati_tcp_file_transfer.Transport.Server.Finish.{handle_session}
use ati_tcp_file_transfer.Transport.Transfer.{
  IsTransferable, AreChunks, indices_from, client_wire, server_wire,
}
use ati_tcp_file_transfer.Transport.Transfer.Fits.{all-AreChunks}
use ati_tcp_file_transfer.Transport.Transfer.Serves.{CanSend, client_of, send_file-succeeds}
use ati_tcp_file_transfer.Transport.Transfer.Delivery.{
  CanReceive, handle_session-succeeds, transfer_delivers,
}
use ati_tcp_file_transfer.Runs.Hashing.{first_bytes, first_bytes-IsStreaming}
use ati_tcp_file_transfer.Runs.Exchange.{connection}

abbrev pub file : List ℕ
file = 1 ∷ 2 ∷ 3 ∷ 4 ∷ 5 ∷ []

abbrev pub path : FilePath
path = b'a' ∷ []

abbrev pub source_path : FilePath
source_path = b's' ∷ []

abbrev pub dest : FilePath
dest = b'r' ∷ b'/' ∷ b'a' ∷ []

abbrev pub server : Server
server = record { root = b'r' ∷ []; has_tls = false; hash = first_bytes; sink_text = λ e. [] }

pub transferable : IsTransferable 2 file path
unfolding chunk_count
transferable = record {
  pos = omega arith;
  chunk_room = omega arith;
  fits = omega arith;
  count = omega arith;
  path_len = omega arith;
  manifest_room = omega arith;
}

-- All chunks of the file.
abbrev all : List ℕ
all = indices_from (chunk_count 5 2) 0

-- A client whose server asks for these chunks.
abbrev pub sender : List ℕ → Session
sender is = record {
  conn = record (connection (server_wire is (chunk_count 5 2))) { writes_left = 6 };
  files = record {
    contents = λ p. if bytes_eq p source_path then some file else none;
    outcomes = [];
  };
}

abbrev receiver : Session
receiver = record {
  conn = record (connection (client_wire first_bytes 2 file path all)) { writes_left = 3 };
  files = record { contents = λ p. none; outcomes = [] };
}

pub can_send :
    (is : List ℕ)
    → CanSend
        (client_of server 2 false)
        file
        source_path
        (server_wire is (chunk_count 5 2))
        (sender is)
unfolding chunk_count bytes_eq
can_send is = record {
  reached = refl;
  incoming = refl;
  outgoing = refl;
  writes = omega arith;
  handshake = refl;
  source = record { calm = refl; content = refl };
}

can_receive : CanReceive server path dest (client_wire first_bytes 2 file path all) receiver
unfolding resolve_dest is_path_safe starts_with lexically_normal is_empty is_absolute join
    normal_names names_of bytes_eq append ends_with_slash is_directory_form
can_receive = record {
  resolved = refl;
  incoming = refl;
  outgoing = refl;
  writes = omega arith;
  handshake = refl;
  calm = refl;
  no_state = refl;
}

two-AreChunks : AreChunks (chunk_count 5 2) (2 ∷ 0 ∷ [])
unfolding chunk_count
two-AreChunks = record { few = omega arith; below = (omega arith, (omega arith, tt)) }

-- The last chunk is asked for before the first.
send_file-succeeds_example :
    let is : List ℕ = 2 ∷ 0 ∷ [] in
    ((send_file (client_of server 2 false) source_path path (sender is)).0 ≡ true)
    × ((send_file (client_of server 2 false) source_path path (sender is)).1.conn.outgoing
        ≡ client_wire first_bytes 2 file path is)
send_file-succeeds_example =
    send_file-succeeds (client_of server 2 false) file path source_path (2 ∷ 0 ∷ [])
      (sender (2 ∷ 0 ∷ [])) transferable first_bytes-IsStreaming two-AreChunks
      (can_send (2 ∷ 0 ∷ []))

handle_session-succeeds_example :
    ((handle_session server receiver).0 ≡ true)
    × ((handle_session server receiver).1.conn.outgoing ≡ server_wire all (chunk_count 5 2))
    × ((handle_session server receiver).1.files.contents dest ≡ some file)
handle_session-succeeds_example =
    handle_session-succeeds server 2 file path dest receiver transferable first_bytes-IsStreaming
      can_receive

pub reading :
    (P : List ℕ → Session → Type 0) (s : Session) (inc inc' : List ℕ)
    → inc ≡ inc'
    → P inc s
    → P inc' s
reading P s inc inc' e h = rw (sym e) h

reads_the_server :
    CanSend
      (client_of server 2 false)
      file
      source_path
      (handle_session server receiver).1.conn.outgoing
      (sender all)
reads_the_server =
    let served =
      handle_session-succeeds server 2 file path dest receiver transferable first_bytes-IsStreaming
        can_receive in
    reading (CanSend (client_of server 2 false) file source_path) (sender all) _ _ (sym served.1)
      (can_send all)

reads_the_client :
    CanReceive server path dest
      (send_file (client_of server 2 false) source_path path (sender all)).1.conn.outgoing
      receiver
reads_the_client =
    let sent =
      send_file-succeeds (client_of server 2 false) file path source_path all (sender all)
        transferable first_bytes-IsStreaming (all-AreChunks (chunk_count 5 2)) (can_send all) in
    reading (CanReceive server path dest) receiver _ _ (sym sent.1) can_receive

transfer_delivers_example :
    ((send_file (client_of server 2 false) source_path path (sender all)).0 ≡ true)
    × ((handle_session server receiver).0 ≡ true)
    × ((handle_session server receiver).1.files.contents dest ≡ some file)
transfer_delivers_example =
    transfer_delivers server 2 false file path source_path dest (sender all) receiver transferable
      first_bytes-IsStreaming reads_the_server reads_the_client
