-- ===== src/Runs/CutOff.antt =====
-- A transfer of five bytes, in chunks of two, that was cut off behind its first chunk, and the next one:
-- it sends what the server finds to be missing.
use ati_tcp_file_transfer.Base.{
  ℕ, ◌*◌, ◌≡◌, ◌⊎◌, inl, inr, refl, sym, arith, bytes_eq, false, true, none, some, List, [], ◌∷◌,
  ◌++◌, take, drop, length-take,
}
use ati_tcp_file_transfer.Proto.Types.{FrameType}
use ati_tcp_file_transfer.Proto.Frame.{encode_to}
use ati_tcp_file_transfer.Proto.Messages.{encode_hello, encode_manifest}
use ati_tcp_file_transfer.Util.Byteorder.{write_be_u32}
use ati_tcp_file_transfer.Io.Files.{Files}
use ati_tcp_file_transfer.Io.Paths.{
  starts_with, lexically_normal, is_empty, is_absolute, join, normal_names, names_of, append,
  ends_with_slash, is_directory_form,
}
use ati_tcp_file_transfer.Io.ResumeState.{missing}
use ati_tcp_file_transfer.Transport.Connection.{Connection}
use ati_tcp_file_transfer.Transport.Session.{Session}
use ati_tcp_file_transfer.Transport.Client.{chunk_count}
use ati_tcp_file_transfer.Transport.Client.Send.{send_file}
use ati_tcp_file_transfer.Transport.Server.Dest.{resolve_dest, is_path_safe}
use ati_tcp_file_transfer.Transport.Server.Start.{state_path}
use ati_tcp_file_transfer.Transport.Server.Finish.{handle_session}
use ati_tcp_file_transfer.Transport.Server.Honest.{slice, IsBinding}
use ati_tcp_file_transfer.Transport.Transfer.{
  AreChunks, indices_from, wire, chunk_payload, file_manifest, client_wire, server_wire,
}
use ati_tcp_file_transfer.Transport.Transfer.Fits.{all-AreChunks}
use ati_tcp_file_transfer.Transport.Transfer.Prefix.{hello}
use ati_tcp_file_transfer.Transport.Transfer.Serves.{CanSend, client_of, send_file-succeeds}
use ati_tcp_file_transfer.Transport.Transfer.Delivery.{handle_session-succeeds}
use ati_tcp_file_transfer.Transport.Transfer.Resume.Start.{missing-AreChunks}
use ati_tcp_file_transfer.Transport.Transfer.Resume.Whole.{handle_session-resumes}
use ati_tcp_file_transfer.Transport.Transfer.CutOff.{Resumable, Begun}
use ati_tcp_file_transfer.Transport.Transfer.CutOff.Hears.{cut_short, and_more}
use ati_tcp_file_transfer.Transport.Transfer.CutOff.Delivery.{
  attempts, IsAttempt, IsWhole, attempts-Resumable, cut_off_delivers,
}
use ati_tcp_file_transfer.Runs.Exchange.{connection}
use ati_tcp_file_transfer.Runs.Hashing.{first_bytes, first_bytes-IsStreaming, first_bytes-injective}
use ati_tcp_file_transfer.Runs.Transfer.{
  file, path, source_path, dest, server, transferable, sender, can_send, reading,
}

-- The first connection: HELLO, the manifest, the chunk 0, and no more.
abbrev cut : Connection
cut =
    record (connection (
      hello
      ++ (wire FrameType.manifest (encode_manifest (file_manifest first_bytes 2 file path))
          ++ wire FrameType.chunk (chunk_payload first_bytes 2 file 0)))) { writes_left = 2 }

cut-IsAttempt : IsAttempt server 2 file path cut
cut-IsAttempt = record {
  incoming = and_more (wire FrameType.chunk (chunk_payload first_bytes 2 file 0)) refl;
  handshake = refl;
}

-- The second connection is lost within HELLO, and lets no write through.
abbrev lost : Connection
lost = record (connection (take 4 hello)) { writes_left = 0 }

lost-IsAttempt : IsAttempt server 2 file path lost
unfolding encode_to encode_hello write_be_u32
lost-IsAttempt = record { incoming = cut_short 4 refl; handshake = refl }

abbrev no_files : Files
no_files = record { contents = λ p. none; outcomes = [] }

abbrev left : Files
left = attempts server (cut ∷ lost ∷ []) no_files

binding : IsBinding first_bytes file (file_manifest first_bytes 2 file path)
binding = record {
  chunk = λ i x _ e.
      first_bytes-injective x (slice 2 file i) (omega (arith, length-take 2 (drop (i * 2) file))) e;
  file = λ x e. first_bytes-injective x file (omega arith) e;
}

resolved : resolve_dest server.root path ≡ some dest
unfolding resolve_dest is_path_safe starts_with lexically_normal is_empty is_absolute join
    normal_names names_of bytes_eq append ends_with_slash is_directory_form
resolved = refl

left-Resumable : Resumable server 2 file path dest transferable first_bytes-IsStreaming left
left-Resumable =
    attempts-Resumable server 2 file path dest transferable first_bytes-IsStreaming binding resolved
      (cut ∷ lost ∷ []) no_files (cut-IsAttempt, (lost-IsAttempt, tt))
      (record { calm = refl; begun = inl refl })

-- What the server asks for, whichever it finds.
abbrev Found : Type 0
Found =
    (left.contents (state_path dest) ≡ none)
    ⊎ Begun server 2 file path dest transferable first_bytes-IsStreaming left

abbrev asked : Found → List ℕ
asked (inl nothing) = indices_from (chunk_count 5 2) 0
asked (inr b) = missing b.state

abbrev next : Found → Session
next found = record {
  conn = record (connection (client_wire first_bytes 2 file path (asked found))) {
    writes_left = 3;
  };
  files = left;
}

asked-AreChunks : (found : Found) → AreChunks (chunk_count 5 2) (asked found)
asked-AreChunks (inl nothing) = all-AreChunks (chunk_count 5 2)
asked-AreChunks (inr b) =
    missing-AreChunks server 2 file path dest transferable first_bytes-IsStreaming b.state
      b.state_of

served :
    (found : Found)
    → (handle_session server (next found)).1.conn.outgoing
      ≡ server_wire (asked found) (chunk_count 5 2)
served (inl nothing) =
    (handle_session-succeeds server 2 file path dest (next (inl nothing)) transferable
      first_bytes-IsStreaming
      (record {
        resolved = resolved;
        incoming = refl;
        outgoing = refl;
        writes = omega arith;
        handshake = refl;
        calm = left-Resumable.calm;
        no_state = nothing;
      })).1
served (inr b) =
    (handle_session-resumes server 2 file path dest b.left.partial.content b.state (next (inr b))
      transferable first_bytes-IsStreaming
      (record {
        resolved = resolved;
        incoming = refl;
        outgoing = refl;
        writes = omega arith;
        handshake = refl;
        calm = left-Resumable.calm;
        saved = b.left.saved;
        there = b.left.partial.there;
        holds = b.left.partial.holds;
        valid = b.state_of.valid;
        id = b.state_of.id;
        chunks = b.state_of.chunks;
      })).1

abbrev found : Found
found = left-Resumable.begun

abbrev is : List ℕ
is = asked found

reads_the_server :
    CanSend
      (client_of server 2 false)
      file
      source_path
      (handle_session server (next found)).1.conn.outgoing
      (sender is)
reads_the_server =
    reading (CanSend (client_of server 2 false) file source_path) (sender is) _ _
      (sym (served found)) (can_send is)

reads_the_client :
    IsWhole
      (send_file (client_of server 2 false) source_path path (sender is)).1.conn.outgoing
      (next found).conn
reads_the_client = record {
  incoming =
      sym
        (send_file-succeeds (client_of server 2 false) file path source_path is (sender is)
          transferable first_bytes-IsStreaming (asked-AreChunks found) (can_send is)).1;
  outgoing = refl;
  writes = omega arith;
  handshake = refl;
}

cut_off_delivers_example :
    ((send_file (client_of server 2 false) source_path path (sender is)).0 ≡ true)
    × ((handle_session server (next found)).0 ≡ true)
    × ((handle_session server (next found)).1.files.contents dest ≡ some file)
cut_off_delivers_example =
    cut_off_delivers server 2 false file path source_path dest (cut ∷ lost ∷ []) no_files
      (sender is) (next found) transferable first_bytes-IsStreaming binding resolved refl refl
      (cut-IsAttempt, (lost-IsAttempt, tt)) refl reads_the_server reads_the_client
