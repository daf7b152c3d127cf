-- ===== src/Runs/Resumed.antt =====
-- A run of the rest of a transfer: the file of five bytes, in chunks of two, of which the chunk 1 has
-- arrived before.
use ati_tcp_file_transfer.Base.{
  ℕ, ◌≡◌, refl, sym, ◌∙◌, ◌/◌, arith, false, true, some, none, List, [], ◌∷◌, bytes_eq,
  if◌then◌else◌,
}
use ati_tcp_file_transfer.Proto.Messages.{encode_manifest}
use ati_tcp_file_transfer.Io.Files.{overwrite}
use ati_tcp_file_transfer.Io.Files.Overwrite.{get_or-overwrite}
use ati_tcp_file_transfer.Io.FileSink.{with_partial_suffix}
use ati_tcp_file_transfer.Io.Paths.{
  starts_with, lexically_normal, is_empty, is_absolute, join, normal_names, names_of, append,
  ends_with_slash, is_directory_form,
}
use ati_tcp_file_transfer.Io.ResumeState.{
  ResumeState, resume_state, mark_received, is_set, missing, serialize,
}
use ati_tcp_file_transfer.Io.ResumeState.Laws.{
  IsValid, resume_state-IsValid, mark_received-IsValid, is_set-resume_state,
}
use ati_tcp_file_transfer.Transport.Session.{Session}
use ati_tcp_file_transfer.Transport.Client.{chunk_count}
use ati_tcp_file_transfer.Transport.Server.Dest.{resolve_dest, is_path_safe}
use ati_tcp_file_transfer.Transport.Server.Start.{state_path, manifest_id}
use ati_tcp_file_transfer.Transport.Server.Finish.{handle_session}
use ati_tcp_file_transfer.Transport.Transfer.{file_manifest, client_wire, server_wire}
use ati_tcp_file_transfer.Transport.Transfer.Fits.{blake3-IsHash}
use ati_tcp_file_transfer.Transport.Transfer.Resume.{Holds, Holds-stored}
use ati_tcp_file_transfer.Transport.Transfer.Resume.Whole.{CanResume, handle_session-resumes}
use ati_tcp_file_transfer.Runs.Hashing.{first_bytes, first_bytes-IsStreaming}
use ati_tcp_file_transfer.Runs.Exchange.{connection}
use ati_tcp_file_transfer.Runs.Transfer.{
  file, path, source_path, dest, server, transferable, sender, can_send, reading,
}
use ati_tcp_file_transfer.Transport.Client.Send.{send_file}
use ati_tcp_file_transfer.Transport.Transfer.{AreChunks}
use ati_tcp_file_transfer.Transport.Transfer.Serves.{CanSend, client_of, send_file-succeeds}
use ati_tcp_file_transfer.Transport.Transfer.Resume.Delivery.{transfer_resumes}

abbrev id : List ℕ
id = manifest_id server (file_manifest first_bytes 2 file path)

abbrev begun : ResumeState
begun = resume_state id 3

abbrev state : ResumeState
state = mark_received begun 1

abbrev zeros : List ℕ
zeros = 0 ∷ 0 ∷ 0 ∷ 0 ∷ 0 ∷ []

abbrev partial : List ℕ
partial = overwrite zeros 2 (3 ∷ 4 ∷ [])

begun-IsValid : IsValid begun
unfolding manifest_id
begun-IsValid =
    resume_state-IsValid id 3
      (blake3-IsHash first_bytes first_bytes-IsStreaming
        (encode_manifest (file_manifest first_bytes 2 file path)))
      (omega arith)

partial-Holds : Holds 2 file state partial
unfolding resume_state
partial-Holds =
    Holds-stored 2 file zeros partial begun 1 (omega arith) begun-IsValid (omega arith)
      (unfold overwrite in refl) (λ j. get_or-overwrite zeros 2 (3 ∷ 4 ∷ []) j (omega arith))
      (record {
        size = refl;
        agrees = λ j below set_now.
            absurd (ground (arith, sym (is_set-resume_state id 3 (j / 2)) ∙ set_now));
      })

abbrev receiver : Session
receiver = record {
  conn = record (connection (client_wire first_bytes 2 file path (missing state))) {
    writes_left = 3;
  };
  files = record {
    contents = λ p.
        if bytes_eq p (state_path dest)
        then some (serialize state)
        else if bytes_eq p (with_partial_suffix dest)
        then some partial
        else none;
    outcomes = [];
  };
}

can_resume :
    CanResume server 2 file path dest partial state
      (client_wire first_bytes 2 file path (missing state))
      receiver
unfolding resolve_dest is_path_safe starts_with lexically_normal is_empty is_absolute join
    normal_names names_of bytes_eq append ends_with_slash is_directory_form state_path
    with_partial_suffix chunk_count mark_received resume_state
can_resume = record {
  resolved = refl;
  incoming = refl;
  outgoing = refl;
  writes = omega arith;
  handshake = refl;
  calm = refl;
  saved = refl;
  there = refl;
  holds = partial-Holds;
  valid = mark_received-IsValid begun 1 begun-IsValid;
  id = refl;
  chunks = refl;
}

handle_session-resumes_example :
    ((handle_session server receiver).0 ≡ true)
    × ((handle_session server receiver).1.conn.outgoing
        ≡ server_wire (missing state) (chunk_count 5 2))
    × ((handle_session server receiver).1.files.contents dest ≡ some file)
handle_session-resumes_example =
    handle_session-resumes server 2 file path dest partial state receiver transferable
      first_bytes-IsStreaming can_resume

reads_the_server :
    CanSend
      (client_of server 2 false)
      file
      source_path
      (handle_session server receiver).1.conn.outgoing
      (sender (missing state))
reads_the_server =
    let served =
      handle_session-resumes server 2 file path dest partial state receiver transferable
        first_bytes-IsStreaming can_resume in
    reading (CanSend (client_of server 2 false) file source_path) (sender (missing state)) _ _
      (sym served.1) (can_send (missing state))

missing-AreChunks : AreChunks (chunk_count 5 2) (missing state)
unfolding chunk_count missing mark_received resume_state is_set
missing-AreChunks = record { few = omega arith; below = (omega arith, (omega arith, tt)) }

reads_the_client :
    CanResume server 2 file path dest partial state
      (send_file
        (client_of server 2 false)
        source_path
        path
        (sender (missing state))).1.conn.outgoing
      receiver
reads_the_client =
    let sent =
      send_file-succeeds (client_of server 2 false) file path source_path (missing state)
        (sender (missing state)) transferable first_bytes-IsStreaming missing-AreChunks
        (can_send (missing state)) in
    reading (CanResume server 2 file path dest partial state) receiver _ _ (sym sent.1) can_resume

transfer_resumes_example :
    ((send_file (client_of server 2 false) source_path path (sender (missing state))).0 ≡ true)
    × ((handle_session server receiver).0 ≡ true)
    × ((handle_session server receiver).1.files.contents dest ≡ some file)
transfer_resumes_example =
    transfer_resumes server 2 false file path source_path dest partial state
      (sender (missing state)) receiver transferable first_bytes-IsStreaming reads_the_server
      reads_the_client

-- The chunks 0 and 2 are asked for.
missing_ends : missing state ≡ 0 ∷ 2 ∷ []
unfolding missing mark_received resume_state is_set
missing_ends = refl
