-- ===== src/Runs/Server.antt =====
-- Runs of a session of the server: the file "a" of five bytes in chunks of two, below "r".

use ati_tcp_file_transfer.Util.Byteorder.{write_be_u32, read_be_u32}
use ati_tcp_file_transfer.Util.Crc32c.{k_table, crc32c}
use ati_tcp_file_transfer.Util.Blake3.{update}
use ati_tcp_file_transfer.Proto.Types.{is_known_frame_type, cast_frame_type, type_eq}
use ati_tcp_file_transfer.Proto.Frame.{decode_from}
use ati_tcp_file_transfer.Proto.Cursor.{take_u8, take_u32, take_hash, at_end}
use ati_tcp_file_transfer.Proto.Messages.{
  encode_req_chunks, decode_chunk, decode_complete, encode_ack,
}
use ati_tcp_file_transfer.Io.Files.{
  open_existing, open_truncated, write, rename, replace, flush_buffer, read_from_start,
}
use ati_tcp_file_transfer.Io.FileSink.{open_sink, write_at}
use ati_tcp_file_transfer.Io.ResumeState.{is_set, missing}
use ati_tcp_file_transfer.Io.ResumeState.Save.{tmp_path, save, load}
use ati_tcp_file_transfer.Transport.Connection.{send_frame, recv_frame}
use ati_tcp_file_transfer.Transport.Session.{◌>>=◌}
use ati_tcp_file_transfer.Transport.Server.Calls.{recv_expected, send}
use ati_tcp_file_transfer.Transport.Server.Start.{load_state, open_dest, request_chunks}
use ati_tcp_file_transfer.Transport.Server.Receive.{
  take_in_order, store_chunk, on_chunk, on_complete, on_chunk_frame, on_frame, next_round,
  receive_loop,
}
use ati_tcp_file_transfer.Transport.Server.Finish.{
  check_inventory, root_hash, check_root_hash, commit, acknowledge,
}
use ati_tcp_file_transfer.Base.{
  bytes_eq, ℕ, ◌%◌, ◌≡◌, ◌≢◌, ◌⊎◌, refl, false, none, List, [], ◌∷◌, ◌++◌, length,
}
use ati_tcp_file_transfer.Util.Byteorder.{u32_mod}
use ati_tcp_file_transfer.Proto.Types.{FrameType}
use ati_tcp_file_transfer.Proto.Frame.{encode_to}
use ati_tcp_file_transfer.Proto.Messages.{
  ManifestMsg, default_hello, encode_hello, encode_manifest, encode_chunk, encode_complete,
}
use ati_tcp_file_transfer.Io.Files.{FilePath, Files}
use ati_tcp_file_transfer.Io.FileSink.{with_partial_suffix, file_sink}
use ati_tcp_file_transfer.Io.ResumeState.{resume_state}
use ati_tcp_file_transfer.Io.Paths.{
  starts_with, lexically_normal, is_empty, is_absolute, join, normal_names, names_of,
}
use ati_tcp_file_transfer.Transport.Session.{Session, err}
use ati_tcp_file_transfer.Transport.Session.Rules.{Ends}
use ati_tcp_file_transfer.Transport.Server.Calls.{Server, out_of_rounds}
use ati_tcp_file_transfer.Transport.Server.Start.{state_path, manifest_id}
use ati_tcp_file_transfer.Transport.Server.Receive.{Progress, start_progress, receive_chunks}
use ati_tcp_file_transfer.Transport.Server.Finish.{receive_partial, receive_file, handle_session}
use ati_tcp_file_transfer.Transport.Server.Safety.{receive_file-dest}
use ati_tcp_file_transfer.Transport.Server.Jail.{handle_session_stays_below_root}
use ati_tcp_file_transfer.Transport.Server.Rounds.{receive_chunks_ends}
use ati_tcp_file_transfer.Base.{zero, suc, ◌<◌, ◌*◌, get_or, drop, length-take}
use ati_tcp_file_transfer.Util.Blake3.{blake3, update_unless_empty}
use ati_tcp_file_transfer.Base.{arith, some}
use ati_tcp_file_transfer.Transport.Session.{ok}
use ati_tcp_file_transfer.Transport.Server.Honest.{slice, IsManifestOf, IsBinding}
use ati_tcp_file_transfer.Transport.Server.Integrity.File.{receive_file_integrity}
use ati_tcp_file_transfer.Runs.Hashing.{first_bytes, first_bytes-IsStreaming, first_bytes-injective}
use ati_tcp_file_transfer.Runs.Exchange.{connection}

abbrev server : Server
server = record { root = b'r' ∷ []; has_tls = false; hash = first_bytes; sink_text = λ e. [] }

abbrev hash : List ℕ → List ℕ
hash bytes = first_bytes.finalize bytes

abbrev manifest : ManifestMsg
manifest = record {
  file_size = 5;
  chunk_size = 2;
  chunk_count = 3;
  root_hash = hash (1 ∷ 2 ∷ 3 ∷ 4 ∷ 5 ∷ []);
  path = b'a' ∷ [];
  chunk_hashes = hash (1 ∷ 2 ∷ []) ∷ hash (3 ∷ 4 ∷ []) ∷ hash (5 ∷ []) ∷ [];
}

abbrev frame : FrameType → List ℕ → List ℕ
frame t payload = encode_to (record { payload_len = length payload % u32_mod; type = t }) ++ payload

abbrev chunk : ℕ → List ℕ → List ℕ
chunk i bytes =
    frame FrameType.chunk (encode_chunk (record { index = i; hash = hash bytes; bytes = bytes }))

abbrev chunks : List ℕ
chunks =
    chunk 0 (1 ∷ 2 ∷ [])
    ++ (chunk 1 (3 ∷ 4 ∷ [])
        ++ (chunk 2 (5 ∷ [])
            ++ frame FrameType.complete
                (encode_complete (record { final_root_hash = manifest.root_hash; status = 0 }))))

abbrev offer : List ℕ
offer =
    frame FrameType.hello (encode_hello default_hello)
    ++ frame FrameType.manifest (encode_manifest manifest)

abbrev no_files : Files
no_files = record { contents = λ p. none; outcomes = [] }

abbrev whole : Session
whole = record {
  conn = record (connection (offer ++ chunks)) { writes_left = 9 };
  files = no_files;
}

abbrev behind_manifest : Session
behind_manifest = record { conn = record (connection chunks) { writes_left = 9 }; files = no_files }

abbrev dest : FilePath
dest = b'r' ∷ b'/' ∷ b'a' ∷ []

outside : starts_with (lexically_normal server.root) (b'e' ∷ b't' ∷ b'c' ∷ []) ≡ false
unfolding starts_with lexically_normal is_empty is_absolute join normal_names names_of bytes_eq
outside = refl

handle_session_stays_below_root_example :
    (handle_session server whole).1.files.contents (b'e' ∷ b't' ∷ b'c' ∷ []) ≡ none
handle_session_stays_below_root_example =
    handle_session_stays_below_root server whole (b'e' ∷ b't' ∷ b'c' ∷ []) outside

receive_file-dest_example :
    let checked =
      (receive_partial server manifest dest behind_manifest).1.files.contents
        (with_partial_suffix dest) in
    Ends
      (λ _ s'. s'.files.contents dest ≡ checked)
      (λ _ s'.
        (s'.files.contents dest ≡ none)
        ⊎ ((s'.files.contents dest ≡ none) ⊎ (s'.files.contents dest ≡ checked)))
      (receive_file server manifest dest behind_manifest).0
      (receive_file server manifest dest behind_manifest).1
receive_file-dest_example = receive_file-dest server manifest dest behind_manifest

abbrev started : Progress (List ℕ)
started =
    start_progress first_bytes (resume_state (manifest_id server manifest) 3) (file_sink dest) false

receive_chunks_ends_example :
    (receive_chunks server manifest (state_path dest) started behind_manifest).0 ≢ err out_of_rounds
receive_chunks_ends_example =
    receive_chunks_ends server manifest (state_path dest) started behind_manifest

abbrev file : List ℕ
file = 1 ∷ 2 ∷ 3 ∷ 4 ∷ 5 ∷ []

honest : IsManifestOf first_bytes file manifest
unfolding blake3 update_unless_empty
honest = record {
  size = refl;
  covered = omega arith;
  count = omega arith;
  fits = omega arith;
  hashes = declared;
  root = refl;
}
  where
    declared :
        (i : ℕ) → i < 3 → get_or manifest.chunk_hashes i [] ≡ blake3 first_bytes (slice 2 file i)
    declared zero h = refl
    declared (suc zero) h = refl
    declared (suc (suc zero)) h = refl
    declared (suc (suc (suc i))) h = absurd (omega (arith, h))

binding : IsBinding first_bytes file manifest
binding = record {
  chunk = λ i x _ e.
      first_bytes-injective x (slice 2 file i) (omega (arith, length-take 2 (drop (i * 2) file))) e;
  file = λ x e. first_bytes-injective x file (omega arith) e;
}

received : (receive_file server manifest dest behind_manifest).0 ≡ ok tt
unfolding flush_buffer bytes_eq write_be_u32 read_be_u32 k_table crc32c blake3 update
    ati_tcp_file_transfer.Util.Blake3.finalize is_known_frame_type cast_frame_type type_eq encode_to
    decode_from take_u8 take_u32 take_hash at_end encode_req_chunks encode_chunk decode_chunk
    encode_complete decode_complete encode_ack open_existing open_truncated write
    ati_tcp_file_transfer.Io.Files.flush rename ati_tcp_file_transfer.Io.Files.remove replace
    with_partial_suffix open_sink write_at ati_tcp_file_transfer.Io.FileSink.flush
    ati_tcp_file_transfer.Io.FileSink.finalize resume_state is_set missing tmp_path save load
    ati_tcp_file_transfer.Io.ResumeState.Save.remove send_frame recv_frame ◌>>=◌ recv_expected send
    state_path load_state open_dest request_chunks take_in_order store_chunk on_chunk on_complete
    on_chunk_frame on_frame next_round receive_loop receive_chunks check_inventory root_hash
    check_root_hash commit acknowledge receive_partial receive_file
received = refl

receive_file_integrity_example :
    (receive_file server manifest dest behind_manifest).1.files.contents dest ≡ some file
receive_file_integrity_example =
    receive_file_integrity server manifest dest behind_manifest file honest binding
      first_bytes-IsStreaming refl received

-- A client of another version.
abbrev odd : Session
odd = record whole {
  conn =
      record (connection
        (frame FrameType.hello (encode_hello (record default_hello { protocol_version = 9 })))) {
          writes_left = 9;
        };
}
