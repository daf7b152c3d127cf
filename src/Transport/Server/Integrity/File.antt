-- ===== src/Transport/Server/Integrity/File.antt =====
-- The start of a session and the whole of it, on the manifest of a file.
use ati_tcp_file_transfer.Base.{ℕ, ◌*◌, ◌≡◌, refl, sym, ap, ◌∙◌, arith, not, Bool, true, false}
use ati_tcp_file_transfer.Base.{
  inl, inr, bytes_eq, bytes_eq→eq, some, List, length, length-replicate, replicate,
}
use ati_tcp_file_transfer.Util.Blake3.{IsStreaming}
use ati_tcp_file_transfer.Proto.Cursor.{Hash}
use ati_tcp_file_transfer.Proto.Messages.{ManifestMsg}
use ati_tcp_file_transfer.Io.Files.{FilePath, Files}
use ati_tcp_file_transfer.Io.Files.Calm.{IsCalm, remove-IsCalm}
use ati_tcp_file_transfer.Io.FileSink.{FileSink, file_sink, with_partial_suffix, open_sink}
use ati_tcp_file_transfer.Io.FileSink.Laws.{open_sink_sound}
use ati_tcp_file_transfer.Io.FileSink.Others.{open_sink-final_path}
use ati_tcp_file_transfer.Io.FileSink.Calm.{open_sink-IsCalm, open_sink-total_size, load-IsCalm}
use ati_tcp_file_transfer.Io.ResumeState.Save.{remove}
use ati_tcp_file_transfer.Transport.Session.{Session, Result, ok, err}
use ati_tcp_file_transfer.Transport.Session.Rules.{
  Ends, Runs, Runs-pure, Runs-if, Runs-on_files, Runs-bind,
}
use ati_tcp_file_transfer.Transport.Server.Calls.{Server, Failure}
use ati_tcp_file_transfer.Transport.Server.Start.{
  state_path, matching, load_state, open_dest, request_chunks,
}
use ati_tcp_file_transfer.Transport.Server.Receive.{start_progress}
use ati_tcp_file_transfer.Transport.Server.Finish.{check_root_hash, receive_partial, receive_file}
use ati_tcp_file_transfer.Transport.Server.Keeps.{SinkOf}
use ati_tcp_file_transfer.Transport.Server.Safety.{send_keeps_files, finish-Runs}
use ati_tcp_file_transfer.Transport.Server.ReadBack.{Never}
use ati_tcp_file_transfer.Transport.Server.Honest.{IsManifestOf, IsBinding}
use ati_tcp_file_transfer.Transport.Server.Store.{rejects, not-false, Filled, Inv}
use ati_tcp_file_transfer.Transport.Server.Integrity.{
  Checked, receive_chunks-Runs, check_inventory-Runs,
}
use ati_tcp_file_transfer.Base.{Option-cases}
use ati_tcp_file_transfer.Io.FileSink.Laws.{open_fresh_sound}
use ati_tcp_file_transfer.Transport.Server.Integrity.RootHash.{Hashed, root_hash-Runs}

abbrev Calm : Session → Type 0
Calm s = IsCalm s.files

-- The partial file of a session behind its checks.
abbrev IsReceived : FilePath → List ℕ → FileSink → Session → Type 0
IsReceived dest c sink s = SinkOf dest sink × (s.files.contents (with_partial_suffix dest) ≡ some c)

load_state-Runs :
    (v : Server) (m : ManifestMsg) (dest : FilePath)
    → Runs Calm (load_state v m dest) (λ _. Calm) Never
unfolding load_state remove
load_state-Runs v m dest =
    Runs-bind Calm (λ _. Calm) Never (λ _. Calm) _ _
      (Runs-on_files Calm (λ _. Calm) Never _
        (λ s calm. load-IsCalm s.files (state_path dest) calm))
      λ loaded. elim (Option-cases (matching v m loaded)) [
        | inr (state, same) ↦ rw same (Runs-pure Calm (λ _. Calm) Never (state, true) (λ s h. h))
        | inl differs ↦ rw differs (
            Runs-bind Calm (λ _. Calm) Never (λ _. Calm) _ _
              (Runs-on_files Calm (λ _. Calm) Never _
                (λ s calm. remove-IsCalm s.files (state_path dest) calm))
              (λ _. Runs-pure Calm (λ _. Calm) Never _ (λ s h. h)))
      ]

module _ (v : Server) (c : List ℕ) (m : ManifestMsg) (dest : FilePath)
    (honest : IsManifestOf v.hash c m) where
  pub opened_fresh :
      (fs : Files)
      → IsCalm fs
      → (open_sink (file_sink dest) fs m.file_size false).0 ≡ true
      → Filled c m false dest
          (open_sink (file_sink dest) fs m.file_size false).1
          true
          0
          0
          (open_sink (file_sink dest) fs m.file_size false).2
  unfolding open_sink
  opened_fresh fs calm opened =
      let sink : FileSink = record (file_sink dest) { total_size = m.file_size } in
      let (there, same, others) = open_fresh_sound sink fs opened in
      let size : length (replicate {A = ℕ} m.file_size 0) ≡ length c =
        length-replicate m.file_size 0 ∙ honest.size in
      let none_yet : 0 * m.chunk_size ≡ 0 = omega arith in
      record {
        sink_of = open_sink-final_path (file_sink dest) fs m.file_size false;
        total = open_sink-total_size (file_sink dest) fs m.file_size false ∙ honest.size;
        calm = open_sink-IsCalm (file_sink dest) fs m.file_size false calm;
        content = replicate m.file_size 0;
        there = there;
        room = omega (arith, size);
        ordered = λ _. record {
          fresh = refl;
          agrees = record { size = size; prefix = rw none_yet refl };
          bound = omega arith;
          counted = refl;
        };
      }

  opened_again :
      (fs : Files)
      → IsCalm fs
      → (open_sink (file_sink dest) fs m.file_size true).0 ≡ true
      → Filled c m true dest
          (open_sink (file_sink dest) fs m.file_size true).1
          false
          0
          0
          (open_sink (file_sink dest) fs m.file_size true).2
  opened_again fs calm opened =
      let o = open_sink_sound (file_sink dest) fs m.file_size true opened in
      record {
        sink_of = open_sink-final_path (file_sink dest) fs m.file_size true;
        total = open_sink-total_size (file_sink dest) fs m.file_size true ∙ honest.size;
        calm = open_sink-IsCalm (file_sink dest) fs m.file_size true calm;
        content = o.content;
        there = o.there;
        room = omega (arith, o.room, honest.size);
        ordered = λ e. absurd (ground arith);
      }

  opened_Filled :
      (resume : Bool) (fs : Files)
      → IsCalm fs
      → (open_sink (file_sink dest) fs m.file_size resume).0 ≡ true
      → Filled c m resume dest
          (open_sink (file_sink dest) fs m.file_size resume).1
          (not resume)
          0
          0
          (open_sink (file_sink dest) fs m.file_size resume).2
  opened_Filled true = opened_again
  opened_Filled false = opened_fresh

  open_dest-Runs :
      (resume : Bool)
      → Runs Calm
          (open_dest v m dest resume)
          (λ sink s. Filled c m resume dest sink (not resume) 0 0 s.files)
          Never
  unfolding open_dest
  open_dest-Runs resume =
      let Q : FileSink → Session → Type 0 =
        λ sink s. Filled c m resume dest sink (not resume) 0 0 s.files in
      Runs-bind Calm Q Never (λ (r : Bool × FileSink) s. r.0 ≡ true → Q r.1 s) _ _
        (Runs-on_files Calm (λ (r : Bool × FileSink) s. r.0 ≡ true → Q r.1 s) Never _
          (λ s calm opened. opened_Filled resume s.files calm opened))
        λ (opened, sink).
          Runs-if _ Q Never (not opened) _ _ (λ _. rejects _ Q v _ _)
            (λ good. Runs-pure _ Q Never sink (λ s h. h (not-false opened good)))

  check_root_hash-Runs :
      (binding : IsBinding v.hash c m) (r : Hash × FileSink) (client_final : Hash)
      → Runs
          (Hashed v.hash c dest r)
          (check_root_hash v m r.0 client_final)
          (λ _. IsReceived dest c r.1)
          Never
  unfolding check_root_hash
  check_root_hash-Runs binding r client_final =
      let P = Hashed v.hash c dest r in
      let Q : Unit {0} → Session → Type 0 = λ _. IsReceived dest c r.1 in
      Runs-if P Q Never (not (bytes_eq r.0 m.root_hash)) _ _ (λ _. rejects P Q v _ _)
        λ same.
          Runs-if P Q Never (not (bytes_eq r.0 client_final)) _ _ (λ _. rejects P Q v _ _)
            λ _. Runs-pure P Q Never tt λ s k.
              let root : r.0 ≡ m.root_hash = bytes_eq→eq r.0 m.root_hash (not-false _ same) in
              let whole : k.content ≡ c = elim k.origin [
                | inl e ↦ e
                | inr e ↦ binding.file k.content (sym e ∙ root ∙ honest.root)
              ] in
              (k.sink_of, k.there ∙ ap some whole)

  receive_partial-Runs :
      IsStreaming v.hash
      → IsBinding v.hash c m
      → Runs Calm (receive_partial v m dest) (IsReceived dest c) Never
  unfolding receive_partial request_chunks
  receive_partial-Runs streaming binding =
      let Q = IsReceived dest c in
      Runs-bind Calm Q Never (λ _. Calm) _ _ (load_state-Runs v m dest)
        λ (state, resume).
          Runs-bind Calm Q Never (λ sink s. Filled c m resume dest sink (not resume) 0 0 s.files) _
            _ (open_dest-Runs resume)
            λ sink.
              Runs-bind _ Q Never (λ _ s. Filled c m resume dest sink (not resume) 0 0 s.files) _ _
                (send_keeps_files (Filled c m resume dest sink (not resume) 0 0) (λ _. Unit {0})
                  (λ s h. tt) _ _)
                λ _.
                  Runs-bind _ Q Never (λ r. Inv c m resume dest r.0) _ _
                    (receive_chunks-Runs v c m dest honest binding resume
                      (start_progress v.hash state sink resume))
                    λ (q, client_final).
                      Runs-bind _ Q Never
                        (λ _ s.
                          Checked v c m dest honest binding resume q.sink q.all_in_order s.files)
                        _ _ (check_inventory-Runs v c m dest honest binding resume q)
                        λ _.
                          Runs-bind _ Q Never (Hashed v.hash c dest) _ _
                            (root_hash-Runs v c dest streaming resume m honest binding q)
                            λ r.
                              Runs-bind _ Q Never (λ _. IsReceived dest c r.1) _ _
                                (check_root_hash-Runs binding r client_final)
                                (λ _. Runs-pure _ Q Never r.1 (λ s h. h))

receive_file-Runs :
    (v : Server) (c : List ℕ) (m : ManifestMsg) (dest : FilePath)
    → IsManifestOf v.hash c m
    → IsBinding v.hash c m
    → IsStreaming v.hash
    → Runs Calm (receive_file v m dest) (λ _ s. s.files.contents dest ≡ some c) Never
unfolding receive_file
receive_file-Runs v c m dest honest binding streaming =
    Runs-bind Calm (λ _ s. s.files.contents dest ≡ some c) Never (IsReceived dest c) _ _
      (receive_partial-Runs v c m dest honest streaming binding)
      λ sink. record {
        at = λ s (good, there).
            forget (λ _ s'. s'.files.contents dest ≡ some c) _ _ _
              ((finish-Runs v dest (s.files.contents dest) (some c) m sink good).at s
                (refl, there));
      }
  where
    forget :
        {A : Type 0} (Q : A → Session → Type 0) (R : Failure → Session → Type 0)
        (r : Result Failure A) (s : Session)
        → Ends Q R r s
        → Ends Q Never r s
    forget Q R (ok a) s h = h
    forget Q R (err e) s h = tt

if_ok :
    (P : Session → Type 0) (r : Result Failure (Unit {0})) (s : Session)
    → Ends (λ _. P) Never r s
    → r ≡ ok tt
    → P s
if_ok P (ok a) s h e = h
if_ok P (err f) s h e = absurd (ground arith)

-- Where the manifest is that of a file, no other bytes have the hash of the file or of one of its
-- chunks, the library hashes a stream as it hashes the whole, and no call on the files fails, a
-- session that succeeds has put exactly that file at the destination: in whatever order the chunks
-- came, from a fresh start or from any state and partial file that were there before.
pub receive_file_integrity :
    (v : Server) (m : ManifestMsg) (dest : FilePath) (s : Session) (c : List ℕ)
    → IsManifestOf v.hash c m
    → IsBinding v.hash c m
    → IsStreaming v.hash
    → IsCalm s.files
    → (receive_file v m dest s).0 ≡ ok tt
    → (receive_file v m dest s).1.files.contents dest ≡ some c
receive_file_integrity v m dest s c honest binding streaming calm succeeded =
    if_ok (λ s'. s'.files.contents dest ≡ some c) _ _
      ((receive_file-Runs v c m dest honest binding streaming).at s calm) succeeded
