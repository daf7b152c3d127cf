-- ===== src/Transport/Server/Keeps.antt =====
-- Which files a session changes: with `p` a path, what the parts of a session keep of it.
pub mod Body
pub mod Whole
use ati_tcp_file_transfer.Base.{
  ℕ, ◌+◌, ◌*◌, ◌==◌, ◌≡◌, ◌≢◌, refl, ◌∙◌, arith, if◌then◌else◌, not, Bool, true,
}
use ati_tcp_file_transfer.Base.{
  Option-cases, inl, inr, ◌&&◌, Option, none, some, List, [], ◌∷◌, ◌++◌,
}
use ati_tcp_file_transfer.Proto.Types.{FrameType, type_eq, k_protocol_version}
use ati_tcp_file_transfer.Proto.ErrorCode
use ati_tcp_file_transfer.Proto.Messages.{ManifestMsg, decode_hello, decode_manifest}
use ati_tcp_file_transfer.Io.Files.{FilePath, open_existing}
use ati_tcp_file_transfer.Io.Files
use ati_tcp_file_transfer.Io.Files.Laws.{remove-contents}
use ati_tcp_file_transfer.Io.ResumeState.Save.Laws.{load-contents}
use ati_tcp_file_transfer.Io.FileSink.{FileSink, file_sink, partial_path, open_sink}
use ati_tcp_file_transfer.Io.FileSink
use ati_tcp_file_transfer.Io.FileSink.Others.{open_sink-others, open_sink-final_path}
use ati_tcp_file_transfer.Io.ResumeState.{ResumeState}
use ati_tcp_file_transfer.Io.ResumeState.Save.{load, remove}
use ati_tcp_file_transfer.Transport.Connection.{Connection}
use ati_tcp_file_transfer.Transport.Session.{
  Session, pure, stop, or_stop, ◌>>=◌, ◌>>◌, on_connection, on_files,
}
use ati_tcp_file_transfer.Transport.Session.Rules.{
  Keeps, Keeps-pure, Keeps-stop, Keeps-or_stop, Keeps-if, Keeps-on_files, Keeps-bind,
}
use ati_tcp_file_transfer.Transport.Server.Dest.{resolve_dest}
use ati_tcp_file_transfer.Transport.Server.Text.{Text}
use ati_tcp_file_transfer.Transport.Server.Calls.{
  Server, Failure, recv_any, recv_expected, send, send_error, reject,
}
use ati_tcp_file_transfer.Transport.Server.Start.{
  handshake, exchange_hello, receive_manifest, dest_or_reject, choose_dest, state_path, matching,
  load_state, open_dest, request_chunks,
}

abbrev pub Any : {A : Type 0} → A → Type 0
Any a = Unit {0}

-- A sink whose files are those of the destination.
abbrev pub SinkOf : FilePath → FileSink → Type 0
SinkOf dest sink = sink.final_path ≡ dest

module _ (p : FilePath) (o : Option (List ℕ)) where
  abbrev pub K : Session → Type 0
  K s = s.files.contents p ≡ o

  pub on_connection-Keeps :
      {A : Type 0} (f : Connection → Connection × A) → Keeps {E = Failure} K (on_connection f) Any
  on_connection-Keeps f = record { at = λ s h. (tt, h) }

  pub recv_any-Keeps : Keeps K recv_any Any
  unfolding recv_any
  recv_any-Keeps =
      Keeps-bind K Any Any _ _ (on_connection-Keeps _)
        λ frame _. Keeps-or_stop K Any frame Failure.recv_failed (λ _ _. tt)

  pub recv_expected-Keeps : (t : FrameType) → Keeps K (recv_expected t) Any
  unfolding recv_expected
  recv_expected-Keeps t = Keeps-bind K Any Any _ _ recv_any-Keeps λ frame _.
      Keeps-if K Any (not (type_eq frame.header.type t)) _ _ (λ _. Keeps-stop K Any _)
        (λ _. Keeps-pure K Any _ tt)

  pub send-Keeps : (t : FrameType) (payload : List ℕ) → Keeps K (send t payload) Any
  unfolding send
  send-Keeps t payload =
      Keeps-bind K Any Any _ _ (on_connection-Keeps _) λ sent _.
        Keeps-if K Any (not sent) _ _ (λ _. Keeps-stop K Any _) (λ _. Keeps-pure K Any _ tt)

  pub reject-Keeps :
      {A : Type 0} (G : A → Type 0) (v : Server) (code : ℕ) (text : Text)
      → Keeps K (reject {A = A} v code text) G
  unfolding reject send_error
  reject-Keeps G v code text =
      Keeps-bind K Any G _ _
        (Keeps-bind K Any Any _ _ (on_connection-Keeps _) λ _ _. Keeps-pure K Any tt tt)
        λ _ _. Keeps-stop K G _

  pub handshake-Keeps : (v : Server) → Keeps K (handshake v) Any
  unfolding handshake
  handshake-Keeps v =
      Keeps-if K Any (not v.has_tls) _ _ (λ _. Keeps-pure K Any tt tt)
        λ _. Keeps-bind K Any Any _ _ (on_connection-Keeps _) λ shaken _.
          Keeps-if K Any (not shaken) _ _ (λ _. Keeps-stop K Any _) (λ _. Keeps-pure K Any tt tt)

  pub exchange_hello-Keeps : (v : Server) → Keeps K (exchange_hello v) Any
  unfolding exchange_hello
  exchange_hello-Keeps v = Keeps-bind K Any Any _ _ (recv_expected-Keeps _) λ frame _.
      elim (Option-cases (decode_hello frame.payload)) [
        | inl bad ↦ rw bad (reject-Keeps Any v _ _)
        | inr (hello, good) ↦ rw good (
            Keeps-if K Any (not (hello.protocol_version == k_protocol_version)) _ _
              (λ _. reject-Keeps Any v _ _) (λ _. send-Keeps _ _))
      ]

  pub receive_manifest-Keeps : (v : Server) → Keeps K (receive_manifest v) Any
  unfolding receive_manifest
  receive_manifest-Keeps v = Keeps-bind K Any Any _ _ (recv_expected-Keeps _) λ frame _.
      elim (Option-cases (decode_manifest frame.payload)) [
        | inl bad ↦ rw bad (reject-Keeps Any v _ _)
        | inr (manifest, good) ↦ rw good (Keeps-pure K Any manifest tt)
      ]

  pub dest_or_reject-Keeps :
      (v : Server) (m : ManifestMsg) (d : Option FilePath)
      → resolve_dest v.root m.path ≡ d
      → Keeps K (dest_or_reject v m d) (λ dest. resolve_dest v.root m.path ≡ some dest)
  unfolding dest_or_reject
  dest_or_reject-Keeps v m none e = reject-Keeps _ v _ _
  dest_or_reject-Keeps v m (some dest) e = Keeps-pure K _ dest e

  pub choose_dest-Keeps :
      (v : Server) (m : ManifestMsg)
      → Keeps K (choose_dest v m) (λ dest. resolve_dest v.root m.path ≡ some dest)
  unfolding choose_dest
  choose_dest-Keeps v m = dest_or_reject-Keeps v m (resolve_dest v.root m.path) refl

  pub load_state-Keeps :
      (v : Server) (m : ManifestMsg) (dest : FilePath)
      → p ≢ state_path dest
      → Keeps K (load_state v m dest) Any
  unfolding load_state remove
  load_state-Keeps v m dest other =
      Keeps-bind K Any Any _ _
        (Keeps-on_files K Any _
          (λ s h. (tt, (λ i. load-contents s.files (state_path dest) i p) ∙ h)))
        λ loaded _. elim (Option-cases (matching v m loaded)) [
          | inr (state, same) ↦ rw same (Keeps-pure K Any (state, true) tt)
          | inl differs ↦ rw differs (
              Keeps-bind K Any Any _ _
                (Keeps-on_files K Any _
                  (λ s h. (tt, remove-contents s.files (state_path dest) p other ∙ h)))
                (λ _ _. Keeps-pure K Any _ tt))
        ]

  pub request_chunks-Keeps : (state : ResumeState) → Keeps K (request_chunks state) Any
  unfolding request_chunks
  request_chunks-Keeps state = send-Keeps _ _

  pub open_dest-Keeps :
      (v : Server) (m : ManifestMsg) (dest : FilePath) (resume_active : Bool)
      → p ≢ partial_path (file_sink dest)
      → Keeps K (open_dest v m dest resume_active) (SinkOf dest)
  unfolding open_dest
  open_dest-Keeps v m dest resume_active other =
      Keeps-bind K (λ r. SinkOf dest r.1) (SinkOf dest) _ _
        (Keeps-on_files K (λ r. SinkOf dest r.1) _
          (λ s h. (
            open_sink-final_path (file_sink dest) s.files m.file_size resume_active,
            open_sink-others (file_sink dest) s.files m.file_size resume_active p other ∙ h,
          )))
        λ (opened, sink) good.
          Keeps-if K (SinkOf dest) (not opened) _ _ (λ _. reject-Keeps (SinkOf dest) v _ _)
            (λ _. Keeps-pure K (SinkOf dest) sink good)
