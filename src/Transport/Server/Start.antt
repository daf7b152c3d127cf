-- ===== src/Transport/Server/Start.antt =====
-- Server::handle_session_ up to REQ_CHUNKS: the handshake, HELLO, MANIFEST, the destination, the resume
-- state and the sink.
use ati_tcp_file_transfer.Base.{ℕ, ◌==◌, if◌then◌else◌, not, Bool, true, false, ◌&&◌, bytes_eq}
use ati_tcp_file_transfer.Base.{Option, none, some, List, [], ◌∷◌, ◌++◌}
use ati_tcp_file_transfer.Util.Blake3.{blake3}
use ati_tcp_file_transfer.Proto.Types.{FrameType, k_protocol_version}
use ati_tcp_file_transfer.Proto.ErrorCode
use ati_tcp_file_transfer.Proto.Messages.{
  default_hello, encode_hello, decode_hello, ManifestMsg, encode_manifest, decode_manifest,
  encode_req_chunks,
}
use ati_tcp_file_transfer.Io.Files.{FilePath, Files}
use ati_tcp_file_transfer.Io.FileSink.{FileSink, file_sink, open_sink}
use ati_tcp_file_transfer.Io.ResumeState.{ResumeState, resume_state, missing}
use ati_tcp_file_transfer.Io.ResumeState.Save.{load, remove}
use ati_tcp_file_transfer.Transport.Connection.{tls_handshake}
use ati_tcp_file_transfer.Transport.Session.{Exec, pure, stop, ◌>>=◌, ◌>>◌, on_connection, on_files}
use ati_tcp_file_transfer.Transport.Server.Dest.{resolve_dest}
use ati_tcp_file_transfer.Transport.Server.Text.{
  malformed_hello, requires_version, malformed_manifest, rejected_path, sink_error,
}
use ati_tcp_file_transfer.Transport.Server.Calls.{Server, Failure, recv_expected, send, reject}

-- `if (ssl_ctx_) {if (!conn.tls_server_handshake()) … return false; }`
unfoldable pub handshake : Server → Exec Failure (Unit {0})
handshake v = if not v.has_tls then pure tt else do
  shaken ← on_connection tls_handshake
  if not shaken then stop Failure.handshake_failed else pure tt

unfoldable pub exchange_hello : Server → Exec Failure (Unit {0})
exchange_hello v = do
  frame ← recv_expected FrameType.hello
  elim (decode_hello frame.payload) [
    | none ↦ reject v ErrorCode.protocol_violation malformed_hello
    | some client_hello ↦
        if not (client_hello.protocol_version == k_protocol_version)
        then reject v ErrorCode.unsupported_version requires_version
        else send FrameType.hello (encode_hello default_hello)
  ]

unfoldable pub receive_manifest : Server → Exec Failure ManifestMsg
receive_manifest v = do
  frame ← recv_expected FrameType.manifest
  elim (decode_manifest frame.payload) [
    | none ↦ reject v ErrorCode.protocol_violation malformed_manifest
    | some manifest ↦ pure manifest
  ]

unfoldable pub dest_or_reject : Server → ManifestMsg → Option FilePath → Exec Failure FilePath
dest_or_reject v manifest none = reject v ErrorCode.invalid_path (rejected_path manifest.path)
dest_or_reject v manifest (some dest) = pure dest

unfoldable pub choose_dest : Server → ManifestMsg → Exec Failure FilePath
choose_dest v manifest = dest_or_reject v manifest (resolve_dest v.root manifest.path)

abbrev pub state_suffix : List ℕ
state_suffix = b'.' ∷ b'f' ∷ b't' ∷ b'x' ∷ b's' ∷ b't' ∷ b'a' ∷ b't' ∷ b'e' ∷ []

unfoldable pub state_path : FilePath → FilePath
state_path dest = dest ++ state_suffix

-- The hash of the manifest's encoding.
unfoldable pub manifest_id : Server → ManifestMsg → List ℕ
manifest_id v manifest = blake3 v.hash (encode_manifest manifest)

-- The state that was loaded, if it is that of this manifest.
unfoldable pub matching : Server → ManifestMsg → Option ResumeState → Option ResumeState
matching v manifest none = none
matching v manifest (some loaded) =
    if bytes_eq loaded.manifest_id (manifest_id v manifest)
      && loaded.chunk_count == manifest.chunk_count
    then some loaded
    else none

-- The state of the transfer, and whether it goes on from one that was cut off.
unfoldable pub load_state : Server → ManifestMsg → FilePath → Exec Failure (ResumeState × Bool)
unfolding matching
load_state v manifest dest = do
  loaded ← on_files (λ fs. load fs (state_path dest))
  elim (matching v manifest loaded) [
    | some state ↦ pure (state, true)
    | none ↦ do
      on_files (λ fs. (tt, remove fs (state_path dest)))
      pure (resume_state (manifest_id v manifest) manifest.chunk_count, false)
  ]

-- A method of the sink, which gives its result and the sink.
abbrev pub on_sink : {A : Type 0} → (Files → A × FileSink × Files) → Exec Failure (A × FileSink)
on_sink f = on_files (λ fs. let (a, sink, fs') = f fs in ((a, sink), fs'))

unfoldable pub open_dest : Server → ManifestMsg → FilePath → Bool → Exec Failure FileSink
open_dest v manifest dest resume_active = do
  (opened, sink) ← on_sink (λ fs. open_sink (file_sink dest) fs manifest.file_size resume_active)
  if not opened then reject v ErrorCode.internal_error (sink_error sink.last_error) else pure sink

unfoldable pub request_chunks : ResumeState → Exec Failure (Unit {0})
request_chunks state =
    send FrameType.req_chunks (encode_req_chunks (record { indices = missing state }))
