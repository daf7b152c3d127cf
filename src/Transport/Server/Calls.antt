-- ===== src/Transport/Server/Calls.antt =====
-- The calls that src/lib/transport/server.cpp makes on its connection, and how a session of it ends
-- early. The log is not modelled.
use ati_tcp_file_transfer.Base.{ℕ, if◌then◌else◌, not, Bool, List}
use ati_tcp_file_transfer.Util.Blake3.{Blake3}
use ati_tcp_file_transfer.Proto.Types.{FrameType, type_eq, k_default_max_payload}
use ati_tcp_file_transfer.Proto.Frame.{Frame}
use ati_tcp_file_transfer.Proto.Messages.{encode_error}
use ati_tcp_file_transfer.Io.Files.{FilePath}
use ati_tcp_file_transfer.Io.FileSink.{SinkError}
use ati_tcp_file_transfer.Transport.Connection.{recv_frame, send_frame}
use ati_tcp_file_transfer.Transport.Session.{Exec, pure, stop, or_stop, ◌>>=◌, ◌>>◌, on_connection}
use ati_tcp_file_transfer.Transport.Server.Text.{Text, text_of}

-- The server, with what it takes of its libraries.
pub record Server : Type 1 where
  pub root : FilePath
  pub has_tls : Bool
  pub hash : Blake3
  pub sink_text : SinkError → List ℕ

-- Where `handle_session_` returned false. The source tells no reasons apart: the constructors are the
-- model's own, for the proofs, and `handle_session` drops them.
pub data Failure : Type 0 where
  handshake_failed send_failed recv_failed unexpected_frame out_of_rounds : Failure
  rejected : ℕ → Text → Failure

-- `conn.recv_frame()` with its default limit.
unfoldable pub recv_any : Exec Failure Frame
recv_any = do
  frame ← on_connection (λ c. recv_frame c k_default_max_payload)
  or_stop frame Failure.recv_failed

-- `if (!frame || frame->header.type != t) return false;`
unfoldable pub recv_expected : FrameType → Exec Failure Frame
unfolding recv_any
recv_expected t = do
  frame ← recv_any
  if not (type_eq frame.header.type t) then stop unexpected_frame else pure frame

unfoldable pub send : FrameType → List ℕ → Exec Failure (Unit {0})
send t payload = do
  sent ← on_connection (λ c. send_frame c t payload)
  if not sent then stop Failure.send_failed else pure tt

-- `send_error`, whose result is not looked at.
unfoldable pub send_error : Server → ℕ → Text → Exec Failure (Unit {0})
send_error v code text = do
  on_connection (λ c.
      send_frame c FrameType.error
        (encode_error (record { code = code; message = text_of v.sink_text text })))
  pure tt

-- `send_error(…); return false;`
unfoldable pub reject : {A : Type 0} → Server → ℕ → Text → Exec Failure A
unfolding send_error
reject v code text = do send_error v code text; stop (rejected code text)
