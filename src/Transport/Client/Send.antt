-- ===== src/Transport/Client/Send.antt =====
-- src/lib/transport/client.cpp: Client::send.
use ati_tcp_file_transfer.Base.{ℕ, ◌==◌, ltb, if◌then◌else◌, not, Bool}
use ati_tcp_file_transfer.Base.{Option, none, some, List, [], ◌∷◌, get_or}
use ati_tcp_file_transfer.Util.Blake3.{new_hasher, finalize}
use ati_tcp_file_transfer.Proto.Types.{
  FrameType, type_eq, k_protocol_version, k_default_max_payload,
}
use ati_tcp_file_transfer.Proto.Frame.{Frame}
use ati_tcp_file_transfer.Proto.Cursor.{Hash}
use ati_tcp_file_transfer.Proto.Messages.{
  default_hello, encode_hello, decode_hello, encode_manifest, decode_req_chunks, ErrorMsg,
  encode_chunk, encode_complete, decode_error, ManifestMsg,
}
use ati_tcp_file_transfer.Io.Files.{FilePath}
use ati_tcp_file_transfer.Io.FileSource.{FileSource, file_source, open_source}
use ati_tcp_file_transfer.Transport.Connection.{recv_frame, send_frame, tls_handshake}
use ati_tcp_file_transfer.Transport.Session.{
  Session, Exec, pure, stop, or_stop, ◌>>=◌, ◌>>◌, on_connection, on_files,
}
use ati_tcp_file_transfer.Transport.Server.Finish.{is_ok}
use ati_tcp_file_transfer.Transport.Client.{
  Client, Network, unresolved, unreachable, connected, SendError, source_not_opened, not_resolved,
  not_connected, not_sent, not_received, malformed, version_mismatch, source_not_read,
  index_out_of_range, server_error, not_an_ack, chunk_count, read_chunk, hash_pass,
}

unfoldable pub open_file : FilePath → Exec SendError FileSource
open_file path = do
  (opened, src) ←
      on_files (λ fs. let (b, src, fs') = open_source (file_source path) fs in ((b, src), fs'))
  if not opened then stop (source_not_opened src.last_error) else pure src

unfoldable pub connect : Network → Exec SendError (Unit {0})
connect unresolved = stop not_resolved
connect unreachable = stop not_connected
connect connected = pure tt

unfoldable pub client_handshake : Client → Exec SendError (Unit {0})
client_handshake client = if not client.has_tls then pure tt else do
  shaken ← on_connection tls_handshake
  if not shaken then stop SendError.handshake_failed else pure tt

unfoldable pub send_message : FrameType → List ℕ → Exec SendError (Unit {0})
send_message t payload = do
  sent ← on_connection (λ c. send_frame c t payload)
  if not sent then stop (not_sent t) else pure tt

-- A frame of the type that is expected, or no success.
unfoldable pub recv_message : FrameType → Exec SendError Frame
recv_message t = do
  received ← on_connection (λ c. recv_frame c k_default_max_payload)
  frame ← or_stop received (not_received t)
  if not (type_eq frame.header.type t) then stop (not_received t) else pure frame

unfoldable pub greet : Exec SendError (Unit {0})
greet = do
  send_message FrameType.hello (encode_hello default_hello)
  frame ← recv_message FrameType.hello
  server_hello ← or_stop (decode_hello frame.payload) (malformed FrameType.hello)
  if not (server_hello.protocol_version == k_protocol_version)
      then stop version_mismatch
      else pure tt

unfoldable pub receive_request : Exec SendError (List ℕ)
receive_request = do
  frame ← recv_message FrameType.req_chunks
  req ← or_stop (decode_req_chunks frame.payload) (malformed FrameType.req_chunks)
  pure req.indices

-- A round of `for (const uint32_t i : req->indices)`.
unfoldable pub send_chunk : Client → List Hash → ℕ → FileSource → ℕ → Exec SendError FileSource
send_chunk client chunk_hashes count src i =
    if not (ltb i count) then stop (index_out_of_range i) else do
      (chunk, src') ← read_chunk client source_not_read src i
      send_message FrameType.chunk
          (encode_chunk (record { index = i; hash = get_or chunk_hashes i []; bytes = chunk }))
      pure src'

unfoldable pub send_chunks :
    Client → List Hash → ℕ → FileSource → List ℕ → Exec SendError (Unit {0})
send_chunks client chunk_hashes count src [] = pure tt
send_chunks client chunk_hashes count src (i ∷ indices) = do
  src' ← send_chunk client chunk_hashes count src i
  send_chunks client chunk_hashes count src' indices

unfoldable pub error_text : Option ErrorMsg → SendError
error_text none = server_error none
error_text (some e) = server_error (some e.message)

unfoldable pub await_ack : Exec SendError (Unit {0})
unfolding error_text
await_ack = do
  received ← on_connection (λ c. recv_frame c k_default_max_payload)
  frame ← or_stop received (not_received FrameType.ack)
  if type_eq frame.header.type FrameType.error
      then stop (error_text (decode_error frame.payload))
      else if not (type_eq frame.header.type FrameType.ack)
      then stop not_an_ack
      else pure tt

unfoldable pub manifest_of : Client → FileSource → List Hash → Hash → List ℕ → ManifestMsg
manifest_of client src chunk_hashes root_hash remote_dest = record {
  file_size = src.size;
  chunk_size = client.chunk_size;
  chunk_count = chunk_count src.size client.chunk_size;
  root_hash = root_hash;
  path = remote_dest;
  chunk_hashes = chunk_hashes;
}

unfoldable pub transfer : Client → FilePath → List ℕ → Exec SendError (Unit {0})
transfer client source_path remote_dest = do
  src ← open_file source_path
  connect client.network
  client_handshake client
  greet
  (chunk_hashes, hasher, src') ←
      hash_pass client src (chunk_count src.size client.chunk_size) 0 (new_hasher client.hash)
  let root_hash = finalize client.hash hasher
  send_message FrameType.manifest
      (encode_manifest (manifest_of client src chunk_hashes root_hash remote_dest))
  indices ← receive_request
  send_chunks client chunk_hashes (chunk_count src.size client.chunk_size) src' indices
  send_message FrameType.complete
      (encode_complete (record { final_root_hash = root_hash; status = 0 }))
  await_ack

unfoldable pub send_file : Client → FilePath → List ℕ → Session → Bool × Session
send_file client source_path remote_dest s =
    let (r, s') = transfer client source_path remote_dest s in (is_ok r, s')
