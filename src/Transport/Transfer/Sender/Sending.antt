-- ===== src/Transport/Transfer/Sender/Sending.antt =====
-- Client::send on what a server writes that asks for some chunks: what it sends in all.
use ati_tcp_file_transfer.Base.{ℕ, suc, ◌+◌, ◌≡◌, sym, arith, true}
use ati_tcp_file_transfer.Base.{List, [], ◌++◌, map, append_assoc, length}
use ati_tcp_file_transfer.Util.Blake3.{IsStreaming, blake3, new_hasher}
use ati_tcp_file_transfer.Proto.Types.{FrameType}
use ati_tcp_file_transfer.Proto.Cursor.{Hash}
use ati_tcp_file_transfer.Proto.Messages.{
  default_hello, encode_hello, ManifestMsg, encode_manifest, encode_complete,
}
use ati_tcp_file_transfer.Io.Files.{FilePath, Files}
use ati_tcp_file_transfer.Io.FileSource.{FileSource, file_source}
use ati_tcp_file_transfer.Io.FileSource.Succeeds.{There}
use ati_tcp_file_transfer.Transport.Session.{Session, ◌>>=◌}
use ati_tcp_file_transfer.Transport.Session.Rules.{Runs, Runs-bind, Runs-bind_known}
use ati_tcp_file_transfer.Transport.Client.{chunk_count, Client, connected}
use ati_tcp_file_transfer.Transport.Client.Chunks.{slices}
use ati_tcp_file_transfer.Transport.Client.Send.{
  send_message, receive_request, send_chunks, await_ack, manifest_of, transfer,
}
use ati_tcp_file_transfer.Transport.Transfer.{
  IsTransferable, AreChunks, wire, file_manifest, wires_of, complete_payload, client_body,
  client_wire, request_payload, ack_payload, server_wire,
}
use ati_tcp_file_transfer.Transport.Transfer.Talks.{Fails, Talks, send_message-Succeeds}
use ati_tcp_file_transfer.Transport.Transfer.Fits.{n, manifest_room, complete_room, hashed_file}
use ati_tcp_file_transfer.Transport.Transfer.Sender.{open_file-Succeeds, hash_pass-Succeeds}
use ati_tcp_file_transfer.Transport.Transfer.Sender.Steps.{
  send_chunks-Succeeds, greet-Succeeds, receive_request-Succeeds, await_ack-Succeeds,
  client_handshake-Succeeds, connect-Succeeds,
}

module _ (client : Client) (c path : List ℕ) (source_path : FilePath)
    (ok : IsTransferable client.chunk_size c path) (streaming : IsStreaming client.hash)
    (is : List ℕ) (asks : AreChunks (chunk_count (length c) client.chunk_size) is) where
  abbrev k : ℕ
  k = client.chunk_size

  abbrev count : ℕ
  count = n k c path ok

  abbrev m : ManifestMsg
  m = file_manifest client.hash k c path

  abbrev opened : FileSource
  opened = record (file_source source_path) { size = length c; is_open = true }

  abbrev Source : Files → Type 0
  Source = There source_path c

  abbrev hashes : List Hash
  hashes = map (blake3 client.hash) (slices k c count 0)

  -- From REQ_CHUNKS to ACK.
  deliver :
      (out : List ℕ) (w : ℕ)
      → Runs
          (Talks (wire FrameType.ack (ack_payload count)) out (length is + suc w) Source)
          (send_chunks client hashes count opened (is) >>= λ _.
            send_message FrameType.complete (complete_payload client.hash k c) >>= λ _. await_ack)
          (λ _. Talks [] (out ++ client_body client.hash k c is) w Source)
          Fails
  deliver out w =
      let inc = wire FrameType.ack (ack_payload count) in
      let chunks = wires_of client.hash k c is in
      let last = wire FrameType.complete (complete_payload client.hash k c) in
      Runs-bind _ _ Fails _ _ _
        (send_chunks-Succeeds client c path source_path ok streaming is asks inc out (suc w) is
          asks.below)
        (λ _.
          Runs-bind _ _ Fails _ _ _
            (send_message-Succeeds Source (out ++ chunks) w FrameType.complete
              (complete_payload client.hash k c) (complete_room k c path ok client.hash streaming)
              inc)
            (λ _. rw (sym (append_assoc out chunks last)) (
              await_ack-Succeeds client c path source_path ok streaming is asks
                ((out ++ chunks) ++ last) w)))

  -- From MANIFEST to ACK, with the root hash of the first pass.
  offer-Succeeds :
      (out : List ℕ) (w : ℕ) (root : Hash)
      → root ≡ blake3 client.hash c
      → Runs
          (Talks
            (wire FrameType.req_chunks (request_payload is)
              ++ wire FrameType.ack (ack_payload count))
            out
            (suc (length is + suc w))
            Source)
          (send_message FrameType.manifest
              (encode_manifest (manifest_of client opened hashes root path))
            >>= λ _. receive_request >>= λ indices.
                send_chunks client hashes count opened indices >>= λ _.
                send_message FrameType.complete
                  (encode_complete (record { final_root_hash = root; status = 0 }))
                >>= λ _. await_ack)
          (λ _.
            Talks []
              (out
                ++ (wire FrameType.manifest (encode_manifest m) ++ client_body client.hash k c is))
              w
              Source)
          Fails
  unfolding manifest_of
  offer-Succeeds out w root same =
      let offer = wire FrameType.manifest (encode_manifest m) in
      let asked = wire FrameType.req_chunks (request_payload is) in
      let acked = wire FrameType.ack (ack_payload count) in
      let left : ℕ = length is + suc w in
      let Q : Unit {0} → Session → Type 0 =
        λ _. Talks [] (out ++ (offer ++ client_body client.hash k c is)) w Source in
      rw same (
        Runs-bind _ Q Fails _ _ _
          (send_message-Succeeds Source out left FrameType.manifest (encode_manifest m)
            (manifest_room k c path ok client.hash streaming) (asked ++ acked))
          (λ _.
            Runs-bind_known _ (Talks acked (out ++ offer) left Source) Q Fails _ _ _
              (receive_request-Succeeds client c path source_path ok streaming is asks acked
                (out ++ offer) left)
              (rw (sym (append_assoc out offer (client_body client.hash k c is)))
                (deliver (out ++ offer) w))))

  pub transfer-Succeeds :
      (w : ℕ)
      → client.network ≡ connected
      → Runs
          (Talks (server_wire is count) [] (suc (suc (length is + suc w))) Source)
          (transfer client source_path path)
          (λ _. Talks [] (client_wire client.hash k c path is) w Source)
          Fails
  unfolding transfer
  transfer-Succeeds w joined =
      let hello = wire FrameType.hello (encode_hello default_hello) in
      let asked = wire FrameType.req_chunks (request_payload is) in
      let acked = wire FrameType.ack (ack_payload count) in
      let left : ℕ = suc (length is + suc w) in
      let Q : Unit {0} → Session → Type 0 =
        λ _. Talks [] (client_wire client.hash k c path is) w Source in
      let start = Talks (server_wire is count) [] (suc left) Source in
      let greeted = Talks (asked ++ acked) hello left Source in
      Runs-bind_known start start Q Fails opened _ _
        (open_file-Succeeds client c path source_path ok streaming (server_wire is count) []
          (suc left))
        (Runs-bind start Q Fails (λ _. start) _ _
          (connect-Succeeds client c path source_path ok streaming is asks start joined)
          (λ _.
            Runs-bind start Q Fails (λ _. start) _ _
              (client_handshake-Succeeds client c path source_path ok streaming is asks
                (server_wire is count) [] (suc left))
              (λ _.
                Runs-bind start Q Fails (λ _. greeted) _ _
                  (greet-Succeeds client c path source_path ok streaming is asks (asked ++ acked) []
                    left)
                  (λ _.
                    Runs-bind_known greeted greeted Q Fails _ _ _
                      (hash_pass-Succeeds client c path source_path ok streaming (asked ++ acked)
                        hello left count 0 (new_hasher client.hash) (omega arith))
                      (offer-Succeeds hello w _ (hashed_file k c path ok client.hash streaming))))))
