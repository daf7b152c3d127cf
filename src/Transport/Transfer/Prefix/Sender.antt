-- ===== src/Transport/Transfer/Prefix/Sender.antt =====
-- What the client has written once it has read so much of what a server writes, whatever comes behind.
use ati_tcp_file_transfer.Base.{
  ℕ, suc, ◌+◌, ◌==◌, ◌≡◌, ◌∙◌, arith, not, List, [], ◌++◌, append_assoc, length,
}
use ati_tcp_file_transfer.Util.Blake3.{IsStreaming, blake3, new_hasher}
use ati_tcp_file_transfer.Proto.Types.{FrameType, type_eq}
use ati_tcp_file_transfer.Proto.Cursor.{Hash}
use ati_tcp_file_transfer.Proto.Messages.{
  default_hello, encode_hello, decode_hello, encode_manifest, encode_complete,
}
use ati_tcp_file_transfer.Proto.Types.{k_protocol_version}
use ati_tcp_file_transfer.Io.Files.{FilePath, Files}
use ati_tcp_file_transfer.Transport.Session.{Session, Exec, ◌>>=◌}
use ati_tcp_file_transfer.Transport.Session.Rules.{
  Runs-pure, Runs-stop, Runs-if, Runs-or_stop, Runs-on_connection, Runs-before,
}
use ati_tcp_file_transfer.Transport.Client.{chunk_count, Client, SendError, connected}
use ati_tcp_file_transfer.Transport.Client.Send.{
  greet, send_message, receive_request, send_chunks, await_ack, manifest_of, transfer,
}
use ati_tcp_file_transfer.Transport.Transfer.{
  IsTransferable, AreChunks, wire, request_payload, client_wire, wires_of, complete_payload,
}
use ati_tcp_file_transfer.Transport.Transfer.Talks.{Talks, send_message-Succeeds}
use ati_tcp_file_transfer.Transport.Transfer.Fits.{
  hello_room, manifest_room, complete_room, hashed_file,
}
use ati_tcp_file_transfer.Transport.Transfer.Sender.{
  m, count, opened, hashes, Source, open_file-Succeeds, hash_pass-Succeeds,
}
use ati_tcp_file_transfer.Transport.Transfer.Sender.Steps.{
  greet-Succeeds, connect-Succeeds, client_handshake-Succeeds, receive_request-Succeeds,
  send_chunks-Succeeds,
}
use ati_tcp_file_transfer.Transport.Transfer.Grows.{
  Wrote, received, Reaches, Reaches-bind, Reaches-known, Reaches-then, Grows-pure, Grows-stop,
  Grows-or_stop, Grows-if, Grows-bind, Grows-Reaches, Talks-Reaches,
}
use ati_tcp_file_transfer.Transport.Transfer.Grows.Sender.{
  send_message-Grows, recv_message-Grows, receive_request-Grows, hash_pass-Grows, send_chunks-Grows,
  await_ack-Grows,
}
use ati_tcp_file_transfer.Transport.Transfer.Prefix.{hello}

module _ (client : Client) (c path : List ℕ) (source_path : FilePath)
    (ok : IsTransferable client.chunk_size c path) (streaming : IsStreaming client.hash)
    (is : List ℕ) (asks : AreChunks (chunk_count (length c) client.chunk_size) is)
    (joined : client.network ≡ connected) where
  abbrev S : Files → Type 0
  S = Source client c path source_path ok streaming

  abbrev n : ℕ
  n = count client c path source_path ok streaming

  abbrev asked : List ℕ
  asked = wire FrameType.req_chunks (request_payload is)

  abbrev offer : List ℕ
  offer = wire FrameType.manifest (encode_manifest (m client c path source_path ok streaming))

  greet_greets : (inc : List ℕ) (w : ℕ) → Reaches (Wrote hello) (Talks inc [] (suc w) S) greet
  unfolding greet
  greet_greets inc w =
      Reaches-bind _ _ _ _ _
        (send_message-Succeeds S [] w FrameType.hello (encode_hello default_hello) hello_room inc)
        (λ _. Talks-Reaches inc hello w S _ (
          Grows-bind hello _ _ (recv_message-Grows hello FrameType.hello) (λ frame.
            Grows-bind hello _ _ (Grows-or_stop hello (decode_hello frame.payload) _) (λ theirs.
              Grows-if hello (not (theirs.protocol_version == k_protocol_version)) _ _
                (Grows-stop hello _) (Grows-pure hello tt)))))

  pub transfer_greets :
      (inc : List ℕ) (w : ℕ)
      → Reaches (Wrote hello) (Talks inc [] (suc w) S) (transfer client source_path path)
  unfolding transfer
  transfer_greets inc w =
      Reaches-known _ _ _ _ _ (opened client c path source_path ok streaming)
        (open_file-Succeeds client c path source_path ok streaming inc [] (suc w))
        (Reaches-bind _ _ _ _ _
          (connect-Succeeds client c path source_path ok streaming is asks (Talks inc [] (suc w) S)
            joined)
          (λ _.
            Reaches-bind _ _ _ _ _
              (client_handshake-Succeeds client c path source_path ok streaming is asks inc []
                (suc w))
              (λ _. Reaches-then _ _ _ _ (greet_greets inc w) (λ _. Grows-Reaches hello _ (
                Grows-bind hello _ _ (hash_pass-Grows hello client _ _ 0 _)
                  (λ (found, hasher, src').
                    Grows-bind hello _ _ (send_message-Grows hello FrameType.manifest _) (λ _.
                      Grows-bind hello _ _ (receive_request-Grows hello) (λ indices.
                        Grows-bind hello _ _ (send_chunks-Grows hello client found _ src' indices)
                          (λ _.
                            Grows-bind hello _ _ (send_message-Grows hello FrameType.complete _)
                              (λ _. await_ack-Grows hello))))))))))

  -- The transfer behind the greeting, from the result of the first pass on.
  abbrev Rest : Hash → Exec SendError (Unit {0})
  Rest root =
      send_message FrameType.manifest (
        encode_manifest (
          manifest_of client (opened client c path source_path ok streaming)
            (hashes client c path source_path ok streaming) root path))
      >>= λ _. receive_request >>= λ indices.
          send_chunks client (hashes client c path source_path ok streaming) n
            (opened client c path source_path ok streaming) indices
          >>= λ _.
              send_message FrameType.complete
                (encode_complete (record { final_root_hash = root; status = 0 }))
              >>= λ _. await_ack

  offer_offers :
      (inc : List ℕ) (w : ℕ) (root : Hash)
      → root ≡ blake3 client.hash c
      → Reaches (Wrote (hello ++ offer)) (Talks inc hello (suc w) S) (Rest root)
  unfolding manifest_of
  offer_offers inc w root same =
      let o = hello ++ offer in
      rw same (
        Reaches-bind _ _ _ _ _
          (send_message-Succeeds S hello w FrameType.manifest
            (encode_manifest (m client c path source_path ok streaming))
            (manifest_room client.chunk_size c path ok client.hash streaming) inc)
          (λ _. Talks-Reaches inc o w S _ (
            Grows-bind o _ _ (receive_request-Grows o) (λ indices.
              Grows-bind o _ _ (send_chunks-Grows o client _ _ _ indices) (λ _.
                Grows-bind o _ _ (send_message-Grows o FrameType.complete _)
                  (λ _. await_ack-Grows o))))))

  after_greeting :
      (W : Session → Type 0) (inc : List ℕ) (w : ℕ)
      → ((root : Hash) → root ≡ blake3 client.hash c → Reaches W (Talks inc hello w S) (Rest root))
      → Reaches W (Talks (hello ++ inc) [] (suc w) S) (transfer client source_path path)
  unfolding transfer
  after_greeting W inc w rest =
      Reaches-known W _ _ _ _ (opened client c path source_path ok streaming)
        (open_file-Succeeds client c path source_path ok streaming (hello ++ inc) [] (suc w))
        (Reaches-bind W _ _ _ _
          (connect-Succeeds client c path source_path ok streaming is asks
            (Talks (hello ++ inc) [] (suc w) S) joined)
          (λ _.
            Reaches-bind W _ _ _ _
              (client_handshake-Succeeds client c path source_path ok streaming is asks
                (hello ++ inc) [] (suc w))
              (λ _.
                Reaches-bind W _ _ _ _
                  (greet-Succeeds client c path source_path ok streaming is asks inc [] w)
                  (λ _.
                    Reaches-known W _ _ _ _ _
                      (hash_pass-Succeeds client c path source_path ok streaming inc hello w n 0
                        (new_hasher client.hash) (omega arith))
                      (rest _ (hashed_file client.chunk_size c path ok client.hash streaming))))))

  pub transfer_offers :
      (inc : List ℕ) (w : ℕ)
      → Reaches
          (Wrote (hello ++ offer))
          (Talks (hello ++ inc) [] (suc (suc w)) S)
          (transfer client source_path path)
  transfer_offers inc w = after_greeting (Wrote (hello ++ offer)) inc (suc w) (offer_offers inc w)

  -- Waiting for ACK writes nothing.
  abbrev Exactly : List ℕ → Session → Type 0
  Exactly o s = s.conn.outgoing ≡ o

  await_ack_writes_nothing : (o : List ℕ) → Reaches (Exactly o) (Exactly o) await_ack
  unfolding await_ack
  await_ack_writes_nothing o =
      let X = Exactly o in
      Reaches-then X X _ _ (Runs-on_connection X (λ _. X) (λ _. X) _ (λ s h. received s.conn ∙ h))
        (λ got.
          Reaches-then X X _ _ (Runs-or_stop X (λ _. X) (λ _. X) got _ (λ _ _ s h. h) (λ s h. h))
            (λ frame.
              Runs-if X (λ _. X) (λ _. X) (type_eq frame.header.type FrameType.error) _ _
                (λ _. Runs-stop X (λ _. X) (λ _. X) _ (λ s h. h))
                (λ _.
                  Runs-if X (λ _. X) (λ _. X) (not (type_eq frame.header.type FrameType.ack)) _ _
                    (λ _. Runs-stop X (λ _. X) (λ _. X) _ (λ s h. h))
                    (λ _. Runs-pure X (λ _. X) (λ _. X) tt (λ s h. h)))))

  abbrev all : List ℕ
  all = client_wire client.hash client.chunk_size c path is

  offer_sends :
      (inc : List ℕ) (w : ℕ) (root : Hash)
      → root ≡ blake3 client.hash c
      → Reaches (Exactly all) (Talks (asked ++ inc) hello (suc (length is + suc w)) S) (Rest root)
  unfolding manifest_of
  offer_sends inc w root same =
      let k = client.chunk_size in
      let chunks = wires_of client.hash k c is in
      let last = wire FrameType.complete (complete_payload client.hash k c) in
      let X = Exactly all in
      let whole : ((hello ++ offer) ++ chunks) ++ last ≡ all =
        append_assoc (hello ++ offer) chunks last ∙ append_assoc hello offer (chunks ++ last) in
      rw same (
        Reaches-bind X _ _ _ _
          (send_message-Succeeds S hello (length is + suc w) FrameType.manifest
            (encode_manifest (m client c path source_path ok streaming))
            (manifest_room k c path ok client.hash streaming) (asked ++ inc))
          (λ _.
            Reaches-known X _ _ _ _ _
              (receive_request-Succeeds client c path source_path ok streaming is asks inc
                (hello ++ offer) (length is + suc w))
              (Reaches-bind X _ _ _ _
                (send_chunks-Succeeds client c path source_path ok streaming is asks inc
                  (hello ++ offer) (suc w) is asks.below)
                (λ _.
                  Reaches-bind X _ _ _ _
                    (send_message-Succeeds S ((hello ++ offer) ++ chunks) w FrameType.complete
                      (complete_payload client.hash k c)
                      (complete_room k c path ok client.hash streaming) inc)
                    (λ _.
                      Runs-before X _ (λ _. X) (λ _. X) _ (λ s t. t.outgoing ∙ whole)
                        (await_ack_writes_nothing all))))))

  pub transfer_sends :
      (inc : List ℕ) (w : ℕ)
      → Reaches
          (Exactly all)
          (Talks (hello ++ (asked ++ inc)) [] (suc (suc (length is + suc w))) S)
          (transfer client source_path path)
  transfer_sends inc w =
      after_greeting (Exactly all) (asked ++ inc) (suc (length is + suc w)) (offer_sends inc w)
