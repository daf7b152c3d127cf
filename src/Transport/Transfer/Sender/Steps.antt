-- ===== src/Transport/Transfer/Sender/Steps.antt =====
-- The steps of Client::send on what a server writes that asks for some chunks: src/lib/transport/client.cpp.
use ati_tcp_file_transfer.Base.{ℕ, suc, ◌+◌, ◌<◌, ◌≡◌, refl, sym, arith, not, true, lt→ltb}
use ati_tcp_file_transfer.Base.{
  All, some, List, [], ◌∷◌, ◌++◌, map, append_assoc, append-nil, length, get_or,
}
use ati_tcp_file_transfer.Util.Blake3.{IsStreaming, blake3}
use ati_tcp_file_transfer.Proto.Types.{FrameType, type_eq}
use ati_tcp_file_transfer.Proto.Decoder.Stream.{frame_of}
use ati_tcp_file_transfer.Proto.Cursor.{Hash}
use ati_tcp_file_transfer.Proto.Messages.{default_hello, encode_hello, ManifestMsg}
use ati_tcp_file_transfer.Io.Files.{FilePath, Files}
use ati_tcp_file_transfer.Io.FileSource.{FileSource, file_source}
use ati_tcp_file_transfer.Io.FileSource.Succeeds.{There}
use ati_tcp_file_transfer.Transport.Session.{Session}
use ati_tcp_file_transfer.Transport.Session.Rules.{
  Runs, Runs-pure, Runs-if, Runs-bind, Runs-bind_known,
}
use ati_tcp_file_transfer.Transport.Client.{
  chunk_count, Client, Network, connected, source_not_read,
}
use ati_tcp_file_transfer.Transport.Client.Chunks.{slices}
use ati_tcp_file_transfer.Transport.Client.Send.{
  connect, client_handshake, greet, receive_request, send_chunk, send_chunks, await_ack,
}
use ati_tcp_file_transfer.Transport.Server.Honest.{slice}
use ati_tcp_file_transfer.Transport.Transfer.{
  IsTransferable, AreChunks, wire, file_manifest, chunk_payload, wires_of, request_payload,
  ack_payload,
}
use ati_tcp_file_transfer.Transport.Transfer.Talks.{
  Fails, Talks, send_message-Succeeds, recv_frame-Runs, recv_message-Succeeds,
  tls_handshake-Succeeds,
}
use ati_tcp_file_transfer.Transport.Transfer.Fits.{
  n, manifest_honest, hello_room, decode_hello-default, decode_request, request_room,
  chunk_payload_room, ack_room,
}
use ati_tcp_file_transfer.Transport.Transfer.Sender.{read_chunk-Succeeds}

module _ (client : Client) (c path : List ℕ) (source_path : FilePath)
    (ok : IsTransferable client.chunk_size c path) (streaming : IsStreaming client.hash)
    (is : List ℕ) (asks : AreChunks (chunk_count (length c) client.chunk_size) is) where
  abbrev k : ℕ
  k = client.chunk_size

  abbrev count : ℕ
  count = n k c path ok

  abbrev m : ManifestMsg
  m = file_manifest client.hash k c path

  abbrev opened : FileSource
  opened = record (file_source source_path) { size = length c; is_open = true }

  abbrev Source : Files → Type 0
  Source = There source_path c

  abbrev hashes : List Hash
  hashes = map (blake3 client.hash) (slices k c count 0)

  send_chunk-Succeeds :
      (inc out : List ℕ) (w i : ℕ)
      → i < count
      → Runs
          (Talks inc out (suc w) Source)
          (send_chunk client hashes count opened i)
          (λ r s.
            (r ≡ opened)
            × Talks inc (out ++ wire FrameType.chunk (chunk_payload client.hash k c i)) w Source s)
          Fails
  unfolding send_chunk
  send_chunk-Succeeds inc out w i h =
      let payload = chunk_payload client.hash k c i in
      let sent = Talks inc (out ++ wire FrameType.chunk payload) w Source in
      let declared : get_or hashes i [] ≡ blake3 client.hash (slice k c i) =
        (manifest_honest k c path ok client.hash streaming).hashes i h in
      rw (lt→ltb i count h) (
        Runs-bind_known _ (Talks inc out (suc w) Source) _ Fails (slice k c i, opened) _ _
          (read_chunk-Succeeds client c path source_path ok streaming inc out (suc w)
            source_not_read i h)
          (rw declared (
            Runs-bind _ _ Fails (λ _. sent) _ _
              (send_message-Succeeds Source out w FrameType.chunk payload
                (chunk_payload_room k c path ok client.hash streaming i) inc)
              (λ _. Runs-pure sent _ Fails opened (λ s t. (refl, t))))))

  pub send_chunks-Succeeds :
      (inc out : List ℕ) (w : ℕ) (left : List ℕ)
      → All (λ i. i < count) left
      → Runs
          (Talks inc out (length left + w) Source)
          (send_chunks client hashes count opened left)
          (λ _. Talks inc (out ++ wires_of client.hash k c left) w Source)
          Fails
  unfolding send_chunks wires_of
  send_chunks-Succeeds inc out w [] below =
      let none_left : 0 + w ≡ w = omega arith in
      rw (none_left, append-nil out) (Runs-pure _ _ Fails tt (λ s t. t))
  send_chunks-Succeeds inc out w (i ∷ left) below =
      let one_more : suc (length left) + w ≡ suc (length left + w) = omega arith in
      let first = wire FrameType.chunk (chunk_payload client.hash k c i) in
      let others = wires_of client.hash k c left in
      rw (one_more, sym (append_assoc out first others))
        (Runs-bind_known _ (Talks inc (out ++ first) (length left + w) Source) _ Fails opened _ _
          (send_chunk-Succeeds inc out (length left + w) i below.0)
          (send_chunks-Succeeds inc (out ++ first) w left below.1))

  pub greet-Succeeds :
      (inc out : List ℕ) (w : ℕ)
      → Runs
          (Talks (wire FrameType.hello (encode_hello default_hello) ++ inc) out (suc w) Source)
          greet
          (λ _. Talks inc (out ++ wire FrameType.hello (encode_hello default_hello)) w Source)
          Fails
  unfolding greet
  greet-Succeeds inc out w =
      let hello = encode_hello default_hello in
      let sent = out ++ wire FrameType.hello hello in
      let After = Talks inc sent w Source in
      Runs-bind _ _ Fails _ _ _
        (send_message-Succeeds Source out w FrameType.hello hello hello_room
          (wire FrameType.hello hello ++ inc))
        (λ _.
          Runs-bind_known _ After _ Fails (frame_of FrameType.hello hello) _ _
            (recv_message-Succeeds Source sent w FrameType.hello hello hello_room inc)
            (rw decode_hello-default (
              Runs-bind_known After After _ Fails default_hello _ _
                (Runs-pure After _ Fails default_hello (λ s t. (refl, t)))
                (Runs-pure After _ Fails tt (λ s t. t)))))

  pub receive_request-Succeeds :
      (inc out : List ℕ) (w : ℕ)
      → Runs
          (Talks (wire FrameType.req_chunks (request_payload is) ++ inc) out w Source)
          receive_request
          (λ r s. (r ≡ is) × Talks inc out w Source s)
          Fails
  unfolding receive_request
  receive_request-Succeeds inc out w =
      let payload = request_payload is in
      let After = Talks inc out w Source in
      Runs-bind_known _ After _ Fails (frame_of FrameType.req_chunks payload) _ _
        (recv_message-Succeeds Source out w FrameType.req_chunks payload
          (request_room k c path ok is asks.few) inc)
        (rw (decode_request k c path ok is asks) (
          Runs-bind_known After After _ Fails (record { indices = is }) _ _
            (Runs-pure After _ Fails _ (λ s t. (refl, t)))
            (Runs-pure After _ Fails _ (λ s t. (refl, t)))))

  pub await_ack-Succeeds :
      (out : List ℕ) (w : ℕ)
      → Runs
          (Talks (wire FrameType.ack (ack_payload count)) out w Source)
          await_ack
          (λ _. Talks [] out w Source)
          Fails
  unfolding await_ack type_eq
  await_ack-Succeeds out w =
      let payload = ack_payload count in
      let After = Talks [] out w Source in
      rw (sym (append-nil (wire FrameType.ack payload))) (
        Runs-bind_known _ After _ Fails (some (frame_of FrameType.ack payload)) _ _
          (recv_frame-Runs Source out w FrameType.ack payload (ack_room k c path ok) [])
          (Runs-bind_known After After _ Fails (frame_of FrameType.ack payload) _ _
            (Runs-pure After _ Fails _ (λ s t. (refl, t))) (Runs-pure After _ Fails tt (λ s t. t))))

  pub client_handshake-Succeeds :
      (inc out : List ℕ) (w : ℕ)
      → Runs (Talks inc out w Source) (client_handshake client) (λ _. Talks inc out w Source) Fails
  unfolding client_handshake
  client_handshake-Succeeds inc out w =
      let P = Talks inc out w Source in
      Runs-if P (λ _. P) Fails (not client.has_tls) _ _
        (λ _. Runs-pure P (λ _. P) Fails tt (λ s t. t))
        (λ _.
          Runs-bind_known P P (λ _. P) Fails true _ _ (tls_handshake-Succeeds inc out w Source)
            (Runs-pure P (λ _. P) Fails tt (λ s t. t)))

  pub connect-Succeeds :
      (P : Session → Type 0)
      → client.network ≡ connected
      → Runs P (connect client.network) (λ _. P) Fails
  unfolding connect
  connect-Succeeds P joined = on_network client.network joined
    where
      on_network : (net : Network) → net ≡ connected → Runs P (connect net) (λ _. P) Fails
      on_network net e = rw e (Runs-pure P (λ _. P) Fails tt (λ s t. t))
