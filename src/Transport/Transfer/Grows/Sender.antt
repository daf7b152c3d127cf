-- ===== src/Transport/Transfer/Grows/Sender.antt =====
-- What Client::send has written stays written.
use ati_tcp_file_transfer.Base.{ℕ, zero, suc, ◌+◌, ltb, not, List, [], ◌∷◌}
use ati_tcp_file_transfer.Util.Blake3.{update}
use ati_tcp_file_transfer.Proto.Types.{FrameType, type_eq}
use ati_tcp_file_transfer.Proto.Cursor.{Hash}
use ati_tcp_file_transfer.Proto.Messages.{decode_req_chunks}
use ati_tcp_file_transfer.Io.FileSource.{FileSource, SourceError}
use ati_tcp_file_transfer.Transport.Client.{
  Client, SendError, read_chunk, hash_pass, hash_pass_failed, source_not_read,
}
use ati_tcp_file_transfer.Transport.Client.Send.{
  send_message, recv_message, receive_request, send_chunk, send_chunks, await_ack,
}
use ati_tcp_file_transfer.Transport.Transfer.Grows.{
  Grows, Grows-pure, Grows-stop, Grows-or_stop, Grows-if, Grows-on_files, Grows-bind, Grows-send,
  Grows-recv,
}

module _ (o : List ℕ) where
  pub send_message-Grows : (t : FrameType) (p : List ℕ) → Grows o (send_message t p)
  unfolding send_message
  send_message-Grows t p =
      Grows-bind o _ _ (Grows-send o t p)
        (λ sent. Grows-if o (not sent) _ _ (Grows-stop o _) (Grows-pure o tt))

  pub recv_message-Grows : (t : FrameType) → Grows o (recv_message t)
  unfolding recv_message
  recv_message-Grows t = Grows-bind o _ _ (Grows-recv o) (λ received.
      Grows-bind o _ _ (Grows-or_stop o received _) (λ frame.
        Grows-if o (not (type_eq frame.header.type t)) _ _ (Grows-stop o _) (Grows-pure o frame)))

  pub receive_request-Grows : Grows o receive_request
  unfolding receive_request
  receive_request-Grows = Grows-bind o _ _ (recv_message-Grows FrameType.req_chunks) (λ frame.
      Grows-bind o _ _ (Grows-or_stop o (decode_req_chunks frame.payload) _)
        (λ req. Grows-pure o req.indices))

  read_chunk-Grows :
      (client : Client) (reason : SourceError → SendError) (src : FileSource) (i : ℕ)
      → Grows o (read_chunk client reason src i)
  unfolding read_chunk
  read_chunk-Grows client reason src i = Grows-bind o _ _ (Grows-on_files o _) (λ (got, src').
      Grows-bind o _ _ (Grows-or_stop o got _) (λ chunk. Grows-pure o (chunk, src')))

  pub hash_pass-Grows :
      (client : Client) (src : FileSource) (n i : ℕ) (h : client.hash.Hasher)
      → Grows o (hash_pass client src n i h)
  unfolding hash_pass
  hash_pass-Grows client src zero i h = Grows-pure o _
  hash_pass-Grows client src (suc n) i h =
      Grows-bind o _ _ (read_chunk-Grows client hash_pass_failed src i) (λ (chunk, src').
        Grows-bind o _ _ (hash_pass-Grows client src' n (i + 1) (update client.hash h chunk))
          (λ r. Grows-pure o _))

  send_chunk-Grows :
      (client : Client) (hashes : List Hash) (count : ℕ) (src : FileSource) (i : ℕ)
      → Grows o (send_chunk client hashes count src i)
  unfolding send_chunk
  send_chunk-Grows client hashes count src i = Grows-if o (not (ltb i count)) _ _ (Grows-stop o _) (
      Grows-bind o _ _ (read_chunk-Grows client source_not_read src i) (λ (chunk, src').
        Grows-bind o _ _ (send_message-Grows FrameType.chunk _) (λ _. Grows-pure o src')))

  pub send_chunks-Grows :
      (client : Client) (hashes : List Hash) (count : ℕ) (src : FileSource) (indices : List ℕ)
      → Grows o (send_chunks client hashes count src indices)
  unfolding send_chunks
  send_chunks-Grows client hashes count src [] = Grows-pure o tt
  send_chunks-Grows client hashes count src (i ∷ indices) =
      Grows-bind o _ _ (send_chunk-Grows client hashes count src i)
        (λ src'. send_chunks-Grows client hashes count src' indices)

  pub await_ack-Grows : Grows o await_ack
  unfolding await_ack
  await_ack-Grows = Grows-bind o _ _ (Grows-recv o) (λ received.
      Grows-bind o _ _ (Grows-or_stop o received _) (λ frame.
        Grows-if o (type_eq frame.header.type FrameType.error) _ _ (Grows-stop o _) (
          Grows-if o (not (type_eq frame.header.type FrameType.ack)) _ _ (Grows-stop o _)
            (Grows-pure o tt))))
