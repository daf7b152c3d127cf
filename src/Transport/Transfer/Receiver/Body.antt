-- ===== src/Transport/Transfer/Receiver/Body.antt =====
-- Server::handle_session_ on what a client writes for a file: from the destination to the check of the
-- root hash.
use mathlib.Core.List.{foldl}
use ati_tcp_file_transfer.Base.{ℕ, suc, ◌≡◌, refl, ap, ◌∙◌, arith, false, ==_self}
use ati_tcp_file_transfer.Base.{
  bytes_eq_self, none, some, List, [], ◌++◌, append-nil, length, length-append,
}
use ati_tcp_file_transfer.Util.Blake3.{IsStreaming, blake3, update, new_hasher, finalize}
use ati_tcp_file_transfer.Proto.Types.{FrameType}
use ati_tcp_file_transfer.Proto.Messages.{ManifestMsg}
use ati_tcp_file_transfer.Io.Files.{FilePath, Files}
use ati_tcp_file_transfer.Io.Files.Calm.{IsCalm}
use ati_tcp_file_transfer.Io.FileSink.{FileSink, with_partial_suffix}
use ati_tcp_file_transfer.Transport.Session.{Session}
use ati_tcp_file_transfer.Transport.Session.Rules.{Runs, Runs-pure, Runs-bind, Runs-bind_known}
use ati_tcp_file_transfer.Transport.Client.Chunks.{slices}
use ati_tcp_file_transfer.Transport.Server.Calls.{Server}
use ati_tcp_file_transfer.Transport.Server.Start.{state_path}
use ati_tcp_file_transfer.Transport.Server.Receive.{Progress, start_progress, receive_chunks}
use ati_tcp_file_transfer.Transport.Server.Finish.{
  check_inventory, root_hash, check_root_hash, receive_partial,
}
use ati_tcp_file_transfer.Transport.Server.Integrity.{whole-InOrder}
use ati_tcp_file_transfer.Transport.Transfer.{
  IsTransferable, wire, indices_from, file_manifest, wires_of, complete_payload, client_body,
  request_payload,
}
use ati_tcp_file_transfer.Transport.Transfer.Talks.{Fails, Talks, with_files}
use ati_tcp_file_transfer.Transport.Transfer.Fits.{
  length-wires_of, length-indices_from, n, manifest_honest, chunk_count-covers, hashed_file,
}
use ati_tcp_file_transfer.Transport.Transfer.Chunks.{Before, Disk, Ended, receive_loop-Succeeds}
use ati_tcp_file_transfer.Transport.Transfer.Receiver.{
  opened, fresh, Opened, load_state-Succeeds, open_dest-Succeeds, request_chunks-Succeeds,
}

module _ (v : Server) (k : ℕ) (c path : List ℕ) (dest : FilePath) (ok : IsTransferable k c path)
    (streaming : IsStreaming v.hash) where
  abbrev m : ManifestMsg
  m = file_manifest v.hash k c path

  abbrev count : ℕ
  count = n k c path ok

  abbrev whole : v.hash.Hasher
  whole = foldl (update v.hash) (new_hasher v.hash) (slices k c count 0)

  abbrev start : Progress v.hash.Hasher
  start =
      start_progress v.hash (fresh v k c path dest ok streaming)
        (opened v k c path dest ok streaming) false

  Before-start : Before v k c path dest whole ok streaming count 0 start
  Before-start = record {
    is_open = refl;
    total = refl;
    in_order = refl;
    next = refl;
    chunks = refl;
    bytes = omega arith;
    hashed = refl;
  }

  receive_chunks-Succeeds :
      (out : List ℕ) (w : ℕ)
      → Runs
          (Talks
            (client_body v.hash k c (indices_from count 0))
            out
            w
            (Opened v k c path dest ok streaming [] out w))
          (receive_chunks v m (state_path dest) start)
          (λ r. Ended v k c path dest whole ok streaming r [] out w)
          Fails
  unfolding receive_chunks
  receive_chunks-Succeeds out w = record {
    at = λ s t.
        let body = wires_of v.hash k c (indices_from count 0) in
        let last = wire FrameType.complete (complete_payload v.hash k c) in
        (receive_loop-Succeeds v k c path dest whole ok streaming [] out w
            (suc (length s.conn.incoming)) count 0 start (omega arith)
            (omega (
              arith,
              ap length t.incoming,
              length-append body last,
              length-wires_of v.hash k c (indices_from count 0),
              length-indices_from count 0,
            ))
            Before-start).at
          s (rw (append-nil last) t);
  }

  -- The partial file is the file, under a sink for the destination.
  abbrev pub Received : FileSink → Files → Type 0
  Received sink fs =
      IsCalm fs × (sink.final_path ≡ dest) × (fs.contents (with_partial_suffix dest) ≡ some c)

  hashed_whole :
      (q : Progress v.hash.Hasher)
      → Before v k c path dest whole ok streaming 0 count q
      → finalize v.hash q.inorder_root_hasher ≡ blake3 v.hash c
  unfolding slices
  hashed_whole q b = ap (finalize v.hash) b.hashed ∙ hashed_file k c path ok v.hash streaming

  filled_whole :
      (q : Progress v.hash.Hasher) (fs : Files)
      → Before v k c path dest whole ok streaming 0 count q
      → Disk v k c path dest whole ok streaming q fs
      → Received q.sink fs
  filled_whole q fs b d =
      let honest = manifest_honest k c path ok v.hash streaming in
      let same : d.content ≡ c =
        whole-InOrder v.hash c m false q.next_expected q.chunks_received d.content honest
          (d.ordered b.in_order) b.chunks in
      (d.calm, d.sink_of, d.there ∙ ap some same)

  module _ (P : Session → Type 0) (q : Progress v.hash.Hasher)
      (b : Before v k c path dest whole ok streaming 0 count q) where
    check_inventory-Succeeds : Runs P (check_inventory v m false q) (λ r s. (r ≡ tt) × P s) Fails
    unfolding check_inventory
    check_inventory-Succeeds =
        let bytes : q.bytes_received ≡ length c =
          omega (arith, b.bytes, chunk_count-covers k c path ok) in
        rw (bytes, b.chunks, ==_self (length c), ==_self count)
          (Runs-pure P _ Fails tt (λ s t. (refl, t)))

    root_hash-Succeeds : Runs P (root_hash v q) (λ r s. (r ≡ (blake3 v.hash c, q.sink)) × P s) Fails
    unfolding root_hash
    root_hash-Succeeds =
        rw (b.in_order, hashed_whole q b) (Runs-pure P _ Fails _ (λ s t. (refl, t)))

    check_root_hash-Succeeds :
        Runs P
          (check_root_hash v m (blake3 v.hash c) (blake3 v.hash c))
          (λ r s. (r ≡ tt) × P s)
          Fails
    unfolding check_root_hash
    check_root_hash-Succeeds =
        rw (bytes_eq_self (blake3 v.hash c)) (Runs-pure P _ Fails tt (λ s t. (refl, t)))

  pub receive_partial-Succeeds :
      (out : List ℕ) (w : ℕ)
      → Runs
          (Talks
            (client_body v.hash k c (indices_from count 0))
            out
            (suc w)
            (λ fs. IsCalm fs × (fs.contents (state_path dest) ≡ none)))
          (receive_partial v m dest)
          (λ sink.
            Talks []
              (out ++ wire FrameType.req_chunks (request_payload (indices_from count 0)))
              w
              (Received sink))
          Fails
  unfolding receive_partial
  receive_partial-Succeeds out w =
      let body = client_body v.hash k c (indices_from count 0) in
      let asked = out ++ wire FrameType.req_chunks (request_payload (indices_from count 0)) in
      let Q : FileSink → Session → Type 0 = λ sink. Talks [] asked w (Received sink) in
      Runs-bind_known _ _ Q Fails ((fresh v k c path dest ok streaming), false) _ _
        (load_state-Succeeds v k c path dest ok streaming body out (suc w))
        (Runs-bind_known _ _ Q Fails (opened v k c path dest ok streaming) _ _
          (open_dest-Succeeds v k c path dest ok streaming body out (suc w))
          (Runs-bind_known _ _ Q Fails tt _ _
            (request_chunks-Succeeds v k c path dest ok streaming body out w
              (Opened v k c path dest ok streaming body out w))
            (Runs-bind _ Q Fails _ _ _ (receive_chunks-Succeeds asked w) (λ (q, client_final).
              record {
                at = λ s (b, final, t).
                    let P = Talks [] asked w (Disk v k c path dest whole ok streaming q) in
                    rw final (
                      (Runs-bind_known P P Q Fails tt _ _ (check_inventory-Succeeds P q b) (
                          Runs-bind_known P P Q Fails (blake3 v.hash c, q.sink) _ _
                            (root_hash-Succeeds P q b)
                            (Runs-bind_known P P Q Fails tt _ _ (check_root_hash-Succeeds P q b) (
                              Runs-pure P Q Fails q.sink (λ s' t'.
                                with_files _ _ _ _ _ _ _ t'
                                  (filled_whole q s'.files b t'.files)))))).at
                        s t);
              }))))
