-- ===== src/Transport/Transfer/Chunks.antt =====
-- The loop of the server on the chunks of a file, in order: it takes them all and ends with COMPLETE.
use mathlib.Core.List.{foldl}
use ati_tcp_file_transfer.Base.{
  ℕ, zero, suc, ◌+◌, ◌-◌, ◌*◌, ◌%◌, ◌<◌, ◌≤◌, ltb, ◌≡◌, refl, sym, ap, ◌∙◌, arith, min, Bool, true,
  false, ==_self, lt→ltb,
}
use ati_tcp_file_transfer.Base.{
  bytes_eq_self, List, [], ◌++◌, append_assoc, length, get_or, length-take, length-drop, drop,
}
use ati_tcp_file_transfer.Util.Byteorder.{u32_mod, u64_mod}
use ati_tcp_file_transfer.Util.Blake3.{IsStreaming, blake3, update}
use ati_tcp_file_transfer.Proto.Types.{FrameType, type_eq}
use ati_tcp_file_transfer.Proto.Cursor.{Hash}
use ati_tcp_file_transfer.Proto.Decoder.Stream.{frame_of}
use ati_tcp_file_transfer.Proto.Messages.{ManifestMsg, ChunkMsg}
use ati_tcp_file_transfer.Io.Files.{FilePath, Files}
use ati_tcp_file_transfer.Io.FileSink.{FileSink, write_at}
use ati_tcp_file_transfer.Io.FileSink.Succeeds.{write_at-succeeds}
use ati_tcp_file_transfer.Io.ResumeState.{mark_received}
use ati_tcp_file_transfer.Transport.Session.{Session}
use ati_tcp_file_transfer.Transport.Session.Rules.{
  Runs, Runs-pure, Runs-on_files, Runs-bind, Runs-bind_known,
}
use ati_tcp_file_transfer.Transport.Client.Chunks.{slices}
use ati_tcp_file_transfer.Transport.Server.Calls.{Server}
use ati_tcp_file_transfer.Transport.Server.Start.{state_path}
use ati_tcp_file_transfer.Transport.Server.Receive.{
  Progress, more, completed, take_in_order, store_chunk, on_chunk, on_complete, on_chunk_frame,
  on_frame, next_round, receive_loop,
}
use ati_tcp_file_transfer.Transport.Server.Honest.{slice}
use ati_tcp_file_transfer.Transport.Server.Store.{Filled}
use ati_tcp_file_transfer.Transport.Server.Store.Chunks.{written_Filled, saved_Filled}
use ati_tcp_file_transfer.Transport.Transfer.{
  IsTransferable, wire, indices_from, wires_of, file_manifest, chunk_payload, wires_of,
  complete_payload,
}
use ati_tcp_file_transfer.Transport.Transfer.Talks.{Fails, Talks, with_files, recv_any-Succeeds}
use ati_tcp_file_transfer.Transport.Transfer.Fits.{
  n, count-bound, chunk_starts, manifest_honest, decode_chunk-file, chunk_payload_room,
  decode_complete-file, complete_room,
}

pub same_sink :
    (c : List ℕ) (m : ManifestMsg) (dest : FilePath) (x y : FileSink)
    → x ≡ y
    → (in_order : Bool) (next chunks : ℕ) (fs : Files)
    → Filled c m false dest x in_order next chunks fs
    → Filled c m false dest y in_order next chunks fs
same_sink c m dest x y e in_order next chunks fs f = rw (sym e) f

module _ (v : Server) (k : ℕ) (c path : List ℕ) (dest : FilePath) (whole : v.hash.Hasher)
    (ok : IsTransferable k c path) (streaming : IsStreaming v.hash) where
  abbrev m : ManifestMsg
  m = file_manifest v.hash k c path

  -- The loop's variables before the `i`-th chunk, with `left` chunks to come; with these, the hasher
  -- comes to `whole`.
  pub record Before (left i : ℕ) (q : Progress v.hash.Hasher) : Type 0 where
    pub is_open : q.sink.is_open ≡ true
    pub total : q.sink.total_size ≡ length c
    pub in_order : q.all_in_order ≡ true
    pub next : q.next_expected ≡ i
    pub chunks : q.chunks_received ≡ i
    pub bytes : q.bytes_received ≡ min (i * k) (length c)
    pub hashed : foldl (update v.hash) q.inorder_root_hasher (slices k c left i) ≡ whole

  abbrev pub Disk : Progress v.hash.Hasher → Files → Type 0
  Disk q fs = Filled c m false dest q.sink q.all_in_order q.next_expected q.chunks_received fs

  abbrev chunk_of : ℕ → ChunkMsg
  chunk_of i = record { index = i; hash = blake3 v.hash (slice k c i); bytes = slice k c i }

  -- The loop's variables behind a chunk that was stored.
  abbrev after : Progress v.hash.Hasher → ℕ → Progress v.hash.Hasher
  after q i =
      let q' = take_in_order v.hash q (chunk_of i) in
      record {
        state = mark_received q'.state i;
        sink = q'.sink;
        bytes_received = (q'.bytes_received + length (slice k c i)) % u64_mod;
        chunks_received = (q'.chunks_received + 1) % u32_mod;
        inorder_root_hasher = q'.inorder_root_hasher;
        all_in_order = q'.all_in_order;
        next_expected = q'.next_expected;
      }

  Before-after :
      (left i : ℕ) (q : Progress v.hash.Hasher)
      → i < n k c path ok
      → Before (suc left) i q
      → Before left (i + 1) (after q i)
  unfolding take_in_order slices
  Before-after left i q h b =
      let start = chunk_starts k c path ok i h in
      let small = count-bound k c path ok in
      let next : (i + 1) * k ≡ i * k + k = omega arith in
      let size : length (slice k c i) ≡ min k (length c - i * k) =
        length-take k (drop (i * k) c) ∙ ap (min k) (length-drop (i * k) c) in
      rw (b.in_order, b.next, ==_self i)
        (record {
          is_open = b.is_open;
          total = b.total;
          in_order = refl;
          next = omega (arith, h, small);
          chunks = rw (b.chunks) (omega (arith, h, small));
          bytes = omega (arith, b.bytes, size, start, next, ok.fits);
          hashed = b.hashed;
        })

  within_file : (i : ℕ) → i < n k c path ok → i * k + length (slice k c i) ≤ length c
  within_file i h =
      omega
        (arith, chunk_starts k c path ok i h, length-take k (drop (i * k) c), length-drop (i * k) c)

  take_in_order-sink :
      (q : Progress v.hash.Hasher) (chunk : ChunkMsg) → (take_in_order v.hash q chunk).sink ≡ q.sink
  unfolding take_in_order
  take_in_order-sink q chunk = ground arith

  module _ (inc out : List ℕ) (w left i : ℕ) (h : i < n k c path ok) (q : Progress v.hash.Hasher)
      (b : Before (suc left) i q) where
    abbrev q' : Progress v.hash.Hasher
    q' = take_in_order v.hash q (chunk_of i)

    abbrev Here : Session → Type 0
    Here = Talks inc out w (Disk q)

    abbrev Stored : Session → Type 0
    Stored = Talks inc out w (Disk (after q i))

    abbrev NextRound : Progress v.hash.Hasher → Session → Type 0
    NextRound p s = Before left (i + 1) p × Talks inc out w (Disk p) s

    written :
        (fs : Files)
        → Disk q fs
        → ((write_at q'.sink fs (i * k) (slice k c i)).0 ≡ true)
          × ((write_at q'.sink fs (i * k) (slice k c i)).1 ≡ q'.sink)
    written fs d =
        let same = take_in_order-sink q (chunk_of i) in
        write_at-succeeds q'.sink fs (i * k) (slice k c i) d.calm
          (ap (λ (x : FileSink). x.is_open) same ∙ b.is_open) (rw (same, b.total) (within_file i h))
          (rw (same, b.total) ok.fits)

    stored :
        (fs : Files) → Disk q fs → Disk (after q i) (write_at q'.sink fs (i * k) (slice k c i)).2
    stored fs d =
        let (good, kept) = written fs d in
        same_sink c m dest _ q'.sink kept _ _ _ _ (
          written_Filled v c m false dest (manifest_honest k c path ok v.hash streaming) q
            (chunk_of i) fs d (record { index = h; bytes = refl }) good)

    store_chunk-Succeeds :
        Runs Here (store_chunk v m (state_path dest) q' (chunk_of i)) NextRound Fails
    unfolding store_chunk
    store_chunk-Succeeds =
        Runs-bind_known Here Stored NextRound Fails (true, q'.sink) _ _
          (Runs-on_files Here _ Fails _ (λ s t.
            let (good, kept) = written s.files t.files in
            (
              ap (λ (x : Bool). (x, (write_at q'.sink s.files (i * k) (slice k c i)).1)) good
                  ∙ ap (λ (x : FileSink). (true, x)) kept,
              with_files _ _ _ _ _ _ _ t (stored s.files t.files),
            )))
          (Runs-bind Stored NextRound Fails (λ _. Stored) _ _
            (Runs-on_files Stored (λ _. Stored) Fails _
              (λ s t. with_files _ _ _ _ _ _ _ t (
                saved_Filled v c m false dest (manifest_honest k c path ok v.hash streaming) q'.sink
                  _ _ _ (mark_received q'.state i) s.files t.files)))
            (λ _.
              Runs-pure Stored NextRound Fails (after q i) (λ s t. (Before-after left i q h b, t))))

    on_chunk-Succeeds : Runs Here (on_chunk v m (state_path dest) q (chunk_of i)) NextRound Fails
    unfolding on_chunk
    on_chunk-Succeeds =
        let declared : get_or m.chunk_hashes i [] ≡ blake3 v.hash (slice k c i) =
          (manifest_honest k c path ok v.hash streaming).hashes i h in
        let below : ltb i (n k c path ok) ≡ true = lt→ltb i (n k c path ok) h in
        rw (below, declared, bytes_eq_self (blake3 v.hash (slice k c i))) store_chunk-Succeeds

    on_frame-Succeeds :
        Runs Here
          (on_frame v m (state_path dest) q (frame_of FrameType.chunk (chunk_payload v.hash k c i)))
          (λ r s. (p : Progress v.hash.Hasher) × (r ≡ more p) × NextRound p s)
          Fails
    unfolding on_frame on_chunk_frame type_eq
    on_frame-Succeeds = rw (decode_chunk-file k c path ok v.hash streaming i h) (
        Runs-bind Here _ Fails NextRound _ _ on_chunk-Succeeds
          (λ p. Runs-pure (NextRound p) _ Fails (more p) (λ s r. (p, refl, r))))

  abbrev pub Ended : Progress v.hash.Hasher × Hash → List ℕ → List ℕ → ℕ → Session → Type 0
  Ended r rest out w s =
      Before 0 (n k c path ok) r.0 × (r.1 ≡ blake3 v.hash c) × Talks rest out w (Disk r.0) s

  on_complete-Succeeds :
      (inc out : List ℕ) (w : ℕ) (q : Progress v.hash.Hasher)
      → Runs
          (Talks inc out w (Disk q))
          (on_frame v m
            (state_path dest)
            q
            (frame_of FrameType.complete (complete_payload v.hash k c)))
          (λ r s. (r ≡ completed (blake3 v.hash c)) × Talks inc out w (Disk q) s)
          Fails
  unfolding on_frame on_complete type_eq
  on_complete-Succeeds inc out w q =
      rw (decode_complete-file k c path ok v.hash streaming)
        (Runs-pure _ _ Fails _ (λ s t. (refl, t)))

  pub receive_loop-Succeeds :
      (rest out : List ℕ) (w rounds left i : ℕ) (q : Progress v.hash.Hasher)
      → i + left ≡ n k c path ok
      → left < rounds
      → Before left i q
      → Runs
          (Talks
            (wires_of v.hash k c (indices_from left i)
              ++ (wire FrameType.complete (complete_payload v.hash k c) ++ rest))
            out
            w
            (Disk q))
          (receive_loop v m (state_path dest) rounds q)
          (λ r. Ended r rest out w)
          Fails
  unfolding receive_loop next_round wires_of indices_from
  receive_loop-Succeeds rest out w zero left i q all enough b = absurd (omega (arith, enough))
  receive_loop-Succeeds rest out w (suc rounds) zero i q all enough b =
      Runs-bind_known _ (Talks rest out w (Disk q)) _ Fails _ _ _
        (recv_any-Succeeds (Disk q) out w FrameType.complete (complete_payload v.hash k c)
          (complete_room k c path ok v.hash streaming) rest)
        (Runs-bind_known _ (Talks rest out w (Disk q)) _ Fails _ _ _
          (on_complete-Succeeds rest out w q)
          (Runs-pure _ _ Fails _
            (λ s t. let e : i ≡ n k c path ok = omega (arith, all) in (rw (sym e) b, refl, t))))
  receive_loop-Succeeds rest out w (suc rounds) (suc left) i q all enough b =
      let h : i < n k c path ok = omega (arith, all) in
      let others =
        wires_of v.hash k c (indices_from left (i + 1))
        ++ (wire FrameType.complete (complete_payload v.hash k c) ++ rest) in
      let body = wires_of v.hash k c (indices_from left (i + 1)) in
      let first = wire FrameType.chunk (chunk_payload v.hash k c i) in
      rw (append_assoc first body (wire FrameType.complete (complete_payload v.hash k c) ++ rest)) (
        Runs-bind_known _ (Talks others out w (Disk q)) _ Fails _ _ _
          (recv_any-Succeeds (Disk q) out w FrameType.chunk (chunk_payload v.hash k c i)
            (chunk_payload_room k c path ok v.hash streaming i) others)
          (Runs-bind _ _ Fails _ _ _ (on_frame-Succeeds others out w left i h q b) (λ r. record {
            at = λ s (p, same, (b', t)). rw same (
                (receive_loop-Succeeds rest out w rounds left (i + 1) p (omega (arith, all))
                    (omega (arith, enough)) b').at
                  s t);
          })))
