-- ===== src/Transport/Transfer/Resume/Checks.antt =====
-- Server::handle_session_ on the missing chunks of a file that a transfer that was cut off has left: the
-- checks behind the loop.
use ati_tcp_file_transfer.Base.{ℕ, ◌/◌, ◌<◌, ◌≡◌, refl, ap, ◌∙◌, arith, Bool, true}
use ati_tcp_file_transfer.Base.{bytes_eq_self, some, List, []}
use ati_tcp_file_transfer.Util.Blake3.{IsStreaming, blake3}
use ati_tcp_file_transfer.Io.Files.{FilePath, Files}
use ati_tcp_file_transfer.Io.Files.Calm.{IsCalm}
use ati_tcp_file_transfer.Io.FileSink.{FileSink, with_partial_suffix, partial_path}
use ati_tcp_file_transfer.Io.FileSink
use ati_tcp_file_transfer.Io.FileSink.Others.{flush-others}
use ati_tcp_file_transfer.Io.FileSink.Calm.{flush_sink-IsCalm}
use ati_tcp_file_transfer.Io.FileSink.Succeeds.{flush-succeeds, open_existing-succeeds}
use ati_tcp_file_transfer.Io.ResumeState.{complete}
use ati_tcp_file_transfer.Io.ResumeState.Laws.{complete-missing, complete-is_set}
use ati_tcp_file_transfer.Transport.Session.{Session}
use ati_tcp_file_transfer.Transport.Session.Rules.{Runs, Runs-pure, Runs-bind_known}
use ati_tcp_file_transfer.Transport.Server.Calls.{Server}
use ati_tcp_file_transfer.Transport.Server.Receive.{Progress}
use ati_tcp_file_transfer.Transport.Server.Finish.{
  check_inventory, root_hash, check_root_hash, hash_file,
}
use ati_tcp_file_transfer.Transport.Server.ReadBack.{hash_file-reads, read_bytes_whole}
use ati_tcp_file_transfer.Transport.Transfer.{IsTransferable, file_manifest}
use ati_tcp_file_transfer.Transport.Transfer.Talks.{Fails, Talks, with_files, on_files-Succeeds}
use ati_tcp_file_transfer.Transport.Transfer.Fits.{n, chunk_count-covers}
use ati_tcp_file_transfer.Transport.Transfer.Receiver.Body.{Received}
use ati_tcp_file_transfer.Transport.Transfer.Resume.{Holds, same_bytes, below_count}
use ati_tcp_file_transfer.Transport.Transfer.Resume.Store.{Going, Partial}

module _ (v : Server) (k : ℕ) (c path : List ℕ) (dest : FilePath) (ok : IsTransferable k c path)
    (streaming : IsStreaming v.hash) (q : Progress v.hash.Hasher)
    (g : Going v k c path dest ok streaming [] q) where
  -- With all chunks set, the partial file is the file.
  content_whole : (content : List ℕ) → Holds k c q.state content → content ≡ c
  content_whole content holds = same_bytes content c holds.size (λ j below.
      let all = (complete-missing q.state).1 g.missing in
      let covered = chunk_count-covers k c path ok in
      let index : j / k < q.state.chunk_count = omega (
        arith,
        below_count j k (n k c path ok) ok.pos (omega (arith, below, covered)),
        g.steady.count,
      ) in
      holds.agrees j below (complete-is_set q.state (j / k) all index))

  pub check_inventory-resumes :
      (P : Session → Type 0)
      → Runs P
          (check_inventory v (file_manifest v.hash k c path) true q)
          (λ r s. (r ≡ tt) × P s)
          Fails
  unfolding check_inventory
  check_inventory-resumes P =
      let all : complete q.state ≡ true = (complete-missing q.state).1 g.missing in
      rw all (Runs-pure P _ Fails tt (λ s t. (refl, t)))

  pub whole_file :
      (fs : Files)
      → Partial v k c path dest ok streaming q.state fs
      → Received v k c path dest ok streaming q.sink fs
  whole_file fs d = (d.calm, g.steady.sink_of, d.there ∙ ap some (content_whole d.content d.holds))

  module _ (inc out : List ℕ) (w : ℕ) where
    abbrev Whole : Session → Type 0
    Whole = Talks inc out w (Received v k c path dest ok streaming q.sink)

    at_partial :
        (fs : Files)
        → Received v k c path dest ok streaming q.sink fs
        → fs.contents (partial_path q.sink) ≡ some c
    at_partial fs (calm, final, there) =
        ap (λ (p : FilePath). fs.contents (with_partial_suffix p)) final ∙ there

    same_files :
        (fs fs' : Files)
        → fs'.contents ≡ fs.contents
        → IsCalm fs'
        → Received v k c path dest ok streaming q.sink fs
        → Received v k c path dest ok streaming q.sink fs'
    same_files fs fs' same calm (_, final, there) =
        (calm, final, ap (λ f. f (with_partial_suffix dest)) same ∙ there)

    flushes :
        (fs : Files)
        → Received v k c path dest ok streaming q.sink fs
        → (◌≡◌ {A = Bool × FileSink}
            ((FileSink.flush q.sink fs).0, (FileSink.flush q.sink fs).1)
            (true, q.sink))
          × Received v k c path dest ok streaming q.sink (FileSink.flush q.sink fs).2
    flushes fs r =
        let (good, kept) = flush-succeeds q.sink fs r.0 in
        (
          ap (λ (x : Bool). (x, (FileSink.flush q.sink fs).1)) good
              ∙ ap (λ (x : FileSink). (true, x)) kept,
          same_files fs _ (flush-others q.sink fs) (flush_sink-IsCalm q.sink fs r.0) r,
        )

    hash_file-Succeeds :
        Runs Whole
          (hash_file v.hash (partial_path q.sink))
          (λ hash s. (hash ≡ blake3 v.hash c) × Whole s)
          Fails
    hash_file-Succeeds =
        hash_file-reads v.hash (partial_path q.sink) c Whole Fails
          (λ s t. at_partial s.files t.files)
          (λ s t offset size.
            let (got, same, calm) =
              read_bytes_whole s.files (partial_path q.sink) offset size c
                (at_partial s.files t.files) t.files.0 in
            (got, with_files _ _ _ _ _ _ _ t (same_files s.files _ same calm t.files)))
          streaming

    -- The root hash is read back from the partial file.
    pub root_hash-resumes :
        Runs Whole (root_hash v q) (λ r s. (r ≡ (blake3 v.hash c, q.sink)) × Whole s) Fails
    unfolding root_hash
    root_hash-resumes = rw (g.in_order) (
        Runs-bind_known _ Whole _ Fails (true, q.sink) _ _
          (on_files-Succeeds _ (Received v k c path dest ok streaming q.sink) inc out w _ _ flushes)
          (Runs-bind_known _ Whole _ Fails true _ _
            (on_files-Succeeds _ (Received v k c path dest ok streaming q.sink) inc out w _ _
              (λ fs r.
                let (good, same, calm) =
                  open_existing-succeeds fs (partial_path q.sink) c r.0 (at_partial fs r) in
                (good, same_files fs _ same calm r)))
            (Runs-bind_known _ Whole _ Fails (blake3 v.hash c) _ _ hash_file-Succeeds
              (Runs-pure _ _ Fails _ (λ s t. (refl, t))))))

    pub check_root_hash-resumes :
        Runs Whole
          (check_root_hash v (file_manifest v.hash k c path) (blake3 v.hash c) (blake3 v.hash c))
          (λ r s. (r ≡ tt) × Whole s)
          Fails
    unfolding check_root_hash
    check_root_hash-resumes =
        rw (bytes_eq_self (blake3 v.hash c)) (Runs-pure Whole _ Fails tt (λ s t. (refl, t)))
