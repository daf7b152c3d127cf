-- ===== src/Transport/Transfer/Sender.antt =====
-- Client::send on what a server writes that asks for some chunks: the file and the first pass.
pub mod Steps
pub mod Sending
use mathlib.Core.List.{foldl}
use ati_tcp_file_transfer.Base.{
  ℕ, zero, suc, ◌+◌, ◌*◌, ◌<◌, ◌≡◌, refl, ap, ◌∙◌, arith, Bool, true, lt→ltb,
}
use ati_tcp_file_transfer.Base.{Option, some, List, [], ◌++◌, map, length}
use ati_tcp_file_transfer.Util.Blake3.{IsStreaming, blake3, update}
use ati_tcp_file_transfer.Proto.Cursor.{Hash}
use ati_tcp_file_transfer.Proto.Messages.{ManifestMsg}
use ati_tcp_file_transfer.Io.Files.{FilePath, Files}
use ati_tcp_file_transfer.Io.FileSource.{FileSource, SourceError, file_source, open_source, read_at}
use ati_tcp_file_transfer.Io.FileSource.Succeeds.{There, open_source-succeeds, read_at-succeeds}
use ati_tcp_file_transfer.Transport.Session.{Session, ◌>>=◌}
use ati_tcp_file_transfer.Transport.Session.Rules.{Runs, Runs-pure, Runs-bind_known}
use ati_tcp_file_transfer.Transport.Client.{
  Client, SendError, read_chunk, hash_pass, hash_pass_failed,
}
use ati_tcp_file_transfer.Transport.Client.Chunks.{slices}
use ati_tcp_file_transfer.Transport.Client.Send.{open_file}
use ati_tcp_file_transfer.Transport.Server.Honest.{slice}
use ati_tcp_file_transfer.Transport.Transfer.{IsTransferable, file_manifest}
use ati_tcp_file_transfer.Transport.Transfer.Talks.{Fails, Talks, on_files-Succeeds}
use ati_tcp_file_transfer.Transport.Transfer.Fits.{n, chunk_starts}

module _ (client : Client) (c path : List ℕ) (source_path : FilePath)
    (ok : IsTransferable client.chunk_size c path) (streaming : IsStreaming client.hash) where
  abbrev pub k : ℕ
  k = client.chunk_size

  abbrev pub count : ℕ
  count = n k c path ok

  abbrev pub m : ManifestMsg
  m = file_manifest client.hash k c path

  abbrev pub opened : FileSource
  opened = record (file_source source_path) { size = length c; is_open = true }

  abbrev pub Source : Files → Type 0
  Source = There source_path c

  abbrev pub hashes : List Hash
  hashes = map (blake3 client.hash) (slices k c count 0)

  module _ (inc out : List ℕ) (w : ℕ) where
    abbrev Here : Session → Type 0
    Here = Talks inc out w Source

    pub open_file-Succeeds : Runs Here (open_file source_path) (λ r s. (r ≡ opened) × Here s) Fails
    unfolding open_file
    open_file-Succeeds =
        Runs-bind_known Here Here _ Fails (true, opened) _ _
          (on_files-Succeeds Source Source inc out w (true, opened) _
            (λ fs t.
              let (good, same, after) = open_source-succeeds source_path fs c t in
              (
                ap (λ (x : Bool). (x, (open_source (file_source source_path) fs).1)) good
                    ∙ ap (λ (x : FileSource). (true, x)) same,
                after,
              )))
          (Runs-pure Here _ Fails opened (λ s t. (refl, t)))

    pub read_chunk-Succeeds :
        (reason : SourceError → SendError) (i : ℕ)
        → i < count
        → Runs Here
            (read_chunk client reason opened i)
            (λ r s. (r ≡ (slice k c i, opened)) × Here s)
            Fails
    unfolding read_chunk
    read_chunk-Succeeds reason i h =
        let start = chunk_starts k c path ok i h in
        Runs-bind_known Here Here _ Fails (some (slice k c i), opened) _ _
          (on_files-Succeeds Source Source inc out w (some (slice k c i), opened) _
            (λ fs t.
              let (got, same, after) =
                read_at-succeeds opened fs (i * k) k c t refl refl (omega (arith, start))
                  (omega (arith, start, ok.fits)) in
              (
                ap (λ (x : Option (List ℕ)). (x, (read_at opened fs (i * k) k).1)) got
                    ∙ ap (λ (x : FileSource). (some (slice k c i), x)) same,
                after,
              )))
          (Runs-bind_known Here Here _ Fails (slice k c i) _ _
            (Runs-pure Here _ Fails (slice k c i) (λ s t. (refl, t)))
            (Runs-pure Here _ Fails (slice k c i, opened) (λ s t. (refl, t))))

    pub hash_pass-Succeeds :
        (left i : ℕ) (hasher : client.hash.Hasher)
        → i + left ≡ count
        → Runs Here
            (hash_pass client opened left i hasher)
            (λ r s.
              (r ≡ (
                map (blake3 client.hash) (slices k c left i),
                foldl (update client.hash) hasher (slices k c left i),
                opened,
              ))
              × Here s)
            Fails
    unfolding hash_pass slices
    hash_pass-Succeeds zero i hasher all = Runs-pure Here _ Fails _ (λ s t. (refl, t))
    hash_pass-Succeeds (suc left) i hasher all =
        Runs-bind_known Here Here _ Fails (slice k c i, opened) _ _
          (read_chunk-Succeeds hash_pass_failed i (omega (arith, all)))
          (Runs-bind_known Here Here _ Fails _ _ _
            (hash_pass-Succeeds left (i + 1) (update client.hash hasher (slice k c i))
              (omega (arith, all)))
            (Runs-pure Here _ Fails _ (λ s t. (refl, t))))
