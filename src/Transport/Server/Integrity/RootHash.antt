-- ===== src/Transport/Server/Integrity/RootHash.antt =====
-- The root hash, the start of a session and the whole of it, on the manifest of a file.
use ati_tcp_file_transfer.Base.{ℕ, ◌≡◌, ◌⊎◌, refl, sym, ap, ◌∙◌, not, Bool, false}
use ati_tcp_file_transfer.Base.{Bool-cases, inl, inr, some, List}
use ati_tcp_file_transfer.Util.Blake3.{Blake3, IsStreaming, blake3}
use ati_tcp_file_transfer.Proto.Cursor.{Hash}
use ati_tcp_file_transfer.Proto.Messages.{ManifestMsg}
use ati_tcp_file_transfer.Io.Files.{FilePath}
use ati_tcp_file_transfer.Io.Files.Calm.{open_existing-IsCalm}
use ati_tcp_file_transfer.Io.Files.Laws.{open_existing-contents}
use ati_tcp_file_transfer.Io.FileSink.{FileSink, with_partial_suffix, partial_path}
use ati_tcp_file_transfer.Io.FileSink.Others.{flush-final_path, flush-others}
use ati_tcp_file_transfer.Io.FileSink.Calm.{flush_sink-IsCalm}
use ati_tcp_file_transfer.Transport.Session.{Session, pure, ◌>>=◌}
use ati_tcp_file_transfer.Transport.Session.Rules.{
  Runs, Runs-pure, Runs-if, Runs-on_files, Runs-bind, Runs-before,
}
use ati_tcp_file_transfer.Transport.Server.Calls.{Server}
use ati_tcp_file_transfer.Transport.Server.Receive.{Progress}
use ati_tcp_file_transfer.Transport.Server.Finish.{hash_file, root_hash}
use ati_tcp_file_transfer.Transport.Server.Keeps.{SinkOf}
use ati_tcp_file_transfer.Transport.Server.ReadBack.{Never, HasBytes, hash_file-Runs}
use ati_tcp_file_transfer.Transport.Server.Honest.{IsManifestOf, IsBinding}
use ati_tcp_file_transfer.Transport.Server.Store.{rejects}
use ati_tcp_file_transfer.Transport.Server.Integrity.{Checked}

-- The partial file is the file, or the hash is that of the partial file.
pub record Hashed (b : Blake3) (c : List ℕ) (dest : FilePath) (r : Hash × FileSink) (s : Session)
    : Type 0 where
  pub sink_of : SinkOf dest r.1
  pub content : List ℕ
  pub there : s.files.contents (with_partial_suffix dest) ≡ some content
  pub origin : (content ≡ c) ⊎ (r.0 ≡ blake3 b content)

module _ (v : Server) (c : List ℕ) (dest : FilePath) (streaming : IsStreaming v.hash) where
  read_back :
      (w : List ℕ) (sink : FileSink)
      → SinkOf dest sink
      → Runs
          (HasBytes (with_partial_suffix dest) w)
          (hash_file v.hash (partial_path sink) >>= λ hash. pure (hash, sink))
          (Hashed v.hash c dest)
          Never
  read_back w sink good =
      let path : partial_path sink ≡ with_partial_suffix dest = ap with_partial_suffix good in
      Runs-bind (HasBytes (with_partial_suffix dest) w) (Hashed v.hash c dest) Never
        (λ hash s. (hash ≡ blake3 v.hash w) × HasBytes (partial_path sink) w s) _ _
        (Runs-before (HasBytes (partial_path sink) w) _ _ Never _
          (λ s (there, calm). (ap s.files.contents path ∙ there, calm))
          (hash_file-Runs v.hash (partial_path sink) w streaming))
        λ hash.
          Runs-pure _ (Hashed v.hash c dest) Never (hash, sink)
            (λ s (same, (there, calm)). record {
              sink_of = good;
              content = w;
              there = ap s.files.contents (sym path) ∙ there;
              origin = inr same;
            })

  abbrev Sunk : List ℕ → FileSink → Session → Type 0
  Sunk w sink s = SinkOf dest sink × HasBytes (with_partial_suffix dest) w s

  from_disk :
      (w : List ℕ) (q : Progress v.hash.Hasher)
      → q.all_in_order ≡ false
      → Runs (Sunk w q.sink) (root_hash v q) (Hashed v.hash c dest) Never
  unfolding root_hash
  from_disk w q e =
      let Q = Hashed v.hash c dest in
      rw e (
        Runs-bind (Sunk w q.sink) Q Never (λ (r : Bool × FileSink). Sunk w r.1) _ _
          (Runs-on_files (Sunk w q.sink) (λ (r : Bool × FileSink). Sunk w r.1) Never _
            (λ s (good, (there, calm)). (
              flush-final_path q.sink s.files ∙ good,
              (
                ap (λ f. f (with_partial_suffix dest)) (flush-others q.sink s.files) ∙ there,
                flush_sink-IsCalm q.sink s.files calm,
              ),
            )))
          λ (flushed, sink).
            Runs-if (Sunk w sink) Q Never (not flushed) _ _ (λ _. rejects (Sunk w sink) Q v _ _)
              λ _.
                Runs-bind (Sunk w sink) Q Never (λ _. Sunk w sink) _ _
                  (Runs-on_files (Sunk w sink) (λ _. Sunk w sink) Never _
                    (λ s (good, (there, calm)). (
                      good,
                      (
                        (λ i.
                              open_existing-contents s.files (partial_path sink) i
                                (with_partial_suffix dest))
                            ∙ there,
                        open_existing-IsCalm s.files (partial_path sink) calm,
                      ),
                    )))
                  λ reopened.
                    Runs-if (Sunk w sink) Q Never (not reopened) _ _
                      (λ _. rejects (Sunk w sink) Q v _ _)
                      λ _. record { at = λ s (good, has). (read_back w sink good).at s has })

  pub root_hash-Runs :
      (resume : Bool) (m : ManifestMsg) (honest : IsManifestOf v.hash c m)
      (binding : IsBinding v.hash c m) (q : Progress v.hash.Hasher)
      → Runs
          (λ s. Checked v c m dest honest binding resume q.sink q.all_in_order s.files)
          (root_hash v q)
          (Hashed v.hash c dest)
          Never
  unfolding root_hash
  root_hash-Runs resume m honest binding q = elim (Bool-cases q.all_in_order) [
    | inl e ↦ rw e (
        Runs-pure _ (Hashed v.hash c dest) Never _ (λ s k. record {
          sink_of = k.sink_of;
          content = k.content;
          there = k.there;
          origin = inl (k.whole refl);
        }))
    | inr e ↦ record { at = λ s k. (from_disk k.content q e).at s (k.sink_of, (k.there, k.calm)) }
  ]
