-- ===== src/Transport/Transfer/CutOff/Closing.antt =====
-- The parts of a session behind the loop over the chunks: they leave what is resumable, or the file in
-- place and no state.
use ati_tcp_file_transfer.Base.{
  ℕ, ◌≡◌, inl, inr, refl, ap, ◌∙◌, not, Bool, true, ◌==◌, bytes_eq, some, List,
}
use ati_tcp_file_transfer.Util.Blake3.{IsStreaming}
use ati_tcp_file_transfer.Proto.Cursor.{Hash}
use ati_tcp_file_transfer.Proto.Messages.{ManifestMsg}
use ati_tcp_file_transfer.Io.Files.{FilePath, Files}
use ati_tcp_file_transfer.Io.Files.Calm.{IsCalm, remove-IsCalm}
use ati_tcp_file_transfer.Io.FileSink.{FileSink, with_partial_suffix, partial_path}
use ati_tcp_file_transfer.Io.FileSink
use ati_tcp_file_transfer.Io.FileSink.Others.{flush-others}
use ati_tcp_file_transfer.Io.FileSink.Calm.{flush_sink-IsCalm}
use ati_tcp_file_transfer.Io.FileSink.Succeeds.{
  flush-succeeds, open_existing-succeeds, finalize-succeeds, finalize-IsCalm, remove-gone,
}
use ati_tcp_file_transfer.Io.ResumeState.{complete}
use ati_tcp_file_transfer.Io.ResumeState.Save.{remove}
use ati_tcp_file_transfer.Transport.Session.{Session}
use ati_tcp_file_transfer.Transport.Session.Rules.{
  Runs, Runs-pure, Runs-if, Runs-on_files, Runs-bind, Runs-bind_known, Runs-after,
}
use ati_tcp_file_transfer.Transport.Server.Calls.{Server, Failure, reject}
use ati_tcp_file_transfer.Transport.Server.Start.{state_path, on_sink}
use ati_tcp_file_transfer.Transport.Server.Receive.{Progress}
use ati_tcp_file_transfer.Transport.Server.Finish.{
  check_inventory, hash_file, root_hash, check_root_hash, commit, acknowledge,
}
use ati_tcp_file_transfer.Transport.Server.Text.{Text}
use ati_tcp_file_transfer.Transport.Server.ReadBack.{hash_file-reads, read_bytes_whole}
use ati_tcp_file_transfer.Transport.Server.Safety.{send_keeps_files}
use ati_tcp_file_transfer.Transport.Server.Honest.{IsBinding}
use ati_tcp_file_transfer.Transport.Transfer.{IsTransferable, file_manifest}
use ati_tcp_file_transfer.Transport.Transfer.CutOff.{Resumable, Storing}
use ati_tcp_file_transfer.Transport.Transfer.CutOff.Loop.{Stores, CutOff, rejects}

module _ (v : Server) (k : ℕ) (c path : List ℕ) (dest : FilePath) (ok : IsTransferable k c path)
    (streaming : IsStreaming v.hash)
    (binding : IsBinding v.hash c (file_manifest v.hash k c path)) where
  abbrev m : ManifestMsg
  m = file_manifest v.hash k c path

  abbrev Early : Failure → Session → Type 0
  Early = CutOff v k c path dest ok streaming binding

  abbrev Done : Session → Type 0
  Done s = Resumable v k c path dest ok streaming s.files

  module _ (q : Progress v.hash.Hasher) where
    abbrev Here : Session → Type 0
    Here = Stores v k c path dest ok streaming binding q

    stops :
        {A : Type 0} (Q : A → Session → Type 0) (code : ℕ) (text : Text)
        → Runs Here (reject {A = A} v code text) Q Early
    stops Q code text = rejects v k c path dest ok streaming binding q Q code text

    same_files :
        (fs fs' : Files)
        → fs'.contents ≡ fs.contents
        → IsCalm fs'
        → Storing v k c path dest ok streaming q fs
        → Storing v k c path dest ok streaming q fs'
    same_files fs fs' same calm d = record {
      steady = d.steady;
      id = d.id;
      partial = record {
        calm = calm;
        content = d.partial.content;
        there = ap (λ f. f (with_partial_suffix dest)) same ∙ d.partial.there;
        holds = d.partial.holds;
      };
      saved = elim (d.saved) [
        | inl nothing ↦ inl (ap (λ f. f (state_path dest)) same ∙ nothing)
        | inr there ↦ inr (ap (λ f. f (state_path dest)) same ∙ there)
      ];
    }

    at_partial :
        (fs : Files)
        → (d : Storing v k c path dest ok streaming q fs)
        → fs.contents (partial_path q.sink) ≡ some d.partial.content
    at_partial fs d =
        ap (λ (p : FilePath). fs.contents (with_partial_suffix p)) d.steady.sink_of
        ∙ d.partial.there

    pub check_inventory-Stores :
        (resume : Bool) → Runs Here (check_inventory v m resume q) (λ _. Here) Early
    unfolding check_inventory
    check_inventory-Stores resume =
        let Q : Unit {0} → Session → Type 0 = λ _. Here in
        let passed = Runs-pure Here Q Early tt (λ s d. d) in
        Runs-if Here Q Early resume _ _
          (λ _. Runs-if Here Q Early (not (complete q.state)) _ _ (λ _. stops Q _ _) (λ _. passed))
          (λ _.
            Runs-if Here Q Early (not (q.bytes_received == m.file_size)) _ _ (λ _. stops Q _ _)
              (λ _.
                Runs-if Here Q Early (not (q.chunks_received == m.chunk_count)) _ _
                  (λ _. stops Q _ _) (λ _. passed)))

    flush-Stores :
        Runs {E = Failure} Here
          (on_sink (FileSink.flush q.sink))
          (λ r s. (r ≡ (true, q.sink)) × Here s)
          Early
    flush-Stores = Runs-on_files Here _ Early _ (λ s d.
        let (good, same) = flush-succeeds q.sink s.files d.partial.calm in
        (
          ap (λ (x : Bool). (x, (FileSink.flush q.sink s.files).1)) good
              ∙ ap (λ (x : FileSink). (true, x)) same,
          same_files s.files _ (flush-others q.sink s.files)
              (flush_sink-IsCalm q.sink s.files d.partial.calm) d,
        ))

    hash_file-Stores : Runs Here (hash_file v.hash (partial_path q.sink)) (λ _. Here) Early
    hash_file-Stores = record {
      at = λ s d.
          let w = d.partial.content in
          let P : Session → Type 0 =
            λ s'. Here s' × (s'.files.contents (partial_path q.sink) ≡ some w) in
          (Runs-after P _ (λ _. Here) Early _ (λ hash s' (_, (d', _)). d')
              (hash_file-reads v.hash (partial_path q.sink) w P Early (λ s' p. p.1)
                (λ s' (d', there) offset size.
                  let (got, same, calm) =
                    read_bytes_whole s'.files (partial_path q.sink) offset size w there
                      d'.partial.calm in
                  (
                    got,
                    (
                      same_files s'.files _ same calm d',
                      ap (λ f. f (partial_path q.sink)) same ∙ there,
                    ),
                  ))
                streaming)).at
            s (d, at_partial s.files d);
    }

    pub root_hash-Stores : Runs Here (root_hash v q) (λ r s. (r.1 ≡ q.sink) × Here s) Early
    unfolding root_hash
    root_hash-Stores =
        let Q : Hash × FileSink → Session → Type 0 = λ r s. (r.1 ≡ q.sink) × Here s in
        Runs-if Here Q Early q.all_in_order _ _ (λ _. Runs-pure Here Q Early _ (λ s d. (refl, d)))
          (λ _.
            Runs-bind_known Here Here Q Early (true, q.sink) _ _ flush-Stores
              (Runs-bind_known Here Here Q Early true _ _
                (Runs-on_files Here _ Early _ (λ s d.
                  let (good, same, calm) =
                    open_existing-succeeds s.files (partial_path q.sink) _ d.partial.calm
                      (at_partial s.files d) in
                  (good, same_files s.files _ same calm d)))
                (Runs-bind Here Q Early (λ _. Here) _ _ hash_file-Stores
                  (λ hash. Runs-pure Here Q Early _ (λ s d. (refl, d))))))

    pub check_root_hash-Stores :
        (actual final : Hash) → Runs Here (check_root_hash v m actual final) (λ _. Here) Early
    unfolding check_root_hash
    check_root_hash-Stores actual final =
        let Q : Unit {0} → Session → Type 0 = λ _. Here in
        Runs-if Here Q Early (not (bytes_eq actual m.root_hash)) _ _ (λ _. stops Q _ _)
          (λ _.
            Runs-if Here Q Early (not (bytes_eq actual final)) _ _ (λ _. stops Q _ _)
              (λ _. Runs-pure Here Q Early tt (λ s d. d)))

    pub commit-Resumable : Runs Here (commit v q.sink (state_path dest)) (λ _. Done) Early
    unfolding commit remove
    commit-Resumable =
        let Q : Unit {0} → Session → Type 0 = λ _. Done in
        let Quiet : Session → Type 0 = λ s. IsCalm s.files in
        Runs-bind_known Here Here Q Early (true, q.sink) _ _ flush-Stores
          (Runs-bind Here Q Early (λ (r : Bool × FileSink) s. (r.0 ≡ true) × Quiet s) _ _
            (Runs-on_files Here _ Early _ (λ s d. (
              finalize-succeeds q.sink s.files _ d.partial.calm (at_partial s.files d),
              finalize-IsCalm q.sink s.files d.partial.calm,
            )))
            (λ (finalized, closed). record {
              at = λ s (good, calm). rw good (
                  (Runs-bind Quiet Q Early (λ _. Done) _ _
                      (Runs-on_files Quiet (λ _. Done) Early _
                        (λ s' calm'. record {
                          calm = remove-IsCalm s'.files (state_path dest) calm';
                          begun = inl (remove-gone s'.files (state_path dest) calm');
                        }))
                      (λ _. Runs-pure Done Q Early tt (λ s' d. d))).at
                    s calm);
            }))

  pub acknowledge-Resumable : Runs Done (acknowledge m) (λ _. Done) Early
  unfolding acknowledge
  acknowledge-Resumable =
      send_keeps_files (Resumable v k c path dest ok streaming) Done (λ s d. d) _ _
