-- ===== src/Transport/Transfer/Receiver.antt =====
-- Server::handle_session_ on what a client writes for a file: the destination, up to REQ_CHUNKS.
pub mod Body
pub mod Whole
use ati_tcp_file_transfer.Base.{
  ℕ, zero, suc, ◌+◌, ◌%◌, ◌≤◌, ◌≡◌, refl, ap, ◌∙◌, arith, Bool, true, false, ==_self,
}
use ati_tcp_file_transfer.Base.{none, List, [], ◌∷◌, ◌++◌, length}
use ati_tcp_file_transfer.Util.Blake3.{IsStreaming}
use ati_tcp_file_transfer.Proto.Types.{FrameType}
use ati_tcp_file_transfer.Proto.Messages.{ManifestMsg}
use ati_tcp_file_transfer.Io.Files.{FilePath, Files}
use ati_tcp_file_transfer.Io.Files.Calm.{IsCalm, remove-IsCalm}
use ati_tcp_file_transfer.Io.FileSink.{FileSink, file_sink, open_sink}
use ati_tcp_file_transfer.Io.FileSink
use ati_tcp_file_transfer.Io.FileSink.Laws.{open_sink-is_open}
use ati_tcp_file_transfer.Io.FileSink.Calm.{load-IsCalm}
use ati_tcp_file_transfer.Io.FileSink.Succeeds.{open_sink-succeeds, load_nothing, remove-gone}
use ati_tcp_file_transfer.Io.ResumeState.{ResumeState, resume_state, missing, missing_from}
use ati_tcp_file_transfer.Io.ResumeState.Laws.{is_set-resume_state}
use ati_tcp_file_transfer.Io.ResumeState.Save.{remove}
use ati_tcp_file_transfer.Transport.Session.Rules.{Runs, Runs-pure, Runs-bind_known, Runs-after}
use ati_tcp_file_transfer.Transport.Server.Calls.{Server}
use ati_tcp_file_transfer.Transport.Server.Start.{
  state_path, manifest_id, matching, load_state, open_dest, request_chunks,
}
use ati_tcp_file_transfer.Transport.Server.Store.{Filled}
use ati_tcp_file_transfer.Transport.Server.Integrity.File.{opened_fresh}
use ati_tcp_file_transfer.Transport.Transfer.{
  IsTransferable, wire, indices_from, file_manifest, request_payload,
}
use ati_tcp_file_transfer.Transport.Transfer.Talks.{Fails, Talks, on_files-Succeeds, send-Succeeds}
use ati_tcp_file_transfer.Transport.Transfer.Fits.{n, manifest_honest, request_room, all-AreChunks}
use ati_tcp_file_transfer.Transport.Transfer.Chunks.{same_sink}

-- Nothing of a fresh state is there, so that all chunks are missing.
missing_from-fresh :
    (id : List ℕ) (count rounds i : ℕ)
    → missing_from (resume_state id count) rounds i ≡ indices_from rounds i
unfolding missing_from indices_from
missing_from-fresh id count zero i = refl
missing_from-fresh id count (suc rounds) i =
    rw (is_set-resume_state id count i)
      (ap (λ t. i ∷ t) (missing_from-fresh id count rounds (i + 1)))

missing-fresh : (id : List ℕ) (count : ℕ) → missing (resume_state id count) ≡ indices_from count 0
unfolding missing resume_state
missing-fresh id count = missing_from-fresh id count count 0

module _ (v : Server) (k : ℕ) (c path : List ℕ) (dest : FilePath) (ok : IsTransferable k c path)
    (streaming : IsStreaming v.hash) where
  abbrev pub m : ManifestMsg
  m = file_manifest v.hash k c path

  abbrev pub count : ℕ
  count = n k c path ok

  abbrev pub opened : FileSink
  opened = record (file_sink dest) { is_open = true; total_size = length c }

  abbrev pub fresh : ResumeState
  fresh = resume_state (manifest_id v m) count

  module _ (inc out : List ℕ) (w : ℕ) where
    -- There is no saved state, and no call will fail.
    abbrev pub Fresh : Files → Type 0
    Fresh fs = IsCalm fs × (fs.contents (state_path dest) ≡ none)

    pub load_state-Succeeds :
        Runs
          (Talks inc out w Fresh)
          (load_state v m dest)
          (λ r s. (r ≡ (fresh, false)) × Talks inc out w Fresh s)
          Fails
    unfolding load_state matching remove
    load_state-Succeeds =
        Runs-bind_known _ (Talks inc out w IsCalm) _ Fails none _ _
          (on_files-Succeeds _ IsCalm inc out w none _ (λ fs (calm, absent).
            (load_nothing fs (state_path dest) absent, load-IsCalm fs (state_path dest) calm)))
          (Runs-bind_known _ (Talks inc out w Fresh) _ Fails tt _ _
            (on_files-Succeeds IsCalm Fresh inc out w tt _ (λ fs calm. (
              refl,
              (remove-IsCalm fs (state_path dest) calm, remove-gone fs (state_path dest) calm),
            )))
            (Runs-pure _ _ Fails _ (λ s t. (refl, t))))

    abbrev pub Opened : Files → Type 0
    Opened fs = Filled c m false dest opened true 0 0 fs

    opens :
        (fs : Files)
        → IsCalm fs
        → (◌≡◌ {A = Bool × FileSink}
            (
              (open_sink (file_sink dest) fs (length c) false).0,
              (open_sink (file_sink dest) fs (length c) false).1,
            )
            (true, opened))
          × Opened (open_sink (file_sink dest) fs (length c) false).2
    opens fs calm =
        let good = (open_sink-succeeds dest fs (length c) calm ok.fits).0 in
        let same = open_sink-is_open (file_sink dest) fs (length c) false good in
        (
          ap (λ (x : Bool). (x, (open_sink (file_sink dest) fs (length c) false).1)) good
              ∙ ap (λ (x : FileSink). (true, x)) same,
          same_sink c m dest _ opened same _ _ _ _
              (opened_fresh v c m dest (manifest_honest k c path ok v.hash streaming) fs calm good),
        )

    pub open_dest-Succeeds :
        Runs
          (Talks inc out w Fresh)
          (open_dest v m dest false)
          (λ sink s. (sink ≡ opened) × Talks inc out w Opened s)
          Fails
    unfolding open_dest
    open_dest-Succeeds =
        Runs-bind_known _ (Talks inc out w Opened) _ Fails (true, opened) _ _
          (on_files-Succeeds Fresh Opened inc out w (true, opened) _ (λ fs f. opens fs f.0))
          (Runs-pure _ _ Fails _ (λ s t. (refl, t)))

    pub request_chunks-Succeeds :
        (F : Files → Type 0)
        → Runs
            (Talks inc out (suc w) F)
            (request_chunks fresh)
            (λ r s.
              (r ≡ tt)
              × Talks inc
                  (out ++ wire FrameType.req_chunks (request_payload (indices_from count 0)))
                  w
                  F
                  s)
            Fails
    unfolding request_chunks
    request_chunks-Succeeds F = rw (missing-fresh (manifest_id v m) count) (
        Runs-after _ _ _ Fails _ (λ _ s t. (refl, t))
          (send-Succeeds F out w FrameType.req_chunks (request_payload (indices_from count 0))
            (request_room k c path ok (indices_from count 0) (all-AreChunks count).few) inc))
