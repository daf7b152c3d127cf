-- ===== src/Transport/Transfer/CutOff.antt =====
-- Server::handle_session_ on a transfer that may be cut off anywhere: what it leaves on the disk.
pub mod Hears
pub mod Opening
pub mod Loop
pub mod Closing
pub mod Whole
pub mod Delivery
use ati_tcp_file_transfer.Base.{ℕ, ◌<◌, ◌≡◌, ◌⊎◌, inl, inr, ap, ◌∙◌, arith, none, some, List}
use ati_tcp_file_transfer.Util.Blake3.{IsStreaming}
use ati_tcp_file_transfer.Proto.Messages.{ManifestMsg}
use ati_tcp_file_transfer.Io.Files.{FilePath, Files}
use ati_tcp_file_transfer.Io.Files.Calm.{IsCalm}
use ati_tcp_file_transfer.Io.FileSink.Succeeds.{save-succeeds}
use ati_tcp_file_transfer.Io.ResumeState.{ResumeState, mark_received, serialize}
use ati_tcp_file_transfer.Io.ResumeState.Save.{save}
use ati_tcp_file_transfer.Io.ResumeState.Save.Laws.{save_sound}
use ati_tcp_file_transfer.Transport.Server.Calls.{Server}
use ati_tcp_file_transfer.Transport.Server.Start.{state_path, manifest_id}
use ati_tcp_file_transfer.Transport.Server.Receive.{Progress}
use ati_tcp_file_transfer.Transport.Transfer.{IsTransferable, file_manifest}
use ati_tcp_file_transfer.Transport.Transfer.Resume.Store.{Steady, Partial, saved}
use ati_tcp_file_transfer.Transport.Transfer.Resume.Start.{IsLeft, IsStateOf}

mark_received-manifest_id :
    (s : ResumeState) (i : ℕ) → (mark_received s i).manifest_id ≡ s.manifest_id
unfolding mark_received
mark_received-manifest_id s i = ground arith

module _ (v : Server) (k : ℕ) (c path : List ℕ) (dest : FilePath) (ok : IsTransferable k c path)
    (streaming : IsStreaming v.hash) where
  abbrev m : ManifestMsg
  m = file_manifest v.hash k c path

  -- What a transfer of the file has left that was cut off: a saved state with its partial file.
  pub record Begun (fs : Files) : Type 0 where
    pub state : ResumeState
    pub state_of : IsStateOf v k c path dest ok streaming state
    pub left : IsLeft v k c path dest ok streaming state fs

  -- No call will fail, and a transfer of the file can begin, or go on.
  pub record Resumable (fs : Files) : Type 0 where
    pub calm : IsCalm fs
    pub begun : (fs.contents (state_path dest) ≡ none) ⊎ Begun fs

  -- The disk while the chunks of a file arrive: what is saved is the state of the loop, if anything.
  pub record Storing (q : Progress v.hash.Hasher) (fs : Files) : Type 0 where
    pub steady : Steady v k c path dest ok streaming q
    pub id : q.state.manifest_id ≡ manifest_id v m
    pub partial : Partial v k c path dest ok streaming q.state fs
    pub saved :
        (fs.contents (state_path dest) ≡ none)
        ⊎ (fs.contents (state_path dest) ≡ some (serialize q.state))

  pub Storing-Resumable : (q : Progress v.hash.Hasher) (fs : Files) → Storing q fs → Resumable fs
  Storing-Resumable q fs d = record {
    calm = d.partial.calm;
    begun = elim (d.saved) [
      | inl nothing ↦ inl nothing
      | inr there ↦ inr (record {
        state = q.state;
        state_of = record { valid = d.steady.valid; id = d.id; chunks = d.steady.count };
        left = record { saved = there; partial = d.partial };
      })
    ];
  }

  -- The save of the state behind a chunk that was written.
  pub saved_Storing :
      (p : Progress v.hash.Hasher) (fs : Files)
      → Steady v k c path dest ok streaming p
      → p.state.manifest_id ≡ manifest_id v m
      → Partial v k c path dest ok streaming p.state fs
      → Storing p (save p.state fs (state_path dest)).1
  saved_Storing p fs steady id partial =
      let good = save-succeeds p.state fs (state_path dest) partial.calm in
      record {
        steady = steady;
        id = id;
        partial = saved v k c path dest ok streaming p.state p.state fs partial;
        saved = inr (save_sound p.state fs (state_path dest) partial.calm good);
      }

  pub id-marked :
      (q p : Progress v.hash.Hasher) (i : ℕ)
      → p.state ≡ mark_received q.state i
      → q.state.manifest_id ≡ manifest_id v m
      → p.state.manifest_id ≡ manifest_id v m
  id-marked q p i same id =
      ap (λ (s : ResumeState). s.manifest_id) same ∙ mark_received-manifest_id q.state i ∙ id
