-- ===== src/Transport/Transfer/CutOff/Opening.antt =====
-- The parts of a session up to the loop over the chunks, on files that are resumable.
use ati_tcp_file_transfer.Base.{
  ℕ, ◌/◌, ◌≡◌, ◌≢◌, inl, inr, refl, sym, ap, ◌∙◌, arith, Bool, true, false, none, some, List,
  length, replicate, length-replicate,
}
use ati_tcp_file_transfer.Util.Blake3.{IsStreaming}
use ati_tcp_file_transfer.Proto.Messages.{ManifestMsg, encode_manifest}
use ati_tcp_file_transfer.Io.Files.{FilePath, Files}
use ati_tcp_file_transfer.Io.Files.Calm.{IsCalm}
use ati_tcp_file_transfer.Io.FileSink.{FileSink, file_sink, with_partial_suffix, open_sink}
use ati_tcp_file_transfer.Io.FileSink.Succeeds.{open_sink-fresh}
use ati_tcp_file_transfer.Io.ResumeState.{ResumeState, resume_state}
use ati_tcp_file_transfer.Io.ResumeState.Laws.{IsValid, resume_state-IsValid, is_set-resume_state}
use ati_tcp_file_transfer.Transport.Session.{Session, Result, ok, err}
use ati_tcp_file_transfer.Transport.Session.Rules.{
  Ends, Runs, Runs-pure, Runs-on_files, Runs-bind_known,
}
use ati_tcp_file_transfer.Transport.Server.Calls.{Server, Failure}
use ati_tcp_file_transfer.Transport.Server.Start.{state_path, manifest_id, load_state, open_dest}
use ati_tcp_file_transfer.Transport.Server.Receive.{start_progress}
use ati_tcp_file_transfer.Transport.Server.Store.{partial-IsApart}
use ati_tcp_file_transfer.Transport.Transfer.{IsTransferable, file_manifest}
use ati_tcp_file_transfer.Transport.Transfer.Talks.{Fails, Talks}
use ati_tcp_file_transfer.Transport.Transfer.Fits.{n, blake3-IsHash}
use ati_tcp_file_transfer.Transport.Transfer.Receiver.{Fresh, fresh, load_state-Succeeds}
use ati_tcp_file_transfer.Transport.Transfer.Resume.Start.{
  IsStateOf, IsLeft, load_state-resumes, open_dest-resumes,
}
use ati_tcp_file_transfer.Transport.Transfer.CutOff.{Resumable, Storing}

-- A body with a known result, on any connection.
sure :
    {E A : Type 0} (known : A) (inc out : List ℕ) (w : ℕ) (F : Files → Type 0)
    (Q : A → Session → Type 0) (R : E → Session → Type 0) (r : Result E A) (s : Session)
    → (Talks inc out w F s → Q known s)
    → Ends (λ a s'. (a ≡ known) × Talks inc out w F s') Fails r s
    → Ends Q R r s
sure known inc out w F Q R (ok a) s weaker (same, t) = rw same (weaker t)
sure known inc out w F Q R (err e) s weaker h = elim h [ ]

module _ (v : Server) (k : ℕ) (c path : List ℕ) (dest : FilePath) (ok : IsTransferable k c path)
    (streaming : IsStreaming v.hash) where
  abbrev m : ManifestMsg
  m = file_manifest v.hash k c path

  -- The handshake was made, and the files are so.
  abbrev pub Shaken : (Files → Type 0) → Session → Type 0
  Shaken F s = (s.conn.handshake_ok ≡ true) × F s.files

  -- The files behind the load of a state.
  abbrev pub Loaded : ResumeState × Bool → Files → Type 0
  Loaded (state, true) fs =
      IsStateOf v k c path dest ok streaming state × IsLeft v k c path dest ok streaming state fs
  Loaded (state, false) fs =
      (state ≡ fresh v k c path dest ok streaming)
      × IsCalm fs
      × (fs.contents (state_path dest) ≡ none)

  module _ (R : Failure → Session → Type 0) where
    abbrev AfterLoad : ResumeState × Bool → Session → Type 0
    AfterLoad r = Shaken (Loaded r)

    pub load_state-Loaded :
        Runs (Shaken (Resumable v k c path dest ok streaming)) (load_state v m dest) AfterLoad R
    load_state-Loaded = record {
      at = λ s (shaken, d).
          let inc = s.conn.incoming in
          let out = s.conn.outgoing in
          elim (d.begun) [
            | inl nothing ↦
                sure (fresh v k c path dest ok streaming, false) inc out 0
                  (Fresh v k c path dest ok streaming inc out 0) AfterLoad R _ _
                  (λ t. (t.handshake, (refl, t.files.0, t.files.1)))
                  ((load_state-Succeeds v k c path dest ok streaming inc out 0).at s (record {
                    incoming = refl;
                    outgoing = refl;
                    writes = omega arith;
                    files = (d.calm, nothing);
                    handshake = shaken;
                  }))
            | inr b ↦
                sure (b.state, true) inc out 0 (IsLeft v k c path dest ok streaming b.state)
                  AfterLoad R _ _ (λ t. (t.handshake, (b.state_of, t.files)))
                  ((load_state-resumes v k c path dest ok streaming b.state b.state_of inc out 0).at
                    s
                    (record {
                      incoming = refl;
                      outgoing = refl;
                      writes = omega arith;
                      files = b.left;
                      handshake = shaken;
                    }))
          ];
    }

    abbrev opened : FileSink
    opened = record (file_sink dest) { is_open = true; total_size = length c }

    abbrev Begins : ResumeState → Bool → FileSink → Session → Type 0
    Begins state resume sink s =
        Storing v k c path dest ok streaming (start_progress v.hash state sink resume) s.files

    fresh-IsValid : IsValid (fresh v k c path dest ok streaming)
    unfolding manifest_id
    fresh-IsValid =
        resume_state-IsValid (manifest_id v m) (n k c path ok)
          (blake3-IsHash v.hash streaming (encode_manifest m)) (omega (arith, ok.manifest_room))

    fresh_Storing :
        (fs fs' : Files)
        → fs.contents (state_path dest) ≡ none
        → fs'.contents (with_partial_suffix dest) ≡ some (replicate (length c) 0)
        → ((p : FilePath) → p ≢ with_partial_suffix dest → fs'.contents p ≡ fs.contents p)
        → IsCalm fs'
        → Storing v k c path dest ok streaming
            (start_progress v.hash (fresh v k c path dest ok streaming) opened false)
            fs'
    unfolding resume_state
    fresh_Storing fs fs' nothing zeros others calm =
        let count = n k c path ok in
        let id = manifest_id v m in
        record {
          steady = record {
            is_open = refl;
            total = refl;
            sink_of = refl;
            valid = fresh-IsValid;
            count = refl;
          };
          id = refl;
          partial = record {
            calm = calm;
            content = replicate (length c) 0;
            there = zeros;
            holds = record {
              size = length-replicate (length c) 0;
              agrees = λ j below set_now.
                  absurd (ground (arith, sym (is_set-resume_state id count (j / k)) ∙ set_now));
            };
          };
          saved = inl (others (state_path dest) (λ e. (partial-IsApart dest).0 (sym e)) ∙ nothing);
        }

    pub open_dest-Storing :
        (state : ResumeState) (resume : Bool)
        → Runs (Shaken (Loaded (state, resume))) (open_dest v m dest resume) (Begins state resume) R
    unfolding open_dest
    open_dest-Storing state false =
        let P = Shaken (Loaded (state, false)) in
        let Q = Begins state false in
        Runs-bind_known P (Q opened) Q R (true, opened) _ _
          (Runs-on_files P _ R _ (λ s (_, (same, calm, nothing)).
            let (good, sink, zeros, others, calm') =
              open_sink-fresh dest s.files (length c) calm ok.fits in
            (
              ap (λ (x : Bool). (x, (open_sink (file_sink dest) s.files (length c) false).1)) good
                  ∙ ap (λ (x : FileSink). (true, x)) sink,
              rw same (fresh_Storing s.files _ nothing zeros others calm'),
            )))
          (Runs-pure (Q opened) Q R opened (λ s d. d))
    open_dest-Storing state true = record {
      at = λ s (shaken, (state_of, left)).
          let inc = s.conn.incoming in
          let out = s.conn.outgoing in
          sure opened inc out 0 (IsLeft v k c path dest ok streaming state) (Begins state true) R _
            _
            (λ t. record {
              steady = record {
                is_open = refl;
                total = refl;
                sink_of = refl;
                valid = state_of.valid;
                count = state_of.chunks;
              };
              id = state_of.id;
              partial = t.files.partial;
              saved = inr t.files.saved;
            })
            ((open_dest-resumes v k c path dest ok streaming state state_of inc out 0).at s
              (record {
                incoming = refl;
                outgoing = refl;
                writes = omega arith;
                files = left;
                handshake = shaken;
              }));
    }
