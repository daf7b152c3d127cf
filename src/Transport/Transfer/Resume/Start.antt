-- ===== src/Transport/Transfer/Resume/Start.antt =====
-- Server::handle_session_ on the missing chunks of a file that a transfer that was cut off has left: from
-- the destination to the end of the loop.
use ati_tcp_file_transfer.Base.{All-implies}
use ati_tcp_file_transfer.Base.{ℕ, suc, ◌≡◌, refl, sym, ap, ◌∙◌, arith, Bool, true, ==_self}
use ati_tcp_file_transfer.Base.{
  bytes_eq_self, some, List, [], ◌++◌, append-nil, length, length-append,
}
use ati_tcp_file_transfer.Util.Blake3.{IsStreaming}
use ati_tcp_file_transfer.Proto.Types.{FrameType}
use ati_tcp_file_transfer.Proto.Messages.{ManifestMsg}
use ati_tcp_file_transfer.Io.Files.{FilePath, Files}
use ati_tcp_file_transfer.Io.Files.Calm.{IsCalm}
use ati_tcp_file_transfer.Io.FileSink.{FileSink, file_sink, with_partial_suffix, open_sink}
use ati_tcp_file_transfer.Io.FileSink.Succeeds.{load-deserialize, open_sink-reuses}
use ati_tcp_file_transfer.Io.ResumeState.{ResumeState, serialize, deserialize, missing}
use ati_tcp_file_transfer.Io.ResumeState.Laws.{IsValid}
use ati_tcp_file_transfer.Io.ResumeState.Format.{deserialize-serialize}
use ati_tcp_file_transfer.Io.ResumeState.Missing.{missing_from-bounds}
use ati_tcp_file_transfer.Io.ResumeState.Save.{load}
use ati_tcp_file_transfer.Transport.Session.{Session}
use ati_tcp_file_transfer.Transport.Session.Rules.{Runs, Runs-pure, Runs-bind_known, Runs-after}
use ati_tcp_file_transfer.Transport.Server.Calls.{Server}
use ati_tcp_file_transfer.Transport.Server.Start.{
  state_path, manifest_id, matching, load_state, open_dest, request_chunks,
}
use ati_tcp_file_transfer.Transport.Server.Receive.{Progress, start_progress, receive_chunks}
use ati_tcp_file_transfer.Transport.Transfer.{
  AreChunks, wires_of, client_body, request_payload, IsTransferable, wire, file_manifest,
  complete_payload,
}
use ati_tcp_file_transfer.Transport.Transfer.Talks.{Fails, Talks, on_files-Succeeds, send-Succeeds}
use ati_tcp_file_transfer.Transport.Transfer.Fits.{n, request_room, length-wires_of}
use ati_tcp_file_transfer.Transport.Transfer.Resume.Store.{Going, Partial}
use ati_tcp_file_transfer.Transport.Transfer.Resume.Rounds.{Ended, receive_loop-resumes}

module _ (v : Server) (k : ℕ) (c path : List ℕ) (dest : FilePath) (ok : IsTransferable k c path)
    (streaming : IsStreaming v.hash) (state : ResumeState) where
  abbrev m : ManifestMsg
  m = file_manifest v.hash k c path

  abbrev count : ℕ
  count = n k c path ok

  -- What a transfer of the file that was cut off has left: its state, as it was saved, and the partial
  -- file with the chunks that are set.
  pub record IsLeft (fs : Files) : Type 0 where
    pub saved : fs.contents (state_path dest) ≡ some (serialize state)
    pub partial : Partial v k c path dest ok streaming state fs

  pub record IsStateOf : Type 0 where
    pub valid : IsValid state
    pub id : state.manifest_id ≡ manifest_id v m
    pub chunks : state.chunk_count ≡ count

  abbrev pub opened : FileSink
  opened = record (file_sink dest) { is_open = true; total_size = length c }

  abbrev start : Progress v.hash.Hasher
  start = start_progress v.hash state opened true

  moved : (fs fs' : Files) → fs'.contents ≡ fs.contents → IsCalm fs' → IsLeft fs → IsLeft fs'
  moved fs fs' same calm l = record {
    saved = ap (λ f. f (state_path dest)) same ∙ l.saved;
    partial = record {
      calm = calm;
      content = l.partial.content;
      there = ap (λ f. f (with_partial_suffix dest)) same ∙ l.partial.there;
      holds = l.partial.holds;
    };
  }

  pub missing-AreChunks : IsStateOf → AreChunks count (missing state)
  unfolding missing
  missing-AreChunks is_state =
      let (few, below) =
        missing_from-bounds state state.chunk_count state.chunk_count 0 (omega arith) in
      record {
        few = omega (arith, few, is_state.chunks);
        below = All-implies (λ i h. omega (arith, h, is_state.chunks)) _ below;
      }

  module _ (is_state : IsStateOf) (inc out : List ℕ) (w : ℕ) where
    abbrev Left : Session → Type 0
    Left = Talks inc out w IsLeft

    loads :
        (fs : Files)
        → IsLeft fs
        → ((load fs (state_path dest)).0 ≡ some state) × IsLeft (load fs (state_path dest)).1
    loads fs l =
        let (got, same, calm) =
          load-deserialize fs (state_path dest) (serialize state) l.partial.calm l.saved in
        let whole = deserialize-serialize state [] is_state.valid in
        (got ∙ ap deserialize (sym (append-nil (serialize state))) ∙ whole, moved fs _ same calm l)

    pub load_state-resumes :
        Runs
          (Talks inc out w IsLeft)
          (load_state v m dest)
          (λ r s. (r ≡ (state, true)) × Left s)
          Fails
    unfolding load_state matching
    load_state-resumes =
        Runs-bind_known _ Left _ Fails (some state) _ _
          (on_files-Succeeds IsLeft IsLeft inc out w _ _ loads)
          (rw (is_state.id, is_state.chunks, bytes_eq_self (manifest_id v m), ==_self count)
            (Runs-pure _ _ Fails _ (λ s t. (refl, t))))

    opens :
        (fs : Files)
        → IsLeft fs
        → (◌≡◌ {A = Bool × FileSink}
            (
              (open_sink (file_sink dest) fs (length c) true).0,
              (open_sink (file_sink dest) fs (length c) true).1,
            )
            (true, opened))
          × IsLeft (open_sink (file_sink dest) fs (length c) true).2
    opens fs l =
        let (good, sink, same, calm) =
          open_sink-reuses dest fs (length c) l.partial.content l.partial.calm l.partial.there
            (omega (arith, l.partial.holds.size)) in
        (
          ap (λ (x : Bool). (x, (open_sink (file_sink dest) fs (length c) true).1)) good
              ∙ ap (λ (x : FileSink). (true, x)) sink,
          moved fs _ same calm l,
        )

    pub open_dest-resumes :
        Runs Left (open_dest v m dest true) (λ sink s. (sink ≡ opened) × Left s) Fails
    unfolding open_dest
    open_dest-resumes =
        Runs-bind_known _ Left _ Fails (true, opened) _ _
          (on_files-Succeeds _ IsLeft inc out w _ _ opens)
          (Runs-pure _ _ Fails _ (λ s t. (refl, t)))

    Going-start : Going v k c path dest ok streaming (missing state) start
    Going-start = record {
      steady = record {
        is_open = refl;
        total = refl;
        sink_of = refl;
        valid = is_state.valid;
        count = is_state.chunks;
      };
      in_order = refl;
      missing = refl;
    }

  pub request_chunks-resumes :
      (inc out : List ℕ) (w : ℕ) (F : Files → Type 0)
      → IsStateOf
      → Runs
          (Talks inc out (suc w) F)
          (request_chunks state)
          (λ r s.
            (r ≡ tt)
            × Talks inc (out ++ wire FrameType.req_chunks (request_payload (missing state))) w F s)
          Fails
  unfolding request_chunks
  request_chunks-resumes inc out w F is_state =
      Runs-after _ _ _ Fails _ (λ _ s t. (refl, t))
        (send-Succeeds F out w FrameType.req_chunks (request_payload (missing state))
          (request_room k c path ok (missing state) (missing-AreChunks is_state).few) inc)

  pub receive_chunks-resumes :
      (out : List ℕ) (w : ℕ)
      → IsStateOf
      → Runs
          (Talks (client_body v.hash k c (missing state)) out w IsLeft)
          (receive_chunks v m (state_path dest) start)
          (λ r. Ended v k c path dest ok streaming r [] out w)
          Fails
  unfolding receive_chunks
  receive_chunks-resumes out w is_state = record {
    at = λ s t.
        let body = wires_of v.hash k c (missing state) in
        let last = wire FrameType.complete (complete_payload v.hash k c) in
        (receive_loop-resumes v k c path dest ok streaming [] out w (suc (length s.conn.incoming))
            (missing state) start
            (omega (
              arith,
              ap length t.incoming,
              length-append body last,
              length-wires_of v.hash k c (missing state),
            ))
            (Going-start is_state [] out w)).at
          s
          (rw (append-nil last) (record {
            incoming = t.incoming;
            outgoing = t.outgoing;
            writes = t.writes;
            files = t.files.partial;
            handshake = t.handshake;
          }));
  }
