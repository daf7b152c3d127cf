-- ===== src/Transport/Server/Safety.antt =====
-- What a session of the server does to the files, whatever the peer sends and whatever fails.
use ati_tcp_file_transfer.Base.{
  ℕ, ◌≡◌, ◌≢◌, refl, sym, ap, ◌∙◌, arith, if◌then◌else◌, not, Bool, true, false,
}
use ati_tcp_file_transfer.Base.{
  Bool-cases, inl, inr, Option, none, some, List, ◌++◌, length, length-append,
}
use ati_tcp_file_transfer.Proto.Types.{FrameType}
use ati_tcp_file_transfer.Proto.ErrorCode
use ati_tcp_file_transfer.Proto.Messages.{ManifestMsg}
use ati_tcp_file_transfer.Io.Files.{FilePath, Files}
use ati_tcp_file_transfer.Io.Files.Laws.{remove-contents}
use ati_tcp_file_transfer.Io.FileSink.{FileSink, with_partial_suffix, partial_suffix}
use ati_tcp_file_transfer.Io.FileSink
use ati_tcp_file_transfer.Io.FileSink.Others.{
  finalize_failed_target, flush-others, flush-final_path,
}
use ati_tcp_file_transfer.Io.ResumeState.Save.{remove, tmp_path, tmp_suffix}
use ati_tcp_file_transfer.Transport.Session.{Session, pure, ◌>>=◌, ◌>>◌, on_files}
use ati_tcp_file_transfer.Transport.Server.Dest.{resolve_dest}
use ati_tcp_file_transfer.Transport.Server.Text.{Text, sink_error}
use ati_tcp_file_transfer.Transport.Server.Calls.{Server, Failure, send, send_error, reject}
use ati_tcp_file_transfer.Transport.Server.Start.{state_path, state_suffix}
use ati_tcp_file_transfer.Transport.Server.Finish.{
  handle_session, receive_partial, commit, acknowledge, receive_file, session,
}
use ati_tcp_file_transfer.Transport.Server.Keeps.{Any, SinkOf, K}
use ati_tcp_file_transfer.Transport.Server.Keeps.Body.{IsApart}
use ati_tcp_file_transfer.Base.{◌⊎◌}
use ati_tcp_file_transfer.Transport.Session.{Result, ok, err, continue}
use ati_tcp_file_transfer.Transport.Session.Rules.{
  Ends, Runs, Runs-pure, Runs-stop, Runs-if, Runs-on_connection, Runs-on_files, Runs-bind,
}
use ati_tcp_file_transfer.Transport.Server.Keeps.Whole.{receive_partial-Keeps, session-Keeps}
use ati_tcp_file_transfer.Io.FileSink.Laws.{finalize_sound}

-- The four files that a session with this destination may change.
pub record IsOther (p dest : FilePath) : Type 0 where
  pub apart : IsApart p dest
  pub final : p ≢ dest

pub dest-IsApart : (dest : FilePath) → IsApart dest dest
unfolding with_partial_suffix state_path tmp_path
dest-IsApart dest = record {
  partial = λ e. omega (arith, ap length e, length-append dest partial_suffix);
  state = λ e. omega (arith, ap length e, length-append dest state_suffix);
  tmp = λ e. omega (
    arith,
    ap length e,
    length-append (dest ++ state_suffix) tmp_suffix,
    length-append dest state_suffix,
  );
}

-- A call that keeps the files.
module _ (F : Files → Type 0) (R : Session → Type 0)
    (weaker : (s : Session) → F s.files → R s) where
  abbrev Fs : Session → Type 0
  Fs s = F s.files

  pub reject_keeps_files :
      {A : Type 0} (Q : A → Session → Type 0) (v : Server) (code : ℕ) (text : Text)
      → Runs Fs (reject {A = A} v code text) Q (λ _. R)
  unfolding reject send_error
  reject_keeps_files Q v code text =
      Runs-bind Fs Q (λ _. R) (λ _. Fs) _ _
        (Runs-bind Fs (λ _. Fs) (λ _. R) (λ _. Fs) _ _
          (Runs-on_connection Fs (λ _. Fs) (λ _. R) _ (λ s h. h))
          (λ _. Runs-pure Fs (λ _. Fs) (λ _. R) tt (λ s h. h)))
        (λ _. Runs-stop Fs Q (λ _. R) _ weaker)

  pub send_keeps_files :
      (t : FrameType) (payload : List ℕ) → Runs Fs (send t payload) (λ _. Fs) (λ _. R)
  unfolding send
  send_keeps_files t payload =
      Runs-bind Fs (λ _. Fs) (λ _. R) (λ _. Fs) _ _
        (Runs-on_connection Fs (λ _. Fs) (λ _. R) _ (λ s h. h))
        λ sent.
          Runs-if Fs (λ _. Fs) (λ _. R) (not sent) _ _
            (λ _. Runs-stop Fs (λ _. Fs) (λ _. R) _ weaker)
            (λ _. Runs-pure Fs (λ _. Fs) (λ _. R) tt (λ s h. h))

module _ (v : Server) (dest : FilePath) (old partial : Option (List ℕ)) where
  abbrev Before : Session → Type 0
  Before s = (s.files.contents dest ≡ old) × (s.files.contents (with_partial_suffix dest) ≡ partial)

  abbrev Installed : Session → Type 0
  Installed s = s.files.contents dest ≡ partial

  abbrev OneOf : Session → Type 0
  OneOf s = (s.files.contents dest ≡ old) ⊎ ((s.files.contents dest ≡ none) ⊎ Installed s)

  abbrev AfterFinalize : Bool → Session → Type 0
  AfterFinalize true s = Installed s
  AfterFinalize false s = (s.files.contents dest ≡ old) ⊎ (s.files.contents dest ≡ none)

  abbrev NotFinalized : Files → Type 0
  NotFinalized fs = (fs.contents dest ≡ old) ⊎ (fs.contents dest ≡ none)

  abbrev BeforeFs : Files → Type 0
  BeforeFs fs = (fs.contents dest ≡ old) × (fs.contents (with_partial_suffix dest) ≡ partial)

  abbrev Sunk : FileSink → Session → Type 0
  Sunk sink s = SinkOf dest sink × Before s

  finalize_target :
      (sink : FileSink) (s : Session)
      → SinkOf dest sink
      → Before s
      → AfterFinalize
          (FileSink.finalize sink s.files).0
          (record s { files = (FileSink.finalize sink s.files).2 })
  finalize_target sink s good (same, moved) =
      let after = (FileSink.finalize sink s.files).2.contents in
      elim (Bool-cases (FileSink.finalize sink s.files).0) [
        | inl renamed ↦ rw renamed (
            let m = finalize_sound sink s.files renamed in
            ap after (sym good)
            ∙ m.target
            ∙ sym m.source
            ∙ ap (λ d. s.files.contents (with_partial_suffix d)) good
            ∙ moved)
        | inr stays ↦ rw stays (elim (finalize_failed_target sink s.files stays) [
          | inl kept ↦ inl (ap after (sym good) ∙ kept ∙ ap s.files.contents good ∙ same)
          | inr gone ↦ inr (ap after (sym good) ∙ gone)
        ])
      ]

  after_finalize :
      (sink : FileSink) (b : Bool)
      → Runs
          (AfterFinalize b)
          (if not b
            then reject v ErrorCode.internal_error (sink_error sink.last_error)
            else do on_files (λ fs. (tt, remove fs (state_path dest))); pure tt)
          (λ _. Installed)
          (λ _. OneOf)
  unfolding remove
  after_finalize sink false =
      reject_keeps_files NotFinalized OneOf
        (λ s k. elim k [ inl kept ↦ inl kept | inr gone ↦ inr (inl gone) ]) (λ _. Installed) v _ _
  after_finalize sink true =
      Runs-bind Installed (λ _. Installed) (λ _. OneOf) (λ _. Installed) _ _
        (Runs-on_files Installed (λ _. Installed) (λ _. OneOf) _
          (λ s k. remove-contents s.files (state_path dest) dest (dest-IsApart dest).state ∙ k))
        (λ _. Runs-pure Installed (λ _. Installed) (λ _. OneOf) tt (λ s k. k))

  commit-Runs :
      (sink : FileSink)
      → SinkOf dest sink
      → Runs Before (commit v sink (state_path dest)) (λ _. Installed) (λ _. OneOf)
  unfolding commit
  commit-Runs sink good =
      Runs-bind Before (λ _. Installed) (λ _. OneOf)
        (λ (r : Bool × FileSink) s. SinkOf dest r.1 × Before s) _ _
        (Runs-on_files Before (λ (r : Bool × FileSink) s. SinkOf dest r.1 × Before s) (λ _. OneOf) _
          (λ s (same, moved). (
            flush-final_path sink s.files ∙ good,
            (
              ap (λ f. f dest) (flush-others sink s.files) ∙ same,
              ap (λ f. f (with_partial_suffix dest)) (flush-others sink s.files) ∙ moved,
            ),
          )))
        λ (flushed, sink').
          Runs-if (Sunk sink') (λ _. Installed) (λ _. OneOf) (not flushed) _ _
            (λ _. record {
              at = λ s (good', h).
                  (reject_keeps_files BeforeFs OneOf (λ _ (k, _). inl k) (λ _. Installed) v _ _).at
                    s h;
            })
            λ _.
              Runs-bind (Sunk sink') (λ _. Installed) (λ _. OneOf) (λ r. AfterFinalize r.0) _ _
                (Runs-on_files (Sunk sink') (λ r. AfterFinalize r.0) (λ _. OneOf) _
                  (λ s (good', h). finalize_target sink' s good' h))
                (λ (finalized, sink''). after_finalize sink'' finalized)

  pub finish-Runs :
      (m : ManifestMsg) (sink : FileSink)
      → SinkOf dest sink
      → Runs Before (commit v sink (state_path dest) >> acknowledge m) (λ _. Installed) (λ _. OneOf)
  unfolding acknowledge
  finish-Runs m sink good =
      Runs-bind Before (λ _. Installed) (λ _. OneOf) (λ _. Installed) _ _ (commit-Runs sink good)
        λ _. send_keeps_files (λ fs. fs.contents dest ≡ partial) OneOf (λ s k. inr (inr k)) _ _

kept :
    {A : Type 0} (P : Session → Type 0) (r : Result Failure A) (s : Session)
    → Ends (λ a s'. Any a × P s') (λ _. P) r s
    → P s
kept P (ok a) s h = h.1
kept P (err e) s h = h

continued_dest :
    (v : Server) (m : ManifestMsg) (dest : FilePath) (old : Option (List ℕ))
    (r : Result Failure FileSink) (s : Session)
    → Ends
        (λ sink s'. SinkOf dest sink × (s'.files.contents dest ≡ old))
        (λ _ s'. s'.files.contents dest ≡ old)
        r
        s
    → let checked = s.files.contents (with_partial_suffix dest) in
      let after = continue r (λ sink. commit v sink (state_path dest) >> acknowledge m) s in
      Ends (λ _. Installed v dest old checked) (λ _. OneOf v dest old checked) after.0 after.1
continued_dest v m dest old (ok sink) s (good, same) =
    (finish-Runs v dest old (s.files.contents (with_partial_suffix dest)) m sink good).at s
      (same, refl)
continued_dest v m dest old (err e) s same = inl same

-- The content of the destination behind a session that goes on from it: with the partial file as it
-- is where its checks have passed, a session that succeeds has put that file there; any other has
-- left the old content, no file, or that file.
pub receive_file-dest :
    (v : Server) (m : ManifestMsg) (dest : FilePath) (s : Session)
    → let checked = (receive_partial v m dest s).1.files.contents (with_partial_suffix dest) in
      let old = s.files.contents dest in
      Ends
        (λ _ s'. s'.files.contents dest ≡ checked)
        (λ _ s'.
          (s'.files.contents dest ≡ old)
          ⊎ ((s'.files.contents dest ≡ none) ⊎ (s'.files.contents dest ≡ checked)))
        (receive_file v m dest s).0
        (receive_file v m dest s).1
unfolding receive_file ◌>>=◌
receive_file-dest v m dest s =
    let ends =
      (receive_partial-Keeps dest (s.files.contents dest) v m dest (dest-IsApart dest)).at s refl in
    continued_dest v m dest (s.files.contents dest) (receive_partial v m dest s).0
      (receive_partial v m dest s).1 ends

-- No session changes a file that is none of the four of a destination that the server resolves, as
-- `rejected` below it or not: whatever the peer sends, and whatever calls on the files fail.
pub handle_session-others :
    (v : Server) (s : Session) (p : FilePath)
    → ((rel dest : FilePath) → resolve_dest v.root rel ≡ some dest → IsOther p dest)
    → (handle_session v s).1.files.contents p ≡ s.files.contents p
unfolding handle_session
handle_session-others v s p other =
    kept (K p (s.files.contents p)) (session v s).0 (session v s).1 (
      (session-Keeps p (s.files.contents p) v
          (λ rel dest found. ((other rel dest found).apart, (other rel dest found).final))).at
        s refl)
