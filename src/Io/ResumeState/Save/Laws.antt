-- ===== src/Io/ResumeState/Save/Laws.antt =====
-- What is saved is loaded, and what is loaded behind a save, whatever fails, is nothing else than the
-- state that was saved or the one before.
use ati_tcp_file_transfer.Base.{◌≡◌, ◌≢◌, ℕ, sym, ap, ◌∙◌, arith}
use ati_tcp_file_transfer.Base.{true, some, List, [], length, length-append, append-nil}
use ati_tcp_file_transfer.Io.Files.{
  FilePath, Files, open_existing, open_truncated, write, flush_buffer, replace,
}
use ati_tcp_file_transfer.Io.Files.Overwrite.{overwrite_empty}
use ati_tcp_file_transfer.Io.Files.Calm.{
  IsCalm, open_truncated-IsCalm, write-IsCalm, flush_buffer_keeps,
}
use ati_tcp_file_transfer.Io.Files.Laws.{
  store_self, open_truncated-contents, open_existing-contents, write-contents, replace_succeeds,
  open_truncated-others, write-others, flush_buffer-others, replace-others,
  read_from_start-contents,
}
use ati_tcp_file_transfer.Io.FileSink.Calm.{save-IsCalm}
use ati_tcp_file_transfer.Io.FileSink.Succeeds.{save-succeeds, load-deserialize}
use ati_tcp_file_transfer.Io.ResumeState.{ResumeState, serialize, deserialize}
use ati_tcp_file_transfer.Io.ResumeState.Laws.{IsValid}
use ati_tcp_file_transfer.Io.ResumeState.Format.{deserialize-serialize}
use ati_tcp_file_transfer.Io.ResumeState.Save.{save, load, tmp_path, tmp_suffix}

path-ne-tmp : (path : FilePath) → path ≢ tmp_path path
unfolding tmp_path
path-ne-tmp path e = omega (arith, ap length e, length-append path tmp_suffix)

-- A load changes no file.
pub load-contents : (fs : Files) (path : FilePath) → (load fs path).1.contents ≡ fs.contents
unfolding load
load-contents fs path =
    let fs₁ = (open_existing fs path).1 in
    ground (arith, open_existing-contents fs path, read_from_start-contents fs₁ path)

module _ (s : ResumeState) (fs : Files) (path : FilePath) where
  -- The files with the temporary one open, with the state written to it, and flushed.
  abbrev opened : Files
  opened = (open_truncated fs (tmp_path path)).1

  abbrev written : Files
  written = (write opened (tmp_path path) 0 (serialize s)).1

  abbrev flushed : Files
  flushed = (flush_buffer written (tmp_path path)).1

  -- A save that succeeds has written the whole state, as far as the stream knows, and moved what
  -- the flush left of it.
  record IsSaved : Type 0 where
    whole : written.contents (tmp_path path) ≡ some (serialize s)
    at_path :
        (c : List ℕ)
        → flushed.contents (tmp_path path) ≡ some c
        → (save s fs path).1.contents path ≡ some c

  save-IsSaved : (save s fs path).0 ≡ true → IsSaved
  unfolding save
  save-IsSaved e =
      let tmp = tmp_path path in
      let is_open : (open_truncated fs tmp).0 ≡ true = ground arith in
      let good : (write opened tmp 0 (serialize s)).0 ≡ true = ground arith in
      let moved : (replace flushed tmp path).0 ≡ true = ground arith in
      let there : opened.contents tmp ≡ some [] =
        (λ i. open_truncated-contents fs tmp is_open i tmp)
        ∙ store_self fs.contents tmp (some []) in
      let m = replace_succeeds flushed tmp path (path-ne-tmp path) moved in
      record {
        whole =
            (λ i. write-contents opened tmp 0 (serialize s) [] there good i tmp)
            ∙ store_self opened.contents tmp _
            ∙ ap some (overwrite_empty (serialize s));
        at_path = λ c at_tmp. rw (is_open, good) (m.target ∙ sym m.source ∙ at_tmp);
      }

  -- Where no call fails, it has put all of them there.
  pub save_sound :
      IsCalm fs → (save s fs path).0 ≡ true → (save s fs path).1.contents path ≡ some (serialize s)
  save_sound calm e =
      let tmp = tmp_path path in
      let saved = save-IsSaved e in
      let calm' = write-IsCalm opened tmp 0 (serialize s) (open_truncated-IsCalm fs tmp calm) in
      saved.at_path (serialize s) ((λ i. flush_buffer_keeps written tmp calm' i tmp) ∙ saved.whole)

  -- A save keeps all files but the saved one and its temporary one, whether it succeeds or fails.
  pub save-others :
      (p : FilePath) → p ≢ path → p ≢ tmp_path path → (save s fs path).1.contents p ≡ fs.contents p
  unfolding save
  save-others p p_path p_tmp = ground (
    arith,
    open_truncated-others fs (tmp_path path) p p_tmp,
    write-others opened (tmp_path path) 0 (serialize s) p p_tmp,
    flush_buffer-others written (tmp_path path) p p_tmp,
    replace-others flushed (tmp_path path) path p p_tmp p_path,
  )

-- Where no call on the files fails, a save of a valid state succeeds, and the next load gives that
-- state.
pub load-save :
    (s : ResumeState) (fs : Files) (path : FilePath)
    → IsValid s
    → IsCalm fs
    → ((save s fs path).0 ≡ true) × ((load (save s fs path).1 path).0 ≡ some s)
load-save s fs path v calm =
    let good = save-succeeds s fs path calm in
    let stays = save-IsCalm s fs path calm in
    let at_path = save_sound s fs path calm good in
    (
      good,
      (load-deserialize (save s fs path).1 path (serialize s) stays at_path).0
          ∙ ap deserialize (sym (append-nil (serialize s)))
          ∙ deserialize-serialize s [] v,
    )
