-- ===== src/Io/FileSink/Succeeds.antt =====
-- The calls of a sink, and the load of a resume file, where no call on the files fails.
use ati_tcp_file_transfer.Base.{◌≢◌, replicate}
use ati_tcp_file_transfer.Base.{
  refl, ap, ◌∙◌, ℕ, ◌+◌, ◌-◌, ◌^◌, ◌<◌, ◌≤◌, ◌≡◌, arith, true, false, none, some, List, [], ◌∷◌,
  length,
}
use ati_tcp_file_transfer.Io.Files.{
  FilePath, Files, overwrite, next_outcome, file_size, open_existing, open_truncated, write, rename,
  replace, flush_buffer, read_from_start,
}
use ati_tcp_file_transfer.Io.Files
use ati_tcp_file_transfer.Io.Files.Calm.{
  IsCalm, open_truncated-IsCalm, flush-IsCalm, write-IsCalm, replace-IsCalm, flush_buffer-IsCalm,
  flush_buffer_keeps,
}
use ati_tcp_file_transfer.Io.FileSink.{
  FileSink, file_sink, partial_path, with_partial_suffix, is_reusable, open_fresh, open_sink,
  write_at, flush, finalize,
}
use ati_tcp_file_transfer.Io.FileSink.Laws.{open_fresh_sound}
use ati_tcp_file_transfer.Io.FileSink.Calm.{open_sink-IsCalm}
use ati_tcp_file_transfer.Io.ResumeState.{ResumeState, serialize, deserialize}
use ati_tcp_file_transfer.Io.ResumeState.Save.{load, save, tmp_path}
use ati_tcp_file_transfer.Io.Files.Laws.{store_self, open_truncated-contents, write-contents}

write-succeeds :
    (fs : Files) (path : FilePath) (offset : ℕ) (bytes : List ℕ)
    → IsCalm fs
    → offset < 2 ^ 63
    → (write fs path offset bytes).0 ≡ true
unfolding write next_outcome
write-succeeds fs path offset bytes calm h = ground arith

open_truncated-succeeds :
    (fs : Files) (path : FilePath) → IsCalm fs → (open_truncated fs path).0 ≡ true
unfolding open_truncated next_outcome
open_truncated-succeeds fs path calm = ground arith

pub open_sink-succeeds :
    (dest : FilePath) (fs : Files) (total_size : ℕ)
    → IsCalm fs
    → total_size < 2 ^ 63
    → ((open_sink (file_sink dest) fs total_size false).0 ≡ true)
      × ((open_sink (file_sink dest) fs total_size false).1.is_open ≡ true)
unfolding open_sink open_fresh
open_sink-succeeds dest fs total_size calm small =
    let path = partial_path (file_sink dest) in
    let opened = open_truncated-succeeds fs path calm in
    let sized =
      write-succeeds (open_truncated fs path).1 path (total_size - 1) (0 ∷ [])
        (open_truncated-IsCalm fs path calm) (omega (arith, small)) in
    (ground arith, ground arith)

pub write_at-succeeds :
    (sink : FileSink) (fs : Files) (offset : ℕ) (bytes : List ℕ)
    → IsCalm fs
    → sink.is_open ≡ true
    → offset + length bytes ≤ sink.total_size
    → sink.total_size < 2 ^ 63
    → ((write_at sink fs offset bytes).0 ≡ true) × ((write_at sink fs offset bytes).1 ≡ sink)
unfolding write_at
write_at-succeeds sink fs offset bytes calm opened within small =
    let written =
      write-succeeds fs (partial_path sink) offset bytes calm (omega (arith, within, small)) in
    (ground arith, ground arith)

pub flush-succeeds :
    (sink : FileSink) (fs : Files)
    → IsCalm fs
    → ((flush sink fs).0 ≡ true) × ((flush sink fs).1 ≡ sink)
unfolding flush Files.flush next_outcome
flush-succeeds sink fs calm = (ground arith, ground arith)

replace-succeeds :
    (fs : Files) (from to : FilePath) (content : List ℕ)
    → IsCalm fs
    → fs.contents from ≡ some content
    → (replace fs from to).0 ≡ true
unfolding replace rename next_outcome
replace-succeeds fs from to content calm there = ground arith

pub finalize-succeeds :
    (sink : FileSink) (fs : Files) (content : List ℕ)
    → IsCalm fs
    → fs.contents (partial_path sink) ≡ some content
    → (finalize sink fs).0 ≡ true
unfolding finalize Files.flush replace rename next_outcome
finalize-succeeds sink fs content calm there = ground arith

pub load_nothing :
    (fs : Files) (path : FilePath) → fs.contents path ≡ none → (load fs path).0 ≡ none
unfolding load open_existing
load_nothing fs path absent = ground arith

-- A file that is there is opened and kept.
pub open_existing-succeeds :
    (fs : Files) (path : FilePath) (content : List ℕ)
    → IsCalm fs
    → fs.contents path ≡ some content
    → ((open_existing fs path).0 ≡ true)
      × ((open_existing fs path).1.contents ≡ fs.contents)
      × IsCalm (open_existing fs path).1
unfolding open_existing next_outcome
open_existing-succeeds fs path content calm there = (ground arith, ground arith, ground arith)

-- A file that is there is read by `load`.
pub load-deserialize :
    (fs : Files) (path : FilePath) (content : List ℕ)
    → IsCalm fs
    → fs.contents path ≡ some content
    → ((load fs path).0 ≡ deserialize content)
      × ((load fs path).1.contents ≡ fs.contents)
      × IsCalm (load fs path).1
unfolding load open_existing read_from_start next_outcome
load-deserialize fs path content calm there = (ground arith, ground arith, ground arith)

-- A partial file of the full size is reused by a transfer that goes on.
pub open_sink-reuses :
    (dest : FilePath) (fs : Files) (total_size : ℕ) (content : List ℕ)
    → IsCalm fs
    → fs.contents (with_partial_suffix dest) ≡ some content
    → total_size ≤ length content
    → let r = open_sink (file_sink dest) fs total_size true in
      (r.0 ≡ true)
      × (r.1 ≡ record (file_sink dest) { is_open = true; total_size = total_size })
      × (r.2.contents ≡ fs.contents)
      × IsCalm r.2
unfolding open_sink is_reusable file_size open_existing next_outcome
open_sink-reuses dest fs total_size content calm there sized =
    (ground arith, ground arith, ground arith, ground arith)

-- A save succeeds.
pub save-succeeds :
    (state : ResumeState) (fs : Files) (path : FilePath) → IsCalm fs → (save state fs path).0 ≡ true
unfolding save
save-succeeds state fs path calm =
    let tmp = tmp_path path in
    let fs₁ = (open_truncated fs tmp).1 in
    let calm₁ = open_truncated-IsCalm fs tmp calm in
    let opened = open_truncated-succeeds fs tmp calm in
    let good = write-succeeds fs₁ tmp 0 (serialize state) calm₁ (omega arith) in
    let emptied : fs₁.contents tmp ≡ some [] =
      ap (λ f. f tmp) (open_truncated-contents fs tmp opened)
      ∙ store_self fs.contents tmp (some []) in
    let fs₂ = (flush_buffer (write fs₁ tmp 0 (serialize state)).1 tmp).1 in
    let written = write-IsCalm fs₁ tmp 0 (serialize state) calm₁ in
    let calm₂ = flush_buffer-IsCalm _ tmp written in
    let there : fs₂.contents tmp ≡ some (overwrite [] 0 (serialize state)) =
      ap (λ f. f tmp)
        (flush_buffer_keeps (write fs₁ tmp 0 (serialize state)).1 tmp written
          ∙ write-contents fs₁ tmp 0 (serialize state) [] emptied good)
      ∙ store_self fs₁.contents tmp _ in
    let moved = replace-succeeds fs₂ tmp path _ calm₂ there in rw (opened, good, moved) refl

-- A file that is removed is gone.
pub remove-gone :
    (fs : Files) (path : FilePath) → IsCalm fs → (Files.remove fs path).contents path ≡ none
unfolding Files.remove next_outcome
remove-gone fs path calm = ground (arith, store_self fs.contents path none)

pub finalize-IsCalm : (sink : FileSink) (fs : Files) → IsCalm fs → IsCalm (finalize sink fs).2
unfolding finalize
finalize-IsCalm sink fs calm = ground (
  arith,
  flush-IsCalm fs calm,
  replace-IsCalm fs (partial_path sink) sink.final_path,
  replace-IsCalm (Files.flush fs).1 (partial_path sink) sink.final_path,
)

-- A sink that is opened afresh has a partial file of exactly the full size.
pub open_sink-fresh :
    (dest : FilePath) (fs : Files) (total_size : ℕ)
    → IsCalm fs
    → total_size < 2 ^ 63
    → let r = open_sink (file_sink dest) fs total_size false in
      (r.0 ≡ true)
      × (r.1 ≡ record (file_sink dest) { is_open = true; total_size = total_size })
      × (r.2.contents (with_partial_suffix dest) ≡ some (replicate total_size 0))
      × ((p : FilePath) → p ≢ with_partial_suffix dest → r.2.contents p ≡ fs.contents p)
      × IsCalm r.2
unfolding open_sink
open_sink-fresh dest fs total_size calm small =
    let good = (open_sink-succeeds dest fs total_size calm small).0 in
    let (zeros, opened, others) =
      open_fresh_sound (record (file_sink dest) { total_size = total_size }) fs good in
    (good, opened, zeros, others, open_sink-IsCalm (file_sink dest) fs total_size false calm)
