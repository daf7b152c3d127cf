-- ===== src/Io/FileSink/Others.antt =====
-- The files that the calls of a sink keep, whether they succeed or fail.
use ati_tcp_file_transfer.Base.{◌⊎◌, none, ℕ, ◌-◌, ◌≡◌, ◌≢◌, arith, Bool, false, List, [], ◌∷◌}
use ati_tcp_file_transfer.Io.Files.{
  FilePath, Files, file_size, open_existing, open_truncated, write, replace,
}
use ati_tcp_file_transfer.Io.Files
use ati_tcp_file_transfer.Io.Files.Laws.{
  replace_target, flush-contents, file_size-contents, open_existing-contents, open_truncated-others,
  write-others, replace-others,
}
use ati_tcp_file_transfer.Io.FileSink.{
  FileSink, partial_path, open_fresh, open_sink, write_at, flush, finalize,
}

open_fresh-others :
    (sink : FileSink) (fs : Files) (p : FilePath)
    → p ≢ partial_path sink
    → (open_fresh sink fs).2.contents p ≡ fs.contents p
unfolding open_fresh
open_fresh-others sink fs p other = ground (
  arith,
  open_truncated-others fs (partial_path sink) p other,
  write-others (open_truncated fs (partial_path sink)).1 (partial_path sink) (sink.total_size - 1)
      (0 ∷ []) p other,
)

pub open_sink-others :
    (sink : FileSink) (fs : Files) (total_size : ℕ) (resume_existing : Bool) (p : FilePath)
    → p ≢ partial_path sink
    → (open_sink sink fs total_size resume_existing).2.contents p ≡ fs.contents p
unfolding open_sink
open_sink-others sink fs total_size resume_existing p other =
    let path = partial_path sink in
    let sink' : FileSink = record sink { total_size = total_size } in
    let stat = file_size fs path in
    let again = open_existing stat.1 path in
    ground (
      arith,
      open_fresh-others sink' fs p other,
      open_fresh-others sink' stat.1 p other,
      open_fresh-others sink' again.1 p other,
      file_size-contents fs path,
      open_existing-contents stat.1 path,
    )

pub write_at-others :
    (sink : FileSink) (fs : Files) (offset : ℕ) (bytes : List ℕ) (p : FilePath)
    → p ≢ partial_path sink
    → (write_at sink fs offset bytes).2.contents p ≡ fs.contents p
unfolding write_at
write_at-others sink fs offset bytes p other =
    ground (arith, write-others fs (partial_path sink) offset bytes p other)

pub flush-others : (sink : FileSink) (fs : Files) → (flush sink fs).2.contents ≡ fs.contents
unfolding flush
flush-others sink fs = ground (arith, flush-contents fs)

pub finalize-others :
    (sink : FileSink) (fs : Files) (p : FilePath)
    → p ≢ partial_path sink
    → p ≢ sink.final_path
    → (finalize sink fs).2.contents p ≡ fs.contents p
unfolding finalize
finalize-others sink fs p p_partial p_final = ground (
  arith,
  flush-contents fs,
  replace-others fs (partial_path sink) sink.final_path p p_partial p_final,
  replace-others (Files.flush fs).1 (partial_path sink) sink.final_path p p_partial p_final,
)

-- The calls keep the sink's path.
pub open_sink-final_path :
    (sink : FileSink) (fs : Files) (total_size : ℕ) (resume_existing : Bool)
    → (open_sink sink fs total_size resume_existing).1.final_path ≡ sink.final_path
unfolding open_sink open_fresh
open_sink-final_path sink fs total_size resume_existing = ground arith

pub write_at-final_path :
    (sink : FileSink) (fs : Files) (offset : ℕ) (bytes : List ℕ)
    → (write_at sink fs offset bytes).1.final_path ≡ sink.final_path
unfolding write_at
write_at-final_path sink fs offset bytes = ground arith

pub flush-final_path :
    (sink : FileSink) (fs : Files) → (flush sink fs).1.final_path ≡ sink.final_path
unfolding flush
flush-final_path sink fs = ground arith

-- A finalize that fails has kept the final file, or removed it.
pub finalize_failed_target :
    (sink : FileSink) (fs : Files)
    → (finalize sink fs).0 ≡ false
    → ((finalize sink fs).2.contents sink.final_path ≡ fs.contents sink.final_path)
      ⊎ ((finalize sink fs).2.contents sink.final_path ≡ none)
unfolding finalize
finalize_failed_target sink fs e = ground (
  arith,
  flush-contents fs,
  replace_target (Files.flush fs).1 (partial_path sink) sink.final_path,
  replace_target fs (partial_path sink) sink.final_path,
)
