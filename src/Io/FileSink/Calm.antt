-- ===== src/Io/FileSink/Calm.antt =====
-- The calls of a sink and of the resume file, where no call on the files fails.
use ati_tcp_file_transfer.Base.{ℕ, ◌-◌, ◌≡◌, arith, Bool, List, [], ◌∷◌}
use ati_tcp_file_transfer.Io.Files.{
  FilePath, Files, file_size, open_existing, open_truncated, write, flush_buffer,
}
use ati_tcp_file_transfer.Io.Files.Calm.{
  IsCalm, file_size-IsCalm, open_existing-IsCalm, open_truncated-IsCalm, write-IsCalm, flush-IsCalm,
  replace-IsCalm, flush_buffer-IsCalm, read_from_start-IsCalm,
}
use ati_tcp_file_transfer.Io.FileSink.{
  FileSink, partial_path, open_fresh, open_sink, write_at, flush,
}
use ati_tcp_file_transfer.Io.ResumeState.{ResumeState, serialize}
use ati_tcp_file_transfer.Io.ResumeState.Save.{save, load, tmp_path}

open_fresh-IsCalm : (sink : FileSink) (fs : Files) → IsCalm fs → IsCalm (open_fresh sink fs).2
unfolding open_fresh
open_fresh-IsCalm sink fs calm =
    let fs' = (open_truncated fs (partial_path sink)).1 in
    ground (
      arith,
      open_truncated-IsCalm fs (partial_path sink),
      write-IsCalm fs' (partial_path sink) (sink.total_size - 1) (0 ∷ []),
    )

pub open_sink-IsCalm :
    (sink : FileSink) (fs : Files) (total_size : ℕ) (resume_existing : Bool)
    → IsCalm fs
    → IsCalm (open_sink sink fs total_size resume_existing).2
unfolding open_sink
open_sink-IsCalm sink fs total_size resume_existing calm =
    let path = partial_path sink in
    let sink' : FileSink = record sink { total_size = total_size } in
    let stat = file_size fs path in
    let again = open_existing stat.1 path in
    ground (
      arith,
      file_size-IsCalm fs path,
      open_existing-IsCalm stat.1 path,
      open_fresh-IsCalm sink' fs,
      open_fresh-IsCalm sink' stat.1,
      open_fresh-IsCalm sink' again.1,
    )

pub open_sink-total_size :
    (sink : FileSink) (fs : Files) (total_size : ℕ) (resume_existing : Bool)
    → (open_sink sink fs total_size resume_existing).1.total_size ≡ total_size
unfolding open_sink open_fresh
open_sink-total_size sink fs total_size resume_existing = ground arith

pub write_at-IsCalm :
    (sink : FileSink) (fs : Files) (offset : ℕ) (bytes : List ℕ)
    → IsCalm fs
    → IsCalm (write_at sink fs offset bytes).2
unfolding write_at
write_at-IsCalm sink fs offset bytes calm =
    ground (arith, write-IsCalm fs (partial_path sink) offset bytes)

pub write_at-total_size :
    (sink : FileSink) (fs : Files) (offset : ℕ) (bytes : List ℕ)
    → (write_at sink fs offset bytes).1.total_size ≡ sink.total_size
unfolding write_at
write_at-total_size sink fs offset bytes = ground arith

pub flush_sink-IsCalm : (sink : FileSink) (fs : Files) → IsCalm fs → IsCalm (flush sink fs).2
unfolding flush
flush_sink-IsCalm sink fs calm = ground (arith, flush-IsCalm fs)

pub save-IsCalm :
    (s : ResumeState) (fs : Files) (path : FilePath) → IsCalm fs → IsCalm (save s fs path).1
unfolding save
save-IsCalm s fs path calm =
    let opened = (open_truncated fs (tmp_path path)).1 in
    let written = (write opened (tmp_path path) 0 (serialize s)).1 in
    ground (
      arith,
      open_truncated-IsCalm fs (tmp_path path),
      write-IsCalm opened (tmp_path path) 0 (serialize s),
      flush_buffer-IsCalm written (tmp_path path),
      replace-IsCalm (flush_buffer written (tmp_path path)).1 (tmp_path path) path,
    )

pub load-IsCalm : (fs : Files) (path : FilePath) → IsCalm fs → IsCalm (load fs path).1
unfolding load
load-IsCalm fs path calm =
    ground
      (arith, open_existing-IsCalm fs path, read_from_start-IsCalm (open_existing fs path).1 path)
