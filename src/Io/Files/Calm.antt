-- ===== src/Io/Files/Calm.antt =====
-- Where no call on the files fails, none fails later.
use ati_tcp_file_transfer.Base.{ℕ, ◌≡◌, arith, List, []}
use ati_tcp_file_transfer.Io.Files.{
  FilePath, Files, next_outcome, file_size, open_existing, open_truncated, write, rename, replace,
  flush_buffer, read_from_start,
}
use ati_tcp_file_transfer.Io.Files

-- No call to come fails.
abbrev pub IsCalm : Files → Type 0
IsCalm fs = fs.outcomes ≡ []

pub file_size-IsCalm : (fs : Files) (p : FilePath) → IsCalm fs → IsCalm (file_size fs p).1
unfolding file_size next_outcome
file_size-IsCalm fs p calm = ground arith

pub open_existing-IsCalm : (fs : Files) (p : FilePath) → IsCalm fs → IsCalm (open_existing fs p).1
unfolding open_existing next_outcome
open_existing-IsCalm fs p calm = ground arith

pub open_truncated-IsCalm : (fs : Files) (p : FilePath) → IsCalm fs → IsCalm (open_truncated fs p).1
unfolding open_truncated next_outcome
open_truncated-IsCalm fs p calm = ground arith

pub write-IsCalm :
    (fs : Files) (p : FilePath) (offset : ℕ) (bytes : List ℕ)
    → IsCalm fs
    → IsCalm (write fs p offset bytes).1
unfolding write next_outcome
write-IsCalm fs p offset bytes calm = ground arith

pub flush-IsCalm : (fs : Files) → IsCalm fs → IsCalm (Files.flush fs).1
unfolding Files.flush next_outcome
flush-IsCalm fs calm = ground arith

pub flush_buffer-IsCalm : (fs : Files) (p : FilePath) → IsCalm fs → IsCalm (flush_buffer fs p).1
unfolding flush_buffer next_outcome
flush_buffer-IsCalm fs p calm = ground arith

pub flush_buffer_keeps :
    (fs : Files) (p : FilePath) → IsCalm fs → (flush_buffer fs p).1.contents ≡ fs.contents
unfolding flush_buffer next_outcome
flush_buffer_keeps fs p calm = ground arith

pub read_from_start-IsCalm :
    (fs : Files) (p : FilePath) → IsCalm fs → IsCalm (read_from_start fs p).1
unfolding read_from_start next_outcome
read_from_start-IsCalm fs p calm = ground arith

pub remove-IsCalm : (fs : Files) (p : FilePath) → IsCalm fs → IsCalm (Files.remove fs p)
unfolding Files.remove next_outcome
remove-IsCalm fs p calm = ground arith

rename-IsCalm : (fs : Files) (from to : FilePath) → IsCalm fs → IsCalm (rename fs from to).1
unfolding rename next_outcome
rename-IsCalm fs from to calm = ground arith

pub replace-IsCalm : (fs : Files) (from to : FilePath) → IsCalm fs → IsCalm (replace fs from to).1
unfolding replace
replace-IsCalm fs from to calm = ground (
  arith,
  rename-IsCalm fs from to,
  remove-IsCalm (rename fs from to).1 to,
  rename-IsCalm (Files.remove (rename fs from to).1 to) from to,
)
