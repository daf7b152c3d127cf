-- ===== src/Io/ResumeState/Save.antt =====
-- src/lib/io/resume_state.cpp: save, load and remove, on the files.
pub mod Laws
use ati_tcp_file_transfer.Base.{ℕ, if◌then◌else◌, not, Bool, false}
use ati_tcp_file_transfer.Base.{Option, none, List, [], ◌∷◌, ◌++◌}
use ati_tcp_file_transfer.Io.Files.{
  FilePath, Files, open_existing, open_truncated, write, flush_buffer, read_from_start, replace,
}
use ati_tcp_file_transfer.Io.Files
use ati_tcp_file_transfer.Io.ResumeState.{ResumeState, serialize, deserialize}

abbrev pub tmp_suffix : List ℕ
tmp_suffix = b'.' ∷ b't' ∷ b'm' ∷ b'p' ∷ []

unfoldable pub tmp_path : FilePath → FilePath
tmp_path path = path ++ tmp_suffix

-- The writes are one, and `good()` is looked at behind the last. The flush comes after that, and its
-- result is not looked at.
unfoldable pub save : ResumeState → Files → FilePath → Bool × Files
save s fs path =
    let (opened, fs₁) = open_truncated fs (tmp_path path) in
    let (good, fs₂) = write fs₁ (tmp_path path) 0 (serialize s) in
    if not opened
    then (false, fs₁)
    else if not good
    then (false, fs₂)
    else replace (flush_buffer fs₂ (tmp_path path)).1 (tmp_path path) path

-- A read that fails leaves a field short, like the end of the file.
unfoldable pub load : Files → FilePath → Option ResumeState × Files
load fs path =
    let (opened, fs₁) = open_existing fs path in
    let (file, fs₂) = read_from_start fs₁ path in
    if not opened then (none, fs₁) else (deserialize file, fs₂)

unfoldable pub remove : Files → FilePath → Files
remove fs path = Files.remove fs path
