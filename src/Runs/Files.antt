-- ===== src/Runs/Files.antt =====
-- Runs of the file sink and of the resume file: a sink for five bytes, and its partial file.
use ati_tcp_file_transfer.Base.{
  ℕ, ◌≡◌, ◌≢◌, ◌≤◌, ◌+◌, ◌-◌, refl, arith, true, false, none, some, List, [], ◌∷◌,
}
use ati_tcp_file_transfer.Base.{length, get_or, ltb, if◌then◌else◌, bytes_eq}
use ati_tcp_file_transfer.Io.Files.{
  FilePath, succeeds, fails, Files, store, next_outcome, open_existing, open_truncated, write,
  flush, rename, remove, replace, file_size, read_bytes, flush_buffer, read_from_start,
}
use ati_tcp_file_transfer.Io.Files.Laws.{Moved}
use ati_tcp_file_transfer.Io.FileSink.{
  FileSink, file_sink, partial_path, with_partial_suffix, open_sink, write_at, finalize,
  is_reusable,
}
use ati_tcp_file_transfer.Io.FileSink.Laws.{write_at_sound, Opened, open_sink_sound, finalize_sound}
use ati_tcp_file_transfer.Io.FileSource.{FileSource, file_source, is_there, open_source, read_at}
use ati_tcp_file_transfer.Io.ResumeState.Laws.{IsValid, mark_received-IsValid, resume_state-IsValid}
use ati_tcp_file_transfer.Io.ResumeState.{
  ResumeState, resume_state, mark_received, deserialize, serialize, read_exactly, write_le_u32,
  read_le_u32,
}
use ati_tcp_file_transfer.Io.ResumeState.Save.{save, load, tmp_path}
use ati_tcp_file_transfer.Io.ResumeState.Save.Laws.{load-save}
use ati_tcp_file_transfer.Runs.Data.{text, some_hash, two_of_three}

-- No files, and every call succeeds.
abbrev no_files : Files
no_files = record { contents = λ p. none; outcomes = [] }

abbrev one_of_three : ResumeState
one_of_three = mark_received (resume_state some_hash 3) 0

-- The partial file of `text` holds five bytes.
abbrev pub half_done : Files
half_done = record {
  contents =
      λ p. if bytes_eq p (with_partial_suffix text) then some (1 ∷ 2 ∷ 3 ∷ 4 ∷ 5 ∷ []) else none;
  outcomes = [];
}

abbrev sink : FileSink
sink = record (file_sink text) { is_open = true; total_size = 5 }

pub half_done-there : half_done.contents (partial_path sink) ≡ some (1 ∷ 2 ∷ 3 ∷ 4 ∷ 5 ∷ [])
unfolding with_partial_suffix bytes_eq
half_done-there = refl

written : (write_at sink half_done 1 (8 ∷ 9 ∷ [])).0 ≡ true
unfolding write_at write next_outcome
written = refl

write_at_sound_example :
    (1 + 2 ≤ 5)
    × ((c' : List ℕ) × ((write_at sink half_done 1 (8 ∷ 9 ∷ [])).2.contents (partial_path sink)
          ≡ some c')
        × (length c' ≡ 5)
        × ((i : ℕ)
            → get_or c' i 0 ≡ (
                if ltb i 1
                then get_or (1 ∷ 2 ∷ 3 ∷ 4 ∷ 5 ∷ []) i 0
                else if ltb i 3
                then get_or (8 ∷ 9 ∷ []) (i - 1) 0
                else get_or (1 ∷ 2 ∷ 3 ∷ 4 ∷ 5 ∷ []) i 0)))
    × ((p : FilePath)
        → p ≢ partial_path sink
        → (write_at sink half_done 1 (8 ∷ 9 ∷ [])).2.contents p ≡ half_done.contents p)
write_at_sound_example =
    write_at_sound sink half_done 1 (8 ∷ 9 ∷ []) (1 ∷ 2 ∷ 3 ∷ 4 ∷ 5 ∷ []) half_done-there
      (omega arith) (omega arith) written

reopened : (open_sink (file_sink text) half_done 5 true).0 ≡ true
unfolding open_sink file_size open_existing next_outcome is_reusable with_partial_suffix bytes_eq
reopened = refl

open_sink_sound_example :
    Opened (file_sink text) half_done (open_sink (file_sink text) half_done 5 true).2 5
open_sink_sound_example = open_sink_sound (file_sink text) half_done 5 true reopened

finalized : (finalize sink half_done).0 ≡ true
unfolding finalize flush replace rename next_outcome with_partial_suffix bytes_eq
finalized = refl

finalize_sound_example : Moved half_done (finalize sink half_done).2 (partial_path sink) text
finalize_sound_example = finalize_sound sink half_done finalized

-- Both renames fail: the fourth call is the second of them.
abbrev stuck : Files
stuck = record half_done { outcomes = succeeds ∷ fails 0 ∷ succeeds ∷ fails 0 ∷ [] }

not_finalized : (finalize sink stuck).0 ≡ false
unfolding finalize flush replace rename remove next_outcome
not_finalized = refl

one_of_three-IsValid : IsValid one_of_three
one_of_three-IsValid =
    mark_received-IsValid _ 0 (resume_state-IsValid some_hash 3 refl (omega arith))

two_of_three-IsValid : IsValid two_of_three
two_of_three-IsValid = mark_received-IsValid _ 2 one_of_three-IsValid

load-save_example :
    ((save two_of_three no_files text).0 ≡ true)
    × ((load (save two_of_three no_files text).1 text).0 ≡ some two_of_three)
load-save_example = load-save two_of_three no_files text two_of_three-IsValid refl

-- A state is saved; in the next save, the write stops after two bytes.
abbrev disk_full : Files
disk_full = record (save one_of_three no_files text).1 { outcomes = succeeds ∷ fails 2 ∷ [] }

-- The disk is full when the buffer of the stream is flushed: the save returns true, and the state that
-- was there is lost.
abbrev full_at_flush : Files
full_at_flush = record (save one_of_three no_files text).1 {
  outcomes = succeeds ∷ succeeds ∷ fails 2 ∷ [];
}

lost_state :
    ((save two_of_three full_at_flush text).0 ≡ true)
    × ((load (save two_of_three full_at_flush text).1 text).0 ≡ none)
unfolding save load open_truncated open_existing write flush_buffer read_from_start replace rename
    next_outcome store tmp_path bytes_eq deserialize read_exactly serialize mark_received
    resume_state write_le_u32 read_le_u32
lost_state = (refl, refl)

-- The partial file as a source of its own.
abbrev closed_source : FileSource
closed_source = file_source (with_partial_suffix text)

source_opened : (open_source closed_source half_done).0 ≡ true
unfolding open_source is_there file_size open_existing next_outcome with_partial_suffix bytes_eq
source_opened = refl

abbrev pub source : FileSource
source = record closed_source { size = 5; is_open = true }

-- Two bytes are left from the fourth on, though four are asked for.
last_bytes : (read_at source half_done 3 4).0 ≡ some (4 ∷ 5 ∷ [])
unfolding read_at read_bytes next_outcome with_partial_suffix bytes_eq
last_bytes = refl
