-- ===== src/Runs/Resume.antt =====
-- Runs of the resume state: three chunks, of which the first and the last have arrived.
use ati_tcp_file_transfer.Base.{ℕ, ◌≡◌, refl, arith, true, not, ◌&&◌, if◌then◌else◌, ltb, ◌==◌}
use ati_tcp_file_transfer.Base.{List, [], ◌∷◌, ◌++◌, some, bytes_eq}
use ati_tcp_file_transfer.Io.ResumeState.{
  ResumeState, bitmap_bytes, resume_state, is_set, mark_received, missing, complete, serialize,
  deserialize, k_magic, read_le_u32, read_exactly,
}
use ati_tcp_file_transfer.Io.ResumeState.Laws.{
  IsValid, resume_state-IsValid, mark_received-IsValid, is_set-mark_received, contains,
  contains-missing,
}
use ati_tcp_file_transfer.Io.ResumeState.Format.{
  LoadedFrom, deserialize-serialize, deserialize_sound,
}
use ati_tcp_file_transfer.Runs.Data.{text, some_hash, two_of_three}

two_of_three-missing : missing two_of_three ≡ 1 ∷ []
unfolding missing is_set mark_received resume_state
two_of_three-missing = refl

fresh-IsValid : IsValid (resume_state some_hash 3)
fresh-IsValid = resume_state-IsValid some_hash 3 refl (omega arith)

two_of_three-IsValid : IsValid two_of_three
two_of_three-IsValid =
    mark_received-IsValid (mark_received (resume_state some_hash 3) 0) 2
      (mark_received-IsValid (resume_state some_hash 3) 0 fresh-IsValid)

is_set-mark_received_example :
    is_set (mark_received two_of_three 1) 2 ≡ (if 2 == 1 then true else is_set two_of_three 2)
unfolding mark_received resume_state
is_set-mark_received_example =
    is_set-mark_received two_of_three 2 1 two_of_three-IsValid (omega arith)

contains-missing_example :
    contains 1 (missing two_of_three) ≡ (ltb 1 3 && not (is_set two_of_three 1))
unfolding mark_received resume_state
contains-missing_example = contains-missing two_of_three 1

three_of_three : complete (mark_received two_of_three 1) ≡ true
unfolding complete is_set mark_received resume_state
three_of_three = refl

deserialize-serialize_example : deserialize (serialize two_of_three ++ text) ≡ some two_of_three
deserialize-serialize_example = deserialize-serialize two_of_three text two_of_three-IsValid

-- The state of one chunk as it lies in its file.
abbrev one_chunk : List ℕ
one_chunk = k_magic ++ (1 ∷ (some_hash ++ (1 ∷ 0 ∷ 0 ∷ 0 ∷ 1 ∷ [])))

abbrev one_of_one : ResumeState
one_of_one = record { manifest_id = some_hash; chunk_count = 1; bitmap = 1 ∷ [] }

one_chunk-deserialize : deserialize one_chunk ≡ some one_of_one
unfolding deserialize read_le_u32 read_exactly bitmap_bytes bytes_eq
one_chunk-deserialize = refl

deserialize_sound_example : LoadedFrom one_chunk one_of_one
deserialize_sound_example =
    deserialize_sound one_chunk one_of_one (omega arith) one_chunk-deserialize
