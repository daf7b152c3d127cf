-- ===== src/Io/FileSink.antt =====
-- include/ftx/io/file_sink.hpp and src/lib/io/file_sink.cpp: the random-access file of a receiver.
-- A method takes the sink and the files, and returns its result, the sink and the files. The stream
-- is open on the partial file or not; the texts of `last_error_` are a data type.
pub mod Laws
pub mod Others
pub mod Calm
pub mod Succeeds
use ati_tcp_file_transfer.Base.{
  ℕ, ◌+◌, ◌-◌, ◌%◌, ltb, leb, if◌then◌else◌, not, Bool, true, false, ◌&&◌,
}
use ati_tcp_file_transfer.Base.{Option, none, some, List, [], ◌∷◌, ◌++◌, length}
use ati_tcp_file_transfer.Util.Byteorder.{u64_mod}
use ati_tcp_file_transfer.Io.Files.{
  FilePath, Files, file_size, open_existing, open_truncated, write, replace,
}
use ati_tcp_file_transfer.Io.Files

pub data SinkError : Type 0 where
  no_error open_failed pre_size_failed closed_sink out_of_range write_failed flush_failed :
      SinkError
  rename_failed : SinkError

pub record FileSink : Type 0 where
  pub final_path : FilePath
  pub is_open : Bool
  pub total_size : ℕ
  pub last_error : SinkError

abbrev pub partial_suffix : List ℕ
partial_suffix = b'.' ∷ b'p' ∷ b'a' ∷ b'r' ∷ b't' ∷ b'i' ∷ b'a' ∷ b'l' ∷ []

unfoldable pub with_partial_suffix : FilePath → FilePath
with_partial_suffix p = p ++ partial_suffix

abbrev pub partial_path : FileSink → FilePath
partial_path sink = with_partial_suffix sink.final_path

-- The constructor.
abbrev pub file_sink : FilePath → FileSink
file_sink final_path = record {
  final_path = final_path;
  is_open = false;
  total_size = 0;
  last_error = no_error;
}

-- The branch of `open` that creates the partial file at its full size.
unfoldable pub open_fresh : FileSink → Files → Bool × FileSink × Files
open_fresh sink fs =
    let (opened, fs') = open_truncated fs (partial_path sink) in
    let (sized, fs'') = write fs' (partial_path sink) (sink.total_size - 1) (0 ∷ []) in
    if not opened
    then (false, record sink { last_error = open_failed }, fs')
    else if not (ltb 0 sink.total_size)
    then (true, record sink { is_open = true }, fs')
    else if not sized
    then (false, record sink { is_open = true; last_error = pre_size_failed }, fs'')
    else (true, record sink { is_open = true }, fs'')

-- `!stat_ec && cur_size >= total_size`
unfoldable pub is_reusable : Option ℕ → ℕ → Bool
is_reusable none total_size = false
is_reusable (some size) total_size = leb total_size size

-- The creation of the parent directories is not modelled: its failure shows when a file is opened.
unfoldable pub open_sink : FileSink → Files → ℕ → Bool → Bool × FileSink × Files
unfolding open_fresh is_reusable
open_sink sink fs total_size resume_existing =
    let sink' = record sink { total_size = total_size } in
    let (current_size, fs₁) = file_size fs (partial_path sink) in
    let (reused, fs₂) = open_existing fs₁ (partial_path sink) in
    if not resume_existing
    then open_fresh sink' fs
    else if not (is_reusable current_size total_size)
    then open_fresh sink' fs₁
    else if reused
    then (true, record sink' { is_open = true }, fs₂)
    else open_fresh sink' fs₂

-- The sum is one of uint64.
unfoldable pub write_at : FileSink → Files → ℕ → List ℕ → Bool × FileSink × Files
write_at sink fs offset bytes =
    let (written, fs') = write fs (partial_path sink) offset bytes in
    if not sink.is_open
    then (false, record sink { last_error = closed_sink }, fs)
    else if ltb sink.total_size ((offset + length bytes) % u64_mod)
    then (false, record sink { last_error = out_of_range }, fs)
    else if not written
    then (false, record sink { last_error = write_failed }, fs')
    else (true, sink, fs')

unfoldable pub flush : FileSink → Files → Bool × FileSink × Files
flush sink fs =
    let (flushed, fs') = Files.flush fs in
    if not sink.is_open
    then (true, sink, fs)
    else if not flushed
    then (false, record sink { last_error = flush_failed }, fs')
    else (true, sink, fs')

-- The results of the flush and of the close are not looked at. What a write through the sink has put
-- into the file is not lost where they fail; `commit` flushes before, and looks at the result.
unfoldable pub finalize : FileSink → Files → Bool × FileSink × Files
finalize sink fs =
    let fs' = if sink.is_open then (Files.flush fs).1 else fs in
    let closed = record sink { is_open = false } in
    let (renamed, fs'') = replace fs' (partial_path sink) sink.final_path in
    if renamed
    then (true, closed, fs'')
    else (false, record closed { last_error = rename_failed }, fs'')

unfoldable pub close : FileSink → FileSink
close sink = if sink.is_open then record sink { is_open = false } else sink
