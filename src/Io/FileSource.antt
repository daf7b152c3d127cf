-- ===== src/Io/FileSource.antt =====
-- include/ftx/io/file_source.hpp and src/lib/io/file_source.cpp: the file of a sender. Every file is
-- a regular one. A read takes the bytes that the file has when it is read.
pub mod Laws
pub mod Succeeds
use ati_tcp_file_transfer.Base.{ℕ, ◌-◌, ◌^◌, ltb, if◌then◌else◌, not, Bool, true, false}
use ati_tcp_file_transfer.Base.{Option, none, some, List, []}
use ati_tcp_file_transfer.Io.Files.{FilePath, Files, file_size, open_existing, read_bytes}

pub data SourceError : Type 0 where
  no_error not_found stat_failed open_failed closed_source beyond_eof seek_failed : SourceError
  short_read : SourceError

pub record FileSource : Type 0 where
  pub path : FilePath
  pub is_open : Bool
  pub size : ℕ
  pub last_error : SourceError

-- The constructor.
abbrev pub file_source : FilePath → FileSource
file_source path = record { path = path; is_open = false; size = 0; last_error = no_error }

unfoldable pub is_there : Option (List ℕ) → Bool
is_there none = false
is_there (some content) = true

unfoldable pub open_source : FileSource → Files → Bool × FileSource × Files
unfolding is_there
open_source src fs =
    let (file_size, fs₁) = file_size fs src.path in
    let (opened, fs₂) = open_existing fs₁ src.path in
    if not (is_there (fs.contents src.path))
    then (false, record src { last_error = not_found }, fs)
    else elim file_size [
      | none ↦ (false, record src { last_error = stat_failed }, fs₁)
      | some n ↦
          if not opened
          then (false, record src { size = n; last_error = open_failed }, fs₂)
          else (true, record src { size = n; is_open = true }, fs₂)
    ]

-- The bytes that are read are the result in place of the buffer and `*out_n`. A read that ends at
-- the end of the file before it has all the bytes is no error.
unfoldable pub read_at : FileSource → Files → ℕ → ℕ → Option (List ℕ) × FileSource × Files
read_at src fs offset buf_size =
    let available = src.size - offset in
    let to_read = if ltb available buf_size then available else buf_size in
    let (got, fs') = read_bytes fs src.path offset to_read in
    if not src.is_open
    then (none, record src { last_error = closed_source }, fs)
    else if ltb src.size offset
    then (none, record src { last_error = beyond_eof }, fs)
    else if not (ltb offset (2 ^ 63))
    then (none, record src { last_error = seek_failed }, fs)
    else elim got [
      | none ↦ (none, record src { last_error = short_read }, fs')
      | some bytes ↦ (some bytes, src, fs')
    ]

unfoldable pub close : FileSource → FileSource
close src = if src.is_open then record src { is_open = false } else src
