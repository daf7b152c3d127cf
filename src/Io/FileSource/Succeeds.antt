-- ===== src/Io/FileSource/Succeeds.antt =====
-- The calls of a source where its file is there and no call on the files fails.
use ati_tcp_file_transfer.Base.{
  ℕ, ◌-◌, ◌^◌, ◌<◌, ◌≤◌, ◌≡◌, arith, true, some, List, length, take, drop,
}
use ati_tcp_file_transfer.Base.{length-drop}
use ati_tcp_file_transfer.Io.Files.{
  FilePath, Files, next_outcome, file_size, open_existing, read_bytes,
}
use ati_tcp_file_transfer.Io.Files.Calm.{IsCalm}
use ati_tcp_file_transfer.Io.FileSource.{FileSource, file_source, is_there, open_source, read_at}
use ati_tcp_file_transfer.Io.FileSource.Laws.{take_all}

-- The file is there, and no call to come fails.
pub record There (path : FilePath) (c : List ℕ) (fs : Files) : Type 0 where
  pub calm : IsCalm fs
  pub content : fs.contents path ≡ some c

pub open_source-succeeds :
    (path : FilePath) (fs : Files) (c : List ℕ)
    → There path c fs
    → ((open_source (file_source path) fs).0 ≡ true)
      × ((open_source (file_source path) fs).1
          ≡ record (file_source path) { size = length c; is_open = true })
      × There path c (open_source (file_source path) fs).2
unfolding open_source is_there file_size open_existing next_outcome
open_source-succeeds path fs c t =
    let calm = t.calm in
    let content = t.content in
    (ground arith, ground arith, record { calm = ground arith; content = ground arith })

pub read_at-succeeds :
    (src : FileSource) (fs : Files) (offset n : ℕ) (c : List ℕ)
    → There src.path c fs
    → src.is_open ≡ true
    → src.size ≡ length c
    → offset ≤ length c
    → offset < 2 ^ 63
    → ((read_at src fs offset n).0 ≡ some (take n (drop offset c)))
      × ((read_at src fs offset n).1 ≡ src)
      × There src.path c (read_at src fs offset n).2
unfolding read_at read_bytes next_outcome
read_at-succeeds src fs offset n c t opened sized within small =
    let calm = t.calm in
    let content = t.content in
    (
      ground (
        arith,
        take_all n (drop offset c),
        take_all (length c - offset) (drop offset c),
        length-drop offset c,
      ),
      ground arith,
      record { calm = ground arith; content = ground arith },
    )
