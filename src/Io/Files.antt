-- ===== src/Io/Files.antt =====
-- What src/lib/io uses of std::filesystem and of file streams: the bytes of the files, by path, and
-- the outcome of every call to come. A call takes its outcome off the list; with none left, it
-- succeeds. A write that fails has stored some of its first bytes. A path is the list of its bytes.
pub mod Overwrite
pub mod Laws
pub mod Calm
use ati_tcp_file_transfer.Base.{
  ℕ, ◌+◌, ◌-◌, ◌^◌, ltb, if◌then◌else◌, not, Bool, true, false, bytes_eq,
}
use ati_tcp_file_transfer.Base.{
  Option, none, some, List, [], ◌∷◌, ◌++◌, length, take, drop, replicate,
}

abbrev pub FilePath : Type 0
FilePath = List ℕ

pub data Outcome : Type 0 where
  succeeds : Outcome
  fails : ℕ → Outcome

pub record Files : Type 0 where
  pub contents : FilePath → Option (List ℕ)
  pub outcomes : List Outcome

-- The outcome of the next call, and the outcomes behind it.
unfoldable pub next_outcome : List Outcome → Outcome × List Outcome
next_outcome [] = (succeeds, [])
next_outcome (o ∷ outcomes) = (o, outcomes)

unfoldable pub store :
    (FilePath → Option (List ℕ)) → FilePath → Option (List ℕ) → FilePath → Option (List ℕ)
store contents path content p = if bytes_eq p path then content else contents p

-- Bytes written at an offset: those before and behind stay, and a gap is filled with zeros.
unfoldable pub overwrite : List ℕ → ℕ → List ℕ → List ℕ
overwrite content offset bytes =
    take offset (content ++ replicate (offset - length content) 0)
    ++ (bytes ++ drop (offset + length bytes) content)

-- `exists(path, ec)` and, where it is there, `file_size(path, ec)`: 0 where it is not, `none` where
-- an error is reported.
unfoldable pub file_size : Files → FilePath → Option ℕ × Files
unfolding next_outcome
file_size fs path =
    let (o, outcomes) = next_outcome fs.outcomes in
    let size : ℕ = elim (fs.contents path) [ none ↦ 0 | some content ↦ length content ] in
    (elim o [ fails n ↦ none | succeeds ↦ some size ], record fs { outcomes = outcomes })

-- `open(path, in | out)`: the file must be there, and is kept.
unfoldable pub open_existing : Files → FilePath → Bool × Files
unfolding next_outcome
open_existing fs path =
    let (o, outcomes) = next_outcome fs.outcomes in
    let fs' = record fs { outcomes = outcomes } in
    elim o [
      | fails n ↦ (false, fs')
      | succeeds ↦ elim (fs.contents path) [ none ↦ (false, fs') | some content ↦ (true, fs') ]
    ]

-- `open(path, out | trunc)`
unfoldable pub open_truncated : Files → FilePath → Bool × Files
unfolding next_outcome store
open_truncated fs path =
    let (o, outcomes) = next_outcome fs.outcomes in
    elim o [
      | fails n ↦ (false, record fs { outcomes = outcomes })
      | succeeds ↦
          (true, record { contents = store fs.contents path (some []); outcomes = outcomes })
    ]

-- `seekp(offset)` and `write(bytes)` on a stream that is open on `path`, with `good()` behind them.
-- The offset is converted to the signed `std::streamoff`; a negative one fails.
unfoldable pub write : Files → FilePath → ℕ → List ℕ → Bool × Files
unfolding next_outcome store overwrite
write fs path offset bytes =
    let (o, outcomes) = next_outcome fs.outcomes in
    let old : List ℕ = elim (fs.contents path) [ none ↦ [] | some content ↦ content ] in
    let written : List ℕ → Files = λ stored. record {
      contents = store fs.contents path (some (overwrite old offset stored));
      outcomes = outcomes;
    } in
    if not (ltb offset (2 ^ 63))
    then (false, record fs { outcomes = outcomes })
    else elim o [ fails n ↦ (false, written (take n bytes)) | succeeds ↦ (true, written bytes) ]

-- `read(n)` of a stream that is open on `path`, behind `seekg(offset)`: the bytes there are, at most
-- `n`; `none` where the call fails before the end of the file.
unfoldable pub read_bytes : Files → FilePath → ℕ → ℕ → Option (List ℕ) × Files
unfolding next_outcome
read_bytes fs path offset n =
    let (o, outcomes) = next_outcome fs.outcomes in
    let content : List ℕ = elim (fs.contents path) [ none ↦ [] | some bytes ↦ bytes ] in
    (
      elim o [ fails m ↦ none | succeeds ↦ some (take n (drop offset content)) ],
      record fs { outcomes = outcomes },
    )

-- `flush()`: what was written has reached the file; the call may still report an error.
unfoldable pub flush : Files → Bool × Files
unfolding next_outcome
flush fs =
    let (o, outcomes) = next_outcome fs.outcomes in
    (elim o [ fails n ↦ false | succeeds ↦ true ], record fs { outcomes = outcomes })

-- `flush()` of a stream that has written a file from its start, with bytes that may still be in its
-- buffer: where it fails, only some first bytes have reached the file.
unfoldable pub flush_buffer : Files → FilePath → Bool × Files
unfolding next_outcome store
flush_buffer fs path =
    let (o, outcomes) = next_outcome fs.outcomes in
    let content : List ℕ = elim (fs.contents path) [ none ↦ [] | some bytes ↦ bytes ] in
    elim o [
      | fails n ↦ (
        false,
        record { contents = store fs.contents path (some (take n content)); outcomes = outcomes },
      )
      | succeeds ↦ (true, record fs { outcomes = outcomes })
    ]

-- Reads of a stream one behind the other, from the start of the file: all its bytes, or the first of
-- them where a read fails.
unfoldable pub read_from_start : Files → FilePath → List ℕ × Files
unfolding next_outcome
read_from_start fs path =
    let (o, outcomes) = next_outcome fs.outcomes in
    let content : List ℕ = elim (fs.contents path) [ none ↦ [] | some bytes ↦ bytes ] in
    (elim o [ fails n ↦ take n content | succeeds ↦ content ], record fs { outcomes = outcomes })

-- `rename(from, to, ec)`: an existing target is replaced, or the call fails and changes nothing.
unfoldable pub rename : Files → FilePath → FilePath → Bool × Files
unfolding next_outcome store
rename fs from to =
    let (o, outcomes) = next_outcome fs.outcomes in
    let fs' = record fs { outcomes = outcomes } in
    elim o [
      | fails n ↦ (false, fs')
      | succeeds ↦ elim (fs.contents from) [
        | none ↦ (false, fs')
        | some content ↦
            (true, record fs' { contents = store (store fs.contents from none) to (some content) })
      ]
    ]

-- `remove(path, ec)`, whose result is not looked at.
unfoldable pub remove : Files → FilePath → Files
unfolding next_outcome store
remove fs path =
    let (o, outcomes) = next_outcome fs.outcomes in
    elim o [
      | fails n ↦ record fs { outcomes = outcomes }
      | succeeds ↦ record { contents = store fs.contents path none; outcomes = outcomes }
    ]

-- `rename`, and where it fails a removal of the target and a second attempt: `FileSink::finalize` and
-- `ResumeState::save` end so.
unfoldable pub replace : Files → FilePath → FilePath → Bool × Files
replace fs from to =
    let (renamed, fs') = rename fs from to in
    let (retried, fs'') = rename (remove fs' to) from to in
    if renamed then (true, fs') else if retried then (true, fs'') else (false, fs'')
