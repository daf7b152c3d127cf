-- ===== src/Io/FileSink/Laws.antt =====
-- What a call of the sink that succeeds has done to the files.
use ati_tcp_file_transfer.Base.{
  ℕ, suc, ◌+◌, ◌-◌, ◌^◌, ◌<◌, ◌≤◌, ◌≡◌, ◌≢◌, refl, sym, ap, ◌∙◌, arith,
}
use ati_tcp_file_transfer.Base.{
  ltb, if◌then◌else◌, Bool, true, false, Option, none, some, Bool-cases, ◌⊎◌, inl, inr,
}
use ati_tcp_file_transfer.Base.{
  List, [], ◌∷◌, length, get_or, replicate, length-append, length-replicate,
}
use ati_tcp_file_transfer.Io.Files.{
  FilePath, Files, store, overwrite, file_size, open_existing, open_truncated, write, replace,
}
use ati_tcp_file_transfer.Io.Files
use ati_tcp_file_transfer.Io.Files.Overwrite.{
  length-overwrite, get_or-overwrite, overwrite_pre_size,
}
use ati_tcp_file_transfer.Io.Files.Laws.{
  store_self, store_ne, flush-contents, open_truncated-contents, write-contents, file_size-contents,
  open_existing-contents, open_existing_there, Moved, Moved-before, replace_succeeds, replace_fails,
}
use ati_tcp_file_transfer.Io.FileSink.{
  FileSink, with_partial_suffix, partial_path, partial_suffix, open_fresh, is_reusable, open_sink,
  write_at, finalize,
}

-- The partial file is another file than the final one.
partial-ne-final : (sink : FileSink) → sink.final_path ≢ partial_path sink
unfolding with_partial_suffix
partial-ne-final sink e = omega (arith, ap length e, length-append sink.final_path partial_suffix)

-- A write through the sink that succeeds, of less than 2 ^ 63 bytes to a partial file that has its
-- full size, has stayed within the size; it has put the bytes at their offset and kept the file's
-- length, all its other bytes and all other files.
pub write_at_sound :
    (sink : FileSink) (fs : Files) (offset : ℕ) (bytes c : List ℕ)
    → fs.contents (partial_path sink) ≡ some c
    → sink.total_size ≤ length c
    → length bytes < 2 ^ 63
    → (write_at sink fs offset bytes).0 ≡ true
    → (offset + length bytes ≤ sink.total_size)
      × ((c' : List ℕ) × ((write_at sink fs offset bytes).2.contents (partial_path sink) ≡ some c')
          × (length c' ≡ length c)
          × ((i : ℕ)
              → get_or c' i 0 ≡ (
                  if ltb i offset
                  then get_or c i 0
                  else if ltb i (offset + length bytes)
                  then get_or bytes (i - offset) 0
                  else get_or c i 0)))
      × ((p : FilePath)
          → p ≢ partial_path sink
          → (write_at sink fs offset bytes).2.contents p ≡ fs.contents p)
unfolding write_at write
write_at_sound sink fs offset bytes c there sized small e =
    let within : offset + length bytes ≤ sink.total_size = ground arith in
    (
      within,
      (
        overwrite c offset bytes,
        ground
            (arith, store_self fs.contents (partial_path sink) (some (overwrite c offset bytes))),
        length-overwrite c offset bytes (omega (arith, within, sized)),
        λ i. get_or-overwrite c offset bytes i (omega (arith, within, sized)),
      ),
      λ p other. ground (
        arith,
        store_ne fs.contents (partial_path sink) p (some (overwrite c offset bytes)) other,
      ),
    )

pub write_at-overwrite :
    (sink : FileSink) (fs : Files) (offset : ℕ) (bytes c : List ℕ)
    → fs.contents (partial_path sink) ≡ some c
    → (write_at sink fs offset bytes).0 ≡ true
    → (write_at sink fs offset bytes).2.contents (partial_path sink)
      ≡ some (overwrite c offset bytes)
unfolding write_at write
write_at-overwrite sink fs offset bytes c there e =
    ground (arith, store_self fs.contents (partial_path sink) (some (overwrite c offset bytes)))

-- A sink that is opened afresh has a partial file of its full size, all zeros, and has kept all
-- other files.
pub open_fresh_sound :
    (sink : FileSink) (fs : Files)
    → (open_fresh sink fs).0 ≡ true
    → ((open_fresh sink fs).2.contents (partial_path sink) ≡ some (replicate sink.total_size 0))
      × ((open_fresh sink fs).1 ≡ record sink { is_open = true })
      × ((p : FilePath) → p ≢ partial_path sink → (open_fresh sink fs).2.contents p ≡ fs.contents p)
unfolding open_fresh
open_fresh_sound sink fs e =
    let path : FilePath = partial_path sink in
    let zero_byte : List ℕ = 0 ∷ [] in
    let fs' : Files = (open_truncated fs path).1 in
    let opened : (open_truncated fs path).0 ≡ true = ground arith in
    let emptied : fs'.contents ≡ store fs.contents path (some []) =
      open_truncated-contents fs path opened in
    let there : fs'.contents path ≡ some [] =
      (λ i. emptied i path) ∙ store_self fs.contents path (some []) in
    let others : (p : FilePath) → p ≢ path → fs'.contents p ≡ fs.contents p =
      λ p other. (λ i. emptied i p) ∙ store_ne fs.contents path p (some []) other in
    elim (Bool-cases (ltb 0 sink.total_size)) [
      | inr empty ↦
          let none_left : sink.total_size ≡ 0 = ground arith in
          rw (opened, empty) (there ∙ rw none_left, refl, others)
      | inl some_bytes ↦
          let sized : (write fs' path (sink.total_size - 1) zero_byte).0 ≡ true = ground arith in
          let after : (write fs' path (sink.total_size - 1) zero_byte).1.contents
              ≡ store fs'.contents path (some (overwrite [] (sink.total_size - 1) zero_byte)) =
            write-contents fs' path (sink.total_size - 1) zero_byte [] there sized in
          let full : suc (sink.total_size - 1) ≡ sink.total_size = ground arith in
          rw (opened, some_bytes, sized)
            (
              (λ i. after i path)
                  ∙ store_self fs'.contents path _
                  ∙ ap some (
                      overwrite_pre_size (sink.total_size - 1)
                      ∙ ap (λ (n : ℕ). replicate n 0) full),
              refl,
              λ p other. (λ i. after i p) ∙ store_ne fs'.contents path p _ other ∙ others p other,
            )
    ]

-- What opening a sink leaves: a partial file of at least the full size, which is the one that was
-- there or all zeros, and all other files.
pub record Opened (sink : FileSink) (fs fs' : Files) (total_size : ℕ) : Type 0 where
  pub content : List ℕ
  pub there : fs'.contents (partial_path sink) ≡ some content
  pub room : total_size ≤ length content
  pub origin : (fs.contents (partial_path sink) ≡ some content) ⊎ (content ≡ replicate total_size 0)
  pub others : (p : FilePath) → p ≢ partial_path sink → fs'.contents p ≡ fs.contents p

Opened-fresh :
    (sink : FileSink) (fs fs₁ : Files) (total_size : ℕ)
    → fs₁.contents ≡ fs.contents
    → (open_fresh (record sink { total_size = total_size }) fs₁).0 ≡ true
    → Opened sink fs (open_fresh (record sink { total_size = total_size }) fs₁).2 total_size
Opened-fresh sink fs fs₁ total_size same e =
    let (there, _, others) = open_fresh_sound (record sink { total_size = total_size }) fs₁ e in
    record {
      content = replicate total_size 0;
      there = there;
      room = omega (arith, length-replicate {A = ℕ} total_size 0);
      origin = inr refl;
      others = λ p other. others p other ∙ (λ i. same i p);
    }

is_reusable-le :
    (size : Option ℕ) (total_size : ℕ)
    → is_reusable size total_size ≡ true
    → (n : ℕ) × (size ≡ some n) × (total_size ≤ n)
unfolding is_reusable
is_reusable-le none total_size h = absurd (ground arith)
is_reusable-le (some n) total_size h = (n, refl, ground arith)

-- A sink that is opened, to resume or not, has its stream open and its size set.
pub open_sink-is_open :
    (sink : FileSink) (fs : Files) (total_size : ℕ) (resume_existing : Bool)
    → (open_sink sink fs total_size resume_existing).0 ≡ true
    → (open_sink sink fs total_size resume_existing).1
      ≡ record sink { total_size = total_size; is_open = true }
unfolding open_sink open_fresh
open_sink-is_open sink fs total_size resume_existing e = ground arith

-- Opening a sink, to resume or not, leaves a partial file of at least the full size, which is the
-- one that was there or all zeros, and keeps all other files.
pub open_sink_sound :
    (sink : FileSink) (fs : Files) (total_size : ℕ) (resume_existing : Bool)
    → (open_sink sink fs total_size resume_existing).0 ≡ true
    → Opened sink fs (open_sink sink fs total_size resume_existing).2 total_size
unfolding open_sink
open_sink_sound sink fs total_size false e = Opened-fresh sink fs fs total_size refl e
open_sink_sound sink fs total_size true e =
    let path : FilePath = partial_path sink in
    let stat = file_size fs path in
    let again = open_existing stat.1 path in
    elim (Bool-cases (is_reusable stat.0 total_size)) [
      | inr small ↦
          let fresh : (open_fresh (record sink { total_size = total_size }) stat.1).0 ≡ true =
            ground arith in
          rw small (Opened-fresh sink fs stat.1 total_size (file_size-contents fs path) fresh)
      | inl large ↦ elim (Bool-cases again.0) [
        | inr closed ↦
            let fresh : (open_fresh (record sink { total_size = total_size }) again.1).0 ≡ true =
              ground arith in
            rw (large, closed)
              (Opened-fresh sink fs again.1 total_size
                (open_existing-contents stat.1 path ∙ file_size-contents fs path) fresh)
        | inl reused ↦
            let (c, there, size) = open_existing_there fs path reused in
            let (n, reported, enough) = is_reusable-le stat.0 total_size large in
            let same : again.1.contents ≡ fs.contents =
              open_existing-contents stat.1 path ∙ file_size-contents fs path in
            rw (large, reused)
              (record {
                content = c;
                there = (λ i. same i path) ∙ there;
                room = omega (arith, enough, size n reported);
                origin = inl there;
                others = λ p _ i. same i p;
              })
      ]
    ]

-- The files before `finalize` renames.
flushed : FileSink → Files → Files
flushed sink fs = if sink.is_open then (Files.flush fs).1 else fs

flushed-contents : (sink : FileSink) (fs : Files) → (flushed sink fs).contents ≡ fs.contents
unfolding flushed
flushed-contents sink fs = elim (Bool-cases sink.is_open) [
  | inl open_still ↦ rw open_still (flush-contents fs)
  | inr closed ↦ rw closed
]

-- A finalize that succeeds has moved the partial file to the final path, and kept all other files.
pub finalize_sound :
    (sink : FileSink) (fs : Files)
    → (finalize sink fs).0 ≡ true
    → Moved fs (finalize sink fs).2 (partial_path sink) sink.final_path
unfolding finalize flushed
finalize_sound sink fs e =
    let renamed : (replace (flushed sink fs) (partial_path sink) sink.final_path).0 ≡ true =
      ground arith in
    rw renamed (
      Moved-before fs (flushed sink fs)
        (replace (flushed sink fs) (partial_path sink) sink.final_path).1 (partial_path sink)
        sink.final_path (λ k. partial-ne-final sink (sym k))
        (λ p _. ap (λ (c : FilePath → Option (List ℕ)). c p) (flushed-contents sink fs))
        (replace_succeeds (flushed sink fs) (partial_path sink) sink.final_path
          (partial-ne-final sink) renamed))

-- A finalize that fails has kept the partial file, and all files but the final one.
finalize_failed :
    (sink : FileSink) (fs : Files) (p : FilePath)
    → (finalize sink fs).0 ≡ false
    → p ≢ sink.final_path
    → (finalize sink fs).2.contents p ≡ fs.contents p
unfolding finalize flushed
finalize_failed sink fs p e other = ground (
  arith,
  replace_fails (flushed sink fs) (partial_path sink) sink.final_path p,
  flushed-contents sink fs,
)
