-- ===== src/Transport/Server/ReadBack.antt =====
-- The hash of the partial file, read back from the disk in blocks.
use mathlib.Core.List.{flatten, foldl}
use ati_tcp_file_transfer.Base.{
  ℕ, zero, suc, ◌+◌, ◌<◌, ◌≤◌, ◌≡◌, refl, sym, ap, ◌∙◌, arith, true, false, ltb,
}
use ati_tcp_file_transfer.Base.{
  some, List, [], ◌∷◌, ◌++◌, append-nil, length, take, drop, length-take, drop-drop,
  take-append-drop,
}
use ati_tcp_file_transfer.Util.Blake3.{Blake3, IsStreaming, blake3, new_hasher, update, finalize}
use ati_tcp_file_transfer.Util.Blake3.Streaming.{finalize-update}
use ati_tcp_file_transfer.Io.Files.{FilePath, Files, read_bytes, next_outcome}
use ati_tcp_file_transfer.Transport.Session.{Session, Exec}
use ati_tcp_file_transfer.Transport.Session.Rules.{
  Runs, Runs-pure, Runs-if, Runs-on_files, Runs-bind, Runs-bind_known, Runs-after,
}
use ati_tcp_file_transfer.Transport.Server.Calls.{Failure}
use ati_tcp_file_transfer.Transport.Server.Finish.{
  stored, block_size, take_block, hash_blocks, hash_file,
}

-- The file has these bytes, and no call on the files fails.
abbrev pub HasBytes : FilePath → List ℕ → Session → Type 0
HasBytes path w s = (s.files.contents path ≡ some w) × (s.files.outcomes ≡ [])

abbrev pub Never : Failure → Session → Type 0
Never e s = Unit {0}

pub take_whole : (n : ℕ) (xs : List ℕ) → length xs ≤ n → take n xs ≡ xs
take_whole zero [] h = refl
take_whole zero (x ∷ xs) h = absurd (omega arith)
take_whole (suc n) [] h = refl
take_whole (suc n) (x ∷ xs) h = ap (λ t. x ∷ t) (take_whole n xs (omega arith))

pub drop_whole : (n : ℕ) (xs : List ℕ) → length xs ≤ n → drop n xs ≡ []
drop_whole zero [] h = refl
drop_whole zero (x ∷ xs) h = absurd (omega arith)
drop_whole (suc n) [] h = refl
drop_whole (suc n) (x ∷ xs) h = drop_whole n xs (omega arith)

short_read : (n : ℕ) (xs : List ℕ) → length (take n xs) < n → length xs ≤ n
short_read n xs short = omega (arith, length-take n xs, short)

pub ltb-true : (m n : ℕ) → ltb m n ≡ true → m < n
ltb-true m n e = ground arith

ltb-false : (m n : ℕ) → ltb m n ≡ false → n ≤ m
ltb-false m n e = ground arith

pub read_bytes_whole :
    (fs : Files) (path : FilePath) (offset n : ℕ) (w : List ℕ)
    → fs.contents path ≡ some w
    → fs.outcomes ≡ []
    → ((read_bytes fs path offset n).0 ≡ some (take n (drop offset w)))
      × ((read_bytes fs path offset n).1.contents ≡ fs.contents)
      × ((read_bytes fs path offset n).1.outcomes ≡ [])
unfolding read_bytes next_outcome
read_bytes_whole fs path offset n w there calm = (ground arith, ground arith, ground arith)

module _ (b : Blake3) (path : FilePath) (w : List ℕ) where
  -- The hasher has taken the bytes from the offset on, in pieces.
  pub record Hashed (offset : ℕ) (h h' : b.Hasher) : Type 0 where
    pub pieces : List (List ℕ)
    pub whole : flatten pieces ≡ drop offset w
    pub folded : h' ≡ foldl (update b) h pieces

  Hashed-last :
      (k offset : ℕ) (h : b.Hasher)
      → length (take k (drop offset w)) < k
      → Hashed offset h (update b h (take k (drop offset w)))
  unfolding flatten
  Hashed-last k offset h short = record {
    pieces = take k (drop offset w) ∷ [];
    whole =
        append-nil (take k (drop offset w))
        ∙ take_whole k (drop offset w) (short_read k (drop offset w) short);
    folded = refl;
  }

  Hashed-next :
      (k offset : ℕ) (h h' : b.Hasher)
      → Hashed (offset + k) (update b h (take k (drop offset w))) h'
      → Hashed offset h h'
  unfolding flatten
  Hashed-next k offset h h' rest = record {
    pieces = take k (drop offset w) ∷ rest.pieces;
    whole =
        ap (λ t. take k (drop offset w) ++ t) (rest.whole ∙ sym (drop-drop k offset w))
        ∙ take-append-drop k (drop offset w);
    folded = rest.folded;
  }

  -- A predicate on sessions that the reads of the file keep, and under which they give its bytes.
  module _ (P : Session → Type 0) (R : Failure → Session → Type 0)
      (there : (s : Session) → P s → s.files.contents path ≡ some w)
      (reads : (s : Session)
        → P s
        → (offset k : ℕ)
        → ((read_bytes s.files path offset k).0 ≡ some (take k (drop offset w)))
          × P (record s { files = (read_bytes s.files path offset k).1 })) where
    abbrev After : ℕ → b.Hasher → b.Hasher → Session → Type 0
    After offset h h' s = Hashed offset h h' × P s

    take_block-Runs :
        (offset : ℕ) (next : b.Hasher → Exec Failure b.Hasher)
        → ((h : b.Hasher)
            → block_size ≤ length (take block_size (drop offset w))
            → Runs P (next h) (After (offset + block_size) h) R)
        → (h : b.Hasher)
        → Runs P (take_block b next h (some (take block_size (drop offset w)))) (After offset h) R
    unfolding take_block
    take_block-Runs offset next rest h =
        Runs-if P (After offset h) R (ltb (length (take block_size (drop offset w))) block_size) _ _
          (λ short.
            Runs-pure P (After offset h) R _
              (λ s before. (Hashed-last block_size offset h (ltb-true _ _ short), before)))
          λ full.
            Runs-after P _ (After offset h) R _
              (λ h' s (hashed, after). (Hashed-next block_size offset h h' hashed, after))
              (rest _ (ltb-false _ _ full))

    hash_blocks-Runs :
        (rounds offset : ℕ) (h : b.Hasher)
        → length w < offset + rounds
        → Runs P (hash_blocks b path rounds offset h) (After offset h) R
    unfolding hash_blocks flatten
    hash_blocks-Runs zero offset h enough = Runs-pure P (After offset h) R h (λ s before. (
      record {
        pieces = [];
        whole = sym (drop_whole offset w (omega (arith, enough)));
        folded = refl;
      },
      before,
    ))
    hash_blocks-Runs (suc rounds) offset h enough =
        Runs-bind_known P P (After offset h) R (some (take block_size (drop offset w))) _ _
          (Runs-on_files P _ R _ (λ s p. reads s p offset block_size))
          (take_block-Runs offset _
            (λ h' full.
              hash_blocks-Runs rounds (offset + block_size) h' (omega (arith, enough, full)))
            h)

    -- The read-back of a file gives the one-shot hash of its bytes.
    pub hash_file-reads :
        IsStreaming b → Runs P (hash_file b path) (λ hash s. (hash ≡ blake3 b w) × P s) R
    unfolding hash_file
    hash_file-reads streaming = record {
      at = λ s before.
          let size : length (stored (s.files.contents path)) ≡ length w =
            ap (λ o. length (stored o)) (there s before) in
          (Runs-bind P (λ hash s'. (hash ≡ blake3 b w) × P s') R (After 0 (new_hasher b)) _ _
              (hash_blocks-Runs _ 0 (new_hasher b) (omega (arith, size)))
              (λ h'.
                Runs-pure _ (λ hash s'. (hash ≡ blake3 b w) × P s') R _
                  (λ s' (hashed, after). (
                    ap (finalize b) hashed.folded
                        ∙ finalize-update b streaming hashed.pieces
                        ∙ ap (blake3 b) hashed.whole,
                    after,
                  )))).at
            s before;
    }

-- The read-back of a file gives the one-shot hash of its bytes, where no call fails.
pub hash_file-Runs :
    (b : Blake3) (path : FilePath) (w : List ℕ)
    → IsStreaming b
    → Runs
        (HasBytes path w)
        (hash_file b path)
        (λ hash s. (hash ≡ blake3 b w) × HasBytes path w s)
        Never
hash_file-Runs b path w =
    hash_file-reads b path w (HasBytes path w) Never (λ s h. h.0)
      (λ s (there, calm) offset n.
        let (got, same, calm') = read_bytes_whole s.files path offset n w there calm in
        (got, (ap (λ f. f path) same ∙ there, calm')))
