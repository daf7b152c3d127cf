-- ===== src/Io/FileSource/Laws.antt =====
-- What an opened source reads, and that the chunks of a file make up the file.
use ati_tcp_file_transfer.Base.{ℕ, zero, suc, ◌-◌, ◌≤◌, ◌≡◌, refl, ap, arith}
use ati_tcp_file_transfer.Base.{true, inl, inr}
use ati_tcp_file_transfer.Base.{some, Option-cases, List, [], ◌∷◌, length, take, drop}
use ati_tcp_file_transfer.Base.{length-drop}
use ati_tcp_file_transfer.Io.Files.{Files, file_size, open_existing, read_bytes}
use ati_tcp_file_transfer.Io.FileSource.{FileSource, is_there, open_source, read_at}

-- Taking more than there is takes all.
pub take_all : {A : Type 0} (n : ℕ) (xs : List A) → length xs ≤ n → take n xs ≡ xs
take_all zero [] h = refl
take_all zero (x ∷ xs) h = absurd (omega arith)
take_all (suc n) [] h = refl
take_all (suc n) (x ∷ xs) h = ap (λ t. x ∷ t) (take_all n xs (omega arith))

-- A source that was opened has the size of the file that is there, and has changed no file.
open_source_sound :
    (src : FileSource) (fs : Files)
    → (open_source src fs).0 ≡ true
    → ((c : List ℕ) × (fs.contents src.path ≡ some c)
        × ((open_source src fs).1 ≡ record src { size = length c; is_open = true }))
      × ((open_source src fs).2.contents ≡ fs.contents)
unfolding open_source is_there file_size open_existing
open_source_sound src fs e = elim (Option-cases (fs.contents src.path)) [
  | inl absent ↦ absurd (ground arith)
  | inr (c, there) ↦ ((c, there, ground arith), ground arith)
]

-- Where the source's size is that of the file, a read that succeeds gives the bytes from the offset
-- on, as many as were asked for or as there are.
pub read_at_sound :
    (src : FileSource) (fs : Files) (offset n : ℕ) (c bytes : List ℕ)
    → fs.contents src.path ≡ some c
    → src.size ≡ length c
    → (read_at src fs offset n).0 ≡ some bytes
    → (bytes ≡ take n (drop offset c)) × ((read_at src fs offset n).2.contents ≡ fs.contents)
unfolding read_at read_bytes
read_at_sound src fs offset n c bytes there sized e = ground (
  arith,
  take_all n (drop offset c),
  take_all (length c - offset) (drop offset c),
  length-drop offset c,
)

-- A read that succeeds leaves the source as it was.
pub read_at_source :
    (src : FileSource) (fs : Files) (offset n : ℕ) (bytes : List ℕ)
    → (read_at src fs offset n).0 ≡ some bytes
    → (read_at src fs offset n).1 ≡ src
unfolding read_at
read_at_source src fs offset n bytes e = ground arith
