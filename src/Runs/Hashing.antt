-- ===== src/Runs/Hashing.antt =====
-- A hash that stands for BLAKE3 in the runs: the length and the first 31 bytes, padded with
-- zeros; short texts have hashes of their own.
use mathlib.Core.List.{flatten, foldl}
use ati_tcp_file_transfer.Base.{
  ℕ, zero, suc, ◌≤◌, length, get_or, drop, refl, ◌≡◌, sym, ap, ◌∙◌, arith, List, [], ◌∷◌, ◌++◌,
  take, replicate,
}
use ati_tcp_file_transfer.Base.{length-take, length-append, append_assoc, append-nil}
use ati_tcp_file_transfer.Util.Blake3.{Blake3, IsStreaming, update_unless_empty, blake3}

abbrev pub first_bytes : Blake3
first_bytes = record {
  Hasher = List ℕ;
  init = [];
  update = λ h bytes. h ++ bytes;
  finalize = λ h. take 32 (length h ∷ h ++ replicate 32 0);
}

append-flatten :
    (h : List ℕ) (pieces : List (List ℕ))
    → foldl (λ (k : List ℕ) bytes. k ++ bytes) h pieces ≡ h ++ flatten pieces
unfolding flatten
append-flatten h [] = sym (append-nil h)
append-flatten h (piece ∷ pieces) =
    append-flatten (h ++ piece) pieces ∙ append_assoc h piece (flatten pieces)

pub first_bytes-IsStreaming : IsStreaming first_bytes
first_bytes-IsStreaming = record {
  pieces = λ pieces. ap (λ h. take 32 (length h ∷ h ++ replicate 32 0)) (append-flatten [] pieces);
  empty_update = λ h. ap (λ k. take 32 (length k ∷ k ++ replicate 32 0)) (append-nil h);
  size = λ h.
      omega
        (arith, length-take 32 (length h ∷ h ++ replicate 32 0), length-append h (replicate 32 0));
}

take_front : (n k : ℕ) (xs zs : List ℕ) → length xs ≡ n → n ≤ k → take n (take k (xs ++ zs)) ≡ xs
take_front zero k [] zs size h = refl
take_front zero k (x ∷ xs) zs size h = absurd (omega arith)
take_front (suc n) k [] zs size h = absurd (omega arith)
take_front (suc n) zero (x ∷ xs) zs size h = absurd (omega arith)
take_front (suc n) (suc k) (x ∷ xs) zs size h =
    ap (λ t. x ∷ t) (take_front n k xs zs (omega arith) (omega arith))

blake3_first : (x : List ℕ) → blake3 first_bytes x ≡ first_bytes.finalize x
unfolding blake3 update_unless_empty
blake3_first [] = refl
blake3_first (b ∷ x) = refl

-- A text of fewer than 32 bytes is the only one with its hash.
pub first_bytes-injective :
    (x y : List ℕ) → length y ≤ 31 → blake3 first_bytes x ≡ blake3 first_bytes y → x ≡ y
first_bytes-injective x y short e =
    let same : first_bytes.finalize x ≡ first_bytes.finalize y =
      sym (blake3_first x) ∙ e ∙ blake3_first y in
    let size : length x ≡ length y = ap (λ (l : List ℕ). get_or l 0 0) same in
    let front : take 31 (x ++ replicate 32 0) ≡ take 31 (y ++ replicate 32 0) =
      ap (λ (l : List ℕ). drop 1 l) same in
    sym (take_front (length y) 31 x (replicate 32 0) size short)
    ∙ ap (take (length y)) front
    ∙ take_front (length y) 31 y (replicate 32 0) refl short
