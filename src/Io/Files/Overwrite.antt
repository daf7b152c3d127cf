-- ===== src/Io/Files/Overwrite.antt =====
-- The bytes of a file after a write at an offset.
use ati_tcp_file_transfer.Base.{ℕ, zero, suc, ◌+◌, ◌-◌, ◌<◌, ◌≤◌, ◌≡◌, refl, sym, ap, ◌∙◌, arith}
use ati_tcp_file_transfer.Base.{ltb, if◌then◌else◌}
use ati_tcp_file_transfer.Base.{List, [], ◌∷◌, ◌++◌, length, get_or, take, drop, replicate}
use ati_tcp_file_transfer.Base.{
  length-append, length-take, length-drop, length-replicate, take-append, append-nil, drop-nil,
}
use ati_tcp_file_transfer.Io.Files.{overwrite}

get_or-append :
    (xs ys : List ℕ) (i : ℕ)
    → get_or (xs ++ ys) i 0
      ≡ (if ltb i (length xs) then get_or xs i 0 else get_or ys (i - length xs) 0)
get_or-append [] ys i = ground arith
get_or-append (x ∷ xs) ys zero = ground arith
get_or-append (x ∷ xs) ys (suc i) = get_or-append xs ys i ∙ ground arith

pub get_or-take : (n : ℕ) (xs : List ℕ) (i : ℕ) → i < n → get_or (take n xs) i 0 ≡ get_or xs i 0
get_or-take zero xs i h = absurd (omega arith)
get_or-take (suc n) [] i h = refl
get_or-take (suc n) (x ∷ xs) zero h = refl
get_or-take (suc n) (x ∷ xs) (suc i) h = get_or-take n xs i (omega arith)

pub get_or-drop : (n : ℕ) (xs : List ℕ) (i : ℕ) → get_or (drop n xs) i 0 ≡ get_or xs (n + i) 0
get_or-drop zero xs i = let e : 0 + i ≡ i = omega arith in rw e
get_or-drop (suc n) [] i = refl
get_or-drop (suc n) (x ∷ xs) i =
    let e : suc n + i ≡ suc (n + i) = omega arith in rw e (get_or-drop n xs i)

-- Inside the file, the length stays.
pub length-overwrite :
    (c : List ℕ) (offset : ℕ) (b : List ℕ)
    → offset + length b ≤ length c
    → length (overwrite c offset b) ≡ length c
unfolding overwrite
length-overwrite c offset b h =
    let gap : List ℕ = replicate (offset - length c) 0 in
    omega (
      arith,
      length-append (take offset (c ++ gap)) (b ++ drop (offset + length b) c),
      length-append b (drop (offset + length b) c),
      length-take offset (c ++ gap),
      length-append c gap,
      length-drop (offset + length b) c,
    )

-- Inside the file, the bytes of the range are the new ones and all others stay.
pub get_or-overwrite :
    (c : List ℕ) (offset : ℕ) (b : List ℕ) (i : ℕ)
    → offset + length b ≤ length c
    → get_or (overwrite c offset b) i 0 ≡ (
        if ltb i offset
        then get_or c i 0
        else if ltb i (offset + length b)
        then get_or b (i - offset) 0
        else get_or c i 0)
unfolding overwrite
get_or-overwrite c offset b i h = ground (
  arith,
  get_or-append front (b ++ drop (offset + length b) c) i,
  get_or-append b (drop (offset + length b) c) (i - offset),
  size,
  get_or-take offset (c ++ gap) i,
  get_or-append c gap i,
  get_or-drop (offset + length b) c (i - offset - length b),
  λ (k : offset + length b ≤ i). ap (λ (n : ℕ). get_or c n 0) (behind k),
)
  where
    gap : List ℕ
    gap = replicate (offset - length c) 0

    front : List ℕ
    front = take offset (c ++ gap)

    size : length front ≡ offset
    size = omega (arith, length-take offset (c ++ gap), length-append c gap)

    behind : offset + length b ≤ i → offset + length b + (i - offset - length b) ≡ i
    behind k = omega arith

zeros_end : (n : ℕ) → ◌≡◌ {A = List ℕ} (replicate n 0 ++ 0 ∷ []) (replicate (suc n) 0)
zeros_end zero = refl
zeros_end (suc n) = ap (λ (t : List ℕ). 0 ∷ t) (zeros_end n)

-- One zero that is written to an empty file, behind a gap.
pub overwrite_pre_size : (n : ℕ) → overwrite [] n (0 ∷ []) ≡ replicate (suc n) 0
unfolding overwrite
overwrite_pre_size n =
    let zeros : List ℕ = replicate n 0 in
    let whole : take n zeros ≡ zeros =
      ap (take n) (sym (append-nil zeros)) ∙ take-append n zeros [] (length-replicate n 0) in
    let gap : n - 0 ≡ n = omega arith in rw (gap, whole, drop-nil {A = ℕ} (n + 1)) (zeros_end n)

-- Bytes that are written to an empty file.
pub overwrite_empty : (b : List ℕ) → overwrite [] 0 b ≡ b
unfolding overwrite
overwrite_empty b = rw (drop-nil {A = ℕ} (0 + length b)) (append-nil b)

-- Bytes put within the content stand between what was before and behind them.
pub overwrite_within :
    (c : List ℕ) (offset : ℕ) (b : List ℕ)
    → offset ≤ length c
    → overwrite c offset b ≡ take offset c ++ (b ++ drop (offset + length b) c)
unfolding overwrite
overwrite_within c offset b h =
    let gap : offset - length c ≡ 0 = omega arith in rw (gap, append-nil c) refl
