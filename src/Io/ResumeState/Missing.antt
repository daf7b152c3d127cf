-- ===== src/Io/ResumeState/Missing.antt =====
-- The list of the missing chunks, as the chunks of it arrive in order.
use ati_tcp_file_transfer.Base.{
  ℕ, zero, suc, ◌+◌, ◌<◌, ◌≤◌, ◌==◌, ◌≡◌, refl, ap, ◌∙◌, arith, true, false, Bool-cases, inl, inr,
  List, ◌∷◌, length, All,
}
use ati_tcp_file_transfer.Io.ResumeState.{ResumeState, is_set, mark_received, missing_from, missing}
use ati_tcp_file_transfer.Io.ResumeState.Laws.{IsValid, is_set-mark_received}

-- A list of missing chunks is as long as the rounds at most, and all of it is below the end.
pub missing_from-bounds :
    (s : ResumeState) (bound n i : ℕ)
    → i + n ≤ bound
    → (length (missing_from s n i) ≤ n) × All (λ j. j < bound) (missing_from s n i)
unfolding missing_from
missing_from-bounds s bound zero i h = (omega arith, tt)
missing_from-bounds s bound (suc n) i h =
    let (short, below) = missing_from-bounds s bound n (i + 1) (omega (arith, h)) in
    elim (Bool-cases (is_set s i)) [
      | inl there ↦ rw there (omega (arith, short), below)
      | inr absent ↦ rw absent (omega (arith, short), (omega (arith, h), below))
    ]

-- Behind the chunk that was marked, the list is as it was.
missing_from-behind :
    (s : ResumeState) (j n i : ℕ)
    → IsValid s
    → j < s.chunk_count
    → j < i
    → missing_from (mark_received s j) n i ≡ missing_from s n i
unfolding missing_from
missing_from-behind s j zero i v h before = refl
missing_from-behind s j (suc n) i v h before =
    let other : (i == j) ≡ false = ground (arith, before) in
    let same : is_set (mark_received s j) i ≡ is_set s i =
      is_set-mark_received s i j v h ∙ rw other refl in
    rw (same, missing_from-behind s j n (i + 1) v h (omega (arith, before))) refl

missing_from-mark_received :
    (s : ResumeState) (j n i : ℕ) (others : List ℕ)
    → IsValid s
    → j < s.chunk_count
    → missing_from s n i ≡ j ∷ others
    → missing_from (mark_received s j) n i ≡ others
unfolding missing_from
missing_from-mark_received s j zero i others v h e = absurd (ground arith)
missing_from-mark_received s j (suc n) i others v h e = elim (Bool-cases (is_set s i)) [
  | inl there ↦
      let still : is_set (mark_received s j) i ≡ true =
        is_set-mark_received s i j v h ∙ ground arith in
      rw still (missing_from-mark_received s j n (i + 1) others v h (ground arith))
  | inr absent ↦
      let first : i ≡ j = ground arith in
      let now : is_set (mark_received s j) i ≡ true =
        is_set-mark_received s i j v h ∙ ground arith in
      rw now (missing_from-behind s j n (i + 1) v h (omega (arith, first)) ∙ ground arith)
]

pub mark_received-chunk_count :
    (s : ResumeState) (j : ℕ) → (mark_received s j).chunk_count ≡ s.chunk_count
unfolding mark_received
mark_received-chunk_count s j = ground arith

-- In a valid state, marking the first of the missing chunks leaves the others missing.
pub missing-mark_received :
    (s : ResumeState) (j : ℕ) (others : List ℕ)
    → IsValid s
    → j < s.chunk_count
    → missing s ≡ j ∷ others
    → missing (mark_received s j) ≡ others
unfolding missing
missing-mark_received s j others v h e =
    ap (λ (n : ℕ). missing_from (mark_received s j) n 0) (mark_received-chunk_count s j)
    ∙ missing_from-mark_received s j s.chunk_count 0 others v h e
