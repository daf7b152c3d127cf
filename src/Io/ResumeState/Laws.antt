-- ===== src/Io/ResumeState/Laws.antt =====
-- The bitmap as a set of chunk indices: construction, marking, the missing chunks, completeness.
use ati_tcp_file_transfer.Base.{
  ℕ, zero, suc, ◌+◌, ◌/◌, ◌%◌, ◌<◌, ◌≤◌, ◌≡◌, ◌↔◌, refl, sym, ◌∙◌, arith,
}
use ati_tcp_file_transfer.Base.{
  ◌==◌, ==_iff, ==_false→ne, if◌then◌else◌, Bool, true, false, ◌&&◌, ◌||◌, not,
}
use ati_tcp_file_transfer.Base.{ltb, ltb→lt, Bool-cases, inl, inr, bit_or}
use ati_tcp_file_transfer.Base.{List, [], ◌∷◌, length, get_or, set, length-set, length-replicate}
use ati_tcp_file_transfer.Base.{get_or-set_self, get_or-set_ne, get_or-replicate}
use ati_tcp_file_transfer.Base.Bits.{zero-bit_and}
use ati_tcp_file_transfer.Util.Byteorder.{IsByte, u32_mod}
use ati_tcp_file_transfer.Io.ResumeState.{
  ResumeState, bitmap_bytes, resume_state, is_set, mark_received, missing_from, missing,
  complete_from, complete, bit_of,
}
use ati_tcp_file_transfer.Io.ResumeState.Bitmap.{test, test-or}

-- The bitmap has a byte for every eight chunks, and each entry is a byte.
pub record IsValid (s : ResumeState) : Type 0 where
  pub id_size : length s.manifest_id ≡ 32
  pub no_wrap : s.chunk_count + 7 < u32_mod
  pub covers : length s.bitmap ≡ (s.chunk_count + 7) / 8
  pub bytes : (i : ℕ) → IsByte (get_or s.bitmap i 0)

get_or-set :
    (xs : List ℕ) (j i v : ℕ)
    → j < length xs
    → get_or (set xs j v) i 0 ≡ (if i == j then v else get_or xs i 0)
get_or-set xs j i v h = elim (Bool-cases (i == j)) [
  | inl same ↦ let e : i ≡ j = (==_iff i j).0 same in rw (same, e) (get_or-set_self xs j v 0 h)
  | inr differ ↦ rw differ (get_or-set_ne xs j i v 0 (λ e. ==_false→ne i j differ (sym e)))
]

pub in_bitmap : (s : ResumeState) (i : ℕ) → IsValid s → i < s.chunk_count → i / 8 < length s.bitmap
in_bitmap s i v h = omega (arith, v.covers)

pub resume_state-IsValid :
    (id : List ℕ) (count : ℕ)
    → length id ≡ 32
    → count + 7 < u32_mod
    → IsValid (resume_state id count)
unfolding resume_state
resume_state-IsValid id count n h = record {
  id_size = n;
  no_wrap = h;
  covers = omega (arith, length-replicate {A = ℕ} (bitmap_bytes count) 0, wraps_not);
  bytes = λ i. rw (get_or-replicate {A = ℕ} (bitmap_bytes count) i 0) (omega arith);
}
  where
    wraps_not : bitmap_bytes count ≡ (count + 7) / 8
    wraps_not = omega arith

-- Marking any chunk, in range or not, keeps a valid state valid.
pub mark_received-IsValid : (s : ResumeState) (j : ℕ) → IsValid s → IsValid (mark_received s j)
unfolding mark_received
mark_received-IsValid s j v = elim (Bool-cases (ltb j s.chunk_count)) [
  | inr out ↦ rw out v
  | inl here ↦ rw here (record {
    id_size = v.id_size;
    no_wrap = v.no_wrap;
    covers = omega (arith, length-set s.bitmap (j / 8) b, v.covers);
    bytes = byte (ltb→lt j s.chunk_count here);
  })
]
  where
    b : ℕ
    b = bit_or (get_or s.bitmap (j / 8) 0) (bit_of j) % 256

    byte : j < s.chunk_count → (i : ℕ) → IsByte (get_or (set s.bitmap (j / 8) b) i 0)
    byte h i = rw (get_or-set s.bitmap (j / 8) i b (in_bitmap s j v h)) (ground (arith, v.bytes i))

-- No chunk of a fresh state is set.
pub is_set-resume_state : (id : List ℕ) (count i : ℕ) → is_set (resume_state id count) i ≡ false
unfolding is_set resume_state
is_set-resume_state id count i =
    rw (get_or-replicate {A = ℕ} (bitmap_bytes count) (i / 8) 0, zero-bit_and) (ground arith)

marked :
    (bitmap : List ℕ) (i j : ℕ)
    → ((k : ℕ) → IsByte (get_or bitmap k 0))
    → j / 8 < length bitmap
    → test
        (get_or (set bitmap (j / 8) (bit_or (get_or bitmap (j / 8) 0) (bit_of j) % 256)) (i / 8) 0)
        (i % 8)
      ≡ (if i == j then true else test (get_or bitmap (i / 8) 0) (i % 8))
marked bitmap i j bytes h =
    rw (get_or-set bitmap (j / 8) (i / 8) (bit_or (get_or bitmap (j / 8) 0) (bit_of j) % 256) h)
      (elim (Bool-cases (i / 8 == j / 8)) [
        | inl same ↦
            let e : i / 8 ≡ j / 8 = (==_iff _ _).0 same in
            rw (same, e)
              (test-or (get_or bitmap (j / 8) 0) (j % 8) (i % 8) (bytes (j / 8)) (omega arith)
                  (omega arith)
                ∙ ground arith)
        | inr differ ↦ rw differ (let other : (i == j) ≡ false = ground arith in rw other)
      ])

-- In a valid state, marking a chunk below the count sets it and leaves every other one as it was.
pub is_set-mark_received :
    (s : ResumeState) (i j : ℕ)
    → IsValid s
    → j < s.chunk_count
    → is_set (mark_received s j) i ≡ (if i == j then true else is_set s i)
unfolding is_set mark_received
is_set-mark_received s i j v h = ground (arith, marked s.bitmap i j v.bytes (in_bitmap s j v h))

-- Membership in a list of indices.
unfoldable pub contains : ℕ → List ℕ → Bool
contains i [] = false
contains i (j ∷ js) = i == j || contains i js

contains-missing_from :
    (s : ResumeState) (n i k : ℕ)
    → contains k (missing_from s n i) ≡ (not (ltb k i) && (ltb k (i + n) && not (is_set s k)))
unfolding contains missing_from
contains-missing_from s zero i k = ground arith
contains-missing_from s (suc n) i k = ground (arith, contains-missing_from s n (i + 1) k)

-- The missing chunks are exactly the indices below the count that are not set.
pub contains-missing :
    (s : ResumeState) (k : ℕ) → contains k (missing s) ≡ (ltb k s.chunk_count && not (is_set s k))
unfolding missing
contains-missing s k = ground (arith, contains-missing_from s s.chunk_count 0 k)

-- In ascending order, each at most once, all at least `lo`.
abbrev pub Ascending : ℕ → List ℕ → Type 0
Ascending lo [] = Unit
Ascending lo (i ∷ is) = (lo ≤ i) × Ascending (i + 1) is

Ascending-weaken : (lo lo' : ℕ) (is : List ℕ) → lo ≤ lo' → Ascending lo' is → Ascending lo is
Ascending-weaken lo lo' [] h a = tt
Ascending-weaken lo lo' (i ∷ is) h a = (omega (arith, h, a.0), a.1)

missing_from-Ascending : (s : ResumeState) (n i : ℕ) → Ascending i (missing_from s n i)
unfolding missing_from
missing_from-Ascending s zero i = tt
missing_from-Ascending s (suc n) i = elim (Bool-cases (is_set s i)) [
  | inl set_already ↦ rw set_already (
      Ascending-weaken i (i + 1) (missing_from s n (i + 1)) (omega arith)
        (missing_from-Ascending s n (i + 1)))
  | inr still ↦ rw still (omega arith, missing_from-Ascending s n (i + 1))
]

-- The missing chunks are listed in ascending order, each once.
pub missing-Ascending : (s : ResumeState) → Ascending 0 (missing s)
unfolding missing
missing-Ascending s = missing_from-Ascending s s.chunk_count 0

complete_from-missing_from :
    (s : ResumeState) (n i : ℕ) → (complete_from s n i ≡ true) ↔ (missing_from s n i ≡ [])
unfolding complete_from missing_from
complete_from-missing_from s zero i = (λ _. refl, λ _. refl)
complete_from-missing_from s (suc n) i = ground (arith, complete_from-missing_from s n (i + 1))

-- A state is complete exactly when no chunk is missing.
pub complete-missing : (s : ResumeState) → (complete s ≡ true) ↔ (missing s ≡ [])
unfolding complete missing
complete-missing s = complete_from-missing_from s s.chunk_count 0

-- If a state is complete, every chunk below the count is set.
pub complete-is_set :
    (s : ResumeState) (i : ℕ) → complete s ≡ true → i < s.chunk_count → is_set s i ≡ true
unfolding contains
complete-is_set s i c h = ground (arith, (complete-missing s).0 c, contains-missing s i)
