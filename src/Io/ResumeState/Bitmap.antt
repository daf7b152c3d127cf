-- ===== src/Io/ResumeState/Bitmap.antt =====
-- Bits of one byte, by a table, and the shape of the bitmap.
use ati_tcp_file_transfer.Base.{ℕ, zero, suc, ◌+◌, ◌%◌, ◌^◌, ◌<◌, ◌≤◌, ◌≡◌, refl, arith}
use ati_tcp_file_transfer.Base.{◌==◌, if◌then◌else◌, Bool, true, false, not}
use ati_tcp_file_transfer.Base.{bit_and, bit_or}

-- Whether `p` holds of the `n` numbers from `x` on.
all_from : (ℕ → Bool) → ℕ → ℕ → Bool
all_from p x zero = true
all_from p x (suc n) = if p x then all_from p (x + 1) n else false

all_from→at : (p : ℕ → Bool) (x n y : ℕ) → all_from p x n ≡ true → x ≤ y → y < x + n → p y ≡ true
unfolding all_from
all_from→at p x zero y table low high = absurd (omega arith)
all_from→at p x (suc n) y table low high = ground (arith, all_from→at p (x + 1) n y)

bool_eq : Bool → Bool → Bool
bool_eq true true = true
bool_eq true false = false
bool_eq false true = false
bool_eq false false = true

bool_eq→eq : (a b : Bool) → bool_eq a b ≡ true → a ≡ b
unfolding bool_eq
bool_eq→eq true true h = refl
bool_eq→eq true false h = cc
bool_eq→eq false true h = cc
bool_eq→eq false false h = refl

-- Whether bit `j` of `b` is set.
abbrev pub test : ℕ → ℕ → Bool
test b j = not (bit_and b (2 ^ j) == 0)

-- Bit `i` of `b | (1 << j)`.
or_entry : ℕ → ℕ → ℕ → Bool
unfolding bool_eq
or_entry b j i = bool_eq (test (bit_or b (2 ^ j) % 256) i) (if i == j then true else test b i)

or_table : all_from (λ b. all_from (λ j. all_from (λ i. or_entry b j i) 0 8) 0 8) 0 256 ≡ true
unfolding all_from or_entry
or_table = refl

-- Setting a bit of a byte sets that bit and keeps the others.
pub test-or :
    (b j i : ℕ)
    → b < 256
    → j < 8
    → i < 8
    → test (bit_or b (2 ^ j) % 256) i ≡ (if i == j then true else test b i)
unfolding or_entry
test-or b j i hb hj hi =
    let row = all_from→at (λ b. all_from (λ j. all_from (λ i. or_entry b j i) 0 8) 0 8) 0 256 b in
    let cell = all_from→at (λ j. all_from (λ i. or_entry b j i) 0 8) 0 8 j in
    let entry = all_from→at (λ i. or_entry b j i) 0 8 i in
    bool_eq→eq _ _ (
      entry (cell (row or_table (omega arith) (omega arith)) (omega arith) (omega arith))
        (omega arith) (omega arith))
