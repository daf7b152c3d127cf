-- ===== src/Proto/Messages/Canonical/Loops.antt =====
-- What the loops of the decoders return, as rules for a chain of reads.
use mathlib.Core.Option.{some-injective}
use mathlib.Core.List.{flatten}
use ati_tcp_file_transfer.Base.{ℕ, zero, suc, ◌<◌, ◌≡◌, refl, sym, ap, ◌∙◌, arith}
use ati_tcp_file_transfer.Base.{some, List, [], ◌∷◌, ◌++◌, map, length, All}
use ati_tcp_file_transfer.Util.Byteorder.{IsByte, u32_mod, write_be_u32}
use ati_tcp_file_transfer.Proto.Cursor.{
  Hash, Cursor, Parser, rest, pure, ◌>>=◌, ◌>>◌, take_u32, take_hash,
}
use ati_tcp_file_transfer.Proto.Cursor.Rules.{bind-inv}
use ati_tcp_file_transfer.Proto.Cursor.Returns.{IsHash, Returns, step}
use ati_tcp_file_transfer.Proto.Cursor.Takes.{Took, Took-append, take_u32-Took, take_hash-Took}
use ati_tcp_file_transfer.Proto.Messages.{take_hashes, take_indices, check_count, rest_of}

returned :
    {A : Type 0} (a : A) (c : Cursor) (b : A) (c' : Cursor)
    → pure a c ≡ some (b, c')
    → (a ≡ b) × (c ≡ c')
returned {A} a c b c' e =
    let same : ◌≡◌ {A = A × Cursor} (a, c) (b, c') = some-injective _ _ e in
    (ap (λ (r : A × Cursor). r.0) same, ap (λ (r : A × Cursor). r.1) same)

-- The loops over the hashes and the indices.
take_hashes-Took :
    (n : ℕ) (c : Cursor) (hashes : List Hash) (c' : Cursor)
    → All IsByte (rest c)
    → take_hashes n c ≡ some (hashes, c')
    → Took (flatten hashes) c c' × ((length hashes ≡ n) × All IsHash hashes)
unfolding take_hashes flatten
take_hashes-Took zero c hashes c' h e =
    let (none_read, stays) = returned [] c hashes c' e in
    rw (← none_read, ← stays) (record { split = refl; bytes = h }, (refl, tt))
take_hashes-Took (suc n) c hashes c' h e =
    let (x, c₁, first, more) = bind-inv take_hash _ c (hashes, c') e in
    let (t, k) = take_hash-Took c x c₁ h first in
    let (xs, c₂, others, done) = bind-inv (take_hashes n) _ c₁ (hashes, c') more in
    let (t', k') = take_hashes-Took n c₁ xs c₂ t.bytes others in
    let (whole, stays) = returned (x ∷ xs) c₂ hashes c' done in
    rw (← whole, ← stays)
      (Took-append x (flatten xs) c c₁ c₂ t t', (omega (arith, k'.0), (k, k'.1)))

take_indices-Took :
    (n : ℕ) (c : Cursor) (indices : List ℕ) (c' : Cursor)
    → All IsByte (rest c)
    → take_indices n c ≡ some (indices, c')
    → Took (flatten (map write_be_u32 indices)) c c'
      × ((length indices ≡ n) × All (λ i. i < u32_mod) indices)
unfolding take_indices flatten
take_indices-Took zero c indices c' h e =
    let (none_read, stays) = returned [] c indices c' e in
    rw (← none_read, ← stays) (record { split = refl; bytes = h }, (refl, tt))
take_indices-Took (suc n) c indices c' h e =
    let (x, c₁, first, more) = bind-inv take_u32 _ c (indices, c') e in
    let (t, k) = take_u32-Took c x c₁ h first in
    let (xs, c₂, others, done) = bind-inv (take_indices n) _ c₁ (indices, c') more in
    let (t', k') = take_indices-Took n c₁ xs c₂ t.bytes others in
    let (whole, stays) = returned (x ∷ xs) c₂ indices c' done in
    rw (← whole, ← stays)
      (
        Took-append (write_be_u32 x) (flatten (map write_be_u32 xs)) c c₁ c₂ t t',
        (omega (arith, k'.0), (k, k'.1)),
      )

check_count-Took : (n : ℕ) (c c' : Cursor) → check_count n c ≡ some (tt, c') → c' ≡ c
unfolding check_count
check_count-Took n c c' e = ground arith

module _ {B : Type 0} (s : List ℕ) (Q : B → Type 0) where
  pub step_hashes :
      (n : ℕ) (f : List Hash → Parser B)
      → ((hashes : List Hash) (s' : List ℕ)
          → (length hashes ≡ n) × All IsHash hashes
          → s ≡ flatten hashes ++ s'
          → Returns (f hashes) s' Q)
      → Returns (take_hashes n >>= f) s Q
  step_hashes n f =
      step (take_hashes n) flatten (λ hashes. (length hashes ≡ n) × All IsHash hashes)
        (take_hashes-Took n) f s Q

  pub step_indices :
      (n : ℕ) (f : List ℕ → Parser B)
      → ((indices s' : List ℕ)
          → (length indices ≡ n) × All (λ i. i < u32_mod) indices
          → s ≡ flatten (map write_be_u32 indices) ++ s'
          → Returns (f indices) s' Q)
      → Returns (take_indices n >>= f) s Q
  step_indices n f =
      step (take_indices n) (λ indices. flatten (map write_be_u32 indices))
        (λ indices. (length indices ≡ n) × All (λ i. i < u32_mod) indices) (take_indices-Took n) f s
        Q

  pub step_count : (n : ℕ) (k : Parser B) → Returns k s Q → Returns (check_count n >> k) s Q
  step_count n k next = record {
    at = λ c b c' e h ran.
        let (_, c₁, checked, then_k) = bind-inv (check_count n) (λ _. k) c (b, c') ran in
        next.at c₁ b c' (ap rest (check_count-Took n c c₁ checked) ∙ e) h then_k;
  }

  pub step_rest : (f : List ℕ → Parser B) → Returns (f s) s Q → Returns (rest_of >>= f) s Q
  step_rest f next = record {
    at = λ c b c' e h ran. next.at c b c' e h (ap (λ t. f t c) (sym e) ∙ ran);
  }
