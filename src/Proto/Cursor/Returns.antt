-- ===== src/Proto/Cursor/Returns.antt =====
-- What a parser that returns says of the bytes that it started before: a rule for each take, in the
-- order in which a decoder makes them.
use mathlib.Core.Option.{some-injective}
use ati_tcp_file_transfer.Base.{ℕ, ◌<◌, ◌≡◌, refl, sym, ap, ◌∙◌, arith}
use ati_tcp_file_transfer.Base.{some, List, [], ◌∷◌, ◌++◌, length, All}
use ati_tcp_file_transfer.Base.{Option-cases, inl, inr}
use ati_tcp_file_transfer.Util.Byteorder.{
  IsByte, u16_mod, u32_mod, u64_mod, write_be_u16, write_be_u32, write_be_u64,
}
use ati_tcp_file_transfer.Proto.Cursor.{
  Hash, k_hash_size, Cursor, Parser, cursor, rest, run, pure, ◌>>=◌, ◌>>◌, take_u8, take_u16,
  take_u32, take_u64, take_hash, take_string, at_end,
}
use ati_tcp_file_transfer.Proto.Cursor.Rules.{bind-inv}
use ati_tcp_file_transfer.Proto.Cursor.Takes.{
  Took, take_u8-Took, take_u16-Took, take_u32-Took, take_u64-Took, take_hash-Took, take_string-Took,
  at_end-Took,
}

abbrev pub IsHash : Hash → Type 0
IsHash h = length h ≡ k_hash_size

-- A parser that returns from a cursor before the bytes `s` returns a value of which `Q` holds.
pub record Returns {A : Type 0} (p : Parser A) (s : List ℕ) (Q : A → Type 0) : Type 0 where
  pub at : (c : Cursor) (a : A) (c' : Cursor) → rest c ≡ s → All IsByte s → p c ≡ some (a, c') → Q a

-- One take, and what follows it on the bytes that it left.
module _ {A B : Type 0} (p : Parser A) (enc : A → List ℕ) (P : A → Type 0)
    (took : (c : Cursor) (a : A) (c' : Cursor)
      → All IsByte (rest c)
      → p c ≡ some (a, c')
      → Took (enc a) c c' × P a)
    (f : A → Parser B) (s : List ℕ) (Q : B → Type 0) where
  pub step :
      ((a : A) (s' : List ℕ) → P a → s ≡ enc a ++ s' → Returns (f a) s' Q) → Returns (p >>= f) s Q
  step next = record {
    at = λ c b c' e h ran.
        let (a, c₁, first, then_f) = bind-inv p f c (b, c') ran in
        let (t, k) = took c a c₁ (rw e h) first in
        (next a (rest c₁) k (sym e ∙ t.split)).at c₁ b c' refl t.bytes then_f;
  }

module _ {B : Type 0} (s : List ℕ) (Q : B → Type 0) where
  pub step_u8 :
      (f : ℕ → Parser B)
      → ((v : ℕ) (s' : List ℕ) → IsByte v → s ≡ v ∷ s' → Returns (f v) s' Q)
      → Returns (take_u8 >>= f) s Q
  step_u8 f = step take_u8 (λ v. v ∷ []) IsByte take_u8-Took f s Q

  pub step_u16 :
      (f : ℕ → Parser B)
      → ((v : ℕ) (s' : List ℕ) → v < u16_mod → s ≡ write_be_u16 v ++ s' → Returns (f v) s' Q)
      → Returns (take_u16 >>= f) s Q
  step_u16 f = step take_u16 write_be_u16 (λ v. v < u16_mod) take_u16-Took f s Q

  pub step_u32 :
      (f : ℕ → Parser B)
      → ((v : ℕ) (s' : List ℕ) → v < u32_mod → s ≡ write_be_u32 v ++ s' → Returns (f v) s' Q)
      → Returns (take_u32 >>= f) s Q
  step_u32 f = step take_u32 write_be_u32 (λ v. v < u32_mod) take_u32-Took f s Q

  pub step_u64 :
      (f : ℕ → Parser B)
      → ((v : ℕ) (s' : List ℕ) → v < u64_mod → s ≡ write_be_u64 v ++ s' → Returns (f v) s' Q)
      → Returns (take_u64 >>= f) s Q
  step_u64 f = step take_u64 write_be_u64 (λ v. v < u64_mod) take_u64-Took f s Q

  pub step_hash :
      (f : Hash → Parser B)
      → ((h : Hash) (s' : List ℕ) → IsHash h → s ≡ h ++ s' → Returns (f h) s' Q)
      → Returns (take_hash >>= f) s Q
  step_hash f = step take_hash (λ h. h) IsHash take_hash-Took f s Q

  pub step_string :
      (n : ℕ) (f : List ℕ → Parser B)
      → ((t s' : List ℕ) → length t ≡ n → s ≡ t ++ s' → Returns (f t) s' Q)
      → Returns (take_string n >>= f) s Q
  step_string n f = step (take_string n) (λ t. t) (λ t. length t ≡ n) (take_string-Took n) f s Q

  -- The payload must end here.
  pub step_end : (k : Parser B) → (s ≡ [] → Returns k [] Q) → Returns (at_end >> k) s Q
  step_end k next = record {
    at = λ c b c' e h ran.
        let (_, c₁, ended, then_k) = bind-inv at_end (λ _. k) c (b, c') ran in
        let (same, none_left) = at_end-Took c c₁ ended in
        (next (sym e ∙ none_left)).at c₁ b c' (ap rest same ∙ none_left) tt then_k;
  }

  pub step_pure : (b : B) → Q b → Returns (pure b) s Q
  step_pure b q = record {
    at = λ c b' c' e h ran.
        let same : b ≡ b' = ap (λ (r : B × Cursor). r.0) (some-injective _ _ ran) in rw (← same) q;
  }

pub Returns-run :
    {A : Type 0} (p : Parser A) (payload : List ℕ) (Q : A → Type 0) (a : A)
    → Returns p payload Q
    → All IsByte payload
    → run p payload ≡ some a
    → Q a
Returns-run p payload Q a r h e = elim (Option-cases (p (cursor payload))) [
  | inl stopped ↦ absurd (ground arith)
  | inr ((b, c'), ran) ↦
      let same : b ≡ a = ground arith in rw same at (r.at (cursor payload) b c' refl h ran)
]
