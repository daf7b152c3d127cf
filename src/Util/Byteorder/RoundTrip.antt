-- ===== src/Util/Byteorder/RoundTrip.antt =====
-- Readers and writers of byteorder.hpp undo each other, in both directions.
use ati_tcp_file_transfer.Base.{ℕ, ◌+◌, ◌*◌, ◌/◌, ◌%◌, ◌^◌, ◌<◌, ◌≡◌, ◌∙◌, arith}
use ati_tcp_file_transfer.Base.{List, [], ◌∷◌, length, All, bit_or}
use ati_tcp_file_transfer.Base.Bits.{bit_or_disjoint}
use ati_tcp_file_transfer.Util.Byteorder.{
  IsByte, u16_mod, u32_mod, u64_mod, write_be_u16, write_be_u32, write_be_u64, read_be_u16,
  read_be_u32, read_be_u64, push_byte,
}

read_be_u16-bytes : (a b : ℕ) → IsByte a → IsByte b → read_be_u16 (a ∷ b ∷ []) ≡ a * 256 + b
unfolding read_be_u16
read_be_u16-bytes a b ha hb = bit_or_disjoint 8 a b hb

read_be_u32-bytes :
    (a b c d : ℕ)
    → IsByte b
    → IsByte c
    → IsByte d
    → read_be_u32 (a ∷ b ∷ c ∷ d ∷ []) ≡ ((a * 256 + b) * 256 + c) * 256 + d
unfolding read_be_u32
read_be_u32-bytes a b c d hb hc hd =
    let e₁ : bit_or (a * 2 ^ 24) (b * 2 ^ 16) ≡ (a * 256 + b) * 2 ^ 16 =
      omega (arith, bit_or_disjoint 24 a (b * 2 ^ 16) (omega arith)) in
    let e₂ : bit_or ((a * 256 + b) * 2 ^ 16) (c * 2 ^ 8) ≡ ((a * 256 + b) * 256 + c) * 2 ^ 8 =
      omega (arith, bit_or_disjoint 16 (a * 256 + b) (c * 2 ^ 8) (omega arith)) in
    rw (e₁, e₂) (bit_or_disjoint 8 ((a * 256 + b) * 256 + c) d hd)

push_byte-sum : (v b : ℕ) → v < 2 ^ 56 → IsByte b → push_byte v b ≡ v * 256 + b
unfolding push_byte
push_byte-sum v b hv hb =
    let e : v * 2 ^ 8 % 2 ^ 64 ≡ v * 2 ^ 8 = omega arith in rw e (bit_or_disjoint 8 v b hb)

-- A uint16 is read back from the two bytes that were written for it.
pub read_be_u16-write_be_u16 : (v : ℕ) → v < u16_mod → read_be_u16 (write_be_u16 v) ≡ v
unfolding write_be_u16
read_be_u16-write_be_u16 v h =
    omega (arith, read_be_u16-bytes (v / 2 ^ 8 % 256) (v % 256) (omega arith) (omega arith))

pub read_be_u32-write_be_u32 : (v : ℕ) → v < u32_mod → read_be_u32 (write_be_u32 v) ≡ v
unfolding write_be_u32
read_be_u32-write_be_u32 v h = omega (
  arith,
  read_be_u32-bytes (v / 2 ^ 24 % 256) (v / 2 ^ 16 % 256) (v / 2 ^ 8 % 256) (v % 256) (omega arith)
      (omega arith) (omega arith),
)

read_be_u64-bytes :
    (a b c d e f g h : ℕ)
    → All IsByte (a ∷ b ∷ c ∷ d ∷ e ∷ f ∷ g ∷ h ∷ [])
    → read_be_u64 (a ∷ b ∷ c ∷ d ∷ e ∷ f ∷ g ∷ h ∷ [])
      ≡ ((((((a * 256 + b) * 256 + c) * 256 + d) * 256 + e) * 256 + f) * 256 + g) * 256 + h
unfolding read_be_u64
read_be_u64-bytes a b c d e f g h k =
    let n₁ = a * 256 + b in
    let n₂ = n₁ * 256 + c in
    let n₃ = n₂ * 256 + d in
    let n₄ = n₃ * 256 + e in
    let n₅ = n₄ * 256 + f in
    let n₆ = n₅ * 256 + g in
    let s₀ : push_byte 0 a ≡ a = omega (arith, push_byte-sum 0 a (omega arith) (omega arith)) in
    let s₁ : push_byte a b ≡ n₁ = push_byte-sum a b (omega arith) (omega arith) in
    let s₂ : push_byte n₁ c ≡ n₂ = push_byte-sum n₁ c (omega arith) (omega arith) in
    let s₃ : push_byte n₂ d ≡ n₃ = push_byte-sum n₂ d (omega arith) (omega arith) in
    let s₄ : push_byte n₃ e ≡ n₄ = push_byte-sum n₃ e (omega arith) (omega arith) in
    let s₅ : push_byte n₄ f ≡ n₅ = push_byte-sum n₄ f (omega arith) (omega arith) in
    let s₆ : push_byte n₅ g ≡ n₆ = push_byte-sum n₅ g (omega arith) (omega arith) in
    rw (s₀, s₁, s₂, s₃, s₄, s₅, s₆) (push_byte-sum n₆ h (omega arith) (omega arith))

-- A uint64 is read back from the eight bytes that were written for it.
pub read_be_u64-write_be_u64 : (v : ℕ) → v < u64_mod → read_be_u64 (write_be_u64 v) ≡ v
unfolding write_be_u64
read_be_u64-write_be_u64 v k =
    read_be_u64-bytes (v / 2 ^ 56 % 256) (v / 2 ^ 48 % 256) (v / 2 ^ 40 % 256) (v / 2 ^ 32 % 256)
      (v / 2 ^ 24 % 256) (v / 2 ^ 16 % 256) (v / 2 ^ 8 % 256) (v / 2 ^ 0 % 256) (omega arith)
    ∙ omega arith

-- Two bytes are what writing the uint16 that is read from them gives.
pub write_be_u16-read_be_u16 :
    (bs : List ℕ) → length bs ≡ 2 → All IsByte bs → write_be_u16 (read_be_u16 bs) ≡ bs
unfolding write_be_u16
write_be_u16-read_be_u16 [] n h = absurd (omega arith)
write_be_u16-read_be_u16 (a ∷ []) n h = absurd (omega arith)
write_be_u16-read_be_u16 (a ∷ b ∷ []) n h = rw (read_be_u16-bytes a b h.0 h.1.0) (ground arith)
write_be_u16-read_be_u16 (a ∷ b ∷ c ∷ bs) n h = absurd (omega arith)

pub write_be_u32-read_be_u32 :
    (bs : List ℕ) → length bs ≡ 4 → All IsByte bs → write_be_u32 (read_be_u32 bs) ≡ bs
unfolding write_be_u32
write_be_u32-read_be_u32 [] n h = absurd (omega arith)
write_be_u32-read_be_u32 (a ∷ []) n h = absurd (omega arith)
write_be_u32-read_be_u32 (a ∷ b ∷ []) n h = absurd (omega arith)
write_be_u32-read_be_u32 (a ∷ b ∷ c ∷ []) n h = absurd (omega arith)
write_be_u32-read_be_u32 (a ∷ b ∷ c ∷ d ∷ []) n h =
    rw (read_be_u32-bytes a b c d (omega arith) (omega arith) (omega arith)) (ground arith)
write_be_u32-read_be_u32 (a ∷ b ∷ c ∷ d ∷ e ∷ bs) n h = absurd (omega arith)

pub read_be_u16-bound : (bs : List ℕ) → length bs ≡ 2 → All IsByte bs → read_be_u16 bs < u16_mod
read_be_u16-bound [] n h = absurd (omega arith)
read_be_u16-bound (a ∷ []) n h = absurd (omega arith)
read_be_u16-bound (a ∷ b ∷ []) n h = omega (arith, read_be_u16-bytes a b h.0 h.1.0)
read_be_u16-bound (a ∷ b ∷ c ∷ bs) n h = absurd (omega arith)

pub read_be_u32-bound : (bs : List ℕ) → length bs ≡ 4 → All IsByte bs → read_be_u32 bs < u32_mod
read_be_u32-bound [] n h = absurd (omega arith)
read_be_u32-bound (a ∷ []) n h = absurd (omega arith)
read_be_u32-bound (a ∷ b ∷ []) n h = absurd (omega arith)
read_be_u32-bound (a ∷ b ∷ c ∷ []) n h = absurd (omega arith)
read_be_u32-bound (a ∷ b ∷ c ∷ d ∷ []) n h =
    omega (arith, read_be_u32-bytes a b c d (omega arith) (omega arith) (omega arith))
read_be_u32-bound (a ∷ b ∷ c ∷ d ∷ e ∷ bs) n h = absurd (omega arith)

write_be_u64-sum :
    (a b c d e f g h : ℕ)
    → All IsByte (a ∷ b ∷ c ∷ d ∷ e ∷ f ∷ g ∷ h ∷ [])
    → write_be_u64
        (((((((a * 256 + b) * 256 + c) * 256 + d) * 256 + e) * 256 + f) * 256 + g) * 256 + h)
      ≡ a ∷ b ∷ c ∷ d ∷ e ∷ f ∷ g ∷ h ∷ []
unfolding write_be_u64
write_be_u64-sum a b c d e f g h k =
    let n = ((((((a * 256 + b) * 256 + c) * 256 + d) * 256 + e) * 256 + f) * 256 + g) * 256 + h in
    let p₀ : n / 2 ^ 56 % 256 ≡ a = omega arith in
    let p₁ : n / 2 ^ 48 % 256 ≡ b = omega arith in
    let p₂ : n / 2 ^ 40 % 256 ≡ c = omega arith in
    let p₃ : n / 2 ^ 32 % 256 ≡ d = omega arith in
    let p₄ : n / 2 ^ 24 % 256 ≡ e = omega arith in
    let p₅ : n / 2 ^ 16 % 256 ≡ f = omega arith in
    let p₆ : n / 2 ^ 8 % 256 ≡ g = omega arith in
    let p₇ : n / 2 ^ 0 % 256 ≡ h = omega arith in rw (p₀, p₁, p₂, p₃, p₄, p₅, p₆, p₇)

read_be_u64_inverse :
    (bs : List ℕ)
    → length bs ≡ 8
    → All IsByte bs
    → (write_be_u64 (read_be_u64 bs) ≡ bs) × (read_be_u64 bs < u64_mod)
read_be_u64_inverse [] n k = absurd (omega arith)
read_be_u64_inverse (a ∷ []) n k = absurd (omega arith)
read_be_u64_inverse (a ∷ b ∷ []) n k = absurd (omega arith)
read_be_u64_inverse (a ∷ b ∷ c ∷ []) n k = absurd (omega arith)
read_be_u64_inverse (a ∷ b ∷ c ∷ d ∷ []) n k = absurd (omega arith)
read_be_u64_inverse (a ∷ b ∷ c ∷ d ∷ e ∷ []) n k = absurd (omega arith)
read_be_u64_inverse (a ∷ b ∷ c ∷ d ∷ e ∷ f ∷ []) n k = absurd (omega arith)
read_be_u64_inverse (a ∷ b ∷ c ∷ d ∷ e ∷ f ∷ g ∷ []) n k = absurd (omega arith)
read_be_u64_inverse (a ∷ b ∷ c ∷ d ∷ e ∷ f ∷ g ∷ h ∷ []) n k =
    rw (read_be_u64-bytes a b c d e f g h k) (write_be_u64-sum a b c d e f g h k, omega arith)
read_be_u64_inverse (a ∷ b ∷ c ∷ d ∷ e ∷ f ∷ g ∷ h ∷ i ∷ bs) n k = absurd (omega arith)

-- Eight bytes are what writing the uint64 that is read from them gives.
pub write_be_u64-read_be_u64 :
    (bs : List ℕ) → length bs ≡ 8 → All IsByte bs → write_be_u64 (read_be_u64 bs) ≡ bs
write_be_u64-read_be_u64 bs n h = (read_be_u64_inverse bs n h).0

pub read_be_u64-bound : (bs : List ℕ) → length bs ≡ 8 → All IsByte bs → read_be_u64 bs < u64_mod
read_be_u64-bound bs n h = (read_be_u64_inverse bs n h).1
