-- ===== src/Base/Bits.antt =====
-- Bit operations on native numbers as arithmetic: one equation for the lowest digit of each, and
-- the laws of disjoint fields and of exclusive or that the wire formats and the CRC rest on.
use Prim.Native.Nat.{ℕ, zero, suc, ◌+◌, ◌-◌, ◌*◌, ◌/◌, ◌%◌, ◌^◌, ◌≤◌, ◌<◌}
use Prim.Native.Nat.{bit_and, bit_or, bit_xor, max, differ, digits, bitwise}
use Prim.Native.Nat.{bit_and-bitwise, bit_or-bitwise, bit_xor-bitwise}
use mathlib.Core.Path.{◌≡◌, refl, ap, ◌∙◌}
use native.Mathlib.Nat.{pow-suc, le_refl}
use native.Mathlib.Omega.{arith}

module _ (z : ℕ → ℕ) (f : ℕ → ℕ → ℕ) where
  -- One round more than the first operand needs changes nothing, and neither do `k` more.
  settled : (a b n : ℕ) → a ≤ n → digits z f (suc n) a b ≡ digits z f n a b
  settled zero b zero h = refl
  settled zero b (suc n) h = refl
  settled (suc a) b zero h = absurd (omega arith)
  settled (suc a) b (suc n) h = rw (settled (suc a / 2) (b / 2) n (omega arith))

  spare : (k a b : ℕ) → digits z f (k + a) a b ≡ digits z f a a b
  spare zero a b = let e : 0 + a ≡ a = omega arith in rw e
  spare (suc k) a b =
      let e : suc k + a ≡ suc (k + a) = omega arith in
      rw e (settled a b (k + a) (omega arith) ∙ spare k a b)

  lowest_digit :
      (a b : ℕ)
      → bitwise z f (suc a) b ≡ f (suc a % 2) (b % 2) + 2 * bitwise z f (suc a / 2) (b / 2)
  lowest_digit a b =
      let half = suc a / 2 in
      let split : a - half + half ≡ a = omega arith in
      omega (arith, rw split at (spare (a - half) half (b / 2)))

bit_or_step : (a b : ℕ) → bit_or a b ≡ max (a % 2) (b % 2) + 2 * bit_or (a / 2) (b / 2)
bit_or_step zero b = omega (arith, bit_or-bitwise 0 b, bit_or-bitwise 0 (b / 2))
bit_or_step (suc n) b = omega (
  arith,
  bit_or-bitwise (suc n) b,
  bit_or-bitwise (suc n / 2) (b / 2),
  lowest_digit (λ y. y) max n b,
)

bit_or-zero : (n a : ℕ) → a ≤ n → bit_or a 0 ≡ a
bit_or-zero n zero h = refl
bit_or-zero zero (suc a) h = absurd (omega arith)
bit_or-zero (suc n) (suc a) h =
    omega (arith, bit_or_step (suc a) 0, bit_or-zero n (suc a / 2) (omega arith))

pub double_shift : (q k : ℕ) → q * 2 ^ suc k ≡ 2 * (q * 2 ^ k)
double_shift q k = omega (arith, ap (λ (t : ℕ). q * t) (pow-suc 2 k))

-- `(q << k) | r` is a sum where `r` fits `k` bits.
pub bit_or_disjoint : (k q r : ℕ) → r < 2 ^ k → bit_or (q * 2 ^ k) r ≡ q * 2 ^ k + r
bit_or_disjoint zero q r h =
    let e : r ≡ 0 = omega arith in rw e (omega (arith, bit_or-zero (q * 2 ^ 0) _ (le_refl _)))
bit_or_disjoint (suc k) q r h = omega (
  arith,
  pow-suc 2 k,
  double_shift q k,
  bit_or_step (q * 2 ^ suc k) r,
  ap (λ (t : ℕ). bit_or t (r / 2)) (halve q k),
  bit_or_disjoint k q (r / 2) (omega (arith, pow-suc 2 k)),
)
  where
    halve : (q k : ℕ) → q * 2 ^ suc k / 2 ≡ q * 2 ^ k
    halve q k = omega (arith, double_shift q k)

differ_bits : (x y : ℕ) → x < 2 → y < 2 → differ x y ≡ (x + y) % 2
differ_bits zero y hx hy = omega arith
differ_bits (suc zero) zero hx hy = refl
differ_bits (suc zero) (suc zero) hx hy = refl
differ_bits (suc zero) (suc (suc y)) hx hy = absurd (omega arith)
differ_bits (suc (suc x)) y hx hy = absurd (omega arith)

pub xor_step : (a b : ℕ) → bit_xor a b ≡ bit_xor (a / 2) (b / 2) * 2 + (a + b) % 2
xor_step zero b = simp bit_xor-bitwise (omega arith)
xor_step (suc a) b = omega (
  arith,
  bit_xor-bitwise (suc a) b,
  bit_xor-bitwise (suc a / 2) (b / 2),
  lowest_digit (λ y. y) differ a b,
  differ_bits (suc a % 2) (b % 2) (omega arith) (omega arith),
)

xor_comm_below : (n a b : ℕ) → a ≤ n → b ≤ n → bit_xor a b ≡ bit_xor b a
xor_comm_below zero zero zero p q = refl
xor_comm_below zero zero (suc b) p q = absurd (omega arith)
xor_comm_below zero (suc a) b p q = absurd (omega arith)
xor_comm_below (suc n) a b p q = omega (
  arith,
  xor_step a b,
  xor_step b a,
  xor_comm_below n (a / 2) (b / 2) (omega arith) (omega arith),
)

pub xor_comm : (a b : ℕ) → bit_xor a b ≡ bit_xor b a
xor_comm a b = xor_comm_below (a + b) a b (omega arith) (omega arith)

pub zero-xor : (b : ℕ) → bit_xor 0 b ≡ b
zero-xor b = bit_xor-bitwise 0 b

pub xor-zero : (a : ℕ) → bit_xor a 0 ≡ a
xor-zero a = omega (arith, xor_comm a 0, zero-xor a)

xor_self_below : (n a : ℕ) → a ≤ n → bit_xor a a ≡ 0
xor_self_below n zero h = refl
xor_self_below zero (suc a) h = absurd (omega arith)
xor_self_below (suc n) (suc a) h =
    omega (arith, xor_step (suc a) (suc a), xor_self_below n (suc a / 2) (omega arith))

pub xor_self : (a : ℕ) → bit_xor a a ≡ 0
xor_self a = xor_self_below a a (le_refl a)

pub xor_half : (a b : ℕ) → bit_xor a b / 2 ≡ bit_xor (a / 2) (b / 2)
xor_half a b = omega (arith, xor_step a b)

pub xor_parity : (a b : ℕ) → bit_xor a b % 2 ≡ (a + b) % 2
xor_parity a b = omega (arith, xor_step a b)

xor_assoc_below : (n a b c : ℕ) → a + b + c ≤ n → bit_xor (bit_xor a b) c ≡ bit_xor a (bit_xor b c)
xor_assoc_below zero zero zero zero h = refl
xor_assoc_below zero (suc a) b c h = absurd (omega arith)
xor_assoc_below zero zero (suc b) c h = absurd (omega arith)
xor_assoc_below zero zero zero (suc c) h = absurd (omega arith)
xor_assoc_below (suc n) a b c h = omega (
  arith,
  xor_step (bit_xor a b) c,
  xor_step a (bit_xor b c),
  ap (λ (t : ℕ). bit_xor t (c / 2)) (xor_half a b),
  ap (λ (t : ℕ). bit_xor (a / 2) t) (xor_half b c),
  xor_parity a b,
  xor_parity b c,
  xor_assoc_below n (a / 2) (b / 2) (c / 2) (omega arith),
)

pub xor_assoc : (a b c : ℕ) → bit_xor (bit_xor a b) c ≡ bit_xor a (bit_xor b c)
xor_assoc a b c = xor_assoc_below (a + b + c) a b c (le_refl _)

-- Exclusive or stays within `k` bits.
pub xor_bound : (k a b : ℕ) → a < 2 ^ k → b < 2 ^ k → bit_xor a b < 2 ^ k
xor_bound zero a b p q =
    let ea : a ≡ 0 = omega arith in
    let eb : b ≡ 0 = omega arith in rw (ea, eb) (omega (arith, zero-xor 0))
xor_bound (suc k) a b p q = omega (
  arith,
  pow-suc 2 k,
  xor_step a b,
  xor_bound k (a / 2) (b / 2) (omega (arith, pow-suc 2 k)) (omega (arith, pow-suc 2 k)),
)

-- Equal results with one operand equal have the other one equal.
pub xor_cancel : (a b c : ℕ) → bit_xor a c ≡ bit_xor b c → a ≡ b
xor_cancel a b c h = omega (
  arith,
  ap (λ (t : ℕ). bit_xor t c) h,
  xor_assoc a c c,
  xor_assoc b c c,
  ap (λ (t : ℕ). bit_xor a t) (xor_self c),
  ap (λ (t : ℕ). bit_xor b t) (xor_self c),
  xor-zero a,
  xor-zero b,
)

-- Fields that share no bit: exclusive or is a sum too.
pub xor_disjoint : (k q r : ℕ) → r < 2 ^ k → bit_xor (q * 2 ^ k) r ≡ q * 2 ^ k + r
xor_disjoint zero q r h = let e : r ≡ 0 = omega arith in rw e (omega (arith, xor-zero (q * 2 ^ 0)))
xor_disjoint (suc k) q r h = omega (
  arith,
  pow-suc 2 k,
  double_shift q k,
  xor_step (q * 2 ^ suc k) r,
  ap (λ (t : ℕ). bit_xor t (r / 2)) (halve q k),
  xor_disjoint k q (r / 2) (omega (arith, pow-suc 2 k)),
)
  where
    halve : (q k : ℕ) → q * 2 ^ suc k / 2 ≡ q * 2 ^ k
    halve q k = omega (arith, double_shift q k)

pub xor_swap :
    (p q r s : ℕ) → bit_xor (bit_xor p q) (bit_xor r s) ≡ bit_xor (bit_xor p r) (bit_xor q s)
xor_swap p q r s = cc (
  xor_assoc p q (bit_xor r s),
  xor_assoc q r s,
  xor_comm q r,
  xor_assoc r q s,
  xor_assoc p r (bit_xor q s),
)

pub zero-bit_and : (b : ℕ) → bit_and 0 b ≡ 0
zero-bit_and b = bit_and-bitwise 0 b

bit_or_comm_below : (n a b : ℕ) → a + b ≤ n → bit_or a b ≡ bit_or b a
bit_or_comm_below zero zero zero h = refl
bit_or_comm_below zero zero (suc b) h = absurd (omega arith)
bit_or_comm_below zero (suc a) b h = absurd (omega arith)
bit_or_comm_below (suc n) a b h =
    omega
      (arith, bit_or_step a b, bit_or_step b a, bit_or_comm_below n (a / 2) (b / 2) (omega arith))

pub bit_or_comm : (a b : ℕ) → bit_or a b ≡ bit_or b a
bit_or_comm a b = bit_or_comm_below (a + b) a b (le_refl _)
