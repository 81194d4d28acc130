-- ===== src/Multicaller/Bits.antt =====
-- `or` and `and` of binary digits as arithmetic, where fields do not meet.
use Prim.Native.Nat.{bit_and, bit_or, digits, max, min, bit_and-bitwise, bit_or-bitwise}
use native.Mathlib.Nat.{pow-suc, one-le-pow, div-add-mod', mod-lt}
use kabu.Base.{ℕ, zero, suc, ◌+◌, ◌-◌, ◌*◌, ◌/◌, ◌%◌, ◌^◌, ◌≤◌, ◌<◌, ◌≡◌, refl, sym, ap, ◌∙◌, arith}

-- A count of digits that covers the number gives what the number itself gives.
digits-count :
    (z : ℕ → ℕ) (f : ℕ → ℕ → ℕ) (n m a b : ℕ) → a ≤ n → a ≤ m → digits z f n a b ≡ digits z f m a b
digits-count z f zero zero a b p q = refl
digits-count z f (suc n) zero zero b p q = refl
digits-count z f (suc n) zero (suc a) b p q = absurd (omega arith)
digits-count z f zero (suc m) zero b p q = refl
digits-count z f zero (suc m) (suc a) b p q = absurd (omega arith)
digits-count z f (suc n) (suc m) zero b p q = refl
digits-count z f (suc n) (suc m) (suc a) b p q =
    ap (λ x. x * 2 + f (suc a % 2) (b % 2))
      (digits-count z f n m (suc a / 2) (b / 2) (omega arith) (omega arith))

bit_or_low : (a b : ℕ) → bit_or a b ≡ bit_or (a / 2) (b / 2) * 2 + max (a % 2) (b % 2)
bit_or_low zero b = omega (arith, bit_or-bitwise 0 b, bit_or-bitwise 0 (b / 2))
bit_or_low (suc a) b = omega (
  arith,
  bit_or-bitwise (suc a) b,
  bit_or-bitwise (suc a / 2) (b / 2),
  digits-count (λ y. y) max a (suc a / 2) (suc a / 2) (b / 2) (omega arith) (omega arith),
)

bit_and_low : (a b : ℕ) → bit_and a b ≡ bit_and (a / 2) (b / 2) * 2 + min (a % 2) (b % 2)
bit_and_low zero b = omega (arith, bit_and-bitwise 0 b, bit_and-bitwise 0 (b / 2))
bit_and_low (suc a) b = omega (
  arith,
  bit_and-bitwise (suc a) b,
  bit_and-bitwise (suc a / 2) (b / 2),
  digits-count (λ y. 0) min a (suc a / 2) (suc a / 2) (b / 2) (omega arith) (omega arith),
)

twice : (q k : ℕ) → q * 2 ^ suc k ≡ 2 * (q * 2 ^ k)
twice q k = omega (arith, ap (λ (t : ℕ). q * t) (pow-suc 2 k))

-- Low digits stay when a multiple of their bound is joined.
pub bit_or-high :
    (k q r s : ℕ) → r < 2 ^ k → bit_or (q * 2 ^ k + r) (s * 2 ^ k) ≡ bit_or q s * 2 ^ k + r
bit_or-high zero q r s h = ground arith
bit_or-high (suc k) q r s h = ground (
  arith,
  twice q k,
  twice s k,
  twice (bit_or q s) k,
  pow-suc 2 k,
  bit_or_low (q * 2 ^ suc k + r) (s * 2 ^ suc k),
  bit_or-high k q (r / 2) s (omega (arith, pow-suc 2 k)),
)

bit_or-zero : (n a : ℕ) → a ≤ n → bit_or a 0 ≡ a
bit_or-zero n zero h = refl
bit_or-zero zero (suc a) h = absurd (omega arith)
bit_or-zero (suc n) (suc a) h =
    omega (arith, bit_or_low (suc a) 0, bit_or-zero n (suc a / 2) (omega arith))

-- A multiple of a power of two and a number below it are joined by a sum.
pub bit_or-low : (k q r : ℕ) → r < 2 ^ k → bit_or (q * 2 ^ k) r ≡ q * 2 ^ k + r
bit_or-low zero q r h = ground (arith, bit_or-zero q q (omega arith))
bit_or-low (suc k) q r h = ground (
  arith,
  twice q k,
  pow-suc 2 k,
  bit_or_low (q * 2 ^ suc k) r,
  bit_or-low k q (r / 2) (omega (arith, pow-suc 2 k)),
)

bit_and-zero : (n a : ℕ) → a ≤ n → bit_and a 0 ≡ 0
bit_and-zero n zero h = refl
bit_and-zero zero (suc a) h = absurd (omega arith)
bit_and-zero (suc n) (suc a) h =
    omega (arith, bit_and_low (suc a) 0, bit_and-zero n (suc a / 2) (omega arith))

-- Under a mask of ones, what lies above it is dropped.
bit_and-high : (k q r : ℕ) → r < 2 ^ k → bit_and (q * 2 ^ k + r) (2 ^ k - 1) ≡ r
bit_and-high zero q r h = ground (arith, bit_and-zero q q (omega arith))
bit_and-high (suc k) q r h = ground (
  arith,
  twice q k,
  pow-suc 2 k,
  one-le-pow k 2,
  bit_and_low (q * 2 ^ suc k + r) (2 ^ suc k - 1),
  bit_and-high k q (r / 2) (omega (arith, pow-suc 2 k)),
)

-- A mask of ones gives the remainder by the next power of two.
pub bit_and-mask : (k a : ℕ) → bit_and a (2 ^ k - 1) ≡ a % 2 ^ k
bit_and-mask k a =
    ap (λ x. bit_and x (2 ^ k - 1)) (sym (div-add-mod' a (2 ^ k)))
    ∙ bit_and-high k (a / 2 ^ k) (a % 2 ^ k) (mod-lt a (one-le-pow k 2 (omega arith)))
