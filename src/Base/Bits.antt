-- ===== src/Base/Bits.antt =====
-- The bits of a number: what `&`, `|`, `^` and a shifted one do to them, at every width, and the
-- count of trailing zeros (Go's math/bits.TrailingZeros64).
use Prim.Native.Nat.{
  ℕ, zero, suc, ◌+◌, ◌-◌, ◌*◌, ◌/◌, ◌%◌, ◌^◌, ◌≤◌, ◌<◌, min, max, bit_and, bit_or, digits,
  bit_and-bitwise, bit_or-bitwise,
}
use mathlib.Core.Path.{◌≡◌, refl, ◌∙◌}
use mathlib.Core.Logic.{◌≢◌}
use mathlib.Core.Bool.{Bool, true, false, ◌&&◌, ◌||◌, not}
use native.Mathlib.Omega.{arith}
use native.Mathlib.Nat.{pow-suc, one-le-pow}
use go_amqp.Base.Tests.{◌==◌, if◌then◌else◌}

-- Bit `k` of `w`.
unfoldable pub bit : ℕ → ℕ → Bool
bit w zero = w % 2 == 1
bit w (suc k) = bit (w / 2) k

-- The digits of a number do not depend on how many are asked for, once there are enough.
module _ (z : ℕ → ℕ) (f : ℕ → ℕ → ℕ) where
  enough_digits : (n m a b : ℕ) → a ≤ n → a ≤ m → digits z f n a b ≡ digits z f m a b
  enough_digits zero zero a b p q = refl
  enough_digits zero (suc m) zero b p q = refl
  enough_digits zero (suc m) (suc a) b p q = absurd (omega arith)
  enough_digits (suc n) zero zero b p q = refl
  enough_digits (suc n) zero (suc a) b p q = absurd (omega arith)
  enough_digits (suc n) (suc m) zero b p q = refl
  enough_digits (suc n) (suc m) (suc a) b p q =
      omega (arith, enough_digits n m (suc a / 2) (b / 2) (omega arith) (omega arith))

and_step : (a b : ℕ) → bit_and a b ≡ bit_and (a / 2) (b / 2) * 2 + min (a % 2) (b % 2)
and_step zero b = omega (arith, bit_and-bitwise 0 b, bit_and-bitwise 0 (b / 2))
and_step (suc a) b = omega (
  arith,
  bit_and-bitwise (suc a) b,
  bit_and-bitwise (suc a / 2) (b / 2),
  enough_digits (λ _. 0) min a (suc a / 2) (suc a / 2) (b / 2) (omega arith) (omega arith),
)

or_step : (a b : ℕ) → bit_or a b ≡ bit_or (a / 2) (b / 2) * 2 + max (a % 2) (b % 2)
or_step zero b = omega (arith, bit_or-bitwise 0 b, bit_or-bitwise 0 (b / 2))
or_step (suc a) b = omega (
  arith,
  bit_or-bitwise (suc a) b,
  bit_or-bitwise (suc a / 2) (b / 2),
  enough_digits (λ y. y) max a (suc a / 2) (suc a / 2) (b / 2) (omega arith) (omega arith),
)

half_and : (a b : ℕ) → bit_and a b / 2 ≡ bit_and (a / 2) (b / 2)
half_and a b = omega (arith, and_step a b)

half_or : (a b : ℕ) → bit_or a b / 2 ≡ bit_or (a / 2) (b / 2)
half_or a b = omega (arith, or_step a b)

pub bit-bit_and : (a b k : ℕ) → bit (bit_and a b) k ≡ bit a k && bit b k
unfolding bit
bit-bit_and a b zero = ground (arith, and_step a b)
bit-bit_and a b (suc k) = rw half_and (bit-bit_and (a / 2) (b / 2) k)

pub bit-bit_or : (a b k : ℕ) → bit (bit_or a b) k ≡ bit a k || bit b k
unfolding bit
bit-bit_or a b zero = ground (arith, or_step a b)
bit-bit_or a b (suc k) = rw half_or (bit-bit_or (a / 2) (b / 2) k)

pub bit-zero : (k : ℕ) → bit 0 k ≡ false
unfolding bit
bit-zero zero = refl
bit-zero (suc k) = bit-zero k

half_pow : (n : ℕ) → 2 ^ suc n / 2 ≡ 2 ^ n
half_pow n = omega (arith, pow-suc 2 n)

pub bit-pow : (n k : ℕ) → bit (2 ^ n) k ≡ (n == k)
unfolding bit
bit-pow zero zero = refl
bit-pow zero (suc k) = bit-zero k ∙ ground arith
bit-pow (suc n) zero = ground (arith, pow-suc 2 n)
bit-pow (suc n) (suc k) = rw half_pow (bit-pow n k ∙ ground arith)

half_complement : (n v : ℕ) → v < 2 ^ suc n → (2 ^ suc n - 1 - v) / 2 ≡ 2 ^ n - 1 - v / 2
half_complement n v h = omega (arith, pow-suc 2 n, one-le-pow n 2)

half-lt : (n v : ℕ) → v < 2 ^ suc n → v / 2 < 2 ^ n
half-lt n v h = omega (arith, pow-suc 2 n)

-- `^v` on `n` bits flips each of them.
pub bit-complement : (n v k : ℕ) → v < 2 ^ n → k < n → bit (2 ^ n - 1 - v) k ≡ not (bit v k)
unfolding bit
bit-complement zero v k h hk = absurd (omega arith)
bit-complement (suc n) v zero h hk = ground (arith, pow-suc 2 n)
bit-complement (suc n) v (suc k) h hk =
    rw (half_complement n v h) (bit-complement n (v / 2) k (half-lt n v h) (omega arith))

-- A number of `n` bits or fewer has no bit at `n` or above.
pub bit-above : (n v k : ℕ) → v < 2 ^ n → n ≤ k → bit v k ≡ false
unfolding bit
bit-above zero v k h hk = let e : v ≡ 0 = omega arith in rw e (bit-zero k)
bit-above (suc n) v zero h hk = absurd (omega arith)
bit-above (suc n) v (suc k) h hk = bit-above n (v / 2) k (half-lt n v h) (omega arith)

pub bit_and-lt : (n a b : ℕ) → a < 2 ^ n → bit_and a b < 2 ^ n
bit_and-lt zero a b h = let e : a ≡ 0 = omega arith in rw e (omega (arith, bit_and-bitwise 0 b))
bit_and-lt (suc n) a b h =
    omega (arith, pow-suc 2 n, and_step a b, bit_and-lt n (a / 2) (b / 2) (half-lt n a h))

pub bit_or-lt : (n a b : ℕ) → a < 2 ^ n → b < 2 ^ n → bit_or a b < 2 ^ n
bit_or-lt zero a b h k = let e : a ≡ 0 = omega arith in rw e (omega (arith, bit_or-bitwise 0 b))
bit_or-lt (suc n) a b h k =
    omega
      (arith, pow-suc 2 n, or_step a b, bit_or-lt n (a / 2) (b / 2) (half-lt n a h) (half-lt n b k))

-- The zeros below the lowest one among `n` bits; `n` of them where no bit is set.
unfoldable pub trailing_zeros : ℕ → ℕ → ℕ
trailing_zeros zero v = 0
trailing_zeros (suc n) v = if v % 2 == 1 then 0 else suc (trailing_zeros n (v / 2))

-- The trailing zeros of `^v` count the ones below the lowest zero of `v`.
pub trailing_zeros-complement :
    (n v : ℕ)
    → v < 2 ^ n
    → v ≢ 2 ^ n - 1
    → (trailing_zeros n (2 ^ n - 1 - v) < n) × (bit v (trailing_zeros n (2 ^ n - 1 - v)) ≡ false)
unfolding trailing_zeros bit
trailing_zeros-complement zero v h ne = absurd (ne (omega arith))
trailing_zeros-complement (suc n) v h ne = rw (half_complement n v h) (
    ground (arith, pow-suc 2 n, one-le-pow n 2, half-lt n v h, trailing_zeros-complement n (v / 2)))

pub below-trailing_zeros :
    (n v k : ℕ) → v < 2 ^ n → k < trailing_zeros n (2 ^ n - 1 - v) → bit v k ≡ true
unfolding trailing_zeros bit
below-trailing_zeros zero v k h hk = absurd (omega arith)
below-trailing_zeros (suc n) v zero h hk = ground (arith, pow-suc 2 n, one-le-pow n 2)
below-trailing_zeros (suc n) v (suc k) h hk = ground (
  arith,
  pow-suc 2 n,
  one-le-pow n 2,
  half-lt n v h,
  half_complement n v h,
  below-trailing_zeros n (v / 2) k,
)

-- A word whose bits are all set.
pub bit-full : (n k : ℕ) → k < n → bit (2 ^ n - 1) k ≡ true
unfolding bit
bit-full zero k h = absurd (omega arith)
bit-full (suc n) zero h = ground (arith, pow-suc 2 n, one-le-pow n 2)
bit-full (suc n) (suc k) h =
    let e : (2 ^ suc n - 1) / 2 ≡ 2 ^ n - 1 = omega (arith, pow-suc 2 n, one-le-pow n 2) in
    rw e (bit-full n k (omega arith))
