-- ===== src/Prelude/Bits.antt =====
-- Single bits of a number at every width: what `|`, `&`, `^`, `!` and a mask `1 << k` do to bit k.
mod Digits
pub use Digits.{bit_or_step, bit_and_step, bit_xor_step}
use Prim.Native.Nat.{
  ℕ, zero, suc, ◌+◌, ◌-◌, ◌*◌, ◌/◌, ◌%◌, ◌^◌, ◌≤◌, ◌<◌, min, max, bit_and, bit_or, bit_xor, differ,
  bit_or-bitwise, bit_and-bitwise,
}
use mathlib.Core.Path.{◌≡◌, refl, ap}
use mathlib.Core.Bool.{Bool, true, false, not, ◌&&◌, ◌||◌}
use native.Mathlib.Nat.{pow-suc, one-le-pow}
use native.Mathlib.Omega.{arith}
use rusty_fusion.Prelude.Tests.{◌==◌, if◌then◌else◌}

-- Bit k of x.
unfoldable pub bit : ℕ → ℕ → Bool
bit zero x = x % 2 == 1
bit (suc k) x = bit k (x / 2)

pub bit-zero : (k : ℕ) → bit k 0 ≡ false
unfolding bit
bit-zero zero = refl
bit-zero (suc k) = bit-zero k

or_halves :
    (x y : ℕ) → (bit_or x y / 2 ≡ bit_or (x / 2) (y / 2)) × (bit_or x y % 2 ≡ max (x % 2) (y % 2))
or_halves x y = omega (arith, bit_or_step x y)

and_halves :
    (x y : ℕ)
    → (bit_and x y / 2 ≡ bit_and (x / 2) (y / 2)) × (bit_and x y % 2 ≡ min (x % 2) (y % 2))
and_halves x y = omega (arith, bit_and_step x y)

pub bit-bit_or : (k x y : ℕ) → bit k (bit_or x y) ≡ (bit k x || bit k y)
unfolding bit
bit-bit_or zero x y = ground (arith, or_halves x y)
bit-bit_or (suc k) x y = ground (arith, or_halves x y, bit-bit_or k (x / 2) (y / 2))

pub bit-bit_and : (k x y : ℕ) → bit k (bit_and x y) ≡ (bit k x && bit k y)
unfolding bit
bit-bit_and zero x y = ground (arith, and_halves x y)
bit-bit_and (suc k) x y = ground (arith, and_halves x y, bit-bit_and k (x / 2) (y / 2))

half_two_pow : (i : ℕ) → (2 ^ suc i / 2 ≡ 2 ^ i) × (2 ^ suc i % 2 ≡ 0)
half_two_pow i = omega (arith, pow-suc 2 i)

-- The mask `1 << i` has bit i and no other.
pub bit-two_pow : (j i : ℕ) → bit j (2 ^ i) ≡ (i == j)
unfolding bit
bit-two_pow zero zero = refl
bit-two_pow zero (suc i) = ground (arith, half_two_pow i)
bit-two_pow (suc j) zero = ground (arith, bit-zero j)
bit-two_pow (suc j) (suc i) = ground (arith, half_two_pow i, bit-two_pow j i)

-- `!x` at width w.
pub bit-complement : (w j x : ℕ) → x < 2 ^ w → j < w → bit j (2 ^ w - 1 - x) ≡ not (bit j x)
unfolding bit
bit-complement zero j x hx hj = absurd (omega arith)
bit-complement (suc w) zero x hx hj = ground (arith, pow-suc 2 w, one-le-pow w 2)
bit-complement (suc w) (suc j) x hx hj =
    let half : (2 ^ suc w - 1 - x) / 2 ≡ 2 ^ w - 1 - x / 2 = omega (arith, pow-suc 2 w) in
    ground (arith, half, bit-complement w j (x / 2) (omega (arith, pow-suc 2 w)) (omega arith))

bit_and-zero : (w a : ℕ) → a ≤ w → bit_and a 0 ≡ 0
bit_and-zero w zero h = refl
bit_and-zero zero (suc a) h = absurd (omega arith)
bit_and-zero (suc w) (suc a) h =
    omega (arith, bit_and_step (suc a) 0, bit_and-zero w (suc a / 2) (omega arith))

-- `x & (1 << k)` is zero exactly when bit k is not set.
pub bit_and-two_pow : (k x : ℕ) → (bit_and x (2 ^ k) == 0) ≡ not (bit k x)
unfolding bit
bit_and-two_pow zero x =
    ground (arith, bit_and-zero (x / 2) (x / 2) (omega arith), bit_and_step x 1)
bit_and-two_pow (suc k) x =
    ground (arith, half_two_pow k, bit_and_step x (2 ^ suc k), bit_and-two_pow k (x / 2))

-- Numbers of w bits are equal when their bits are.
pub bits_ext : (w x y : ℕ) → x < 2 ^ w → y < 2 ^ w → ((j : ℕ) → j < w → bit j x ≡ bit j y) → x ≡ y
unfolding bit
bits_ext zero x y hx hy h = omega arith
bits_ext (suc w) x y hx hy h =
    let halves =
      bits_ext w (x / 2) (y / 2) (omega (arith, pow-suc 2 w)) (omega (arith, pow-suc 2 w))
        (λ j p. h (suc j) (omega arith)) in
    ground (arith, halves, h 0)

pub bit_or-lt : (w x y : ℕ) → x < 2 ^ w → y < 2 ^ w → bit_or x y < 2 ^ w
bit_or-lt zero x y hx hy = ground (arith, bit_or_zero_zero, hx, hy)
  where
    bit_or_zero_zero : bit_or 0 0 ≡ 0
    bit_or_zero_zero = refl
bit_or-lt (suc w) x y hx hy = omega (
  arith,
  pow-suc 2 w,
  or_halves x y,
  bit_or-lt w (x / 2) (y / 2) (omega (arith, pow-suc 2 w)) (omega (arith, pow-suc 2 w)),
)

pub bit_and-lt : (w x y : ℕ) → x < 2 ^ w → bit_and x y < 2 ^ w
bit_and-lt zero zero y hx = rw bit_and-zero_left (omega arith)
  where
    bit_and-zero_left : bit_and 0 y ≡ 0
    bit_and-zero_left = simp bit_and-bitwise refl
bit_and-lt zero (suc x) y hx = absurd (omega arith)
bit_and-lt (suc w) x y hx =
    omega (
      arith,
      pow-suc 2 w,
      and_halves x y,
      bit_and-lt w (x / 2) (y / 2) (omega (arith, pow-suc 2 w)),
    )

-- `lo | (hi << w)` is a sum when lo fits w bits.
pub bit_or_disjoint : (w lo hi : ℕ) → lo < 2 ^ w → bit_or lo (hi * 2 ^ w) ≡ lo + hi * 2 ^ w
bit_or_disjoint zero zero hi h = omega (arith, bit_or-zero_left (hi * 1))
  where
    bit_or-zero_left : (b : ℕ) → bit_or 0 b ≡ b
    bit_or-zero_left b = simp bit_or-bitwise refl
bit_or_disjoint zero (suc lo) hi h = absurd (omega arith)
bit_or_disjoint (suc w) lo hi h =
    let twice : hi * 2 ^ suc w ≡ 2 * (hi * 2 ^ w) =
      omega (arith, ap (λ (t : ℕ). hi * t) (pow-suc 2 w)) in
    ground (
      arith,
      twice,
      pow-suc 2 w,
      bit_or_step lo (hi * 2 ^ suc w),
      bit_or_disjoint w (lo / 2) hi (omega (arith, pow-suc 2 w)),
    )

differ_twice : (a b : ℕ) → a < 2 → b < 2 → (differ (differ a b) b ≡ a) × (differ a b < 2)
differ_twice zero zero p q = (refl, omega arith)
differ_twice zero (suc zero) p q = (refl, omega arith)
differ_twice (suc zero) zero p q = (refl, omega arith)
differ_twice (suc zero) (suc zero) p q = (refl, omega arith)
differ_twice (suc (suc a)) b p q = absurd (omega arith)
differ_twice a (suc (suc b)) p q = absurd (omega arith)

xor_halves :
    (x y : ℕ)
    → (bit_xor x y / 2 ≡ bit_xor (x / 2) (y / 2)) × (bit_xor x y % 2 ≡ differ (x % 2) (y % 2))
xor_halves x y =
    omega (arith, differ_twice (x % 2) (y % 2) (omega arith) (omega arith), bit_xor_step x y)

-- `^` with the same operand twice is the identity.
pub bit_xor_twice : (w x k : ℕ) → x < 2 ^ w → k < 2 ^ w → bit_xor (bit_xor x k) k ≡ x
bit_xor_twice zero zero zero hx hk = refl
bit_xor_twice zero zero (suc k) hx hk = absurd (omega arith)
bit_xor_twice zero (suc x) k hx hk = absurd (omega arith)
bit_xor_twice (suc w) x k hx hk = ground (
  arith,
  differ_twice (x % 2) (k % 2) (omega arith) (omega arith),
  xor_halves x k,
  bit_xor_step (bit_xor x k) k,
  bit_xor_twice w (x / 2) (k / 2) (omega (arith, pow-suc 2 w)) (omega (arith, pow-suc 2 w)),
)

pub bit_xor-lt : (w x k : ℕ) → x < 2 ^ w → k < 2 ^ w → bit_xor x k < 2 ^ w
bit_xor-lt zero zero zero hx hk = omega arith
bit_xor-lt zero zero (suc k) hx hk = absurd (omega arith)
bit_xor-lt zero (suc x) k hx hk = absurd (omega arith)
bit_xor-lt (suc w) x k hx hk = omega (
  arith,
  pow-suc 2 w,
  differ_twice (x % 2) (k % 2) (omega arith) (omega arith),
  bit_xor_step x k,
  bit_xor-lt w (x / 2) (k / 2) (omega (arith, pow-suc 2 w)) (omega (arith, pow-suc 2 w)),
)
