-- ===== src/Prelude/Bits/Digits.antt =====
-- The native bit operations are recursions on binary digits with fuel. One equation for the
-- lowest digit of each, with no fuel in it.
use Prim.Native.Nat.{
  ℕ, zero, suc, ◌+◌, ◌*◌, ◌/◌, ◌%◌, ◌≤◌, min, max, bit_and, bit_or, bit_xor, bitwise, differ,
  digits, bit_and-bitwise, bit_or-bitwise, bit_xor-bitwise,
}
use mathlib.Core.Path.{◌≡◌, refl}
use native.Mathlib.Omega.{arith}

-- `past` is what remains of the second number when the first has no more digits; `combine` joins
-- two digits. The law says that `past` works digit by digit too.
module _ (past : ℕ → ℕ) (combine : ℕ → ℕ → ℕ)
    (past_step : (y : ℕ) → past y ≡ combine 0 (y % 2) + 2 * past (y / 2)) where
  -- Any fuel that is not below the number gives the same digits.
  spare :
      (fuel bound x y : ℕ)
      → x ≤ fuel
      → fuel ≤ bound
      → digits past combine bound x y ≡ digits past combine fuel x y
  spare zero zero zero y below more = refl
  spare zero (suc bound) zero y below more = refl
  spare (suc fuel) (suc bound) zero y below more = refl
  spare (suc fuel) (suc bound) (suc x) y below more =
      ground (arith, spare fuel bound (suc x / 2) (y / 2) (omega arith) (omega arith))
  spare zero bound (suc x) y below more = absurd (omega arith)
  spare (suc fuel) zero x y below more = absurd (omega arith)

  lowest :
      (x y : ℕ)
      → bitwise past combine x y
        ≡ combine (x % 2) (y % 2) + 2 * bitwise past combine (x / 2) (y / 2)
  lowest zero y = past_step y
  lowest (suc x) y =
      let half = suc x / 2 in ground (arith, spare half x half (y / 2) (omega arith) (omega arith))

pub bit_or_step : (x y : ℕ) → bit_or x y ≡ max (x % 2) (y % 2) + 2 * bit_or (x / 2) (y / 2)
bit_or_step x y = simp bit_or-bitwise (lowest (λ n. n) max (λ n. omega arith) x y)

pub bit_and_step : (x y : ℕ) → bit_and x y ≡ min (x % 2) (y % 2) + 2 * bit_and (x / 2) (y / 2)
bit_and_step x y = simp bit_and-bitwise (lowest (λ n. 0) min (λ n. omega arith) x y)

pub bit_xor_step : (x y : ℕ) → bit_xor x y ≡ differ (x % 2) (y % 2) + 2 * bit_xor (x / 2) (y / 2)
bit_xor_step x y = simp bit_xor-bitwise (lowest (λ n. n) differ (λ n. omega arith) x y)
