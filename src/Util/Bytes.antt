-- ===== src/Util/Bytes.antt =====
-- src/util.rs: the trait `AsBytes` of the integer types, of any size: bytes, lowest first. An integer
-- is its bit pattern, a number below 2 to the power of its bits.
use rusty_fusion.Prelude.{
  ℕ, zero, suc, ◌+◌, ◌*◌, ◌/◌, ◌%◌, ◌^◌, ◌<◌, ◌≡◌, refl, ap, List, [], ◌∷◌, ◌++◌, arith, length,
  ltb, take, drop, if◌then◌else◌,
}
use native.Mathlib.Nat.{pow-suc}
use rusty_fusion.Error.{Outcome, ok, panics}

unfoldable pub to_le_bytes : ℕ → ℕ → List ℕ
to_le_bytes zero x = []
to_le_bytes (suc size) x = x % 256 ∷ to_le_bytes size (x / 256)

unfoldable pub from_le_bytes : List ℕ → ℕ
from_le_bytes [] = 0
from_le_bytes (b ∷ bs) = b + 256 * from_le_bytes bs

-- `T::from_bytes`: `bytes[..size]` panics when there are fewer.
unfoldable pub from_bytes : ℕ → List ℕ → Outcome ℕ
unfolding from_le_bytes
from_bytes size bytes =
    if ltb (length bytes) size then panics else ok (from_le_bytes (take size bytes))

pub length-to_le_bytes : (size x : ℕ) → length (to_le_bytes size x) ≡ size
unfolding to_le_bytes
length-to_le_bytes zero x = refl
length-to_le_bytes (suc size) x = ap suc (length-to_le_bytes size (x / 256))

pub from_le_bytes-to_le_bytes :
    (size x : ℕ) → x < 256 ^ size → from_le_bytes (to_le_bytes size x) ≡ x
unfolding from_le_bytes to_le_bytes
from_le_bytes-to_le_bytes zero x h = omega arith
from_le_bytes-to_le_bytes (suc size) x h = omega (
  arith,
  pow-suc 256 size,
  from_le_bytes-to_le_bytes size (x / 256) (omega (arith, pow-suc 256 size)),
)

pub take-append_self : (xs ys : List ℕ) → take (length xs) (xs ++ ys) ≡ xs
take-append_self [] ys = refl
take-append_self (x ∷ xs) ys = ap (λ (l : List ℕ). x ∷ l) (take-append_self xs ys)

pub take-all : (xs : List ℕ) → take (length xs) xs ≡ xs
take-all [] = refl
take-all (x ∷ xs) = ap (λ (l : List ℕ). x ∷ l) (take-all xs)

pub drop-append_self : (xs ys : List ℕ) → drop (length xs) (xs ++ ys) ≡ ys
drop-append_self [] ys = refl
drop-append_self (x ∷ xs) ys = drop-append_self xs ys

-- Reading back the bytes of a number that fits.
pub from_bytes-to_le_bytes :
    (size x : ℕ) → x < 256 ^ size → from_bytes size (to_le_bytes size x) ≡ ok x
unfolding from_bytes
from_bytes-to_le_bytes size x h =
    let n = length-to_le_bytes size x in
    let whole : take size (to_le_bytes size x) ≡ to_le_bytes size x =
      rw n at (take-all (to_le_bytes size x)) in
    ground (arith, n, whole, from_le_bytes-to_le_bytes size x h)
