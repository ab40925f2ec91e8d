-- ===== src/Net/Crypto/Whole.antt =====
-- src/net/crypto.rs: `byte_swap` over a whole buffer.
use rusty_fusion.Error.{ok}
use rusty_fusion.Net.Crypto.{byte_swap, byte_swap_loop}
use rusty_fusion.Net.Crypto.Swap.{byte_swap_loop-swaps, length-swaps, swaps, swaps_twice}
use rusty_fusion.Prelude.{List, ap, arith, length, refl, suc, ℕ, ◌+◌, ◌-◌, ◌<◌, ◌≡◌, ◌≤◌}

-- The loop of `byte_swap` over a whole buffer ends for every positive block size, after no more rounds than
-- there are bytes: with any more fuel than that it returns, at less than a block from the end, and leaves
-- a buffer of the same length.
pub byte_swap_loop-ends :
    (er fuel : ℕ) (buf : List ℕ)
    → 0 < er
    → length buf < fuel
    → (buf' : List ℕ) × (num : ℕ) × (byte_swap_loop fuel er (length buf) 0 0 buf ≡ ok (buf', num))
      × (length buf' ≡ length buf)
      × (num ≤ length buf)
      × (length buf < num + er)
byte_swap_loop-ends er fuel buf pos enough =
    let (n, returns, low, near) =
      byte_swap_loop-swaps er (length buf) pos fuel 0 0 buf refl (omega arith) (omega arith)
        (omega (arith, enough)) in
    (
      swaps fuel er (length buf) 0 0 buf,
      n,
      returns,
      length-swaps fuel er (length buf) 0 0 buf,
      low,
      near,
    )

-- The buffer that `byte_swap` leaves.
pub byte_swapped : ℕ → List ℕ → List ℕ
byte_swapped er buf = swaps (suc (length buf)) er (length buf) 0 0 buf

-- `byte_swap` over a whole buffer returns for every positive block size, and returns the length.
pub byte_swap-byte_swapped :
    (er : ℕ) (buf : List ℕ)
    → 0 < er
    → byte_swap er buf (length buf) ≡ ok (byte_swapped er buf, length buf)
unfolding byte_swap byte_swapped
byte_swap-byte_swapped er buf pos =
    let looped =
      byte_swap_loop-swaps er (length buf) pos (suc (length buf)) 0 0 buf refl (omega arith)
        (omega arith) (omega arith) in
    let num2 : looped.0 + (er - (looped.0 + er - length buf)) ≡ length buf =
      omega (arith, looped.2, looped.3) in
    rw looped.1 (ap (λ (n : ℕ). ok (swaps (suc (length buf)) er (length buf) 0 0 buf, n)) num2)

pub length-byte_swapped : (er : ℕ) (buf : List ℕ) → length (byte_swapped er buf) ≡ length buf
unfolding byte_swapped
length-byte_swapped er buf = length-swaps (suc (length buf)) er (length buf) 0 0 buf

pub byte_swapped_twice :
    (er : ℕ) (buf : List ℕ) → 0 < er → byte_swapped er (byte_swapped er buf) ≡ buf
unfolding byte_swapped
byte_swapped_twice er buf pos =
    rw (length-swaps (suc (length buf)) er (length buf) 0 0 buf)
      (swaps_twice er (length buf) pos (suc (length buf)) 0 0 buf refl (omega arith))
