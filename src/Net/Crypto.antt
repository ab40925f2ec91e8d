-- ===== src/Net/Crypto.antt =====
-- src/net/crypto.rs: the payload cipher. A buffer is a list of bytes; an index out of range, which
-- the slice accesses of the source panic on, is the outcome `panics`.
pub mod Swap
pub mod Whole
pub mod Xor
pub mod RoundTrip
use rusty_fusion.Prelude.{
  ℕ, zero, suc, ◌+◌, ◌-◌, ◌*◌, ◌/◌, ◌%◌, List, bit_xor, Option, none, some, length, get_elem?, set,
  ltb, leb, if◌then◌else◌,
}
use rusty_fusion.Error.{Outcome, ok, panics, ◌>>=◌, unwrap}

-- `for i in 0..size { buf[i] ^= key[i % key.len()] }` at index i, with `left` rounds to go.
-- `%` by an empty key panics.
unfoldable pub xor_loop : List ℕ → ℕ → ℕ → List ℕ → Outcome (List ℕ)
xor_loop key zero i buf = ok buf
xor_loop key (suc left) i buf = do
  b ← unwrap (get_elem? buf i)
  k ← (if leb (length key) 0 then panics else unwrap (get_elem? key (i % length key)))
  xor_loop key left (i + 1) (set buf i (bit_xor b k))

unfoldable pub xor : List ℕ → List ℕ → ℕ → Outcome (List ℕ)
unfolding xor_loop
xor buf key size = xor_loop key size 0 buf

-- `buf.swap(i, j)`
unfoldable pub swap : List ℕ → ℕ → ℕ → Outcome (List ℕ)
swap buf i j = do
  x ← unwrap (get_elem? buf i)
  y ← unwrap (get_elem? buf j)
  ok (set (set buf i y) j x)

-- The `while` of `byte_swap`; returns the buffer and the last `num`. Each round adds er_size to num,
-- so `size + 1` rounds are enough when er_size is positive; fuel that runs out is `panics`.
unfoldable pub byte_swap_loop : ℕ → ℕ → ℕ → ℕ → ℕ → List ℕ → Outcome (List ℕ × ℕ)
unfolding swap
byte_swap_loop zero er_size size num num3 buf = panics
byte_swap_loop (suc fuel) er_size size num num3 buf =
    let next = (do
      buf' ← swap buf (num + num3) (num + (er_size - 1 - num3))
      byte_swap_loop fuel er_size size (num + er_size)
          (if ltb (er_size / 2) (num3 + 1) then 0 else num3 + 1) buf') in
    if leb (num + er_size) size then next else ok (buf, num)

-- num2 is er_size - (num + er_size - size).
unfoldable pub byte_swap : ℕ → List ℕ → ℕ → Outcome (List ℕ × ℕ)
unfolding byte_swap_loop
byte_swap er_size buf size = do
  (buf', num) ← byte_swap_loop (suc size) er_size size 0 0 buf
  ok (buf', num + (er_size - (num + er_size - size)))

unfoldable pub get_er_size : List ℕ → List ℕ → ℕ
get_er_size buf key = length buf % (length key / 2 + 1) * 2 + length key

unfoldable pub decrypt_payload : List ℕ → List ℕ → Outcome (List ℕ)
decrypt_payload buf key = do
  (buf', xor_size) ← byte_swap (get_er_size buf key) buf (length buf)
  xor buf' key xor_size

unfoldable pub encrypt_payload : List ℕ → List ℕ → Outcome (List ℕ)
encrypt_payload buf key = do
  buf' ← xor buf key (length buf)
  (buf'', _) ← byte_swap (get_er_size buf key) buf' (length buf)
  ok buf''
