-- ===== src/Net/Crypto/Xor.antt =====
-- src/net/crypto.rs: `xor` over a whole buffer, byte by byte, is its own inverse.
use mathlib.Core.List.{append_assoc}
use rusty_fusion.Error.{ok}
use rusty_fusion.Net.Crypto.{xor, xor_loop}
use rusty_fusion.Prelude.{
  List, [], ap, arith, bit_xor, false, get_elem?, get_or, leb, length, length-append, refl, set,
  some, suc, zero, ℕ, ◌%◌, ◌++◌, ◌+◌, ◌<◌, ◌∷◌, ◌≡◌,
}
use rusty_fusion.Prelude.Bits.{bit_xor_twice}

abbrev pub IsBytes : List ℕ → Type 0
IsBytes [] = Unit
IsBytes (b ∷ bs) = (b < 256) × IsBytes bs

key_byte : List ℕ → ℕ → ℕ
key_byte key i = get_or key (i % length key) 0

get_or-IsBytes : (bs : List ℕ) (i : ℕ) → IsBytes bs → get_or bs i 0 < 256
get_or-IsBytes [] i h = omega arith
get_or-IsBytes (b ∷ bs) zero h = h.0
get_or-IsBytes (b ∷ bs) (suc i) h = get_or-IsBytes bs i h.1

get_elem?-get_or : (xs : List ℕ) (i : ℕ) → i < length xs → get_elem? xs i ≡ some (get_or xs i 0)
get_elem?-get_or [] i h = elim h [ ]
get_elem?-get_or (x ∷ xs) zero h = refl
get_elem?-get_or (x ∷ xs) (suc i) h = get_elem?-get_or xs i (omega arith)

-- The bytes from index i on, each xored with its byte of the key.
xored : List ℕ → ℕ → List ℕ → List ℕ
xored key i [] = []
xored key i (b ∷ bs) = bit_xor b (key_byte key i) ∷ xored key (i + 1) bs

set-middle :
    (pre : List ℕ) (b c : ℕ) (bs : List ℕ) → set (pre ++ b ∷ bs) (length pre) c ≡ pre ++ c ∷ bs
set-middle [] b c bs = refl
set-middle (p ∷ pre) b c bs = ap (λ (xs : List ℕ). p ∷ xs) (set-middle pre b c bs)

get-middle : (pre : List ℕ) (b : ℕ) (bs : List ℕ) → get_elem? (pre ++ b ∷ bs) (length pre) ≡ some b
get-middle [] b bs = refl
get-middle (p ∷ pre) b bs = get-middle pre b bs

length-snoc : (pre : List ℕ) (c : ℕ) → length (pre ++ c ∷ []) ≡ length pre + 1
length-snoc pre c = omega (arith, length-append pre (c ∷ []))

module _ (key : List ℕ) (pos : 0 < length key) where
  xor_loop-xored :
      (bs pre : List ℕ)
      → xor_loop key (length bs) (length pre) (pre ++ bs) ≡ ok (pre ++ xored key (length pre) bs)
  unfolding xor_loop xored key_byte
  xor_loop-xored [] pre = refl
  xor_loop-xored (b ∷ bs) pre =
      let c = bit_xor b (key_byte key (length pre)) in
      let at : length pre % length key < length key = omega arith in
      rw
        (
          get-middle pre b bs,
          nonempty,
          get_elem?-get_or key (length pre % length key) at,
          set-middle pre b (bit_xor b (get_or key (length pre % length key) 0)) bs,
        )
        (simp (length-snoc pre c, append_assoc) at (xor_loop-xored bs (pre ++ c ∷ [])))
    where
      nonempty : leb (length key) 0 ≡ false
      nonempty = ground arith

pub byte_xored : List ℕ → List ℕ → List ℕ
byte_xored key buf = xored key 0 buf

pub xor-byte_xored :
    (buf key : List ℕ) → 0 < length key → xor buf key (length buf) ≡ ok (byte_xored key buf)
unfolding xor byte_xored
xor-byte_xored buf key pos = xor_loop-xored key pos buf []

length-xored : (key : List ℕ) (i : ℕ) (bs : List ℕ) → length (xored key i bs) ≡ length bs
unfolding xored
length-xored key i [] = refl
length-xored key i (b ∷ bs) = ap suc (length-xored key (i + 1) bs)

pub length-byte_xored : (key buf : List ℕ) → length (byte_xored key buf) ≡ length buf
unfolding byte_xored
length-byte_xored key buf = length-xored key 0 buf

xored_twice :
    (key : List ℕ) (i : ℕ) (bs : List ℕ)
    → IsBytes key
    → IsBytes bs
    → xored key i (xored key i bs) ≡ bs
unfolding xored key_byte
xored_twice key i [] hk hb = refl
xored_twice key i (b ∷ bs) hk hb = cc (
  bit_xor_twice 8 b (get_or key (i % length key) 0) hb.0 (get_or-IsBytes key (i % length key) hk),
  xored_twice key (i + 1) bs hk hb.1,
)

pub byte_xored_twice :
    (key buf : List ℕ) → IsBytes key → IsBytes buf → byte_xored key (byte_xored key buf) ≡ buf
unfolding byte_xored
byte_xored_twice key buf hk hb = xored_twice key 0 buf hk hb
