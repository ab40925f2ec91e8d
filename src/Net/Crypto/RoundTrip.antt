-- ===== src/Net/Crypto/RoundTrip.antt =====
-- src/net/crypto.rs: decrypting undoes encrypting and the other way round.
use rusty_fusion.Error.{ok}
use rusty_fusion.Net.Crypto.{byte_swap, decrypt_payload, encrypt_payload, get_er_size, xor}
use rusty_fusion.Net.Crypto.Whole.{
  byte_swap-byte_swapped, byte_swapped, byte_swapped_twice, length-byte_swapped,
}
use rusty_fusion.Net.Crypto.Xor.{
  IsBytes, byte_xored, byte_xored_twice, length-byte_xored, xor-byte_xored,
}
use rusty_fusion.Prelude.{List, ap, arith, length, ℕ, ◌<◌, ◌∙◌, ◌≡◌}

er_size-pos : (buf key : List ℕ) → 0 < length key → 0 < get_er_size buf key
unfolding get_er_size
er_size-pos buf key pos = omega arith

er_size-length :
    (xs ys key : List ℕ) → length xs ≡ length ys → get_er_size xs key ≡ get_er_size ys key
unfolding get_er_size
er_size-length xs ys key e = rw e

-- `encrypt_payload` on no path fails: it xors, then swaps.
encrypt_payload-eq :
    (buf key : List ℕ)
    → 0 < length key
    → encrypt_payload buf key ≡ ok (byte_swapped (get_er_size buf key) (byte_xored key buf))
unfolding encrypt_payload
encrypt_payload-eq buf key pos = rw (xor-byte_xored buf key pos) (rw swaps)
  where
    er : ℕ
    er = get_er_size buf key

    swaps :
        byte_swap er (byte_xored key buf) (length buf)
        ≡ ok (byte_swapped er (byte_xored key buf), length buf)
    swaps =
        rw (length-byte_xored key buf) at
          (byte_swap-byte_swapped er (byte_xored key buf) (er_size-pos buf key pos))

decrypt_payload-eq :
    (buf key : List ℕ)
    → 0 < length key
    → decrypt_payload buf key ≡ ok (byte_xored key (byte_swapped (get_er_size buf key) buf))
unfolding decrypt_payload
decrypt_payload-eq buf key pos = rw (byte_swap-byte_swapped er buf (er_size-pos buf key pos)) xors
  where
    er : ℕ
    er = get_er_size buf key

    xors : xor (byte_swapped er buf) key (length buf) ≡ ok (byte_xored key (byte_swapped er buf))
    xors = rw (length-byte_swapped er buf) at (xor-byte_xored (byte_swapped er buf) key pos)

-- For a key that is not empty, and whatever the length of the payload, encrypting returns a payload
-- of the same length, and decrypting that with the same key returns the payload.
pub decrypt_payload-encrypt_payload :
    (buf key : List ℕ)
    → 0 < length key
    → IsBytes key
    → IsBytes buf
    → (out : List ℕ) × (encrypt_payload buf key ≡ ok out)
      × (length out ≡ length buf)
      × (decrypt_payload out key ≡ ok buf)
decrypt_payload-encrypt_payload buf key pos hk hb =
    let er = get_er_size buf key in
    let out = byte_swapped er (byte_xored key buf) in
    let size = length-byte_swapped er (byte_xored key buf) ∙ length-byte_xored key buf in
    (
      out,
      encrypt_payload-eq buf key pos,
      size,
      decrypt_payload-eq out key pos
          ∙ ap (λ (n : ℕ). ok (byte_xored key (byte_swapped n out)))
              (er_size-length out buf key size)
          ∙ ap (λ (xs : List ℕ). ok (byte_xored key xs))
              (byte_swapped_twice er (byte_xored key buf) (er_size-pos buf key pos))
          ∙ ap ok (byte_xored_twice key buf hk hb),
    )
