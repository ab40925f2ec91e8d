-- ===== src/Util/Bitfield/RoundTrip.antt =====
-- src/util.rs: a `Bitfield` through bytes and into an array.
use mathlib.Core.List.{append-nil, append_assoc}
use native.Mathlib.Nat.{zero-add}
use rusty_fusion.Error.{build, err, ok, panics, warning}
use rusty_fusion.Prelude.{
  List, [], arith, drop, if◌then◌else◌, length, length-append, ltb, refl, replicate, suc, sym, take,
  zero, ℕ, ◌*◌, ◌++◌, ◌+◌, ◌<◌, ◌==◌, ◌^◌, ◌∷◌, ◌≡◌, ◌≤◌,
}
use rusty_fusion.Util.Bitfield.{
  Bitfield, bitfield_from_bytes, chunk_bytes, copy_chunks, from_bytes_loop, to_array, to_bytes,
}
use rusty_fusion.Util.Bytes.{
  drop-append_self, from_bytes, from_bytes-to_le_bytes, length-to_le_bytes, take-append_self,
  to_le_bytes,
}

abbrev pub AllFitBytes : ℕ → List ℕ → Type 0
AllFitBytes size [] = Unit
AllFitBytes size (c ∷ cs) = (c < 256 ^ size) × AllFitBytes size cs

suc_left : (n k : ℕ) → suc n + k ≡ suc (n + k)
suc_left n k = omega arith

module _ (size : ℕ) (pos : 0 < size) where
  -- The loop at chunk i, where the bytes of the first i chunks are behind it; past the end of the
  -- bytes it pads with zero.
  pad :
      (k i : ℕ) (bytes : List ℕ)
      → length bytes ≤ i * size
      → from_bytes_loop size bytes k i ≡ ok (replicate k 0)
  unfolding from_bytes_loop
  pad zero i bytes h = refl
  pad (suc k) i bytes h = let rest = pad k (i + 1) bytes (omega arith) in ground (arith, rest)

  slice :
      (pre : List ℕ) (c : ℕ) (cs : List ℕ) (begin : ℕ)
      → begin ≡ length pre
      → take size (drop begin (pre ++ chunk_bytes size (c ∷ cs))) ≡ to_le_bytes size c
  unfolding chunk_bytes
  slice pre c cs begin e =
      rw (e, drop-append_self pre (to_le_bytes size c ++ chunk_bytes size cs))
        (rw (length-to_le_bytes size c) at
          (take-append_self (to_le_bytes size c) (chunk_bytes size cs)))

  read_next :
      (bytes : List ℕ) (left i c : ℕ) (cs : List ℕ)
      → i * size + size ≤ length bytes
      → from_bytes size (take size (drop (i * size) bytes)) ≡ ok c
      → from_bytes_loop size bytes left (i + 1) ≡ ok cs
      → from_bytes_loop size bytes (suc left) i ≡ ok (c ∷ cs)
  unfolding from_bytes_loop
  read_next bytes left i c cs h e rest = ground arith

  read_chunks :
      (cs : List ℕ) (k i : ℕ) (pre : List ℕ)
      → AllFitBytes size cs
      → length pre ≡ i * size
      → from_bytes_loop size (pre ++ chunk_bytes size cs) (length cs + k) i
        ≡ ok (cs ++ replicate k 0)
  unfolding chunk_bytes
  read_chunks [] k i pre v e = rw (zero-add k, append-nil pre) (pad k i pre (omega arith))
  read_chunks (c ∷ cs) k i pre v e =
      let bytes = pre ++ chunk_bytes size (c ∷ cs) in
      let total : length bytes ≡ length pre + size + length (chunk_bytes size cs) = omega (
        arith,
        length-append pre (to_le_bytes size c ++ chunk_bytes size cs),
        length-append (to_le_bytes size c) (chunk_bytes size cs),
        length-to_le_bytes size c,
      ) in
      let rest =
        read_chunks cs k (i + 1) (pre ++ to_le_bytes size c) v.1
          (omega (arith, length-append pre (to_le_bytes size c), length-to_le_bytes size c)) in
      let rest' : from_bytes_loop size bytes (length cs + k) (i + 1) ≡ ok (cs ++ replicate k 0) =
        rw append_assoc at rest in
      rw (suc_left (length cs) k) (
        read_next bytes (length cs + k) i c (cs ++ replicate k 0) (omega arith)
          (rw (slice pre c cs (i * size) (sym e)) (from_bytes-to_le_bytes size c v.0)) rest')

  -- Reading as many chunks as were written gives the field back, and `k` more chunks are zero.
  pub bitfield_from_bytes-to_bytes :
      (b : Bitfield) (k : ℕ)
      → AllFitBytes size b.chunks
      → bitfield_from_bytes size (to_bytes size b) (length b.chunks + k)
        ≡ ok (record { chunks = b.chunks ++ replicate k 0 })
  unfolding bitfield_from_bytes to_bytes
  bitfield_from_bytes-to_bytes b k v = rw (read_chunks b.chunks k 0 [] v (omega arith))

copy_chunks-same : (cs : List ℕ) → copy_chunks cs (length cs) ≡ ok cs
unfolding copy_chunks
copy_chunks-same [] = refl
copy_chunks-same (c ∷ cs) = rw (copy_chunks-same cs)

copy_chunks_short : (cs : List ℕ) (n : ℕ) → n < length cs → copy_chunks cs n ≡ panics
unfolding copy_chunks
copy_chunks_short [] n h = absurd (omega arith)
copy_chunks_short (c ∷ cs) zero h = refl
copy_chunks_short (c ∷ cs) (suc n) h = rw (copy_chunks_short cs n (omega arith))

-- `to_array` copies all chunks into an array of exactly their number. A longer array is an error,
-- and a shorter one, which the guard lets through, panics.
pub to_array_lem :
    (size : ℕ) (b : Bitfield) (n : ℕ)
    → to_array size b n ≡ (
        if n == length b.chunks
        then ok b.chunks
        else if ltb n (length b.chunks)
        then panics
        else err (build warning "Bitfield chunks fewer than array size"))
unfolding to_array
to_array_lem size b n = ground (arith, copy_chunks-same b.chunks, copy_chunks_short b.chunks n)
