-- ===== src/Util/Bitfield.antt =====
-- src/util.rs: `Bitfield<T>`. T is an integer type of `size` bytes; a chunk is its bit pattern.
pub mod GetSet
pub mod RoundTrip
use rusty_fusion.Prelude.{
  ℕ, zero, suc, ◌+◌, ◌-◌, ◌*◌, ◌/◌, ◌%◌, ◌^◌, Bool, true, false, not, ◌||◌, List, [], ◌∷◌, ◌++◌,
  Option, none, some, bit_and, bit_or, length, get_elem?, set, take, drop, replicate, ltb, leb,
  ◌==◌, if◌then◌else◌,
}
use rusty_fusion.Error.{Outcome, ok, err, panics, ◌>>=◌, ◌>>◌, guard, unwrap, build, warning}
use rusty_fusion.Util.Bytes.{to_le_bytes, from_bytes}

pub record Bitfield : Type 0 where
  pub chunks : List ℕ

-- `array[i] = *chunk` over every chunk panics past the end of an array that is shorter.
copy_chunks : List ℕ → ℕ → Outcome (List ℕ)
copy_chunks [] array_size = ok (replicate array_size 0)
copy_chunks (c ∷ cs) zero = panics
copy_chunks (c ∷ cs) (suc left) = do rest ← copy_chunks cs left; ok (c ∷ rest)

module _ (size : ℕ) where
  abbrev pub chunk_size_bits : ℕ
  chunk_size_bits = size * 8

  unfoldable pub new : ℕ → Bitfield
  new num_chunks = record { chunks = replicate num_chunks 0 }

  -- An error leaves the field as it was. The result says whether the bit changed.
  unfoldable pub set_bit : Bitfield → ℕ → Bool → Outcome (Bitfield × Bool)
  set_bit b idx val = do
    let chunk_idx = idx / chunk_size_bits
    guard (ltb chunk_idx (length b.chunks)) (build warning "Bitfield index out of bounds")
    let mask = 2 ^ (idx % chunk_size_bits)
    old_val ← unwrap (get_elem? b.chunks chunk_idx)
    let new_val =
        if val then bit_or old_val mask else bit_and old_val (2 ^ chunk_size_bits - 1 - mask)
    ok (record { chunks = set b.chunks chunk_idx new_val }, not (old_val == new_val))

  unfoldable pub get_bit : Bitfield → ℕ → Outcome Bool
  get_bit b idx = do
    let chunk_idx = idx / chunk_size_bits
    guard (ltb chunk_idx (length b.chunks)) (build warning "Bitfield index out of bounds")
    let mask = 2 ^ (idx % chunk_size_bits)
    chunk ← unwrap (get_elem? b.chunks chunk_idx)
    ok (not (bit_and chunk mask == 0))

  unfoldable pub get_chunk : Bitfield → ℕ → Outcome ℕ
  get_chunk b idx = do
    guard (ltb idx (length b.chunks)) (build warning "Bitfield chunk index out of bounds")
    unwrap (get_elem? b.chunks idx)

  unfoldable pub set_chunk : Bitfield → ℕ → ℕ → Outcome Bitfield
  set_chunk b idx val = do
    guard (ltb idx (length b.chunks)) (build warning "Bitfield chunk index out of bounds")
    ok (record { chunks = set b.chunks idx val })

  chunk_bytes : List ℕ → List ℕ
  chunk_bytes [] = []
  chunk_bytes (c ∷ cs) = to_le_bytes size c ++ chunk_bytes cs

  unfoldable pub to_bytes : Bitfield → List ℕ
  unfolding chunk_bytes
  to_bytes b = chunk_bytes b.chunks

  -- The `for` of `from_bytes` at chunk i, with `left` chunks to go.
  from_bytes_loop : List ℕ → ℕ → ℕ → Outcome (List ℕ)
  from_bytes_loop bytes zero i = ok []
  from_bytes_loop bytes (suc left) i = do
    let start = i * size
    let end = start + size
    chunk ←
        (if leb (length bytes) start || ltb (length bytes) end
          then ok 0
          else from_bytes size (take size (drop start bytes)))
    rest ← from_bytes_loop bytes left (i + 1)
    ok (chunk ∷ rest)

  unfoldable pub bitfield_from_bytes : List ℕ → ℕ → Outcome Bitfield
  unfolding from_bytes_loop
  bitfield_from_bytes bytes num_chunks = do
    chunks ← from_bytes_loop bytes num_chunks 0
    ok (record { chunks = chunks })

  unfoldable pub to_array : Bitfield → ℕ → Outcome (List ℕ)
  unfolding copy_chunks
  to_array b array_size = do
    guard (leb array_size (length b.chunks)) (build warning "Bitfield chunks fewer than array size")
    copy_chunks b.chunks array_size
