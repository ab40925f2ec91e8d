-- ===== src/Net/Crypto/Swap.antt =====
-- src/net/crypto.rs: `byte_swap` never goes out of range and is its own inverse.
use rusty_fusion.Error.{ok}
use rusty_fusion.Net.Crypto.{byte_swap_loop, swap}
use rusty_fusion.Prelude.{
  Bool-cases, List, [], ap, arith, get_elem?, get_elem?-set_ne, get_elem?-set_self, get_elem?_ext,
  get_or, if◌then◌else◌, inl, inr, leb, length, length-set, ltb, refl, set, some, suc, sym, zero, ℕ,
  ◌+◌, ◌-◌, ◌/◌, ◌<◌, ◌==◌, ◌∙◌, ◌∷◌, ◌≡◌, ◌≤◌,
}

get_elem?-get_or : (xs : List ℕ) (i : ℕ) → i < length xs → get_elem? xs i ≡ some (get_or xs i 0)
get_elem?-get_or [] i h = elim h [ ]
get_elem?-get_or (x ∷ xs) zero h = refl
get_elem?-get_or (x ∷ xs) (suc i) h = get_elem?-get_or xs i (omega arith)

-- `swap` where both indices are in range.
swapped : List ℕ → ℕ → ℕ → List ℕ
swapped buf i j = set (set buf i (get_or buf j 0)) j (get_or buf i 0)

swap-swapped :
    (buf : List ℕ) (i j : ℕ) → i < length buf → j < length buf → swap buf i j ≡ ok (swapped buf i j)
unfolding swap swapped
swap-swapped buf i j p q = rw (get_elem?-get_or buf i p, get_elem?-get_or buf j q)

length-swapped : (buf : List ℕ) (i j : ℕ) → length (swapped buf i j) ≡ length buf
unfolding swapped
length-swapped buf i j =
    length-set (set buf i (get_or buf j 0)) j (get_or buf i 0) ∙ length-set buf i (get_or buf j 0)

transpose : ℕ → ℕ → ℕ → ℕ
transpose i j k = if k == i then j else if k == j then i else k

get_elem?-swapped :
    (buf : List ℕ) (i j k : ℕ)
    → i < length buf
    → j < length buf
    → get_elem? (swapped buf i j) k ≡ get_elem? buf (transpose i j k)
unfolding swapped transpose
get_elem?-swapped buf i j k p q = ground (
  arith,
  get_elem?-get_or buf i p,
  get_elem?-get_or buf j q,
  length-set buf i (get_or buf j 0),
  get_elem?-set_self buf i (get_or buf j 0) p,
  get_elem?-set_ne buf i k (get_or buf j 0),
  get_elem?-set_self (set buf i (get_or buf j 0)) j (get_or buf i 0),
  get_elem?-set_ne (set buf i (get_or buf j 0)) j k (get_or buf i 0),
)

swapped_twice :
    (buf : List ℕ) (i j : ℕ) → i < length buf → j < length buf → swapped (swapped buf i j) i j ≡ buf
swapped_twice buf i j p q = get_elem?_ext (swapped (swapped buf i j) i j) buf λ k.
    get_elem?-swapped (swapped buf i j) i j k (omega (arith, length-swapped buf i j))
      (omega (arith, length-swapped buf i j))
    ∙ get_elem?-swapped buf i j (transpose i j k) p q
    ∙ ap (get_elem? buf) (unfold transpose in ground arith)

transpose_comm :
    (m i j a b k : ℕ)
    → i < m
    → j < m
    → m ≤ a
    → m ≤ b
    → transpose a b (transpose i j k) ≡ transpose i j (transpose a b k)
unfolding transpose
transpose_comm m i j a b k hi hj ha hb = ground arith

swapped_comm :
    (buf : List ℕ) (m i j a b : ℕ)
    → i < m
    → j < m
    → m ≤ a
    → m ≤ b
    → a < length buf
    → b < length buf
    → swapped (swapped buf a b) i j ≡ swapped (swapped buf i j) a b
swapped_comm buf m i j a b hi hj ha hb pa pb =
    get_elem?_ext (swapped (swapped buf a b) i j) (swapped (swapped buf i j) a b) λ k.
      get_elem?-swapped (swapped buf a b) i j k (omega (arith, length-swapped buf a b))
        (omega (arith, length-swapped buf a b))
      ∙ get_elem?-swapped buf a b (transpose i j k) pa pb
      ∙ ap (get_elem? buf) (transpose_comm m i j a b k hi hj ha hb)
      ∙ sym (get_elem?-swapped buf i j (transpose a b k) (omega arith) (omega arith))
      ∙ sym (
          get_elem?-swapped (swapped buf i j) a b k (omega (arith, length-swapped buf i j))
            (omega (arith, length-swapped buf i j)))

next_offset : ℕ → ℕ → ℕ
next_offset er num3 = if ltb (er / 2) (num3 + 1) then 0 else num3 + 1

-- The buffer that `byte_swap_loop` leaves.
pub swaps : ℕ → ℕ → ℕ → ℕ → ℕ → List ℕ → List ℕ
unfolding next_offset
swaps zero er size num num3 buf = buf
swaps (suc fuel) er size num num3 buf =
    let next =
      swaps fuel er size (num + er) (next_offset er num3)
        (swapped buf (num + num3) (num + (er - 1 - num3))) in
    if leb (num + er) size then next else buf

-- One round: the two indices that block `num` swaps lie in the block.
in_block :
    (er num num3 : ℕ)
    → 0 < er
    → num3 ≤ er / 2
    → (num + num3 < num + er) × (num + (er - 1 - num3) < num + er) × (next_offset er num3 ≤ er / 2)
unfolding next_offset
in_block er num num3 p q = ground arith

pub length-swaps :
    (fuel er size num num3 : ℕ) (buf : List ℕ)
    → length (swaps fuel er size num num3 buf) ≡ length buf
unfolding swaps
length-swaps zero er size num num3 buf = refl
length-swaps (suc fuel) er size num num3 buf =
    let a = num + num3 in
    let b = num + (er - 1 - num3) in
    ground (
      arith,
      length-swapped buf a b,
      length-swaps fuel er size (num + er) (next_offset er num3) (swapped buf a b),
    )

module _ (er size : ℕ) (pos : 0 < er) where
  -- The rounds from `num` on leave alone what stands below it.
  swaps-swapped :
      (fuel num num3 i j : ℕ) (buf : List ℕ)
      → length buf ≡ size
      → num3 ≤ er / 2
      → i < num
      → j < num
      → swaps fuel er size num num3 (swapped buf i j)
        ≡ swapped (swaps fuel er size num num3 buf) i j
  unfolding swaps
  swaps-swapped zero num num3 i j buf e q hi hj = refl
  swaps-swapped (suc fuel) num num3 i j buf e q hi hj = elim (Bool-cases (leb (num + er) size)) [
    | inr finished ↦ rw (finished, swaps)
    | inl more ↦
        let a = num + num3 in
        let b = num + (er - 1 - num3) in
        let block = in_block er num num3 pos q in
        let fits : num + er ≤ length buf = ground arith in
        rw (more, swaps)
          (ap (swaps fuel er size (num + er) (next_offset er num3)) (
              sym (
                swapped_comm buf num i j a b hi hj (omega arith) (omega arith) (omega arith)
                  (omega arith)))
            ∙ swaps-swapped fuel (num + er) (next_offset er num3) i j (swapped buf a b)
                (length-swapped buf a b ∙ e) block.2 (omega arith) (omega arith))
  ]

  pub swaps_twice :
      (fuel num num3 : ℕ) (buf : List ℕ)
      → length buf ≡ size
      → num3 ≤ er / 2
      → swaps fuel er size num num3 (swaps fuel er size num num3 buf) ≡ buf
  unfolding swaps
  swaps_twice zero num num3 buf e q = refl
  swaps_twice (suc fuel) num num3 buf e q = elim (Bool-cases (leb (num + er) size)) [
    | inr finished ↦ rw (finished, swaps)
    | inl more ↦
        let a = num + num3 in
        let b = num + (er - 1 - num3) in
        let block = in_block er num num3 pos q in
        let fits : num + er ≤ length buf = ground arith in
        let later = λ (xs : List ℕ). swaps fuel er size (num + er) (next_offset er num3) xs in
        let once = swapped buf a b in
        let once_size = length-swapped buf a b ∙ e in
        rw (more, swaps)
          (swaps-swapped fuel (num + er) (next_offset er num3) a b (later once)
              (length-swaps fuel er size (num + er) (next_offset er num3) once ∙ once_size) block.2
              (omega arith) (omega arith)
            ∙ ap (λ (xs : List ℕ). swapped xs a b)
                (swaps_twice fuel (num + er) (next_offset er num3) once once_size block.2)
            ∙ swapped_twice buf a b (omega arith) (omega arith))
  ]

  -- With fuel for every block the loop returns, on no path out of range.
  pub byte_swap_loop-swaps :
      (fuel num num3 : ℕ) (buf : List ℕ)
      → length buf ≡ size
      → num3 ≤ er / 2
      → num ≤ size
      → size < num + fuel
      → (n : ℕ) × (byte_swap_loop fuel er size num num3 buf
          ≡ ok (swaps fuel er size num num3 buf, n))
        × (n ≤ size)
        × (size < n + er)
  unfolding byte_swap_loop swaps next_offset
  byte_swap_loop-swaps zero num num3 buf e q le f = absurd (omega arith)
  byte_swap_loop-swaps (suc fuel) num num3 buf e q le f = elim (Bool-cases (leb (num + er) size)) [
    | inr finished ↦ (num, rw (finished, byte_swap_loop, swaps), le, ground arith)
    | inl more ↦
        let a = num + num3 in
        let b = num + (er - 1 - num3) in
        let block = in_block er num num3 pos q in
        let fits : num + er ≤ length buf = ground arith in
        let rest =
          byte_swap_loop-swaps fuel (num + er) (next_offset er num3) (swapped buf a b)
            (length-swapped buf a b ∙ e) block.2 (omega arith) (omega arith) in
        (
          rest.0,
          rw (more, byte_swap_loop, swaps, swap-swapped buf a b (omega arith) (omega arith)) rest.1,
          rest.2,
          rest.3,
        )
  ]
