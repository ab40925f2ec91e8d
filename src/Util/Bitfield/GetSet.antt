-- ===== src/Util/Bitfield/GetSet.antt =====
-- src/util.rs: `Bitfield` refines a set of bit indices: what `get` returns after `set`.
use native.Mathlib.Nat.{div-add-mod, mod-lt, one-le-pow, pow-suc}
use rusty_fusion.Error.{build, err, ok, warning}
use rusty_fusion.Prelude.{
  ==_iff, ==_ne, Bool, Bool-cases, List, [], ap, arith, bit_and, bit_or, false, get_elem?,
  get_elem?-lt, get_elem?-set_ne, get_elem?-set_self, if◌then◌else◌, inl, inr, length, length-set,
  le→not_ltb, lt-get_elem?, lt→ltb, not, set, some, suc, sym, true, zero, ℕ, ◌%◌, ◌*◌, ◌+◌, ◌-◌,
  ◌/◌, ◌<◌, ◌==◌, ◌^◌, ◌∙◌, ◌∷◌, ◌≡◌, ◌≢◌, ◌≤◌,
}
use rusty_fusion.Prelude.Bits.{
  bit, bit-bit_and, bit-bit_or, bit-complement, bit-two_pow, bit_and-lt, bit_and-two_pow, bit_or-lt,
  bits_ext,
}
use rusty_fusion.Util.Bitfield.{Bitfield, chunk_size_bits, get_bit, set_bit}

-- Every chunk fits its integer type.
abbrev pub AllFit : ℕ → List ℕ → Type 0
AllFit w [] = Unit
AllFit w (c ∷ cs) = (c < 2 ^ w) × AllFit w cs

AllFit-get : (w : ℕ) (cs : List ℕ) (i c : ℕ) → AllFit w cs → get_elem? cs i ≡ some c → c < 2 ^ w
AllFit-get w [] i c h e = cc
AllFit-get w (x ∷ cs) zero c h e = ground (arith, h.0)
AllFit-get w (x ∷ cs) (suc i) c h e = AllFit-get w cs i c h.1 e

AllFit-set : (w : ℕ) (cs : List ℕ) (i c : ℕ) → AllFit w cs → c < 2 ^ w → AllFit w (set cs i c)
AllFit-set w [] i c h p = tt
AllFit-set w (x ∷ cs) zero c h p = (p, h.1)
AllFit-set w (x ∷ cs) (suc i) c h p = (h.0, AllFit-set w cs i c h.1 p)

abbrev pub IsValid : ℕ → Bitfield → Type 0
IsValid size b = AllFit (chunk_size_bits size) b.chunks

-- The mask of bit i at width w.
two_pow-lt : (w i : ℕ) → i < w → 2 ^ i < 2 ^ w
two_pow-lt zero i h = absurd (omega arith)
two_pow-lt (suc w) zero h = omega (arith, pow-suc 2 w, one-le-pow w 2)
two_pow-lt (suc w) (suc i) h = omega (arith, pow-suc 2 w, pow-suc 2 i, two_pow-lt w i (omega arith))

-- The chunk that `set` stores.
stored : ℕ → ℕ → Bool → ℕ → ℕ
stored w i val c = if val then bit_or c (2 ^ i) else bit_and c (2 ^ w - 1 - 2 ^ i)

stored-lt : (w i : ℕ) (val : Bool) (c : ℕ) → i < w → c < 2 ^ w → stored w i val c < 2 ^ w
unfolding stored
stored-lt w i true c h p = bit_or-lt w c (2 ^ i) p (two_pow-lt w i h)
stored-lt w i false c h p = bit_and-lt w c (2 ^ w - 1 - 2 ^ i) p

bit-stored :
    (w i j : ℕ) (val : Bool) (c : ℕ)
    → i < w
    → j < w
    → bit j (stored w i val c) ≡ (if j == i then val else bit j c)
unfolding stored
bit-stored w i j true c hi hj = ground (arith, bit-bit_or j c (2 ^ i), bit-two_pow j i)
bit-stored w i j false c hi hj = ground (
  arith,
  bit-bit_and j c (2 ^ w - 1 - 2 ^ i),
  bit-complement w j (2 ^ i) (two_pow-lt w i hi) hj,
  bit-two_pow j i,
)

-- Storing the bit that is there already changes nothing.
stored_same :
    (w i : ℕ) (val : Bool) (c : ℕ) → i < w → c < 2 ^ w → bit i c ≡ val → stored w i val c ≡ c
stored_same w i val c hi hc e =
    bits_ext w (stored w i val c) c (stored-lt w i val c hi hc) hc
      λ j hj. ground (arith, bit-stored w i j val c hi hj)

-- The result of `set` says whether the bit had the other value.
changed_iff :
    (w i : ℕ) (val : Bool) (c : ℕ)
    → i < w
    → c < 2 ^ w
    → bit i c ≡ (if not (c == stored w i val c) then not val else val)
changed_iff w i true c hi hc = elim (Bool-cases (bit i c)) [
  | inl set ↦ ground (arith, stored_same w i true c hi hc set)
  | inr clear ↦ ground (arith, bit-stored w i i true c hi hi)
]
changed_iff w i false c hi hc = elim (Bool-cases (bit i c)) [
  | inl set ↦ ground (arith, bit-stored w i i false c hi hi)
  | inr clear ↦ ground (arith, stored_same w i false c hi hc clear)
]

module _ (size : ℕ) (pos : 0 < size) where
  abbrev width : ℕ
  width = chunk_size_bits size

  in_chunk : (i : ℕ) → i % width < width
  in_chunk i = mod-lt i (omega arith)

  get_bit-eq :
      (b : Bitfield) (j c : ℕ)
      → get_elem? b.chunks (j / width) ≡ some c
      → get_bit size b j ≡ ok (bit (j % width) c)
  unfolding get_bit
  get_bit-eq b j c e =
      rw (lt→ltb _ _ (lt-get_elem? b.chunks (j / width) c e), e, bit_and-two_pow (j % width) c)
        (ground arith)

  pub get_bit_out :
      (b : Bitfield) (j : ℕ)
      → length b.chunks ≤ j / width
      → get_bit size b j ≡ err (build warning "Bitfield index out of bounds")
  unfolding get_bit
  get_bit_out b j h = rw (le→not_ltb _ _ h)

  pub set_bit_out :
      (b : Bitfield) (i : ℕ) (val : Bool)
      → length b.chunks ≤ i / width
      → set_bit size b i val ≡ err (build warning "Bitfield index out of bounds")
  unfolding set_bit
  set_bit_out b i val h = rw (le→not_ltb _ _ h)

  set_bit-eq :
      (b : Bitfield) (i : ℕ) (val : Bool) (c : ℕ)
      → get_elem? b.chunks (i / width) ≡ some c
      → set_bit size b i val
        ≡ ok (
          record { chunks = set b.chunks (i / width) (stored width (i % width) val c) },
          not (c == stored width (i % width) val c),
        )
  unfolding set_bit stored
  set_bit-eq b i val c e = rw (lt→ltb _ _ (lt-get_elem? b.chunks (i / width) c e), e)

  same_index : (i j : ℕ) → i / width ≡ j / width → i % width ≡ j % width → i ≡ j
  same_index i j d m =
      sym (div-add-mod i width)
      ∙ ap (λ (q : ℕ). width * q + i % width) d
      ∙ ap (λ (r : ℕ). width * (j / width) + r) m
      ∙ div-add-mod j width

  get_bit_cong :
      (b b' : Bitfield) (j : ℕ)
      → length b'.chunks ≡ length b.chunks
      → get_elem? b'.chunks (j / width) ≡ get_elem? b.chunks (j / width)
      → get_bit size b' j ≡ get_bit size b j
  unfolding get_bit
  get_bit_cong b b' j el eg = rw (el, eg)

  after_set :
      (b : Bitfield) (i j : ℕ) (val : Bool) (c : ℕ)
      → get_elem? b.chunks (i / width) ≡ some c
      → get_bit size
          (record { chunks = set b.chunks (i / width) (stored width (i % width) val c) })
          j
        ≡ (if j == i then ok val else get_bit size b j)
  after_set b i j val c e = elim (Bool-cases (i / width == j / width)) [
    | inl same ↦
        let d : i / width ≡ j / width = (==_iff _ _).0 same in
        let c' = stored width (i % width) val c in
        let b' : Bitfield = record { chunks = set b.chunks (i / width) c' } in
        let here =
          get_elem?-set_self b.chunks (i / width) c' (lt-get_elem? b.chunks (i / width) c e) in
        let now : get_bit size b' j ≡ ok (bit (j % width) c') =
          get_bit-eq b' j c' (rw (← d) here) in
        let before : get_bit size b j ≡ ok (bit (j % width) c) = get_bit-eq b j c (rw (← d) e) in
        ground (
          arith,
          now,
          before,
          bit-stored width (i % width) (j % width) val c (in_chunk i) (in_chunk j),
          same_index i j d,
        )
    | inr apart ↦
        let d : i / width ≢ j / width = ground arith in
        let c' = stored width (i % width) val c in
        let b' : Bitfield = record { chunks = set b.chunks (i / width) c' } in
        let other : (j == i) ≡ false = ==_ne j i (λ p. d (ap (λ (n : ℕ). n / width) (sym p))) in
        rw other (
          get_bit_cong b b' j (length-set b.chunks (i / width) c')
            (get_elem?-set_ne b.chunks (i / width) (j / width) c' d))
  ]

  -- `set` at an index inside the field succeeds. Afterwards the field is valid, `get` returns the new
  -- value at that index and what it returned before at every other index, in or out of range, and
  -- the result of `set` says whether the bit had the other value before.
  pub get_bit-set_bit :
      (b : Bitfield) (i : ℕ) (val : Bool)
      → IsValid size b
      → i / chunk_size_bits size < length b.chunks
      → (b' : Bitfield) × (changed : Bool) × (set_bit size b i val ≡ ok (b', changed))
        × (IsValid size b')
        × ((j : ℕ) → get_bit size b' j ≡ (if j == i then ok val else get_bit size b j))
        × (get_bit size b i ≡ ok (if changed then not val else val))
  get_bit-set_bit b i val v h =
      let (c, e) = get_elem?-lt b.chunks (i / width) h in
      let fits = AllFit-get width b.chunks (i / width) c v e in
      (
        record { chunks = set b.chunks (i / width) (stored width (i % width) val c) },
        not (c == stored width (i % width) val c),
        set_bit-eq b i val c e,
        AllFit-set width b.chunks (i / width) (stored width (i % width) val c) v
            (stored-lt width (i % width) val c (in_chunk i) fits),
        (λ j. after_set b i j val c e),
        get_bit-eq b i c e ∙ ap ok (changed_iff width (i % width) val c (in_chunk i) fits),
      )
