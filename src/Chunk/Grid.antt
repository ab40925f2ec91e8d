-- ===== src/Chunk/Grid.antt =====
-- src/chunk.rs: which coordinates are around a chunk, and how often.
use rusty_fusion.Chunk.{
  ChunkCoords, column, columns, get_coords_around, in_bounds, same_coords, span, span_from,
}
use rusty_fusion.Entity.Id.{InstanceId, same_instance, same_instance_iff}
use rusty_fusion.Prelude.{
  Bool, List, [], arith, if◌then◌else◌, leb, ltb, suc, true, zero, ℕ, ◌&&◌, ◌*◌, ◌++◌, ◌+◌, ◌-◌,
  ◌<◌, ◌==◌, ◌^◌, ◌↔◌, ◌∷◌, ◌≡◌, ◌≤◌,
}

pub same_coords_iff : (a b : ChunkCoords) → (same_coords a b ≡ true) ↔ (a ≡ b)
unfolding same_coords
same_coords_iff a b = ground (arith, same_instance_iff a.i b.i)

-- How often a number and a place occur.
unfoldable pub times : ℕ → List ℕ → ℕ
times v [] = 0
times v (w ∷ ws) = (if v == w then 1 else 0) + times v ws

unfoldable pub occurs : ChunkCoords → List ChunkCoords → ℕ
occurs c [] = 0
occurs c (d ∷ ds) = (if same_coords c d then 1 else 0) + occurs c ds

-- At most `range` apart.
abbrev pub is_close : ℕ → ℕ → ℕ → Bool
is_close range v w = leb v (w + range) && leb w (v + range)

abbrev pub is_near : ℕ → ChunkCoords → ChunkCoords → Bool
is_near range a b = same_instance a.i b.i && is_close range a.x b.x && is_close range a.y b.y

times-span_from :
    (v base n : ℕ)
    → v < 128
    → 128 ≤ base
    → base + n ≤ 2 ^ 33
    → times v (span_from base n)
      ≡ (if leb base (v + 2 ^ 32) && ltb (v + 2 ^ 32) (base + n) then 1 else 0)
unfolding times span_from
times-span_from v base zero small low high = ground arith
times-span_from v base (suc n) small low high = ground (arith, times-span_from v (base + 1) n)

times-span :
    (v w range : ℕ)
    → v < 128
    → w < 128
    → range < 2 ^ 30
    → times v (span range w) ≡ (if is_close range v w then 1 else 0)
unfolding span
times-span v w range small small' bound =
    ground (arith, times-span_from v (w + 2 ^ 32 - range) (2 * range + 1))

occurs-append :
    (c : ChunkCoords) (ds es : List ChunkCoords) → occurs c (ds ++ es) ≡ occurs c ds + occurs c es
unfolding occurs
occurs-append c [] es = omega arith
occurs-append c (d ∷ ds) es = omega (arith, occurs-append c ds es)

occurs-column :
    (c : ChunkCoords) (i : InstanceId) (x : ℕ) (ys : List ℕ)
    → occurs c (column i x ys) ≡ (if same_instance c.i i && c.x == x then times c.y ys else 0)
unfolding occurs column times same_coords
occurs-column c i x [] = ground arith
occurs-column c i x (y ∷ ys) = ground (arith, occurs-column c i x ys)

occurs-columns :
    (c : ChunkCoords) (i : InstanceId) (xs ys : List ℕ)
    → occurs c (columns i xs ys) ≡ (if same_instance c.i i then times c.x xs * times c.y ys else 0)
unfolding occurs columns times
occurs-columns c i [] ys = ground arith
occurs-columns c i (x ∷ xs) ys = ground (
  arith,
  occurs-append c (column i x ys) (columns i xs ys),
  occurs-column c i x ys,
  occurs-columns c i xs ys,
)

-- A place in bounds is around another exactly once if it is near, and not at all if it is not.
pub occurs-get_coords_around :
    (c coords : ChunkCoords) (range : ℕ)
    → in_bounds c ≡ true
    → in_bounds coords ≡ true
    → range < 2 ^ 30
    → occurs c (get_coords_around range coords) ≡ (if is_near range c coords then 1 else 0)
unfolding get_coords_around
occurs-get_coords_around c coords range inside inside' bound = ground (
  arith,
  occurs-columns c coords.i (span range coords.x) (span range coords.y),
  times-span c.x coords.x range,
  times-span c.y coords.y range,
)
