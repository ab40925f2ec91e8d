-- ===== src/Chunk/World/Vacating.antt =====
-- src/chunk.rs: an instance without its entities, and the ids of a chunk map.
use rusty_fusion.Chunk.{Chunk, ChunkCoords, EntityMap, chunk_at, nchunks, same_coords}
use rusty_fusion.Chunk.Cleanup.{ids_in_row, ids_in_rows}
use rusty_fusion.Chunk.Grid.{same_coords_iff}
use rusty_fusion.Chunk.Moves.{ids_at}
use rusty_fusion.Chunk.World.{AllOnce, IsRefined, World, is_at, place_of, players_near}
use rusty_fusion.Entity.Group.{contains}
use rusty_fusion.Entity.Id.{EntityId, InstanceId, same_id_iff, same_instance, same_instance_iff}
use rusty_fusion.Prelude.{
  Bool, Bool-cases, List, Option, [], arith, false, if◌then◌else◌, inl, inr, none, refl, some, suc,
  sym, true, zero, ℕ, ◌++◌, ◌<◌, ◌==◌, ◌||◌, ◌∙◌, ◌∷◌, ◌≡◌,
}

-- The world without the entities of an instance.
unfoldable pub vacate : InstanceId → World → World
vacate i [] = []
vacate i ((j, coords) ∷ w) =
    let rest = vacate i w in if same_instance coords.i i then rest else (j, coords) ∷ rest

abbrev pub is_in : InstanceId → Option ChunkCoords → Bool
is_in i none = false
is_in i (some coords) = same_instance coords.i i

pub place_of-vacate :
    (i : InstanceId) (w : World) (id : EntityId)
    → AllOnce w
    → place_of (vacate i w) id ≡ (if is_in i (place_of w id) then none else place_of w id)
unfolding place_of vacate AllOnce
place_of-vacate i [] id once = refl
place_of-vacate i ((j, d) ∷ w) id (free, once) =
    ground (arith, place_of-vacate i w id once, free, same_id_iff id j)

pub is_at-vacate :
    (i : InstanceId) (c : ChunkCoords) (o : Option ChunkCoords)
    → is_at (if is_in i o then none else o) c ≡ (if same_instance c.i i then false else is_at o c)
unfolding same_coords
is_at-vacate i c none = ground arith
is_at-vacate i c (some d) =
    ground (arith, same_instance_iff d.i i, same_instance_iff c.i i, same_instance_iff d.i c.i)

pub vacate-AllOnce : (i : InstanceId) (w : World) → AllOnce w → AllOnce (vacate i w)
unfolding vacate AllOnce
vacate-AllOnce i [] once = tt
vacate-AllOnce i ((j, d) ∷ w) (free, once) =
    ground (arith, vacate-AllOnce i w once, place_of-vacate i w j once, free)

pub players_near-vacate :
    (range : ℕ) (i : InstanceId) (c : ChunkCoords) (w : World)
    → same_instance c.i i ≡ false
    → players_near range c (vacate i w) ≡ players_near range c w
unfolding players_near vacate
players_near-vacate range i c [] other = refl
players_near-vacate range i c ((j, d) ∷ w) other = ground (
  arith,
  players_near-vacate range i c w other,
  other,
  same_instance_iff d.i i,
  same_instance_iff c.i d.i,
  same_instance_iff c.i i,
)

contains-append :
    (j : EntityId) (xs ys : List EntityId)
    → contains j (xs ++ ys) ≡ (contains j xs || contains j ys)
unfolding contains
contains-append j [] ys = refl
contains-append j (x ∷ xs) ys = ground (arith, contains-append j xs ys)

module _ (chunks : ℕ → ℕ → Chunk) (j : EntityId) where
  row_has :
      (x n y : ℕ)
      → y < n
      → contains j (chunks x y).tracked ≡ true
      → contains j (ids_in_row chunks x n) ≡ true
  unfolding ids_in_row
  row_has x zero y h e = absurd (omega arith)
  row_has x (suc n) y h e = elim (Bool-cases (y == n)) [
    | inl last ↦
        let same : y ≡ n = ground (arith, last) in
        ground (arith, contains-append j (ids_in_row chunks x n) (chunks x n).tracked, rw same at e)
    | inr before ↦ ground (
      arith,
      contains-append j (ids_in_row chunks x n) (chunks x n).tracked,
      row_has x n y (ground (arith, h, before)) e,
    )
  ]

  pub rows_have :
      (n x y : ℕ)
      → x < n
      → y < nchunks
      → contains j (chunks x y).tracked ≡ true
      → contains j (ids_in_rows chunks n) ≡ true
  unfolding ids_in_rows
  rows_have zero x y h k e = absurd (omega arith)
  rows_have (suc n) x y h k e = elim (Bool-cases (x == n)) [
    | inl last ↦
        let same : x ≡ n = ground (arith, last) in
        ground (
          arith,
          contains-append j (ids_in_rows chunks n) (ids_in_row chunks n nchunks),
          row_has n nchunks y k (rw same at e),
        )
    | inr before ↦ ground (
      arith,
      contains-append j (ids_in_rows chunks n) (ids_in_row chunks n nchunks),
      rows_have n x y (ground (arith, h, before)) k e,
    )
  ]

  row_found :
      (x n : ℕ)
      → contains j (ids_in_row chunks x n) ≡ true
      → (y : ℕ) × (y < n) × (contains j (chunks x y).tracked ≡ true)
  unfolding ids_in_row contains
  row_found x zero e = absurd (cc e)
  row_found x (suc n) e = elim (Bool-cases (contains j (chunks x n).tracked)) [
    | inl last ↦ (n, omega arith, last)
    | inr before ↦
        let (y, h, k) = row_found x n (
          ground
            (arith, contains-append j (ids_in_row chunks x n) (chunks x n).tracked, e, before)) in
        (y, omega arith, k)
  ]

  pub rows_found :
      (n : ℕ)
      → contains j (ids_in_rows chunks n) ≡ true
      → (x : ℕ) × (y : ℕ) × (x < n) × (y < nchunks) × (contains j (chunks x y).tracked ≡ true)
  unfolding ids_in_rows contains
  rows_found zero e = absurd (cc e)
  rows_found (suc n) e = elim (Bool-cases (contains j (ids_in_row chunks n nchunks))) [
    | inl last ↦ let (y, h, k) = row_found n nchunks last in (n, y, omega arith, h, k)
    | inr before ↦
        let (x, y, h, k, l) = rows_found n (
          ground (
            arith,
            contains-append j (ids_in_rows chunks n) (ids_in_row chunks n nchunks),
            e,
            before,
          )) in
        (x, y, omega arith, k, l)
  ]

module _ (range : ℕ) (i : InstanceId) (chunks : ℕ → ℕ → Chunk) (m : EntityMap) (w : World)
    (refined : IsRefined range m w) (there : m.chunk_maps i ≡ some chunks) (j : EntityId) where
  inside :
      (x y : ℕ) (o : Option ChunkCoords)
      → x < nchunks
      → y < nchunks
      → contains j (chunks x y).tracked ≡ true
      → contains j (ids_at m (record { i = i; x = x; y = y }))
        ≡ is_at o (record { i = i; x = x; y = y })
      → is_in i o ≡ true
  unfolding ids_at chunk_at same_coords
  inside x y none h k tracked e = ground (arith, there, h, k, tracked, e)
  inside x y (some d) h k tracked e = ground (arith, there, h, k, tracked, e)

  outside :
      (o : Option ChunkCoords)
      → ((c : ChunkCoords) → contains j (ids_at m c) ≡ is_at o c)
      → contains j (ids_in_rows chunks nchunks) ≡ false
      → is_in i o ≡ false
  unfolding ids_at chunk_at contains
  outside none e lacks = refl
  outside (some d) e lacks = elim (Bool-cases (same_instance d.i i)) [
    | inl here ↦ ground (
      arith,
      e d,
      there,
      here,
      lacks,
      same_instance_iff d.i i,
      same_coords_iff d d,
      rows_have chunks j nchunks d.x d.y,
    )
    | inr away ↦ away
  ]

  -- The ids of a chunk map are those of the entities in the instance.
  pub contains-ids : contains j (ids_in_rows chunks nchunks) ≡ is_in i (place_of w j)
  contains-ids = elim (Bool-cases (contains j (ids_in_rows chunks nchunks))) [
    | inl present ↦
        let (x, y, h, k, tracked) = rows_found chunks j nchunks present in
        present
        ∙ sym (
            inside x y (place_of w j) h k tracked
              (refined.tracks j (record { i = i; x = x; y = y })))
    | inr lacks ↦ lacks ∙ sym (outside (place_of w j) (refined.tracks j) lacks)
  ]
