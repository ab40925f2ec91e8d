-- ===== src/Chunk/World/Written.antt =====
-- src/chunk.rs: the map in which a chunk and the registry are written, before the loop over the chunks around.
use rusty_fusion.Chunk.{
  Chunk, ChunkCoords, EntityMap, RegistryEntry, chunk_at, get_coords_around, in_bounds, put_chunk,
  put_entry, same_coords,
}
use rusty_fusion.Chunk.Grid.{is_near, occurs-get_coords_around, same_coords_iff}
use rusty_fusion.Chunk.Moves.{ids_at}
use rusty_fusion.Chunk.World.{IsRefined, World, chunk_of, place_of, players_near}
use rusty_fusion.Chunk.World.Loads.{chunk_at-put_chunk, chunk_at-same}
use rusty_fusion.Chunk.World.Sets.{is_passed}
use rusty_fusion.Entity.Group.{contains}
use rusty_fusion.Entity.Id.{EntityId, same_id}
use rusty_fusion.Prelude.{
  Bool, List, Option, Option-cases, arith, false, if◌then◌else◌, inl, inr, none, refl, some, true,
  ℕ, ◌%◌, ◌<◌, ◌^◌, ◌≡◌,
}

abbrev pub is_seen : ℕ → ChunkCoords → Option ChunkCoords → Bool
is_seen range coords none = false
is_seen range coords (some d) = is_near range d coords

module _ (range : ℕ) (bound : range < 2 ^ 30) (m : EntityMap) (w : World)
    (refined : IsRefined range m w) where
  -- A place in the world is in bounds.
  pub place-in_bounds :
      (id : EntityId) (d : ChunkCoords) → place_of w id ≡ some d → in_bounds d ≡ true
  unfolding ids_at chunk_at contains
  place-in_bounds id d e = ground (arith, refined.tracks id d, e, same_coords_iff d d)

  pub chunk-in_bounds :
      (c : ChunkCoords) (chunk : Chunk) → chunk_at m c ≡ some chunk → in_bounds c ≡ true
  unfolding chunk_at
  chunk-in_bounds c chunk e = ground (arith, e)

  -- Going over the places around finds what is near.
  pub passed-seen :
      (id : EntityId) (coords : ChunkCoords)
      → in_bounds coords ≡ true
      → is_passed (place_of w id) (get_coords_around range coords)
        ≡ is_seen range coords (place_of w id)
  passed-seen id coords inside = go (place_of w id) refl
    where
      go :
          (o : Option ChunkCoords)
          → place_of w id ≡ o
          → is_passed o (get_coords_around range coords) ≡ is_seen range coords o
      go none e = refl
      go (some d) e =
          ground
            (arith, occurs-get_coords_around d coords range (place-in_bounds id d e) inside bound)

  module _ (id : EntityId) (coords : ChunkCoords) (chunk : Chunk) (entry : RegistryEntry)
      (inside : in_bounds coords ≡ true) (here : chunk_at m coords ≡ some chunk)
      (known : m.registry id ≡ some entry) where
    -- The map in which the chunk and the registry are rewritten, before the loop.
    abbrev pub rewritten : List EntityId → Option ChunkCoords → EntityMap
    rewritten ids place =
        put_entry id (some (record entry { chunk = place }))
          (put_chunk coords (record chunk { tracked = ids }) m)

    pub chunk_at-written :
        (ids : List EntityId) (place : Option ChunkCoords) (c : ChunkCoords)
        → chunk_at (rewritten ids place) c ≡ elim (chunk_at m c) [
          | none ↦ none
          | some u ↦ some (if same_coords c coords then record chunk { tracked = ids } else u)
        ]
    unfolding chunk_at put_entry
    chunk_at-written ids place c = chunk_at-put_chunk coords (record chunk { tracked = ids }) m c

    pub contains-written :
        (ids : List EntityId) (place : Option ChunkCoords) (j : EntityId) (c : ChunkCoords)
        → contains j (ids_at (rewritten ids place) c)
          ≡ (if same_coords c coords then contains j ids else contains j (ids_at m c))
    unfolding ids_at contains
    contains-written ids place j c =
        ground (arith, chunk_at-written ids place c, chunk_at-same m c coords, here)

    pub chunk_of-written :
        (ids : List EntityId) (place : Option ChunkCoords) (j : EntityId)
        → chunk_of (rewritten ids place) j ≡ (if same_id j id then place else chunk_of m j)
    unfolding put_entry put_chunk
    chunk_of-written ids place j = ground arith

    -- A chunk of the rewritten map counts what it counted.
    pub counted-written :
        (ids : List EntityId) (place : Option ChunkCoords) (c : ChunkCoords) (u : Chunk)
        → chunk_at (rewritten ids place) c ≡ some u
        → u.load_count ≡ players_near range c w % 2 ^ 64
    counted-written ids place c u e = elim (Option-cases (chunk_at m c)) [
      | inl absent ↦ absurd (ground (arith, chunk_at-written ids place c, absent, e))
      | inr present ↦
          let (v, is) = present in
          ground (
            arith,
            chunk_at-written ids place c,
            is,
            e,
            refined.loads c v is,
            chunk_at-same m c coords,
            here,
          )
    ]

    pub bounds-written :
        (ids : List EntityId) (place : Option ChunkCoords) (c : ChunkCoords) (u : Chunk)
        → chunk_at (rewritten ids place) c ≡ some u
        → in_bounds c ≡ true
    unfolding chunk_at
    bounds-written ids place c u e = ground (arith, e)
