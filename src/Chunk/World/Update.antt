-- ===== src/Chunk/World/Update.antt =====
-- src/chunk.rs: `update` is a move in the world.
use rusty_fusion.Chunk.{Chunk, ChunkCoords, EntityMap, RegistryEntry, chunk_at, in_bounds}
use rusty_fusion.Chunk.Grid.{same_coords_iff}
use rusty_fusion.Chunk.Moves.{ids_at, insert_to, removed_from, same_place}
use rusty_fusion.Chunk.World.{IsRefined, World, chunk_of-registry, depart, depart_absent, place_of}
use rusty_fusion.Chunk.World.Removes.{removed_from-IsRefined}
use rusty_fusion.Chunk.World.Written.{is_seen, place-in_bounds}
use rusty_fusion.Entity.Group.{contains}
use rusty_fusion.Entity.Id.{EntityId, same_id}
use rusty_fusion.Error.{Outcome, ok}
use rusty_fusion.Prelude.{
  Bool, Bool-cases, List, Option, Option-cases, [], arith, false, if◌then◌else◌, inl, inr, is_some,
  none, not, refl, some, true, ℕ, ◌&&◌, ◌<◌, ◌^◌, ◌∙◌, ◌∷◌, ◌≡◌,
}

abbrev pub place_at : EntityId → Option ChunkCoords → World → World
place_at id none w = w
place_at id (some coords) w = if in_bounds coords then (id, coords) ∷ w else w

-- The entity leaves its place and, if it is to be in a chunk of the grid, is there.
abbrev pub relocate : EntityId → Option ChunkCoords → World → World
relocate id to_chunk w =
    if same_place (place_of w id) to_chunk then w else place_at id to_chunk (depart id w)

-- Whom the entity saw, or sees, from a place.
abbrev pub sees : ℕ → EntityId → Option ChunkCoords → World → EntityId → Bool
sees range id none w j = false
sees range id (some coords) w j =
    in_bounds coords && not (same_id j id) && is_seen range coords (place_of w j)

-- An entity that is nowhere is put on a chunk.
abbrev pub IsPut :
    ℕ
    → (EntityId → ChunkCoords → EntityMap → Outcome (List EntityId × EntityMap))
    → EntityMap
    → World
    → EntityId
    → ChunkCoords
    → Type 0
IsPut range placing m w id coords =
    (affected : List EntityId) × (m' : EntityMap) × (placing id coords m ≡ ok (affected, m'))
    × IsRefined range m' ((id, coords) ∷ w)
    × ((j : EntityId)
        → contains j affected ≡ (not (same_id j id) && is_seen range coords (place_of w j)))
    × ((c : ChunkCoords) → is_some (chunk_at m c) ≡ true → is_some (chunk_at m' c) ≡ true)

ids_at-absent : (m : EntityMap) (c : ChunkCoords) → chunk_at m c ≡ none → ids_at m c ≡ []
unfolding ids_at
ids_at-absent m c e = rw (e, ids_at) refl

pub IsRefined-same :
    (range : ℕ) (m m' : EntityMap) (w : World)
    → m'.registry ≡ m.registry
    → m'.chunk_maps ≡ m.chunk_maps
    → IsRefined range m w
    → IsRefined range m' w
unfolding ids_at chunk_at
IsRefined-same range m m' w registry maps refined = record {
  once = refined.once;
  placed = λ id. chunk_of-registry m m' registry id ∙ refined.placed id;
  tracks = λ id c. rw maps (refined.tracks id c);
  loads = λ c chunk e. refined.loads c chunk (rw maps at e);
}

module _ (range : ℕ) (bound : range < 2 ^ 30) where
  pub place-exists :
      (m : EntityMap) (w : World) (id : EntityId) (coords : ChunkCoords)
      → IsRefined range m w
      → place_of w id ≡ some coords
      → is_some (chunk_at m coords) ≡ true
  unfolding contains
  place-exists m w id coords refined was = elim (Option-cases (chunk_at m coords)) [
    | inl absent ↦ absurd (
        ground (
          arith,
          refined.tracks id coords,
          ids_at-absent m coords absent,
          was,
          same_coords_iff coords coords,
        ))
    | inr present ↦ let (chunk, is) = present in rw is refl
  ]

  -- Taking an entity off its chunk.
  pub removal-IsRefined :
      (m : EntityMap) (w : World) (id : EntityId) (entry : RegistryEntry)
      (from : Option ChunkCoords)
      → IsRefined range m w
      → m.registry id ≡ some entry
      → entry.chunk ≡ from
      → (affected : List EntityId) × (m' : EntityMap) × (removed_from range id entry from m
          ≡ ok (affected, m'))
        × IsRefined range m' (depart id w)
        × ((j : EntityId) → contains j affected ≡ sees range id from w j)
        × (m'.registry id ≡ some (record entry { chunk = none }))
        × ((c : ChunkCoords) → is_some (chunk_at m' c) ≡ is_some (chunk_at m c))
  unfolding removed_from contains
  removal-IsRefined m w id entry none refined known from =
      let lone : place_of w id ≡ none = ground (arith, refined.placed id, known, from) in
      (
        [],
        m,
        refl,
        rw (depart_absent id w lone) refined,
        (λ j. refl),
        ground (arith, known, from),
        λ c. refl,
      )
  removal-IsRefined m w id entry (some coords) refined known from =
      let was : place_of w id ≡ some coords = ground (arith, refined.placed id, known, from) in
      let inside = place-in_bounds range bound m w refined id coords was in
      let (chunk, here) = there (chunk_at m coords) refl was in
      let (affected, m', computed, refined', around, known', keeps) =
        removed_from-IsRefined range bound m w refined id coords chunk entry inside here known
          was in
      (affected, m', computed, refined', (λ j. ground (arith, around j, inside)), known', keeps)
    where
      there :
          (o : Option Chunk)
          → chunk_at m coords ≡ o
          → place_of w id ≡ some coords
          → (chunk : Chunk) × (chunk_at m coords ≡ some chunk)
      there none e was = absurd (
          ground (arith, refined.tracks id coords, untracked e, was, same_coords_iff coords coords))
        where
          untracked : chunk_at m coords ≡ none → contains id (ids_at m coords) ≡ false
          untracked e = rw (ids_at-absent m coords e) refl
      there (some chunk) e was = (chunk, e)

  -- Putting an entity, by whatever places it, on a chunk of the grid.
  pub insertion-IsRefined :
      (placing : EntityId → ChunkCoords → EntityMap → Outcome (List EntityId × EntityMap))
      (m : EntityMap) (w : World) (id : EntityId) (to : Option ChunkCoords)
      → IsRefined range m w
      → ((coords : ChunkCoords)
          → to ≡ some coords
          → in_bounds coords ≡ true
          → IsPut range placing m w id coords)
      → (affected : List EntityId) × (m' : EntityMap) × (insert_to placing id to m
          ≡ ok (affected, m'))
        × IsRefined range m' (place_at id to w)
        × ((j : EntityId) → contains j affected ≡ sees range id to w j)
        × ((c : ChunkCoords) → is_some (chunk_at m c) ≡ true → is_some (chunk_at m' c) ≡ true)
  unfolding insert_to contains
  insertion-IsRefined placing m w id none refined puts =
      ([], m, refl, refined, (λ j. refl), λ c e. e)
  insertion-IsRefined placing m w id (some coords) refined puts =
      elim (Bool-cases (in_bounds coords)) [
        | inl inside ↦
            let (affected, m', computed, refined', around, stays) = puts coords refl inside in
            (
              affected,
              m',
              rw inside computed,
              rw inside refined',
              (λ j. ground (arith, around j, inside)),
              stays,
            )
        | inr outside ↦
            ([], m, rw outside refl, rw outside refined, (λ j. rw outside refl), λ c e. e)
      ]
