-- ===== src/Chunk/World.antt =====
-- src/chunk.rs against a list of places: which entity is in which chunk, with nothing else kept.
pub mod Loads
pub mod Sets
pub mod Written
pub mod Inserts
pub mod Removes
pub mod Update
pub mod Life
pub mod Entering
pub mod Moving
pub mod Notices
pub mod Sending
pub mod Telling
pub mod Ticking
pub mod Vacating
pub mod Collecting
pub mod Reach
use rusty_fusion.Chunk.{Chunk, ChunkCoords, EntityMap, RegistryEntry, chunk_at, same_coords}
use rusty_fusion.Chunk.Grid.{is_near}
use rusty_fusion.Chunk.Moves.{ids_at}
use rusty_fusion.Entity.Group.{contains}
use rusty_fusion.Entity.Id.{EntityId, is_player, same_id, same_id_iff}
use rusty_fusion.Prelude.{
  Bool, List, Option, [], ap, arith, false, if◌then◌else◌, none, refl, some, ℕ, ◌%◌, ◌&&◌, ◌+◌, ◌^◌,
  ◌∷◌, ◌≡◌,
}

abbrev pub World : Type 0
World = List (EntityId × ChunkCoords)

unfoldable pub place_of : World → EntityId → Option ChunkCoords
place_of [] id = none
place_of ((j, coords) ∷ w) id = if same_id id j then some coords else place_of w id

unfoldable pub depart : EntityId → World → World
depart id [] = []
depart id ((j, coords) ∷ w) =
    let rest = depart id w in if same_id id j then rest else (j, coords) ∷ rest

-- How many players are near a chunk.
unfoldable pub players_near : ℕ → ChunkCoords → World → ℕ
players_near range c [] = 0
players_near range c ((j, coords) ∷ w) =
    (if is_player j && is_near range c coords then 1 else 0) + players_near range c w

unfoldable pub AllOnce : World → Type 0
AllOnce [] = Unit
AllOnce ((j, coords) ∷ w) = (place_of w j ≡ none) × AllOnce w

abbrev pub chunk_of : EntityMap → EntityId → Option ChunkCoords
chunk_of m id = elim (m.registry id) [ none ↦ none | some entry ↦ entry.chunk ]

abbrev pub is_at : Option ChunkCoords → ChunkCoords → Bool
is_at none c = false
is_at (some d) c = same_coords d c

-- The map keeps a world: the registry and the chunks agree on the place of every entity, and a chunk's
-- load count is the number of players near it.
pub record IsRefined (range : ℕ) (m : EntityMap) (w : World) : Type 0 where
  pub once : AllOnce w
  pub placed : (id : EntityId) → chunk_of m id ≡ place_of w id
  pub tracks :
      (id : EntityId) (c : ChunkCoords) → contains id (ids_at m c) ≡ is_at (place_of w id) c
  pub loads :
      (c : ChunkCoords) (chunk : Chunk)
      → chunk_at m c ≡ some chunk
      → chunk.load_count ≡ players_near range c w % 2 ^ 64

pub place_of-depart :
    (id : EntityId) (w : World) (j : EntityId)
    → place_of (depart id w) j ≡ (if same_id j id then none else place_of w j)
unfolding place_of depart
place_of-depart id [] j = ground arith
place_of-depart id ((i, coords) ∷ w) j =
    ground (arith, place_of-depart id w j, same_id_iff j id, same_id_iff j i, same_id_iff id i)

pub depart-AllOnce : (id : EntityId) (w : World) → AllOnce w → AllOnce (depart id w)
unfolding AllOnce depart
depart-AllOnce id [] h = tt
depart-AllOnce id ((i, coords) ∷ w) (h, hs) =
    ground (arith, depart-AllOnce id w hs, place_of-depart id w i, h, hs)

pub depart_absent : (id : EntityId) (w : World) → place_of w id ≡ none → depart id w ≡ w
unfolding place_of depart
depart_absent id [] e = refl
depart_absent id ((i, coords) ∷ w) e = ground (arith, depart_absent id w, e)

-- A player that departs is missing where it was near, and nowhere else.
pub players_near-depart :
    (range : ℕ) (c : ChunkCoords) (id : EntityId) (w : World) (d : ChunkCoords)
    → AllOnce w
    → place_of w id ≡ some d
    → players_near range c w
      ≡ (if is_player id && is_near range c d then 1 else 0) + players_near range c (depart id w)
unfolding AllOnce depart players_near place_of
players_near-depart range c id [] d h e = absurd (cc e)
players_near-depart range c id ((i, coords) ∷ w) d (h, hs) e =
    ground
      (arith, players_near-depart range c id w d hs, depart_absent id w, same_id_iff id i, h, e)

-- The places are read off the registry.
pub chunk_of-registry :
    (m m' : EntityMap) → m'.registry ≡ m.registry → (id : EntityId) → chunk_of m' id ≡ chunk_of m id
chunk_of-registry m m' same id =
    ap
      (λ (r : EntityId → Option RegistryEntry). elim (r id) as (λ x. Option ChunkCoords) [
        | none ↦ none
        | some entry ↦ entry.chunk
      ])
      same
