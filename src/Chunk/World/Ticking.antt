-- ===== src/Chunk/World/Ticking.antt =====
-- src/chunk.rs, `get_tickable_ids` and `is_loaded`: which entities tick.
use rusty_fusion.Chunk.{
  Chunk, ChunkCoords, EntityMap, RegistryEntry, TickMode, always, chunk_at, is_loaded, never,
  when_loaded,
}
use rusty_fusion.Chunk.Grid.{is_near}
use rusty_fusion.Chunk.Registry.{is_loaded_at, is_tickable, ticks}
use rusty_fusion.Chunk.World.{IsRefined, World, place_of, players_near}
use rusty_fusion.Chunk.World.Update.{place-exists}
use rusty_fusion.Entity.Id.{EntityId, is_player}
use rusty_fusion.Prelude.{
  Bool, Option, [], arith, false, is_some, length, ltb, none, refl, some, true, ℕ, ◌&&◌, ◌<◌, ◌^◌,
  ◌||◌, ◌∷◌, ◌≡◌, ◌≤◌,
}

unfoldable pub is_watched : ℕ → ChunkCoords → World → Bool
is_watched range c [] = false
is_watched range c ((j, d) ∷ w) = (is_player j && is_near range c d) || is_watched range c w

-- What the tick mode promises of an entity at a place.
unfoldable pub wakes : ℕ → TickMode → Option ChunkCoords → World → Bool
unfolding is_watched
wakes range always place w = true
wakes range never place w = false
wakes range when_loaded none w = true
wakes range when_loaded (some coords) w = is_watched range coords w

players_near-is_watched :
    (range : ℕ) (c : ChunkCoords) (w : World)
    → ltb 0 (players_near range c w) ≡ is_watched range c w
unfolding players_near is_watched
players_near-is_watched range c [] = refl
players_near-is_watched range c ((j, d) ∷ w) = ground (arith, players_near-is_watched range c w)

players_near-length : (range : ℕ) (c : ChunkCoords) (w : World) → players_near range c w ≤ length w
unfolding players_near
players_near-length range c [] = ground arith
players_near-length range c ((j, d) ∷ w) = ground (arith, players_near-length range c w)

is_loaded_at-watched :
    (range : ℕ) (bound : range < 2 ^ 30) (m : EntityMap) (w : World) (id : EntityId)
    (coords : ChunkCoords)
    → IsRefined range m w
    → length w < 2 ^ 64
    → place_of w id ≡ some coords
    → is_loaded_at m coords ≡ is_watched range coords w
unfolding is_loaded_at is_loaded
is_loaded_at-watched range bound m w id coords refined few at =
    go (chunk_at m coords) refl (place-exists range bound m w id coords refined at)
  where
    go :
        (o : Option Chunk)
        → chunk_at m coords ≡ o
        → is_some (chunk_at m coords) ≡ true
        → is_loaded_at m coords ≡ is_watched range coords w
    go none e there = absurd (cc (e, there))
    go (some chunk) e there = ground (
      arith,
      e,
      refined.loads coords chunk e,
      few,
      players_near-length range coords w,
      players_near-is_watched range coords w,
    )

-- The iterator gives an entity if and only if its tick mode is always, or is when loaded and the entity
-- is nowhere or some player is near it.
pub is_tickable-wakes :
    (range : ℕ) (bound : range < 2 ^ 30) (m : EntityMap) (w : World) (id : EntityId)
    (entry : RegistryEntry)
    → IsRefined range m w
    → length w < 2 ^ 64
    → m.registry id ≡ some entry
    → is_tickable m id ≡ wakes range entry.tick_mode (place_of w id) w
unfolding is_tickable ticks wakes
is_tickable-wakes range bound m w id entry refined few known =
    rw (is_tickable, known) (go entry.tick_mode (place_of w id) refl)
  where
    at_entry : entry.chunk ≡ place_of w id
    at_entry = ground (arith, known, refined.placed id)

    go :
        (mode : TickMode) (o : Option ChunkCoords)
        → place_of w id ≡ o
        → ticks m mode entry.chunk ≡ wakes range mode o w
    go always o at = refl
    go never o at = refl
    go when_loaded none at = rw (at_entry, at) refl
    go when_loaded (some coords) at =
        rw (at_entry, at) (is_loaded_at-watched range bound m w id coords refined few at)
