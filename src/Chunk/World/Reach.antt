-- ===== src/Chunk/World/Reach.antt =====
-- src/chunk.rs: any sequence of operations on the map, from the empty one.
use rusty_fusion.Chunk.{ChunkCoords, EntityMap, TickMode, Tracked, in_bounds, new_map}
use rusty_fusion.Chunk.Cleanup.{garbage_collect_entities, garbage_collect_instances}
use rusty_fusion.Chunk.Instances.{update_entity}
use rusty_fusion.Chunk.Moves.{Notice}
use rusty_fusion.Chunk.Registry.{mark_for_cleanup, set_tick, track, untrack}
use rusty_fusion.Chunk.World.{World, chunk_of}
use rusty_fusion.Entity.Group.{contains}
use rusty_fusion.Entity.Id.{EntityId}
use rusty_fusion.Error.{ok}
use rusty_fusion.Prelude.{Bool, List, Option, is_some, none, some, true, ℕ, ◌≡◌, ◌⊎◌}

-- An entity is untracked, or collected after a mark, when it is in no chunk. It moves to a chunk whose instance exists or is a main
-- instance; the clients at the time are any.
pub data MapReaches (range : ℕ) : EntityMap → Type 0 where
  empty_at_first : MapReaches range new_map
  tracks :
      {m m' : EntityMap} {id : EntityId} (entity : Tracked) (tick_mode : TickMode)
      → MapReaches range m
      → track entity tick_mode m ≡ ok (id, m')
      → MapReaches range m'
  moves :
      {m m' : EntityMap} {notices : List Notice} (id : EntityId) (to : Option ChunkCoords)
      (client_map : Option (EntityId → Bool))
      → MapReaches range m
      → ((coords : ChunkCoords)
          → to ≡ some coords
          → in_bounds coords ≡ true
          → (is_some (m.chunk_maps coords.i) ≡ true) ⊎ (coords.i.instance_num ≡ none))
      → update_entity range id to client_map m ≡ ok (notices, m')
      → MapReaches range m'
  untracks :
      {m m' : EntityMap} {entity : Tracked} (id : EntityId)
      → MapReaches range m
      → chunk_of m id ≡ none
      → untrack id m ≡ ok (entity, m')
      → MapReaches range m'
  sets_tick :
      {m m' : EntityMap} (id : EntityId) (tick_mode : TickMode)
      → MapReaches range m
      → set_tick id tick_mode m ≡ ok m'
      → MapReaches range m'
  collects_instances :
      {m m' : EntityMap} {entities : List Tracked}
      → MapReaches range m
      → garbage_collect_instances m ≡ ok (entities, m')
      → MapReaches range m'
  collects_entities :
      {m m' : EntityMap} {entities : List Tracked}
      → MapReaches range m
      → ((id : EntityId) → contains id m.entities_to_cleanup ≡ true → chunk_of m id ≡ none)
      → garbage_collect_entities m ≡ ok (entities, m')
      → MapReaches range m'
  marks :
      {m : EntityMap} (id : EntityId)
      → MapReaches range m
      → MapReaches range (mark_for_cleanup id m)
