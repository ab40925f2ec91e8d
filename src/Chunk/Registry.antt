-- ===== src/Chunk/Registry.antt =====
-- src/chunk.rs: the registry of entities, new ids, and which entities tick.
use rusty_fusion.Chunk.{
  ChunkCoords, EntityMap, TickMode, Tracked, always, chunk_at, get_id, is_loaded, never, put_entry,
  when_loaded,
}
use rusty_fusion.Entity.Group.{contains}
use rusty_fusion.Entity.Id.{EntityId}
use rusty_fusion.Error.{Outcome, build, ok, ok_or, panics, unwrap, warning, ◌>>=◌}
use rusty_fusion.Prelude.{
  Bool, Option, false, if◌then◌else◌, is_some, none, some, true, ℕ, ◌+◌, ◌-◌, ◌==◌, ◌^◌, ◌∷◌,
}

unfoldable pub track : Tracked → TickMode → EntityMap → Outcome (EntityId × EntityMap)
unfolding get_id put_entry
track entity tick_mode m =
    let id = get_id entity in
    if is_some (m.registry id)
    then panics
    else ok (
      id,
      put_entry id (some (record { entity = entity; chunk = none; tick_mode = tick_mode })) m,
    )

unfoldable pub untrack : EntityId → EntityMap → Outcome (Tracked × EntityMap)
unfolding put_entry
untrack id m = do entry ← unwrap (m.registry id); ok (entry.entity, put_entry id none m)

unfoldable pub set_tick : EntityId → TickMode → EntityMap → Outcome EntityMap
unfolding put_entry
set_tick id tick_mode m = do
  entry ← ok_or (m.registry id) (build warning "Entity doesn't exist")
  ok (put_entry id (some (record entry { tick_mode = tick_mode })) m)

-- A set of ids.
unfoldable pub mark_for_cleanup : EntityId → EntityMap → EntityMap
mark_for_cleanup id m =
    if contains id m.entities_to_cleanup
    then m
    else record m { entities_to_cleanup = id ∷ m.entities_to_cleanup }

abbrev gen_next : ℕ → Outcome ℕ
gen_next id = if id == 2 ^ 32 - 1 then panics else ok (id + 1)

unfoldable pub gen_next_pc_id : EntityMap → Outcome (ℕ × EntityMap)
gen_next_pc_id m = do
  next ← gen_next m.next_pc_id
  ok (m.next_pc_id, record m { next_pc_id = next })

unfoldable pub gen_next_npc_id : EntityMap → Outcome (ℕ × EntityMap)
gen_next_npc_id m = do
  next ← gen_next m.next_npc_id
  ok (m.next_npc_id, record m { next_npc_id = next })

unfoldable pub gen_next_slider_id : EntityMap → Outcome (ℕ × EntityMap)
gen_next_slider_id m = do
  next ← gen_next m.next_slider_id
  ok (m.next_slider_id, record m { next_slider_id = next })

unfoldable pub gen_next_egg_id : EntityMap → Outcome (ℕ × EntityMap)
gen_next_egg_id m = do
  next ← gen_next m.next_egg_id
  ok (m.next_egg_id, record m { next_egg_id = next })

unfoldable pub is_loaded_at : EntityMap → ChunkCoords → Bool
unfolding is_loaded
is_loaded_at m coords = elim (chunk_at m coords) [ none ↦ false | some chunk ↦ is_loaded chunk ]

unfoldable pub ticks : EntityMap → TickMode → Option ChunkCoords → Bool
unfolding is_loaded_at
ticks m always place = true
ticks m never place = false
ticks m when_loaded none = true
ticks m when_loaded (some coords) = is_loaded_at m coords

-- Whether the iterator of `get_tickable_ids` gives an id.
unfoldable pub is_tickable : EntityMap → EntityId → Bool
unfolding ticks
is_tickable m id = elim (m.registry id) [
  | none ↦ false
  | some entry ↦ ticks m entry.tick_mode entry.chunk
]
