-- ===== src/Tests/Chunks.antt =====
-- src/chunk.rs on concrete maps.
use rusty_fusion.Chunk.{
  ChunkCoords, EntityMap, RegistryEntry, another, chunk_at, get_coords_around, in_bounds, join,
  new_map, put_chunk, put_entry, when_loaded,
}
use rusty_fusion.Chunk.Instances.{update_entity}
use rusty_fusion.Chunk.Moves.{Notice, set_chunk_of}
use rusty_fusion.Chunk.Registry.{is_tickable, track}
use rusty_fusion.Chunk.World.{IsRefined, World, depart, place_of}
use rusty_fusion.Chunk.World.Life.{new_map-IsRefined, track-IsRefined}
use rusty_fusion.Chunk.World.Sending.{IsTold}
use rusty_fusion.Chunk.World.Telling.{meets, parts, update_entity-IsRefined}
use rusty_fusion.Chunk.World.Ticking.{is_tickable-wakes, is_watched, wakes}
use rusty_fusion.Chunk.World.Update.{relocate}
use rusty_fusion.Entity.Group.{contains, without}
use rusty_fusion.Entity.Id.{EntityId, default_instance, player_entity, same_id, same_instance}
use rusty_fusion.Error.{Outcome, err, ok, panics}
use rusty_fusion.Prelude.{List, [], ap, arith, inr, is_some, none, refl, some, true, ◌∷◌, ◌≡◌, ◌⊎◌}

abbrev hero : EntityId
hero = player_entity 1

abbrev hero_entry : RegistryEntry
hero_entry = record { entity = another hero; chunk = none; tick_mode = when_loaded }

abbrev tracked_map : EntityMap
tracked_map = put_entry hero (some hero_entry) new_map

abbrev home : ChunkCoords
home = record { i = default_instance; x = 3; y = 4 }

tracked_map-IsRefined : IsRefined 1 tracked_map []
unfolding track
tracked_map-IsRefined =
    let (m, computed, refined, _) =
      track-IsRefined 1 new_map [] (another hero) when_loaded (new_map-IsRefined 1) refl in
    let same : tracked_map ≡ m = cc computed in rw same refined

hero_known : tracked_map.registry hero ≡ some hero_entry
unfolding put_entry same_id
hero_known = refl

home-reachable :
    (coords : ChunkCoords)
    → some home ≡ some coords
    → in_bounds coords ≡ true
    → (is_some (tracked_map.chunk_maps coords.i) ≡ true) ⊎ (coords.i.instance_num ≡ none)
home-reachable coords e inside = inr (ground (arith, e))

update_entity-IsRefined_example :
    (notices : List Notice) × (m' : EntityMap) × (update_entity 1 hero
        (some home)
        (some (λ j. true))
        tracked_map
      ≡ ok (notices, m'))
    × IsRefined 1 m' (relocate hero (some home) [])
    × IsTold (λ j. true) hero (parts 1 hero (some home) []) (meets 1 hero (some home) []) notices
update_entity-IsRefined_example =
    update_entity-IsRefined 1 (omega arith) tracked_map [] hero hero_entry (some home)
      (some (λ j. true)) tracked_map-IsRefined hero_known home-reachable

abbrev map_of : Outcome (List Notice × EntityMap) → EntityMap
map_of (ok (notices, m)) = m
map_of (err e) = new_map
map_of panics = new_map

abbrev moved_map : EntityMap
moved_map = map_of (update_entity 1 hero (some home) (some (λ j. true)) tracked_map)

moved_map-IsRelocated : IsRefined 1 moved_map (relocate hero (some home) [])
moved_map-IsRelocated =
    let (notices, m', computed, refined, _) =
      update_entity-IsRefined 1 (omega arith) tracked_map [] hero hero_entry (some home)
        (some (λ j. true)) tracked_map-IsRefined hero_known home-reachable in
    rw (ap map_of computed) refined

abbrev moved_world : World
moved_world = (hero, home) ∷ []

moved_known : moved_map.registry hero ≡ some (record hero_entry { chunk = some home })
unfolding update_entity same_id chunk_at same_instance contains without get_coords_around join
    set_chunk_of put_chunk
moved_known = refl

moved_map-IsRefined : IsRefined 1 moved_map moved_world
unfolding place_of depart
moved_map-IsRefined = moved_map-IsRelocated

is_tickable-wakes_example :
    is_tickable moved_map hero ≡ wakes 1 when_loaded (place_of moved_world hero) moved_world
is_tickable-wakes_example =
    is_tickable-wakes 1 (omega arith) moved_map moved_world hero
      (record hero_entry { chunk = some home }) moved_map-IsRefined (omega arith) moved_known

awake : wakes 1 when_loaded (some home) moved_world ≡ true
unfolding wakes is_watched same_instance
awake = refl
