-- ===== src/Chunk/World/Telling.antt =====
-- src/chunk.rs: `update` with the clients of a shard.
use rusty_fusion.Chunk.{ChunkCoords, EntityMap, RegistryEntry, in_bounds}
use rusty_fusion.Chunk.Instances.{insert_into_chunk, notices_of, update_entity}
use rusty_fusion.Chunk.Moves.{Notice, same_place}
use rusty_fusion.Chunk.World.{IsRefined, World, depart, place_of}
use rusty_fusion.Chunk.World.Entering.{into_chunk-IsPut, maps_kept}
use rusty_fusion.Chunk.World.Moving.{moved-IsRefined}
use rusty_fusion.Chunk.World.Sending.{
  IsTold, nobody-IsTold, notices_of-IsTold, registered, seen-somewhere,
}
use rusty_fusion.Chunk.World.Sets.{contains-difference}
use rusty_fusion.Chunk.World.Update.{relocate, sees}
use rusty_fusion.Entity.Group.{contains}
use rusty_fusion.Entity.Group.Bounds.{same_id_refl}
use rusty_fusion.Entity.Id.{EntityId}
use rusty_fusion.Error.{ok}
use rusty_fusion.Prelude.{
  Bool, List, Option, arith, false, inl, inr, is_some, none, not, refl, some, true, ℕ, ◌&&◌, ◌<◌,
  ◌^◌, ◌∙◌, ◌≡◌, ◌⊎◌,
}

abbrev pub hears : Option (EntityId → Bool) → EntityId → Bool
hears none j = false
hears (some has_client) j = has_client j

-- Who is near the entity after a move and not before, and the other way around.
abbrev pub meets : ℕ → EntityId → Option ChunkCoords → World → EntityId → Bool
meets range id to w j =
    not (same_place (place_of w id) to)
    && sees range id to w j
    && not (sees range id (place_of w id) w j)

abbrev pub parts : ℕ → EntityId → Option ChunkCoords → World → EntityId → Bool
parts range id to w j =
    not (same_place (place_of w id) to)
    && sees range id (place_of w id) w j
    && not (sees range id to w j)

sees_self :
    (range : ℕ) (id : EntityId) (at : Option ChunkCoords) (w : World)
    → sees range id at w id ≡ false
sees_self range id none w = refl
sees_self range id (some coords) w = ground (arith, same_id_refl id)

-- With a visibility range below 2^30, a move of a registered entity to a chunk whose instance exists or is
-- a main instance does not fail. The map then keeps the world with the entity at its new place. The entity
-- and whoever it meets are told that the other enters, and the entity and whoever it parts from that the
-- other exits, as far as they have clients. Nobody else is told that the entity enters or exits, the
-- entity is told so of nobody else, and no notice is between two other entities.
pub update_entity-IsRefined :
    (range : ℕ) (bound : range < 2 ^ 30) (m : EntityMap) (w : World) (id : EntityId)
    (entry : RegistryEntry) (to : Option ChunkCoords) (client_map : Option (EntityId → Bool))
    → IsRefined range m w
    → m.registry id ≡ some entry
    → ((coords : ChunkCoords)
        → to ≡ some coords
        → in_bounds coords ≡ true
        → (is_some (m.chunk_maps coords.i) ≡ true) ⊎ (coords.i.instance_num ≡ none))
    → (notices : List Notice) × (m' : EntityMap) × (update_entity range id to client_map m
        ≡ ok (notices, m'))
      × IsRefined range m' (relocate id to w)
      × IsTold (hears client_map) id (parts range id to w) (meets range id to w) notices
unfolding update_entity
update_entity-IsRefined range bound m w id entry to client_map refined known reachable =
    let (around_from, around_to, m', computed, refined', around) =
      moved-IsRefined range bound (insert_into_chunk range) m w id entry to refined known
        (λ m1 coords refined1 known1 lone keeps is inside.
          into_chunk-IsPut range bound m1 (depart id w) id (record entry { chunk = none }) coords
            refined1 known1 lone inside
            (elim (reachable coords is inside) [
              | inl exists ↦ inl (maps_kept m m1 coords inside (keeps coords) ∙ exists)
              | inr is_main ↦ inr is_main
            ])) in
    let (notices, sent, heard) = tell client_map around_from around_to m' refined' around in
    (notices, m', rw computed (rw sent refl), refined', heard)
  where
    at_entry : place_of w id ≡ entry.chunk
    at_entry = ground (arith, known, refined.placed id)

    tell :
        (client_map : Option (EntityId → Bool)) (around_from around_to : List EntityId)
        (m' : EntityMap)
        → IsRefined range m' (relocate id to w)
        → ((j : EntityId)
            → (contains j around_from
                ≡ (not (same_place entry.chunk to) && sees range id entry.chunk w j))
              × (contains j around_to ≡ (not (same_place entry.chunk to) && sees range id to w j)))
        → (notices : List Notice) × (notices_of id client_map around_from around_to m' ≡ ok notices)
          × IsTold (hears client_map) id (parts range id to w) (meets range id to w) notices
    tell none around_from around_to m' refined' around =
        nobody-IsTold id around_from around_to m' _ _
    tell (some has_client) around_from around_to m' refined' around =
        notices_of-IsTold has_client id m' around_from around_to (parts range id to w)
          (meets range id to w)
          (λ j. ground (arith, contains-difference j around_from around_to, at_entry, around j))
          (λ j. ground (arith, contains-difference j around_to around_from, at_entry, around j))
          (ground (arith, sees_self range id (place_of w id) w))
          (ground (arith, sees_self range id to w))
          (λ j p.
            registered range m' (relocate id to w) j refined'
              (seen-somewhere range id (place_of w id) to w j (ground (arith, p))))
          (λ j p.
            registered range m' (relocate id to w) j refined'
              (seen-somewhere range id to to w j (ground (arith, p))))
