-- ===== src/Chunk/Instances.antt =====
-- src/chunk.rs: the instances that are made on demand with copies of the NPCs of their main instance, and
-- `update`.
use rusty_fusion.Chunk.{
  Chunk, ChunkCoords, EntityMap, RegistryEntry, TickMode, an_npc, another, empty_chunk,
  from_pos_inst, nchunks, put_entry,
}
use rusty_fusion.Chunk.Moves.{
  Notice, all_registered, difference, enters, exits, insert_existing, moved, told,
}
use rusty_fusion.Chunk.Registry.{gen_next_npc_id, track}
use rusty_fusion.Entity.Id.{EntityId, InstanceId, Position, npc_entity, same_id, same_instance}
use rusty_fusion.Entity.Npc.{Npc}
use rusty_fusion.Error.{Outcome, ok, panics, unwrap, ◌>>=◌}
use rusty_fusion.Prelude.{
  Bool, List, Option, [], if◌then◌else◌, none, some, suc, zero, ℕ, ◌++◌, ◌+◌, ◌∷◌,
}

abbrev pub with_instance : InstanceId → Option (ℕ → ℕ → Chunk) → EntityMap → EntityMap
with_instance i chunks m = record m {
  chunk_maps = λ j. if same_instance j i then chunks else m.chunk_maps j;
}

-- What the copying of NPCs keeps: the map, the new id of each copied NPC, and whom a copy follows.
pub record Copying : Type 0 where
  pub map : EntityMap
  pub id_mappings : List (EntityId × EntityId)
  pub tight_follow_mappings : List (ℕ × EntityId × Position)

unfoldable pub new_id_of : EntityId → List (EntityId × EntityId) → Option EntityId
new_id_of id [] = none
new_id_of id ((old, new_id) ∷ mappings) =
    if same_id id old then some new_id else new_id_of id mappings

unfoldable pub with_follow :
    ℕ
    → Option (EntityId × Position)
    → List (ℕ × EntityId × Position)
    → List (ℕ × EntityId × Position)
with_follow new_id none followers = followers
with_follow new_id (some (leader, offset)) followers = (new_id, leader, offset) ∷ followers

-- What is sent when there is a client map.
unfoldable pub notices_of :
    EntityId
    → Option (EntityId → Bool)
    → List EntityId
    → List EntityId
    → EntityMap
    → Outcome (List Notice)
unfolding told difference all_registered
notices_of id none around_from around_to m = ok []
notices_of id (some has_client) around_from around_to m =
    let removed = told exits has_client m id (difference around_from around_to) in
    let added = difference around_to around_from in
    if all_registered m added then ok (removed ++ told enters has_client m id added) else panics

module _ (range : ℕ) where
  unfoldable pub copy_npc : InstanceId → EntityId → TickMode → Npc → Copying → Outcome Copying
  unfolding gen_next_npc_id track moved insert_existing from_pos_inst with_follow
  copy_npc instance_id id tick_mode mob st = do
    (new_id, m1) ← gen_next_npc_id st.map
    (new_npc_id, m2) ←
        track (an_npc (record mob { instance_id = instance_id; id = new_id })) tick_mode m1
    (around_from, around_to, m3) ←
        moved (insert_existing range) range new_npc_id
          (some (from_pos_inst mob.position instance_id)) m2
    ok (record {
      map = m3;
      id_mappings = (id, npc_entity new_id) ∷ st.id_mappings;
      tight_follow_mappings = with_follow new_id mob.tight_follow st.tight_follow_mappings;
    })

  unfoldable pub copy_entity : InstanceId → EntityId → RegistryEntry → Copying → Outcome Copying
  unfolding copy_npc
  copy_entity instance_id (npc_entity npc_id) entry st = elim entry.entity [
    | an_npc mob ↦ copy_npc instance_id (npc_entity npc_id) entry.tick_mode mob st
    | another id ↦ panics
  ]
  copy_entity instance_id id entry st = ok st

  unfoldable pub copy_ids : InstanceId → List EntityId → Copying → Outcome Copying
  unfolding copy_entity
  copy_ids instance_id [] st = ok st
  copy_ids instance_id (id ∷ ids) st = do
    entry ← unwrap (st.map.registry id)
    st' ← copy_entity instance_id id entry st
    copy_ids instance_id ids st'

  abbrev main_of : InstanceId → InstanceId
  main_of instance_id = record instance_id { instance_num = none }

  unfoldable pub copy_row : InstanceId → ℕ → ℕ → ℕ → Copying → Outcome Copying
  unfolding copy_ids
  copy_row instance_id x y zero st = ok st
  copy_row instance_id x y (suc n) st = do
    template_chunks ← unwrap (st.map.chunk_maps (main_of instance_id))
    st' ← copy_ids instance_id (template_chunks x y).tracked st
    copy_row instance_id x (y + 1) n st'

  unfoldable pub copy_rows : InstanceId → ℕ → ℕ → Copying → Outcome Copying
  unfolding copy_row
  copy_rows instance_id x zero st = ok st
  copy_rows instance_id x (suc n) st = do
    st' ← copy_row instance_id x 0 nchunks st
    copy_rows instance_id (x + 1) n st'

  unfoldable pub lead : ℕ → EntityId → Position → RegistryEntry → EntityMap → Outcome EntityMap
  unfolding put_entry
  lead new_npc_id leader offset entry m = elim entry.entity [
    | an_npc mob ↦ ok (
        put_entry (npc_entity new_npc_id)
          (some (record entry {
            entity = an_npc (record mob { tight_follow = some (leader, offset) });
          }))
          m)
    | another id ↦ panics
  ]

  unfoldable pub update_leaders :
      List (EntityId × EntityId) → List (ℕ × EntityId × Position) → EntityMap → Outcome EntityMap
  unfolding lead new_id_of
  update_leaders id_mappings [] m = ok m
  update_leaders id_mappings ((new_npc_id, old_leader_id, offset) ∷ followers) m = do
    entry ← unwrap (m.registry (npc_entity new_npc_id))
    new_leader_id ← unwrap (new_id_of old_leader_id id_mappings)
    m' ← lead new_npc_id new_leader_id offset entry m
    update_leaders id_mappings followers m'

  unfoldable pub fill_instance : InstanceId → Option ℕ → EntityMap → Outcome EntityMap
  unfolding copy_rows update_leaders
  fill_instance instance_id none m = ok m
  fill_instance instance_id (some num) m = do
    st ←
        copy_rows instance_id 0 nchunks
          (record { map = m; id_mappings = []; tight_follow_mappings = [] })
    update_leaders st.id_mappings st.tight_follow_mappings st.map

  unfoldable pub init_instance : InstanceId → EntityMap → Outcome EntityMap
  unfolding fill_instance
  init_instance instance_id m = elim (m.chunk_maps instance_id) [
    | some chunks ↦ ok m
    | none ↦
        fill_instance instance_id instance_id.instance_num
          (with_instance instance_id (some (λ x y. empty_chunk)) m)
  ]

  unfoldable pub insert_into_chunk :
      EntityId → ChunkCoords → EntityMap → Outcome (List EntityId × EntityMap)
  unfolding init_instance insert_existing
  insert_into_chunk id coords m = do
    m' ← init_instance coords.i m
    insert_existing range id coords m'

  -- `update`
  unfoldable pub update_entity :
      EntityId
      → Option ChunkCoords
      → Option (EntityId → Bool)
      → EntityMap
      → Outcome (List Notice × EntityMap)
  unfolding moved insert_into_chunk notices_of
  update_entity id to_chunk client_map m = do
    (around_from, around_to, m') ← moved (insert_into_chunk) range id to_chunk m
    notices ← notices_of id client_map around_from around_to m'
    ok (notices, m')
