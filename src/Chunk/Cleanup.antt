-- ===== src/Chunk/Cleanup.antt =====
-- src/chunk.rs: the clean-up of instances and entities.
use rusty_fusion.Chunk.{Chunk, EntityMap, Tracked, nchunks}
use rusty_fusion.Chunk.Instances.{with_instance}
use rusty_fusion.Chunk.Registry.{untrack}
use rusty_fusion.Entity.Id.{EntityId, InstanceId}
use rusty_fusion.Error.{Outcome, ok, unwrap, ◌>>=◌}
use rusty_fusion.Prelude.{List, [], none, suc, zero, ℕ, ◌++◌, ◌∷◌}

-- The ids in a chunk map.
unfoldable pub ids_in_row : (ℕ → ℕ → Chunk) → ℕ → ℕ → List EntityId
ids_in_row chunks x zero = []
ids_in_row chunks x (suc y) = ids_in_row chunks x y ++ (chunks x y).tracked

unfoldable pub ids_in_rows : (ℕ → ℕ → Chunk) → ℕ → List EntityId
unfolding ids_in_row
ids_in_rows chunks zero = []
ids_in_rows chunks (suc x) = ids_in_rows chunks x ++ ids_in_row chunks x nchunks

unfoldable pub untrack_all : List EntityId → EntityMap → Outcome (List Tracked × EntityMap)
unfolding untrack
untrack_all [] m = ok ([], m)
untrack_all (id ∷ ids) m = do
  (entity, m') ← untrack id m
  (entities, m2) ← untrack_all ids m'
  ok (entity ∷ entities, m2)

unfoldable pub cleanup_instance : InstanceId → EntityMap → Outcome (List Tracked × EntityMap)
unfolding untrack_all ids_in_rows
cleanup_instance instance_id m = do
  chunks ← unwrap (m.chunk_maps instance_id)
  (entities, m') ← untrack_all (ids_in_rows chunks nchunks) m
  ok (entities, with_instance instance_id none m')

unfoldable pub cleanup_all : List InstanceId → EntityMap → Outcome (List Tracked × EntityMap)
unfolding cleanup_instance
cleanup_all [] m = ok ([], m)
cleanup_all (i ∷ is) m = do
  (entities, m') ← cleanup_instance i m
  (others, m2) ← cleanup_all is m'
  ok (entities ++ others, m2)

unfoldable pub garbage_collect_instances : EntityMap → Outcome (List Tracked × EntityMap)
unfolding cleanup_all
garbage_collect_instances m = do
  (entities, m') ← cleanup_all m.instances_to_cleanup m
  ok (entities, record m' { instances_to_cleanup = [] })

unfoldable pub garbage_collect_entities : EntityMap → Outcome (List Tracked × EntityMap)
unfolding untrack_all
garbage_collect_entities m = do
  (entities, m') ← untrack_all m.entities_to_cleanup m
  ok (entities, record m' { entities_to_cleanup = [] })
