-- ===== src/Chunk/Moves.antt =====
-- src/chunk.rs: how an entity moves between chunks of instances that exist, and what the map tells of
-- those around it.
use rusty_fusion.Chunk.{
  Chunk, ChunkCoords, EntityMap, RegistryEntry, chunk_at, get_coords_around, in_bounds, join,
  nchunks, put_chunk, put_entry, same_coords,
}
use rusty_fusion.Entity.Group.{contains, count_of, without}
use rusty_fusion.Entity.Id.{EntityId, InstanceId, is_player, same_instance}
use rusty_fusion.Error.{Outcome, ok, panics, unwrap, ◌>>=◌, ◌>>◌}
use rusty_fusion.Prelude.{
  Bool, List, Option, [], false, if◌then◌else◌, is_some, none, not, some, suc, true, zero, ℕ, ◌%◌,
  ◌&&◌, ◌+◌, ◌-◌, ◌==◌, ◌^◌, ◌||◌, ◌∷◌,
}
use rusty_fusion.Shard.Trading.{found}

unfoldable pub ids_at : EntityMap → ChunkCoords → List EntityId
ids_at m coords = elim (chunk_at m coords) [ none ↦ [] | some chunk ↦ chunk.tracked ]

-- `usize` arithmetic.
abbrev pub changed_count : Bool → ℕ → ℕ
changed_count true n = (n + 1) % 2 ^ 64
changed_count false n = (n + 2 ^ 64 - 1) % 2 ^ 64

unfoldable pub touch : Bool → EntityId → ChunkCoords → EntityMap → EntityMap
touch up id coords m = elim (chunk_at m coords) [
  | none ↦ m
  | some chunk ↦
      if is_player id
      then put_chunk coords (record chunk { load_count = changed_count up chunk.load_count }) m
      else m
]

-- The loop over the coordinates around a chunk: the entities there, and the load counts.
unfoldable pub touch_all :
    Bool → EntityId → List ChunkCoords → EntityMap → List EntityId × EntityMap
unfolding ids_at touch
touch_all up id [] m = ([], m)
touch_all up id (coords ∷ rest) m =
    let (affected, m') = touch_all up id rest (touch up id coords m) in
    (join (ids_at m coords) affected, m')

unfoldable pub set_chunk_of : EntityId → Option ChunkCoords → RegistryEntry → EntityMap → EntityMap
set_chunk_of id chunk entry m = put_entry id (some (record entry { chunk = chunk })) m

module _ (range : ℕ) where
  unfoldable pub removed_from :
      EntityId
      → RegistryEntry
      → Option ChunkCoords
      → EntityMap
      → Outcome (List EntityId × EntityMap)
  unfolding touch_all
  removed_from id entry none m = ok ([], m)
  removed_from id entry (some coords) m = do
    chunk ← unwrap (chunk_at m coords)
    (if contains id chunk.tracked then ok tt else panics)
    ok (
        touch_all false id (get_coords_around range coords) (
          put_chunk coords (record chunk { tracked = without id chunk.tracked })
            (set_chunk_of id none entry m)))

  unfoldable pub remove_from_chunk : EntityId → EntityMap → Outcome (List EntityId × EntityMap)
  unfolding removed_from
  remove_from_chunk id m = do entry ← unwrap (m.registry id); removed_from id entry entry.chunk m

  -- The chunk is in bounds and its instance exists.
  unfoldable pub insert_existing :
      EntityId → ChunkCoords → EntityMap → Outcome (List EntityId × EntityMap)
  unfolding touch_all
  insert_existing id coords m = do
    chunk ← unwrap (chunk_at m coords)
    (if contains id chunk.tracked then panics else ok tt)
    entry ← unwrap (m.registry id)
    (affected, m') ← ok (
        touch_all true id (get_coords_around range coords) (
          set_chunk_of id (some coords) entry
            (put_chunk coords (record chunk { tracked = id ∷ chunk.tracked }) m)))
    ok (without id affected, m')

  unfoldable pub get_around_entity : EntityId → EntityMap → List EntityId
  unfolding ids_at
  get_around_entity id m = elim (m.registry id) [
    | none ↦ []
    | some entry ↦ elim entry.chunk [
      | none ↦ []
      | some coords ↦ all_at m (get_coords_around range coords)
    ]
  ]
    where
      all_at : EntityMap → List ChunkCoords → List EntityId
      all_at m [] = []
      all_at m (coords ∷ rest) = join (ids_at m coords) (all_at m rest)

-- The entry and exit packets of an update: who is told, of whom, and whether it enters.
pub data Notice : Type 0 where
  enters exits : EntityId → EntityId → Notice

unfoldable pub difference : List EntityId → List EntityId → List EntityId
difference [] others = []
difference (id ∷ ids) others =
    let rest = difference ids others in if contains id others then rest else id ∷ rest

-- Each tells the other, as far as it has a client and both are registered still.
unfoldable pub told :
    (EntityId → EntityId → Notice)
    → (EntityId → Bool)
    → EntityMap
    → EntityId
    → List EntityId
    → List Notice
told notice has_client m id [] = []
told notice has_client m id (e ∷ es) =
    let rest = told notice has_client m id es in
    let known = is_some (m.registry e) in
    let heard = if known && has_client e then notice e id ∷ rest else rest in
    if has_client id && known then notice id e ∷ heard else heard

unfoldable pub all_registered : EntityMap → List EntityId → Bool
all_registered m [] = true
all_registered m (e ∷ es) = is_some (m.registry e) && all_registered m es

unfoldable pub sum_to : ℕ → (ℕ → ℕ) → ℕ
sum_to zero f = 0
sum_to (suc n) f = sum_to n f + f n

-- Of a chunk map.
unfoldable pub get_player_count : (ℕ → ℕ → Chunk) → ℕ
unfolding sum_to
get_player_count chunks =
    sum_to nchunks (λ x. sum_to nchunks (λ y. count_of is_player (chunks x y).tracked))

-- The main instance of a map is never cleaned up.
unfoldable pub cleanup_of : Option ℕ → Option (ℕ → ℕ → Chunk) → Outcome Bool
unfolding get_player_count
cleanup_of none chunks = ok false
cleanup_of (some num) chunks = do found ← unwrap chunks; ok (get_player_count found == 0)

unfoldable pub should_cleanup_instance : InstanceId → EntityMap → Outcome Bool
unfolding cleanup_of
should_cleanup_instance instance_id m =
    cleanup_of instance_id.instance_num (m.chunk_maps instance_id)

unfoldable pub has_instance : InstanceId → List InstanceId → Bool
has_instance i [] = false
has_instance i (j ∷ js) = same_instance i j || has_instance i js

abbrev pub same_place : Option ChunkCoords → Option ChunkCoords → Bool
same_place none none = true
same_place (some a) (some b) = same_coords a b
same_place _ _ = false

unfoldable pub mark_instance :
    Option ChunkCoords → Option ChunkCoords → EntityMap → Outcome EntityMap
unfolding should_cleanup_instance has_instance
mark_instance (some coords) none m = do
  cleanup ← should_cleanup_instance coords.i m
  ok (
      if cleanup && not (has_instance coords.i m.instances_to_cleanup)
      then record m { instances_to_cleanup = coords.i ∷ m.instances_to_cleanup }
      else m)
mark_instance _ _ m = ok m

module _ (placing : EntityId → ChunkCoords → EntityMap → Outcome (List EntityId × EntityMap)) where
  unfoldable pub insert_to :
      EntityId → Option ChunkCoords → EntityMap → Outcome (List EntityId × EntityMap)
  insert_to id none m = ok ([], m)
  insert_to id (some coords) m = if in_bounds coords then placing id coords m else ok ([], m)

  -- `update`, with the insertion as a parameter, and the map after it with the two sets around.
  unfoldable pub moved :
      ℕ
      → EntityId
      → Option ChunkCoords
      → EntityMap
      → Outcome (List EntityId × List EntityId × EntityMap)
  unfolding remove_from_chunk insert_to mark_instance
  moved range id to_chunk m = do
    entry ← unwrap (m.registry id)
    (if same_place entry.chunk to_chunk then ok ([], [], m) else (do
      (around_from, m1) ← remove_from_chunk range id m
      (around_to, m2) ← insert_to id to_chunk m1
      m3 ← mark_instance entry.chunk to_chunk m2
      ok (around_from, around_to, m3)))
