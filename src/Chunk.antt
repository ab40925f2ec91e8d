-- ===== src/Chunk.antt =====
-- src/chunk.rs: the map of a shard's entities. The registry and the chunk maps are functions of their
-- keys; a set of ids is a list without order. How far an entity sees is a parameter, a setting.
pub mod Moves
pub mod Registry
pub mod Instances
pub mod Cleanup
pub mod Grid
pub mod World
use rusty_fusion.Entity.Group.{contains}
use rusty_fusion.Entity.Id.{EntityId, InstanceId, Position, npc_entity, same_id, same_instance}
use rusty_fusion.Entity.Npc.{Npc}
use rusty_fusion.Prelude.{
  Bool, List, Option, [], if◌then◌else◌, ltb, none, set, some, suc, zero, ℕ, ◌%◌, ◌&&◌, ◌*◌, ◌++◌,
  ◌+◌, ◌-◌, ◌/◌, ◌==◌, ◌^◌, ◌∷◌,
}

-- A coordinate is a signed word, as its bit pattern: a negative one is not below the bound.
pub record ChunkCoords : Type 0 where
  pub i : InstanceId
  pub x : ℕ
  pub y : ℕ

unfoldable pub same_coords : ChunkCoords → ChunkCoords → Bool
same_coords a b = same_instance a.i b.i && a.x == b.x && a.y == b.y

abbrev pub nchunks : ℕ
nchunks = 128

abbrev pub map_bounds : ℕ
map_bounds = 819200

-- Signed division of a word by a positive number, towards zero.
unfoldable pub divided : ℕ → ℕ → ℕ
divided n d = if ltb n (2 ^ 31) then n / d else (2 ^ 32 - (2 ^ 32 - n) / d) % 2 ^ 32

unfoldable pub from_pos_inst : Position → InstanceId → ChunkCoords
unfolding divided
from_pos_inst pos instance_id = record {
  i = instance_id;
  x = divided (pos.x * nchunks % 2 ^ 32) map_bounds;
  y = divided (pos.y * nchunks % 2 ^ 32) map_bounds;
}

pub data TickMode : Type 0 where
  always when_loaded never : TickMode

pub record Chunk : Type 0 where
  pub load_count : ℕ
  pub tracked : List EntityId

abbrev pub empty_chunk : Chunk
empty_chunk = record { load_count = 0; tracked = [] }

-- An NPC, or another entity, of which the map uses the id.
pub data Tracked : Type 0 where
  an_npc : Npc → Tracked
  another : EntityId → Tracked

unfoldable pub get_id : Tracked → EntityId
get_id (an_npc mob) = npc_entity mob.id
get_id (another id) = id

pub record RegistryEntry : Type 0 where
  pub entity : Tracked
  pub chunk : Option ChunkCoords
  pub tick_mode : TickMode

pub record EntityMap : Type 0 where
  pub registry : EntityId → Option RegistryEntry
  pub chunk_maps : InstanceId → Option (ℕ → ℕ → Chunk)
  pub instances_to_cleanup : List InstanceId
  pub entities_to_cleanup : List EntityId
  pub next_pc_id : ℕ
  pub next_npc_id : ℕ
  pub next_slider_id : ℕ
  pub next_egg_id : ℕ

abbrev pub new_map : EntityMap
new_map = record {
  registry = λ id. none;
  chunk_maps = λ i. none;
  instances_to_cleanup = [];
  entities_to_cleanup = [];
  next_pc_id = 1;
  next_npc_id = 1;
  next_slider_id = 1;
  next_egg_id = 1;
}

unfoldable pub put_entry : EntityId → Option RegistryEntry → EntityMap → EntityMap
put_entry id entry m = record m { registry = λ j. if same_id j id then entry else m.registry j }

abbrev pub in_bounds : ChunkCoords → Bool
in_bounds coords = ltb coords.x nchunks && ltb coords.y nchunks

abbrev pub cell : Option (ℕ → ℕ → Chunk) → ℕ → ℕ → Option Chunk
cell none x y = none
cell (some chunks) x y = some (chunks x y)

unfoldable pub chunk_at : EntityMap → ChunkCoords → Option Chunk
chunk_at m coords =
    if in_bounds coords then cell (m.chunk_maps coords.i) coords.x coords.y else none

unfoldable pub put_chunk : ChunkCoords → Chunk → EntityMap → EntityMap
put_chunk coords chunk m = record m {
  chunk_maps = λ i.
      if same_instance i coords.i
      then elim (m.chunk_maps i) [
        | none ↦ none
        | some chunks ↦ some (λ x y. if x == coords.x && y == coords.y then chunk else chunks x y)
      ]
      else m.chunk_maps i;
}

-- The signed range from `x - range` to `x + range`, each number as a word. The setting is a small number:
-- below 2 ^ 30, neither end of the range around a chunk of the grid wraps.
unfoldable pub span_from : ℕ → ℕ → List ℕ
span_from base zero = []
span_from base (suc n) = base % 2 ^ 32 ∷ span_from (base + 1) n

unfoldable pub span : ℕ → ℕ → List ℕ
unfolding span_from
span range x = span_from (x + 2 ^ 32 - range) (2 * range + 1)

unfoldable pub column : InstanceId → ℕ → List ℕ → List ChunkCoords
column i x [] = []
column i x (y ∷ ys) = record { i = i; x = x; y = y } ∷ column i x ys

unfoldable pub columns : InstanceId → List ℕ → List ℕ → List ChunkCoords
unfolding column
columns i [] ys = []
columns i (x ∷ xs) ys = column i x ys ++ columns i xs ys

unfoldable pub get_coords_around : ℕ → ChunkCoords → List ChunkCoords
unfolding columns span
get_coords_around range coords = columns coords.i (span range coords.x) (span range coords.y)

-- `extend` of a set.
unfoldable pub join : List EntityId → List EntityId → List EntityId
join [] set = set
join (id ∷ ids) set = let rest = join ids set in if contains id rest then rest else id ∷ rest

unfoldable pub is_loaded : Chunk → Bool
is_loaded chunk = ltb 0 chunk.load_count
