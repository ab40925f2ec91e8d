-- ===== src/Entity/Id.antt =====
-- src/entity/mod.rs: `EntityID`, and src/chunk.rs: `InstanceID`, with the equality they derive.
use rusty_fusion.Prelude.{Bool, Option, arith, false, none, some, true, ℕ, ◌&&◌, ◌==◌, ◌↔◌, ◌≡◌}

pub data EntityId : Type 0 where
  player_entity npc_entity slider_entity egg_entity : ℕ → EntityId

unfoldable pub same_id : EntityId → EntityId → Bool
same_id (player_entity a) (player_entity b) = a == b
same_id (npc_entity a) (npc_entity b) = a == b
same_id (slider_entity a) (slider_entity b) = a == b
same_id (egg_entity a) (egg_entity b) = a == b
same_id _ _ = false

pub same_id_iff : (a b : EntityId) → (same_id a b ≡ true) ↔ (a ≡ b)
unfolding same_id
same_id_iff a b = ground arith

abbrev pub is_player : EntityId → Bool
is_player (player_entity a) = true
is_player _ = false

abbrev pub is_npc : EntityId → Bool
is_npc (npc_entity a) = true
is_npc _ = false

pub record InstanceId : Type 0 where
  pub channel_num : ℕ
  pub map_num : ℕ
  pub instance_num : Option ℕ

abbrev pub id_overworld : ℕ
id_overworld = 0

abbrev pub default_instance : InstanceId
default_instance = record { channel_num = 1; map_num = id_overworld; instance_num = none }

same_option : Option ℕ → Option ℕ → Bool
same_option none none = true
same_option (some a) (some b) = a == b
same_option _ _ = false

unfoldable pub same_instance : InstanceId → InstanceId → Bool
unfolding same_option
same_instance a b =
    a.channel_num == b.channel_num
    && a.map_num == b.map_num
    && same_option a.instance_num b.instance_num

-- A position is three words.
pub record Position : Type 0 where
  pub x : ℕ
  pub y : ℕ
  pub z : ℕ

same_option_iff : (a b : Option ℕ) → (same_option a b ≡ true) ↔ (a ≡ b)
unfolding same_option
same_option_iff none none = ground arith
same_option_iff none (some b) = ground arith
same_option_iff (some a) none = ground arith
same_option_iff (some a) (some b) = ground arith

pub same_instance_iff : (a b : InstanceId) → (same_instance a b ≡ true) ↔ (a ≡ b)
unfolding same_instance
same_instance_iff a b = ground (arith, same_option_iff a.instance_num b.instance_num)
