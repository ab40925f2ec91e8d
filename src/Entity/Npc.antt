-- ===== src/Entity/Npc.antt =====
-- src/entity/npc.rs: of the state of an NPC, what the modelled operations read or write.
use rusty_fusion.Entity.Id.{EntityId, InstanceId, Position}
use rusty_fusion.Prelude.{Option, ℕ}

pub record Npc : Type 0 where
  pub id : ℕ
  pub ty : ℕ
  pub hp : ℕ
  pub position : Position
  pub instance_id : InstanceId
  pub tight_follow : Option (EntityId × Position)
  pub group_id : Option ℕ
