-- ===== src/Entity.antt =====
-- src/entity: what lives in a shard's world.
pub mod Group
pub mod Id
pub mod Npc
pub mod Player
