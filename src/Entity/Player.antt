-- ===== src/Entity/Player.antt =====
-- src/entity/player.rs: the state of a player. Names and appearance are left out.
pub mod Inventory
pub mod Stats
use rusty_fusion.Entity.Id.{InstanceId, Position}
use rusty_fusion.Error.{Outcome, unwrap}
use rusty_fusion.Item.{Item}
use rusty_fusion.Prelude.{List, Option, none, replicate, ℕ}

abbrev pub sizeof_equip_slot : ℕ
sizeof_equip_slot = 9

abbrev pub sizeof_inven_slot : ℕ
sizeof_inven_slot = 50

abbrev pub sizeof_qinven_slot : ℕ
sizeof_qinven_slot = 50

abbrev pub sizeof_bank_slot : ℕ
sizeof_bank_slot = 119

pub record PlayerInventory : Type 0 where
  pub main : List (Option Item)
  pub equipped : List (Option Item)
  pub quest : List (Option (ℕ × ℕ))
  pub bank : List (Option Item)

abbrev pub empty_inventory : PlayerInventory
empty_inventory = record {
  main = replicate sizeof_inven_slot none;
  equipped = replicate sizeof_equip_slot none;
  quest = replicate sizeof_qinven_slot none;
  bank = replicate sizeof_bank_slot none;
}

-- The fields that the modelled operations read or write. A trade or a group is named by a number.
pub record Player : Type 0 where
  pub id : Option ℕ
  pub uid : ℕ
  pub perms : ℕ
  pub level : ℕ
  pub hp : ℕ
  pub taros : ℕ
  pub fusion_matter : ℕ
  pub nano_potions : ℕ
  pub weapon_boosts : ℕ
  pub inventory : PlayerInventory
  pub position : Position
  pub instance_id : InstanceId
  pub trade_id : Option ℕ
  pub trade_offered_to : Option ℕ
  pub group_id : Option ℕ
  pub group_offered_to : Option ℕ
  pub vehicle_speed : Option ℕ

-- A player without an id panics.
unfoldable pub get_player_id : Player → Outcome ℕ
get_player_id player = unwrap player.id
