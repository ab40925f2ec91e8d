-- ===== src/Shard/Items/Requests.antt =====
-- src/bin/shard/item.rs: the handlers of the item packets, with the answers that they send. Who is around
-- an entity, and has a client, is a parameter.
use rusty_fusion.Entity.Player.{Player, get_player_id}
use rusty_fusion.Error.{Outcome, unwrap}
use rusty_fusion.Item.{CrocPotData, Item, ItemStats, item_to_base, new_item}
use rusty_fusion.Item.Kind.{ItemLocation, ItemType, equip, item_location_code}
use rusty_fusion.Prelude.{
  Bool, List, Option, [], false, if◌then◌else◌, is_some, none, some, true, ℕ, ◌&&◌, ◌==◌, ◌||◌, ◌∷◌,
}
use rusty_fusion.Shard.Items.{combine_items, delete_item, move_item, open_chest}
use rusty_fusion.Shard.Shopper.{on_shopper}
use rusty_fusion.Shard.State.{
  Message, Run, catching, equip_change, item_chest_open_fail, item_chest_open_succ,
  item_combination_fail, item_combination_succ, item_delete_succ, item_move_succ, lift, pure,
  put_player, reward_item, state_change, streetstall_cancel_succ, tell, vehicle_off_succ, ◌>>=◌,
  ◌>>◌,
}
use rusty_fusion.Util.Words.{sign_extended}

abbrev pub equip_slot_vehicle : ℕ
equip_slot_vehicle = 8

abbrev pub flag_pc_state_vehicle : ℕ
flag_pc_state_vehicle = 8

unfoldable pub get_state_bit_flag : Player → ℕ
get_state_bit_flag player = if is_some player.vehicle_speed then flag_pc_state_vehicle else 0

unfoldable pub is_equip : ItemLocation → Bool
unfolding item_location_code
is_equip location = item_location_code location == item_location_code equip

module _ (self_id : Outcome ℕ) (send : Message → Outcome (Unit {0})) (around : ℕ → List ℕ) where
  abbrev answer : Message → Run (Unit {0})
  answer message = do tell none message; lift (send message)

  unfoldable pub tell_all : List ℕ → Message → Run (Unit {0})
  tell_all [] message = pure tt
  tell_all (pc_id ∷ pc_ids) message = do tell (some pc_id) message; tell_all pc_ids message

  unfoldable pub broadcast_state : ℕ → ℕ → Run (Unit {0})
  unfolding tell_all
  broadcast_state pc_id player_sbf = tell_all (around pc_id) (state_change pc_id player_sbf)

  -- Those around learn what is equipped now.
  unfoldable pub tell_equip : Bool → ℕ → ℕ → ℕ → Option Item → Run (Unit {0})
  unfolding tell_all
  tell_equip true entity_id pc_id slot_num item =
      tell_all (around entity_id) (equip_change pc_id slot_num (item_to_base item))
  tell_equip false entity_id pc_id slot_num item = pure tt

  unfoldable pub dismount : ℕ → Bool → Run (Unit {0})
  unfolding broadcast_state get_state_bit_flag
  dismount pc_id is_vehicle_slot = do
    player ← (λ s. (unwrap (s.players pc_id), s))
    (if is_vehicle_slot && is_some player.vehicle_speed
        then (do
          put_player pc_id (record player { vehicle_speed = none })
          broadcast_state pc_id (get_state_bit_flag (record player { vehicle_speed = none }))
          answer vehicle_off_succ)
        else pure tt)

  unfoldable pub item_move : (ItemType → ℕ → Outcome ℕ) → ℕ → ℕ → ℕ → ℕ → Run (Unit {0})
  unfolding move_item on_shopper tell_equip dismount is_equip sign_extended
  item_move max_stack_size e_from from_slot_num e_to to_slot_num = do
    pc_id ← lift self_id
    (location_from, item_from, location_to, item_to) ← on_shopper pc_id (
        move_item max_stack_size e_from (sign_extended from_slot_num) e_to
          (sign_extended to_slot_num))
    answer (
        item_move_succ e_from from_slot_num (item_to_base item_from) e_to to_slot_num
          (item_to_base item_to))
    player ← (λ s. (unwrap (s.players pc_id), s))
    entity_id ← lift (get_player_id player)
    tell_equip (is_equip location_from) entity_id pc_id from_slot_num item_to
    tell_equip (is_equip location_to) entity_id pc_id to_slot_num item_from
    dismount pc_id (
        (is_equip location_from && from_slot_num == equip_slot_vehicle)
        || (is_equip location_to && to_slot_num == equip_slot_vehicle))

  unfoldable pub item_delete : ℕ → ℕ → Run (Unit {0})
  unfolding delete_item on_shopper sign_extended
  item_delete e_il slot_num = do
    pc_id ← lift self_id
    on_shopper pc_id (delete_item e_il (sign_extended slot_num))
    answer (item_delete_succ e_il slot_num)

  unfoldable pub item_combination :
      (ItemType → ℕ → Outcome ItemStats)
      → (ℕ → Outcome CrocPotData)
      → (ℕ → ℕ → Bool)
      → ℕ
      → ℕ
      → Run (Unit {0})
  unfolding combine_items on_shopper sign_extended
  item_combination get_item_stats get_crocpot_data succeeds costume_slot stat_slot =
      catching
        (do
          pc_id ← lift self_id
          (new_item, taros_left, succeeded) ← on_shopper pc_id (
              combine_items get_item_stats get_crocpot_data succeeds (sign_extended costume_slot)
                (sign_extended stat_slot))
          answer (
              item_combination_succ costume_slot (item_to_base (some new_item)) stat_slot taros_left
                succeeded))
        (answer (item_combination_fail costume_slot stat_slot))

  unfoldable pub item_chest_open : (ℕ → Player → Outcome Item) → Item → ℕ → ℕ → Run (Unit {0})
  unfolding open_chest on_shopper sign_extended
  item_chest_open get_item_from_crate random_gumball e_il slot_num =
      catching
        (do
          pc_id ← lift self_id
          (reward, player) ←
              on_shopper pc_id
                (open_chest get_item_from_crate random_gumball e_il (sign_extended slot_num))
          answer (
              reward_item player.taros player.fusion_matter player.nano_potions player.weapon_boosts
                (item_to_base (some reward)) e_il slot_num)
          answer (item_chest_open_succ slot_num))
        (answer (item_chest_open_fail slot_num))

  unfoldable pub streetstall_cancel : Run (Unit {0})
  streetstall_cancel = answer streetstall_cancel_succ
