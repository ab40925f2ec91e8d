-- ===== src/Shard/Items.antt =====
-- src/bin/shard/item.rs: moving, deleting and combining items and opening chests, as changes of a player.
-- The table data, the roll of a combination and a random gumball are parameters. A slot number is
-- already a `usize`.
pub mod Requests
pub mod Stock
pub mod Moving
use rusty_fusion.Entity.Player.{Player}
use rusty_fusion.Entity.Player.Inventory.{get_item}
use rusty_fusion.Entity.Player.Stats.{set_taros}
use rusty_fusion.Error.{Outcome, build, err, guard, ok, ok_or, panics, unwrap, warning}
use rusty_fusion.Item.{CrocPotData, Item, ItemStats, set_appearance, transfer_items}
use rusty_fusion.Item.Kind.{
  ItemLocation, ItemType, chest, inven, item_location_code, item_location_from, same_type,
}
use rusty_fusion.Prelude.{
  Bool, Option, false, if◌then◌else◌, leb, ltb, none, some, true, ℕ, ◌%◌, ◌*◌, ◌+◌, ◌-◌, ◌==◌, ◌^◌,
}
use rusty_fusion.Shard.Shopper.{
  Edit, give, put_item, put_item_unwrap, store, the_player, ◌>>=◌, ◌>>◌,
}

-- `abs` of a apart_by of signed words of `w` bits.
unfoldable pub gap : ℕ → ℕ → ℕ → ℕ
gap w a b =
    let apart_by = (a + 2 ^ w - b) % 2 ^ w in
    if ltb apart_by (2 ^ (w - 1)) then apart_by else 2 ^ w - apart_by

-- `set_item`, `transfer_items` and the two writes of `item_move`. The codes of the locations are
-- read before each slot is emptied.
module _ (max_stack_size : ItemType → ℕ → Outcome ℕ) where
  unfoldable pub move_item :
      ℕ → ℕ → ℕ → ℕ → Edit (ItemLocation × Option Item × ItemLocation × Option Item)
  unfolding put_item
  move_item e_from from_slot_num e_to to_slot_num = do
    location_from ← give (item_location_from e_from)
    item_from ← put_item location_from from_slot_num none
    location_to ← give (item_location_from e_to)
    item_to ← put_item location_to to_slot_num none
    (item_from', item_to') ← give (transfer_items max_stack_size item_from item_to)
    _ ← put_item location_from from_slot_num item_from'
    _ ← put_item location_to to_slot_num item_to'
    give (ok (location_from, item_from', location_to, item_to'))

unfoldable pub delete_item : ℕ → ℕ → Edit (Unit {0})
unfolding put_item
delete_item e_il slot_num = do
  location ← give (item_location_from e_il)
  give (
      guard (item_location_code location == item_location_code inven)
        (build warning "Tried to delete item from invalid inventory"))
  _ ← put_item location slot_num none
  give (ok tt)

module _ (get_item_stats : ItemType → ℕ → Outcome ItemStats)
    (get_crocpot_data : ℕ → Outcome CrocPotData) (succeeds : ℕ → ℕ → Bool) where
  -- The item of a slot with its statistics and its rarity.
  unfoldable pub ingredient : Player → ℕ → Edit (Item × ItemStats × ℕ)
  ingredient player slot_num = do
    slot ← give (get_item player inven slot_num)
    item ← give (ok_or slot (build warning "Item slot empty"))
    stats ← give (get_item_stats item.ty item.id)
    rarity ← give (ok_or stats.rarity (build warning "Item has no rarity"))
    give (ok (item, stats, rarity))

  unfoldable pub combination_cost : CrocPotData → ItemStats → ItemStats → ℕ
  combination_cost crocpot_data looks_stats stats_stats =
      (looks_stats.buy_price * crocpot_data.price_multiplier_looks
        + stats_stats.buy_price * crocpot_data.price_multiplier_stats)
      % 2 ^ 32

  unfoldable pub put_combined : Bool → ℕ → ℕ → Item → Item → Edit Item
  unfolding put_item_unwrap
  put_combined true looks_slot stats_slot looks_item stats_item = do
    _ ← put_item_unwrap inven looks_slot (some (set_appearance stats_item looks_item))
    give (ok (set_appearance stats_item looks_item))
  put_combined false looks_slot stats_slot looks_item stats_item = do
    _ ← put_item_unwrap inven looks_slot (some looks_item)
    _ ← put_item_unwrap inven stats_slot (some stats_item)
    give (ok stats_item)

  -- The new item, the taros left and whether it succeeded.
  unfoldable pub combine_items : ℕ → ℕ → Edit (Item × ℕ × Bool)
  unfolding ingredient combination_cost put_combined put_item_unwrap gap
  combine_items looks_slot stats_slot = do
    player ← the_player
    (_, looks_stats, looks_rarity) ← ingredient player looks_slot
    (_, stats_stats, stats_rarity) ← ingredient player stats_slot
    let level_gap = gap 16 looks_stats.required_level stats_stats.required_level
    let rarity_gap = gap 8 looks_rarity stats_rarity
    give (guard (leb rarity_gap 3) (build warning "Rarity gap larger than 3"))
    crocpot_data ← give (get_crocpot_data level_gap)
    let cost = combination_cost crocpot_data looks_stats stats_stats
    give (guard (leb cost player.taros) (build warning "Not enough taros to perform combination"))
    let paid = set_taros player (player.taros - cost)
    store paid
    looks ← put_item_unwrap inven looks_slot none
    looks_item ← give (unwrap looks)
    stats ← put_item_unwrap inven stats_slot none
    stats_item ← give (unwrap stats)
    kept_item ←
        put_combined (succeeds level_gap rarity_gap) looks_slot stats_slot looks_item stats_item
    give (ok (kept_item, paid.taros, succeeds level_gap rarity_gap))

module _ (get_item_from_crate : ℕ → Player → Outcome Item) (random_gumball : Item) where
  -- An error of the table data is logged, and the reward is a gumball.
  unfoldable pub chest_reward : ℕ → Player → Outcome Item
  chest_reward chest_id player = elim (get_item_from_crate chest_id player) [
    | ok item ↦ ok item
    | err e ↦ ok random_gumball
    | panics ↦ panics
  ]

  unfoldable pub open_chest : ℕ → ℕ → Edit (Item × Player)
  unfolding put_item chest_reward
  open_chest e_il slot_num = do
    _ ← the_player
    location ← give (item_location_from e_il)
    give (
        guard (item_location_code location == item_location_code inven)
          (build warning "C.R.A.T.E. not in main inventory"))
    slot ← put_item location slot_num none
    item ← give (ok_or slot (build warning "C.R.A.T.E. in empty slot"))
    give (guard (same_type item.ty chest) (build warning "Item is not a C.R.A.T.E."))
    player ← the_player
    reward ← give (chest_reward item.id player)
    _ ← put_item location slot_num (some reward)
    player' ← the_player
    give (ok (reward, player'))
