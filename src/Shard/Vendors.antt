-- ===== src/Shard/Vendors.antt =====
-- src/bin/shard/item.rs: buying from vendors, selling to them and buying back, as changes of a player and
-- its list of sold items. The table data and the expiry of a new vehicle are parameters.
pub mod Requests
pub mod Buyback
pub mod Expiring
pub mod Batteries
pub mod Paying
use rusty_fusion.Entity.Player.{Player}
use rusty_fusion.Entity.Player.Inventory.{get_item}
use rusty_fusion.Entity.Player.Stats.{
  pc_battery_max, set_nano_potions, set_taros, set_weapon_boosts,
}
use rusty_fusion.Error.{Outcome, build, err, guard, ok, ok_or, unwrap, warning}
use rusty_fusion.Item.{Item, ItemBase, ItemStats, VendorData, base_to_item, has_item, split_items}
use rusty_fusion.Item.Kind.{ItemType, inven, same_type, vehicle}
use rusty_fusion.Prelude.{
  Bool, List, Option, [], false, if◌then◌else◌, leb, min, none, some, true, ℕ, ◌%◌, ◌&&◌, ◌*◌, ◌++◌,
  ◌+◌, ◌-◌, ◌==◌, ◌^◌, ◌∷◌,
}
use rusty_fusion.Shard.Shopper.{
  Edit, give, put_item, put_item_unwrap, store, store_buyback, the_buyback, the_player, ◌>>=◌, ◌>>◌,
}
use rusty_fusion.Util.Time.{SystemTime}

same_field : Option ℕ → Option ℕ → Bool
same_field none none = true
same_field (some a) (some b) = a == b
same_field _ _ = false

-- `==` of items.
unfoldable pub equal_items : Item → Item → Bool
unfolding same_field
equal_items a b =
    same_type a.ty b.ty
    && a.id == b.id
    && same_field a.appearance_id b.appearance_id
    && a.quantity == b.quantity
    && same_field a.expiry_time b.expiry_time

abbrev pub keeping : Item → Option (List Item) → Option (List Item)
keeping item none = none
keeping item (some items) = some (item ∷ items)

-- The list without the first item that is equal.
unfoldable pub remove_first : Item → List Item → Option (List Item)
unfolding equal_items
remove_first item [] = none
remove_first item (list_item ∷ items) =
    let rest = remove_first item items in
    if equal_items list_item item then some items else keeping list_item rest

abbrev pub or_default : Option (List Item) → List Item
or_default none = []
or_default (some items) = items

module _ (get_item_stats : ItemType → ℕ → Outcome ItemStats) where
  -- `u32` arithmetic.
  abbrev pub worth : ℕ → ℕ → ℕ
  worth price quantity = price * quantity % 2 ^ 32

  unfoldable pub sanitized : SystemTime → ItemBase → Edit Item
  sanitized expires base = do
    wanted ← give (base_to_item base)
    item ← give (ok_or wanted (build warning "Tried to buy nothing"))
    give (
        ok (if same_type item.ty vehicle then record item { expiry_time = some expires } else item))

  -- The taros left and the item.
  unfoldable pub buy_item :
      (ℕ → Outcome VendorData) → SystemTime → ℕ → ItemBase → ℕ → Edit (ℕ × Item)
  unfolding sanitized put_item
  buy_item get_vendor_data expires vendor_id base slot_num = do
    item ← sanitized expires base
    vendor_data ← give (get_vendor_data vendor_id)
    give (guard (has_item vendor_data item.id item.ty) (build warning "Vendor doesn't sell item"))
    stats ← give (get_item_stats item.ty item.id)
    player ← the_player
    let price = worth stats.buy_price item.quantity
    give (guard (leb price player.taros) (build warning "Not enough taros to buy item"))
    _ ← put_item inven slot_num (some item)
    player' ← the_player
    store (set_taros player' (player'.taros - price))
    give (ok ((set_taros player' (player'.taros - price)).taros, item))

  -- The taros after the sale, what was sold and what stays.
  unfoldable pub sell_item : ℕ → ℕ → Edit (ℕ × Item × Option Item)
  unfolding put_item put_item_unwrap
  sell_item slot_num item_cnt = do
    player ← the_player
    slot ← give (get_item player inven slot_num)
    item ← give (ok_or slot (build warning "Tried to sell what's in empty slot"))
    stats ← give (get_item_stats item.ty item.id)
    give (guard stats.sellable (build warning "Item not sellable"))
    remaining_item ← put_item inven slot_num none
    let quantity = item_cnt % 2 ^ 16
    let (stays, sold) = split_items remaining_item quantity
    _ ← put_item_unwrap inven slot_num stays
    player' ← the_player
    let paid = set_taros player' ((player'.taros + worth stats.sell_price quantity) % 2 ^ 32)
    store paid
    buyback_list ← the_buyback
    sold_item ← give (unwrap sold)
    store_buyback (some (or_default buyback_list ++ (sold_item ∷ [])))
    give (ok (paid.taros, sold_item, stays))

  -- The taros left and the item.
  unfoldable pub restore_buy : ItemBase → ℕ → Edit (ℕ × Item)
  unfolding remove_first put_item
  restore_buy base slot_num = do
    wanted ← give (base_to_item base)
    item ← give (ok_or wanted (build warning "Bad item for buyback"))
    buyback_list ← the_buyback
    items ← give (ok_or buyback_list (build warning "Player has not sold any items"))
    others ← give (
        ok_or (remove_first item items)
          (build warning "Player tried to buyback an item they didn't sell"))
    store_buyback (some others)
    stats ← give (get_item_stats item.ty item.id)
    player ← the_player
    let cost = worth stats.sell_price item.quantity
    give (guard (leb cost player.taros) (build warning "Not enough taros to buyback item"))
    _ ← put_item inven slot_num (some item)
    player' ← the_player
    let paid = set_taros player' (player'.taros - cost)
    store paid
    give (ok (paid.taros, item))

abbrev pub battery_type_boost : ℕ
battery_type_boost = 3

abbrev pub battery_type_potion : ℕ
battery_type_potion = 4

-- What is bought of `quantity`, up to the limit, by a player who has `current`: `u32` arithmetic.
abbrev pub up_to_max : ℕ → ℕ → ℕ
up_to_max current quantity =
    (min ((current + quantity) % 2 ^ 32) pc_battery_max + 2 ^ 32 - current) % 2 ^ 32

unfoldable pub wanted_quantity : ℕ → ℕ → Player → Outcome ℕ
wanted_quantity battery_type quantity player =
    if battery_type == battery_type_boost
    then ok (up_to_max player.weapon_boosts quantity)
    else if battery_type == battery_type_potion
    then ok (up_to_max player.nano_potions quantity)
    else err (build warning "Bad battery type")

unfoldable pub with_batteries : ℕ → ℕ → Player → Outcome Player
with_batteries battery_type quantity player =
    if battery_type == battery_type_boost
    then ok (set_weapon_boosts player ((player.weapon_boosts + quantity) % 2 ^ 32))
    else if battery_type == battery_type_potion
    then ok (set_nano_potions player ((player.nano_potions + quantity) % 2 ^ 32))
    else err (build warning "Bad battery type")

unfoldable pub buy_batteries : ℕ → ℕ → Edit Player
unfolding wanted_quantity with_batteries
buy_batteries battery_type i_opt = do
  player ← the_player
  quantity ← give (wanted_quantity battery_type (i_opt * 100 % 2 ^ 32) player)
  give (guard (leb quantity player.taros) (build warning "Not enough taros"))
  player' ← give (with_batteries battery_type quantity player)
  store player'
  store (set_taros player' (player'.taros - quantity))
  give (ok (set_taros player' (player'.taros - quantity)))
