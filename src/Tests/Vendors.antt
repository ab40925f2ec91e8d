-- ===== src/Tests/Vendors.antt =====
-- src/bin/shard/item.rs on concrete players.
use rusty_fusion.Entity.Id.{default_instance}
use rusty_fusion.Entity.Player.{Player, empty_inventory}
use rusty_fusion.Entity.Player.Inventory.{get_item, slot_limit, slots, write_slot}
use rusty_fusion.Entity.Player.Inventory.Slots.{IsShaped, same_slot, with_slots}
use rusty_fusion.Error.{Outcome, ok}
use rusty_fusion.Item.{Item, ItemStats, item_to_base}
use rusty_fusion.Item.Kind.{
  ItemLocation, ItemType, bank, equip, general, inven, item_location_from, q_inven, vehicle,
}
use rusty_fusion.Item.Stacks.{IsStack}
use rusty_fusion.Prelude.{
  Option, [], arith, false, get_elem?, if◌then◌else◌, none, refl, replicate, some, suc, true, zero,
  ℕ, ◌*◌, ◌+◌, ◌==◌, ◌∷◌, ◌≡◌,
}
use rusty_fusion.Shard.Items.{move_item}
use rusty_fusion.Shard.Items.Moving.{move_item-IsStocked}
use rusty_fusion.Shard.Items.Stock.{IsStocked, get_item-elem, owned, written}
use rusty_fusion.Shard.Shopper.{Shopper}
use rusty_fusion.Shard.State.{ShardState}
use rusty_fusion.Shard.Vendors.{buy_batteries, or_default, remove_first, restore_buy, sell_item}
use rusty_fusion.Shard.Vendors.Batteries.{IsBattery, IsExchanged, buy_batteries-IsBattery}
use rusty_fusion.Shard.Vendors.Buyback.{sell_item-restore_buy}
use rusty_fusion.Shard.Vendors.Expiring.{IsRefused, restore_buy-IsRefused}
use rusty_fusion.Shard.Vendors.Paying.{vendor_battery_buy-IsExchanged}
use rusty_fusion.Shard.Vendors.Requests.{vendor_battery_buy}

abbrev shopper : Player
shopper = record {
  id = some 5;
  uid = 77;
  perms = 99;
  level = 1;
  hp = 400;
  taros = 1000;
  fusion_matter = 0;
  nano_potions = 0;
  weapon_boosts = 9950;
  inventory = empty_inventory;
  position = record { x = 0; y = 0; z = 0 };
  instance_id = default_instance;
  trade_id = none;
  trade_offered_to = none;
  group_id = none;
  group_offered_to = none;
  vehicle_speed = none;
}

abbrev gumballs : Item
gumballs = record { ty = general; id = 119; appearance_id = none; quantity = 3; expiry_time = none }

abbrev stack_of_five : ItemType → ℕ → Outcome ℕ
stack_of_five ty id = ok 5

abbrev gumball_stats : ItemType → ℕ → Outcome ItemStats
gumball_stats ty id =
    ok (record {
      buy_price = 10;
      sell_price = 4;
      sellable = true;
      required_level = 1;
      rarity = none;
    })

abbrev stocked_shopper : Player
stocked_shopper = with_slots shopper inven 2 (some gumballs)

-- Two hundred batteries, of which fifty fit.
buy_batteries-IsBattery_example :
    IsBattery shopper none (buy_batteries 3 2 (record { player = some shopper; buyback = none }))
buy_batteries-IsBattery_example =
    buy_batteries-IsBattery shopper none 3 2 (omega arith, omega arith, omega arith)

shaped_shopper : IsShaped stocked_shopper.inventory
unfolding write_slot
shaped_shopper = (refl, refl, refl, refl)

in_slot : get_item stocked_shopper inven 2 ≡ ok (some gumballs)
unfolding get_item slots slot_limit write_slot
in_slot = refl

sell_item-restore_buy_example :
    (sold : Shopper) × (sell_item gumball_stats 2 3
        (record { player = some stocked_shopper; buyback = none })
      ≡ (ok (1000 + 4 * 3, gumballs, none), sold))
    × (restore_buy gumball_stats (item_to_base (some gumballs)) 2 sold ≡ (
      ok (1000, gumballs),
      record { player = some stocked_shopper; buyback = some (or_default none) },
    ))
unfolding remove_first
sell_item-restore_buy_example =
    sell_item-restore_buy gumball_stats stocked_shopper none 2 gumballs
      (record {
        buy_price = 10;
        sell_price = 4;
        sellable = true;
        required_level = 1;
        rarity = none;
      })
      shaped_shopper refl (omega arith) in_slot
      (omega arith, omega arith, omega arith, (λ a e. absurd (cc e)), λ t e. absurd (cc e)) refl
      refl (omega arith) refl

-- Every slot of an empty location is empty.
get_elem?-replicate :
    (k n : ℕ) (item : Option Item) → get_elem? (replicate k none) n ≡ some item → item ≡ none
get_elem?-replicate zero n item e = cc e
get_elem?-replicate (suc k) zero item e = cc e
get_elem?-replicate (suc k) (suc n) item e = get_elem?-replicate k n item e

empty_slots :
    (location : ItemLocation) (n : ℕ) (item : Option Item)
    → get_item shopper location n ≡ ok item
    → item ≡ none
unfolding get_item slots
empty_slots equip n item e =
    get_elem?-replicate 9 n item (get_item-elem _ shopper.inventory.equipped n item e)
empty_slots inven n item e =
    get_elem?-replicate 50 n item (get_item-elem _ shopper.inventory.main n item e)
empty_slots q_inven n item e = absurd (cc e)
empty_slots bank n item e =
    get_elem?-replicate 119 n item (get_item-elem _ shopper.inventory.bank n item e)

shopper-IsStocked : IsStocked stack_of_five shopper
shopper-IsStocked = (
  (refl, refl, refl, refl),
  λ location n item e. let empty : item ≡ none = empty_slots location n item e in rw empty tt,
)

gumballs-IsStack : IsStack stack_of_five (some gumballs)
gumballs-IsStack = (5, refl, omega arith, omega arith, omega arith)

stocked_shopper-IsStocked : IsStocked stack_of_five stocked_shopper
unfolding slot_limit
stocked_shopper-IsStocked =
    let (old, here, (_, _, stocked, _, _)) =
      written stack_of_five shopper inven 2 (some gumballs) shopper-IsStocked refl (omega arith)
        (λ h. absurd (cc h)) gumballs-IsStack in
    stocked

move_item-IsStocked_example :
    (player' : Player) × (item_from : Option Item) × (item_to : Option Item) × (move_item
        stack_of_five 1 2 3 7
        (record { player = some stocked_shopper; buyback = none })
      ≡ (ok (inven, item_from, bank, item_to), record { player = some player'; buyback = none }))
    × IsStocked stack_of_five player'
    × ((ty : ItemType) (id : ℕ) → owned ty id player' ≡ owned ty id stocked_shopper)
    × (get_item player' bank 7 ≡ ok item_to)
    × ((l : ItemLocation) (n : ℕ)
        → same_slot inven 2 l n ≡ false
        → same_slot bank 7 l n ≡ false
        → get_item player' l n ≡ get_item stocked_shopper l n)
unfolding item_location_from slot_limit
move_item-IsStocked_example =
    move_item-IsStocked stack_of_five stocked_shopper none 1 2 3 7 inven bank
      stocked_shopper-IsStocked refl refl (λ h. absurd (cc h)) (omega arith) refl
      (λ h. absurd (cc h)) (omega arith)

-- The vendor 40 and the shopper 5.
abbrev a_market : ShardState
a_market = record {
  players = λ j. if j == 5 then some shopper else none;
  npcs = λ j.
      if j == 40
      then some (record {
        id = 40;
        ty = 8;
        hp = 400;
        position = record { x = 0; y = 0; z = 0 };
        instance_id = default_instance;
        tight_follow = none;
        group_id = none;
      })
      else none;
  ongoing_trades = λ t. none;
  groups = λ t. none;
  buyback_lists = λ t. none;
  outbox = [];
}

-- Two hundred batteries, of which fifty fit.
vendor_battery_buy-IsExchanged_example :
    (player' : Player) × ((vendor_battery_buy
          (ok 5)
          (λ m. ok tt)
          (λ ty. 40 ∷ [])
          (λ a b. ok tt)
          40
          8
          3
          2
          a_market).1.players
        5
      ≡ some player')
    × IsExchanged shopper player'
vendor_battery_buy-IsExchanged_example =
    vendor_battery_buy-IsExchanged (ok 5) (λ m. ok tt) (λ ty. 40 ∷ []) (λ a b. ok tt) 40 8 3 2
      a_market 5 shopper refl (omega arith, omega arith, omega arith)

-- A vehicle that was bought at a time that is not in whole seconds, and sold.
abbrev hoverboard : Item
hoverboard = record {
  ty = vehicle;
  id = 3;
  appearance_id = none;
  quantity = 1;
  expiry_time = some 1700000000000000005;
}

restore_buy-IsRefused_example :
    IsRefused
      (record { player = some shopper; buyback = some (hoverboard ∷ []) })
      (restore_buy gumball_stats
        (item_to_base (some hoverboard))
        2
        (record { player = some shopper; buyback = some (hoverboard ∷ []) }))
restore_buy-IsRefused_example =
    restore_buy-IsRefused gumball_stats (item_to_base (some hoverboard)) 2 (some shopper)
      (hoverboard ∷ []) (omega arith, tt)
