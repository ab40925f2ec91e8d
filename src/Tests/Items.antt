-- ===== src/Tests/Items.antt =====
-- Runs of src/item.rs and of the inventories of src/entity/player.rs.
use rusty_fusion.Entity.Id.{default_instance}
use rusty_fusion.Entity.Player.{Player, empty_inventory, get_player_id}
use rusty_fusion.Entity.Player.Inventory.{
  find_free_slot, get_free_slots, get_item, get_quest_item_count, set_item, set_quest_item_count,
  slot_limit,
}
use rusty_fusion.Entity.Player.Inventory.FreeSlots.{find_free_slot-get_item}
use rusty_fusion.Entity.Player.Inventory.QuestItems.{
  entries, free_before, get_quest_item_count-set_quest_item_count,
}
use rusty_fusion.Entity.Player.Inventory.Slots.{IsShaped, get_item-set_item, same_slot, with_slots}
use rusty_fusion.Error.{Outcome, build, err, ok, warning, ◌>>=◌}
use rusty_fusion.Item.{Item, base_to_item, item_to_base, split_items, transfer_items}
use rusty_fusion.Item.Kind.{ItemLocation, ItemType, bank, general, inven, q_inven, vehicle}
use rusty_fusion.Item.Stacks.{IsStack, count, split_items-count, transfer_items-count}
use rusty_fusion.Item.Wire.{base_to_item-item_to_base}
use rusty_fusion.Prelude.{
  Option, arith, if◌then◌else◌, is_some, min, none, refl, replicate, some, ℕ, ◌&&◌, ◌+◌, ◌<◌, ◌==◌,
  ◌∷◌, ◌≡◌, ◌≢◌,
}
use rusty_fusion.Util.Time.{get_systime_from_sec}

abbrev gumballs : Item
gumballs = record { ty = general; id = 119; appearance_id = none; quantity = 7; expiry_time = none }

abbrev board : Item
board = record {
  ty = vehicle;
  id = 1;
  appearance_id = some 40000;
  quantity = 1;
  expiry_time = some 1700000000000000000;
}

abbrev limit_of : ItemType → ℕ → Outcome ℕ
limit_of ty id = ok 10

split_items-count_example :
    (count general 119 (split_items (some gumballs) 3).0
        + count general 119 (split_items (some gumballs) 3).1
      ≡ count general 119 (some gumballs))
    × (count general 119 (split_items (some gumballs) 3).1
        ≡ min 3 (count general 119 (some gumballs)))
split_items-count_example = split_items-count (some gumballs) 3 general 119

transfer_items-count_example :
    (from' to' : Option Item) × (transfer_items limit_of (some gumballs) (some gumballs)
      ≡ ok (from', to'))
    × (IsStack limit_of from')
    × (IsStack limit_of to')
    × ((ty : ItemType) (id : ℕ)
        → count ty id from' + count ty id to'
          ≡ count ty id (some gumballs) + count ty id (some gumballs))
transfer_items-count_example =
    transfer_items-count limit_of (some gumballs) (some gumballs)
      (10, refl, omega arith, omega arith, omega arith)
      (10, refl, omega arith, omega arith, omega arith)

base_to_item-item_to_base_example : base_to_item (item_to_base (some board)) ≡ ok (some board)
unfolding get_systime_from_sec
base_to_item-item_to_base_example = base_to_item-item_to_base board (
  omega arith,
  omega arith,
  omega arith,
  λ appearance e. ground (arith, e),
  λ time e. (1700000000, cc e, omega arith, omega arith),
)

abbrev fresh_player : Player
fresh_player = record {
  id = some 5;
  uid = 77;
  perms = 99;
  level = 1;
  hp = 400;
  taros = 100;
  fusion_matter = 0;
  nano_potions = 0;
  weapon_boosts = 0;
  inventory = empty_inventory;
  position = record { x = 0; y = 0; z = 0 };
  instance_id = default_instance;
  trade_id = none;
  trade_offered_to = none;
  group_id = none;
  group_offered_to = none;
  vehicle_speed = none;
}

abbrev shaped : IsShaped empty_inventory
shaped = (refl, refl, refl, refl)

get_item-set_item_example :
    (old : Option Item) × (get_item fresh_player bank 7 ≡ ok old)
    × (set_item fresh_player bank 7 (some board) ≡ (
        if is_some old && is_some fresh_player.trade_id
        then err (build warning "Can't mutate inventory. Player trading")
        else ok (with_slots fresh_player bank 7 (some board), old)))
    × (IsShaped (with_slots fresh_player bank 7 (some board)).inventory)
    × ((location' : ItemLocation) (n' : ℕ)
        → get_item (with_slots fresh_player bank 7 (some board)) location' n' ≡ (
            if same_slot bank 7 location' n'
            then ok (some board)
            else get_item fresh_player location' n'))
unfolding slot_limit
get_item-set_item_example =
    get_item-set_item fresh_player bank 7 (some board) shaped (omega arith) (λ h. cc h)

find_free_slot-get_item_example :
    (0 < get_free_slots fresh_player inven
      → (n : ℕ) × (find_free_slot fresh_player inven ≡ ok n)
        × (n < slot_limit inven)
        × (get_item fresh_player inven n ≡ ok none)
        × ((m : ℕ) → m < n → (item : Item) × (get_item fresh_player inven m ≡ ok (some item))))
    × (get_free_slots fresh_player inven ≡ 0
        → find_free_slot fresh_player inven
          ≡ (get_player_id fresh_player >>= λ _. err (build warning "Player has no free slots")))
find_free_slot-get_item_example = find_free_slot-get_item fresh_player inven shaped (λ h. cc h)

-- A quest item whose entry stands behind a free slot.
abbrev quest_player : Player
quest_player = record fresh_player {
  inventory = record empty_inventory { quest = none ∷ some (9, 2) ∷ replicate 48 none };
}

get_quest_item_count-set_quest_item_count_example :
    (0 < get_free_slots quest_player q_inven + entries quest_player.inventory.quest 9
      → (player' : Player) × (idx : ℕ) × (set_quest_item_count quest_player 9 0 ≡ ok (player', idx))
        × (get_quest_item_count player' 9 ≡ (
            if 0 == 0 && free_before quest_player.inventory.quest 9
            then get_quest_item_count quest_player 9
            else 0))
        × (entries player'.inventory.quest 9
            ≡ (if free_before quest_player.inventory.quest 9
                then entries quest_player.inventory.quest 9
                else 0)
              + (if 0 == 0 then 0 else 1))
        × ((other : ℕ)
            → other ≢ 9
            → get_quest_item_count player' other ≡ get_quest_item_count quest_player other))
    × (get_free_slots quest_player q_inven + entries quest_player.inventory.quest 9 ≡ 0
        → set_quest_item_count quest_player 9 0
          ≡ (get_player_id quest_player >>= λ _. err (build warning "No free quest item slots")))
get_quest_item_count-set_quest_item_count_example =
    get_quest_item_count-set_quest_item_count quest_player 9 0 (omega arith)
