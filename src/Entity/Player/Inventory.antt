-- ===== src/Entity/Player/Inventory.antt =====
-- src/entity/player.rs: the inventories of a player by location and slot, and the quest items.
pub mod Slots
pub mod Contents
pub mod QuestItems
pub mod FreeSlots
use rusty_fusion.Entity.Player.{
  Player, PlayerInventory, get_player_id, sizeof_bank_slot, sizeof_equip_slot, sizeof_inven_slot,
  sizeof_qinven_slot,
}
use rusty_fusion.Error.{Outcome, build, err, guard, ok, panics, unwrap, warning, ◌>>=◌, ◌>>◌}
use rusty_fusion.Item.{Item}
use rusty_fusion.Item.Kind.{ItemLocation, bank, equip, inven, q_inven}
use rusty_fusion.Prelude.{
  Bool, List, Option, [], get_elem?, if◌then◌else◌, is_some, ltb, none, not, set, some, suc, ℕ,
  ◌&&◌, ◌+◌, ◌==◌, ◌∷◌,
}

-- The slots of a location; quest items have no slot numbers, so asking for them panics.
unfoldable pub slots : PlayerInventory → ItemLocation → Outcome (List (Option Item))
slots inventory equip = ok inventory.equipped
slots inventory inven = ok inventory.main
slots inventory q_inven = panics
slots inventory bank = ok inventory.bank

unfoldable pub slot_limit : ItemLocation → ℕ
slot_limit equip = sizeof_equip_slot
slot_limit inven = sizeof_inven_slot
slot_limit q_inven = sizeof_qinven_slot
slot_limit bank = sizeof_bank_slot

-- A write through the reference that `get_item_mut` returns.
unfoldable pub write_slot : PlayerInventory → ItemLocation → ℕ → Option Item → PlayerInventory
write_slot inventory equip n item = record inventory { equipped = set inventory.equipped n item }
write_slot inventory inven n item = record inventory { main = set inventory.main n item }
write_slot inventory q_inven n item = inventory
write_slot inventory bank n item = record inventory { bank = set inventory.bank n item }

unfoldable pub get_item : Player → ItemLocation → ℕ → Outcome (Option Item)
get_item player location slot_num = do
  items ← slots player.inventory location
  guard (ltb slot_num (slot_limit location)) (build warning "Bad slot number")
  unwrap (get_elem? items slot_num)

-- The slot that the reference stands for. During a trade only an empty slot is given out.
unfoldable pub get_item_mut : Player → ItemLocation → ℕ → Outcome (Option Item)
get_item_mut player location slot_num = do
  slot ← get_item player location slot_num
  guard (not (is_some slot && is_some player.trade_id))
      (build warning "Can't mutate inventory. Player trading")
  ok slot

unfoldable pub set_item : Player → ItemLocation → ℕ → Option Item → Outcome (Player × Option Item)
set_item player location slot_num item = do
  old_item ← get_item_mut player location slot_num
  ok (record player { inventory = write_slot player.inventory location slot_num item }, old_item)

abbrev pub count_none {ℓ} : {A : Type ℓ} → List (Option A) → ℕ
count_none [] = 0
count_none (none ∷ items) = suc (count_none items)
count_none (some _ ∷ items) = count_none items

unfoldable pub get_free_slots : Player → ItemLocation → ℕ
get_free_slots player equip = count_none player.inventory.equipped
get_free_slots player inven = count_none player.inventory.main
get_free_slots player q_inven = count_none player.inventory.quest
get_free_slots player bank = count_none player.inventory.bank

first_none : List (Option Item) → ℕ → Option ℕ
first_none [] slot_num = none
first_none (none ∷ items) slot_num = some slot_num
first_none (some _ ∷ items) slot_num = first_none items (slot_num + 1)

-- The message of the error names the player, who must have an id.
no_free_slot : Player → Option ℕ → Outcome ℕ
no_free_slot player (some slot_num) = ok slot_num
no_free_slot player none = do
  _ ← get_player_id player
  err (build warning "Player has no free slots")

unfoldable pub find_free_slot : Player → ItemLocation → Outcome ℕ
unfolding first_none no_free_slot
find_free_slot player location = do
  items ← slots player.inventory location
  no_free_slot player (first_none items 0)

matching : (Item → Bool) → List (Option Item) → ℕ → List ℕ
matching f [] slot_num = []
matching f (none ∷ items) slot_num = matching f items (slot_num + 1)
matching f (some item ∷ items) slot_num =
    let rest = matching f items (slot_num + 1) in if f item then slot_num ∷ rest else rest

unfoldable pub find_items : Player → ItemLocation → (Item → Bool) → Outcome (List ℕ)
unfolding matching
find_items player location f = do items ← slots player.inventory location; ok (matching f items 0)

first_count : List (Option (ℕ × ℕ)) → ℕ → ℕ
first_count [] item_id = 0
first_count (none ∷ qitems) item_id = first_count qitems item_id
first_count (some (qitem_id, n) ∷ qitems) item_id =
    if qitem_id == item_id then n else first_count qitems item_id

unfoldable pub get_quest_item_count : Player → ℕ → ℕ
unfolding first_count
get_quest_item_count player item_id = first_count player.inventory.quest item_id

behind : Option (ℕ × ℕ) → Option (List (Option (ℕ × ℕ)) × ℕ) → Option (List (Option (ℕ × ℕ)) × ℕ)
behind qitem none = none
behind qitem (some (qitems, idx)) = some (qitem ∷ qitems, idx)

-- The first slot that is free or holds the item is written.
write_quest : List (Option (ℕ × ℕ)) → ℕ → Option (ℕ × ℕ) → ℕ → Option (List (Option (ℕ × ℕ)) × ℕ)
unfolding behind
write_quest [] item_id new_qitem idx = none
write_quest (none ∷ qitems) item_id new_qitem idx = some (new_qitem ∷ qitems, idx)
write_quest (some (qitem_id, n) ∷ qitems) item_id new_qitem idx =
    let rest = write_quest qitems item_id new_qitem (idx + 1) in
    if qitem_id == item_id then some (new_qitem ∷ qitems, idx) else behind (some (qitem_id, n)) rest

no_free_quest_slot : Player → Option (List (Option (ℕ × ℕ)) × ℕ) → Outcome (Player × ℕ)
no_free_quest_slot player (some (qitems, idx)) =
    ok (record player { inventory = record player.inventory { quest = qitems } }, idx)
no_free_quest_slot player none = do
  _ ← get_player_id player
  err (build warning "No free quest item slots")

unfoldable pub set_quest_item_count : Player → ℕ → ℕ → Outcome (Player × ℕ)
unfolding write_quest no_free_quest_slot
set_quest_item_count player item_id n =
    let new_qitem = if n == 0 then none else some (item_id, n) in
    no_free_quest_slot player (write_quest player.inventory.quest item_id new_qitem 0)
