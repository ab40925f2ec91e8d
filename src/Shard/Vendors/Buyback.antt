-- ===== src/Shard/Vendors/Buyback.antt =====
-- src/bin/shard/item.rs: what is sold can be bought back.
use rusty_fusion.Entity.Player.{Player, sizeof_inven_slot}
use rusty_fusion.Entity.Player.Inventory.{get_item, set_item, slot_limit, write_slot}
use rusty_fusion.Entity.Player.Inventory.Contents.{get_item-main}
use rusty_fusion.Entity.Player.Inventory.Slots.{IsShaped, get_item-set_item, same_slot, with_slots}
use rusty_fusion.Entity.Player.Stats.{pc_candy_max, set_taros}
use rusty_fusion.Error.{Outcome, ok}
use rusty_fusion.Item.{Item, ItemStats, item_to_base, split_items}
use rusty_fusion.Item.Kind.{ItemLocation, ItemType, inven, same_type}
use rusty_fusion.Item.Wire.{IsWire, base_to_item-item_to_base}
use rusty_fusion.Prelude.{
  Bool-cases, List, Option, [], ap, arith, get_elem?, inl, inr, leb, ltb, none, refl, set, some,
  suc, true, zero, ℕ, ◌%◌, ◌*◌, ◌++◌, ◌+◌, ◌-◌, ◌<◌, ◌^◌, ◌∙◌, ◌∷◌, ◌≡◌, ◌≤◌,
}
use rusty_fusion.Shard.Shopper.{Shopper, put_item, put_item_unwrap}
use rusty_fusion.Shard.Vendors.{
  equal_items, keeping, or_default, remove_first, restore_buy, same_field, sell_item,
}
use rusty_fusion.Util.Clamp.{clamp}

same_field_refl : (o : Option ℕ) → same_field o o ≡ true
unfolding same_field
same_field_refl none = refl
same_field_refl (some a) = ground arith

equal_items_refl : (item : Item) → equal_items item item ≡ true
unfolding equal_items same_type
equal_items_refl item =
    ground (arith, same_field_refl item.appearance_id, same_field_refl item.expiry_time)

remove_first-append :
    (item : Item) (items : List Item)
    → remove_first item items ≡ none
    → remove_first item (items ++ (item ∷ [])) ≡ some items
unfolding remove_first
remove_first-append item [] e = rw (equal_items_refl item) refl
remove_first-append item (list_item ∷ items) e = elim (Bool-cases (equal_items list_item item)) [
  | inl same ↦ absurd (cc (rw same at e))
  | inr other ↦
      rw (other, remove_first-append item items (absent (remove_first item items) (rw other at e)))
        refl
]
  where
    absent : (o : Option (List Item)) → keeping list_item o ≡ none → o ≡ none
    absent none e = refl
    absent (some items) e = cc e

set-set : (xs : List (Option Item)) (n : ℕ) (a b : Option Item) → set (set xs n a) n b ≡ set xs n b
set-set [] n a b = refl
set-set (x ∷ xs) zero a b = refl
set-set (x ∷ xs) (suc n) a b = ap (λ ys. x ∷ ys) (set-set xs n a b)

set-same :
    (xs : List (Option Item)) (n : ℕ) (a : Option Item) → get_elem? xs n ≡ some a → set xs n a ≡ xs
set-same [] n a e = refl
set-same (x ∷ xs) zero a e = cc e
set-same (x ∷ xs) (suc n) a e = ap (λ ys. x ∷ ys) (set-same xs n a e)

split_items-all :
    (item : Item) → 0 < item.quantity → split_items (some item) item.quantity ≡ (none, some item)
unfolding split_items
split_items-all item pos = ground arith

-- A write by a player who does not trade.
sets :
    (player : Player) (n : ℕ) (old item : Option Item)
    → IsShaped player.inventory
    → player.trade_id ≡ none
    → n < sizeof_inven_slot
    → get_item player inven n ≡ ok old
    → (set_item player inven n item ≡ ok (with_slots player inven n item, old))
      × IsShaped (with_slots player inven n item).inventory
      × (get_item (with_slots player inven n item) inven n ≡ ok item)
unfolding slot_limit same_slot
sets player n old item shape free h here =
    let (old', here', is_set, shape', gets) =
      get_item-set_item player inven n item shape h (λ e. absurd (cc e)) in
    let same : old' ≡ old = cc (here, here') in
    (ground (arith, is_set, free, same), shape', ground (arith, gets inven n))

get_item-taros :
    (player : Player) (taros : ℕ) (location : ItemLocation) (n : ℕ)
    → get_item (record player { taros = taros }) location n ≡ get_item player location n
unfolding get_item
get_item-taros player taros location n = refl

-- The three writes of a sale and a purchase back leave the inventory as it was.
restored :
    (player : Player) (n : ℕ) (item : Option Item)
    → get_item player inven n ≡ ok item
    → write_slot (write_slot (write_slot player.inventory inven n none) inven n none) inven n item
      ≡ player.inventory
unfolding write_slot
restored player n item here =
    let back_again : set (set (set player.inventory.main n none) n none) n item
        ≡ player.inventory.main =
      set-set (set player.inventory.main n none) n none item
      ∙ set-set player.inventory.main n none item
      ∙ set-same player.inventory.main n item (get_item-main player n item here) in
    rw back_again refl

module _ (get_item_stats : ItemType → ℕ → Outcome ItemStats) where
  -- A player with inventories of their sizes and no trade sells the whole stack of a slot. The item is
  -- sellable and one that the wire form can hold: its id is not zero, its quantity and its appearance, if
  -- it has one, have 16 bits and are not zero, and its expiry, if it has one, is in whole seconds, not
  -- zero and below 2^31. The price does not take the player above the limit of taros, and no item equal
  -- to it is in the list of sold items. Then the sale succeeds, buying the item back into the slot
  -- succeeds, and the player and the list of sold items are as before.
  pub sell_item-restore_buy :
      (player : Player) (buyback : Option (List Item)) (slot_num : ℕ) (item : Item)
      (stats : ItemStats)
      → IsShaped player.inventory
      → player.trade_id ≡ none
      → slot_num < sizeof_inven_slot
      → get_item player inven slot_num ≡ ok (some item)
      → IsWire item
      → get_item_stats item.ty item.id ≡ ok stats
      → stats.sellable ≡ true
      → player.taros + stats.sell_price * item.quantity ≤ pc_candy_max
      → remove_first item (or_default buyback) ≡ none
      → (sold : Shopper) × (sell_item get_item_stats slot_num item.quantity
            (record { player = some player; buyback = buyback })
          ≡ (ok (player.taros + stats.sell_price * item.quantity, item, none), sold))
        × (restore_buy get_item_stats (item_to_base (some item)) slot_num sold ≡ (
          ok (player.taros, item),
          record { player = some player; buyback = some (or_default buyback) },
        ))
  unfolding sell_item restore_buy put_item put_item_unwrap set_taros clamp
  sell_item-restore_buy player buyback slot_num item stats shape free h here wire priced sellable
        rich fresh =
      let total = player.taros + stats.sell_price * item.quantity in
      let price = stats.sell_price * item.quantity in
      let p1 = with_slots player inven slot_num none in
      let p2 = with_slots p1 inven slot_num none in
      let p3 : Player = record p2 { taros = total } in
      let (set1, shape1, here1) = sets player slot_num (some item) none shape free h here in
      let (set2, shape2, here2) = sets p1 slot_num none none shape1 free h here1 in
      let (set4, shape4, here4) =
        sets p3 slot_num none (some item) shape2 free h
          (get_item-taros p2 total inven slot_num ∙ here2) in
      let (_, pos, small, _, _) = wire in
      let whole : item.quantity % 2 ^ 16 ≡ item.quantity = omega (arith, small) in
      let earned : clamp ltb ((player.taros + price % 2 ^ 32) % 2 ^ 32) 0 pc_candy_max ≡ total =
        ground (arith, rich) in
      let affordable : leb (price % 2 ^ 32) total ≡ true = ground (arith, rich) in
      let left : clamp ltb (total - price % 2 ^ 32) 0 pc_candy_max ≡ player.taros =
        ground (arith, rich) in
      (
        record { player = some p3; buyback = some (or_default buyback ++ (item ∷ [])) },
        rw (here, priced, sellable, set1, whole, split_items-all item pos, set2, earned) refl,
        rw
            (
              base_to_item-item_to_base item wire,
              remove_first-append item (or_default buyback) fresh,
              priced,
              affordable,
              set4,
              left,
              restored player slot_num (some item) here,
            )
            refl,
      )
