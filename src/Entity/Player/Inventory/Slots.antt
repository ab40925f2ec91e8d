-- ===== src/Entity/Player/Inventory/Slots.antt =====
-- src/entity/player.rs: what a slot holds after a write, and the first free slot.
use rusty_fusion.Entity.Player.{
  Player, PlayerInventory, sizeof_bank_slot, sizeof_equip_slot, sizeof_inven_slot,
  sizeof_qinven_slot,
}
use rusty_fusion.Entity.Player.Inventory.{
  get_item, get_item_mut, set_item, slot_limit, slots, write_slot,
}
use rusty_fusion.Error.{build, err, guard, ok, unwrap, warning, ◌>>◌}
use rusty_fusion.Item.{Item}
use rusty_fusion.Item.Kind.{ItemLocation, bank, equip, inven, item_location_code, q_inven}
use rusty_fusion.Prelude.{
  Bool, List, Option, arith, get_elem?, get_elem?-lt, get_elem?-set_ne, get_elem?-set_self,
  if◌then◌else◌, is_some, length, length-set, ltb, refl, set, ℕ, ◌&&◌, ◌<◌, ◌==◌, ◌∙◌, ◌≡◌, ◌≢◌,
}

-- Each location has as many slots as the source's arrays.
abbrev pub IsShaped : PlayerInventory → Type 0
IsShaped inventory =
    (length inventory.equipped ≡ sizeof_equip_slot)
    × (length inventory.main ≡ sizeof_inven_slot)
    × (length inventory.bank ≡ sizeof_bank_slot)
    × (length inventory.quest ≡ sizeof_qinven_slot)

unfoldable pub same_slot : ItemLocation → ℕ → ItemLocation → ℕ → Bool
unfolding item_location_code
same_slot location n location' n' =
    item_location_code location == item_location_code location' && (n == n')

abbrev pub with_slots : Player → ItemLocation → ℕ → Option Item → Player
with_slots player location n item = record player {
  inventory = write_slot player.inventory location n item;
}

read_written :
    (items : List (Option Item)) (n n' limit : ℕ) (item : Option Item)
    → length items ≡ limit
    → n < limit
    → (guard (ltb n' limit) (build warning "Bad slot number")
        >> unwrap (get_elem? (set items n item) n'))
      ≡ (if n == n'
          then ok item
          else (guard (ltb n' limit) (build warning "Bad slot number")
              >> unwrap (get_elem? items n')))
read_written items n n' limit item shape h =
    ground (arith, get_elem?-set_self items n item (omega arith), get_elem?-set_ne items n n' item)

get_item-write_slot :
    (player : Player) (location : ItemLocation) (n : ℕ) (item : Option Item)
    → IsShaped player.inventory
    → n < slot_limit location
    → location ≢ q_inven
    → (location' : ItemLocation) (n' : ℕ)
    → get_item (with_slots player location n item) location' n'
      ≡ (if same_slot location n location' n' then ok item else get_item player location' n')
unfolding get_item slots write_slot slot_limit same_slot
get_item-write_slot player equip n item (e, m, b, q) h ne equip n' =
    read_written player.inventory.equipped n n' 9 item e h
get_item-write_slot player equip n item (e, m, b, q) h ne inven n' = refl
get_item-write_slot player equip n item (e, m, b, q) h ne q_inven n' = refl
get_item-write_slot player equip n item (e, m, b, q) h ne bank n' = refl
get_item-write_slot player inven n item (e, m, b, q) h ne equip n' = refl
get_item-write_slot player inven n item (e, m, b, q) h ne inven n' =
    read_written player.inventory.main n n' 50 item m h
get_item-write_slot player inven n item (e, m, b, q) h ne q_inven n' = refl
get_item-write_slot player inven n item (e, m, b, q) h ne bank n' = refl
get_item-write_slot player q_inven n item (e, m, b, q) h ne location' n' = absurd (ne refl)
get_item-write_slot player bank n item (e, m, b, q) h ne equip n' = refl
get_item-write_slot player bank n item (e, m, b, q) h ne inven n' = refl
get_item-write_slot player bank n item (e, m, b, q) h ne q_inven n' = refl
get_item-write_slot player bank n item (e, m, b, q) h ne bank n' =
    read_written player.inventory.bank n n' 119 item b h

pub IsShaped-write_slot :
    (inventory : PlayerInventory) (location : ItemLocation) (n : ℕ) (item : Option Item)
    → IsShaped inventory
    → IsShaped (write_slot inventory location n item)
unfolding write_slot
IsShaped-write_slot inventory equip n item (e, m, b, q) =
    (length-set inventory.equipped n item ∙ e, m, b, q)
IsShaped-write_slot inventory inven n item (e, m, b, q) =
    (e, length-set inventory.main n item ∙ m, b, q)
IsShaped-write_slot inventory q_inven n item shape = shape
IsShaped-write_slot inventory bank n item (e, m, b, q) =
    (e, m, length-set inventory.bank n item ∙ b, q)

in_range :
    (items : List (Option Item)) (n limit : ℕ)
    → length items ≡ limit
    → n < limit
    → (old : Option Item) × ((guard (ltb n limit) (build warning "Bad slot number")
          >> unwrap (get_elem? items n))
        ≡ ok old)
in_range items n limit shape h =
    let (old, e) = get_elem?-lt items n (omega arith) in (old, ground arith)

pub get_item-in_range :
    (player : Player) (location : ItemLocation) (n : ℕ)
    → IsShaped player.inventory
    → n < slot_limit location
    → location ≢ q_inven
    → (old : Option Item) × (get_item player location n ≡ ok old)
unfolding get_item slots slot_limit
get_item-in_range player equip n (e, m, b, q) h ne = in_range player.inventory.equipped n 9 e h
get_item-in_range player inven n (e, m, b, q) h ne = in_range player.inventory.main n 50 m h
get_item-in_range player q_inven n shape h ne = absurd (ne refl)
get_item-in_range player bank n (e, m, b, q) h ne = in_range player.inventory.bank n 119 b h

-- Inside an inventory with slot numbers, `set_item` is refused exactly when a trade is going on and the
-- slot holds an item. Otherwise it returns what the slot held, the inventories keep their sizes,
-- the slot then holds the new item, and every other slot of every location what it held.
pub get_item-set_item :
    (player : Player) (location : ItemLocation) (n : ℕ) (item : Option Item)
    → IsShaped player.inventory
    → n < slot_limit location
    → location ≢ q_inven
    → (old : Option Item) × (get_item player location n ≡ ok old)
      × (set_item player location n item ≡ (
          if is_some old && is_some player.trade_id
          then err (build warning "Can't mutate inventory. Player trading")
          else ok (with_slots player location n item, old)))
      × (IsShaped (with_slots player location n item).inventory)
      × ((location' : ItemLocation) (n' : ℕ)
          → get_item (with_slots player location n item) location' n'
            ≡ (if same_slot location n location' n' then ok item else get_item player location' n'))
unfolding set_item get_item_mut
get_item-set_item player location n item shape h ne =
    let (old, e) = get_item-in_range player location n shape h ne in
    (
      old,
      e,
      ground (arith, e),
      IsShaped-write_slot player.inventory location n item shape,
      get_item-write_slot player location n item shape h ne,
    )
