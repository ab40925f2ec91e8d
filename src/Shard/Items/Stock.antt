-- ===== src/Shard/Items/Stock.antt =====
-- src/bin/shard/item.rs: what a player owns, and what a write of a slot changes of it.
use rusty_fusion.Entity.Player.{Player}
use rusty_fusion.Entity.Player.Inventory.{get_item, set_item, slot_limit, slots, write_slot}
use rusty_fusion.Entity.Player.Inventory.Contents.{held, held-set}
use rusty_fusion.Entity.Player.Inventory.Slots.{IsShaped, get_item-set_item, same_slot, with_slots}
use rusty_fusion.Error.{Outcome, build, guard, ok, unwrap, warning, ◌>>◌}
use rusty_fusion.Error.Results.{>>=-ok, unwrap-ok}
use rusty_fusion.Item.{Item}
use rusty_fusion.Item.Kind.{ItemLocation, ItemType, bank, equip, inven, q_inven}
use rusty_fusion.Item.Stacks.{IsStack, count}
use rusty_fusion.Prelude.{
  Bool, List, Option, arith, false, get_elem?, if◌then◌else◌, ltb, none, refl, some, sym, true, ℕ,
  ◌+◌, ◌<◌, ◌≡◌, ◌≢◌,
}

-- How many items of a kind a player has in the locations with slot numbers.
abbrev pub owned : ItemType → ℕ → Player → ℕ
owned ty id player =
    held ty id player.inventory.equipped
    + held ty id player.inventory.main
    + held ty id player.inventory.bank

-- Every location has its size, and every slot is empty or holds a stack within its limit.
abbrev pub IsStocked : (ItemType → ℕ → Outcome ℕ) → Player → Type 0
IsStocked m player =
    IsShaped player.inventory
    × ((location : ItemLocation) (n : ℕ) (item : Option Item)
        → get_item player location n ≡ ok item
        → IsStack m item)

pub get_item-elem :
    (limit : ℕ) (items : List (Option Item)) (n : ℕ) (old : Option Item)
    → (guard (ltb n limit) (build warning "Bad slot number") >> unwrap (get_elem? items n)) ≡ ok old
    → get_elem? items n ≡ some old
get_item-elem limit items n old h =
    let (u, _, e) = >>=-ok (guard (ltb n limit) (build warning "Bad slot number")) _ _ h in
    unwrap-ok (get_elem? items n) old e

owned-with_slots :
    (ty : ItemType) (id : ℕ) (player : Player) (location : ItemLocation) (n : ℕ)
    (old item : Option Item)
    → get_item player location n ≡ ok old
    → owned ty id (with_slots player location n item) + count ty id old
      ≡ owned ty id player + count ty id item
unfolding get_item slots write_slot
owned-with_slots ty id player equip n old item h = omega (
  arith,
  held-set ty id player.inventory.equipped n old item
      (get_item-elem _ player.inventory.equipped n old h),
)
owned-with_slots ty id player inven n old item h = omega (
  arith,
  held-set ty id player.inventory.main n old item (get_item-elem _ player.inventory.main n old h),
)
owned-with_slots ty id player q_inven n old item h = absurd (cc h)
owned-with_slots ty id player bank n old item h = omega (
  arith,
  held-set ty id player.inventory.bank n old item (get_item-elem _ player.inventory.bank n old h),
)

module _ (m : ItemType → ℕ → Outcome ℕ) where
  -- What a write does to a stocked player who does not trade.
  abbrev pub IsWritten : Player → ItemLocation → ℕ → Option Item → Option Item → Type 0
  IsWritten player location n item old =
      (set_item player location n item ≡ ok (with_slots player location n item, old))
      × IsStack m old
      × IsStocked m (with_slots player location n item)
      × ((ty : ItemType) (id : ℕ)
          → owned ty id (with_slots player location n item) + count ty id old
            ≡ owned ty id player + count ty id item)
      × ((location' : ItemLocation) (n' : ℕ)
          → get_item (with_slots player location n item) location' n'
            ≡ (if same_slot location n location' n' then ok item else get_item player location' n'))

  pub written :
      (player : Player) (location : ItemLocation) (n : ℕ) (item : Option Item)
      → IsStocked m player
      → player.trade_id ≡ none
      → n < slot_limit location
      → location ≢ q_inven
      → IsStack m item
      → (old : Option Item) × (get_item player location n ≡ ok old)
        × IsWritten player location n item old
  written player location n item (shape, stacks) free h ne stack =
      let (old, here, sets, shape', gets) = get_item-set_item player location n item shape h ne in
      (
        old,
        here,
        (
          ground (arith, sets, free),
          stacks location n old here,
          (shape', λ l k i e. kept gets l k i e (same_slot location n l k) refl),
          (λ ty id. owned-with_slots ty id player location n old item here),
          gets,
        ),
      )
    where
      kept :
          ((location' : ItemLocation) (n' : ℕ)
            → get_item (with_slots player location n item) location' n' ≡ (
                if same_slot location n location' n'
                then ok item
                else get_item player location' n'))
          → (l : ItemLocation) (k : ℕ) (i : Option Item)
          → get_item (with_slots player location n item) l k ≡ ok i
          → (b : Bool) → same_slot location n l k ≡ b
          → IsStack m i
      kept gets l k i e true same =
          let it : item ≡ i = ground (arith, gets l k, e, same) in rw (sym it) stack
      kept gets l k i e false same = stacks l k i (ground (arith, gets l k, e, same))
