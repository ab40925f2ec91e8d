-- ===== src/Shard/Items/Moving.antt =====
-- src/bin/shard/item.rs, `item_move`: what a player owns is kept.
use rusty_fusion.Entity.Player.{Player}
use rusty_fusion.Entity.Player.Inventory.{get_item, slot_limit}
use rusty_fusion.Entity.Player.Inventory.Slots.{same_slot, with_slots}
use rusty_fusion.Error.{Outcome, ok}
use rusty_fusion.Item.{Item, transfer_items}
use rusty_fusion.Item.Kind.{ItemLocation, ItemType, item_location_from, q_inven}
use rusty_fusion.Item.Stacks.{count, count-none, transfer_items-count}
use rusty_fusion.Prelude.{
  Bool, List, Option, arith, false, if◌then◌else◌, none, refl, some, sym, true, ℕ, ◌<◌, ◌∙◌, ◌≡◌,
  ◌≢◌,
}
use rusty_fusion.Shard.Items.{move_item}
use rusty_fusion.Shard.Items.Stock.{IsStocked, owned, written}
use rusty_fusion.Shard.Shopper.{put_item}

same_slot_refl : (l : ItemLocation) (n : ℕ) → same_slot l n l n ≡ true
unfolding same_slot
same_slot_refl l n = ground arith

-- A transfer to an empty slot leaves the other one empty.
transfer_items-empty :
    (m : ItemType → ℕ → Outcome ℕ) (from from' to' : Option Item)
    → transfer_items m from none ≡ ok (from', to')
    → from' ≡ none
unfolding transfer_items
transfer_items-empty m none from' to' e = cc e
transfer_items-empty m (some item) from' to' e = cc e

-- A slot that is read after it was emptied, and another write, or none, of an empty slot.
emptied :
    (b : Bool) (o : Outcome (Option Item)) (old : Option Item)
    → o ≡ ok none
    → (if b then ok none else o) ≡ ok old
    → old ≡ none
emptied true o old e h = cc h
emptied false o old e h = cc (e, h)

-- The target slot is empty before the last write: it was emptied, and if it is the slot that was moved
-- from then nothing was put back there.
target_empty :
    (m : ItemType → ℕ → Outcome ℕ) (old1 old2 from' to' old4 : Option Item)
    (read1 read2 other : Outcome (Option Item)) (b : Bool)
    → read1 ≡ (if b then ok none else other)
    → read1 ≡ ok old2
    → transfer_items m old1 old2 ≡ ok (from', to')
    → read2 ≡ ok none
    → (if b then ok from' else read2) ≡ ok old4
    → old4 ≡ none
target_empty m old1 old2 from' to' old4 read1 read2 other true empty2 here2 transfers empty4 here4 =
    let no2 : old2 ≡ none = cc (empty2, here2) in
    let nofrom : from' ≡ none = transfer_items-empty m old1 from' to' (rw no2 at transfers) in
    cc (nofrom, here4)
target_empty m old1 old2 from' to' old4 read1 read2 other false empty2 here2 transfers empty4
      here4 =
    cc (empty4, here4)

module _ (m : ItemType → ℕ → Outcome ℕ) where
  -- A player who does not trade moves an item between two slots, which may be the same. The request
  -- succeeds, the player owns as much of every kind as before, every slot still holds nothing or a
  -- stack within its limit, and all other slots hold what they held.
  pub move_item-IsStocked :
      (player : Player) (buyback : Option (List Item)) (e_from n_from e_to n_to : ℕ)
      (location_from location_to : ItemLocation)
      → IsStocked m player
      → player.trade_id ≡ none
      → item_location_from e_from ≡ ok location_from
      → location_from ≢ q_inven
      → n_from < slot_limit location_from
      → item_location_from e_to ≡ ok location_to
      → location_to ≢ q_inven
      → n_to < slot_limit location_to
      → (player' : Player) × (item_from : Option Item) × (item_to : Option Item) × (move_item m
            e_from n_from e_to n_to
            (record { player = some player; buyback = buyback })
          ≡ (
            ok (location_from, item_from, location_to, item_to),
            record { player = some player'; buyback = buyback },
          ))
        × IsStocked m player'
        × ((ty : ItemType) (id : ℕ) → owned ty id player' ≡ owned ty id player)
        × (get_item player' location_to n_to ≡ ok item_to)
        × ((l : ItemLocation) (n : ℕ)
            → same_slot location_from n_from l n ≡ false
            → same_slot location_to n_to l n ≡ false
            → get_item player' l n ≡ get_item player l n)
  unfolding move_item put_item
  move_item-IsStocked player buyback e_from n_from e_to n_to lf lt stocked free is_from ne_from
        in_from is_to ne_to in_to =
      let (old1, here1, (set1, stack1, stocked1, owned1, gets1)) =
        written m player lf n_from none stocked free in_from ne_from tt in
      let p1 = with_slots player lf n_from none in
      let (old2, here2, (set2, stack2, stocked2, owned2, gets2)) =
        written m p1 lt n_to none stocked1 free in_to ne_to tt in
      let p2 = with_slots p1 lt n_to none in
      let (from', to', transfers, stack3, stack4, counts) =
        transfer_items-count m old1 old2 stack1 stack2 in
      let (old3, here3, (set3, _, stocked3, owned3, gets3)) =
        written m p2 lf n_from from' stocked2 free in_from ne_from stack3 in
      let p3 = with_slots p2 lf n_from from' in
      let (old4, here4, (set4, _, stocked4, owned4, gets4)) =
        written m p3 lt n_to to' stocked3 free in_to ne_to stack4 in
      let p4 = with_slots p3 lt n_to to' in
      let gone1 : get_item p1 lf n_from ≡ ok none =
        gets1 lf n_from ∙ rw (same_slot_refl lf n_from) refl in
      let gone3 : old3 ≡ none =
        emptied (same_slot lt n_to lf n_from) (get_item p1 lf n_from) old3 gone1
          (sym (gets2 lf n_from) ∙ here3) in
      let gone4 : old4 ≡ none =
        target_empty m old1 old2 from' to' old4 _ _ _ (same_slot lf n_from lt n_to) (gets1 lt n_to)
          here2 transfers (gets2 lt n_to ∙ rw (same_slot_refl lt n_to) refl)
          (sym (gets3 lt n_to) ∙ here4) in
      (
        p4,
        from',
        to',
        rw is_from (rw set1 (rw is_to (rw set2 (rw transfers (rw set3 (rw set4 refl)))))),
        stocked4,
        (λ ty id.
            let none3 : count ty id old3 ≡ 0 = rw gone3 (count-none ty id) in
            let none4 : count ty id old4 ≡ 0 = rw gone4 (count-none ty id) in
            omega (
              arith,
              owned1 ty id,
              owned2 ty id,
              owned3 ty id,
              owned4 ty id,
              counts ty id,
              count-none ty id,
            )),
        (gets4 lt n_to ∙ rw (same_slot_refl lt n_to) refl),
        λ l n other other'.
            gets4 l n
            ∙ rw other' (gets3 l n ∙ rw other (gets2 l n ∙ rw other' (gets1 l n ∙ rw other refl))),
      )
