-- ===== src/Trade/Success.antt =====
-- src/trade.rs: when the items of an offer can be moved.
use rusty_fusion.Entity.Player.{Player}
use rusty_fusion.Entity.Player.Inventory.{
  count_none, get_free_slots, get_item, get_item_mut, set_item, slot_limit, slots, write_slot,
}
use rusty_fusion.Entity.Player.Inventory.Contents.{get_item-main}
use rusty_fusion.Entity.Player.Inventory.FreeSlots.{find_free_slot-get_item, get_item-slots}
use rusty_fusion.Entity.Player.Inventory.Slots.{IsShaped, IsShaped-write_slot}
use rusty_fusion.Error.{ok}
use rusty_fusion.Item.{Item, split_items}
use rusty_fusion.Item.Kind.{inven, item_type_code}
use rusty_fusion.Prelude.{
  List, Option, [], arith, get_elem?, get_elem?-set_ne, inl, inr, min, none, refl, set, some, suc,
  zero, ℕ, ◌<◌, ◌∙◌, ◌∷◌, ◌≡◌, ◌≢◌, ◌≤◌, ◌⊎◌,
}
use rusty_fusion.Shard.Trading.{found}
use rusty_fusion.Trade.{ItemTrade, TradeItem, transfer_item, transfer_items_loop}
use rusty_fusion.Trade.Transfer.{inven_not_q}

-- A trade item other than those of the list is in the slot.
abbrev pub IsApart : ℕ → List (Option TradeItem) → Type 0
IsApart slot [] = Unit
IsApart slot (none ∷ items) = IsApart slot items
IsApart slot (some item ∷ items) = (slot ≢ item.inven_slot_num) × IsApart slot items

-- Every offered slot holds a stack, some of it is offered, and no slot is offered twice.
abbrev pub IsBacked : List (Option Item) → List (Option TradeItem) → Type 0
IsBacked main [] = Unit
IsBacked main (none ∷ items) = IsBacked main items
IsBacked main (some item ∷ items) =
    (0 < item.quantity)
    × ((stack : Item) × (get_elem? main item.inven_slot_num ≡ some (some stack)))
    × (IsApart item.inven_slot_num items)
    × IsBacked main items

abbrev pub offered : List (Option TradeItem) → ℕ
offered [] = 0
offered (none ∷ items) = offered items
offered (some item ∷ items) = suc (offered items)

IsBacked-set :
    (main : List (Option Item)) (items : List (Option TradeItem)) (slot : ℕ) (left : Option Item)
    → IsApart slot items
    → IsBacked main items
    → IsBacked (set main slot left) items
IsBacked-set main [] slot left apart backed = tt
IsBacked-set main (none ∷ items) slot left apart backed =
    IsBacked-set main items slot left apart backed
IsBacked-set main (some item ∷ items) slot left (ne, apart) (q, (stack, e), others, backed) = (
  q,
  (stack, get_elem?-set_ne main slot item.inven_slot_num left ne ∙ e),
  others,
  IsBacked-set main items slot left apart backed,
)

-- Filling a free slot leaves the offered ones alone.
IsBacked-fill :
    (main : List (Option Item)) (items : List (Option TradeItem)) (free : ℕ) (item : Item)
    → get_elem? main free ≡ some none
    → IsBacked main items
    → IsBacked (set main free (some item)) items
IsBacked-fill main [] free item empty backed = tt
IsBacked-fill main (none ∷ items) free item empty backed =
    IsBacked-fill main items free item empty backed
IsBacked-fill main (some t ∷ items) free item empty (q, (stack, e), others, backed) =
    let ne : free ≢ t.inven_slot_num = λ same. cc (same, empty, e) in
    (
      q,
      (stack, get_elem?-set_ne main free t.inven_slot_num (some item) ne ∙ e),
      others,
      IsBacked-fill main items free item empty backed,
    )

count_none-fill :
    (main : List (Option Item)) (n : ℕ) (item : Item)
    → get_elem? main n ≡ some none
    → suc (count_none (set main n (some item))) ≡ count_none main
count_none-fill [] n item h = cc h
count_none-fill (none ∷ main) zero item h = refl
count_none-fill (some x ∷ main) zero item h = cc h
count_none-fill (none ∷ main) (suc n) item h = omega (arith, count_none-fill main n item h)
count_none-fill (some x ∷ main) (suc n) item h = count_none-fill main n item h

count_none-take :
    (main : List (Option Item)) (n : ℕ) (stack : Item) (left : Option Item)
    → get_elem? main n ≡ some (some stack)
    → count_none main ≤ count_none (set main n left)
count_none-take [] n stack left h = cc h
count_none-take (none ∷ main) zero stack left h = cc h
count_none-take (some x ∷ main) zero stack none h = omega arith
count_none-take (some x ∷ main) zero stack (some l) h = omega arith
count_none-take (none ∷ main) (suc n) stack left h =
    omega (arith, count_none-take main n stack left h)
count_none-take (some x ∷ main) (suc n) stack left h = count_none-take main n stack left h

split_items-some :
    (stack : Item) (q : ℕ) → 0 < q → (taken : Item) × ((split_items (some stack) q).1 ≡ some taken)
unfolding split_items
split_items-some stack q h = (record stack { quantity = min q stack.quantity }, ground arith)

get_item-inven :
    (player : Player) (n : ℕ) (slot : Option Item)
    → IsShaped player.inventory
    → get_elem? player.inventory.main n ≡ some slot
    → get_item player inven n ≡ ok slot
unfolding slots slot_limit
get_item-inven player n slot (e, m, b, q) h =
    get_item-slots player inven player.inventory.main n slot refl m h

get_item_mut-inven :
    (player : Player) (n : ℕ) (slot : Option Item)
    → get_item player inven n ≡ ok slot
    → (player.trade_id ≡ none) ⊎ (slot ≡ none)
    → get_item_mut player inven n ≡ ok slot
unfolding get_item_mut
get_item_mut-inven player n slot h (inl free) = ground (arith, h, free)
get_item_mut-inven player n slot h (inr empty) = ground (arith, h, empty)

set_item-empty :
    (player : Player) (n : ℕ) (item : Option Item)
    → get_item player inven n ≡ ok none
    → set_item player inven n item
      ≡ ok (record player { inventory = write_slot player.inventory inven n item }, none)
unfolding set_item
set_item-empty player n item h = rw (get_item_mut-inven player n none h (inr refl)) refl

left_of : Player → TradeItem → Item → Player
left_of from item stack = record from {
  inventory =
      write_slot from.inventory inven item.inven_slot_num
        (split_items (some stack) item.quantity).0;
}

filled : Player → ℕ → Item → Player
filled to free taken = record to { inventory = write_slot to.inventory inven free (some taken) }

transfer_item-ok :
    (item : TradeItem) (from to : Player) (stack : Item)
    → IsShaped from.inventory
    → IsShaped to.inventory
    → from.trade_id ≡ none
    → 0 < item.quantity
    → get_elem? from.inventory.main item.inven_slot_num ≡ some (some stack)
    → 0 < count_none to.inventory.main
    → (free : ℕ) × (taken : Item) × (sent : ItemTrade) × (get_elem? to.inventory.main free
        ≡ some none)
      × (transfer_item item from to ≡ ok (left_of from item stack, filled to free taken, sent))
unfolding transfer_item left_of filled get_free_slots
transfer_item-ok item from to stack sf st free_from q e room =
    let (first, _) = find_free_slot-get_item to inven st inven_not_q in
    let (free, found, _, empty, _) = first room in
    let (taken, split) = split_items-some stack item.quantity q in
    let here =
      get_item_mut-inven from item.inven_slot_num (some stack)
        (get_item-inven from item.inven_slot_num (some stack) sf e) (inl free_from) in
    (
      free,
      taken,
      record {
        i_type = item_type_code taken.ty;
        i_id = taken.id;
        i_opt = taken.quantity;
        i_inven_num = free;
      },
      get_item-main to free none empty,
      rw (here, split, found, set_item-empty to free (some taken) empty) refl,
    )

pub loop-ok :
    (items : List (Option TradeItem)) (from to : Player)
    → IsShaped from.inventory
    → IsShaped to.inventory
    → from.trade_id ≡ none
    → IsBacked from.inventory.main items
    → offered items ≤ count_none to.inventory.main
    → (kept : List (Option TradeItem)) → IsBacked to.inventory.main kept
    → (from' : Player) × (to' : Player) × (sent : List ItemTrade) × (transfer_items_loop items from
          to
        ≡ ok (from', to', sent))
      × (count_none from.inventory.main ≤ count_none from'.inventory.main)
      × (IsBacked to'.inventory.main kept)
unfolding transfer_items_loop left_of write_slot filled
loop-ok [] from to sf st free_from backed room kept others =
    (from, to, [], refl, omega arith, others)
loop-ok (none ∷ items) from to sf st free_from backed room kept others =
    loop-ok items from to sf st free_from backed room kept others
loop-ok (some item ∷ items) from to sf st free_from (q, (stack, e), apart, backed) room kept
      others =
    let (free, taken, sent, empty, step) =
      transfer_item-ok item from to stack sf st free_from q e (omega arith) in
    let left = (split_items (some stack) item.quantity).0 in
    let (from', to', rest, steps, freer, others') =
      loop-ok items (left_of from item stack) (filled to free taken)
        (IsShaped-write_slot from.inventory inven item.inven_slot_num left sf)
        (IsShaped-write_slot to.inventory inven free (some taken) st) free_from
        (IsBacked-set from.inventory.main items item.inven_slot_num left apart backed)
        (omega (arith, count_none-fill to.inventory.main free taken empty)) kept
        (IsBacked-fill to.inventory.main kept free taken empty others) in
    (
      from',
      to',
      sent ∷ rest,
      rw (step, steps) refl,
      omega (arith, freer, count_none-take from.inventory.main item.inven_slot_num stack left e),
      others',
    )
