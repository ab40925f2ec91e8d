-- ===== src/Entity/Player/Inventory/Contents.antt =====
-- src/entity/player.rs: how many items of a kind the main inventory holds.
use rusty_fusion.Entity.Player.{Player}
use rusty_fusion.Entity.Player.Inventory.{
  get_item, get_item_mut, set_item, slot_limit, slots, write_slot,
}
use rusty_fusion.Error.{build, guard, ok, warning}
use rusty_fusion.Error.Results.{>>=-ok, unwrap-ok}
use rusty_fusion.Item.{Item}
use rusty_fusion.Item.Kind.{ItemLocation, ItemType, inven}
use rusty_fusion.Item.Stacks.{count}
use rusty_fusion.Prelude.{
  List, Option, [], arith, get_elem?, is_some, ltb, not, set, some, suc, zero, ℕ, ◌&&◌, ◌+◌, ◌∷◌,
  ◌≡◌,
}

unfoldable pub held : ItemType → ℕ → List (Option Item) → ℕ
held ty id [] = 0
held ty id (slot ∷ items) = count ty id slot + held ty id items

abbrev pub main_held : ItemType → ℕ → Player → ℕ
main_held ty id player = held ty id player.inventory.main

pub held-set :
    (ty : ItemType) (id : ℕ) (items : List (Option Item)) (n : ℕ) (old item : Option Item)
    → get_elem? items n ≡ some old
    → held ty id (set items n item) + count ty id old ≡ held ty id items + count ty id item
unfolding held
held-set ty id [] n old item h = cc h
held-set ty id (slot ∷ items) zero old item h =
    let same : slot ≡ old = cc h in rw same (omega arith)
held-set ty id (slot ∷ items) (suc n) old item h = omega (arith, held-set ty id items n old item h)

pub get_item-main :
    (player : Player) (n : ℕ) (old : Option Item)
    → get_item player inven n ≡ ok old
    → get_elem? player.inventory.main n ≡ some old
unfolding get_item slots
get_item-main player n old h =
    let (u, _, e) =
      >>=-ok (guard (ltb n (slot_limit inven)) (build warning "Bad slot number")) _ _ h in
    unwrap-ok (get_elem? player.inventory.main n) old e

pub get_item_mut-ok :
    (player : Player) (location : ItemLocation) (n : ℕ) (old : Option Item)
    → get_item_mut player location n ≡ ok old
    → get_item player location n ≡ ok old
unfolding get_item_mut
get_item_mut-ok player location n old h =
    let (slot, e, rest) = >>=-ok (get_item player location n) _ _ h in
    let (u, _, same) =
      >>=-ok
        (guard (not (is_some slot && is_some player.trade_id))
          (build warning "Can't mutate inventory. Player trading"))
        _ _ rest in
    cc (e, same)

-- What a successful write of the main inventory adds, it took from the writer.
pub main_held-set_item :
    (ty : ItemType) (id : ℕ) (player : Player) (n : ℕ) (item : Option Item) (player' : Player)
    (old : Option Item)
    → set_item player inven n item ≡ ok (player', old)
    → (player' ≡ record player { inventory = write_slot player.inventory inven n item })
      × (get_item player inven n ≡ ok old)
      × (main_held ty id player' + count ty id old ≡ main_held ty id player + count ty id item)
unfolding set_item write_slot
main_held-set_item ty id player n item player' old h =
    let (old', e, same) = >>=-ok (get_item_mut player inven n) _ _ h in
    let here : old' ≡ old = cc same in
    let there : player' ≡ record player { inventory = write_slot player.inventory inven n item } =
      cc same in
    let found = rw here at (get_item_mut-ok player inven n old' e) in
    (
      there,
      found,
      rw there (held-set ty id player.inventory.main n old item (get_item-main player n old found)),
    )
