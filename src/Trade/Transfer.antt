-- ===== src/Trade/Transfer.antt =====
-- src/trade.rs: what carrying out a trade keeps.
use rusty_fusion.Entity.Player.{Player}
use rusty_fusion.Entity.Player.Inventory.{get_item, set_item, write_slot}
use rusty_fusion.Entity.Player.Inventory.Contents.{
  get_item-main, get_item_mut-ok, held-set, main_held, main_held-set_item,
}
use rusty_fusion.Entity.Player.Inventory.FreeSlots.{find_free_slot-ok}
use rusty_fusion.Entity.Player.Inventory.Slots.{IsShaped, IsShaped-write_slot}
use rusty_fusion.Error.{ok}
use rusty_fusion.Error.Results.{Came-bind, came, unwrap-ok, unwrap_result-ok}
use rusty_fusion.Item.{Item, split_items}
use rusty_fusion.Item.Kind.{ItemType, hand, inven, q_inven}
use rusty_fusion.Item.Stacks.{count, count-none, split_items-count}
use rusty_fusion.Prelude.{List, Option, [], ap, arith, none, refl, some, ℕ, ◌+◌, ◌∙◌, ◌∷◌, ◌≡◌, ◌≢◌}
use rusty_fusion.Trade.{ItemTrade, TradeItem, transfer_item, transfer_items_loop}

-- Nothing of the player but the main inventory differs.
abbrev pub IsSameBut : Player → Player → Type 0
IsSameBut player player' =
    player'
    ≡ record player { inventory = record player.inventory { main = player'.inventory.main } }

-- The two players hold together what they held, and nothing else of them has changed.
abbrev pub IsExchange : Player → Player → Player → Player → Type 0
IsExchange from to from' to' =
    (IsSameBut from from')
    × (IsSameBut to to')
    × ((ty : ItemType) (id : ℕ)
        → main_held ty id from' + main_held ty id to' ≡ main_held ty id from + main_held ty id to)

abbrev pub Kept : Player → Player → Player → Player → Type 0
Kept from to from' to' =
    (IsExchange from to from' to') × (IsShaped from'.inventory) × (IsShaped to'.inventory)

split_from :
    (from : Player) (n q : ℕ) (slot : Option Item) (taken : Item)
    → get_item from inven n ≡ ok slot
    → (split_items slot q).1 ≡ some taken
    → (ty : ItemType) (id : ℕ)
    → main_held ty id
          (record from { inventory = write_slot from.inventory inven n (split_items slot q).0 })
        + count ty id (some taken)
      ≡ main_held ty id from
unfolding write_slot
split_from from n q slot taken e h ty id =
    let (whole, _) = split_items-count slot q ty id in
    let whole' : count ty id (split_items slot q).0 + count ty id (some taken) ≡ count ty id slot =
      rw h at whole in
    omega (
      arith,
      held-set ty id from.inventory.main n slot (split_items slot q).0
          (get_item-main from n slot e),
      whole',
    )

pub inven_not_q : inven ≢ q_inven
inven_not_q h = cc h

exchanged :
    (from to : Player) (n q free : ℕ) (slot : Option Item) (taken : Item) (to' : Player)
    (old : Option Item)
    → get_item from inven n ≡ ok slot
    → (split_items slot q).1 ≡ some taken
    → get_item to inven free ≡ ok none
    → set_item to inven free (some taken) ≡ ok (to', old)
    → IsShaped from.inventory
    → IsShaped to.inventory
    → Kept from to
        (record from { inventory = write_slot from.inventory inven n (split_items slot q).0 })
        to'
unfolding write_slot
exchanged from to n q free slot taken to' old e h empty put hf ht =
    let (there, was, _) = main_held-set_item hand 0 to free (some taken) to' old put in
    let nothing : old ≡ none = cc (was, empty) in
    (
      (
        refl,
        rw there refl,
        λ ty id.
            let (_, _, sum) = main_held-set_item ty id to free (some taken) to' old put in
            let sum' = rw nothing at sum in
            omega (arith, split_from from n q slot taken e h ty id, sum', count-none ty id),
      ),
      IsShaped-write_slot from.inventory inven n (split_items slot q).0 hf,
      rw there (IsShaped-write_slot to.inventory inven free (some taken) ht),
    )

transfer_item-IsExchange :
    (item : TradeItem) (from to from' to' : Player) (sent : ItemTrade)
    → IsShaped from.inventory
    → IsShaped to.inventory
    → transfer_item item from to ≡ ok (from', to', sent)
    → Kept from to from' to'
unfolding transfer_item
transfer_item-IsExchange item from to from' to' sent hf ht h = elim (Came-bind h) [
  | came slot e0 h1 ↦ elim (Came-bind h1) [
    | came taken e1 h2 ↦ elim (Came-bind h2) [
      | came free e2 h3 ↦ elim (Came-bind h3) [
        | came put e3 h4 ↦
            let left = record from {
              inventory =
                  write_slot from.inventory inven item.inven_slot_num
                    (split_items slot item.quantity).0;
            } in
            let is_left : from' ≡ left = cc h4 in
            let is_to : to' ≡ put.0 = cc h4 in
            rw (is_left, is_to)
              (exchanged from to item.inven_slot_num item.quantity free slot taken put.0 put.1
                (get_item_mut-ok from inven item.inven_slot_num slot (unwrap_result-ok _ _ e0))
                (unwrap-ok _ _ e1) (find_free_slot-ok to inven free ht inven_not_q e2)
                (unwrap_result-ok _ _ e3) hf ht)
      ]
    ]
  ]
]

IsExchange-refl : (from to : Player) → IsExchange from to from to
IsExchange-refl from to = (refl, refl, λ ty id. refl)

IsSameBut-trans : (a b c : Player) → IsSameBut a b → IsSameBut b c → IsSameBut a c
IsSameBut-trans a b c h k =
    k
    ∙ ap (λ (p : Player). record p { inventory = record p.inventory { main = c.inventory.main } }) h

IsExchange-trans :
    (from to from' to' from'' to'' : Player)
    → IsExchange from to from' to'
    → IsExchange from' to' from'' to''
    → IsExchange from to from'' to''
IsExchange-trans from to from' to' from'' to'' (f, t, c) (f', t', c') = (
  IsSameBut-trans from from' from'' f f',
  IsSameBut-trans to to' to'' t t',
  λ ty id. c' ty id ∙ c ty id,
)

pub loop-IsExchange :
    (items : List (Option TradeItem)) (from to from' to' : Player) (sent : List ItemTrade)
    → IsShaped from.inventory
    → IsShaped to.inventory
    → transfer_items_loop items from to ≡ ok (from', to', sent)
    → Kept from to from' to'
unfolding transfer_items_loop
loop-IsExchange [] from to from' to' sent hf ht h =
    let same_from : from' ≡ from = cc h in
    let same_to : to' ≡ to = cc h in rw (same_from, same_to) (IsExchange-refl from to, hf, ht)
loop-IsExchange (none ∷ items) from to from' to' sent hf ht h =
    loop-IsExchange items from to from' to' sent hf ht h
loop-IsExchange (some item ∷ items) from to from' to' sent hf ht h = elim (Came-bind h) [
  | came first e0 h1 ↦ elim (Came-bind h1) [
    | came last e1 h2 ↦
        let (one, kf, kt) =
          transfer_item-IsExchange item from to first.0 first.1 first.2 hf ht e0 in
        let (rest, sf, st) = loop-IsExchange items first.0 first.1 last.0 last.1 last.2 kf kt e1 in
        let same_from : from' ≡ last.0 = cc h2 in
        let same_to : to' ≡ last.1 = cc h2 in
        rw (same_from, same_to)
          (IsExchange-trans from to first.0 first.1 last.0 last.1 one rest, sf, st)
  ]
]
