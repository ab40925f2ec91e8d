-- ===== src/Trade/Lock.antt =====
-- src/trade.rs: carrying out a trade leaves the players' trade ids and ids alone.
use rusty_fusion.Entity.Player.{Player, get_player_id}
use rusty_fusion.Entity.Player.Inventory.{find_free_slot, get_item_mut, set_item, write_slot}
use rusty_fusion.Entity.Player.Inventory.Contents.{main_held-set_item}
use rusty_fusion.Entity.Player.Stats.{set_taros}
use rusty_fusion.Error.{ok, unwrap, unwrap_result}
use rusty_fusion.Error.Results.{came, Came-bind, unwrap_result-ok}
use rusty_fusion.Item.{Item, split_items}
use rusty_fusion.Item.Kind.{hand, inven}
use rusty_fusion.Prelude.{List, Option, [], none, refl, some, ℕ, ◌%◌, ◌+◌, ◌-◌, ◌^◌, ◌∙◌, ◌∷◌, ◌≡◌}
use rusty_fusion.Trade.{
  ItemTrade, TradeContext, TradeItem, TradeOffer, get_offer, resolve, transfer, transfer_item,
  transfer_items_loop,
}

abbrev pub IsSameLock : Player → Player → Type 0
IsSameLock player player' = (player'.trade_id ≡ player.trade_id) × (player'.id ≡ player.id)

moved_lock :
    (item : TradeItem) (from to from' to' : Player) (slot : Option Item) (taken : Item) (free : ℕ)
    (put : Player × Option Item)
    → unwrap_result (get_item_mut from inven item.inven_slot_num) ≡ ok slot
    → unwrap (split_items slot item.quantity).1 ≡ ok taken
    → find_free_slot to inven ≡ ok free
    → unwrap_result (set_item to inven free (some taken)) ≡ ok put
    → from' ≡ record from {
      inventory =
          write_slot from.inventory inven item.inven_slot_num (split_items slot item.quantity).0;
    }
    → to' ≡ put.0
    → (IsSameLock from from') × (IsSameLock to to')
moved_lock item from to from' to' slot taken free put e0 e1 e2 e3 is_left is_to =
    let (there, _, _) =
      main_held-set_item hand 0 to free (some taken) put.0 put.1
        (unwrap_result-ok (set_item to inven free (some taken)) put e3) in
    rw (is_left, is_to, there) ((refl, refl), (refl, refl))

transfer_item-IsSameLock :
    (item : TradeItem) (from to from' to' : Player) (sent : ItemTrade)
    → transfer_item item from to ≡ ok (from', to', sent)
    → (IsSameLock from from') × (IsSameLock to to')
unfolding transfer_item
transfer_item-IsSameLock item from to from' to' sent h = elim (Came-bind h) [
  | came slot e0 h1 ↦ elim (Came-bind h1) [
    | came taken e1 h2 ↦ elim (Came-bind h2) [
      | came free e2 h3 ↦ elim (Came-bind h3) [
        | came put e3 h4 ↦
            moved_lock item from to from' to' slot taken free put e0 e1 e2 e3 (cc h4) (cc h4)
      ]
    ]
  ]
]

IsSameLock-trans : (a b c : Player) → IsSameLock a b → IsSameLock b c → IsSameLock a c
IsSameLock-trans a b c (t, i) (t', i') = (t' ∙ t, i' ∙ i)

loop-IsSameLock :
    (items : List (Option TradeItem)) (from to from' to' : Player) (sent : List ItemTrade)
    → transfer_items_loop items from to ≡ ok (from', to', sent)
    → (IsSameLock from from') × (IsSameLock to to')
unfolding transfer_items_loop
loop-IsSameLock [] from to from' to' sent h =
    let same_from : from' ≡ from = cc h in
    let same_to : to' ≡ to = cc h in rw (same_from, same_to) ((refl, refl), (refl, refl))
loop-IsSameLock (none ∷ items) from to from' to' sent h =
    loop-IsSameLock items from to from' to' sent h
loop-IsSameLock (some item ∷ items) from to from' to' sent h = elim (Came-bind h) [
  | came first e0 h1 ↦ elim (Came-bind h1) [
    | came last e1 h2 ↦
        let (f, t) = transfer_item-IsSameLock item from to first.0 first.1 first.2 e0 in
        let (f', t') = loop-IsSameLock items first.0 first.1 last.0 last.1 last.2 e1 in
        let same_from : from' ≡ last.0 = cc h2 in
        let same_to : to' ≡ last.1 = cc h2 in
        rw (same_from, same_to)
          (IsSameLock-trans from first.0 last.0 f f', IsSameLock-trans to first.1 last.1 t t')
  ]
]

transfer-IsSameLock :
    (offer : TradeOffer) (from to from' to' : Player) (sent : List ItemTrade)
    → transfer offer from to ≡ ok (from', to', sent)
    → (IsSameLock from from') × (IsSameLock to to')
unfolding transfer set_taros
transfer-IsSameLock offer from to from' to' sent h =
    loop-IsSameLock offer.items (set_taros from ((from.taros + 2 ^ 32 - offer.taros) % 2 ^ 32))
      (set_taros to ((to.taros + offer.taros) % 2 ^ 32)) from' to' sent h

both_locks :
    (trade : TradeContext) (a b a' b' : Player) (id other_id : ℕ) (offer other_offer : TradeOffer)
    (first last : Player × Player × List ItemTrade)
    → get_player_id a ≡ ok id
    → unwrap_result (get_offer trade id) ≡ ok offer
    → transfer offer a b ≡ ok first
    → get_player_id first.1 ≡ ok other_id
    → unwrap_result (get_offer trade other_id) ≡ ok other_offer
    → transfer other_offer first.1 first.0 ≡ ok last
    → a' ≡ last.1
    → b' ≡ last.0
    → (IsSameLock a a') × (IsSameLock b b')
both_locks trade a b a' b' id other_id offer other_offer first last e0 e1 e2 e3 e4 e5 same_a
      same_b =
    let (f, t) = transfer-IsSameLock offer a b first.0 first.1 first.2 e2 in
    let (t', f') = transfer-IsSameLock other_offer first.1 first.0 last.0 last.1 last.2 e5 in
    rw (same_a, same_b)
      (IsSameLock-trans a first.0 last.1 f f', IsSameLock-trans b first.1 last.0 t t')

pub resolve-IsSameLock :
    (trade : TradeContext) (a b a' b' : Player) (items_b items_a : List ItemTrade)
    → resolve trade a b ≡ ok (a', b', items_b, items_a)
    → (IsSameLock a a') × (IsSameLock b b')
unfolding resolve
resolve-IsSameLock trade a b a' b' items_b items_a h = elim (Came-bind h) [
  | came id e0 h1 ↦ elim (Came-bind h1) [
    | came offer e1 h2 ↦ elim (Came-bind h2) [
      | came first e2 h3 ↦ elim (Came-bind h3) [
        | came other_id e3 h4 ↦ elim (Came-bind h4) [
          | came other_offer e4 h5 ↦ elim (Came-bind h5) [
            | came last e5 h6 ↦
                both_locks trade a b a' b' id other_id offer other_offer first last e0 e1 e2 e3 e4
                  e5 (cc h6) (cc h6)
          ]
        ]
      ]
    ]
  ]
]
