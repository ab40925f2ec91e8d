-- ===== src/Trade/Completes.antt =====
-- src/trade.rs: when a trade can be carried out, and what it has done then.
use rusty_fusion.Entity.Player.{Player, get_player_id}
use rusty_fusion.Entity.Player.Inventory.{count_none}
use rusty_fusion.Entity.Player.Inventory.Contents.{main_held}
use rusty_fusion.Entity.Player.Inventory.Slots.{IsShaped}
use rusty_fusion.Entity.Player.Stats.{pc_candy_max, set_taros}
use rusty_fusion.Error.{ok}
use rusty_fusion.Item.Kind.{ItemType}
use rusty_fusion.Prelude.{
  List, Option, [], ap, arith, none, refl, some, ℕ, ◌%◌, ◌+◌, ◌-◌, ◌^◌, ◌∙◌, ◌≡◌, ◌≤◌,
}
use rusty_fusion.Trade.{
  ItemTrade, TradeContext, TradeItem, TradeOffer, get_offer, padded, resolve, transfer,
}
use rusty_fusion.Trade.Resolve.{IsTraded, resolve-IsTraded}
use rusty_fusion.Trade.Success.{IsBacked, loop-ok, offered}
use rusty_fusion.Trade.Transfer.{loop-IsExchange}

transfer-ok :
    (offer : TradeOffer) (from to : Player) (kept : List (Option TradeItem))
    → IsShaped from.inventory
    → IsShaped to.inventory
    → from.trade_id ≡ none
    → IsBacked from.inventory.main offer.items
    → offered offer.items ≤ count_none to.inventory.main
    → IsBacked to.inventory.main kept
    → (from' : Player) × (to' : Player) × (sent : List ItemTrade) × (transfer offer from to
        ≡ ok (from', to', sent))
      × (count_none from.inventory.main ≤ count_none from'.inventory.main)
      × (IsBacked to'.inventory.main kept)
      × (IsShaped from'.inventory)
      × (IsShaped to'.inventory)
      × (to'.id ≡ to.id)
      × (to'.trade_id ≡ to.trade_id)
unfolding transfer set_taros
transfer-ok offer from to kept sf st free_from backed room others =
    let from1 = set_taros from ((from.taros + 2 ^ 32 - offer.taros) % 2 ^ 32) in
    let to1 = set_taros to ((to.taros + offer.taros) % 2 ^ 32) in
    let (from', to', sent, done, freer, others') =
      loop-ok offer.items from1 to1 sf st free_from backed room kept others in
    let ((_, same, _), sf', st') =
      loop-IsExchange offer.items from1 to1 from' to' sent sf st done in
    (
      from',
      to',
      sent,
      done,
      freer,
      others',
      sf',
      st',
      ap (λ (p : Player). p.id) same,
      ap (λ (p : Player). p.trade_id) same,
    )

-- Both players have left the trade lock, what each offers stands in its main inventory, no slot twice,
-- and each has as many free slots as the other offers stacks.
abbrev pub IsCovered : TradeOffer → TradeOffer → Player → Player → Type 0
IsCovered offer_a offer_b a b =
    (a.trade_id ≡ none)
    × (b.trade_id ≡ none)
    × (IsBacked a.inventory.main offer_a.items)
    × (IsBacked b.inventory.main offer_b.items)
    × (offered offer_a.items ≤ count_none b.inventory.main)
    × (offered offer_b.items ≤ count_none a.inventory.main)

get_player_id-some : (p : Player) (id : ℕ) → p.id ≡ some id → get_player_id p ≡ ok id
unfolding get_player_id
get_player_id-some p id h = rw h refl

resolve-ok :
    (trade : TradeContext) (a b : Player) (id_a id_b : ℕ) (offer_a offer_b : TradeOffer)
    → IsShaped a.inventory
    → IsShaped b.inventory
    → a.id ≡ some id_a
    → b.id ≡ some id_b
    → get_offer trade id_a ≡ ok offer_a
    → get_offer trade id_b ≡ ok offer_b
    → IsCovered offer_a offer_b a b
    → (a' : Player) × (b' : Player) × (items_b : List ItemTrade) × (items_a : List ItemTrade)
      × (resolve trade a b ≡ ok (a', b', items_b, items_a))
unfolding resolve
resolve-ok trade a b id_a id_b offer_a offer_b sa sb ia ib oa ob (ta, tb, ba, bb, ra, rb) =
    let (a1, b1, sent_a, done, freer, others, sa1, sb1, same, lock) =
      transfer-ok offer_a a b offer_b.items sa sb ta ba ra bb in
    let (b2, a2, sent_b, done', _, _, _, _, _, _) =
      transfer-ok offer_b b1 a1 [] sb1 sa1 (lock ∙ tb) others (omega (arith, freer)) tt in
    (
      a2,
      b2,
      padded sent_b,
      padded sent_a,
      rw (get_player_id-some a id_a ia, oa, done, get_player_id-some b1 id_b (same ∙ ib), ob, done')
          refl,
    )

-- Between two players with ids, main inventories of their sizes and no trade id any more, who each have
-- the taros and, in the slots of its offer, the stacks that they offer, each slot
-- offered once and more than zero of it, who have as many free slots as they are offered stacks, and
-- who have together no more taros than one may hold, `resolve` succeeds. Each has then given the
-- taros of its own offer and received those of the other's, the two main inventories hold
-- together as many items of every kind as before, and nothing else of the players has changed.
pub resolve-completes :
    (trade : TradeContext) (a b : Player) (id_a id_b : ℕ) (offer_a offer_b : TradeOffer)
    → IsShaped a.inventory
    → IsShaped b.inventory
    → a.id ≡ some id_a
    → b.id ≡ some id_b
    → get_offer trade id_a ≡ ok offer_a
    → get_offer trade id_b ≡ ok offer_b
    → IsCovered offer_a offer_b a b
    → offer_a.taros ≤ a.taros
    → offer_b.taros ≤ b.taros
    → a.taros + b.taros ≤ pc_candy_max
    → (a' : Player) × (b' : Player) × (items_b : List ItemTrade) × (items_a : List ItemTrade)
      × (resolve trade a b ≡ ok (a', b', items_b, items_a))
      × (IsTraded a a')
      × (IsTraded b b')
      × (a'.taros + offer_a.taros ≡ a.taros + offer_b.taros)
      × (b'.taros + offer_b.taros ≡ b.taros + offer_a.taros)
      × ((ty : ItemType) (id : ℕ)
          → main_held ty id a' + main_held ty id b' ≡ main_held ty id a + main_held ty id b)
resolve-completes trade a b id_a id_b offer_a offer_b sa sb ia ib oa ob covered ta tb limit =
    let (a', b', items_b, items_a, done) =
      resolve-ok trade a b id_a id_b offer_a offer_b sa sb ia ib oa ob covered in
    let (x, y, p, q, r) =
      resolve-IsTraded trade a b a' b' id_a id_b offer_a offer_b items_a items_b sa sb ia ib oa ob
        ta tb limit done in
    (a', b', items_b, items_a, done, x, y, p, q, r)
