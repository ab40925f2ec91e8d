-- ===== src/Trade/Resolve.antt =====
-- src/trade.rs: a trade that is carried out moves taros and items, and makes or loses none.
use rusty_fusion.Entity.Player.{Player, get_player_id}
use rusty_fusion.Entity.Player.Inventory.Contents.{main_held}
use rusty_fusion.Entity.Player.Inventory.Slots.{IsShaped}
use rusty_fusion.Entity.Player.Stats.{pc_candy_max, set_taros}
use rusty_fusion.Error.{ok, unwrap, unwrap_result}
use rusty_fusion.Error.Results.{came, Came-bind, unwrap-ok, unwrap_result-ok}
use rusty_fusion.Item.Kind.{ItemType}
use rusty_fusion.Prelude.{List, ap, arith, some, sym, ℕ, ◌%◌, ◌+◌, ◌-◌, ◌^◌, ◌∙◌, ◌≡◌, ◌≤◌}
use rusty_fusion.Trade.{ItemTrade, TradeContext, TradeOffer, get_offer, resolve, transfer}
use rusty_fusion.Trade.Transfer.{loop-IsExchange}
use rusty_fusion.Util.Clamp.{clamp}

-- Nothing of the player but the taros and the main inventory differs.
abbrev pub IsTraded : Player → Player → Type 0
IsTraded player player' = player' ≡ record player {
  taros = player'.taros;
  inventory = record player.inventory { main = player'.inventory.main };
}

IsTraded-trans : (a b c : Player) → IsTraded a b → IsTraded b c → IsTraded a c
IsTraded-trans a b c h k =
    k
    ∙ ap
        (λ (p : Player). record p {
          taros = c.taros;
          inventory = record p.inventory { main = c.inventory.main };
        })
        h

-- One side of a trade, when the taros are there and stay below the limit.
abbrev Moved : ℕ → Player → Player → Player → Player → Type 0
Moved taros from to from' to' =
    (IsTraded from from')
    × (IsTraded to to')
    × (from'.taros + taros ≡ from.taros)
    × (to'.taros ≡ to.taros + taros)
    × (IsShaped from'.inventory)
    × (IsShaped to'.inventory)
    × ((ty : ItemType) (id : ℕ)
        → main_held ty id from' + main_held ty id to' ≡ main_held ty id from + main_held ty id to)

set_taros_exact :
    (player : Player) (n : ℕ)
    → n ≤ pc_candy_max
    → set_taros player (n % 2 ^ 32) ≡ record player { taros = n }
unfolding set_taros clamp
set_taros_exact player n h = let small : n % 2 ^ 32 ≡ n = omega arith in ground (arith, small)

transfer-Moved :
    (offer : TradeOffer) (from to from' to' : Player) (sent : List ItemTrade)
    → IsShaped from.inventory
    → IsShaped to.inventory
    → offer.taros ≤ from.taros
    → from.taros + to.taros ≤ pc_candy_max
    → transfer offer from to ≡ ok (from', to', sent)
    → Moved offer.taros from to from' to'
unfolding transfer
transfer-Moved offer from to from' to' sent hf ht enough limit h =
    let wrapped : (from.taros + 2 ^ 32 - offer.taros) % 2 ^ 32
        ≡ (from.taros - offer.taros) % 2 ^ 32 =
      omega arith in
    let left : set_taros from ((from.taros + 2 ^ 32 - offer.taros) % 2 ^ 32)
        ≡ record from { taros = from.taros - offer.taros } =
      rw wrapped (set_taros_exact from (from.taros - offer.taros) (omega arith)) in
    let right : set_taros to ((to.taros + offer.taros) % 2 ^ 32)
        ≡ record to { taros = to.taros + offer.taros } =
      set_taros_exact to (to.taros + offer.taros) (omega arith) in
    let ((f, t, c), sf, st) =
      loop-IsExchange offer.items (record from { taros = from.taros - offer.taros })
        (record to { taros = to.taros + offer.taros }) from' to' sent hf ht
        (rw (left, right) at h) in
    let less : from'.taros ≡ from.taros - offer.taros = ap (λ (p : Player). p.taros) f in
    let more : to'.taros ≡ to.taros + offer.taros = ap (λ (p : Player). p.taros) t in
    (
      f
          ∙ sym (
              ap
                (λ n. record from {
                  taros = n;
                  inventory = record from.inventory { main = from'.inventory.main };
                })
                less),
      t
          ∙ sym (
              ap
                (λ n. record to {
                  taros = n;
                  inventory = record to.inventory { main = to'.inventory.main };
                })
                more),
      omega (arith, less),
      more,
      sf,
      st,
      c,
    )

-- The two calls of `transfer`, one after the other.
both_ways :
    (trade : TradeContext) (a b a1 b1 a2 b2 : Player) (sent_a sent_b : List ItemTrade)
    (id_a id id_b other_id : ℕ) (offer_a offer offer_b other_offer : TradeOffer)
    → IsShaped a.inventory
    → IsShaped b.inventory
    → a.id ≡ some id_a
    → b.id ≡ some id_b
    → get_offer trade id_a ≡ ok offer_a
    → get_offer trade id_b ≡ ok offer_b
    → offer_a.taros ≤ a.taros
    → offer_b.taros ≤ b.taros
    → a.taros + b.taros ≤ pc_candy_max
    → unwrap a.id ≡ ok id
    → unwrap_result (get_offer trade id) ≡ ok offer
    → transfer offer a b ≡ ok (a1, b1, sent_a)
    → unwrap b1.id ≡ ok other_id
    → unwrap_result (get_offer trade other_id) ≡ ok other_offer
    → transfer other_offer b1 a1 ≡ ok (b2, a2, sent_b)
    → (IsTraded a a2)
      × (IsTraded b b2)
      × (a2.taros + offer_a.taros ≡ a.taros + offer_b.taros)
      × (b2.taros + offer_b.taros ≡ b.taros + offer_a.taros)
      × ((ty : ItemType) (id : ℕ)
          → main_held ty id a2 + main_held ty id b2 ≡ main_held ty id a + main_held ty id b)
both_ways trade a b a1 b1 a2 b2 sent_a sent_b id_a id id_b other_id offer_a offer offer_b
      other_offer sa sb ia ib oa ob ta tb limit e0 e1 e2 e3 e4 e5 =
    let mine : offer_a ≡ offer =
      cc (ia, oa, unwrap-ok a.id id e0, unwrap_result-ok (get_offer trade id) offer e1) in
    let (aa, bb, lost, won, sa1, sb1, kept) =
      transfer-Moved offer a b a1 b1 sent_a sa sb (rw mine at ta) limit e2 in
    let kept_id : b1.id ≡ b.id = ap (λ (p : Player). p.id) bb in
    let theirs : offer_b ≡ other_offer = cc (
      ib,
      ob,
      kept_id,
      unwrap-ok b1.id other_id e3,
      unwrap_result-ok (get_offer trade other_id) other_offer e4,
    ) in
    let tb' = rw theirs at tb in
    let (bb', aa', lost', won', sb2, sa2, kept') =
      transfer-Moved other_offer b1 a1 b2 a2 sent_b sb1 sa1 (omega (arith, won, tb'))
        (omega (arith, won, lost)) e5 in
    (
      IsTraded-trans a a1 a2 aa aa',
      IsTraded-trans b b1 b2 bb bb',
      rw (mine, theirs) (omega (arith, lost, won')),
      rw (mine, theirs) (omega (arith, won, lost')),
      λ ty i. omega (arith, kept ty i, kept' ty i),
    )

-- Between two players whose main inventories have their sizes, who each have the taros that they offer,
-- and who have together no more than one may hold: if `resolve` succeeds, each has given the taros of
-- its own offer and received those of the other's, the two main inventories hold together as
-- many items of every kind as before, and nothing else of the players has changed.
pub resolve-IsTraded :
    (trade : TradeContext) (a b a' b' : Player) (id_a id_b : ℕ) (offer_a offer_b : TradeOffer)
    (items_a items_b : List ItemTrade)
    → IsShaped a.inventory
    → IsShaped b.inventory
    → a.id ≡ some id_a
    → b.id ≡ some id_b
    → get_offer trade id_a ≡ ok offer_a
    → get_offer trade id_b ≡ ok offer_b
    → offer_a.taros ≤ a.taros
    → offer_b.taros ≤ b.taros
    → a.taros + b.taros ≤ pc_candy_max
    → resolve trade a b ≡ ok (a', b', items_b, items_a)
    → (IsTraded a a')
      × (IsTraded b b')
      × (a'.taros + offer_a.taros ≡ a.taros + offer_b.taros)
      × (b'.taros + offer_b.taros ≡ b.taros + offer_a.taros)
      × ((ty : ItemType) (id : ℕ)
          → main_held ty id a' + main_held ty id b' ≡ main_held ty id a + main_held ty id b)
unfolding resolve get_player_id
resolve-IsTraded trade a b a' b' id_a id_b offer_a offer_b items_a items_b sa sb ia ib oa ob ta tb
      limit h =
    elim (Came-bind h) [
      | came id e0 h1 ↦ elim (Came-bind h1) [
        | came offer e1 h2 ↦ elim (Came-bind {A = Player × Player × List ItemTrade} h2) [
          | came first e2 h3 ↦ elim (Came-bind h3) [
            | came other_id e3 h4 ↦ elim (Came-bind h4) [
              | came other_offer e4 h5 ↦
                  elim (Came-bind {A = Player × Player × List ItemTrade} h5) [
                    | came last e5 h6 ↦
                        let same_a : a' ≡ last.1 = cc h6 in
                        let same_b : b' ≡ last.0 = cc h6 in
                        rw (same_a, same_b)
                          (both_ways trade a b first.0 first.1 last.1 last.0 first.2 last.2 id_a id
                            id_b other_id offer_a offer offer_b other_offer sa sb ia ib oa ob ta tb
                            limit e0 e1 e2 e3 e4 e5)
                  ]
            ]
          ]
        ]
      ]
    ]
