-- ===== src/Shard/Trading/Confirm.antt =====
-- src/bin/shard/trade.rs: a confirmation makes and loses nothing, whether the trade is carried out,
-- aborted, or waits for the other player.
use rusty_fusion.Entity.Player.{Player}
use rusty_fusion.Entity.Player.Inventory.Contents.{main_held}
use rusty_fusion.Entity.Player.Inventory.Slots.{IsShaped}
use rusty_fusion.Entity.Player.Stats.{pc_candy_max}
use rusty_fusion.Error.{Outcome, err, ok, panics}
use rusty_fusion.Item.Kind.{ItemType}
use rusty_fusion.Prelude.{
  Bool, List, Option, arith, false, if◌then◌else◌, none, refl, some, sym, true, ℕ, ◌+◌, ◌∙◌, ◌≡◌,
  ◌≢◌, ◌≤◌,
}
use rusty_fusion.Shard.Post.{Post-lift, Post-pure}
use rusty_fusion.Shard.State.{Message, Run, ShardState, update, update_other, update_same}
use rusty_fusion.Shard.Trading.{carry_out, settle, trade_confirm}
use rusty_fusion.Shard.Trading.Conserving.{
  IsConserved, IsConserved-put_player, found-known, get_trade-known, lift-known, same_updates,
  then_known, trading-known, two_overwritten,
}
use rusty_fusion.Shard.Trading.Keeping.{
  IsKept, then_player, then_put_player, then_put_trade, then_tell_other, then_tell_self, told_self,
}
use rusty_fusion.Trade.{
  ItemTrade, TradeContext, TradeOffer, get_offer, get_other_id, lock_in, resolve,
}
use rusty_fusion.Trade.Context.{lock_in-ok}
use rusty_fusion.Trade.Resolve.{resolve-IsTraded}

module _ (pc_id : ℕ) (connected : ℕ → Bool) (send : Message → Outcome (Unit {0})) (s : ShardState)
    (other : ℕ) (a b : Player) (mine theirs : TradeOffer) (ne : pc_id ≢ other)
    (shape_a : IsShaped a.inventory) (shape_b : IsShaped b.inventory) (id_a : a.id ≡ some pc_id)
    (id_b : b.id ≡ some other) (funds_a : mine.taros ≤ a.taros) (funds_b : theirs.taros ≤ b.taros)
    (limit : a.taros + b.taros ≤ pc_candy_max) where
  I : ShardState → Type 0
  I = IsConserved s pc_id other a b

  I-blind : (s' : ShardState) (o : List (Option ℕ × Message)) → I s' → I (record s' { outbox = o })
  unfolding I
  I-blind s' o h = h

  left_alone :
      (s' : ShardState)
      → ((j : ℕ)
          → s'.players j
            ≡ update
                (update s.players pc_id (some (record a { trade_id = none })))
                other
                (some (record b { trade_id = none }))
                j)
      → I s'
  unfolding I
  left_alone s' players =
      IsConserved-put_player s pc_id other a b (record a { trade_id = none })
        (record b { trade_id = none }) s' ne players refl (λ ty id. refl)

  overwritten :
      (s' : ShardState) (a' b' : Player)
      → ((j : ℕ)
          → s'.players j
            ≡ update
                (update s.players pc_id (some (record a { trade_id = none })))
                other
                (some (record b { trade_id = none }))
                j)
      → a'.taros + b'.taros ≡ a.taros + b.taros
      → ((ty : ItemType) (id : ℕ)
          → main_held ty id a' + main_held ty id b' ≡ main_held ty id a + main_held ty id b)
      → I (record s' { players = update (update s'.players pc_id (some a')) other (some b') })
  unfolding I
  overwritten s' a' b' players taros items =
      IsConserved-put_player s pc_id other a b a' b'
        (record s' { players = update (update s'.players pc_id (some a')) other (some b') }) ne
        (two_overwritten s'.players s.players pc_id other (some (record a { trade_id = none }))
          (some (record b { trade_id = none })) (some a') (some b') players)
        taros items

  settle-IsConserved :
      (trade : TradeContext) (r : Outcome (Player × Player × List ItemTrade × List ItemTrade))
      (s' : ShardState)
      → get_offer trade pc_id ≡ ok (record mine { confirmed = true })
      → get_offer trade other ≡ ok theirs
      → resolve trade (record a { trade_id = none }) (record b { trade_id = none }) ≡ r
      → ((j : ℕ)
          → s'.players j
            ≡ update
                (update s.players pc_id (some (record a { trade_id = none })))
                other
                (some (record b { trade_id = none }))
                j)
      → IsKept I (settle (ok pc_id) connected send pc_id other trade r s')
  unfolding settle
  settle-IsConserved trade (ok (a', b', items_b, items_a)) s' om ot e players =
      let left_a = record a { trade_id = none } in
      let left_b = record b { trade_id = none } in
      let (_, _, p, q, sum) =
        resolve-IsTraded trade left_a left_b a' b' pc_id other (record mine { confirmed = true })
          theirs items_a items_b shape_a shape_b id_a id_b om ot funds_a funds_b limit e in
      let after = overwritten s' a' b' players (omega (arith, p, q)) sum in
      then_put_player I pc_id a' _ s' (
        then_put_player I other b' _ _ (
          then_tell_other (ok pc_id) connected send I I-blind _ _ _ _
            (told_self (ok pc_id) connected send I I-blind _ _ (I-blind _ _ after))))
  settle-IsConserved trade (err x) s' om ot e players =
      let after = left_alone s' players in
      then_tell_other (ok pc_id) connected send I I-blind _ _ _ s'
        (told_self (ok pc_id) connected send I I-blind _ _ (I-blind s' _ after))
  settle-IsConserved trade panics s' om ot e players =
      Post-lift _ I panics s' (λ u h. cc h) (left_alone s' players)

  carry_out-IsConserved :
      (trade : TradeContext) (t : ℕ) (s' : ShardState)
      → get_offer trade pc_id ≡ ok (record mine { confirmed = true })
      → get_offer trade other ≡ ok theirs
      → s'.ongoing_trades t ≡ some trade
      → ((j : ℕ) → s'.players j ≡ s.players j)
      → s.players pc_id ≡ some a
      → s.players other ≡ some b
      → IsKept I (carry_out (ok pc_id) connected send pc_id other t s')
  unfolding carry_out
  carry_out-IsConserved trade t s' om ot here players at_a at_b =
      let left_a = record a { trade_id = none } in
      then_known I _ a _ s' s' (found-known pc_id connected send s' pc_id a (players pc_id ∙ at_a))
        (then_put_player I pc_id left_a _ s' (
          then_known I _ b _ _ _
            (found-known pc_id connected send _ other b (
              update_other s'.players pc_id other (some left_a) (λ h. ne (sym h))
              ∙ players other
              ∙ at_b))
            (then_put_player I other _ _ _ (
              then_known I _ trade _ _ _ (get_trade-known pc_id connected send _ t trade here) (
                then_put_trade I t none _ _ (
                  settle-IsConserved trade _ _ om ot refl (
                    same_updates s'.players s.players pc_id other (some left_a)
                      (some (record b { trade_id = none })) players)))))))

  unchanged :
      (s' : ShardState)
      → ((j : ℕ) → s'.players j ≡ s.players j)
      → s.players pc_id ≡ some a
      → s.players other ≡ some b
      → I s'
  unfolding I
  unchanged s' players at_a at_b =
      (a, b, players pc_id ∙ at_a, players other ∙ at_b, refl, λ ty id. refl, λ j _ _. players j)

  one_of-I :
      (ready : Bool) (x y : Run (Unit {0})) (s' : ShardState)
      → IsKept I (x s')
      → IsKept I (y s')
      → IsKept I ((if ready then x else y) s')
  one_of-I true x y s' h k = h
  one_of-I false x y s' h k = k

  confirm-I :
      (trade : TradeContext) (t : ℕ)
      → s.players pc_id ≡ some a
      → s.players other ≡ some b
      → a.trade_id ≡ some t
      → s.ongoing_trades t ≡ some trade
      → get_other_id trade pc_id ≡ ok other
      → get_offer trade pc_id ≡ ok mine
      → get_offer trade other ≡ ok theirs
      → IsKept I (trade_confirm (ok pc_id) connected send s)
  unfolding trade_confirm
  confirm-I trade t at_a at_b is_set here is_other om ot =
      let (trade', locked, om', ot') = lock_in-ok trade pc_id other mine theirs ne om ot in
      let same = unchanged s (λ j. refl) at_a at_b in
      then_known I _ pc_id _ s s (lift-known pc_id connected send (ok pc_id) pc_id s refl) (
        then_known I _ (a, t) _ s s (trading-known pc_id connected send s a t at_a is_set)
          (then_known I _ trade _ s s (get_trade-known pc_id connected send s t trade here) (
            then_known I _ other _ s s
              (lift-known pc_id connected send (get_other_id trade pc_id) other s is_other)
              (then_known I _ (trade', theirs.confirmed) _ s s
                (lift-known pc_id connected send (lock_in trade pc_id) (trade', theirs.confirmed) s
                  locked)
                (then_put_trade I t (some trade') _ s (
                  then_tell_self (ok pc_id) connected send I I-blind _ _ _
                    (unchanged _ (λ j. refl) at_a at_b)
                    (then_player I _ _ _ (unchanged _ (λ j. refl) at_a at_b) λ _ _.
                      then_tell_other (ok pc_id) connected send I I-blind _ _ _ _ (
                        one_of-I theirs.confirmed _ _ _
                          (carry_out-IsConserved trade' t _ om' ot'
                            (update_same s.ongoing_trades t (some trade')) (λ j. refl) at_a at_b)
                          (Post-pure _ I tt _ (unchanged _ (λ j. refl) at_a at_b))))))))))

-- A player confirms its trade with another. Both have main inventories of their sizes, their own ids, the
-- taros that they offer, and together no more taros than one may hold. Unless the handler panics, the
-- two hold afterwards together the same taros and the same number of items of every kind in
-- their main inventories, and no other player has changed: whether the trade waits for the other
-- player, is carried out or is aborted, and whether a send fails.
pub trade_confirm-IsConserved :
    (pc_id : ℕ) (connected : ℕ → Bool) (send : Message → Outcome (Unit {0})) (s : ShardState)
    (other : ℕ) (a b : Player) (mine theirs : TradeOffer) (trade : TradeContext) (t : ℕ)
    → pc_id ≢ other
    → IsShaped a.inventory
    → IsShaped b.inventory
    → a.id ≡ some pc_id
    → b.id ≡ some other
    → mine.taros ≤ a.taros
    → theirs.taros ≤ b.taros
    → a.taros + b.taros ≤ pc_candy_max
    → s.players pc_id ≡ some a
    → s.players other ≡ some b
    → a.trade_id ≡ some t
    → s.ongoing_trades t ≡ some trade
    → get_other_id trade pc_id ≡ ok other
    → get_offer trade pc_id ≡ ok mine
    → get_offer trade other ≡ ok theirs
    → IsKept (IsConserved s pc_id other a b) (trade_confirm (ok pc_id) connected send s)
unfolding I
trade_confirm-IsConserved pc_id connected send s other a b mine theirs trade t ne sa sb ia ib fa fb
      limit at_a at_b is_set here is_other om ot =
    confirm-I pc_id connected send s other a b mine theirs ne sa sb ia ib fa fb limit trade t at_a
      at_b is_set here is_other om ot
