-- ===== src/Shard/Trading/Ending.antt =====
-- src/bin/shard/trade.rs: a trade that ends, or begins, leaves the trades of the shard sound.
use rusty_fusion.Entity.Player.{Player}
use rusty_fusion.Error.{Outcome, err, ok, panics}
use rusty_fusion.Prelude.{
  Bool, List, Option, arith, false, if◌then◌else◌, inl, inr, none, refl, some, true, ℕ, ◌∙◌, ◌≡◌,
  ◌≢◌, ◌⊎◌,
}
use rusty_fusion.Shard.Post.{Post-lift, Post-pure}
use rusty_fusion.Shard.State.{Message, Run, ShardState, update}
use rusty_fusion.Shard.Trading.{
  carry_out, disconnect, leave_trade, settle, trade_confirm, trade_confirm_cancel,
}
use rusty_fusion.Shard.Trading.Keeping.{
  then_found, then_lift, then_player, then_put_player, then_put_trade, then_remove_player,
  then_sure, then_tell_other, then_tell_self, then_trade, then_trading, told_other, told_self,
}
use rusty_fusion.Shard.Trading.Removal.{
  IsSound-gone, IsSound-removed, left_trade, one_gone, two_cleared,
}
use rusty_fusion.Shard.Trading.Sound.{
  IsSafe, IsSound, IsSound-blind, IsSound-put_player, IsSound-put_trade,
}
use rusty_fusion.Trade.{ItemTrade, TradeContext, get_other_id, lock_in, resolve}
use rusty_fusion.Trade.Context.{get_other_id-side, get_other_id-sure, lock_in-IsSameSides}
use rusty_fusion.Trade.Lock.{resolve-IsSameLock}

one_of :
    {A : Type 0} (test : Bool) (x y : Run A) (s : ShardState)
    → (test ≡ true → IsSafe (x s))
    → IsSafe (y s)
    → IsSafe ((if test then x else y) s)
one_of true x y s h k = h refl
one_of false x y s h k = k

module _ (self_id : Outcome ℕ) (connected : ℕ → Bool) (send : Message → Outcome (Unit {0})) where
  -- The side of a player whose trade id is set, of the trade that is found under it.
  sides_of :
      (s : ShardState) (pc_id t other : ℕ) (player : Player) (trade : TradeContext)
      → IsSound s
      → s.players pc_id ≡ some player
      → player.trade_id ≡ some t
      → s.ongoing_trades t ≡ some trade
      → get_other_id trade pc_id ≡ ok other
      → (pc_id ≢ other)
        × (((trade.from_pc_id ≡ pc_id) × (trade.to_pc_id ≡ other))
            ⊎ ((trade.to_pc_id ≡ pc_id) × (trade.from_pc_id ≡ other)))
  sides_of s pc_id t other player trade sound here is_set found_trade is_other =
      let (tr, f, side) = sound pc_id player t here is_set in
      let same : tr ≡ trade = cc (f, found_trade) in
      get_other_id-side trade pc_id other (rw same at side) is_other

  pub trade_confirm_cancel-IsSafe :
      (s : ShardState) → IsSound s → IsSafe (trade_confirm_cancel self_id connected send s)
  unfolding trade_confirm_cancel
  trade_confirm_cancel-IsSafe s sound = then_lift IsSound _ _ s sound λ pc_id _.
      then_trading self_id connected send IsSound IsSound-blind _ _ s sound λ player t here is_set.
        then_put_player IsSound pc_id _ _ s (
          then_trade IsSound t _ _ λ trade found_trade. then_put_trade IsSound t none _ _ (
            then_sure IsSound (get_other_id trade pc_id) _ _ (get_other_id-sure trade pc_id)
              λ other is_other.
                then_found self_id connected send IsSound IsSound-blind other _ _ λ other_player _.
                  then_put_player IsSound other _ _ _ (
                    told_other self_id connected send IsSound IsSound-blind _ _ _ (
                      let (_, sides) =
                        sides_of s pc_id t other player trade sound here is_set found_trade
                          is_other in
                      IsSound-removed s (left_trade s t pc_id other player other_player) t pc_id
                        other trade sound found_trade sides (λ k. refl)
                        (two_cleared s.players pc_id other (record player { trade_id = none })
                          (record other_player { trade_id = none }) refl refl)))))

  settle-IsSafe :
      (pc_id other : ℕ) (trade : TradeContext) (a b : Player)
      (r : Outcome (Player × Player × List ItemTrade × List ItemTrade)) (s : ShardState)
      → resolve trade a b ≡ r
      → pc_id ≢ other
      → s.players pc_id ≡ some a
      → s.players other ≡ some b
      → IsSound s
      → IsSafe (settle self_id connected send pc_id other trade r s)
  unfolding settle update
  settle-IsSafe pc_id other trade a b (ok (a', b', items, items_other)) s e ne ha hb sound =
      let ((lock_a, _), (lock_b, _)) = resolve-IsSameLock trade a b a' b' items items_other e in
      let one = IsSound-put_player s pc_id a a' sound ha (inl lock_a) in
      let at_other : update s.players pc_id (some a') other ≡ some b = ground (arith, ne, hb) in
      let two =
        IsSound-put_player (record s { players = update s.players pc_id (some a') }) other b b' one
          at_other (inl lock_b) in
      then_put_player IsSound pc_id a' _ s (
        then_put_player IsSound other b' _ _ (
          then_tell_other self_id connected send IsSound IsSound-blind _ _ _ _
            (told_self self_id connected send IsSound IsSound-blind _ _ two)))
  settle-IsSafe pc_id other trade a b (err x) s e ne ha hb sound =
      then_tell_other self_id connected send IsSound IsSound-blind _ _ _ s
        (told_self self_id connected send IsSound IsSound-blind _ _ sound)
  settle-IsSafe pc_id other trade a b panics s e ne ha hb sound =
      Post-lift _ _ panics s (λ u h. sound) sound

  carry_out-IsSafe :
      (pc_id other t : ℕ) (trade : TradeContext) (s : ShardState)
      → IsSound s
      → s.ongoing_trades t ≡ some trade
      → pc_id ≢ other
      → ((trade.from_pc_id ≡ pc_id) × (trade.to_pc_id ≡ other))
        ⊎ ((trade.to_pc_id ≡ pc_id) × (trade.from_pc_id ≡ other))
      → IsSafe (carry_out self_id connected send pc_id other t s)
  unfolding carry_out update
  carry_out-IsSafe pc_id other t trade s sound here ne sides =
      then_found self_id connected send IsSound IsSound-blind pc_id _ s λ player _.
        then_put_player IsSound pc_id _ _ s (
          then_found self_id connected send IsSound IsSound-blind other _ _ λ player_other _.
            then_put_player IsSound other _ _ _ (
              then_trade IsSound t _ _ λ trade' here'.
                let same : trade ≡ trade' = cc (here, here') in
                then_put_trade IsSound t none _ _ (
                  settle-IsSafe pc_id other trade' _ _ _ _ refl ne (ground (arith, ne))
                    (ground arith)
                    (IsSound-removed s (left_trade s t pc_id other player player_other) t pc_id
                      other trade sound here sides (λ k. refl)
                      (two_cleared s.players pc_id other (record player { trade_id = none })
                        (record player_other { trade_id = none }) refl refl)))))

  pub trade_confirm-IsSafe :
      (s : ShardState) → IsSound s → IsSafe (trade_confirm self_id connected send s)
  unfolding trade_confirm update
  trade_confirm-IsSafe s sound = then_lift IsSound _ _ s sound λ pc_id _.
      then_trading self_id connected send IsSound IsSound-blind _ _ s sound λ player t here is_set.
        then_trade IsSound t _ s λ trade found_trade.
          then_lift IsSound _ _ s sound λ other is_other.
            then_lift IsSound (lock_in trade pc_id) _ s sound λ locked is_locked.
              let (from, to) = lock_in-IsSameSides trade pc_id locked.0 locked.1 is_locked in
              let after = IsSound-put_trade s t trade locked.0 sound found_trade from to in
              let (ne, sides) =
                sides_of s pc_id t other player trade sound here is_set found_trade is_other in
              then_put_trade IsSound t (some locked.0) _ s (
                then_tell_self self_id connected send IsSound IsSound-blind _ _ _ after (
                  then_player IsSound _ _ _ after λ _ _.
                    then_tell_other self_id connected send IsSound IsSound-blind _ _ _ _ (
                      one_of locked.1 _ _ _
                        (λ _.
                          carry_out-IsSafe pc_id other t locked.0 _ after (ground arith) ne
                            (elim sides [
                              | inl both ↦ inl (from ∙ both.0, to ∙ both.1)
                              | inr both ↦ inr (to ∙ both.0, from ∙ both.1)
                            ]))
                        (Post-pure _ _ tt _ after))))

  leave_trade-IsSafe :
      (s : ShardState) (pc_id : ℕ) (player : Player) (o : Option ℕ)
      → IsSound s
      → s.players pc_id ≡ some player
      → player.trade_id ≡ o
      → IsSafe (
          leave_trade self_id connected send pc_id o
            (record s { players = update s.players pc_id none }))
  unfolding leave_trade
  leave_trade-IsSafe s pc_id player none sound here is_set =
      Post-pure _ _ tt _ (IsSound-gone s pc_id sound)
  leave_trade-IsSafe s pc_id player (some t) sound here is_set =
      then_trade IsSound t _ _ λ trade found_trade. then_put_trade IsSound t none _ _ (
        then_sure IsSound (get_other_id trade pc_id) _ _ (get_other_id-sure trade pc_id)
          λ other is_other.
            then_found self_id connected send IsSound IsSound-blind other _ _ λ other_player _.
              then_put_player IsSound other _ _ _ (
                told_other self_id connected send IsSound IsSound-blind _ _ _ (
                  let (_, sides) =
                    sides_of s pc_id t other player trade sound here is_set found_trade is_other in
                  IsSound-removed s
                    (record s {
                      players =
                          update (update s.players pc_id none) other
                            (some (record other_player { trade_id = none }));
                      ongoing_trades = update s.ongoing_trades t none;
                    })
                    t pc_id other trade sound found_trade sides (λ k. refl)
                    (one_gone s.players pc_id other (record other_player { trade_id = none })
                      refl))))

  pub disconnect-IsSafe :
      (pc_id : ℕ) (s : ShardState) → IsSound s → IsSafe (disconnect self_id connected send pc_id s)
  unfolding disconnect
  disconnect-IsSafe pc_id s sound =
      then_found self_id connected send IsSound IsSound-blind pc_id _ s λ player here.
        then_remove_player IsSound pc_id _ s
          (leave_trade-IsSafe s pc_id player player.trade_id sound here refl)
