-- ===== src/Shard/Trading/Invariant.antt =====
-- src/bin/shard/trade.rs: whoever is in a trade is one of its two sides, whatever the clients request.
use rusty_fusion.Entity.Player.{Player}
use rusty_fusion.Error.{Outcome}
use rusty_fusion.Item.{Item}
use rusty_fusion.Prelude.{Bool, Option, inl, inr, none, refl, some, ℕ, ◌≡◌}
use rusty_fusion.Shard.Post.{Post->>=, Post-get_trade, Post-lift, Post-ok}
use rusty_fusion.Shard.State.{
  Message, Run, ShardState, get_trade, pure, put_player, put_trade, ◌>>=◌,
}
use rusty_fusion.Shard.Trading.{
  RequestItem, changing_trade, trade_cash_register, trade_emotes_chat, trade_item_register,
  trade_item_unregister,
}
use rusty_fusion.Shard.Trading.Offers.{
  clear_found, clear_trade, trade_offer, trade_offer_cancel, trade_offer_refusal,
}
use rusty_fusion.Shard.Trading.Keeping.{
  reported, then_lift, then_player, then_put_player, then_put_trade, then_tell_other, then_trade,
  then_trading, told_other, told_self,
}
use rusty_fusion.Shard.Trading.Sound.{
  IsSafe, IsSound, IsSound-blind, IsSound-put_player, IsSound-put_trade, put_player-IsSafe,
}
use rusty_fusion.Trade.{TradeContext}
use rusty_fusion.Trade.Context.{
  IsSameSides, trade_add_item-IsSameSides, trade_remove_item-IsSameSides,
  trade_set_taros-IsSameSides,
}

module _ (self_id : Outcome ℕ) (connected : ℕ → Bool) (send : Message → Outcome (Unit {0})) where
  pub trade_offer-IsSafe :
      (near : ℕ → ℕ → Outcome (Unit {0})) (id_from id_to : ℕ) (s : ShardState)
      → IsSound s
      → IsSafe (trade_offer self_id connected send near id_from id_to s)
  unfolding trade_offer
  trade_offer-IsSafe near id_from id_to s sound =
      reported self_id connected send IsSound IsSound-blind _ _ s (
        then_lift IsSound _ _ s sound λ pc_id _. then_lift IsSound _ _ s sound λ _ _.
          then_player IsSound _ _ s sound λ player _. then_lift IsSound _ _ s sound λ _ _.
            then_player IsSound _ _ s sound λ other _. then_lift IsSound _ _ s sound λ _ _.
              then_tell_other self_id connected send IsSound IsSound-blind _ _ _ s (
                then_player IsSound _ _ _ sound
                  λ player' here. put_player-IsSafe _ player' _ _ sound here (inl refl)))

  clear_found-IsSound :
      (pc_id : ℕ) (o : Option Player) (s : ShardState)
      → s.players pc_id ≡ o
      → IsSound s
      → IsSound (clear_found self_id connected send pc_id o s).1
  unfolding clear_found put_player pure
  clear_found-IsSound pc_id none s e sound = sound
  clear_found-IsSound pc_id (some player) s e sound =
      IsSound-put_player s pc_id player (record player { trade_id = none }) sound e (inr refl)

  pub clear_trade-IsSound :
      (pc_id : ℕ) (s : ShardState)
      → IsSound s
      → IsSound (clear_trade self_id connected send pc_id s).1
  unfolding clear_trade
  clear_trade-IsSound pc_id s sound = clear_found-IsSound pc_id (s.players pc_id) s refl sound

  pub trade_offer_refusal-IsSafe :
      (id_from : ℕ) (s : ShardState)
      → IsSound s
      → IsSafe (trade_offer_refusal self_id connected send id_from s)
  unfolding trade_offer_refusal
  trade_offer_refusal-IsSafe id_from s sound = then_lift IsSound _ _ s sound λ pc_id _.
      then_player IsSound _ _ s sound λ player_from here. then_lift IsSound _ _ s sound λ _ _.
        let cleared = record player_from { trade_offered_to = none } in
        let after = IsSound-put_player s id_from player_from cleared sound here (inl refl) in
        then_put_player IsSound id_from cleared _ s (
          then_player IsSound _ _ _ after
            λ _ _. told_other self_id connected send IsSound IsSound-blind _ _ _ after)

  pub trade_offer_cancel-IsSafe :
      (s : ShardState) → IsSound s → IsSafe (trade_offer_cancel self_id connected send s)
  unfolding trade_offer_cancel
  trade_offer_cancel-IsSafe s sound = then_lift IsSound _ _ s sound λ pc_id _.
      then_trading self_id connected send IsSound IsSound-blind _ _ s sound λ _ _ _ _.
        then_trade IsSound _ _ s λ trade _. then_lift IsSound _ _ s sound λ other _.
          then_player IsSound _ _ s sound
            λ _ _. told_other self_id connected send IsSound IsSound-blind _ _ s sound

  pub trade_emotes_chat-IsSafe :
      (id_from id_to : ℕ) (s : ShardState)
      → IsSound s
      → IsSafe (trade_emotes_chat self_id connected send id_from id_to s)
  unfolding trade_emotes_chat
  trade_emotes_chat-IsSafe id_from id_to s sound =
      reported self_id connected send IsSound IsSound-blind _ _ s (
        then_lift IsSound _ _ s sound λ pc_id _.
          then_trading self_id connected send IsSound IsSound-blind _ _ s sound λ _ _ _ _.
            then_trade IsSound _ _ s λ trade _. then_player IsSound _ _ s sound λ _ _.
              then_tell_other self_id connected send IsSound IsSound-blind _ _ _ s (
                then_player IsSound _ _ _ sound
                  λ _ _. told_other self_id connected send IsSound IsSound-blind _ _ _ sound))

  pub trade_cash_register-IsSafe :
      (id_from id_to taros : ℕ) (s : ShardState)
      → IsSound s
      → IsSafe (trade_cash_register self_id connected send id_from id_to taros s)
  unfolding trade_cash_register
  trade_cash_register-IsSafe id_from id_to taros s sound =
      reported self_id connected send IsSound IsSound-blind _ _ s (
        then_lift IsSound _ _ s sound λ pc_id _.
          then_trading self_id connected send IsSound IsSound-blind _ _ s sound
            λ player trade_id _ _. then_lift IsSound _ _ s sound λ _ _.
              then_trade IsSound trade_id _ s λ trade here.
                then_lift IsSound _ _ s sound λ trade' was_set.
                  let (from, to) = trade_set_taros-IsSameSides trade pc_id taros trade' was_set in
                  let after = IsSound-put_trade s trade_id trade trade' sound here from to in
                  then_put_trade IsSound trade_id (some trade') _ s (
                    then_lift IsSound _ _ _ after λ other _. then_player IsSound _ _ _ after λ _ _.
                      then_tell_other self_id connected send IsSound IsSound-blind _ _ _ _
                        (told_self self_id connected send IsSound IsSound-blind _ _ after)))

  then_changing :
      {A : Type 0} {B : Type 0} (trade_id : ℕ) (change : TradeContext → Outcome A × TradeContext)
      (f : A → Run B) (s : ShardState)
      → IsSound s
      → ((trade : TradeContext) → IsSameSides trade (change trade).1)
      → ((a : A) (s' : ShardState) → IsSound s' → IsSafe (f a s'))
      → IsSafe ((changing_trade self_id connected send trade_id change >>= f) s)
  unfolding changing_trade put_trade
  then_changing {A = A} trade_id change f s sound sides h =
      let Q : A → ShardState → Type 0 = λ a s'. IsSafe (f a s') in
      Post->>= _ IsSound (changing_trade self_id connected send trade_id change) f s (
        Post->>= Q IsSound (get_trade trade_id) _ s (
          Post-get_trade _ IsSound trade_id s (λ trade here.
            let (from, to) = sides trade in
            let after = IsSound-put_trade s trade_id trade (change trade).1 sound here from to in
            Post->>= Q IsSound (put_trade trade_id (some (change trade).1)) _ s (
              Post-ok _ IsSound tt _
                (Post-lift Q IsSound (change trade).0 _ (λ a _. h a _ after) after)))))

  pub trade_item_register-IsSafe :
      (is_tradeable : Item → Outcome Bool) (id_from id_to : ℕ) (request : RequestItem)
      (s : ShardState)
      → IsSound s
      → IsSafe (trade_item_register self_id connected send is_tradeable id_from id_to request s)
  unfolding trade_item_register
  trade_item_register-IsSafe is_tradeable id_from id_to request s sound =
      reported self_id connected send IsSound IsSound-blind _ _ s (
        then_lift IsSound _ _ s sound λ pc_id _.
          then_trading self_id connected send IsSound IsSound-blind _ _ s sound
            λ player trade_id _ _. then_lift IsSound _ _ s sound λ slot _.
              then_lift IsSound _ _ s sound λ item _. then_lift IsSound _ _ s sound λ tradeable _.
                then_lift IsSound _ _ s sound λ _ _.
                  then_changing trade_id _ _ s sound
                    (λ trade. trade_add_item-IsSameSides trade pc_id _ _ _)
                    λ total s' after. then_trade IsSound _ _ s' λ trade _.
                      then_lift IsSound _ _ s' after λ other _.
                        then_player IsSound _ _ s' after λ _ _.
                          then_tell_other self_id connected send IsSound IsSound-blind _ _ _ s'
                            (told_self self_id connected send IsSound IsSound-blind _ _ after))

  pub trade_item_unregister-IsSafe :
      (id_from id_to : ℕ) (request : RequestItem) (s : ShardState)
      → IsSound s
      → IsSafe (trade_item_unregister self_id connected send id_from id_to request s)
  unfolding trade_item_unregister
  trade_item_unregister-IsSafe id_from id_to request s sound =
      reported self_id connected send IsSound IsSound-blind _ _ s (
        then_lift IsSound _ _ s sound λ pc_id _.
          then_trading self_id connected send IsSound IsSound-blind _ _ s sound
            λ player trade_id _ _. then_trade IsSound _ _ s λ trade _.
              then_lift IsSound _ _ s sound λ other _.
                then_changing trade_id _ _ s sound
                  (λ trade. trade_remove_item-IsSameSides trade pc_id _)
                  λ removed s' after. then_player IsSound _ _ s' after λ mine _.
                    then_lift IsSound _ _ s' after λ slot _.
                      then_lift IsSound _ _ s' after λ item _.
                        then_player IsSound _ _ s' after λ _ _.
                          then_tell_other self_id connected send IsSound IsSound-blind _ _ _ s'
                            (told_self self_id connected send IsSound IsSound-blind _ _ after))
