-- ===== src/Shard/Trading/Offers.antt =====
-- src/bin/shard/trade.rs: offering a trade, and accepting, refusing and cancelling an offer.
use rusty_fusion.Entity.Player.{Player}
use rusty_fusion.Error.{Outcome, build, guard, info, warning}
use rusty_fusion.Prelude.{Bool, Option, false, is_none, none, some, ℕ, ◌==◌}
use rusty_fusion.Shard.State.{
  Message, Run, catching, get_player, get_trade, lift, pure, put_player, put_trade,
  trade_offer_abort, trade_offer_cancel_rep, trade_offer_refusal_rep, trade_offer_rep,
  trade_offer_succ, ◌>>=◌, ◌>>◌,
}
use rusty_fusion.Shard.Trading.{tell_other, tell_self, trading}
use rusty_fusion.Trade.{get_other_id, new_trade}

module _ (self_id : Outcome ℕ) (connected : ℕ → Bool) (send : Message → Outcome (Unit {0})) where
  unfoldable pub trade_offer : (ℕ → ℕ → Outcome (Unit {0})) → ℕ → ℕ → Run (Unit {0})
  trade_offer validate_proximity id_from id_to =
      catching
        (do
          pc_id ← lift self_id
          lift (validate_proximity pc_id id_to)
          player ← get_player pc_id
          lift (guard (is_none player.trade_id) (build warning "From player already trading"))
          other_player ← get_player id_to
          lift (guard (is_none other_player.trade_id) (build warning "To player already trading"))
          tell_other self_id connected send id_to (trade_offer_rep pc_id id_to)
          player' ← get_player pc_id
          put_player pc_id (record player' { trade_offered_to = some id_to }))
        (tell_self self_id connected send (trade_offer_refusal_rep id_from id_to))

  unfoldable pub clear_found : ℕ → Option Player → Run (Unit {0})
  clear_found pc_id none = pure tt
  clear_found pc_id (some player) = put_player pc_id (record player { trade_id = none })

  -- `if let Ok(player) = state.get_player_mut(pc_id) { player.trade_id = None; }`
  unfoldable pub clear_trade : ℕ → Run (Unit {0})
  unfolding clear_found
  clear_trade pc_id s = clear_found pc_id (s.players pc_id) s

  unfoldable pub offered_to : Player → ℕ → Bool
  offered_to player pc_id = elim player.trade_offered_to [
    | none ↦ false
    | some other_id ↦ other_id == pc_id
  ]

  unfoldable pub trade_offer_accept : ℕ → ℕ → ℕ → Run (Unit {0})
  unfolding clear_trade offered_to
  trade_offer_accept trade_id id_from id_to =
      catching
        (do
          pc_id ← lift self_id
          player_from ← get_player id_from
          lift (guard (offered_to player_from pc_id) (build info "Trade offer expired"))
          put_player id_from
              (record player_from { trade_offered_to = none; trade_id = some trade_id })
          tell_other self_id connected send id_from (trade_offer_succ id_from pc_id)
          player_to ← get_player pc_id
          put_player pc_id (record player_to { trade_id = some trade_id })
          put_trade trade_id (some (new_trade id_from pc_id)))
        (do
          clear_trade id_from
          clear_trade id_to
          tell_self self_id connected send (trade_offer_abort id_from id_to))

  unfoldable pub trade_offer_refusal : ℕ → Run (Unit {0})
  unfolding offered_to
  trade_offer_refusal id_from = do
    pc_id ← lift self_id
    player_from ← get_player id_from
    lift (guard (offered_to player_from pc_id) (build info "Trade offer expired"))
    put_player id_from (record player_from { trade_offered_to = none })
    _ ← get_player id_from
    tell_other self_id connected send id_from (trade_offer_refusal_rep id_from pc_id)

  unfoldable pub trade_offer_cancel : Run (Unit {0})
  trade_offer_cancel = do
    pc_id ← lift self_id
    (_, trade_id) ← trading self_id connected send pc_id
    trade ← get_trade trade_id
    other_pc_id ← lift (get_other_id trade pc_id)
    _ ← get_player other_pc_id
    tell_other self_id connected send other_pc_id
        (trade_offer_cancel_rep trade.from_pc_id trade.to_pc_id)
