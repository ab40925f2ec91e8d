-- ===== src/Shard/Trading.antt =====
-- src/bin/shard/trade.rs: the handlers of trade packets. Of the code around them, the player id of
-- the requesting client, whether a player has a client, the result of sending to the requesting client,
-- the distance check, the table data and a fresh trade id are parameters.
pub mod Offers
pub mod Steps
pub mod Keeping
pub mod Sound
pub mod Invariant
pub mod Ending
pub mod Accept
pub mod Requests
pub mod Confirm
pub mod Conserving
pub mod Removal
use rusty_fusion.Entity.Player.{Player}
use rusty_fusion.Entity.Player.Inventory.{get_item}
use rusty_fusion.Error.{
  Outcome, build, err, guard, ok, ok_or, panics, unwrap, unwrap_result, warning,
}
use rusty_fusion.Item.{Item}
use rusty_fusion.Item.Kind.{inven}
use rusty_fusion.Mission.{changed}
use rusty_fusion.Prelude.{
  Bool, List, Option, if◌then◌else◌, ltb, none, not, some, ℕ, ◌%◌, ◌+◌, ◌-◌, ◌^◌,
}
use rusty_fusion.Shard.State.{
  Message, Run, catching, get_player, get_trade, lift, pure, put_player, put_trade, remove_player,
  tell, trade_cash_register_fail, trade_cash_register_succ, trade_confirm_abort,
  trade_confirm_cancel_rep, trade_confirm_rep, trade_confirm_succ, trade_emotes_chat_fail,
  trade_emotes_chat_rep, trade_item_register_fail, trade_item_register_succ,
  trade_item_unregister_fail, trade_item_unregister_succ, ◌>>=◌, ◌>>◌,
}
use rusty_fusion.Trade.{
  ItemTrade, TradeContext, get_other_id, lock_in, resolve, trade_add_item, trade_remove_item,
  trade_set_taros,
}
use rusty_fusion.Util.Words.{is_positive, sign_extended}

-- The fields of `sItemTrade` in a request: the offered quantity, the inventory slot, the trade slot.
pub record RequestItem : Type 0 where
  pub i_opt : ℕ
  pub i_inven_num : ℕ
  pub i_slot_num : ℕ

module _ (self_id : Outcome ℕ) (connected : ℕ → Bool) (send : Message → Outcome (Unit {0})) where
  -- `other.get_client(clients).unwrap()`, and the send that is only logged.
  unfoldable pub tell_other : ℕ → Message → Run (Unit {0})
  tell_other other message = if connected other then tell (some other) message else lift panics

  unfoldable pub tell_self : Message → Run (Unit {0})
  tell_self message = do tell none message; lift (send message)

  -- `state.get_player_mut(pc_id).unwrap()`
  unfoldable pub found : ℕ → Run Player
  found pc_id s = (unwrap (s.players pc_id), s)

  unfoldable pub trading : ℕ → Run (Player × ℕ)
  trading pc_id = do
    player ← get_player pc_id
    trade_id ← lift (ok_or player.trade_id (build warning "Player is not trading"))
    pure (player, trade_id)

  unfoldable pub trade_cash_register : ℕ → ℕ → ℕ → Run (Unit {0})
  trade_cash_register id_from id_to req_taros =
      catching
        (do
          pc_id ← lift self_id
          (player, trade_id) ← trading pc_id
          lift (
              guard (not (ltb player.taros req_taros))
                (build warning "Player doesn't have enough taros"))
          trade ← get_trade trade_id
          trade' ← lift (trade_set_taros trade pc_id req_taros)
          put_trade trade_id (some trade')
          other_id ← lift (get_other_id trade' pc_id)
          _ ← get_player other_id
          tell_other other_id (trade_cash_register_succ trade'.from_pc_id trade'.to_pc_id req_taros)
          tell_self (trade_cash_register_succ trade'.from_pc_id trade'.to_pc_id req_taros))
        (tell_self (trade_cash_register_fail id_from id_to))

  -- The trade is changed even if the result is an error.
  changing_trade : {A : Type 0} → ℕ → (TradeContext → Outcome A × TradeContext) → Run A
  changing_trade trade_id change = do
    trade ← get_trade trade_id
    let changed = change trade
    put_trade trade_id (some changed.1)
    lift changed.0

  unfoldable pub trade_item_register : (Item → Outcome Bool) → ℕ → ℕ → RequestItem → Run (Unit {0})
  unfolding changing_trade
  trade_item_register is_tradeable id_from id_to request =
      catching
        (do
          pc_id ← lift self_id
          (player, trade_id) ← trading pc_id
          let quantity = if is_positive request.i_opt then request.i_opt % 2 ^ 16 else 1
          let inven_slot_num = sign_extended request.i_inven_num
          slot ← lift (get_item player inven inven_slot_num)
          item ← lift (ok_or slot (build warning "Player tried to trade nothing"))
          tradeable ← lift (is_tradeable item)
          lift (guard tradeable (build warning "Item not tradeable"))
          total ← changing_trade trade_id (λ trade.
              trade_add_item trade pc_id (sign_extended request.i_slot_num) inven_slot_num quantity)
          let quantity_left = (item.quantity + 2 ^ 16 - total) % 2 ^ 16
          trade ← get_trade trade_id
          other_id ← lift (get_other_id trade pc_id)
          _ ← get_player other_id
          let message =
              trade_item_register_succ trade.from_pc_id trade.to_pc_id inven_slot_num quantity_left
          tell_other other_id message
          tell_self message)
        (tell_self (trade_item_register_fail id_from id_to))

  unfoldable pub trade_item_unregister : ℕ → ℕ → RequestItem → Run (Unit {0})
  unfolding changing_trade
  trade_item_unregister id_from id_to request =
      catching
        (do
          pc_id ← lift self_id
          (_, trade_id) ← trading pc_id
          trade ← get_trade trade_id
          other_pc_id ← lift (get_other_id trade pc_id)
          (total, inven_slot_num) ←
              changing_trade trade_id
                (λ trade. trade_remove_item trade pc_id (sign_extended request.i_slot_num))
          player ← get_player pc_id
          slot ← lift (unwrap_result (get_item player inven inven_slot_num))
          item ← lift (unwrap slot)
          let quantity = (item.quantity + 2 ^ 16 - total) % 2 ^ 16
          _ ← get_player other_pc_id
          let message =
              trade_item_unregister_succ trade.from_pc_id trade.to_pc_id inven_slot_num quantity
          tell_other other_pc_id message
          tell_self message)
        (tell_self (trade_item_unregister_fail id_from id_to))

  unfoldable pub trade_confirm_cancel : Run (Unit {0})
  trade_confirm_cancel = do
    pc_id ← lift self_id
    (player, trade_id) ← trading pc_id
    put_player pc_id (record player { trade_id = none })
    trade ← get_trade trade_id
    put_trade trade_id none
    other_pc_id ← lift (get_other_id trade pc_id)
    other_player ← found other_pc_id
    put_player other_pc_id (record other_player { trade_id = none })
    tell_other other_pc_id (trade_confirm_cancel_rep trade.from_pc_id trade.to_pc_id)

  settle :
      ℕ
      → ℕ
      → TradeContext
      → Outcome (Player × Player × List ItemTrade × List ItemTrade)
      → Run (Unit {0})
  settle pc_id other_id trade (ok (player, other, items, items_other)) = do
    put_player pc_id player
    put_player other_id other
    tell_other other_id
        (trade_confirm_succ trade.from_pc_id trade.to_pc_id other.taros items_other items)
    tell_self (trade_confirm_succ trade.from_pc_id trade.to_pc_id player.taros items items_other)
  settle pc_id other_id trade (err e) = do
    tell_other other_id (trade_confirm_abort trade.from_pc_id trade.to_pc_id)
    tell_self (trade_confirm_abort trade.from_pc_id trade.to_pc_id)
  settle pc_id other_id trade panics = lift panics

  -- The trade is resolved on copies of the players, which are stored if it succeeds.
  carry_out : ℕ → ℕ → ℕ → Run (Unit {0})
  unfolding settle
  carry_out pc_id other_id trade_id = do
    player ← found pc_id
    put_player pc_id (record player { trade_id = none })
    player_other ← found other_id
    put_player other_id (record player_other { trade_id = none })
    trade ← get_trade trade_id
    put_trade trade_id none
    settle pc_id other_id trade (
        resolve trade (record player { trade_id = none }) (record player_other { trade_id = none }))

  unfoldable pub trade_confirm : Run (Unit {0})
  unfolding carry_out
  trade_confirm = do
    pc_id ← lift self_id
    (_, trade_id) ← trading pc_id
    trade ← get_trade trade_id
    other_id ← lift (get_other_id trade pc_id)
    (trade', both_ready) ← lift (lock_in trade pc_id)
    put_trade trade_id (some trade')
    tell_self (trade_confirm_rep trade'.from_pc_id trade'.to_pc_id)
    _ ← get_player other_id
    tell_other other_id (trade_confirm_rep trade'.from_pc_id trade'.to_pc_id)
    if both_ready then carry_out pc_id other_id trade_id else pure tt

  unfoldable pub trade_emotes_chat : ℕ → ℕ → Run (Unit {0})
  trade_emotes_chat id_from id_to =
      catching
        (do
          pc_id ← lift self_id
          (_, trade_id) ← trading pc_id
          trade ← get_trade trade_id
          _ ← get_player trade.from_pc_id
          tell_other trade.from_pc_id (trade_emotes_chat_rep trade.from_pc_id trade.to_pc_id)
          _ ← get_player trade.to_pc_id
          tell_other trade.to_pc_id (trade_emotes_chat_rep trade.from_pc_id trade.to_pc_id))
        (tell_self (trade_emotes_chat_fail id_from id_to))

  leave_trade : ℕ → Option ℕ → Run (Unit {0})
  leave_trade pc_id none = pure tt
  leave_trade pc_id (some trade_id) = do
    trade ← get_trade trade_id
    put_trade trade_id none
    pc_id_other ← lift (get_other_id trade pc_id)
    player_other ← found pc_id_other
    put_player pc_id_other (record player_other { trade_id = none })
    tell_other pc_id_other (trade_confirm_cancel_rep trade.from_pc_id trade.to_pc_id)

  -- The player is untracked, and its clean-up cancels the trade that it is in; what the clean-up does to its
  -- group and its sold items is left out here.
  unfoldable pub disconnect : ℕ → Run (Unit {0})
  unfolding leave_trade
  disconnect pc_id = do player ← found pc_id; remove_player pc_id; leave_trade pc_id player.trade_id
