-- ===== src/Shard/Trading/Requests.antt =====
-- src/bin/shard/main.rs and src/bin/shard/trade.rs: sequences of trade requests by any clients, with
-- what else happens on the shard between them.
use rusty_fusion.Entity.Player.{Player}
use rusty_fusion.Error.{Outcome, err, ok, panics}
use rusty_fusion.Item.{Item}
use rusty_fusion.Prelude.{Bool, inl, inr, none, refl, some, ℕ, ◌∙◌, ◌≡◌, ◌≢◌, ◌⊎◌}
use rusty_fusion.Shard.Post.{Post}
use rusty_fusion.Shard.State.{Message, Run, ShardState}
use rusty_fusion.Shard.Trading.{
  RequestItem, disconnect, trade_cash_register, trade_confirm, trade_confirm_cancel,
  trade_emotes_chat, trade_item_register, trade_item_unregister,
}
use rusty_fusion.Shard.Trading.Offers.{
  trade_offer, trade_offer_accept, trade_offer_cancel, trade_offer_refusal,
}
use rusty_fusion.Shard.Trading.Accept.{trade_offer_accept-IsSafe}
use rusty_fusion.Shard.Trading.Ending.{
  disconnect-IsSafe, trade_confirm-IsSafe, trade_confirm_cancel-IsSafe,
}
use rusty_fusion.Shard.Trading.Invariant.{
  trade_cash_register-IsSafe, trade_emotes_chat-IsSafe, trade_item_register-IsSafe,
  trade_item_unregister-IsSafe, trade_offer-IsSafe, trade_offer_cancel-IsSafe,
  trade_offer_refusal-IsSafe,
}
use rusty_fusion.Shard.Trading.Sound.{IsSafe, IsSound}

-- The packets of a trade, and a client that leaves.
pub data TradeRequest : Type 0 where
  req_offer req_accept req_emotes_chat : ℕ → ℕ → TradeRequest
  req_refuse req_leave : ℕ → TradeRequest
  req_cancel req_confirm_cancel req_confirm : TradeRequest
  req_cash_register : ℕ → ℕ → ℕ → TradeRequest
  req_item_register req_item_unregister : ℕ → ℕ → RequestItem → TradeRequest

-- What a request meets: the parameters of the handlers, and a fresh trade id.
pub record Surroundings : Type 0 where
  pub self_id : Outcome ℕ
  pub connected : ℕ → Bool
  pub send : Message → Outcome (Unit {0})
  pub validate_proximity : ℕ → ℕ → Outcome (Unit {0})
  pub is_tradeable : Item → Outcome Bool
  pub new_trade_id : ℕ

-- `handle_packet` calls the handler of the packet's id.
unfoldable pub handle : Surroundings → TradeRequest → Run (Unit {0})
handle w (req_offer id_from id_to) =
    trade_offer w.self_id w.connected w.send w.validate_proximity id_from id_to
handle w (req_accept id_from id_to) =
    trade_offer_accept w.self_id w.connected w.send w.new_trade_id id_from id_to
handle w (req_emotes_chat id_from id_to) =
    trade_emotes_chat w.self_id w.connected w.send id_from id_to
handle w (req_refuse id_from) = trade_offer_refusal w.self_id w.connected w.send id_from
handle w (req_leave pc_id) = disconnect w.self_id w.connected w.send pc_id
handle w req_cancel = trade_offer_cancel w.self_id w.connected w.send
handle w req_confirm_cancel = trade_confirm_cancel w.self_id w.connected w.send
handle w req_confirm = trade_confirm w.self_id w.connected w.send
handle w (req_cash_register id_from id_to taros) =
    trade_cash_register w.self_id w.connected w.send id_from id_to taros
handle w (req_item_register id_from id_to item) =
    trade_item_register w.self_id w.connected w.send w.is_tradeable id_from id_to item
handle w (req_item_unregister id_from id_to item) =
    trade_item_unregister w.self_id w.connected w.send id_from id_to item

handle-IsSafe :
    (w : Surroundings) (request : TradeRequest) (s : ShardState)
    → IsSound s
    → s.ongoing_trades w.new_trade_id ≡ none
    → IsSafe (handle w request s)
unfolding handle
handle-IsSafe w (req_offer a b) s sound fresh =
    trade_offer-IsSafe w.self_id w.connected w.send w.validate_proximity a b s sound
handle-IsSafe w (req_accept a b) s sound fresh =
    trade_offer_accept-IsSafe w.self_id w.connected w.send w.new_trade_id a b s sound fresh
handle-IsSafe w (req_emotes_chat a b) s sound fresh =
    trade_emotes_chat-IsSafe w.self_id w.connected w.send a b s sound
handle-IsSafe w (req_refuse a) s sound fresh =
    trade_offer_refusal-IsSafe w.self_id w.connected w.send a s sound
handle-IsSafe w (req_leave a) s sound fresh =
    disconnect-IsSafe w.self_id w.connected w.send a s sound
handle-IsSafe w req_cancel s sound fresh =
    trade_offer_cancel-IsSafe w.self_id w.connected w.send s sound
handle-IsSafe w req_confirm_cancel s sound fresh =
    trade_confirm_cancel-IsSafe w.self_id w.connected w.send s sound
handle-IsSafe w req_confirm s sound fresh =
    trade_confirm-IsSafe w.self_id w.connected w.send s sound
handle-IsSafe w (req_cash_register a b n) s sound fresh =
    trade_cash_register-IsSafe w.self_id w.connected w.send a b n s sound
handle-IsSafe w (req_item_register a b item) s sound fresh =
    trade_item_register-IsSafe w.self_id w.connected w.send w.is_tradeable a b item s sound
handle-IsSafe w (req_item_unregister a b item) s sound fresh =
    trade_item_unregister-IsSafe w.self_id w.connected w.send a b item s sound

-- What the rest of the server may do between two requests: change players and bring new ones, as long
-- as a trade id is kept or missing, and no trade is touched.
abbrev pub IsElsewhere : ShardState → ShardState → Type 0
IsElsewhere s s' =
    ((t : ℕ) → s'.ongoing_trades t ≡ s.ongoing_trades t)
    × ((pc_id : ℕ) (player' : Player)
        → s'.players pc_id ≡ some player'
        → (player'.trade_id ≡ none)
          ⊎ ((player : Player) × (s.players pc_id ≡ some player)
              × (player.trade_id ≡ player'.trade_id)))

-- The states after any number of steps from a state. A request that panics ends the server.
pub data Reaches (s : ShardState) : ShardState → Type 0 where
  start : Reaches s s
  requested :
      {s1 : ShardState}
      → Reaches s s1
      → (w : Surroundings) (r : TradeRequest) → s1.ongoing_trades w.new_trade_id ≡ none
      → (handle w r s1).0 ≢ panics
      → Reaches s (handle w r s1).1
  elsewhere : {s1 s2 : ShardState} → Reaches s s1 → IsElsewhere s1 s2 → Reaches s s2

IsSafe-state : (r : Outcome (Unit {0}) × ShardState) → r.0 ≢ panics → IsSafe r → IsSound r.1
unfolding Post
IsSafe-state (ok u, s) h safe = safe
IsSafe-state (err e, s) h safe = safe
IsSafe-state (panics, s) h safe = absurd (h refl)

-- However many requests any clients make, and whatever the server does between them that leaves trades
-- and trade ids alone: if each new trade id is unused and no handler has panicked, then a player whose
-- trade id is set is one of the two sides of an ongoing trade of that id, given that this holds
-- at the start.
pub Reaches-IsSound : (s s' : ShardState) → IsSound s → Reaches s s' → IsSound s'
Reaches-IsSound s s' sound start = sound
Reaches-IsSound s s' sound (requested before w r fresh lives) =
    IsSafe-state (handle w r _) lives (handle-IsSafe w r _ (Reaches-IsSound s _ sound before) fresh)
Reaches-IsSound s s' sound (elsewhere {s1 = s1} before (trades, players)) =
    λ pc_id player' t here is_set. elim (players pc_id player' here) [
      | inl cleared ↦ absurd (cc (cleared, is_set))
      | inr kept ↦
          let (player, was, same) = kept in
          let (trade, is_trade, side) =
            Reaches-IsSound s s1 sound before pc_id player t was (same ∙ is_set) in
          (trade, trades t ∙ is_trade, side)
    ]
