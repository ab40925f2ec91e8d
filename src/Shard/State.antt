-- ===== src/Shard/State.antt =====
-- src/state/shard.rs: the part of `ShardServerState` that the modelled handlers use, and the way they
-- run. A map is a function; the packets that are sent go to an outbox, the latest first,
-- with the player that a packet goes to, or `none` for the client that made the request.
use rusty_fusion.Entity.Group.{Group}
use rusty_fusion.Entity.Npc.{Npc}
use rusty_fusion.Entity.Player.{Player}
use rusty_fusion.Error.{Outcome, build, catch_fail, err, ok, ok_or, panics, unwrap, warning}
use rusty_fusion.Item.{Item, ItemBase}
use rusty_fusion.Prelude.{
  ==_ne, ==_refl, Bool, List, Option, if◌then◌else◌, none, refl, some, ℕ, ◌==◌, ◌∷◌, ◌≡◌, ◌≢◌,
}
use rusty_fusion.Trade.{ItemTrade, TradeContext}

pub data Message : Type 0 where
  trade_offer_rep trade_offer_refusal_rep trade_offer_abort trade_offer_succ : ℕ → ℕ → Message
  trade_offer_cancel_rep trade_confirm_cancel_rep trade_confirm_rep : ℕ → ℕ → Message
  trade_confirm_abort trade_emotes_chat_rep trade_emotes_chat_fail : ℕ → ℕ → Message
  trade_cash_register_succ : ℕ → ℕ → ℕ → Message
  trade_cash_register_fail trade_item_register_fail trade_item_unregister_fail : ℕ → ℕ → Message
  trade_item_register_succ trade_item_unregister_succ : ℕ → ℕ → ℕ → ℕ → Message
  trade_confirm_succ : ℕ → ℕ → ℕ → List ItemTrade → List ItemTrade → Message
  pc_group_invite_req pc_group_invite_refuse_rep pc_group_join_fail : ℕ → Message
  pc_group_invite_fail pc_group_leave_succ pc_group_leave_fail : Message
  pc_group_join_succ pc_group_leave_rep : ℕ → List ℕ → List ℕ → Message
  npc_group_invite_succ npc_group_kick_succ : ℕ → List ℕ → List ℕ → Message
  item_move_succ : ℕ → ℕ → ItemBase → ℕ → ℕ → ItemBase → Message
  equip_change : ℕ → ℕ → ItemBase → Message
  state_change : ℕ → ℕ → Message
  vehicle_off_succ : Message
  item_delete_succ : ℕ → ℕ → Message
  item_combination_succ : ℕ → ItemBase → ℕ → ℕ → Bool → Message
  item_combination_fail : ℕ → ℕ → Message
  reward_item : ℕ → ℕ → ℕ → ℕ → ItemBase → ℕ → ℕ → Message
  item_chest_open_succ item_chest_open_fail : ℕ → Message
  vendor_start_succ : ℕ → ℕ → Message
  vendor_item_buy_succ vendor_item_restore_buy_succ : ℕ → ℕ → ItemBase → Message
  vendor_item_sell_succ : ℕ → ℕ → ItemBase → ItemBase → Message
  vendor_battery_buy_succ : ℕ → ℕ → ℕ → Message
  vendor_start_fail vendor_item_buy_fail vendor_item_sell_fail : Message
  vendor_item_restore_buy_fail vendor_battery_buy_fail : Message
  streetstall_cancel_succ : Message

pub record ShardState : Type 0 where
  pub players : ℕ → Option Player
  pub npcs : ℕ → Option Npc
  pub ongoing_trades : ℕ → Option TradeContext
  pub groups : ℕ → Option Group
  pub buyback_lists : ℕ → Option (List Item)
  pub outbox : List (Option ℕ × Message)

-- `insert` of a map, or `remove` for `none`.
unfoldable pub update {ℓ} : {V : Type ℓ} → (ℕ → V) → ℕ → V → ℕ → V
update m k v j = if j == k then v else m j

-- A computation that may fail and changes the state.
abbrev pub Run : Type 0 → Type 0
Run A = ShardState → Outcome A × ShardState

module _ {A : Type 0} {B : Type 0} where
  abbrev pub continue : Outcome A → (A → Run B) → Run B
  continue (ok a) f s = f a s
  continue (err e) f s = (err e, s)
  continue panics f s = (panics, s)

  infixl 5 ◌>>=◌
  unfoldable pub ◌>>=◌ : Run A → (A → Run B) → Run B
  (m >>= f) s = continue (m s).0 f (m s).1

infixl 5 ◌>>◌
abbrev pub ◌>>◌ : {B : Type 0} → Run (Unit {0}) → Run B → Run B
m >> k = m >>= λ _. k

unfoldable pub lift : {A : Type 0} → Outcome A → Run A
lift m s = (m, s)

unfoldable pub pure : {A : Type 0} → A → Run A
pure a s = (ok a, s)

-- The closure's result, and the failure handler that runs on the state that the closure left.
unfoldable pub catching : {A : Type 0} → Run A → Run (Unit {0}) → Run A
catching body on_fail s = catch_fail (body s).0 on_fail (body s).1

unfoldable pub get_player : ℕ → Run Player
get_player pc_id s = (ok_or (s.players pc_id) (build warning "Player doesn't exist"), s)

-- A write through the reference of `get_player_mut`.
unfoldable pub put_player : ℕ → Player → Run (Unit {0})
unfolding update
put_player pc_id player s = (ok tt, record s { players = update s.players pc_id (some player) })

unfoldable pub remove_player : ℕ → Run (Unit {0})
unfolding update
remove_player pc_id s = (ok tt, record s { players = update s.players pc_id none })

unfoldable pub get_trade : ℕ → Run TradeContext
get_trade trade_id s = (unwrap (s.ongoing_trades trade_id), s)

unfoldable pub put_trade : ℕ → Option TradeContext → Run (Unit {0})
unfolding update
put_trade trade_id trade s =
    (ok tt, record s { ongoing_trades = update s.ongoing_trades trade_id trade })

-- A packet to a client whose result is only logged.
unfoldable pub tell : Option ℕ → Message → Run (Unit {0})
tell to message s = (ok tt, record s { outbox = (to, message) ∷ s.outbox })

pub update_same {ℓ} : {V : Type ℓ} (m : ℕ → V) (k : ℕ) (v : V) → update m k v k ≡ v
unfolding update
update_same m k v = rw (==_refl k) refl

pub update_other {ℓ} : {V : Type ℓ} (m : ℕ → V) (k j : ℕ) (v : V) → j ≢ k → update m k v j ≡ m j
unfolding update
update_other m k j v ne = rw (==_ne j k ne) refl
