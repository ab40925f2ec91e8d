-- ===== src/Shard/Trading/Sound.antt =====
-- src/bin/shard/trade.rs: what it is for the trades of a shard to be sound, and the steps that keep it.
use rusty_fusion.Entity.Player.{Player}
use rusty_fusion.Error.{Outcome}
use rusty_fusion.Prelude.{Bool-cases, List, Option, arith, inl, inr, none, some, ℕ, ◌==◌, ◌≡◌, ◌⊎◌}
use rusty_fusion.Shard.Post.{Post-ok}
use rusty_fusion.Shard.State.{Message, ShardState, put_player, update}
use rusty_fusion.Shard.Trading.{found}
use rusty_fusion.Shard.Trading.Keeping.{IsKept}
use rusty_fusion.Trade.{TradeContext}

-- A player whose trade id is set is a side of the ongoing trade of that id.
abbrev pub IsSound : ShardState → Type 0
IsSound s =
    (pc_id : ℕ) (player : Player) (trade_id : ℕ)
    → s.players pc_id ≡ some player
    → player.trade_id ≡ some trade_id
    → (trade : TradeContext) × (s.ongoing_trades trade_id ≡ some trade)
      × ((trade.from_pc_id ≡ pc_id) ⊎ (trade.to_pc_id ≡ pc_id))

-- A state that differs in the outbox only, or in a player whose trade id is kept or cleared, or in a
-- trade whose sides are kept.
pub IsSound-put_player :
    (s : ShardState) (pc_id : ℕ) (old changed : Player)
    → IsSound s
    → s.players pc_id ≡ some old
    → (changed.trade_id ≡ old.trade_id) ⊎ (changed.trade_id ≡ none)
    → IsSound (record s { players = update s.players pc_id (some changed) })
unfolding update
IsSound-put_player s pc_id old changed sound here (inl same) j player trade_id e t =
    elim (Bool-cases (j == pc_id)) [
      | inl at ↦
          let j_is : j ≡ pc_id = ground arith in
          let is_new : changed ≡ player = ground (arith, e, at) in
          let was : old.trade_id ≡ some trade_id = cc (same, is_new, t) in
          sound j old trade_id (rw j_is here) was
      | inr other ↦ sound j player trade_id (ground (arith, e, other)) t
    ]
IsSound-put_player s pc_id old changed sound here (inr cleared) j player trade_id e t =
    elim (Bool-cases (j == pc_id)) [
      | inl at ↦
          let is_new : changed ≡ player = ground (arith, e, at) in absurd (cc (cleared, is_new, t))
      | inr other ↦ sound j player trade_id (ground (arith, e, other)) t
    ]

pub IsSound-put_trade :
    (s : ShardState) (trade_id : ℕ) (old changed : TradeContext)
    → IsSound s
    → s.ongoing_trades trade_id ≡ some old
    → changed.from_pc_id ≡ old.from_pc_id
    → changed.to_pc_id ≡ old.to_pc_id
    → IsSound (record s { ongoing_trades = update s.ongoing_trades trade_id (some changed) })
unfolding update
IsSound-put_trade s trade_id old changed sound here from to j player t e h =
    elim (Bool-cases (t == trade_id)) [
      | inl at ↦
          let (trade, found, side) = sound j player t e h in
          let t_is : t ≡ trade_id = ground arith in
          let is_old : trade ≡ old = cc (found, t_is, here) in
          (
            changed,
            ground (arith, at),
            elim side [ inl f ↦ inl (cc (from, is_old, f)) | inr g ↦ inr (cc (to, is_old, g)) ],
          )
      | inr other ↦
          let (trade, found, side) = sound j player t e h in
          (trade, ground (arith, found, other), side)
    ]

-- Soundness after a run that starts in a sound state, whether it succeeds or is an error.
abbrev pub IsSafe : {A : Type 0} → Outcome A × ShardState → Type 0
IsSafe r = IsKept IsSound r

pub IsSound-blind :
    (s : ShardState) (o : List (Option ℕ × Message)) → IsSound s → IsSound (record s { outbox = o })
IsSound-blind s o sound = sound

pub put_player-IsSafe :
    (pc_id : ℕ) (old changed : Player) (s : ShardState)
    → IsSound s
    → s.players pc_id ≡ some old
    → (changed.trade_id ≡ old.trade_id) ⊎ (changed.trade_id ≡ none)
    → IsSafe (put_player pc_id changed s)
unfolding put_player
put_player-IsSafe pc_id old changed s sound here keeps =
    Post-ok _ _ tt _ (IsSound-put_player s pc_id old changed sound here keeps)
