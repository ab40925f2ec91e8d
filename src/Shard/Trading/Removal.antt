-- ===== src/Shard/Trading/Removal.antt =====
-- src/bin/shard/trade.rs: the trades are sound when one is removed and its two sides are cleared.
use rusty_fusion.Entity.Player.{Player}
use rusty_fusion.Prelude.{Bool-cases, Option, arith, inl, inr, none, some, ℕ, ◌==◌, ◌≡◌, ◌≢◌, ◌⊎◌}
use rusty_fusion.Shard.State.{ShardState, update}
use rusty_fusion.Shard.Trading.{found}
use rusty_fusion.Shard.Trading.Sound.{IsSound}
use rusty_fusion.Trade.{TradeContext}

-- Two players leave their trade.
abbrev pub left_trade : ShardState → ℕ → ℕ → ℕ → Player → Player → ShardState
left_trade s t a b player_a player_b = record s {
  players =
      update (update s.players a (some (record player_a { trade_id = none }))) b
        (some (record player_b { trade_id = none }));
  ongoing_trades = update s.ongoing_trades t none;
}

-- The trade of two players is removed, and the two of them have left it.
pub IsSound-removed :
    (s s' : ShardState) (t a b : ℕ) (trade : TradeContext)
    → IsSound s
    → s.ongoing_trades t ≡ some trade
    → ((trade.from_pc_id ≡ a) × (trade.to_pc_id ≡ b))
      ⊎ ((trade.to_pc_id ≡ a) × (trade.from_pc_id ≡ b))
    → ((k : ℕ) → s'.ongoing_trades k ≡ update s.ongoing_trades t none k)
    → ((j : ℕ) (p : Player)
        → s'.players j ≡ some p
        → (p.trade_id ≡ none) ⊎ ((j ≢ a) × (j ≢ b) × (s.players j ≡ some p)))
    → IsSound s'
unfolding update
IsSound-removed s s' t a b trade sound here sides trades players j p tid e h =
    elim (players j p e) [
      | inl cleared ↦ absurd (cc (cleared, h))
      | inr out ↦
          let (not_a, not_b, was) = out in
          let (found, is_found, side) = sound j p tid was h in
          elim (Bool-cases (tid == t)) [
            | inl same ↦
                let tid_is : tid ≡ t = ground arith in
                let is_trade : found ≡ trade = cc (is_found, tid_is, here) in
                absurd (outsider trade j a b not_a not_b sides (rw is_trade at side))
            | inr other ↦ (found, ground (arith, trades tid, is_found, other), side)
          ]
    ]
  where
    outsider :
        (trade : TradeContext) (j a b : ℕ)
        → j ≢ a
        → j ≢ b
        → ((trade.from_pc_id ≡ a) × (trade.to_pc_id ≡ b))
          ⊎ ((trade.to_pc_id ≡ a) × (trade.from_pc_id ≡ b))
        → ((trade.from_pc_id ≡ j) ⊎ (trade.to_pc_id ≡ j))
        → ⊥
    outsider trade j a b not_a not_b sides side = ground (arith, not_a, not_b, sides, side)

pub two_cleared :
    (m : ℕ → Option Player) (a b : ℕ) (new_a new_b : Player)
    → new_a.trade_id ≡ none
    → new_b.trade_id ≡ none
    → (j : ℕ) (p : Player) → update (update m a (some new_a)) b (some new_b) j ≡ some p
    → (p.trade_id ≡ none) ⊎ ((j ≢ a) × (j ≢ b) × (m j ≡ some p))
unfolding update
two_cleared m a b new_a new_b ha hb j p e = elim (Bool-cases (j == b)) [
  | inl is_b ↦ let same : new_b ≡ p = ground (arith, e, is_b) in inl (rw same at hb)
  | inr not_b ↦ elim (Bool-cases (j == a)) [
    | inl is_a ↦ let same : new_a ≡ p = ground (arith, e, is_a, not_b) in inl (rw same at ha)
    | inr not_a ↦ inr (ground arith, ground arith, ground (arith, e, not_a, not_b))
  ]
]

pub one_gone :
    (m : ℕ → Option Player) (a b : ℕ) (new_b : Player)
    → new_b.trade_id ≡ none
    → (j : ℕ) (p : Player) → update (update m a none) b (some new_b) j ≡ some p
    → (p.trade_id ≡ none) ⊎ ((j ≢ a) × (j ≢ b) × (m j ≡ some p))
unfolding update
one_gone m a b new_b hb j p e = elim (Bool-cases (j == b)) [
  | inl is_b ↦ let same : new_b ≡ p = ground (arith, e, is_b) in inl (rw same at hb)
  | inr not_b ↦ elim (Bool-cases (j == a)) [
    | inl is_a ↦ absurd (ground (arith, e, is_a, not_b))
    | inr not_a ↦ inr (ground arith, ground arith, ground (arith, e, not_a, not_b))
  ]
]

pub IsSound-gone :
    (s : ShardState) (a : ℕ) → IsSound s → IsSound (record s { players = update s.players a none })
unfolding update
IsSound-gone s a sound j p tid e h = elim (Bool-cases (j == a)) [
  | inl is_a ↦ absurd (ground (arith, e, is_a))
  | inr not_a ↦ sound j p tid (ground (arith, e, not_a)) h
]
