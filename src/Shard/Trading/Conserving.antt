-- ===== src/Shard/Trading/Conserving.antt =====
-- src/bin/shard/trade.rs: what two players hold between them, and what keeps it.
use rusty_fusion.Entity.Player.{Player}
use rusty_fusion.Entity.Player.Inventory.Contents.{main_held}
use rusty_fusion.Error.{Outcome, ok}
use rusty_fusion.Item.Kind.{ItemType}
use rusty_fusion.Prelude.{Bool, Option, arith, refl, some, ℕ, ◌+◌, ◌∙◌, ◌≡◌, ◌≢◌}
use rusty_fusion.Shard.State.{
  Message, Run, ShardState, get_player, get_trade, lift, pure, update, update_other, update_same,
  ◌>>=◌,
}
use rusty_fusion.Shard.Trading.{found, trading}
use rusty_fusion.Shard.Trading.Keeping.{IsKept}
use rusty_fusion.Trade.{TradeContext}

-- Against the two players before: together they hold the same taros, and the same number of items of
-- every kind in their main inventories; no other player has changed.
abbrev pub IsConserved : ShardState → ℕ → ℕ → Player → Player → ShardState → Type 0
IsConserved s a b player_a player_b s' =
    (a' : Player) × (b' : Player) × (s'.players a ≡ some a')
    × (s'.players b ≡ some b')
    × (a'.taros + b'.taros ≡ player_a.taros + player_b.taros)
    × ((ty : ItemType) (id : ℕ)
        → main_held ty id a' + main_held ty id b'
          ≡ main_held ty id player_a + main_held ty id player_b)
    × ((j : ℕ) → j ≢ a → j ≢ b → s'.players j ≡ s.players j)

pub IsConserved-put_player :
    (s : ShardState) (a b : ℕ) (player_a player_b a' b' : Player) (s' : ShardState)
    → a ≢ b
    → ((j : ℕ) → s'.players j ≡ update (update s.players a (some a')) b (some b') j)
    → a'.taros + b'.taros ≡ player_a.taros + player_b.taros
    → ((ty : ItemType) (id : ℕ)
        → main_held ty id a' + main_held ty id b'
          ≡ main_held ty id player_a + main_held ty id player_b)
    → IsConserved s a b player_a player_b s'
IsConserved-put_player s a b player_a player_b a' b' s' ne players taros items =
    let m = update s.players a (some a') in
    (
      a',
      b',
      players a ∙ update_other m b a (some b') ne ∙ update_same s.players a (some a'),
      players b ∙ update_same m b (some b'),
      taros,
      items,
      λ j not_a not_b.
          players j
          ∙ update_other m b j (some b') not_b
          ∙ update_other s.players a j (some a') not_a,
    )

pub same_updates :
    (m n : ℕ → Option Player) (a b : ℕ) (x y : Option Player)
    → ((j : ℕ) → m j ≡ n j)
    → (j : ℕ) → update (update m a x) b y j ≡ update (update n a x) b y j
unfolding update
same_updates m n a b x y h j = rw (h j) refl

pub two_overwritten :
    (m n : ℕ → Option Player) (a b : ℕ) (x y x' y' : Option Player)
    → ((j : ℕ) → m j ≡ update (update n a x) b y j)
    → (j : ℕ) → update (update m a x') b y' j ≡ update (update n a x') b y' j
unfolding update
two_overwritten m n a b x y x' y' h j = ground (arith, h j)

pub then_known :
    {A : Type 0} {B : Type 0} (I : ShardState → Type 0) (m : Run A) (a : A) (f : A → Run B)
    (s s' : ShardState)
    → m s ≡ (ok a, s')
    → IsKept I (f a s')
    → IsKept I ((m >>= f) s)
unfolding ◌>>=◌
then_known I m a f s s' e h = rw e h

module _ (pc_id : ℕ) (connected : ℕ → Bool) (send : Message → Outcome (Unit {0})) where
  pub trading-known :
      (s : ShardState) (player : Player) (t : ℕ)
      → s.players pc_id ≡ some player
      → player.trade_id ≡ some t
      → trading (ok pc_id) connected send pc_id s ≡ (ok (player, t), s)
  unfolding trading get_player ◌>>=◌ lift pure
  trading-known s player t here is_set = rw (here, is_set) refl

  pub get_trade-known :
      (s : ShardState) (t : ℕ) (trade : TradeContext)
      → s.ongoing_trades t ≡ some trade
      → get_trade t s ≡ (ok trade, s)
  unfolding get_trade
  get_trade-known s t trade here = rw here refl

  pub found-known :
      (s : ShardState) (j : ℕ) (player : Player)
      → s.players j ≡ some player
      → found (ok pc_id) connected send j s ≡ (ok player, s)
  unfolding found
  found-known s j player here = rw here refl

  pub lift-known :
      {A : Type 0} (m : Outcome A) (a : A) (s : ShardState) → m ≡ ok a → lift m s ≡ (ok a, s)
  unfolding lift
  lift-known m a s h = rw h refl
