-- ===== src/Shard/Post.antt =====
-- What holds after a run: of its result and state if it succeeds, and of its state if it is an error.
-- Nothing is asked of a run that panics.
use rusty_fusion.Entity.Player.{Player}
use rusty_fusion.Error.{
  FfError, Outcome, build, catch_fail, err, ok, ok_or, panics, report, unwrap, warning,
}
use rusty_fusion.Prelude.{Option, none, refl, some, ℕ, ◌≡◌}
use rusty_fusion.Shard.State.{
  Run, ShardState, catching, continue, get_player, get_trade, lift, pure, ◌>>=◌,
}
use rusty_fusion.Trade.{TradeContext}

unfoldable pub Post :
    {A : Type 0}
    → (A → ShardState → Type 0)
    → (ShardState → Type 0)
    → Outcome A × ShardState
    → Type 0
Post Q E (ok a, s) = Q a s
Post Q E (err e, s) = E s
Post Q E (panics, s) = Unit

module _ {A : Type 0} {B : Type 0} (Q : B → ShardState → Type 0) (E : ShardState → Type 0) where
  pub Post->>= :
      (m : Run A) (f : A → Run B) (s : ShardState)
      → Post (λ a s'. Post Q E (f a s')) E (m s)
      → Post Q E ((m >>= f) s)
  unfolding Post ◌>>=◌
  Post->>= m f s h = go (m s) h
    where
      go :
          (r : Outcome A × ShardState)
          → Post (λ a s'. Post Q E (f a s')) E r
          → Post Q E (continue r.0 f r.1)
      go (ok a, s') h = h
      go (err e, s') h = h
      go (panics, s') h = h

module _ {A : Type 0} (Q : A → ShardState → Type 0) (E : ShardState → Type 0) where
  pub Post-lift :
      (m : Outcome A) (s : ShardState) → ((a : A) → m ≡ ok a → Q a s) → E s → Post Q E (lift m s)
  unfolding Post lift
  Post-lift (ok a) s h e = h a refl
  Post-lift (err x) s h e = e
  Post-lift panics s h e = tt

  pub Post-catching :
      (body : Run A) (on_fail : Run (Unit {0})) (s : ShardState)
      → Post Q (λ s'. (o : Outcome (Unit {0}) × ShardState) → o ≡ on_fail s' → E o.1) (body s)
      → Post Q E (catching body on_fail s)
  unfolding catching catch_fail report Post
  Post-catching body on_fail s h = go (body s) h
    where
      failed : (e : FfError) (o : Outcome (Unit {0}) × ShardState) → E o.1 → Post Q E (report e o)
      failed e (ok u, s') h = h
      failed e (err ee, s') h = h
      failed e (panics, s') h = tt

      go :
          (r : Outcome A × ShardState)
          → Post Q (λ s'. (o : Outcome (Unit {0}) × ShardState) → o ≡ on_fail s' → E o.1) r
          → Post Q E (catch_fail r.0 on_fail r.1)
      go (ok a, s') h = h
      go (err e, s') h = failed e (on_fail s') (h (on_fail s') refl)
      go (panics, s') h = tt

module _ (Q : Player → ShardState → Type 0) (E : ShardState → Type 0) where
  pub Post-get_player :
      (pc_id : ℕ) (s : ShardState)
      → ((player : Player) → s.players pc_id ≡ some player → Q player s)
      → E s
      → Post Q E (get_player pc_id s)
  unfolding get_player Post
  Post-get_player pc_id s h e = go (s.players pc_id) refl
    where
      go :
          (o : Option Player)
          → s.players pc_id ≡ o
          → Post Q E (ok_or o (build warning "Player doesn't exist"), s)
      go none same = e
      go (some player) same = h player same

module _ (Q : TradeContext → ShardState → Type 0) (E : ShardState → Type 0) where
  pub Post-get_trade :
      (trade_id : ℕ) (s : ShardState)
      → ((trade : TradeContext) → s.ongoing_trades trade_id ≡ some trade → Q trade s)
      → Post Q E (get_trade trade_id s)
  unfolding get_trade Post
  Post-get_trade trade_id s h = go (s.ongoing_trades trade_id) refl
    where
      go : (o : Option TradeContext) → s.ongoing_trades trade_id ≡ o → Post Q E (unwrap o, s)
      go none same = tt
      go (some trade) same = h trade same

module _ {A : Type 0} (Q : A → ShardState → Type 0) (E : ShardState → Type 0) where
  pub Post-ok : (a : A) (s : ShardState) → Q a s → Post Q E (ok a, s)
  unfolding Post
  Post-ok a s h = h

  pub Post-pure : (a : A) (s : ShardState) → Q a s → Post Q E (pure a s)
  unfolding Post pure
  Post-pure a s h = h

  pub Post-mono :
      (F : ShardState → Type 0) (r : Outcome A × ShardState)
      → ((s : ShardState) → E s → F s)
      → Post Q E r
      → Post Q F r
  unfolding Post
  Post-mono F (ok a, s) g h = h
  Post-mono F (err e, s) g h = g s h
  Post-mono F (panics, s) g h = tt
