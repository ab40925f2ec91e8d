-- ===== src/Shard/Trading/Keeping.antt =====
-- The steps of the trade handlers under a predicate on states that is wanted in the end.
use rusty_fusion.Entity.Player.{Player}
use rusty_fusion.Error.{FfError, Outcome, err, ok, panics}
use rusty_fusion.Prelude.{Bool, List, Option, none, refl, some, ℕ, ◌∷◌, ◌≡◌, ◌≢◌}
use rusty_fusion.Shard.Post.{
  Post, Post->>=, Post-catching, Post-get_player, Post-get_trade, Post-lift, Post-mono,
}
use rusty_fusion.Shard.State.{
  Message, Run, ShardState, catching, get_player, get_trade, lift, put_player, put_trade,
  remove_player, tell, update, ◌>>=◌,
}
use rusty_fusion.Shard.Trading.{found, tell_other, tell_self, trading}
use rusty_fusion.Shard.Trading.Steps.{Post-found, Post-tell_other, Post-tell_self, Post-trading}
use rusty_fusion.Trade.{TradeContext}

-- A run that starts anywhere ends, by success or error, where the predicate holds.
abbrev pub IsKept : (ShardState → Type 0) → {A : Type 0} → Outcome A × ShardState → Type 0
IsKept I r = Post (λ _ s'. I s') I r

module _ (I : ShardState → Type 0) {A : Type 0} {B : Type 0} where
  pub then_lift :
      (m : Outcome A) (f : A → Run B) (s : ShardState)
      → I s
      → ((a : A) → m ≡ ok a → IsKept I (f a s))
      → IsKept I ((lift m >>= f) s)
  then_lift m f s sound h = Post->>= _ _ (lift m) f s (Post-lift _ _ m s h sound)

module _ (I : ShardState → Type 0) {B : Type 0} where
  -- An outcome that is never an error asks nothing of the state.
  pub then_sure :
      {A : Type 0} (m : Outcome A) (f : A → Run B) (s : ShardState)
      → ((e : FfError) → m ≢ err e)
      → ((a : A) → m ≡ ok a → IsKept I (f a s))
      → IsKept I ((lift m >>= f) s)
  unfolding ◌>>=◌ lift Post
  then_sure (ok a) f s sure h = h a refl
  then_sure (err e) f s sure h = absurd (sure e refl)
  then_sure panics f s sure h = tt

  pub then_put_player :
      (pc_id : ℕ) (changed : Player) (f : Unit {0} → Run B) (s : ShardState)
      → IsKept I (f tt (record s { players = update s.players pc_id (some changed) }))
      → IsKept I ((put_player pc_id changed >>= f) s)
  unfolding ◌>>=◌ put_player
  then_put_player pc_id changed f s h = h

  pub then_remove_player :
      (pc_id : ℕ) (f : Unit {0} → Run B) (s : ShardState)
      → IsKept I (f tt (record s { players = update s.players pc_id none }))
      → IsKept I ((remove_player pc_id >>= f) s)
  unfolding ◌>>=◌ remove_player
  then_remove_player pc_id f s h = h

  pub then_put_trade :
      (trade_id : ℕ) (changed : Option TradeContext) (f : Unit {0} → Run B) (s : ShardState)
      → IsKept I (f tt (record s { ongoing_trades = update s.ongoing_trades trade_id changed }))
      → IsKept I ((put_trade trade_id changed >>= f) s)
  unfolding ◌>>=◌ put_trade
  then_put_trade trade_id changed f s h = h

  pub then_player :
      (pc_id : ℕ) (f : Player → Run B) (s : ShardState)
      → I s
      → ((player : Player) → s.players pc_id ≡ some player → IsKept I (f player s))
      → IsKept I ((get_player pc_id >>= f) s)
  then_player pc_id f s sound h =
      Post->>= _ _ (get_player pc_id) f s (Post-get_player _ _ pc_id s h sound)

  pub then_trade :
      (trade_id : ℕ) (f : TradeContext → Run B) (s : ShardState)
      → ((trade : TradeContext) → s.ongoing_trades trade_id ≡ some trade → IsKept I (f trade s))
      → IsKept I ((get_trade trade_id >>= f) s)
  then_trade trade_id f s h =
      Post->>= _ _ (get_trade trade_id) f s (Post-get_trade _ _ trade_id s h)

module _ (self_id : Outcome ℕ) (connected : ℕ → Bool) (send : Message → Outcome (Unit {0}))
    (I : ShardState → Type 0)
    (blind : (s : ShardState) (o : List (Option ℕ × Message))
      → I s
      → I (record s { outbox = o })) where
  pub then_tell_other :
      {B : Type 0} (other : ℕ) (message : Message) (f : Unit {0} → Run B) (s : ShardState)
      → IsKept I (f tt (record s { outbox = (some other, message) ∷ s.outbox }))
      → IsKept I ((tell_other self_id connected send other message >>= f) s)
  then_tell_other other message f s h =
      Post->>= _ _ (tell_other self_id connected send other message) f s
        (Post-tell_other self_id connected send _ _ other message s h)

  pub then_trading :
      {B : Type 0} (pc_id : ℕ) (f : Player × ℕ → Run B) (s : ShardState)
      → I s
      → ((player : Player) (trade_id : ℕ)
          → s.players pc_id ≡ some player
          → player.trade_id ≡ some trade_id
          → IsKept I (f (player, trade_id) s))
      → IsKept I ((trading self_id connected send pc_id >>= f) s)
  then_trading pc_id f s sound h =
      Post->>= _ _ (trading self_id connected send pc_id) f s
        (Post-trading self_id connected send _ _ pc_id s h sound)

  pub told_self :
      (message : Message) (s : ShardState)
      → I s
      → IsKept I (tell_self self_id connected send message s)
  told_self message s sound =
      Post-tell_self self_id connected send _ _ message s (blind s _ sound) (blind s _ sound)

  -- A failure handler that only sends a packet.
  pub reported :
      {A : Type 0} (body : Run A) (message : Message) (s : ShardState)
      → IsKept I (body s)
      → IsKept I (catching body (tell_self self_id connected send message) s)
  unfolding tell_self tell ◌>>=◌ lift
  reported body message s h =
      Post-catching _ _ body (tell_self self_id connected send message) s
        (Post-mono _ _ _ (body s) (λ s' sound o e. rw e (blind s' _ sound)) h)

  pub then_found :
      {B : Type 0} (pc_id : ℕ) (f : Player → Run B) (s : ShardState)
      → ((player : Player) → s.players pc_id ≡ some player → IsKept I (f player s))
      → IsKept I ((found self_id connected send pc_id >>= f) s)
  then_found pc_id f s h =
      Post->>= _ _ (found self_id connected send pc_id) f s
        (Post-found self_id connected send _ _ pc_id s h)

  pub told_other :
      (other : ℕ) (message : Message) (s : ShardState)
      → I s
      → IsKept I (tell_other self_id connected send other message s)
  told_other other message s sound =
      Post-tell_other self_id connected send _ _ other message s (blind s _ sound)

  pub then_tell_self :
      {B : Type 0} (message : Message) (f : Unit {0} → Run B) (s : ShardState)
      → I s
      → IsKept I (f tt (record s { outbox = (none, message) ∷ s.outbox }))
      → IsKept I ((tell_self self_id connected send message >>= f) s)
  then_tell_self message f s sound h =
      Post->>= _ _ (tell_self self_id connected send message) f s
        (Post-tell_self self_id connected send _ _ message s h (blind s _ sound))
