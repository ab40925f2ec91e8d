-- ===== src/Shard/Trading/Steps.antt =====
-- What the steps of the trade handlers leave, for any result wanted.
use rusty_fusion.Entity.Player.{Player}
use rusty_fusion.Error.{Outcome, build, ok, ok_or, panics, unwrap, warning}
use rusty_fusion.Prelude.{Bool, Option, false, if◌then◌else◌, none, refl, some, true, ℕ, ◌∷◌, ◌≡◌}
use rusty_fusion.Shard.Post.{Post, Post->>=, Post-get_player, Post-lift, Post-ok, Post-pure}
use rusty_fusion.Shard.State.{Message, ShardState, get_player, lift, tell}
use rusty_fusion.Shard.Trading.{found, tell_other, tell_self, trading}

module _ (self_id : Outcome ℕ) (connected : ℕ → Bool) (send : Message → Outcome (Unit {0})) where
  -- A packet changes the outbox only.
  pub Post-tell_other :
      (Q : Unit {0} → ShardState → Type 0) (E : ShardState → Type 0) (other : ℕ) (message : Message)
      (s : ShardState)
      → Q tt (record s { outbox = (some other, message) ∷ s.outbox })
      → Post Q E (tell_other self_id connected send other message s)
  unfolding tell_other tell Post lift
  Post-tell_other Q E other message s h = go (connected other)
    where
      go : (c : Bool) → Post Q E ((if c then tell (some other) message else lift panics) s)
      go true = h
      go false = tt

  pub Post-tell_self :
      (Q : Unit {0} → ShardState → Type 0) (E : ShardState → Type 0) (message : Message)
      (s : ShardState)
      → Q tt (record s { outbox = (none, message) ∷ s.outbox })
      → E (record s { outbox = (none, message) ∷ s.outbox })
      → Post Q E (tell_self self_id connected send message s)
  unfolding tell_self tell
  Post-tell_self Q E message s h e = Post->>= Q E (tell none message) _ s (
      Post-ok _ E tt _ (
        Post-lift Q E (send message) (record s { outbox = (none, message) ∷ s.outbox }) (λ u _. h)
          e))

  pub Post-found :
      (Q : Player → ShardState → Type 0) (E : ShardState → Type 0) (pc_id : ℕ) (s : ShardState)
      → ((player : Player) → s.players pc_id ≡ some player → Q player s)
      → Post Q E (found self_id connected send pc_id s)
  unfolding found Post
  Post-found Q E pc_id s h = go (s.players pc_id) refl
    where
      go : (o : Option Player) → s.players pc_id ≡ o → Post Q E (unwrap o, s)
      go none same = tt
      go (some player) same = h player same

  pub Post-trading :
      (Q : Player × ℕ → ShardState → Type 0) (E : ShardState → Type 0) (pc_id : ℕ) (s : ShardState)
      → ((player : Player) (trade_id : ℕ)
          → s.players pc_id ≡ some player
          → player.trade_id ≡ some trade_id
          → Q (player, trade_id) s)
      → E s
      → Post Q E (trading self_id connected send pc_id s)
  unfolding trading
  Post-trading Q E pc_id s h e = Post->>= Q E (get_player pc_id) _ s (
      Post-get_player _ E pc_id s
        (λ player here.
          Post->>= Q E (lift (ok_or player.trade_id (build warning "Player is not trading"))) _ s (
            Post-lift _ E (ok_or player.trade_id (build warning "Player is not trading")) s
              (λ trade_id t.
                Post-pure Q E (player, trade_id) s
                  (h player trade_id here (is_set player.trade_id trade_id t)))
              e))
        e)
    where
      is_set :
          (o : Option ℕ) (t : ℕ)
          → ok_or o (build warning "Player is not trading") ≡ ok t
          → o ≡ some t
      is_set none t h = cc h
      is_set (some n) t h = cc h
