-- ===== src/Shard/Trading/Accept.antt =====
-- src/bin/shard/trade.rs: accepting an offer begins a trade, or, if it fails, takes it back.
use rusty_fusion.Entity.Player.{Player}
use rusty_fusion.Error.{Outcome, build, guard, info, ok}
use rusty_fusion.Prelude.{
  Bool, Bool-cases, List, Option, ap, arith, inl, inr, none, refl, some, ℕ, ◌==◌, ◌≡◌,
}
use rusty_fusion.Shard.Post.{Post->>=, Post-catching, Post-get_player, Post-lift, Post-ok}
use rusty_fusion.Shard.State.{
  Message, Run, ShardState, get_player, lift, pure, put_player, put_trade, tell, trade_offer_abort,
  trade_offer_succ, update, update_same, ◌>>=◌, ◌>>◌,
}
use rusty_fusion.Shard.Trading.{tell_other, tell_self}
use rusty_fusion.Shard.Trading.Offers.{clear_found, clear_trade, offered_to, trade_offer_accept}
use rusty_fusion.Shard.Trading.Invariant.{clear_trade-IsSound}
use rusty_fusion.Shard.Trading.Sound.{IsSafe, IsSound}
use rusty_fusion.Shard.Trading.Steps.{Post-tell_other}
use rusty_fusion.Trade.{new_trade}

-- A trade begins under an id that no trade has.
unfoldable begun : ShardState → ℕ → ℕ → ℕ → Player → Player → ShardState
begun s t a b player_a player_b = record s {
  players = update (update s.players a (some player_a)) b (some player_b);
  ongoing_trades = update s.ongoing_trades t (some (new_trade a b));
}

IsSound-begun :
    (s : ShardState) (t a b : ℕ) (player_a player_b : Player)
    → IsSound s
    → s.ongoing_trades t ≡ none
    → player_a.trade_id ≡ some t
    → player_b.trade_id ≡ some t
    → IsSound (begun s t a b player_a player_b)
unfolding begun update new_trade
IsSound-begun s t a b player_a player_b sound fresh ta tb j p tid e h = elim (Bool-cases (j == b)) [
  | inl is_b ↦
      let tid_is : t ≡ tid = ground (arith, e, is_b, h, tb) in
      (new_trade a b, ground (arith, tid_is), inr (ground arith))
  | inr not_b ↦ elim (Bool-cases (j == a)) [
    | inl is_a ↦
        let tid_is : t ≡ tid = ground (arith, e, is_a, not_b, h, ta) in
        (new_trade a b, ground (arith, tid_is), inl (ground arith))
    | inr not_a ↦
        let (trade, is_trade, side) = sound j p tid (ground (arith, e, not_a, not_b)) h in
        elim (Bool-cases (tid == t)) [
          | inl same ↦ let tid_is : tid ≡ t = ground arith in absurd (cc (is_trade, tid_is, fresh))
          | inr other ↦ (trade, ground (arith, is_trade, other), side)
        ]
  ]
]

-- The only player whose trade id had no trade is cleared.
IsSound-taken_back :
    (s : ShardState) (a : ℕ) (lone : Player)
    → IsSound s
    → IsSound (record s {
      players = update (update s.players a (some lone)) a (some (record lone { trade_id = none }));
    })
unfolding update
IsSound-taken_back s a lone sound j p tid e h = elim (Bool-cases (j == a)) [
  | inl is_a ↦
      let same : record lone { trade_id = none } ≡ p = ground (arith, e, is_a) in
      absurd (cc (ap (λ (q : Player). q.trade_id) same, h))
  | inr not_a ↦ sound j p tid (ground (arith, e, not_a)) h
]

module _ (self_id : Outcome ℕ) (connected : ℕ → Bool) (send : Message → Outcome (Unit {0})) where
  abbrev given_up : ℕ → ℕ → Run (Unit {0})
  given_up id_from id_to =
      clear_trade self_id connected send id_from
      >> (clear_trade self_id connected send id_to
          >> tell_self self_id connected send (trade_offer_abort id_from id_to))

  clear_found-sure :
      (pc_id : ℕ) (o : Option Player) (s : ShardState)
      → (clear_found self_id connected send pc_id o s).0 ≡ ok tt
  unfolding clear_found put_player pure
  clear_found-sure pc_id none s = refl
  clear_found-sure pc_id (some player) s = refl

  clear_trade-sure :
      (pc_id : ℕ) (s : ShardState) → (clear_trade self_id connected send pc_id s).0 ≡ ok tt
  unfolding clear_trade
  clear_trade-sure pc_id s = clear_found-sure pc_id (s.players pc_id) s

  given_up-IsSound :
      (id_from id_to : ℕ) (s : ShardState)
      → IsSound (clear_trade self_id connected send id_from s).1
      → (o : Outcome (Unit {0}) × ShardState) → o ≡ given_up id_from id_to s
      → IsSound o.1
  unfolding ◌>>=◌ tell_self tell lift
  given_up-IsSound id_from id_to s sound o e =
      let s1 = (clear_trade self_id connected send id_from s).1 in
      rw (e, clear_trade-sure id_from s, clear_trade-sure id_to s1)
        (clear_trade-IsSound self_id connected send id_to s1 sound)

  lone_cleared :
      (s : ShardState) (a : ℕ) (lone : Player) (outbox : List (Option ℕ × Message))
      → IsSound s
      → IsSound
          (clear_trade self_id connected send a
            (record s { players = update s.players a (some lone); outbox = outbox })).1
  unfolding clear_trade clear_found put_player
  lone_cleared s a lone outbox sound =
      let here : update s.players a (some lone) a ≡ some lone =
        update_same s.players a (some lone) in
      rw here (IsSound-taken_back s a lone sound)

  pub trade_offer_accept-IsSafe :
      (t id_from id_to : ℕ) (s : ShardState)
      → IsSound s
      → s.ongoing_trades t ≡ none
      → IsSafe (trade_offer_accept self_id connected send t id_from id_to s)
  unfolding trade_offer_accept put_player put_trade begun
  trade_offer_accept-IsSafe t id_from id_to s sound fresh =
      let Q : Unit {0} → ShardState → Type 0 = λ _ s'. IsSound s' in
      let E : ShardState → Type 0 =
        λ s'. (o : Outcome (Unit {0}) × ShardState) → o ≡ given_up id_from id_to s' → IsSound o.1 in
      let kept : E s =
        given_up-IsSound id_from id_to s
          (clear_trade-IsSound self_id connected send id_from s sound) in
      Post-catching Q IsSound _ (given_up id_from id_to) s (
        Post->>= Q E (lift self_id) _ s (
          Post-lift _ E self_id s
            (λ pc_id _. Post->>= Q E (get_player id_from) _ s (
              Post-get_player _ E id_from s
                (λ player_from _.
                  let lone = record player_from { trade_offered_to = none; trade_id = some t } in
                  Post->>= Q E
                    (lift (
                      guard (offered_to self_id connected send player_from pc_id)
                        (build info "Trade offer expired")))
                    _ s
                    (Post-lift _ E _ s
                      (λ _ _. Post->>= Q E (put_player id_from lone) _ s (
                        Post-ok _ E tt _ (
                          Post->>= Q E
                            (tell_other self_id connected send id_from
                              (trade_offer_succ id_from pc_id))
                            _ _
                            (Post-tell_other self_id connected send _ E id_from _ _ (
                              Post->>= Q E (get_player pc_id) _ _ (
                                Post-get_player _ E pc_id _
                                  (λ player_to _.
                                    Post->>= Q E
                                      (put_player pc_id (record player_to { trade_id = some t })) _
                                      _
                                      (Post-ok _ E tt _ (
                                        Post-ok Q E tt _ (
                                          IsSound-begun s t id_from pc_id lone
                                            (record player_to { trade_id = some t }) sound fresh
                                            refl refl))))
                                  (given_up-IsSound id_from id_to _
                                    (lone_cleared s id_from lone _ sound))))))))
                      kept))
                kept))
            kept))
