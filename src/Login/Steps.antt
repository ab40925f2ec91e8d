-- ===== src/Login/Steps.antt =====
-- src/state/login.rs: any sequence of operations on the shards and their players.
use rusty_fusion.Error.{ok, unwrap, ◌>>=◌}
use rusty_fusion.Login.{
  LoginServerState, PlayerMetadata, ShardServerInfo, alter, clear_shard_players, erase, first_with,
  get_player_shard, has_player, insert, lookup, register_shard, set_player_shard, unregister_shard,
}
use rusty_fusion.Login.Maps.{AllDistinct, alter-AllDistinct, erase-AllDistinct, lookup-erase}
use rusty_fusion.Login.Placing.{
  IsPlaced, is_on, is_on-alter, set_player_shard-IsPlaced, taken_from-IsTaken,
}
use rusty_fusion.Prelude.{
  List, Option, [], arith, is_some, none, not, refl, some, sym, true, ℕ, ◌&&◌, ◌==◌, ◌∙◌, ◌≡◌,
}

abbrev pub no_shards : LoginServerState
no_shards = record { shards = [] }

-- The states after any operations that neither fail nor panic.
pub data LoginReaches : LoginServerState → Type 0 where
  at_start : LoginReaches no_shards
  shard_registered :
      {s s' : LoginServerState}
      → LoginReaches s
      → (shard_id num_channels max_channel_pop : ℕ)
      → register_shard shard_id num_channels max_channel_pop s ≡ ok s'
      → LoginReaches s'
  shard_unregistered :
      {s : LoginServerState}
      → LoginReaches s
      → (shard_id : ℕ) → LoginReaches (unregister_shard shard_id s)
  shard_cleared :
      {s s' : LoginServerState}
      → LoginReaches s
      → (shard_id : ℕ) → clear_shard_players shard_id s ≡ ok s'
      → LoginReaches s'
  player_placed :
      {s s' : LoginServerState}
      → LoginReaches s
      → (player_uid shard_id : ℕ) (player_data : PlayerMetadata) (old : Option ℕ)
      → set_player_shard player_uid player_data shard_id s ≡ ok (old, s')
      → LoginReaches s'

is_on-erase :
    (k : ℕ) (shards : List (ℕ × ShardServerInfo)) (j u : ℕ)
    → is_on (erase k shards) j u ≡ (not (j == k) && is_on shards j u)
is_on-erase k shards j u = ground (arith, lookup-erase k shards j)

-- A state in which no player is on a shard that it was not on.
fewer-IsPlaced :
    (s s' : LoginServerState) (shards : List (ℕ × ShardServerInfo))
    → IsPlaced s
    → shards ≡ s'.shards
    → AllDistinct shards
    → ((k u : ℕ) → is_on shards k u ≡ true → is_on s.shards k u ≡ true)
    → IsPlaced s'
fewer-IsPlaced s s' shards (distinct, once) is distinct' fewer =
    (rw is at distinct', λ u k j a b. once u k j (fewer k u (rw is a)) (fewer j u (rw is b)))

register_shard-IsPlaced :
    (shard_id num_channels max_channel_pop : ℕ) (s s' : LoginServerState)
    → IsPlaced s
    → register_shard shard_id num_channels max_channel_pop s ≡ ok s'
    → IsPlaced s'
unfolding register_shard has_player
register_shard-IsPlaced shard_id num_channels max_channel_pop s s' (distinct, once) h =
    let new_shard : ShardServerInfo = record {
      num_channels = num_channels;
      max_channel_pop = max_channel_pop;
      players = [];
    } in
    fewer-IsPlaced s s' (insert shard_id new_shard s.shards) (distinct, once) (ground (arith, h))
      (
        ground (arith, lookup-erase shard_id s.shards shard_id),
        erase-AllDistinct shard_id s.shards distinct,
      )
      (λ k u e. ground (arith, e, lookup-erase shard_id s.shards k))

unregister_shard-IsPlaced :
    (shard_id : ℕ) (s : LoginServerState) → IsPlaced s → IsPlaced (unregister_shard shard_id s)
unfolding unregister_shard
unregister_shard-IsPlaced shard_id s (distinct, once) =
    fewer-IsPlaced s _ (erase shard_id s.shards) (distinct, once) refl
      (erase-AllDistinct shard_id s.shards distinct)
      (λ k u e. ground (arith, is_on-erase shard_id s.shards k u, e))

-- A write to a shard that succeeds.
was_there :
    (o : Option ShardServerInfo) (s s' : LoginServerState)
    → (unwrap o >>= λ _. ok s) ≡ ok s'
    → (is_some o ≡ true) × (s.shards ≡ s'.shards)
was_there none s s' h = absurd (cc h)
was_there (some shard) s s' h = (refl, cc h)

pair_there :
    (o : Option ShardServerInfo) (r r' : Option ℕ × LoginServerState)
    → (unwrap o >>= λ _. ok r) ≡ ok r'
    → is_some o ≡ true
pair_there none r r' h = absurd (cc h)
pair_there (some shard) r r' h = refl

clear_shard_players-IsPlaced :
    (shard_id : ℕ) (s s' : LoginServerState)
    → IsPlaced s
    → clear_shard_players shard_id s ≡ ok s'
    → IsPlaced s'
unfolding clear_shard_players has_player
clear_shard_players-IsPlaced shard_id s s' (distinct, once) h =
    let clear = λ (shard : ShardServerInfo). record shard { players = [] } in
    fewer-IsPlaced s s' (alter shard_id clear s.shards) (distinct, once)
      (was_there (lookup s.shards shard_id) _ _ h).1
      (alter-AllDistinct shard_id clear s.shards distinct)
      (λ k u e. ground (arith, e, is_on-alter shard_id clear s.shards k u))

set_player_shard-registered :
    (s s' : LoginServerState) (player_uid shard_id : ℕ) (player_data : PlayerMetadata)
    (old : Option ℕ)
    → IsPlaced s
    → set_player_shard player_uid player_data shard_id s ≡ ok (old, s')
    → (shard : ShardServerInfo) × (lookup s.shards shard_id ≡ some shard)
unfolding set_player_shard get_player_shard
set_player_shard-registered s s' player_uid shard_id player_data old placed h =
    let (s1, taken, (distinct1, on1, first1, known1)) =
      taken_from-IsTaken player_uid (first_with player_uid s.shards) s placed refl in
    known (lookup s.shards shard_id)
      (sym (known1 shard_id) ∙ pair_there (lookup s1.shards shard_id) _ _ (rw taken at h))
  where
    known :
        (o : Option ShardServerInfo)
        → is_some o ≡ true
        → (shard : ShardServerInfo) × (o ≡ some shard)
    known none e = absurd (cc e)
    known (some shard) e = (shard, refl)

-- After any operations that neither fail nor panic, from no shards, no shard is registered twice and
-- no player is on two shards.
pub LoginReaches-IsPlaced : (s : LoginServerState) → LoginReaches s → IsPlaced s
LoginReaches-IsPlaced s at_start = (tt, λ u k j a b. absurd (cc a))
LoginReaches-IsPlaced s (shard_registered {s = s1} before i n m h) =
    register_shard-IsPlaced i n m s1 s (LoginReaches-IsPlaced s1 before) h
LoginReaches-IsPlaced s (shard_unregistered {s = s1} before i) =
    unregister_shard-IsPlaced i s1 (LoginReaches-IsPlaced s1 before)
LoginReaches-IsPlaced s (shard_cleared {s = s1} before i h) =
    clear_shard_players-IsPlaced i s1 s (LoginReaches-IsPlaced s1 before) h
LoginReaches-IsPlaced s (player_placed {s = s1} before uid i player_data old h) =
    let placed = LoginReaches-IsPlaced s1 before in
    let (shard, registered) = set_player_shard-registered s1 s uid i player_data old placed h in
    let (s', is, lands, others, placed') =
      set_player_shard-IsPlaced s1 uid i player_data shard placed registered in
    let same : s' ≡ s = cc (is, h) in rw same at placed'
