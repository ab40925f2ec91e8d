-- ===== src/Tests/Login.antt =====
-- Runs of src/state/login.rs.
use rusty_fusion.Error.{build, err, ok, warning}
use rusty_fusion.Login.{
  LoginServerState, PlayerMetadata, ShardServerInfo, first_with, get_player_shard, has_player,
  register_shard, set_player_shard, taken_from,
}
use rusty_fusion.Login.Placing.{IsPlaced, set_player_shard-IsPlaced}
use rusty_fusion.Login.Steps.{
  LoginReaches, LoginReaches-IsPlaced, at_start, no_shards, player_placed, shard_registered,
}
use rusty_fusion.Prelude.{List, [], arith, none, refl, some, ℕ, ◌∷◌, ◌≡◌, ◌≢◌}

abbrev somebody : PlayerMetadata
somebody = record { channel = 1 }

abbrev shard_with : List (ℕ × PlayerMetadata) → ShardServerInfo
shard_with players = record { num_channels = 2; max_channel_pop = 100; players = players }

abbrev two_shards : LoginServerState
two_shards = record { shards = (2, shard_with []) ∷ (1, shard_with ((7, somebody) ∷ [])) ∷ [] }

abbrev moved_over : LoginServerState
moved_over = record { shards = (2, shard_with ((7, somebody) ∷ [])) ∷ (1, shard_with []) ∷ [] }

one_registered : register_shard 1 2 100 no_shards ≡ ok (record { shards = (1, shard_with []) ∷ [] })
unfolding register_shard
one_registered = refl

both_registered :
    register_shard 2 2 100 (record { shards = (1, shard_with []) ∷ [] })
    ≡ ok (record { shards = (2, shard_with []) ∷ (1, shard_with []) ∷ [] })
unfolding register_shard
both_registered = refl

again : register_shard 1 2 100 two_shards ≡ err (build warning "Shard already registered")
unfolding register_shard
again = refl

on_first :
    set_player_shard 7 somebody 1 (record { shards = (2, shard_with []) ∷ (1, shard_with []) ∷ [] })
    ≡ ok (none, two_shards)
unfolding set_player_shard get_player_shard first_with has_player taken_from
on_first = refl

to_second : set_player_shard 7 somebody 2 two_shards ≡ ok (some 1, moved_over)
unfolding set_player_shard get_player_shard first_with has_player taken_from
to_second = refl

abbrev reached : LoginReaches two_shards
reached =
    player_placed
      (shard_registered (shard_registered at_start 1 2 100 one_registered) 2 2 100 both_registered)
      7 1 somebody none on_first

LoginReaches-IsPlaced_example : IsPlaced two_shards
LoginReaches-IsPlaced_example = LoginReaches-IsPlaced two_shards reached

two_shards-IsPlaced : IsPlaced two_shards
unfolding has_player
two_shards-IsPlaced = ((refl, (refl, tt)), λ u k j a b. ground (arith, a, b))

set_player_shard-IsPlaced_example :
    (s' : LoginServerState) × (set_player_shard 7 somebody 2 two_shards
      ≡ ok (get_player_shard 7 two_shards, s'))
    × (get_player_shard 7 s' ≡ some 2)
    × ((u : ℕ) → u ≢ 7 → get_player_shard u s' ≡ get_player_shard u two_shards)
    × IsPlaced s'
set_player_shard-IsPlaced_example =
    set_player_shard-IsPlaced two_shards 7 2 somebody (shard_with []) two_shards-IsPlaced refl
