-- ===== src/Login.antt =====
-- src/state/login.rs: the shards that are registered and the players on each. A map that the code
-- iterates is a list of pairs in the order of the iteration. Of a player's data, the channel is kept.
pub mod Maps
pub mod Placing
pub mod Steps
use rusty_fusion.Error.{Outcome, build, guard, ok, unwrap, warning, ◌>>=◌, ◌>>◌}
use rusty_fusion.Prelude.{
  Bool, List, Option, [], if◌then◌else◌, is_none, is_some, leb, none, some, ℕ, ◌&&◌, ◌==◌, ◌∷◌,
}

pub record PlayerMetadata : Type 0 where
  pub channel : ℕ

pub record ShardServerInfo : Type 0 where
  pub num_channels : ℕ
  pub max_channel_pop : ℕ
  pub players : List (ℕ × PlayerMetadata)

-- The sessions are left out.
pub record LoginServerState : Type 0 where
  pub shards : List (ℕ × ShardServerInfo)

module _ {V : Type 0} where
  abbrev pub lookup : List (ℕ × V) → ℕ → Option V
  lookup [] k = none
  lookup ((j, v) ∷ m) k = if j == k then some v else lookup m k

  -- `remove` of a map.
  abbrev pub erase : ℕ → List (ℕ × V) → List (ℕ × V)
  erase k [] = []
  erase k ((j, v) ∷ m) = let rest = erase k m in if j == k then rest else (j, v) ∷ rest

  -- A write through `get_mut`, and `insert`.
  abbrev pub alter : ℕ → (V → V) → List (ℕ × V) → List (ℕ × V)
  alter k f [] = []
  alter k f ((j, v) ∷ m) = let rest = alter k f m in if j == k then (j, f v) ∷ m else (j, v) ∷ rest

  abbrev pub insert : ℕ → V → List (ℕ × V) → List (ℕ × V)
  insert k v m = (k, v) ∷ erase k m

abbrev pub max_num_shards : ℕ
max_num_shards = 9

unfoldable pub has_player : ℕ → ShardServerInfo → Bool
has_player player_uid shard = is_some (lookup shard.players player_uid)

-- The id is a signed word: a negative one is above every shard's id.
unfoldable pub register_shard : ℕ → ℕ → ℕ → LoginServerState → Outcome LoginServerState
register_shard shard_id num_channels max_channel_pop s = do
  guard (is_none (lookup s.shards shard_id)) (build warning "Shard already registered")
  guard (leb 1 shard_id && leb shard_id max_num_shards) (build warning "Shard ID out of range")
  ok (record {
    shards =
        insert shard_id
          (record { num_channels = num_channels; max_channel_pop = max_channel_pop; players = [] })
          s.shards;
  })

unfoldable pub unregister_shard : ℕ → LoginServerState → LoginServerState
unregister_shard shard_id s = record { shards = erase shard_id s.shards }

unfoldable pub clear_shard_players : ℕ → LoginServerState → Outcome LoginServerState
clear_shard_players shard_id s = do
  _ ← unwrap (lookup s.shards shard_id)
  ok (record { shards = alter shard_id (λ shard. record shard { players = [] }) s.shards })

unfoldable pub first_with : ℕ → List (ℕ × ShardServerInfo) → Option ℕ
unfolding has_player
first_with player_uid [] = none
first_with player_uid ((shard_id, shard) ∷ shards) =
    let rest = first_with player_uid shards in
    if has_player player_uid shard then some shard_id else rest

unfoldable pub get_player_shard : ℕ → LoginServerState → Option ℕ
unfolding first_with
get_player_shard player_uid s = first_with player_uid s.shards

abbrev pub take_player : ℕ → ShardServerInfo → ShardServerInfo
take_player player_uid shard = record shard { players = erase player_uid shard.players }

abbrev pub give_player : ℕ → PlayerMetadata → ShardServerInfo → ShardServerInfo
give_player player_uid player_data shard = record shard {
  players = insert player_uid player_data shard.players;
}

unfoldable pub taken_from : ℕ → Option ℕ → LoginServerState → Outcome LoginServerState
taken_from player_uid none s = ok s
taken_from player_uid (some old_shard_id) s = do
  _ ← unwrap (lookup s.shards old_shard_id)
  ok (record { shards = alter old_shard_id (take_player player_uid) s.shards })

unfoldable pub set_player_shard :
    ℕ → PlayerMetadata → ℕ → LoginServerState → Outcome (Option ℕ × LoginServerState)
unfolding get_player_shard taken_from
set_player_shard player_uid player_data shard_id s = do
  s1 ← taken_from player_uid (get_player_shard player_uid s) s
  _ ← unwrap (lookup s1.shards shard_id)
  ok (
    get_player_shard player_uid s,
    record { shards = alter shard_id (give_player player_uid player_data) s1.shards },
  )
