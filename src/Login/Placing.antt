-- ===== src/Login/Placing.antt =====
-- src/state/login.rs: a player is on one shard at most, and moves to the shard that it is put on.
use rusty_fusion.Error.{ok}
use rusty_fusion.Login.{
  LoginServerState, PlayerMetadata, ShardServerInfo, alter, first_with, get_player_shard,
  give_player, has_player, lookup, set_player_shard, take_player, taken_from,
}
use rusty_fusion.Login.Maps.{AllDistinct, alter-AllDistinct, lookup-alter, lookup-erase}
use rusty_fusion.Prelude.{
  Bool, Bool-cases, List, Option, Option-cases, [], arith, false, if◌then◌else◌, inl, inr, is_some,
  none, not, refl, some, true, ℕ, ◌&&◌, ◌==◌, ◌||◌, ◌∙◌, ◌∷◌, ◌≡◌, ◌≢◌,
}

abbrev pub is_on : List (ℕ × ShardServerInfo) → ℕ → ℕ → Bool
is_on shards shard_id player_uid = elim (lookup shards shard_id) [
  | none ↦ false
  | some shard ↦ has_player player_uid shard
]

-- A shard is registered once, and a player is on one shard at most.
abbrev pub IsPlaced : LoginServerState → Type 0
IsPlaced s =
    AllDistinct s.shards
    × ((player_uid k j : ℕ)
        → is_on s.shards k player_uid ≡ true
        → is_on s.shards j player_uid ≡ true
        → k ≡ j)

has_player-take_player :
    (player_uid u : ℕ) (shard : ShardServerInfo)
    → has_player u (take_player player_uid shard) ≡ (not (u == player_uid) && has_player u shard)
unfolding has_player
has_player-take_player player_uid u shard = ground (arith, lookup-erase player_uid shard.players u)

has_player-give_player :
    (player_uid u : ℕ) (player_data : PlayerMetadata) (shard : ShardServerInfo)
    → has_player u (give_player player_uid player_data shard)
      ≡ (u == player_uid || has_player u shard)
unfolding has_player
has_player-give_player player_uid u player_data shard =
    ground (arith, lookup-erase player_uid shard.players u)

first_with-none :
    (u : ℕ) (shards : List (ℕ × ShardServerInfo)) (k : ℕ)
    → first_with u shards ≡ none
    → is_on shards k u ≡ false
unfolding first_with
first_with-none u [] k e = refl
first_with-none u ((i, shard) ∷ shards) k e = ground (arith, first_with-none u shards k, e)

first_with-some :
    (u : ℕ) (shards : List (ℕ × ShardServerInfo)) (k : ℕ)
    → AllDistinct shards
    → first_with u shards ≡ some k
    → is_on shards k u ≡ true
unfolding first_with
first_with-some u [] k d e = absurd (cc e)
first_with-some u ((i, shard) ∷ shards) k (d, ds) e =
    ground (arith, first_with-some u shards k ds, e, d)

first_with-alter :
    (u k : ℕ) (f : ShardServerInfo → ShardServerInfo) (shards : List (ℕ × ShardServerInfo))
    → ((shard : ShardServerInfo) → has_player u (f shard) ≡ has_player u shard)
    → first_with u (alter k f shards) ≡ first_with u shards
unfolding first_with
first_with-alter u k f [] same = refl
first_with-alter u k f ((i, shard) ∷ shards) same =
    ground (arith, first_with-alter u k f shards same, same shard)

pub is_on-alter :
    (k : ℕ) (f : ShardServerInfo → ShardServerInfo) (shards : List (ℕ × ShardServerInfo)) (j u : ℕ)
    → is_on (alter k f shards) j u ≡ (
        if j == k
        then elim (lookup shards j) [ none ↦ false | some shard ↦ has_player u (f shard) ]
        else is_on shards j u)
is_on-alter k f shards j u = ground (arith, lookup-alter k f shards j)

-- What is left when the player is taken off the shard that it is on.
abbrev pub IsTaken : ℕ → LoginServerState → LoginServerState → Type 0
IsTaken player_uid s s1 =
    AllDistinct s1.shards
    × ((k u : ℕ) → is_on s1.shards k u ≡ (not (u == player_uid) && is_on s.shards k u))
    × ((u : ℕ) → u ≢ player_uid → first_with u s1.shards ≡ first_with u s.shards)
    × ((k : ℕ) → is_some (lookup s1.shards k) ≡ is_some (lookup s.shards k))

pub taken_from-IsTaken :
    (player_uid : ℕ) (o : Option ℕ) (s : LoginServerState)
    → IsPlaced s
    → first_with player_uid s.shards ≡ o
    → (s1 : LoginServerState) × (taken_from player_uid o s ≡ ok s1) × IsTaken player_uid s s1
unfolding taken_from
taken_from-IsTaken player_uid none s (distinct, once) e = (
  s,
  refl,
  (
    distinct,
    (λ k u. ground (arith, first_with-none player_uid s.shards k e)),
    (λ u ne. refl),
    λ k. refl,
  ),
)
taken_from-IsTaken player_uid (some old) s (distinct, once) e = (
  record { shards = alter old (take_player player_uid) s.shards },
  ground (arith, here),
  (
    alter-AllDistinct old (take_player player_uid) s.shards distinct,
    (λ k u. rw (is_on-alter old (take_player player_uid) s.shards k u) (off k u)),
    (λ u ne.
        first_with-alter u old (take_player player_uid) s.shards
          λ shard. ground (arith, has_player-take_player player_uid u shard)),
    λ k. ground (arith, lookup-alter old (take_player player_uid) s.shards k),
  ),
)
  where
    here : is_on s.shards old player_uid ≡ true
    here = first_with-some player_uid s.shards old distinct e

    off :
        (k u : ℕ)
        → (if k == old
            then elim (lookup s.shards k) [
              | none ↦ false
              | some shard ↦ has_player u (take_player player_uid shard)
            ]
            else is_on s.shards k u)
          ≡ (not (u == player_uid) && is_on s.shards k u)
    off k u = elim (Option-cases (lookup s.shards k)) [
      | inl absent ↦ rw absent (ground arith)
      | inr present ↦
          let (shard, is) = present in
          ground (arith, is, has_player-take_player player_uid u shard, here, once player_uid k old)
    ]

-- Putting a player on a registered shard succeeds, returns the shard that the player was on, and
-- leaves the player on that shard, every other player where it was, and no player on two shards,
-- given that no shard is registered twice and no player is on two before.
pub set_player_shard-IsPlaced :
    (s : LoginServerState) (player_uid shard_id : ℕ) (player_data : PlayerMetadata)
    (shard : ShardServerInfo)
    → IsPlaced s
    → lookup s.shards shard_id ≡ some shard
    → (s' : LoginServerState) × (set_player_shard player_uid player_data shard_id s
        ≡ ok (get_player_shard player_uid s, s'))
      × (get_player_shard player_uid s' ≡ some shard_id)
      × ((u : ℕ) → u ≢ player_uid → get_player_shard u s' ≡ get_player_shard u s)
      × IsPlaced s'
unfolding set_player_shard get_player_shard
set_player_shard-IsPlaced s player_uid shard_id player_data shard (distinct, once) registered =
    let (s1, taken, (distinct1, on1, first1, known1)) =
      taken_from-IsTaken player_uid (first_with player_uid s.shards) s (distinct, once) refl in
    let give = give_player player_uid player_data in
    let s2 = alter shard_id give s1.shards in
    let is_there = is_found (lookup s1.shards shard_id) (known1 shard_id) in
    let on2 = given s1 on1 is_there in
    let distinct2 = alter-AllDistinct shard_id give s1.shards distinct1 in
    (
      record { shards = s2 },
      rw taken (rw is_there.1 refl),
      lands s2 distinct2 on2,
      (λ u ne.
          first_with-alter u shard_id give s1.shards
            (λ sh. ground (arith, has_player-give_player player_uid u player_data sh, ne))
          ∙ first1 u ne),
      (distinct2, λ u k j a b. ground (arith, on2 k u, on2 j u, a, b, once u k j)),
    )
  where
    is_found :
        (o : Option ShardServerInfo)
        → is_some o ≡ is_some (lookup s.shards shard_id)
        → (sh : ShardServerInfo) × (o ≡ some sh)
    is_found none e = absurd (cc (e, registered))
    is_found (some sh) e = (sh, refl)

    given :
        (s1 : LoginServerState)
        → ((k u : ℕ) → is_on s1.shards k u ≡ (not (u == player_uid) && is_on s.shards k u))
        → ((sh : ShardServerInfo) × (lookup s1.shards shard_id ≡ some sh))
        → (k u : ℕ)
        → is_on (alter shard_id (give_player player_uid player_data) s1.shards) k u
          ≡ (if u == player_uid then k == shard_id else is_on s.shards k u)
    given s1 on1 (sh, is) k u =
        rw (is_on-alter shard_id (give_player player_uid player_data) s1.shards k u)
          (elim (Bool-cases (k == shard_id)) [
            | inl at ↦
                ground (arith, at, on1 k u, is, has_player-give_player player_uid u player_data sh)
            | inr other ↦ ground (arith, other, on1 k u)
          ])

    lands :
        (shards : List (ℕ × ShardServerInfo))
        → AllDistinct shards
        → ((k u : ℕ)
            → is_on shards k u ≡ (if u == player_uid then k == shard_id else is_on s.shards k u))
        → first_with player_uid shards ≡ some shard_id
    lands shards d on = elim (Option-cases (first_with player_uid shards)) [
      | inl absent ↦ absurd (
          ground (arith, first_with-none player_uid shards shard_id absent, on shard_id player_uid))
      | inr present ↦
          let (k, is) = present in
          ground (arith, is, first_with-some player_uid shards k d is, on k player_uid)
    ]
