-- ===== src/Shard/Groups/Membership.antt =====
-- src/bin/shard/group.rs: what it is for the groups of a shard and the group ids of its players and
-- NPCs to agree.
use rusty_fusion.Entity.Group.{Group, contains, should_disband}
use rusty_fusion.Entity.Group.Bounds.{IsGroup}
use rusty_fusion.Entity.Id.{
  EntityId, egg_entity, npc_entity, player_entity, same_id, same_id_iff, slider_entity,
}
use rusty_fusion.Entity.Npc.{Npc}
use rusty_fusion.Entity.Player.{Player}
use rusty_fusion.Prelude.{
  Bool, Bool-cases, List, Option, arith, false, if◌then◌else◌, inl, inr, none, refl, some, true, ℕ,
  ◌==◌, ◌≡◌, ◌⊎◌,
}
use rusty_fusion.Shard.State.{Message, ShardState, update}

-- The group id of an entity, or `none` if the shard has no such entity that can be grouped.
unfoldable pub group_of : ShardState → EntityId → Option (Option ℕ)
group_of s (player_entity pc_id) = elim (s.players pc_id) [
  | none ↦ none
  | some player ↦ some player.group_id
]
group_of s (npc_entity npc_id) = elim (s.npcs npc_id) [ none ↦ none | some mob ↦ some mob.group_id ]
group_of s _ = none

abbrev pub is_of : ℕ → Option (Option ℕ) → Bool
is_of group_id none = false
is_of group_id (some none) = false
is_of group_id (some (some other_id)) = other_id == group_id

abbrev pub is_in : EntityId → Option Group → Bool
is_in id none = false
is_in id (some group) = contains id group.members

-- Within its bounds, and not to be disbanded.
abbrev pub IsLive : Group → Type 0
IsLive group = IsGroup group × (should_disband group ≡ false)

abbrev pub AllLive : (ℕ → Option Group) → Type 0
AllLive groups = (group_id : ℕ) (group : Group) → groups group_id ≡ some group → IsLive group

-- An entity has the id of a group exactly if it is a member of it.
abbrev pub IsGrouped : ShardState → Type 0
IsGrouped s =
    ((group_id : ℕ) (id : EntityId) → is_of group_id (group_of s id) ≡ is_in id (s.groups group_id))
    × AllLive s.groups

abbrev pub group_id_of : Option Player → Option (Option ℕ)
group_id_of none = none
group_id_of (some player) = some player.group_id

abbrev pub npc_group_id_of : Option Npc → Option (Option ℕ)
npc_group_id_of none = none
npc_group_id_of (some mob) = some mob.group_id

pub group_of-player :
    (s : ShardState) (pc_id : ℕ) (o : Option Player) (j : EntityId)
    → group_of (record s { players = update s.players pc_id o }) j
      ≡ (if same_id j (player_entity pc_id) then group_id_of o else group_of s j)
unfolding group_of update same_id
group_of-player s pc_id none (player_entity i) = ground arith
group_of-player s pc_id (some player) (player_entity i) = ground arith
group_of-player s pc_id o (npc_entity i) = refl
group_of-player s pc_id o (slider_entity i) = refl
group_of-player s pc_id o (egg_entity i) = refl

pub group_of-npc :
    (s : ShardState) (npc_id : ℕ) (o : Option Npc) (j : EntityId)
    → group_of (record s { npcs = update s.npcs npc_id o }) j
      ≡ (if same_id j (npc_entity npc_id) then npc_group_id_of o else group_of s j)
unfolding group_of update same_id
group_of-npc s npc_id none (npc_entity i) = ground arith
group_of-npc s npc_id (some mob) (npc_entity i) = ground arith
group_of-npc s npc_id o (player_entity i) = refl
group_of-npc s npc_id o (slider_entity i) = refl
group_of-npc s npc_id o (egg_entity i) = refl

pub group_of-found :
    (s : ShardState) (pc_id : ℕ) (player : Player)
    → s.players pc_id ≡ some player
    → group_of s (player_entity pc_id) ≡ some player.group_id
unfolding group_of
group_of-found s pc_id player here = rw (here, group_of) refl

pub group_of-found_npc :
    (s : ShardState) (npc_id : ℕ) (mob : Npc)
    → s.npcs npc_id ≡ some mob
    → group_of s (npc_entity npc_id) ≡ some mob.group_id
unfolding group_of
group_of-found_npc s npc_id mob here = rw (here, group_of) refl

-- Packets are not looked at.
pub group_of-blind :
    (s : ShardState) (o : List (Option ℕ × Message)) (j : EntityId)
    → group_of (record s { outbox = o }) j ≡ group_of s j
unfolding group_of
group_of-blind s o (player_entity i) = refl
group_of-blind s o (npc_entity i) = refl
group_of-blind s o (slider_entity i) = refl
group_of-blind s o (egg_entity i) = refl

pub group_of-regroup :
    (s : ShardState) (groups : ℕ → Option Group) (j : EntityId)
    → group_of (record s { groups = groups }) j ≡ group_of s j
unfolding group_of
group_of-regroup s groups (player_entity i) = refl
group_of-regroup s groups (npc_entity i) = refl
group_of-regroup s groups (slider_entity i) = refl
group_of-regroup s groups (egg_entity i) = refl

pub IsGrouped-blind :
    (s : ShardState) (o : List (Option ℕ × Message))
    → IsGrouped s
    → IsGrouped (record s { outbox = o })
IsGrouped-blind s o (matched, live) =
    (λ group_id id. rw (group_of-blind s o id) (matched group_id id), live)

-- A state with the same groups, in which every entity has the group id that it had.
pub IsGrouped-same :
    (s s' : ShardState)
    → IsGrouped s
    → ((j : EntityId) → group_of s' j ≡ group_of s j)
    → s'.groups ≡ s.groups
    → IsGrouped s'
IsGrouped-same s s' (matched, live) same groups =
    (λ group_id id. rw (same id) (rw groups (matched group_id id)), rw groups live)

-- A player that is changed and keeps its group id.
module _ (s : ShardState) (pc_id : ℕ) (old changed : Player) (here : s.players pc_id ≡ some old)
    (keeps : changed.group_id ≡ old.group_id) where
  pub put_player-same :
      (j : EntityId)
      → group_of (record s { players = update s.players pc_id (some changed) }) j ≡ group_of s j
  put_player-same j =
      rw (group_of-player s pc_id (some changed) j)
        (unmoved j (Bool-cases (same_id j (player_entity pc_id))))
    where
      unmoved :
          (j : EntityId)
          → (same_id j (player_entity pc_id) ≡ true) ⊎ (same_id j (player_entity pc_id) ≡ false)
          → (if same_id j (player_entity pc_id) then some changed.group_id else group_of s j)
            ≡ group_of s j
      unmoved j (inl at) =
          let (there, conv) = same_id_iff j (player_entity pc_id) in
          rw at (rw (there at) (cc (group_of-found s pc_id old here, keeps)))
      unmoved j (inr other) = rw other refl

  pub IsGrouped-put_player :
      IsGrouped s → IsGrouped (record s { players = update s.players pc_id (some changed) })
  IsGrouped-put_player grouped =
      IsGrouped-same s (record s { players = update s.players pc_id (some changed) }) grouped
        put_player-same refl
