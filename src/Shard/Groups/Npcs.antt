-- ===== src/Shard/Groups/Npcs.antt =====
-- src/bin/shard/group.rs: the handlers of group packets about NPCs, and leaving a group on clean-up
-- (src/entity/player.rs, src/entity/npc.rs).
use rusty_fusion.Entity.Group.{add_member}
use rusty_fusion.Entity.Id.{EntityId, npc_entity, player_entity}
use rusty_fusion.Entity.Npc.{Npc}
use rusty_fusion.Error.{Outcome, build, guard, ok_or, unwrap_result, warning}
use rusty_fusion.Prelude.{Bool, Option, false, is_none, none, some, ℕ, ◌==◌}
use rusty_fusion.Shard.Groups.{
  found_npc, get_member_data, get_npc, group_of_host, notify_all, put_group, put_npc,
  remove_group_member,
}
use rusty_fusion.Shard.State.{
  Message, Run, get_player, lift, npc_group_invite_succ, pure, put_player, remove_player, ◌>>=◌,
  ◌>>◌,
}
use rusty_fusion.Shard.Trading.{found}

module _ (self_id : Outcome ℕ) (connected : ℕ → Bool) (send : Message → Outcome (Unit {0})) where
  unfoldable pub npc_group_invite : ℕ → ℕ → Run (Unit {0})
  unfolding group_of_host get_member_data notify_all
  npc_group_invite new_group_id target_npc_id = do
    pc_id ← lift self_id
    player ← get_player pc_id
    (group_id, group) ← group_of_host self_id connected send new_group_id pc_id player.group_id
    target_npc ← get_npc self_id connected send target_npc_id
    lift (guard (is_none target_npc.group_id) (build warning "NPC is already in a group"))
    group' ← lift (add_member group (npc_entity target_npc_id))
    (pcs, npcs) ← get_member_data self_id connected send group'.members
    notify_all self_id connected send (npc_group_invite_succ target_npc_id pcs npcs) group'.members
    put_group self_id connected send group_id (some group')
    player' ← found self_id connected send pc_id
    put_player pc_id (record player' { group_id = some group_id })
    mob ← found_npc self_id connected send target_npc_id
    put_npc self_id connected send target_npc_id (some (record mob { group_id = some group_id }))

  unfoldable pub grouped_in : Npc → ℕ → Bool
  grouped_in mob group_id = elim mob.group_id [
    | none ↦ false
    | some other_id ↦ other_id == group_id
  ]

  unfoldable pub npc_group_kick : ℕ → Run (Unit {0})
  unfolding grouped_in remove_group_member
  npc_group_kick target_npc_id = do
    pc_id ← lift self_id
    player ← get_player pc_id
    group_id ←
        lift (ok_or player.group_id (build warning "tried to kick an NPC while not in a group"))
    target_npc ← get_npc self_id connected send target_npc_id
    lift (guard (grouped_in target_npc group_id) (build warning "NPC is not in the group"))
    put_npc self_id connected send target_npc_id (some (record target_npc { group_id = none }))
    remove_group_member self_id connected send (npc_entity target_npc_id) group_id

  -- `.unwrap()` of what removing the member returns.
  unfoldable pub leave_group : EntityId → Option ℕ → Run (Unit {0})
  unfolding remove_group_member
  leave_group id none s = pure tt s
  leave_group id (some group_id) s =
      let r = remove_group_member self_id connected send id group_id s in (unwrap_result r.0, r.1)

  -- The player or the NPC is untracked before it is cleaned up.
  unfoldable pub player_cleanup : ℕ → Run (Unit {0})
  unfolding leave_group
  player_cleanup pc_id = do
    player ← found self_id connected send pc_id
    remove_player pc_id
    leave_group (player_entity pc_id) player.group_id

  unfoldable pub npc_cleanup : ℕ → Run (Unit {0})
  unfolding leave_group
  npc_cleanup npc_id = do
    mob ← found_npc self_id connected send npc_id
    put_npc self_id connected send npc_id none
    leave_group (npc_entity npc_id) mob.group_id
