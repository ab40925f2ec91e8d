-- ===== src/Shard/Groups.antt =====
-- src/bin/shard/group.rs, `remove_group_member` of src/helpers.rs, and the part of the clean-up of
-- src/entity/player.rs and src/entity/npc.rs that leaves a group. A packet tells of a member by its id.
pub mod Npcs
pub mod Membership
pub mod Loops
pub mod Leaving
pub mod Steps
pub mod Joining
pub mod Additions
pub mod Agreement
pub mod Requests
use rusty_fusion.Entity.Group.{Group, add_member, new_group, remove_member, should_disband}
use rusty_fusion.Entity.Id.{EntityId, npc_entity, player_entity}
use rusty_fusion.Entity.Npc.{Npc}
use rusty_fusion.Entity.Player.{Player}
use rusty_fusion.Error.{Outcome, build, debug, guard, ok, ok_or, panics, unwrap, warning}
use rusty_fusion.Prelude.{
  Bool, List, Option, [], false, if◌then◌else◌, is_none, none, some, ℕ, ◌==◌, ◌∷◌,
}
use rusty_fusion.Shard.State.{
  Message, Run, catching, get_player, lift, npc_group_kick_succ, pc_group_invite_fail,
  pc_group_invite_refuse_rep, pc_group_invite_req, pc_group_join_fail, pc_group_join_succ,
  pc_group_leave_fail, pc_group_leave_rep, pc_group_leave_succ, pure, put_player, tell, update,
  ◌>>=◌, ◌>>◌,
}
use rusty_fusion.Shard.Trading.{found, tell_other, tell_self}

module _ (self_id : Outcome ℕ) (connected : ℕ → Bool) (send : Message → Outcome (Unit {0})) where
  unfoldable pub get_npc : ℕ → Run Npc
  get_npc npc_id s = (ok_or (s.npcs npc_id) (build warning "NPC doesn't exist"), s)

  -- `state.get_npc_mut(npc_id).unwrap()`
  unfoldable pub found_npc : ℕ → Run Npc
  found_npc npc_id s = (unwrap (s.npcs npc_id), s)

  unfoldable pub put_npc : ℕ → Option Npc → Run (Unit {0})
  unfolding update
  put_npc npc_id mob s = (ok tt, record s { npcs = update s.npcs npc_id mob })

  -- `state.groups.get(&group_id).unwrap().clone()`
  unfoldable pub get_group : ℕ → Run Group
  get_group group_id s = (unwrap (s.groups group_id), s)

  unfoldable pub put_group : ℕ → Option Group → Run (Unit {0})
  unfolding update
  put_group group_id group s = (ok tt, record s { groups = update s.groups group_id group })

  unfoldable pub get_member_data : List EntityId → Run (List ℕ × List ℕ)
  get_member_data [] = pure ([], [])
  get_member_data (player_entity pc_id ∷ members) = do
    _ ← found self_id connected send pc_id
    (pcs, npcs) ← get_member_data members
    pure (pc_id ∷ pcs, npcs)
  get_member_data (npc_entity npc_id ∷ members) = do
    _ ← found_npc npc_id
    (pcs, npcs) ← get_member_data members
    pure (pcs, npc_id ∷ npcs)
  get_member_data (_ ∷ members) = lift panics

  -- The client of a member, if it has one, gets the packet; the result is only logged.
  unfoldable pub notify : Message → EntityId → Run (Unit {0})
  notify message (player_entity pc_id) = do
    _ ← found self_id connected send pc_id
    if connected pc_id then tell (some pc_id) message else pure tt
  notify message (npc_entity npc_id) = do _ ← found_npc npc_id; pure tt
  notify message _ = lift panics

  unfoldable pub notify_all : Message → List EntityId → Run (Unit {0})
  unfolding notify
  notify_all message [] = pure tt
  notify_all message (member ∷ members) = do notify message member; notify_all message members

  unfoldable pub clear_group : EntityId → Run (Unit {0})
  clear_group (player_entity pc_id) = do
    player ← found self_id connected send pc_id
    put_player pc_id (record player { group_id = none })
  clear_group (npc_entity npc_id) = do
    mob ← found_npc npc_id
    put_npc npc_id (some (record mob { group_id = none }))
  clear_group _ = lift panics

  unfoldable pub disband : List EntityId → Run (Unit {0})
  unfolding notify clear_group
  disband [] = pure tt
  disband (member ∷ members) = do
    notify pc_group_leave_succ member
    clear_group member
    disband members

  unfoldable pub leave_message : EntityId → List ℕ → List ℕ → Outcome Message
  leave_message (player_entity pc_id) pcs npcs = ok (pc_group_leave_rep pc_id pcs npcs)
  leave_message (npc_entity npc_id) pcs npcs = ok (npc_group_kick_succ npc_id pcs npcs)
  leave_message _ pcs npcs = panics

  unfoldable pub after_leave : EntityId → ℕ → Group → Run (Unit {0})
  unfolding notify_all get_member_data leave_message disband
  after_leave leaver_id group_id group =
      if should_disband group then (do disband group.members; put_group group_id none) else (do
        (pcs, npcs) ← get_member_data group.members
        message ← lift (leave_message leaver_id pcs npcs)
        notify_all message group.members
        put_group group_id (some group))

  unfoldable pub remove_group_member : EntityId → ℕ → Run (Unit {0})
  unfolding after_leave
  remove_group_member leaver_id group_id = do
    group ← get_group group_id
    group' ← lift (remove_member group leaver_id)
    after_leave leaver_id group_id group'

  unfoldable pub pc_group_invite : ℕ → Run (Unit {0})
  pc_group_invite target_pc_id =
      catching
        (do
          pc_id ← lift self_id
          player ← get_player pc_id
          lift (
              guard (is_none player.group_offered_to)
                (build debug "is already offering a group invite"))
          put_player pc_id (record player { group_offered_to = some target_pc_id })
          target_player ← get_player target_pc_id
          lift (guard (is_none target_player.group_id) (build debug "is already in a group"))
          tell_other self_id connected send target_pc_id (pc_group_invite_req pc_id))
        (tell_self self_id connected send pc_group_invite_fail)

  unfoldable pub invited : Player → ℕ → Bool
  invited host pc_id = elim host.group_offered_to [
    | none ↦ false
    | some other_id ↦ other_id == pc_id
  ]

  unfoldable pub pc_group_invite_refuse : ℕ → Run (Unit {0})
  unfolding invited
  pc_group_invite_refuse host_pc_id = do
    pc_id ← lift self_id
    host ← get_player host_pc_id
    lift (guard (invited host pc_id) (build debug "Group offer expired"))
    tell_other self_id connected send host_pc_id (pc_group_invite_refuse_rep pc_id)
    put_player host_pc_id (record host { group_offered_to = none })

  -- The group of a player, or a new one.
  unfoldable pub group_of_host : ℕ → ℕ → Option ℕ → Run (ℕ × Group)
  group_of_host new_group_id host_pc_id none =
      pure (new_group_id, new_group (player_entity host_pc_id))
  group_of_host new_group_id host_pc_id (some group_id) = do
    group ← get_group group_id
    pure (group_id, group)

  unfoldable pub pc_group_join : ℕ → ℕ → Run (Unit {0})
  unfolding invited group_of_host get_member_data notify_all
  pc_group_join new_group_id host_pc_id =
      catching
        (do
          pc_id ← lift self_id
          player ← get_player pc_id
          lift (
              guard (is_none player.group_id)
                (build debug "tried to join a group while already in one"))
          host ← get_player host_pc_id
          lift (guard (invited host pc_id) (build debug "Group offer expired"))
          put_player host_pc_id (record host { group_offered_to = none })
          (group_id, group) ← group_of_host new_group_id host_pc_id host.group_id
          group' ← lift (add_member group (player_entity pc_id))
          (pcs, npcs) ← get_member_data group'.members
          notify_all (pc_group_join_succ pc_id pcs npcs) group'.members
          put_group group_id (some group')
          host' ← found self_id connected send host_pc_id
          put_player host_pc_id (record host' { group_id = some group_id })
          player' ← found self_id connected send pc_id
          put_player pc_id (record player' { group_id = some group_id }))
        (tell_self self_id connected send (pc_group_join_fail host_pc_id))

  unfoldable pub pc_group_leave : Run (Unit {0})
  unfolding remove_group_member
  pc_group_leave =
      catching
        (do
          leaver_pc_id ← lift self_id
          player ← get_player leaver_pc_id
          put_player leaver_pc_id (record player { group_id = none })
          group_id ←
              lift (ok_or player.group_id (build warning "tried to leave a group while not in one"))
          remove_group_member (player_entity leaver_pc_id) group_id
          tell_self self_id connected send pc_group_leave_succ)
        (tell_self self_id connected send pc_group_leave_fail)
