-- ===== src/Shard/Groups/Additions.antt =====
-- src/bin/shard/group.rs: the handlers that add a member leave the groups of the shard in agreement.
use rusty_fusion.Entity.Group.{Group, add_member, new_group}
use rusty_fusion.Entity.Id.{EntityId, npc_entity, player_entity, same_id}
use rusty_fusion.Entity.Npc.{Npc}
use rusty_fusion.Entity.Player.{Player}
use rusty_fusion.Error.{Outcome, ok}
use rusty_fusion.Prelude.{
  Bool, List, Option, ap, arith, if◌then◌else◌, none, refl, some, ℕ, ◌∙◌, ◌≡◌,
}
use rusty_fusion.Shard.Groups.{
  get_member_data, group_of_host, notify_all, pc_group_join, put_group, put_npc,
}
use rusty_fusion.Shard.Groups.Npcs.{npc_group_invite}
use rusty_fusion.Shard.Groups.Joining.{IsHosted, grown-IsGrouped, has_group, has_none}
use rusty_fusion.Shard.Groups.Loops.{
  Post-found>>=, Post-found_npc>>=, Post-get_group>>=, Post-get_member_data, Post-notify_all,
}
use rusty_fusion.Shard.Groups.Membership.{
  IsGrouped, IsGrouped-blind, IsGrouped-put_player, group_of, group_of-blind, group_of-found,
  group_of-found_npc, group_of-npc, group_of-player, group_of-regroup, put_player-same,
}
use rusty_fusion.Shard.Groups.Steps.{is_lone, then_npc}
use rusty_fusion.Shard.Post.{Post, Post->>=, Post-ok, Post-pure}
use rusty_fusion.Shard.State.{
  Message, Run, ShardState, npc_group_invite_succ, pc_group_join_succ, put_player, update, ◌>>=◌,
}
use rusty_fusion.Shard.Trading.Keeping.{IsKept, reported, then_lift, then_player}

module _ (self_id : Outcome ℕ) (connected : ℕ → Bool) (send : Message → Outcome (Unit {0})) where
  -- The group that the host has, or a new one under an unused id.
  Post-group_of_host :
      (Q : ℕ × Group → ShardState → Type 0) (E : ShardState → Type 0) (new_group_id host_pc_id : ℕ)
      (o : Option ℕ) (s : ShardState)
      → group_of s (player_entity host_pc_id) ≡ some o
      → s.groups new_group_id ≡ none
      → ((group_id : ℕ) (group : Group)
          → IsHosted s host_pc_id group_id group
          → Q (group_id, group) s)
      → Post Q E (group_of_host self_id connected send new_group_id host_pc_id o s)
  unfolding group_of_host
  Post-group_of_host Q E new_group_id host_pc_id none s is free h =
      Post-pure Q E _ s
        (h new_group_id (new_group (player_entity host_pc_id)) (has_none is free refl))
  Post-group_of_host Q E new_group_id host_pc_id (some group_id) s is free h =
      Post-get_group>>= self_id connected send Q E group_id _ s
        λ group here. Post-pure Q E _ s (h group_id group (has_group is here))

  -- The last writes of a handler: the group, and the group ids of the host and of the new member.
  module _ (s : ShardState) (host_pc_id group_id : ℕ) (group group' : Group) (id : EntityId)
      (grouped : IsGrouped s) (is_hosted : IsHosted s host_pc_id group_id group)
      (lone : group_of s id ≡ some none) (added : add_member group id ≡ ok group')
      (o : List (Option ℕ × Message)) (host : Player) where
    abbrev stored : ShardState
    stored = record s {
      outbox = o;
      groups = update s.groups group_id (some group');
      players = update s.players host_pc_id (some (record host { group_id = some group_id }));
    }

    stored-group_of :
        (j : EntityId)
        → group_of stored j
          ≡ (if same_id j (player_entity host_pc_id) then some (some group_id) else group_of s j)
    stored-group_of j =
        group_of-player (record s { outbox = o; groups = update s.groups group_id (some group') })
          host_pc_id (some (record host { group_id = some group_id })) j
        ∙ ap (λ x. if same_id j (player_entity host_pc_id) then some (some group_id) else x)
            (group_of-regroup (record s { outbox = o }) (update s.groups group_id (some group')) j
              ∙ group_of-blind s o j)

    pub player_joined-IsGrouped :
        (pc_id : ℕ) (player : Player)
        → id ≡ player_entity pc_id
        → IsGrouped (record stored {
          players = update stored.players pc_id (some (record player { group_id = some group_id }));
        })
    player_joined-IsGrouped pc_id player is =
        grown-IsGrouped s _ id host_pc_id group_id group group' grouped is_hosted lone added refl
          λ j.
            group_of-player stored pc_id (some (record player { group_id = some group_id })) j
            ∙ rw is (ground (arith, stored-group_of j))

    pub npc_joined-IsGrouped :
        (npc_id : ℕ) (mob : Npc)
        → id ≡ npc_entity npc_id
        → IsGrouped (record stored {
          npcs = update stored.npcs npc_id (some (record mob { group_id = some group_id }));
        })
    npc_joined-IsGrouped npc_id mob is =
        grown-IsGrouped s _ id host_pc_id group_id group group' grouped is_hosted lone added refl
          λ j.
            group_of-npc stored npc_id (some (record mob { group_id = some group_id })) j
            ∙ rw is (ground (arith, stored-group_of j))

  -- The member data is gathered and sent to every member.
  then_announced :
      (I : ShardState → Type 0) (message : List ℕ → List ℕ → Message) (members : List EntityId)
      (f : Unit {0} → Run (Unit {0})) (s : ShardState)
      → ((o : List (Option ℕ × Message)) → IsKept I (f tt (record s { outbox = o })))
      → IsKept I (
          (get_member_data self_id connected send members >>= λ both.
          notify_all self_id connected send (message both.0 both.1) members >>= f)
            s)
  then_announced I message members f s h =
      Post->>= _ _ (get_member_data self_id connected send members) _ s (
        Post-get_member_data self_id connected send members _ _ s λ both.
          Post->>= _ _ (notify_all self_id connected send (message both.0 both.1) members) f s
            (Post-notify_all self_id connected send _ _ _ members s h))

  pub pc_group_join-IsGrouped :
      (new_group_id host_pc_id : ℕ) (s : ShardState)
      → IsGrouped s
      → s.groups new_group_id ≡ none
      → IsKept IsGrouped (pc_group_join self_id connected send new_group_id host_pc_id s)
  unfolding pc_group_join put_group put_player ◌>>=◌
  pc_group_join-IsGrouped new_group_id host_pc_id s grouped free =
      reported self_id connected send IsGrouped IsGrouped-blind _ _ s (
        then_lift IsGrouped _ _ s grouped λ pc_id _.
          then_player IsGrouped _ _ s grouped λ player here.
            then_lift IsGrouped _ _ s grouped λ _ test.
              then_player IsGrouped _ _ s grouped λ host at.
                then_lift IsGrouped _ _ s grouped λ _ _.
                  let host1 = record host { group_offered_to = none } in
                  let s1 = record s { players = update s.players host_pc_id (some host1) } in
                  let after = IsGrouped-put_player s host_pc_id host host1 at refl grouped in
                  let same = put_player-same s host_pc_id host host1 at refl in
                  let lone =
                    same (player_entity pc_id)
                    ∙ group_of-found s pc_id player here
                    ∙ ap some (is_lone self_id connected send player.group_id _ _ test) in
                  Post->>= _ _
                    (group_of_host self_id connected send new_group_id host_pc_id host.group_id) _
                    s1
                    (Post-group_of_host _ _ new_group_id host_pc_id host.group_id s1
                      (same (player_entity host_pc_id) ∙ group_of-found s host_pc_id host at) free
                      λ group_id group is_hosted.
                        then_lift IsGrouped (add_member group (player_entity pc_id)) _ s1 after
                          λ group' added.
                            then_announced IsGrouped (pc_group_join_succ pc_id) group'.members _ s1
                              λ o.
                                Post-found>>= self_id connected send _ _ host_pc_id _ _ λ host' _.
                                  Post-found>>= self_id connected send _ _ pc_id _ _ λ player' _.
                                    Post-ok _ _ tt _ (
                                      player_joined-IsGrouped s1 host_pc_id group_id group group'
                                        (player_entity pc_id) after is_hosted lone added o host'
                                        pc_id player' refl)))

  pub npc_group_invite-IsGrouped :
      (new_group_id target_npc_id : ℕ) (s : ShardState)
      → IsGrouped s
      → s.groups new_group_id ≡ none
      → IsKept IsGrouped (npc_group_invite self_id connected send new_group_id target_npc_id s)
  unfolding npc_group_invite put_group put_player put_npc ◌>>=◌
  npc_group_invite-IsGrouped new_group_id target_npc_id s grouped free =
      then_lift IsGrouped _ _ s grouped λ pc_id _.
        then_player IsGrouped _ _ s grouped λ player here.
          Post->>= _ _ (group_of_host self_id connected send new_group_id pc_id player.group_id) _ s
            (Post-group_of_host _ _ new_group_id pc_id player.group_id s
              (group_of-found s pc_id player here) free
              λ group_id group is_hosted.
                then_npc self_id connected send target_npc_id _ s grouped λ mob at.
                  then_lift IsGrouped _ _ s grouped λ _ test.
                    then_lift IsGrouped (add_member group (npc_entity target_npc_id)) _ s grouped
                      λ group' added.
                        then_announced IsGrouped (npc_group_invite_succ target_npc_id)
                          group'.members _ s
                          λ o. Post-found>>= self_id connected send _ _ pc_id _ _ λ player' _.
                            Post-found_npc>>= self_id connected send _ _ target_npc_id _ _ λ mob' _.
                              Post-ok _ _ tt _ (
                                npc_joined-IsGrouped s pc_id group_id group group'
                                  (npc_entity target_npc_id) grouped is_hosted
                                  (group_of-found_npc s target_npc_id mob at
                                    ∙ ap some
                                        (is_lone self_id connected send mob.group_id _ _ test))
                                  added o player' target_npc_id mob' refl))
