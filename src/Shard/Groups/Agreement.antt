-- ===== src/Shard/Groups/Agreement.antt =====
-- src/bin/shard/group.rs: every handler leaves the groups of the shard in agreement.
use rusty_fusion.Entity.Id.{EntityId, npc_entity, player_entity, same_id, same_id_iff}
use rusty_fusion.Error.{Outcome, err, ok, panics, unwrap_result}
use rusty_fusion.Prelude.{
  Bool, Option, ap, arith, false, none, not, refl, some, sym, ℕ, ◌&&◌, ◌∙◌, ◌≡◌,
}
use rusty_fusion.Shard.Groups.{
  pc_group_invite, pc_group_invite_refuse, pc_group_leave, put_npc, remove_group_member,
}
use rusty_fusion.Shard.Groups.Npcs.{leave_group, npc_cleanup, npc_group_kick, player_cleanup}
use rusty_fusion.Shard.Groups.Leaving.{remove_group_member-IsGrouped}
use rusty_fusion.Shard.Groups.Loops.{Post-found>>=, Post-found_npc>>=}
use rusty_fusion.Shard.Groups.Membership.{
  IsGrouped, IsGrouped-blind, IsGrouped-put_player, group_of, group_of-found, group_of-found_npc,
  is_of,
}
use rusty_fusion.Shard.Groups.Steps.{
  grouped_in-true, leaver-IsLeft, then_group_id, then_run, then_npc, without_npc, without_player,
}
use rusty_fusion.Shard.Post.{Post, Post-ok}
use rusty_fusion.Shard.State.{Message, ShardState, pure, put_player, update, ◌>>=◌}
use rusty_fusion.Shard.Trading.Keeping.{
  IsKept, reported, then_lift, then_player, then_put_player, then_remove_player, then_tell_other,
  told_other, told_self,
}

module _ (self_id : Outcome ℕ) (connected : ℕ → Bool) (send : Message → Outcome (Unit {0})) where
  pub pc_group_invite-IsGrouped :
      (target_pc_id : ℕ) (s : ShardState)
      → IsGrouped s
      → IsKept IsGrouped (pc_group_invite self_id connected send target_pc_id s)
  unfolding pc_group_invite
  pc_group_invite-IsGrouped target_pc_id s grouped =
      reported self_id connected send IsGrouped IsGrouped-blind _ _ s (
        then_lift IsGrouped _ _ s grouped λ pc_id _.
          then_player IsGrouped _ _ s grouped λ player here.
            then_lift IsGrouped _ _ s grouped λ _ _.
              let offering = record player { group_offered_to = some target_pc_id } in
              let after = IsGrouped-put_player s pc_id player offering here refl grouped in
              then_put_player IsGrouped pc_id offering _ s (
                then_player IsGrouped _ _ _ after λ _ _.
                  then_lift IsGrouped _ _ _ after
                    λ _ _. told_other self_id connected send IsGrouped IsGrouped-blind _ _ _ after))

  pub pc_group_invite_refuse-IsGrouped :
      (host_pc_id : ℕ) (s : ShardState)
      → IsGrouped s
      → IsKept IsGrouped (pc_group_invite_refuse self_id connected send host_pc_id s)
  unfolding pc_group_invite_refuse put_player
  pc_group_invite_refuse-IsGrouped host_pc_id s grouped =
      then_lift IsGrouped _ _ s grouped λ pc_id _. then_player IsGrouped _ _ s grouped λ host here.
        then_lift IsGrouped _ _ s grouped λ _ _.
          then_tell_other self_id connected send IsGrouped IsGrouped-blind _ _ _ s (
            Post-ok _ _ tt _ (
              IsGrouped-put_player (record s { outbox = _ }) host_pc_id host
                (record host { group_offered_to = none }) here refl (IsGrouped-blind s _ grouped)))

  pub pc_group_leave-IsGrouped :
      (s : ShardState) → IsGrouped s → IsKept IsGrouped (pc_group_leave self_id connected send s)
  unfolding pc_group_leave
  pc_group_leave-IsGrouped s grouped =
      reported self_id connected send IsGrouped IsGrouped-blind _ _ s (
        then_lift IsGrouped _ _ s grouped λ pc_id _.
          then_player IsGrouped _ _ s grouped λ player here.
            let gone = record player { group_id = none } in
            then_put_player IsGrouped pc_id gone _ s (
              then_group_id self_id connected send player.group_id _ _ _
                (λ lone. IsGrouped-put_player s pc_id player gone here (sym lone) grouped)
                λ group_id has.
                  let is_left =
                    leaver-IsLeft self_id connected send s
                      (record s { players = update s.players pc_id (some gone) })
                      (player_entity pc_id) group_id grouped
                      (group_of-found s pc_id player here ∙ ap some has) refl
                      (λ j g. without_player self_id connected send s pc_id (some gone) j g refl) in
                  then_run self_id connected send
                    (remove_group_member self_id connected send (player_entity pc_id) group_id) _ _
                    (remove_group_member-IsGrouped self_id connected send (player_entity pc_id)
                      group_id _ is_left.0 is_left.1)
                    λ s' after.
                      told_self self_id connected send IsGrouped IsGrouped-blind _ s' after))

  pub npc_group_kick-IsGrouped :
      (target_npc_id : ℕ) (s : ShardState)
      → IsGrouped s
      → IsKept IsGrouped (npc_group_kick self_id connected send target_npc_id s)
  unfolding npc_group_kick ◌>>=◌ put_npc
  npc_group_kick-IsGrouped target_npc_id s grouped = then_lift IsGrouped _ _ s grouped λ pc_id _.
      then_player IsGrouped _ _ s grouped λ player here.
        then_group_id self_id connected send player.group_id _ _ s (λ _. grouped)
          λ group_id has. then_npc self_id connected send target_npc_id _ s grouped λ mob at.
            then_lift IsGrouped _ _ s grouped λ _ test.
              let gone = record mob { group_id = none } in
              let is_left =
                leaver-IsLeft self_id connected send s
                  (record s { npcs = update s.npcs target_npc_id (some gone) })
                  (npc_entity target_npc_id) group_id grouped
                  (group_of-found_npc s target_npc_id mob at
                    ∙ ap some
                        (grouped_in-true self_id connected send mob.group_id group_id _ _ test))
                  refl
                  (λ j g.
                    without_npc self_id connected send s target_npc_id (some gone) j g refl) in
              remove_group_member-IsGrouped self_id connected send (npc_entity target_npc_id)
                group_id _ is_left.0 is_left.1

  leave_group-IsGrouped :
      (s s' : ShardState) (id : EntityId) (o : Option ℕ)
      → IsGrouped s
      → group_of s id ≡ some o
      → s'.groups ≡ s.groups
      → ((j : EntityId) (g : ℕ)
          → is_of g (group_of s' j) ≡ (not (same_id j id) && is_of g (group_of s j)))
      → IsKept IsGrouped (leave_group self_id connected send id o s')
  unfolding leave_group Post pure
  leave_group-IsGrouped s s' id none grouped was groups others = (
    λ g j. rw groups (ground (arith, others j g, grouped.0 g j, same_id_iff j id, lone g j)),
    rw groups grouped.1,
  )
    where
      lone : (g : ℕ) (j : EntityId) → j ≡ id → is_of g (group_of s j) ≡ false
      lone g j e = rw e (rw was refl)
  leave_group-IsGrouped s s' id (some group_id) grouped was groups others =
      let is_left =
        leaver-IsLeft self_id connected send s s' id group_id grouped was groups others in
      go (remove_group_member self_id connected send id group_id s')
        (remove_group_member-IsGrouped self_id connected send id group_id s' is_left.0 is_left.1)
    where
      go :
          (r : Outcome (Unit {0}) × ShardState)
          → IsKept IsGrouped r
          → IsKept IsGrouped (unwrap_result r.0, r.1)
      go (ok u, s1) h = h
      go (err e, s1) h = tt
      go (panics, s1) h = tt

  pub player_cleanup-IsGrouped :
      (pc_id : ℕ) (s : ShardState)
      → IsGrouped s
      → IsKept IsGrouped (player_cleanup self_id connected send pc_id s)
  unfolding player_cleanup
  player_cleanup-IsGrouped pc_id s grouped =
      Post-found>>= self_id connected send _ _ pc_id _ s λ player here.
        then_remove_player IsGrouped pc_id _ s (
          leave_group-IsGrouped s _ (player_entity pc_id) player.group_id grouped
            (group_of-found s pc_id player here) refl
            (λ j g. without_player self_id connected send s pc_id none j g refl))

  pub npc_cleanup-IsGrouped :
      (npc_id : ℕ) (s : ShardState)
      → IsGrouped s
      → IsKept IsGrouped (npc_cleanup self_id connected send npc_id s)
  unfolding npc_cleanup ◌>>=◌ put_npc
  npc_cleanup-IsGrouped npc_id s grouped =
      Post-found_npc>>= self_id connected send _ _ npc_id _ s λ mob here.
        leave_group-IsGrouped s (record s { npcs = update s.npcs npc_id none }) (npc_entity npc_id)
          mob.group_id grouped (group_of-found_npc s npc_id mob here) refl
          (λ j g. without_npc self_id connected send s npc_id none j g refl)
