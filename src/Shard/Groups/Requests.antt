-- ===== src/Shard/Groups/Requests.antt =====
-- src/bin/shard/main.rs and src/bin/shard/group.rs: sequences of group requests by any clients, with
-- what else happens on the shard between them.
use rusty_fusion.Entity.Id.{EntityId}
use rusty_fusion.Error.{Outcome, err, ok, panics}
use rusty_fusion.Prelude.{Bool, none, refl, sym, ℕ, ◌∙◌, ◌≡◌, ◌≢◌}
use rusty_fusion.Shard.Groups.{
  pc_group_invite, pc_group_invite_refuse, pc_group_join, pc_group_leave,
}
use rusty_fusion.Shard.Groups.Npcs.{npc_cleanup, npc_group_invite, npc_group_kick, player_cleanup}
use rusty_fusion.Shard.Groups.Additions.{npc_group_invite-IsGrouped, pc_group_join-IsGrouped}
use rusty_fusion.Shard.Groups.Agreement.{
  npc_cleanup-IsGrouped, npc_group_kick-IsGrouped, pc_group_invite-IsGrouped,
  pc_group_invite_refuse-IsGrouped, pc_group_leave-IsGrouped, player_cleanup-IsGrouped,
}
use rusty_fusion.Shard.Groups.Membership.{IsGrouped, group_of, is_of}
use rusty_fusion.Shard.Post.{Post}
use rusty_fusion.Shard.State.{Message, Run, ShardState}
use rusty_fusion.Shard.Trading.Keeping.{IsKept}

-- The packets of groups, and a player or an NPC that leaves the shard.
pub data GroupRequest : Type 0 where
  ask_invite ask_refuse ask_join ask_npc_invite ask_npc_kick : ℕ → GroupRequest
  ask_leave : GroupRequest
  player_gone npc_gone : ℕ → GroupRequest

-- What a request meets: the parameters of the handlers, and an unused group id.
pub record GroupSurroundings : Type 0 where
  pub self_id : Outcome ℕ
  pub connected : ℕ → Bool
  pub send : Message → Outcome (Unit {0})
  pub new_group_id : ℕ

-- `handle_packet` calls the handler of the packet's id.
unfoldable pub handle_group : GroupSurroundings → GroupRequest → Run (Unit {0})
handle_group w (ask_invite pc_id) = pc_group_invite w.self_id w.connected w.send pc_id
handle_group w (ask_refuse pc_id) = pc_group_invite_refuse w.self_id w.connected w.send pc_id
handle_group w (ask_join pc_id) = pc_group_join w.self_id w.connected w.send w.new_group_id pc_id
handle_group w (ask_npc_invite npc_id) =
    npc_group_invite w.self_id w.connected w.send w.new_group_id npc_id
handle_group w (ask_npc_kick npc_id) = npc_group_kick w.self_id w.connected w.send npc_id
handle_group w ask_leave = pc_group_leave w.self_id w.connected w.send
handle_group w (player_gone pc_id) = player_cleanup w.self_id w.connected w.send pc_id
handle_group w (npc_gone npc_id) = npc_cleanup w.self_id w.connected w.send npc_id

handle_group-IsGrouped :
    (w : GroupSurroundings) (request : GroupRequest) (s : ShardState)
    → IsGrouped s
    → s.groups w.new_group_id ≡ none
    → IsKept IsGrouped (handle_group w request s)
unfolding handle_group
handle_group-IsGrouped w (ask_invite i) s grouped free =
    pc_group_invite-IsGrouped w.self_id w.connected w.send i s grouped
handle_group-IsGrouped w (ask_refuse i) s grouped free =
    pc_group_invite_refuse-IsGrouped w.self_id w.connected w.send i s grouped
handle_group-IsGrouped w (ask_join i) s grouped free =
    pc_group_join-IsGrouped w.self_id w.connected w.send w.new_group_id i s grouped free
handle_group-IsGrouped w (ask_npc_invite i) s grouped free =
    npc_group_invite-IsGrouped w.self_id w.connected w.send w.new_group_id i s grouped free
handle_group-IsGrouped w (ask_npc_kick i) s grouped free =
    npc_group_kick-IsGrouped w.self_id w.connected w.send i s grouped
handle_group-IsGrouped w ask_leave s grouped free =
    pc_group_leave-IsGrouped w.self_id w.connected w.send s grouped
handle_group-IsGrouped w (player_gone i) s grouped free =
    player_cleanup-IsGrouped w.self_id w.connected w.send i s grouped
handle_group-IsGrouped w (npc_gone i) s grouped free =
    npc_cleanup-IsGrouped w.self_id w.connected w.send i s grouped

-- What the rest of the server may do between two requests: anything that touches no group and no
-- group id; an entity without a group may come or go.
abbrev pub IsUntouched : ShardState → ShardState → Type 0
IsUntouched s s' =
    ((g : ℕ) → s'.groups g ≡ s.groups g)
    × ((g : ℕ) (id : EntityId) → is_of g (group_of s' id) ≡ is_of g (group_of s id))

-- The states after any number of steps from a state. A request that panics ends the server.
pub data GroupReaches (s : ShardState) : ShardState → Type 0 where
  at_first : GroupReaches s s
  asked :
      {s1 : ShardState}
      → GroupReaches s s1
      → (w : GroupSurroundings) (request : GroupRequest) → s1.groups w.new_group_id ≡ none
      → (handle_group w request s1).0 ≢ panics
      → GroupReaches s (handle_group w request s1).1
  meanwhile : {s1 s2 : ShardState} → GroupReaches s s1 → IsUntouched s1 s2 → GroupReaches s s2

IsKept-state :
    (r : Outcome (Unit {0}) × ShardState) → r.0 ≢ panics → IsKept IsGrouped r → IsGrouped r.1
unfolding Post
IsKept-state (ok u, s) lives kept = kept
IsKept-state (err e, s) lives kept = kept
IsKept-state (panics, s) lives kept = absurd (lives refl)

-- However many group requests any clients make, whoever leaves the shard, and whatever the server does
-- between them that leaves groups and group ids alone: if each new group id is unused and no
-- handler has panicked, then every player and NPC has the id of a group exactly if it is a member of the
-- group of that id, and each group has no entity twice, at most four players, at most one NPC, at
-- least one player and at least two members, given that this holds at the start.
pub GroupReaches-IsGrouped : (s s' : ShardState) → IsGrouped s → GroupReaches s s' → IsGrouped s'
GroupReaches-IsGrouped s s' grouped at_first = grouped
GroupReaches-IsGrouped s s' grouped (asked {s1 = s1} before w request free lives) =
    IsKept-state (handle_group w request s1) lives
      (handle_group-IsGrouped w request s1 (GroupReaches-IsGrouped s s1 grouped before) free)
GroupReaches-IsGrouped s s' grouped (meanwhile {s1 = s1} before (groups, ids)) =
    let (matched, live) = GroupReaches-IsGrouped s s1 grouped before in
    (
      λ g id. rw (groups g) (ids g id ∙ matched g id),
      λ g group e. live g group (sym (groups g) ∙ e),
    )
