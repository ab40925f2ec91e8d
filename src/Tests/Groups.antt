-- ===== src/Tests/Groups.antt =====
-- Runs of `Group` in src/entity/mod.rs and of src/bin/shard/group.rs.
use rusty_fusion.Entity.Group.{
  Group, add_member, contains, count_of, get_num_npcs, get_num_players, has_room, new_group,
  remove_member,
}
use rusty_fusion.Entity.Group.Bounds.{
  Grows-IsGroup, IsGroup, created, joined, remove_member-add_member,
}
use rusty_fusion.Entity.Id.{EntityId, egg_entity, npc_entity, player_entity, same_id, slider_entity}
use rusty_fusion.Error.{catch_fail, ok}
use rusty_fusion.Prelude.{[], arith, false, if◌then◌else◌, none, refl, some, ℕ, ◌==◌, ◌∷◌, ◌≡◌}
use rusty_fusion.Shard.Groups.{
  get_group, get_member_data, group_of_host, invited, notify, notify_all, pc_group_invite,
  pc_group_join, put_group,
}
use rusty_fusion.Shard.Groups.Membership.{IsGrouped, group_of, is_of}
use rusty_fusion.Shard.Groups.Requests.{
  GroupReaches-IsGrouped, GroupSurroundings, ask_invite, ask_join, asked, at_first, handle_group,
}
use rusty_fusion.Shard.State.{
  ShardState, catching, get_player, lift, pure, put_player, tell, update, ◌>>=◌,
}
use rusty_fusion.Shard.Trading.{found, tell_other}
use rusty_fusion.Tests.Trading.{all_connected, sends, trader}

abbrev pair : Group
pair = record { members = npc_entity 1 ∷ player_entity 5 ∷ [] }

pair_added : add_member (new_group (player_entity 5)) (npc_entity 1) ≡ ok pair
unfolding add_member contains has_room get_num_npcs count_of new_group same_id
pair_added = refl

Grows-IsGroup_example : IsGroup pair
Grows-IsGroup_example = Grows-IsGroup 5 pair (joined created (npc_entity 1) pair_added)

remove_member-add_member_example :
    remove_member pair (npc_entity 1) ≡ ok (new_group (player_entity 5))
remove_member-add_member_example =
    remove_member-add_member (new_group (player_entity 5)) pair (npc_entity 1) pair_added

abbrev request_of : ℕ → GroupSurroundings
request_of pc_id = record {
  self_id = ok pc_id;
  connected = all_connected;
  send = sends;
  new_group_id = 8;
}

abbrev empty_shard : ShardState
empty_shard = record {
  players = λ j.
      if j == 3 then some (trader 3 100 none) else if j == 4 then some (trader 4 50 none) else none;
  npcs = λ j. none;
  ongoing_trades = λ t. none;
  groups = λ t. none;
  buyback_lists = λ t. none;
  outbox = [];
}

empty_shard-IsGrouped : IsGrouped empty_shard
unfolding group_of
empty_shard-IsGrouped = (agrees, λ g group e. absurd (cc e))
  where
    agrees : (g : ℕ) (id : EntityId) → is_of g (group_of empty_shard id) ≡ false
    agrees g (player_entity i) = ground arith
    agrees g (npc_entity i) = refl
    agrees g (slider_entity i) = refl
    agrees g (egg_entity i) = refl

-- Player 3 asks player 4, who joins.
abbrev asked_shard : ShardState
asked_shard = (handle_group (request_of 3) (ask_invite 4) empty_shard).1

abbrev joined_shard : ShardState
joined_shard = (handle_group (request_of 4) (ask_join 3) asked_shard).1

asked_ok : (handle_group (request_of 3) (ask_invite 4) empty_shard).0 ≡ ok tt
unfolding handle_group pc_group_invite catching ◌>>=◌ lift get_player put_player tell_other tell
    update catch_fail
asked_ok = refl

still_free : asked_shard.groups 8 ≡ none
unfolding handle_group pc_group_invite catching ◌>>=◌ lift get_player put_player tell_other tell
    update catch_fail
still_free = refl

joined_ok : (handle_group (request_of 4) (ask_join 3) asked_shard).0 ≡ ok tt
unfolding handle_group pc_group_invite pc_group_join invited group_of_host get_member_data
    notify_all notify found get_group put_group add_member contains has_room get_num_players
    count_of new_group same_id pure catching ◌>>=◌ lift get_player put_player tell_other tell update
    catch_fail
joined_ok = refl

joined_members :
    joined_shard.groups 8 ≡ some (record { members = player_entity 4 ∷ player_entity 3 ∷ [] })
unfolding handle_group pc_group_invite pc_group_join invited group_of_host get_member_data
    notify_all notify found get_group put_group add_member contains has_room get_num_players
    count_of new_group same_id pure catching ◌>>=◌ lift get_player put_player tell_other tell update
    catch_fail
joined_members = refl

GroupReaches-IsGrouped_example : IsGrouped joined_shard
GroupReaches-IsGrouped_example =
    GroupReaches-IsGrouped empty_shard joined_shard empty_shard-IsGrouped (
      asked (asked at_first (request_of 3) (ask_invite 4) refl (λ h. cc (asked_ok, h)))
        (request_of 4) (ask_join 3) still_free (λ h. cc (joined_ok, h)))
