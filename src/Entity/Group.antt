-- ===== src/Entity/Group.antt =====
-- src/entity/mod.rs: `Group`. The set of members is a list, without order: no code that reads it
-- depends on the place of a member.
pub mod Bounds
use rusty_fusion.Entity.Id.{EntityId, is_npc, is_player, npc_entity, player_entity, same_id}
use rusty_fusion.Error.{Outcome, build, err, guard, ok, warning, ◌>>◌}
use rusty_fusion.Prelude.{
  Bool, List, [], false, if◌then◌else◌, leb, length, ltb, not, ℕ, ◌+◌, ◌==◌, ◌||◌, ◌∷◌,
}

abbrev pub group_max_player_count : ℕ
group_max_player_count = 4

abbrev pub group_max_npc_count : ℕ
group_max_npc_count = 1

pub record Group : Type 0 where
  pub members : List EntityId

unfoldable pub contains : EntityId → List EntityId → Bool
contains id [] = false
contains id (member ∷ members) = same_id id member || contains id members

unfoldable pub without : EntityId → List EntityId → List EntityId
without id [] = []
without id (member ∷ members) =
    let rest = without id members in if same_id id member then rest else member ∷ rest

unfoldable pub count_of : (EntityId → Bool) → List EntityId → ℕ
count_of p [] = 0
count_of p (member ∷ members) = (if p member then 1 else 0) + count_of p members

unfoldable pub new_group : EntityId → Group
new_group creator_id = record { members = creator_id ∷ [] }

unfoldable pub get_num_players : Group → ℕ
unfolding count_of
get_num_players group = count_of is_player group.members

unfoldable pub get_num_npcs : Group → ℕ
unfolding count_of
get_num_npcs group = count_of is_npc group.members

-- The `match` on the kind of the entity.
unfoldable pub has_room : Group → EntityId → Outcome (Unit {0})
unfolding get_num_players get_num_npcs
has_room group (player_entity pc_id) =
    guard (ltb (get_num_players group) group_max_player_count)
      (build warning "Group is full of players")
has_room group (npc_entity npc_id) =
    guard (ltb (get_num_npcs group) group_max_npc_count) (build warning "Group is full of NPCs")
has_room group _ = err (build warning "cannot join group; must be a player or NPC")

unfoldable pub add_member : Group → EntityId → Outcome Group
unfolding contains has_room
add_member group id = do
  guard (not (contains id group.members)) (build warning "is already in the group")
  has_room group id
  ok (record { members = id ∷ group.members })

unfoldable pub remove_member : Group → EntityId → Outcome Group
unfolding contains without
remove_member group id =
    if contains id group.members
    then ok (record { members = without id group.members })
    else err (build warning "is not in the group")

unfoldable pub should_disband : Group → Bool
unfolding get_num_players
should_disband group = leb (length group.members) 1 || get_num_players group == 0
