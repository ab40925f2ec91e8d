-- ===== src/Entity/Group/Bounds.antt =====
-- src/entity/mod.rs: the bounds of a `Group`, and what adding and removing a member does to it.
use rusty_fusion.Entity.Group.{
  Group, add_member, contains, count_of, get_num_npcs, get_num_players, has_room, new_group,
  remove_member, without,
}
use rusty_fusion.Entity.Id.{
  EntityId, egg_entity, is_npc, is_player, npc_entity, player_entity, same_id, same_id_iff,
  slider_entity,
}
use rusty_fusion.Error.{ok}
use rusty_fusion.Prelude.{
  Bool, List, [], arith, false, length, not, refl, true, ℕ, ◌&&◌, ◌+◌, ◌<◌, ◌∷◌, ◌≡◌, ◌≤◌, ◌⊎◌,
}

-- No entity twice, at most four players and one NPC, and nothing else.
abbrev pub IsGroup : Group → Type 0
IsGroup group =
    ((id : EntityId) → count_of (same_id id) group.members ≤ 1)
    × (get_num_players group ≤ 4)
    × (get_num_npcs group ≤ 1)
    × (length group.members ≡ get_num_players group + get_num_npcs group)

pub same_id_refl : (id : EntityId) → same_id id id ≡ true
same_id_refl id = let (there, conv) = same_id_iff id id in conv refl

pub contains-without :
    (j id : EntityId) (members : List EntityId)
    → contains j (without id members) ≡ (not (same_id j id) && contains j members)
unfolding contains without
contains-without j id [] = ground arith
contains-without j id (member ∷ members) = ground (
  arith,
  contains-without j id members,
  same_id_iff j id,
  same_id_iff j member,
  same_id_iff id member,
)

without-le :
    (p : EntityId → Bool) (id : EntityId) (members : List EntityId)
    → count_of p (without id members) ≤ count_of p members
unfolding count_of without
without-le p id [] = omega arith
without-le p id (member ∷ members) = ground (arith, without-le p id members)

absent :
    (id : EntityId) (members : List EntityId)
    → contains id members ≡ false
    → count_of (same_id id) members ≡ 0
unfolding contains count_of
absent id [] h = refl
absent id (member ∷ members) h = ground (arith, absent id members)

-- Members that are players or NPCs only.
only_both :
    (members : List EntityId)
    → count_of is_player members + count_of is_npc members ≤ length members
unfolding count_of
only_both [] = omega arith
only_both (player_entity i ∷ members) = omega (arith, only_both members)
only_both (npc_entity i ∷ members) = omega (arith, only_both members)
only_both (slider_entity i ∷ members) = omega (arith, only_both members)
only_both (egg_entity i ∷ members) = omega (arith, only_both members)

without-only :
    (id : EntityId) (members : List EntityId)
    → length members ≡ count_of is_player members + count_of is_npc members
    → length (without id members)
      ≡ count_of is_player (without id members) + count_of is_npc (without id members)
unfolding count_of without
without-only id [] h = refl
without-only id (player_entity i ∷ members) h =
    ground (arith, without-only id members (omega arith))
without-only id (npc_entity i ∷ members) h = ground (arith, without-only id members (omega arith))
without-only id (slider_entity i ∷ members) h = absurd (omega (arith, only_both members))
without-only id (egg_entity i ∷ members) h = absurd (omega (arith, only_both members))

-- What an addition asks of a group and an entity.
abbrev pub IsAdmitted : Group → EntityId → Type 0
IsAdmitted group id =
    (contains id group.members ≡ false)
    × (((is_player id ≡ true) × (get_num_players group < 4))
        ⊎ ((is_npc id ≡ true) × (get_num_npcs group < 1)))

pub add_member-IsAdmitted :
    (group group' : Group) (id : EntityId)
    → add_member group id ≡ ok group'
    → IsAdmitted group id × (group'.members ≡ id ∷ group.members)
unfolding add_member has_room
add_member-IsAdmitted group group' (player_entity i) h = ground (arith, h)
add_member-IsAdmitted group group' (npc_entity i) h = ground (arith, h)
add_member-IsAdmitted group group' (slider_entity i) h = absurd (ground (arith, h))
add_member-IsAdmitted group group' (egg_entity i) h = absurd (ground (arith, h))

pub remove_member-members :
    (group group' : Group) (id : EntityId)
    → remove_member group id ≡ ok group'
    → (contains id group.members ≡ true) × (group'.members ≡ without id group.members)
unfolding remove_member
remove_member-members group group' id h = ground (arith, h)

pub add_member-IsGroup :
    (group group' : Group) (id : EntityId)
    → IsGroup group
    → add_member group id ≡ ok group'
    → IsGroup group'
unfolding get_num_players get_num_npcs count_of
add_member-IsGroup group group' id (distinct, players, npcs, only) h =
    let ((is_new, room), grown) = add_member-IsAdmitted group group' id h in
    (
      λ j. ground (arith, grown, distinct j, absent id group.members is_new, same_id_iff j id),
      ground (arith, grown, players, room),
      ground (arith, grown, npcs, room),
      ground (arith, grown, only, room),
    )

pub remove_member-IsGroup :
    (group group' : Group) (id : EntityId)
    → IsGroup group
    → remove_member group id ≡ ok group'
    → IsGroup group'
unfolding get_num_players get_num_npcs
remove_member-IsGroup group group' id (distinct, players, npcs, only) h =
    let (was, left) = remove_member-members group group' id h in
    (
      λ j. rw left (omega (arith, without-le (same_id j) id group.members, distinct j)),
      rw left (omega (arith, without-le is_player id group.members, players)),
      rw left (omega (arith, without-le is_npc id group.members, npcs)),
      rw left (without-only id group.members only),
    )

pub new_group-IsGroup : (pc_id : ℕ) → IsGroup (new_group (player_entity pc_id))
unfolding new_group count_of get_num_players get_num_npcs
new_group-IsGroup pc_id = (λ j. ground arith, omega arith, omega arith, refl)

-- The groups after any additions and removals that succeed, from one that a player creates.
pub data Grows (pc_id : ℕ) : Group → Type 0 where
  created : Grows pc_id (new_group (player_entity pc_id))
  joined :
      {group group' : Group}
      → Grows pc_id group
      → (id : EntityId) → add_member group id ≡ ok group'
      → Grows pc_id group'
  parted :
      {group group' : Group}
      → Grows pc_id group
      → (id : EntityId) → remove_member group id ≡ ok group'
      → Grows pc_id group'

-- A group that a player creates has, after any additions and removals that succeed, no entity twice,
-- at most four players, at most one NPC, and no other entity.
pub Grows-IsGroup : (pc_id : ℕ) (group : Group) → Grows pc_id group → IsGroup group
Grows-IsGroup pc_id group created = new_group-IsGroup pc_id
Grows-IsGroup pc_id group (joined {group = before} g id h) =
    add_member-IsGroup before group id (Grows-IsGroup pc_id before g) h
Grows-IsGroup pc_id group (parted {group = before} g id h) =
    remove_member-IsGroup before group id (Grows-IsGroup pc_id before g) h

without-absent :
    (id : EntityId) (members : List EntityId)
    → contains id members ≡ false
    → without id members ≡ members
unfolding contains without
without-absent id [] h = refl
without-absent id (member ∷ members) h = ground (arith, without-absent id members)

-- Removing the member that was added last gives the group from before the addition.
pub remove_member-add_member :
    (group group' : Group) (id : EntityId)
    → add_member group id ≡ ok group'
    → remove_member group' id ≡ ok group
unfolding remove_member contains without
remove_member-add_member group group' id h =
    let ((is_new, room), grown) = add_member-IsAdmitted group group' id h in
    rw grown (ground (arith, same_id_refl id, without-absent id group.members is_new))
