-- ===== src/Shard/Groups/Joining.antt =====
-- src/bin/shard/group.rs: adding a member to the group of a host, or to a new one.
use rusty_fusion.Entity.Group.{
  Group, add_member, contains, count_of, get_num_players, new_group, should_disband,
}
use rusty_fusion.Entity.Group.Bounds.{
  IsGroup, add_member-IsGroup, add_member-IsAdmitted, new_group-IsGroup, same_id_refl,
}
use rusty_fusion.Entity.Id.{EntityId, is_player, player_entity, same_id, same_id_iff}
use rusty_fusion.Error.{ok}
use rusty_fusion.Prelude.{
  Bool-cases, List, [], arith, false, if◌then◌else◌, inl, inr, length, none, refl, some, sym, true,
  ℕ, ◌==◌, ◌||◌, ◌↔◌, ◌∙◌, ◌∷◌, ◌≡◌, ◌≢◌, ◌≤◌,
}
use rusty_fusion.Shard.Groups.Membership.{AllLive, IsGrouped, IsLive, group_of, is_in, is_of}
use rusty_fusion.Shard.State.{ShardState, update}

has_player :
    (pc_id : ℕ) (members : List EntityId)
    → contains (player_entity pc_id) members ≡ true
    → (1 ≤ count_of is_player members) × (1 ≤ length members)
unfolding contains count_of
has_player pc_id [] h = absurd (cc h)
has_player pc_id (member ∷ members) h =
    ground (arith, has_player pc_id members, same_id_iff (player_entity pc_id) member)

-- A group that holds the host and gets another member is not to be disbanded.
grown-IsLive :
    (group group' : Group) (id : EntityId) (host_pc_id : ℕ)
    → IsGroup group
    → contains (player_entity host_pc_id) group.members ≡ true
    → add_member group id ≡ ok group'
    → IsLive group'
unfolding should_disband get_num_players count_of
grown-IsLive group group' id host_pc_id bounds host added =
    let (admitted, grown) = add_member-IsAdmitted group group' id added in
    (
      add_member-IsGroup group group' id bounds added,
      rw grown (ground (arith, has_player host_pc_id group.members host)),
    )

-- The group that a host has or is to have: a group of the shard, or a new one with the host in it.
pub data IsHosted (s : ShardState) (host_pc_id : ℕ) (group_id : ℕ) (group : Group) : Type 0 where
  has_group :
      group_of s (player_entity host_pc_id) ≡ some (some group_id)
      → s.groups group_id ≡ some group
      → IsHosted s host_pc_id group_id group
  has_none :
      group_of s (player_entity host_pc_id) ≡ some none
      → s.groups group_id ≡ none
      → group ≡ new_group (player_entity host_pc_id)
      → IsHosted s host_pc_id group_id group

abbrev IsWithHost : (s : ShardState) (host_pc_id group_id : ℕ) (group : Group) → Type 0
IsWithHost s host_pc_id group_id group =
    (j : EntityId)
    → contains j group.members
      ≡ (same_id j (player_entity host_pc_id) || is_in j (s.groups group_id))

hosted :
    (s : ShardState) (host_pc_id group_id : ℕ) (group : Group)
    → IsGrouped s
    → IsHosted s host_pc_id group_id group
    → IsWithHost s host_pc_id group_id group
      × IsGroup group
      × ((g : ℕ) → g ≢ group_id → is_of g (group_of s (player_entity host_pc_id)) ≡ false)
unfolding new_group contains
hosted s host_pc_id group_id group (matched, live) (has_group has here) = (
  λ j. rw here (is_there j (same_id_iff j (player_entity host_pc_id))),
  (live group_id group here).0,
  λ g ne. rw has (ground arith),
)
  where
    at_host : contains (player_entity host_pc_id) group.members ≡ true
    at_host = ground (arith, matched group_id (player_entity host_pc_id), at_group, own)
      where
        at_group :
            is_in (player_entity host_pc_id) (s.groups group_id)
            ≡ contains (player_entity host_pc_id) group.members
        at_group = rw here refl

        own : is_of group_id (group_of s (player_entity host_pc_id)) ≡ true
        own = rw has (ground arith)

    is_there :
        (j : EntityId)
        → ((same_id j (player_entity host_pc_id) ≡ true) ↔ (j ≡ player_entity host_pc_id))
        → contains j group.members
          ≡ (same_id j (player_entity host_pc_id) || contains j group.members)
    is_there j iff = elim (Bool-cases (same_id j (player_entity host_pc_id))) [
      | inl at ↦ rw (at, iff.0 at) (rw at_host refl)
      | inr other ↦ rw other refl
    ]
hosted s host_pc_id group_id group (matched, live) (has_none has free is_new) = (
  λ j. rw (is_new, free) (ground arith),
  rw is_new (new_group-IsGroup host_pc_id),
  λ g ne. rw has refl,
)

pub grown-IsGrouped :
    (s s' : ShardState) (id : EntityId) (host_pc_id group_id : ℕ) (group group' : Group)
    → IsGrouped s
    → IsHosted s host_pc_id group_id group
    → group_of s id ≡ some none
    → add_member group id ≡ ok group'
    → s'.groups ≡ update s.groups group_id (some group')
    → ((j : EntityId)
        → group_of s' j ≡ (
            if same_id j id || same_id j (player_entity host_pc_id)
            then some (some group_id)
            else group_of s j))
    → IsGrouped s'
unfolding contains update
grown-IsGrouped s s' id host_pc_id group_id group group' grouped is_hosted lone added groups ids =
    let (with_host, bounds, others) = hosted s host_pc_id group_id group grouped is_hosted in
    let (admitted, grown) = add_member-IsAdmitted group group' id added in
    (agrees with_host others grown, rw groups (live (with_host (player_entity host_pc_id)) bounds))
  where
    members :
        group'.members ≡ id ∷ group.members
        → (j : EntityId) → contains j group'.members ≡ (same_id j id || contains j group.members)
    members grown j = rw grown refl

    not_in : (j : EntityId) (g : ℕ) → j ≡ id → is_in j (s.groups g) ≡ false
    not_in j g e = rw e (sym (grouped.0 g id) ∙ none_of)
      where
        none_of : is_of g (group_of s id) ≡ false
        none_of = rw lone refl

    agrees :
        IsWithHost s host_pc_id group_id group
        → ((g : ℕ) → g ≢ group_id → is_of g (group_of s (player_entity host_pc_id)) ≡ false)
        → group'.members ≡ id ∷ group.members
        → (g : ℕ) (j : EntityId) → is_of g (group_of s' j) ≡ is_in j (s'.groups g)
    agrees with_host others grown g j = rw (ids j) (
        rw groups (elim (Bool-cases (g == group_id)) [
          | inl at ↦ ground (arith, at, grouped.0 g j, members grown j, with_host j)
          | inr other ↦ ground (
            arith,
            other,
            grouped.0 g j,
            grouped.0 g (player_entity host_pc_id),
            not_in j g,
            others g,
            same_id_iff j id,
            same_id_iff j (player_entity host_pc_id),
          )
        ]))

    live :
        contains (player_entity host_pc_id) group.members ≡ (
          same_id (player_entity host_pc_id) (player_entity host_pc_id)
          || is_in (player_entity host_pc_id) (s.groups group_id))
        → IsGroup group
        → AllLive (update s.groups group_id (some group'))
    live at_host bounds g kept e = elim (Bool-cases (g == group_id)) [
      | inl at ↦
          let same : group' ≡ kept = ground (arith, at, e) in
          rw (sym same) (
            grown-IsLive group group' id host_pc_id bounds
              (ground (arith, at_host, same_id_refl (player_entity host_pc_id))) added)
      | inr other ↦ grouped.1 g kept (ground (arith, other, e))
    ]
