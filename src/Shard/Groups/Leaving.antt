-- ===== src/Shard/Groups/Leaving.antt =====
-- src/helpers.rs: removing a member whose group id is gone already makes the groups agree again.
use rusty_fusion.Entity.Group.{Group, contains, remove_member, should_disband}
use rusty_fusion.Entity.Group.Bounds.{
  IsGroup, contains-without, remove_member-IsGroup, remove_member-members,
}
use rusty_fusion.Entity.Id.{
  EntityId, egg_entity, npc_entity, player_entity, same_id, same_id_iff, slider_entity,
}
use rusty_fusion.Error.{Outcome, ok}
use rusty_fusion.Prelude.{
  Bool, Bool-cases, List, Option, ap, arith, false, if◌then◌else◌, inl, inr, none, not, refl, some,
  sym, true, ℕ, ◌&&◌, ◌==◌, ◌∙◌, ◌≡◌, ◌≢◌,
}
use rusty_fusion.Shard.Groups.{
  after_leave, disband, get_member_data, leave_message, notify_all, put_group, remove_group_member,
}
use rusty_fusion.Shard.Groups.Loops.{
  Post-disband, Post-get_group>>=, Post-get_member_data, Post-notify_all,
}
use rusty_fusion.Shard.Groups.Membership.{
  AllLive, IsGrouped, IsLive, group_of, group_of-blind, group_of-regroup, is_in, is_of,
}
use rusty_fusion.Shard.Post.{Post, Post->>=}
use rusty_fusion.Shard.State.{Message, ShardState, lift, update, ◌>>=◌, ◌>>◌}
use rusty_fusion.Shard.Trading.Keeping.{IsKept, then_sure}

-- The groups agree but for one entity, which is a member of a group and does not have its id.
abbrev pub IsLeft : EntityId → ℕ → ShardState → Type 0
IsLeft leaver group_id s =
    ((g : ℕ) (id : EntityId)
      → is_of g (group_of s id)
        ≡ (not (same_id id leaver && g == group_id) && is_in id (s.groups g)))
    × AllLive s.groups

-- An entity has the id of one group at most.
one_group : (g h : ℕ) (o : Option (Option ℕ)) → is_of g o ≡ true → g ≢ h → is_of h o ≡ false
one_group g h none e ne = refl
one_group g h (some none) e ne = refl
one_group g h (some (some x)) e ne = ground arith

module _ (s : ShardState) (leaver : EntityId) (group_id : ℕ) (group group' : Group)
    (left : IsLeft leaver group_id s) (here : s.groups group_id ≡ some group)
    (removed : remove_member group leaver ≡ ok group') where
  stays :
      (j : EntityId)
      → contains j group'.members ≡ (not (same_id j leaver) && contains j group.members)
  stays j =
      let (was, rest) = remove_member-members group group' leaver removed in
      rw rest (contains-without j leaver group.members)

  in_here : (j : EntityId) → is_in j (s.groups group_id) ≡ contains j group.members
  in_here j = rw here refl

  -- With the group gone and the group ids of its other members cleared.
  pub disbanded-IsGrouped :
      (s' : ShardState)
      → s'.groups ≡ s.groups
      → ((j : EntityId)
          → group_of s' j ≡ (if contains j group'.members then some none else group_of s j))
      → IsGrouped (record s' { groups = update s'.groups group_id none })
  unfolding update
  disbanded-IsGrouped s' groups cleared = (agrees, live)
    where
      ids :
          (j : EntityId)
          → group_of (record s' { groups = update s'.groups group_id none }) j ≡ group_of s' j
      ids j = group_of-regroup s' (update s'.groups group_id none) j

      agrees :
          (g : ℕ) (j : EntityId)
          → is_of g (group_of (record s' { groups = update s'.groups group_id none }) j)
            ≡ is_in j (update s'.groups group_id none g)
      agrees g j = rw (ids j) (
          rw (cleared j) (
            rw groups (elim (Bool-cases (g == group_id)) [
              | inl at ↦
                  ground (arith, at, left.0 group_id j, in_here j, stays j, same_id_iff j leaver)
              | inr other ↦ ground (
                arith,
                other,
                left.0 g j,
                left.0 group_id j,
                in_here j,
                stays j,
                one_group group_id g (group_of s j),
              )
            ])))

      live : AllLive (update s'.groups group_id none)
      live g kept e = left.1 g kept (ground (arith, e, ap (λ m. m g) groups))

  -- With the smaller group stored.
  pub kept-IsGrouped :
      IsGroup group'
      → should_disband group' ≡ false
      → (o : List (Option ℕ × Message))
      → IsGrouped (record s { outbox = o; groups = update s.groups group_id (some group') })
  unfolding update
  kept-IsGrouped bounds lives o = (agrees, live)
    where
      ids :
          (j : EntityId)
          → group_of (record s { outbox = o; groups = update s.groups group_id (some group') }) j
            ≡ group_of s j
      ids j =
          group_of-regroup (record s { outbox = o }) (update s.groups group_id (some group')) j
          ∙ group_of-blind s o j

      agrees :
          (g : ℕ) (j : EntityId)
          → is_of g (
              group_of (record s { outbox = o; groups = update s.groups group_id (some group') }) j)
            ≡ is_in j (update s.groups group_id (some group') g)
      agrees g j = rw (ids j) (elim (Bool-cases (g == group_id)) [
        | inl at ↦ ground (arith, at, left.0 g j, left.0 group_id j, in_here j, stays j)
        | inr other ↦ ground (arith, other, left.0 g j)
      ])

      live_is : (kept : Group) → group' ≡ kept → IsLive kept
      live_is kept same = rw (sym same) (bounds, lives)

      live : AllLive (update s.groups group_id (some group'))
      live g kept e = elim (Bool-cases (g == group_id)) [
        | inl at ↦ let same : group' ≡ kept = ground (arith, at, e) in live_is kept same
        | inr other ↦ left.1 g kept (ground (arith, other, e))
      ]

module _ (self_id : Outcome ℕ) (connected : ℕ → Bool) (send : Message → Outcome (Unit {0})) where
  put_group-ok :
      (Q : Unit {0} → ShardState → Type 0) (E : ShardState → Type 0) (group_id : ℕ)
      (o : Option Group) (s : ShardState)
      → Q tt (record s { groups = update s.groups group_id o })
      → Post Q E (put_group self_id connected send group_id o s)
  unfolding put_group Post
  put_group-ok Q E group_id o s h = h

  -- The message is never an error.
  Post-message :
      (leaver : EntityId) (pcs npcs : List ℕ) (Q : Message → ShardState → Type 0)
      (E : ShardState → Type 0) (s : ShardState)
      → ((message : Message) → Q message s)
      → Post Q E (lift (leave_message self_id connected send leaver pcs npcs) s)
  unfolding leave_message lift Post
  Post-message (player_entity i) pcs npcs Q E s h = h _
  Post-message (npc_entity i) pcs npcs Q E s h = h _
  Post-message (slider_entity i) pcs npcs Q E s h = tt
  Post-message (egg_entity i) pcs npcs Q E s h = tt

  after_leave-IsGrouped :
      (leaver : EntityId) (group_id : ℕ) (group group' : Group) (s : ShardState)
      → IsLeft leaver group_id s
      → s.groups group_id ≡ some group
      → remove_member group leaver ≡ ok group'
      → IsKept IsGrouped (after_leave self_id connected send leaver group_id group' s)
  unfolding after_leave
  after_leave-IsGrouped leaver group_id group group' s left here removed =
      go (should_disband group') refl
    where
      go :
          (b : Bool)
          → should_disband group' ≡ b
          → IsKept IsGrouped (
              (if b
                  then (do
                    disband self_id connected send group'.members
                    put_group self_id connected send group_id none)
                  else (do
                    (pcs, npcs) ← get_member_data self_id connected send group'.members
                    message ← lift (leave_message self_id connected send leaver pcs npcs)
                    notify_all self_id connected send message group'.members
                    put_group self_id connected send group_id (some group')))
                s)
      go true e = Post->>= _ _ (disband self_id connected send group'.members) _ s (
          Post-disband self_id connected send _ _ group'.members s λ s' groups cleared.
            put_group-ok _ _ group_id none s' (
              disbanded-IsGrouped s leaver group_id group group' left here removed s' groups
                cleared))
      go false e = Post->>= _ _ (get_member_data self_id connected send group'.members) _ s (
          Post-get_member_data self_id connected send group'.members _ _ s λ both.
            Post->>= _ _ (lift (leave_message self_id connected send leaver both.0 both.1)) _ s (
              Post-message leaver both.0 both.1 _ _ s λ message.
                Post->>= _ _ (notify_all self_id connected send message group'.members) _ s (
                  Post-notify_all self_id connected send _ _ message group'.members s λ o.
                    put_group-ok _ _ group_id (some group') (record s { outbox = o })
                      (kept-IsGrouped s leaver group_id group group' left here removed
                        (remove_member-IsGroup group group' leaver (left.1 group_id group here).0
                          removed)
                        e o))))

  pub remove_group_member-IsGrouped :
      (leaver : EntityId) (group_id : ℕ) (s : ShardState)
      → IsLeft leaver group_id s
      → is_in leaver (s.groups group_id) ≡ true
      → IsKept IsGrouped (remove_group_member self_id connected send leaver group_id s)
  unfolding remove_group_member remove_member
  remove_group_member-IsGrouped leaver group_id s left member =
      Post-get_group>>= self_id connected send _ _ group_id _ s λ group here.
        then_sure IsGrouped (remove_member group leaver) _ s
          (λ e h. ground (arith, h, member, in_group_of group here))
          λ group' removed. after_leave-IsGrouped leaver group_id group group' s left here removed
    where
      in_group_of :
          (group : Group)
          → s.groups group_id ≡ some group
          → is_in leaver (s.groups group_id) ≡ contains leaver group.members
      in_group_of group here = rw here refl
