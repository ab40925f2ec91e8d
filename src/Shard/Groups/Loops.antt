-- ===== src/Shard/Groups/Loops.antt =====
-- src/bin/shard/group.rs and src/helpers.rs: the loops over the members of a group.
use rusty_fusion.Entity.Group.{Group, contains}
use rusty_fusion.Entity.Id.{EntityId, egg_entity, npc_entity, player_entity, same_id, slider_entity}
use rusty_fusion.Entity.Npc.{Npc}
use rusty_fusion.Entity.Player.{Player}
use rusty_fusion.Error.{Outcome, unwrap}
use rusty_fusion.Prelude.{
  Bool, List, Option, [], arith, false, if◌then◌else◌, none, refl, some, true, ℕ, ◌∙◌, ◌∷◌, ◌≡◌,
}
use rusty_fusion.Shard.Groups.{
  clear_group, disband, found_npc, get_group, get_member_data, notify, notify_all, put_npc,
}
use rusty_fusion.Shard.Groups.Membership.{group_of, group_of-blind, group_of-npc, group_of-player}
use rusty_fusion.Shard.Post.{Post, Post->>=, Post-pure}
use rusty_fusion.Shard.State.{
  Message, Run, ShardState, continue, lift, pc_group_leave_succ, pure, put_player, tell, ◌>>=◌,
}
use rusty_fusion.Shard.Trading.{found}

module _ (self_id : Outcome ℕ) (connected : ℕ → Bool) (send : Message → Outcome (Unit {0})) where
  module _ {A : Type 0} (Q : A → ShardState → Type 0) (E : ShardState → Type 0) where
    unwrapped :
        {B : Type 0} (o : Option B) (f : B → Run A) (s : ShardState)
        → ((b : B) → o ≡ some b → Post Q E (f b s))
        → Post Q E (continue (unwrap o) f s)
    unfolding Post
    unwrapped none f s h = tt
    unwrapped (some b) f s h = h b refl

    pub Post-found>>= :
        (pc_id : ℕ) (f : Player → Run A) (s : ShardState)
        → ((player : Player) → s.players pc_id ≡ some player → Post Q E (f player s))
        → Post Q E ((found self_id connected send pc_id >>= f) s)
    unfolding ◌>>=◌ found
    Post-found>>= pc_id f s h = unwrapped (s.players pc_id) f s h

    pub Post-found_npc>>= :
        (npc_id : ℕ) (f : Npc → Run A) (s : ShardState)
        → ((mob : Npc) → s.npcs npc_id ≡ some mob → Post Q E (f mob s))
        → Post Q E ((found_npc self_id connected send npc_id >>= f) s)
    unfolding ◌>>=◌ found_npc
    Post-found_npc>>= npc_id f s h = unwrapped (s.npcs npc_id) f s h

    pub Post-get_group>>= :
        (group_id : ℕ) (f : Group → Run A) (s : ShardState)
        → ((group : Group) → s.groups group_id ≡ some group → Post Q E (f group s))
        → Post Q E ((get_group self_id connected send group_id >>= f) s)
    unfolding ◌>>=◌ get_group
    Post-get_group>>= group_id f s h = unwrapped (s.groups group_id) f s h

  pub Post-get_member_data :
      (members : List EntityId) (Q : List ℕ × List ℕ → ShardState → Type 0)
      (E : ShardState → Type 0) (s : ShardState)
      → ((both : List ℕ × List ℕ) → Q both s)
      → Post Q E (get_member_data self_id connected send members s)
  unfolding get_member_data Post lift
  Post-get_member_data [] Q E s h = Post-pure Q E ([], []) s (h ([], []))
  Post-get_member_data (player_entity i ∷ members) Q E s h = Post-found>>= Q E i _ s λ _ _.
      Post->>= Q E (get_member_data self_id connected send members) _ s (
        Post-get_member_data members _ E s
          λ both. Post-pure Q E (i ∷ both.0, both.1) s (h (i ∷ both.0, both.1)))
  Post-get_member_data (npc_entity i ∷ members) Q E s h = Post-found_npc>>= Q E i _ s λ _ _.
      Post->>= Q E (get_member_data self_id connected send members) _ s (
        Post-get_member_data members _ E s
          λ both. Post-pure Q E (both.0, i ∷ both.1) s (h (both.0, i ∷ both.1)))
  Post-get_member_data (slider_entity i ∷ members) Q E s h = tt
  Post-get_member_data (egg_entity i ∷ members) Q E s h = tt

  module _ (E : ShardState → Type 0) where
    pub Post-notify :
        (Q : Unit {0} → ShardState → Type 0) (message : Message) (id : EntityId) (s : ShardState)
        → ((o : List (Option ℕ × Message)) → Q tt (record s { outbox = o }))
        → Post Q E (notify self_id connected send message id s)
    unfolding notify tell pure lift Post
    Post-notify Q message (player_entity i) s h = Post-found>>= Q E i _ s λ _ _. told (connected i)
      where
        told : (b : Bool) → Post Q E ((if b then tell (some i) message else pure tt) s)
        told true = h _
        told false = h _
    Post-notify Q message (npc_entity i) s h = Post-found_npc>>= Q E i _ s λ _ _. h _
    Post-notify Q message (slider_entity i) s h = tt
    Post-notify Q message (egg_entity i) s h = tt

    pub Post-notify_all :
        (Q : Unit {0} → ShardState → Type 0) (message : Message) (members : List EntityId)
        (s : ShardState)
        → ((o : List (Option ℕ × Message)) → Q tt (record s { outbox = o }))
        → Post Q E (notify_all self_id connected send message members s)
    unfolding notify_all
    Post-notify_all Q message [] s h = Post-pure Q E tt s (h _)
    Post-notify_all Q message (member ∷ members) s h =
        Post->>= Q E (notify self_id connected send message member) _ s (
          Post-notify _ message member s
            λ o. Post-notify_all Q message members (record s { outbox = o }) λ o'. h o')

    -- A member's group id is cleared, and nothing else.
    pub Post-clear_group :
        (Q : Unit {0} → ShardState → Type 0) (id : EntityId) (s : ShardState)
        → ((s' : ShardState)
            → s'.groups ≡ s.groups
            → ((j : EntityId) → group_of s' j ≡ (if same_id j id then some none else group_of s j))
            → Q tt s')
        → Post Q E (clear_group self_id connected send id s)
    unfolding clear_group put_player put_npc Post lift
    Post-clear_group Q (player_entity i) s h = Post-found>>= Q E i _ s λ player here.
        h _ refl λ j. group_of-player s i (some (record player { group_id = none })) j
    Post-clear_group Q (npc_entity i) s h =
        Post-found_npc>>= Q E i _ s
          λ mob here. h _ refl λ j. group_of-npc s i (some (record mob { group_id = none })) j
    Post-clear_group Q (slider_entity i) s h = tt
    Post-clear_group Q (egg_entity i) s h = tt

    pub Post-disband :
        (Q : Unit {0} → ShardState → Type 0) (members : List EntityId) (s : ShardState)
        → ((s' : ShardState)
            → s'.groups ≡ s.groups
            → ((j : EntityId)
                → group_of s' j ≡ (if contains j members then some none else group_of s j))
            → Q tt s')
        → Post Q E (disband self_id connected send members s)
    unfolding disband contains
    Post-disband Q [] s h = Post-pure Q E tt s (h s refl λ j. refl)
    Post-disband Q (member ∷ members) s h =
        Post->>= Q E (notify self_id connected send pc_group_leave_succ member) _ s (
          Post-notify _ pc_group_leave_succ member s λ o.
            Post->>= Q E (clear_group self_id connected send member) _ (record s { outbox = o })
              (Post-clear_group _ member (record s { outbox = o })
                λ s1 groups1 cleared1. Post-disband Q members s1 λ s2 groups2 cleared2.
                  h s2 (groups2 ∙ groups1)
                    λ j. ground (arith, cleared1 j, cleared2 j, group_of-blind s o j)))
