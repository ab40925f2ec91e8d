-- ===== src/Shard/Groups/Steps.antt =====
-- src/bin/shard/group.rs: the steps of the handlers that take a member out of its group.
use rusty_fusion.Entity.Id.{EntityId, npc_entity, player_entity, same_id, same_id_iff}
use rusty_fusion.Entity.Npc.{Npc}
use rusty_fusion.Entity.Player.{Player}
use rusty_fusion.Error.{FfError, Outcome, build, err, guard, ok, ok_or, panics, warning}
use rusty_fusion.Prelude.{
  Bool, Bool-cases, Option, arith, false, inl, inr, is_none, none, not, refl, some, sym, true, ℕ,
  ◌&&◌, ◌==◌, ◌∙◌, ◌≡◌, ◌≢◌,
}
use rusty_fusion.Shard.Groups.{get_npc}
use rusty_fusion.Shard.Groups.Leaving.{IsLeft}
use rusty_fusion.Shard.Groups.Membership.{
  IsGrouped, group_id_of, group_of, group_of-npc, group_of-player, is_in, is_of, npc_group_id_of,
}
use rusty_fusion.Shard.Post.{Post}
use rusty_fusion.Shard.State.{Message, Run, ShardState, continue, lift, update, ◌>>=◌}
use rusty_fusion.Shard.Trading.Keeping.{IsKept}

module _ (self_id : Outcome ℕ) (connected : ℕ → Bool) (send : Message → Outcome (Unit {0})) where
  -- A member that leaves, after its own group id is cleared or the entity is untracked.
  pub leaver-IsLeft :
      (s s' : ShardState) (id : EntityId) (group_id : ℕ)
      → IsGrouped s
      → group_of s id ≡ some (some group_id)
      → s'.groups ≡ s.groups
      → ((j : EntityId) (g : ℕ)
          → is_of g (group_of s' j) ≡ (not (same_id j id) && is_of g (group_of s j)))
      → IsLeft id group_id s' × (is_in id (s'.groups group_id) ≡ true)
  leaver-IsLeft s s' id group_id (matched, live) was groups others = (
    (
      λ g j. rw groups (elim (Bool-cases (g == group_id)) [
        | inl at ↦ ground (arith, at, others j g, matched g j)
        | inr other ↦ ground (arith, other, others j g, matched g j, same_id_iff j id, not_of g j)
      ]),
      rw groups live,
    ),
    rw groups (sym (matched group_id id) ∙ is_own),
  )
    where
      is_own : is_of group_id (group_of s id) ≡ true
      is_own = rw was (ground arith)

      not_of : (g : ℕ) (j : EntityId) → j ≡ id → g ≢ group_id → is_of g (group_of s j) ≡ false
      not_of g j e ne = rw e (rw was (ground arith))

  -- The group id of a player or an NPC is cleared, or the entity is untracked.
  pub without_player :
      (s : ShardState) (pc_id : ℕ) (o : Option Player) (j : EntityId) (g : ℕ)
      → is_of g (group_id_of o) ≡ false
      → is_of g (group_of (record s { players = update s.players pc_id o }) j)
        ≡ (not (same_id j (player_entity pc_id)) && is_of g (group_of s j))
  without_player s pc_id o j g gone =
      rw (group_of-player s pc_id o j) (elim (Bool-cases (same_id j (player_entity pc_id))) [
        | inl at ↦ rw at gone
        | inr other ↦ rw other refl
      ])

  pub without_npc :
      (s : ShardState) (npc_id : ℕ) (o : Option Npc) (j : EntityId) (g : ℕ)
      → is_of g (npc_group_id_of o) ≡ false
      → is_of g (group_of (record s { npcs = update s.npcs npc_id o }) j)
        ≡ (not (same_id j (npc_entity npc_id)) && is_of g (group_of s j))
  without_npc s npc_id o j g gone =
      rw (group_of-npc s npc_id o j) (elim (Bool-cases (same_id j (npc_entity npc_id))) [
        | inl at ↦ rw at gone
        | inr other ↦ rw other refl
      ])

  pub then_run :
      (m : Run (Unit {0})) (f : Unit {0} → Run (Unit {0})) (s : ShardState)
      → IsKept IsGrouped (m s)
      → ((s' : ShardState) → IsGrouped s' → IsKept IsGrouped (f tt s'))
      → IsKept IsGrouped ((m >>= f) s)
  unfolding ◌>>=◌ Post
  then_run m f s kept h = go (m s) kept
    where
      go :
          (r : Outcome (Unit {0}) × ShardState)
          → IsKept IsGrouped r
          → IsKept IsGrouped (continue r.0 f r.1)
      go (ok tt, s') grouped = h s' grouped
      go (err e, s') grouped = grouped
      go (panics, s') grouped = tt

  -- The group id of a player, or an error if it has none.
  pub then_group_id :
      (o : Option ℕ) (e : FfError) (f : ℕ → Run (Unit {0})) (s : ShardState)
      → (o ≡ none → IsGrouped s)
      → ((group_id : ℕ) → o ≡ some group_id → IsKept IsGrouped (f group_id s))
      → IsKept IsGrouped ((lift (ok_or o e) >>= f) s)
  unfolding ◌>>=◌ Post lift
  then_group_id none e f s fails h = fails refl
  then_group_id (some group_id) e f s fails h = h group_id refl

  pub then_npc :
      (npc_id : ℕ) (f : Npc → Run (Unit {0})) (s : ShardState)
      → IsGrouped s
      → ((mob : Npc) → s.npcs npc_id ≡ some mob → IsKept IsGrouped (f mob s))
      → IsKept IsGrouped ((get_npc self_id connected send npc_id >>= f) s)
  unfolding ◌>>=◌ get_npc Post
  then_npc npc_id f s grouped h = go (s.npcs npc_id) refl
    where
      go :
          (o : Option Npc)
          → s.npcs npc_id ≡ o
          → IsKept IsGrouped (continue (ok_or o (build warning "NPC doesn't exist")) f s)
      go none same = grouped
      go (some mob) same = h mob same

  pub grouped_in-true :
      (o : Option ℕ) (group_id : ℕ) (e : FfError) (u : Unit {0})
      → guard (elim o [ none ↦ false | some other_id ↦ other_id == group_id ]) e ≡ ok u
      → o ≡ some group_id
  grouped_in-true none group_id e u test = absurd (cc test)
  grouped_in-true (some other_id) group_id e u test = ground (arith, test)

  pub is_lone : (o : Option ℕ) (e : FfError) (u : Unit {0}) → guard (is_none o) e ≡ ok u → o ≡ none
  is_lone none e u test = refl
  is_lone (some a) e u test = absurd (cc test)
