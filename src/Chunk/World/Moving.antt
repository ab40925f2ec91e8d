-- ===== src/Chunk/World/Moving.antt =====
-- src/chunk.rs: a whole move, and the mark for clean-up that it may leave.
use rusty_fusion.Chunk.{Chunk, ChunkCoords, EntityMap, RegistryEntry, chunk_at, in_bounds}
use rusty_fusion.Chunk.Moves.{
  cleanup_of, get_player_count, has_instance, mark_instance, moved, remove_from_chunk, same_place,
  should_cleanup_instance,
}
use rusty_fusion.Chunk.World.{IsRefined, World, chunk_of, depart, place_of, place_of-depart}
use rusty_fusion.Chunk.World.Update.{
  IsPut, IsRefined-same, insertion-IsRefined, place-exists, place_at, relocate, removal-IsRefined,
  sees,
}
use rusty_fusion.Entity.Group.{contains}
use rusty_fusion.Entity.Group.Bounds.{same_id_refl}
use rusty_fusion.Entity.Id.{EntityId}
use rusty_fusion.Error.{Outcome, ok}
use rusty_fusion.Prelude.{
  Bool, Bool-cases, List, Option, [], arith, false, if◌then◌else◌, inl, inr, is_some, none, not,
  refl, some, sym, true, ℕ, ◌&&◌, ◌<◌, ◌==◌, ◌^◌, ◌∙◌, ◌∷◌, ◌≡◌,
}

module _ (range : ℕ) (bound : range < 2 ^ 30) where
  cleanup_of-ok :
      (num : Option ℕ) (o : Option (ℕ → ℕ → Chunk))
      → is_some o ≡ true
      → (cleanup : Bool) × (cleanup_of num o ≡ ok cleanup)
  unfolding cleanup_of
  cleanup_of-ok none o e = (false, refl)
  cleanup_of-ok (some num) none e = absurd (cc e)
  cleanup_of-ok (some num) (some chunks) e = (get_player_count chunks == 0, refl)

  -- Marking an instance for clean-up moves nothing.
  mark_instance-ok :
      (m : EntityMap) (from to : Option ChunkCoords)
      → ((coords : ChunkCoords) → from ≡ some coords → is_some (chunk_at m coords) ≡ true)
      → (m' : EntityMap) × (mark_instance from to m ≡ ok m')
        × (m'.registry ≡ m.registry)
        × (m'.chunk_maps ≡ m.chunk_maps)
  unfolding mark_instance should_cleanup_instance chunk_at
  mark_instance-ok m none to there = (m, refl, refl, refl)
  mark_instance-ok m (some coords) (some to) there = (m, refl, refl, refl)
  mark_instance-ok m (some coords) none there =
      let (cleanup, is) =
        cleanup_of-ok coords.i.instance_num (m.chunk_maps coords.i) (exists (there coords refl)) in
      (mark cleanup, rw is refl, (marked cleanup).0, (marked cleanup).1)
    where
      mark : Bool → EntityMap
      mark cleanup =
          if cleanup && not (has_instance coords.i m.instances_to_cleanup)
          then record m { instances_to_cleanup = coords.i ∷ m.instances_to_cleanup }
          else m

      marked :
          (cleanup : Bool)
          → ((mark cleanup).registry ≡ m.registry) × ((mark cleanup).chunk_maps ≡ m.chunk_maps)
      marked cleanup =
          elim (Bool-cases (cleanup && not (has_instance coords.i m.instances_to_cleanup))) [
            | inl yes_mark ↦ (rw yes_mark refl, rw yes_mark refl)
            | inr no_mark ↦ (rw no_mark refl, rw no_mark refl)
          ]

      exists : is_some (chunk_at m coords) ≡ true → is_some (m.chunk_maps coords.i) ≡ true
      exists e = ground (arith, e)

  -- A move, by whatever places the entity.
  pub moved-IsRefined :
      (placing : EntityId → ChunkCoords → EntityMap → Outcome (List EntityId × EntityMap))
      (m : EntityMap) (w : World) (id : EntityId) (entry : RegistryEntry) (to : Option ChunkCoords)
      → IsRefined range m w
      → m.registry id ≡ some entry
      → ((m1 : EntityMap) (coords : ChunkCoords)
          → IsRefined range m1 (depart id w)
          → m1.registry id ≡ some (record entry { chunk = none })
          → place_of (depart id w) id ≡ none
          → ((c : ChunkCoords) → is_some (chunk_at m1 c) ≡ is_some (chunk_at m c))
          → to ≡ some coords
          → in_bounds coords ≡ true
          → IsPut range placing m1 (depart id w) id coords)
      → (around_from around_to : List EntityId) × (m' : EntityMap) × (moved placing range id to m
          ≡ ok (around_from, around_to, m'))
        × IsRefined range m' (relocate id to w)
        × ((j : EntityId)
            → (contains j around_from
                ≡ (not (same_place entry.chunk to) && sees range id entry.chunk w j))
              × (contains j around_to ≡ (not (same_place entry.chunk to) && sees range id to w j)))
  unfolding moved remove_from_chunk contains
  moved-IsRefined placing m w id entry to refined known puts =
      elim (Bool-cases (same_place entry.chunk to)) [
        | inl same ↦ (
          [],
          [],
          m,
          ground (arith, known, same),
          ground (arith, known, same, refined.placed id, refined),
          λ j. (rw same refl, rw same refl),
        )
        | inr differs ↦
            let (from_ids, m1, computed1, refined1, around1, known1, keeps1) =
              removal-IsRefined range bound m w id entry entry.chunk refined known refl in
            let lone : place_of (depart id w) id ≡ none =
              ground (arith, place_of-depart id w id, same_id_refl id) in
            let (to_ids, m2, computed2, refined2, around2, stays2) =
              insertion-IsRefined range bound placing m1 (depart id w) id to refined1
                (λ coords. puts m1 coords refined1 known1 lone keeps1) in
            let (m3, computed3, registry3, maps3) = mark_instance-ok m2 entry.chunk to λ coords e.
              stays2 coords (
                keeps1 coords
                ∙ place-exists range bound m w id coords refined
                    (sym (refined.placed id) ∙ at_entry ∙ e)) in
            (
              from_ids,
              to_ids,
              m3,
              ground (arith, known, differs, computed1, computed2, computed3),
              was_elsewhere differs (IsRefined-same range m2 m3 _ registry3 maps3 refined2),
              λ j. (rw differs (around1 j), rw differs (around2 j ∙ seen_to to j)),
            )
      ]
    where
      at_entry : chunk_of m id ≡ entry.chunk
      at_entry = ground (arith, known)

      was_elsewhere :
          {m3 : EntityMap}
          → same_place entry.chunk to ≡ false
          → IsRefined range m3 (place_at id to (depart id w))
          → IsRefined range m3 (relocate id to w)
      was_elsewhere differs r = rw (sym (refined.placed id) ∙ at_entry) (rw differs r)

      -- The place of another entity is the same after the departure.
      seen_to :
          (to : Option ChunkCoords) (j : EntityId)
          → sees range id to (depart id w) j ≡ sees range id to w j
      seen_to none j = refl
      seen_to (some coords) j = ground (arith, place_of-depart id w j)
