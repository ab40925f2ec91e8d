-- ===== src/Chunk/World/Entering.antt =====
-- src/chunk.rs: `update` as a whole, where the instance of the new chunk exists or is a main instance.
use rusty_fusion.Chunk.{
  Chunk, ChunkCoords, EntityMap, RegistryEntry, chunk_at, empty_chunk, in_bounds,
}
use rusty_fusion.Chunk.Instances.{fill_instance, init_instance, insert_into_chunk, with_instance}
use rusty_fusion.Chunk.Moves.{insert_existing}
use rusty_fusion.Chunk.World.{IsRefined, World, place_of}
use rusty_fusion.Chunk.World.Inserts.{insert_existing-IsRefined}
use rusty_fusion.Chunk.World.Life.{made-IsRefined}
use rusty_fusion.Chunk.World.Update.{IsPut}
use rusty_fusion.Entity.Id.{EntityId, InstanceId, same_instance_iff}
use rusty_fusion.Prelude.{
  Option, arith, inl, inr, is_some, none, refl, some, true, ℕ, ◌<◌, ◌^◌, ◌∙◌, ◌≡◌, ◌⊎◌,
}

pub maps_kept :
    (m m1 : EntityMap) (c : ChunkCoords)
    → in_bounds c ≡ true
    → is_some (chunk_at m1 c) ≡ is_some (chunk_at m c)
    → is_some (m1.chunk_maps c.i) ≡ is_some (m.chunk_maps c.i)
unfolding chunk_at
maps_kept m m1 c inside same = go (m1.chunk_maps c.i) refl (m.chunk_maps c.i) refl
  where
    go :
        (o : Option (ℕ → ℕ → Chunk))
        → m1.chunk_maps c.i ≡ o
        → (p : Option (ℕ → ℕ → Chunk)) → m.chunk_maps c.i ≡ p
        → is_some o ≡ is_some p
    go none e none e' = refl
    go none e (some q) e' = ground (arith, same, inside, e, e')
    go (some p) e none e' = ground (arith, same, inside, e, e')
    go (some p) e (some q) e' = refl

made_keeps :
    (m : EntityMap) (i : InstanceId) (c : ChunkCoords)
    → m.chunk_maps i ≡ none
    → is_some (chunk_at m c) ≡ true
    → is_some (chunk_at (with_instance i (some (λ x y. empty_chunk)) m) c) ≡ true
unfolding chunk_at
made_keeps m i c absent there = ground (arith, absent, there, same_instance_iff c.i i)

module _ (range : ℕ) (bound : range < 2 ^ 30) where
  existing-IsPut :
      (m : EntityMap) (w : World) (id : EntityId) (entry : RegistryEntry) (coords : ChunkCoords)
      → IsRefined range m w
      → m.registry id ≡ some entry
      → place_of w id ≡ none
      → in_bounds coords ≡ true
      → is_some (m.chunk_maps coords.i) ≡ true
      → IsPut range (insert_existing range) m w id coords
  unfolding chunk_at
  existing-IsPut m w id entry coords refined known lone inside exists =
      go (m.chunk_maps coords.i) refl exists
    where
      go :
          (o : Option (ℕ → ℕ → Chunk))
          → m.chunk_maps coords.i ≡ o
          → is_some o ≡ true
          → IsPut range (insert_existing range) m w id coords
      go none e h = absurd (cc h)
      go (some chunks) e h =
          let here : chunk_at m coords ≡ some (chunks coords.x coords.y) =
            ground (arith, e, inside) in
          let (affected, m', computed, refined', around, keeps) =
            insert_existing-IsRefined range bound m w refined id coords (chunks coords.x coords.y)
              entry inside here known lone in
          (affected, m', computed, refined', around, λ c h'. keeps c ∙ h')

  pub into_chunk-IsPut :
      (m : EntityMap) (w : World) (id : EntityId) (entry : RegistryEntry) (coords : ChunkCoords)
      → IsRefined range m w
      → m.registry id ≡ some entry
      → place_of w id ≡ none
      → in_bounds coords ≡ true
      → (is_some (m.chunk_maps coords.i) ≡ true) ⊎ (coords.i.instance_num ≡ none)
      → IsPut range (insert_into_chunk range) m w id coords
  unfolding insert_into_chunk init_instance fill_instance
  into_chunk-IsPut m w id entry coords refined known lone inside reachable =
      go (m.chunk_maps coords.i) refl
    where
      made : EntityMap
      made = with_instance coords.i (some (λ x y. empty_chunk)) m

      made_there : is_some (made.chunk_maps coords.i) ≡ true
      made_there = ground (arith, same_instance_iff coords.i coords.i)

      main :
          m.chunk_maps coords.i ≡ none
          → (is_some (m.chunk_maps coords.i) ≡ true) ⊎ (coords.i.instance_num ≡ none)
          → coords.i.instance_num ≡ none
      main absent (inl exists) = absurd (cc (absent, exists))
      main absent (inr is_main) = is_main

      go :
          (o : Option (ℕ → ℕ → Chunk))
          → m.chunk_maps coords.i ≡ o
          → IsPut range (insert_into_chunk range) m w id coords
      go (some chunks) e =
          let (affected, m', computed, refined', around, stays) =
            existing-IsPut m w id entry coords refined known lone inside (rw e refl) in
          (affected, m', ground (arith, e, computed), refined', around, stays)
      go none e =
          let (affected, m', computed, refined', around, stays) =
            existing-IsPut made w id entry coords
              (made-IsRefined range bound m w coords.i refined e) known lone inside made_there in
          (
            affected,
            m',
            ground (arith, e, main e reachable, computed),
            refined',
            around,
            λ c h. stays c (made_keeps m coords.i c e h),
          )
