-- ===== src/Chunk/World/Inserts.antt =====
-- src/chunk.rs, `insert_into_chunk`: the world with an entity at a new place.
use rusty_fusion.Chunk.{
  Chunk, ChunkCoords, EntityMap, RegistryEntry, chunk_at, get_coords_around, in_bounds,
}
use rusty_fusion.Chunk.Grid.{occurs-get_coords_around, same_coords_iff}
use rusty_fusion.Chunk.Moves.{ids_at, insert_existing, set_chunk_of, touch_all}
use rusty_fusion.Chunk.World.{
  AllOnce, IsRefined, World, chunk_of, chunk_of-registry, is_at, place_of, players_near,
}
use rusty_fusion.Chunk.World.Loads.{
  absent-touch_all, exists-touch_all, raised-touch_all, registry-touch_all,
}
use rusty_fusion.Chunk.World.Sets.{contains-touch_all, ids_at-touch_all}
use rusty_fusion.Chunk.World.Written.{
  bounds-written, chunk_at-written, chunk_of-written, contains-written, counted-written, is_seen,
  passed-seen, rewritten,
}
use rusty_fusion.Entity.Group.{contains, without}
use rusty_fusion.Entity.Group.Bounds.{contains-without}
use rusty_fusion.Entity.Id.{EntityId, same_id, same_id_iff}
use rusty_fusion.Error.{ok}
use rusty_fusion.Item.Stacks.{count}
use rusty_fusion.Prelude.{
  List, Option, arith, is_some, none, not, refl, some, true, ℕ, ◌%◌, ◌&&◌, ◌<◌, ◌^◌, ◌∙◌, ◌∷◌, ◌≡◌,
}

module _ (range : ℕ) (bound : range < 2 ^ 30) (m : EntityMap) (w : World)
    (refined : IsRefined range m w) where
  module _ (id : EntityId) (coords : ChunkCoords) (chunk : Chunk) (entry : RegistryEntry)
      (inside : in_bounds coords ≡ true) (here : chunk_at m coords ≡ some chunk)
      (known : m.registry id ≡ some entry) where
    inserted-tracks :
        place_of w id ≡ none
        → (j : EntityId) (c : ChunkCoords)
        → contains j (
            ids_at
              (rewritten range bound m w refined id coords chunk entry inside here known
                (id ∷ chunk.tracked)
                (some coords))
              c)
          ≡ is_at (place_of ((id, coords) ∷ w) j) c
    unfolding place_of contains ids_at
    inserted-tracks lone j c = ground (
      arith,
      contains-written range bound m w refined id coords chunk entry inside here known
          (id ∷ chunk.tracked) (some coords) j c,
      refined.tracks j c,
      refined.tracks j coords,
      here,
      lone,
      same_id_iff j id,
      same_coords_iff c coords,
      same_coords_iff coords c,
    )

    inserted-loads :
        (c : ChunkCoords) (u : Chunk)
        → chunk_at
            (touch_all true id (get_coords_around range coords) (
              rewritten range bound m w refined id coords chunk entry inside here known
                (id ∷ chunk.tracked)
                (some coords))).1
            c
          ≡ some u
        → u.load_count ≡ players_near range c ((id, coords) ∷ w) % 2 ^ 64
    unfolding players_near
    inserted-loads c u e =
        go
          (chunk_at
            (rewritten range bound m w refined id coords chunk entry inside here known
              (id ∷ chunk.tracked) (some coords))
            c)
          refl
      where
        go :
            (o : Option Chunk)
            → chunk_at
                (rewritten range bound m w refined id coords chunk entry inside here known
                  (id ∷ chunk.tracked)
                  (some coords))
                c
              ≡ o
            → u.load_count ≡ players_near range c ((id, coords) ∷ w) % 2 ^ 64
        go none absent = absurd (
            ground (
              arith,
              e,
              absent-touch_all true id (get_coords_around range coords)
                  (rewritten range bound m w refined id coords chunk entry inside here known
                    (id ∷ chunk.tracked) (some coords))
                  c absent,
            ))
        go (some v) is =
            let (u', at, kept, count) =
              raised-touch_all id (get_coords_around range coords)
                (rewritten range bound m w refined id coords chunk entry inside here known
                  (id ∷ chunk.tracked) (some coords))
                c v (players_near range c w) is
                (counted-written range bound m w refined id coords chunk entry inside here known
                  (id ∷ chunk.tracked) (some coords) c v is) in
            let same : u' ≡ u = ground (arith, at, e) in
            let around =
              occurs-get_coords_around c coords range
                (bounds-written range bound m w refined id coords chunk entry inside here known
                  (id ∷ chunk.tracked) (some coords) c v is)
                inside bound in
            ground (arith, count, same, around)

    pub insert_existing-IsRefined :
        place_of w id ≡ none
        → (affected : List EntityId) × (m' : EntityMap) × (insert_existing range id coords m
            ≡ ok (affected, m'))
          × IsRefined range m' ((id, coords) ∷ w)
          × ((j : EntityId)
              → contains j affected ≡ (not (same_id j id) && is_seen range coords (place_of w j)))
          × ((c : ChunkCoords) → is_some (chunk_at m' c) ≡ is_some (chunk_at m c))
    unfolding insert_existing set_chunk_of place_of AllOnce
    insert_existing-IsRefined lone =
        let ids = id ∷ chunk.tracked in
        let result = touch_all true id (get_coords_around range coords) (
          rewritten range bound m w refined id coords chunk entry inside here known ids
            (some coords)) in
        (
          without id result.0,
          result.1,
          computed,
          record {
            once = (lone, refined.once);
            placed = λ j. now_placed j;
            tracks = λ j c.
                rw
                  (ids_at-touch_all true id (get_coords_around range coords)
                    (rewritten range bound m w refined id coords chunk entry inside here known ids
                      (some coords))
                    c)
                  (inserted-tracks lone j c);
            loads = inserted-loads;
          },
          found_around,
          λ c.
              exists-touch_all true id (get_coords_around range coords)
                (rewritten range bound m w refined id coords chunk entry inside here known ids
                  (some coords))
                c
              ∙ ground (
                arith,
                chunk_at-written range bound m w refined id coords chunk entry inside here known ids
                    (some coords) c,
              ),
        )
      where
        computed :
            insert_existing range id coords m
            ≡ ok (
              without id
                  (touch_all true id (get_coords_around range coords) (
                    rewritten range bound m w refined id coords chunk entry inside here known
                      (id ∷ chunk.tracked)
                      (some coords))).0,
              (touch_all true id (get_coords_around range coords) (
                  rewritten range bound m w refined id coords chunk entry inside here known
                    (id ∷ chunk.tracked)
                    (some coords))).1,
            )
        computed = ground (arith, here, known, lone, refined.tracks id coords)

        now_placed :
            (j : EntityId)
            → chunk_of
                (touch_all true id (get_coords_around range coords) (
                  rewritten range bound m w refined id coords chunk entry inside here known
                    (id ∷ chunk.tracked)
                    (some coords))).1
                j
              ≡ place_of ((id, coords) ∷ w) j
        now_placed j =
            chunk_of-registry
              (rewritten range bound m w refined id coords chunk entry inside here known
                (id ∷ chunk.tracked) (some coords))
              (touch_all true id (get_coords_around range coords) (
                rewritten range bound m w refined id coords chunk entry inside here known
                  (id ∷ chunk.tracked) (some coords))).1
              (registry-touch_all true id (get_coords_around range coords) (
                rewritten range bound m w refined id coords chunk entry inside here known
                  (id ∷ chunk.tracked) (some coords)))
              j
            ∙ ground (
              arith,
              chunk_of-written range bound m w refined id coords chunk entry inside here known
                  (id ∷ chunk.tracked) (some coords) j,
              refined.placed j,
            )

        found_around :
            (j : EntityId)
            → contains j (
                without id
                  (touch_all true id (get_coords_around range coords) (
                    rewritten range bound m w refined id coords chunk entry inside here known
                      (id ∷ chunk.tracked)
                      (some coords))).0)
              ≡ (not (same_id j id) && is_seen range coords (place_of w j))
        found_around j = ground (
          arith,
          contains-without j id
              (touch_all true id (get_coords_around range coords) (
                rewritten range bound m w refined id coords chunk entry inside here known
                  (id ∷ chunk.tracked) (some coords))).0,
          contains-touch_all true id j (place_of ((id, coords) ∷ w) j)
              (get_coords_around range coords)
              (rewritten range bound m w refined id coords chunk entry inside here known
                (id ∷ chunk.tracked) (some coords))
              (inserted-tracks lone j),
          passed-seen range bound m w refined j coords inside,
        )
