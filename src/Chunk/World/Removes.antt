-- ===== src/Chunk/World/Removes.antt =====
-- src/chunk.rs, `remove_from_chunk`: the world without an entity.
use rusty_fusion.Chunk.{
  Chunk, ChunkCoords, EntityMap, RegistryEntry, chunk_at, get_coords_around, in_bounds, put_chunk,
  put_entry,
}
use rusty_fusion.Chunk.Grid.{occurs-get_coords_around, same_coords_iff}
use rusty_fusion.Chunk.Moves.{ids_at, removed_from, set_chunk_of, touch_all}
use rusty_fusion.Chunk.World.{
  IsRefined, World, chunk_of, chunk_of-registry, depart, depart-AllOnce, is_at, place_of,
  place_of-depart, players_near, players_near-depart,
}
use rusty_fusion.Chunk.World.Loads.{
  absent-touch_all, changes_of, exists-touch_all, lowered-touch_all, registry-touch_all,
}
use rusty_fusion.Chunk.World.Sets.{contains-touch_all, ids_at-touch_all}
use rusty_fusion.Chunk.World.Written.{
  bounds-written, chunk_at-written, chunk_of-written, contains-written, counted-written, is_seen,
  passed-seen, rewritten,
}
use rusty_fusion.Entity.Group.{contains, without}
use rusty_fusion.Entity.Group.Bounds.{contains-without, same_id_refl}
use rusty_fusion.Entity.Id.{EntityId, same_id, same_id_iff}
use rusty_fusion.Error.{ok}
use rusty_fusion.Item.Stacks.{count}
use rusty_fusion.Prelude.{
  List, Option, ap, arith, false, is_some, none, not, refl, some, true, ℕ, ◌%◌, ◌&&◌, ◌+◌, ◌<◌, ◌^◌,
  ◌∙◌, ◌≡◌,
}

module _ (range : ℕ) (bound : range < 2 ^ 30) (m : EntityMap) (w : World)
    (refined : IsRefined range m w) where
  module _ (id : EntityId) (coords : ChunkCoords) (chunk : Chunk) (entry : RegistryEntry)
      (inside : in_bounds coords ≡ true) (here : chunk_at m coords ≡ some chunk)
      (known : m.registry id ≡ some entry) where
    removed-tracks :
        place_of w id ≡ some coords
        → (j : EntityId) (c : ChunkCoords)
        → contains j (
            ids_at
              (rewritten range bound m w refined id coords chunk entry inside here known
                (without id chunk.tracked)
                none)
              c)
          ≡ is_at (place_of (depart id w) j) c
    unfolding ids_at
    removed-tracks was j c = ground (
      arith,
      contains-written range bound m w refined id coords chunk entry inside here known
          (without id chunk.tracked) none j c,
      contains-without j id chunk.tracked,
      place_of-depart id w j,
      refined.tracks j c,
      refined.tracks j coords,
      here,
      was,
      same_id_iff j id,
      same_coords_iff c coords,
      same_coords_iff coords c,
    )

    removed-loads :
        place_of w id ≡ some coords
        → (c : ChunkCoords) (u : Chunk)
        → chunk_at
            (touch_all false id (get_coords_around range coords) (
              rewritten range bound m w refined id coords chunk entry inside here known
                (without id chunk.tracked)
                none)).1
            c
          ≡ some u
        → u.load_count ≡ players_near range c (depart id w) % 2 ^ 64
    removed-loads was c u e =
        go
          (chunk_at
            (rewritten range bound m w refined id coords chunk entry inside here known
              (without id chunk.tracked) none)
            c)
          refl
      where
        go :
            (o : Option Chunk)
            → chunk_at
                (rewritten range bound m w refined id coords chunk entry inside here known
                  (without id chunk.tracked)
                  none)
                c
              ≡ o
            → u.load_count ≡ players_near range c (depart id w) % 2 ^ 64
        go none absent = absurd (
            ground (
              arith,
              e,
              absent-touch_all false id (get_coords_around range coords)
                  (rewritten range bound m w refined id coords chunk entry inside here known
                    (without id chunk.tracked) none)
                  c absent,
            ))
        go (some v) is =
            let around =
              occurs-get_coords_around c coords range
                (bounds-written range bound m w refined id coords chunk entry inside here known
                  (without id chunk.tracked) none c v is)
                inside bound in
            let counted =
              counted-written range bound m w refined id coords chunk entry inside here known
                (without id chunk.tracked) none c v is in
            let split = players_near-depart range c id w coords refined.once was in
            let before : v.load_count
                ≡ (players_near range c (depart id w)
                    + changes_of id c (get_coords_around range coords))
                  % 2 ^ 64 =
              ground (arith, counted, around, split) in
            let (u', at, kept, count) =
              lowered-touch_all id (get_coords_around range coords)
                (rewritten range bound m w refined id coords chunk entry inside here known
                  (without id chunk.tracked) none)
                c v (players_near range c (depart id w)) is before in
            let same : u' ≡ u = ground (arith, at, e) in ground (arith, count, same)

    pub removed_from-IsRefined :
        place_of w id ≡ some coords
        → (affected : List EntityId) × (m' : EntityMap) × (removed_from range id entry
              (some coords)
              m
            ≡ ok (affected, m'))
          × IsRefined range m' (depart id w)
          × ((j : EntityId)
              → contains j affected ≡ (not (same_id j id) && is_seen range coords (place_of w j)))
          × (m'.registry id ≡ some (record entry { chunk = none }))
          × ((c : ChunkCoords) → is_some (chunk_at m' c) ≡ is_some (chunk_at m c))
    unfolding removed_from set_chunk_of put_entry put_chunk
    removed_from-IsRefined was =
        let ids = without id chunk.tracked in
        let result =
          touch_all false id (get_coords_around range coords)
            (rewritten range bound m w refined id coords chunk entry inside here known ids none) in
        (
          result.0,
          result.1,
          computed,
          record {
            once = depart-AllOnce id w refined.once;
            placed = λ j. now_placed j;
            tracks = λ j c.
                rw
                  (ids_at-touch_all false id (get_coords_around range coords)
                    (rewritten range bound m w refined id coords chunk entry inside here known ids
                      none)
                    c)
                  (removed-tracks was j c);
            loads = removed-loads was;
          },
          found_around,
          ap (λ (r : EntityId → Option RegistryEntry). r id)
                (registry-touch_all false id (get_coords_around range coords) (
                  rewritten range bound m w refined id coords chunk entry inside here known ids
                    none))
              ∙ ground (arith, same_id_refl id),
          λ c.
              exists-touch_all false id (get_coords_around range coords)
                (rewritten range bound m w refined id coords chunk entry inside here known ids none)
                c
              ∙ ground (
                arith,
                chunk_at-written range bound m w refined id coords chunk entry inside here known ids
                    none c,
              ),
        )
      where
        computed :
            removed_from range id entry (some coords) m
            ≡ ok (
                touch_all false id (get_coords_around range coords) (
                  rewritten range bound m w refined id coords chunk entry inside here known
                    (without id chunk.tracked)
                    none))
        computed =
            ground (arith, here, was, refined.tracks id coords, same_coords_iff coords coords)

        now_placed :
            (j : EntityId)
            → chunk_of
                (touch_all false id (get_coords_around range coords) (
                  rewritten range bound m w refined id coords chunk entry inside here known
                    (without id chunk.tracked)
                    none)).1
                j
              ≡ place_of (depart id w) j
        now_placed j =
            chunk_of-registry
              (rewritten range bound m w refined id coords chunk entry inside here known
                (without id chunk.tracked) none)
              (touch_all false id (get_coords_around range coords) (
                rewritten range bound m w refined id coords chunk entry inside here known
                  (without id chunk.tracked) none)).1
              (registry-touch_all false id (get_coords_around range coords) (
                rewritten range bound m w refined id coords chunk entry inside here known
                  (without id chunk.tracked) none))
              j
            ∙ ground (
              arith,
              chunk_of-written range bound m w refined id coords chunk entry inside here known
                  (without id chunk.tracked) none j,
              refined.placed j,
              place_of-depart id w j,
            )

        found_around :
            (j : EntityId)
            → contains j
                (touch_all false id (get_coords_around range coords) (
                  rewritten range bound m w refined id coords chunk entry inside here known
                    (without id chunk.tracked)
                    none)).0
              ≡ (not (same_id j id) && is_seen range coords (place_of w j))
        found_around j = ground (
          arith,
          contains-touch_all false id j (place_of (depart id w) j) (get_coords_around range coords)
              (rewritten range bound m w refined id coords chunk entry inside here known
                (without id chunk.tracked) none)
              (removed-tracks was j),
          place_of-depart id w j,
          passed-seen range bound m w refined j coords inside,
        )
