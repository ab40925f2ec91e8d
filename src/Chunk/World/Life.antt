-- ===== src/Chunk/World/Life.antt =====
-- src/chunk.rs: the world of a map whose entities come, move and go, and whose main instances are made on
-- demand.
use rusty_fusion.Chunk.{
  ChunkCoords, EntityMap, RegistryEntry, TickMode, Tracked, chunk_at, empty_chunk, get_id, new_map,
  put_entry,
}
use rusty_fusion.Chunk.Instances.{with_instance}
use rusty_fusion.Chunk.Moves.{ids_at}
use rusty_fusion.Chunk.Registry.{mark_for_cleanup, set_tick, track, untrack}
use rusty_fusion.Chunk.World.{AllOnce, IsRefined, World, place_of, players_near}
use rusty_fusion.Chunk.World.Update.{IsRefined-same, place-exists}
use rusty_fusion.Entity.Group.{contains}
use rusty_fusion.Entity.Group.Bounds.{same_id_refl}
use rusty_fusion.Entity.Id.{EntityId, InstanceId, same_id_iff, same_instance, same_instance_iff}
use rusty_fusion.Error.{ok}
use rusty_fusion.Prelude.{
  Bool-cases, Option-cases, [], arith, false, inl, inr, none, refl, some, true, ℕ, ◌<◌, ◌^◌, ◌∷◌,
  ◌≡◌,
}

pub new_map-IsRefined : (range : ℕ) → IsRefined range new_map []
unfolding AllOnce place_of ids_at chunk_at contains
new_map-IsRefined range = record {
  once = tt;
  placed = λ id. refl;
  tracks = λ id c. ground arith;
  loads = λ c chunk e. absurd (ground (arith, e));
}

-- An entity that is registered anew is nowhere.
pub track-IsRefined :
    (range : ℕ) (m : EntityMap) (w : World) (entity : Tracked) (tick_mode : TickMode)
    → IsRefined range m w
    → m.registry (get_id entity) ≡ none
    → (m' : EntityMap) × (track entity tick_mode m ≡ ok (get_id entity, m'))
      × IsRefined range m' w
      × (m'.registry (get_id entity)
          ≡ some (record { entity = entity; chunk = none; tick_mode = tick_mode }))
unfolding track put_entry ids_at chunk_at
track-IsRefined range m w entity tick_mode refined free =
    let entry : RegistryEntry = record { entity = entity; chunk = none; tick_mode = tick_mode } in
    (
      put_entry (get_id entity) (some entry) m,
      rw free refl,
      record {
        once = refined.once;
        placed = λ id. ground (arith, refined.placed id, free, same_id_iff id (get_id entity));
        tracks = refined.tracks;
        loads = refined.loads;
      },
      ground (arith, same_id_refl (get_id entity)),
    )

-- An entity that is nowhere can be dropped.
pub untrack-IsRefined :
    (range : ℕ) (m : EntityMap) (w : World) (id : EntityId) (entry : RegistryEntry)
    → IsRefined range m w
    → m.registry id ≡ some entry
    → entry.chunk ≡ none
    → (m' : EntityMap) × (untrack id m ≡ ok (entry.entity, m')) × IsRefined range m' w
unfolding untrack put_entry ids_at chunk_at
untrack-IsRefined range m w id entry refined known nowhere = (
  put_entry id none m,
  rw known refl,
  record {
    once = refined.once;
    placed = λ j. ground (arith, refined.placed j, known, nowhere, same_id_iff j id);
    tracks = refined.tracks;
    loads = refined.loads;
  },
)

-- Nobody is near a chunk of an instance that nobody is in.
nobody_near :
    (range : ℕ) (c : ChunkCoords) (w : World)
    → AllOnce w
    → ((id : EntityId) (d : ChunkCoords) → place_of w id ≡ some d → same_instance c.i d.i ≡ false)
    → players_near range c w ≡ 0
unfolding players_near place_of AllOnce
nobody_near range c [] once apart_from = refl
nobody_near range c ((j, d) ∷ w) (free, once) apart_from = ground (
  arith,
  apart_from j d,
  same_id_refl j,
  nobody_near range c w once
      (λ id e at. apart_from id e (ground (arith, at, free, same_id_iff id j))),
)

-- A new main instance is empty.
pub made-IsRefined :
    (range : ℕ) (bound : range < 2 ^ 30) (m : EntityMap) (w : World) (i : InstanceId)
    → IsRefined range m w
    → m.chunk_maps i ≡ none
    → IsRefined range (with_instance i (some (λ x y. empty_chunk)) m) w
unfolding ids_at chunk_at contains
made-IsRefined range bound m w i refined absent = record {
  once = refined.once;
  placed = refined.placed;
  tracks = λ id c. ground (arith, refined.tracks id c, absent, same_instance_iff c.i i);
  loads = λ c chunk e. elim (Bool-cases (same_instance c.i i)) [
    | inl at ↦
        ground (arith, e, at, nobody_near range c w refined.once λ id d is. vacant c id d at is)
    | inr other ↦ ground (arith, e, other, refined.loads c chunk)
  ];
}
  where
    vacant :
        (c : ChunkCoords) (id : EntityId) (d : ChunkCoords)
        → same_instance c.i i ≡ true
        → place_of w id ≡ some d
        → same_instance c.i d.i ≡ false
    vacant c id d at is = elim (Bool-cases (same_instance c.i d.i)) [
      | inl there ↦ absurd (
          ground (
            arith,
            place-exists range bound m w id d refined is,
            there,
            at,
            absent,
            same_instance_iff c.i i,
            same_instance_iff c.i d.i,
          ))
      | inr other ↦ other
    ]

pub set_tick-IsRefined :
    (range : ℕ) (m m' : EntityMap) (w : World) (id : EntityId) (tick_mode : TickMode)
    → IsRefined range m w
    → set_tick id tick_mode m ≡ ok m'
    → IsRefined range m' w
unfolding set_tick put_entry ids_at chunk_at
set_tick-IsRefined range m m' w id tick_mode refined e = elim (Option-cases (m.registry id)) [
  | inl free ↦ absurd (cc (rw (set_tick, free) at e))
  | inr known ↦
      let (entry, is) = known in
      let same : m' ≡ put_entry id (some (record entry { tick_mode = tick_mode })) m =
        cc (rw (set_tick, is) at e) in
      rw same (ticking entry is)
]
  where
    ticking :
        (entry : RegistryEntry)
        → m.registry id ≡ some entry
        → IsRefined range (put_entry id (some (record entry { tick_mode = tick_mode })) m) w
    ticking entry is = record {
      once = refined.once;
      placed = λ j. ground (arith, refined.placed j, is, same_id_iff j id);
      tracks = refined.tracks;
      loads = refined.loads;
    }

pub mark_for_cleanup-IsRefined :
    (range : ℕ) (m : EntityMap) (w : World) (id : EntityId)
    → IsRefined range m w
    → IsRefined range (mark_for_cleanup id m) w
unfolding mark_for_cleanup
mark_for_cleanup-IsRefined range m w id refined =
    elim (Bool-cases (contains id m.entities_to_cleanup)) [
      | inl yes_marked ↦ rw (mark_for_cleanup, yes_marked) refined
      | inr not_marked ↦
          rw (mark_for_cleanup, not_marked) (IsRefined-same range m _ w refl refl refined)
    ]
