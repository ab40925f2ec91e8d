-- ===== src/Chunk/World/Collecting.antt =====
-- src/chunk.rs: the clean-up of instances and entities, on the list of places.
use rusty_fusion.Chunk.{Chunk, EntityMap, Tracked, chunk_at, nchunks, put_entry}
use rusty_fusion.Chunk.Cleanup.{
  cleanup_all, cleanup_instance, garbage_collect_entities, garbage_collect_instances, ids_in_rows,
  untrack_all,
}
use rusty_fusion.Chunk.Instances.{with_instance}
use rusty_fusion.Chunk.Moves.{ids_at}
use rusty_fusion.Chunk.Registry.{untrack}
use rusty_fusion.Chunk.World.{IsRefined, World, chunk_of, place_of}
use rusty_fusion.Chunk.World.Vacating.{
  contains-ids, is_at-vacate, place_of-vacate, players_near-vacate, vacate, vacate-AllOnce,
}
use rusty_fusion.Entity.Group.{contains}
use rusty_fusion.Entity.Id.{EntityId, InstanceId, same_id_iff, same_instance}
use rusty_fusion.Error.{Outcome, ok, unwrap}
use rusty_fusion.Error.Results.{>>=-ok, unwrap-ok}
use rusty_fusion.Prelude.{
  Bool-cases, List, Option, [], ap, arith, if◌then◌else◌, inl, inr, none, refl, some, true, ℕ, ◌∙◌,
  ◌∷◌, ◌≡◌,
}

untrack-is :
    (id : EntityId) (m m' : EntityMap) (entity : Tracked)
    → untrack id m ≡ ok (entity, m')
    → m' ≡ put_entry id none m
unfolding untrack
untrack-is id m m' entity e =
    let (entry, _, e1) = >>=-ok (unwrap (m.registry id)) _ _ e in ground (arith, e1)

-- What the untracking of some entities leaves.
abbrev IsUntracked : List EntityId → EntityMap → EntityMap → Type 0
IsUntracked ids m m' =
    (m'.chunk_maps ≡ m.chunk_maps)
    × ((j : EntityId) → m'.registry j ≡ (if contains j ids then none else m.registry j))

IsUntracked-cons :
    (id : EntityId) (ids : List EntityId) (m m1 m2 : EntityMap)
    → m1 ≡ put_entry id none m
    → IsUntracked ids m1 m2
    → IsUntracked (id ∷ ids) m m2
unfolding contains put_entry
IsUntracked-cons id ids m m1 m2 one (chunks, registry) = (
  chunks ∙ ap (λ (n : EntityMap). n.chunk_maps) one,
  λ j. ground (arith, registry j, ap (λ (n : EntityMap). n.registry j) one, same_id_iff j id),
)

untrack_all-IsUntracked :
    (ids : List EntityId) (m m' : EntityMap) (entities : List Tracked)
    → untrack_all ids m ≡ ok (entities, m')
    → IsUntracked ids m m'
unfolding untrack_all contains
untrack_all-IsUntracked [] m m' entities e =
    let same : m' ≡ m = ground (arith, e) in rw same (refl, λ j. refl)
untrack_all-IsUntracked (id ∷ ids) m m' entities e =
    let ((entity, m1), first, e1) = >>=-ok (untrack id m) _ _ e in
    let ((others, m2), second, e2) = >>=-ok (untrack_all ids m1) _ _ e1 in
    let same : m2 ≡ m' = ground (arith, e2) in
    let rest : IsUntracked ids m1 m2 = untrack_all-IsUntracked ids m1 m2 others second in
    rw same at (IsUntracked-cons id ids m m1 m2 (untrack-is id m m1 entity first) rest)

vacated-IsRefined :
    (range : ℕ) (i : InstanceId) (chunks : ℕ → ℕ → Chunk) (m m1 : EntityMap) (w : World)
    → IsRefined range m w
    → m.chunk_maps i ≡ some chunks
    → IsUntracked (ids_in_rows chunks nchunks) m m1
    → IsRefined range (with_instance i none m1) (vacate i w)
unfolding ids_at chunk_at contains
vacated-IsRefined range i chunks m m1 w refined there (kept, registry) = record {
  once = vacate-AllOnce i w refined.once;
  placed = λ j. ground (
    arith,
    refined.placed j,
    registry j,
    contains-ids range i chunks m w refined there j,
    place_of-vacate i w j refined.once,
  );
  tracks = λ j c. ground (
    arith,
    refined.tracks j c,
    ap (λ (f : InstanceId → Option (ℕ → ℕ → Chunk)). f c.i) kept,
    place_of-vacate i w j refined.once,
    is_at-vacate i c (place_of w j),
  );
  loads = λ c chunk e. elim (Bool-cases (same_instance c.i i)) [
    | inl gone ↦ absurd (ground (arith, e, gone))
    | inr other ↦ ground (
      arith,
      e,
      other,
      ap (λ (f : InstanceId → Option (ℕ → ℕ → Chunk)). f c.i) kept,
      players_near-vacate range i c w other,
      refined.loads c chunk,
    )
  ];
}

map_same :
    (entities others : List Tracked) (m m' : EntityMap)
    → ◌≡◌ {A = Outcome (List Tracked × EntityMap)} (ok (entities, m)) (ok (others, m'))
    → m ≡ m'
map_same entities others m m' e = cc e

IsRefined-same :
    (range : ℕ) (w : World) (m m' : EntityMap) → m ≡ m' → IsRefined range m w → IsRefined range m' w
IsRefined-same range w m m' same refined = rw same at refined

cleanup_instance-IsRefined :
    (range : ℕ) (i : InstanceId) (m m' : EntityMap) (w : World) (entities : List Tracked)
    → IsRefined range m w
    → cleanup_instance i m ≡ ok (entities, m')
    → IsRefined range m' (vacate i w)
unfolding cleanup_instance
cleanup_instance-IsRefined range i m m' w entities refined e =
    let (chunks, there, e1) = >>=-ok (unwrap (m.chunk_maps i)) _ _ e in
    let ((others, m1), all, e2) = >>=-ok (untrack_all (ids_in_rows chunks nchunks) m) _ _ e1 in
    let same = map_same others entities (with_instance i none m1) m' e2 in
    let is : m.chunk_maps i ≡ some chunks = unwrap-ok (m.chunk_maps i) chunks there in
    IsRefined-same range (vacate i w) (with_instance i none m1) m' same (
      vacated-IsRefined range i chunks m m1 w refined is
        (untrack_all-IsUntracked (ids_in_rows chunks nchunks) m m1 others all))

cleanup_all-IsRefined :
    (range : ℕ) (is : List InstanceId) (m m' : EntityMap) (w : World) (entities : List Tracked)
    → IsRefined range m w
    → cleanup_all is m ≡ ok (entities, m')
    → (w' : World) × IsRefined range m' w'
unfolding cleanup_all
cleanup_all-IsRefined range [] m m' w entities refined e =
    let same : m ≡ m' = ground (arith, e) in (w, IsRefined-same range w m m' same refined)
cleanup_all-IsRefined range (i ∷ is) m m' w entities refined e =
    let ((here, m1), first, e1) = >>=-ok (cleanup_instance i m) _ _ e in
    let ((others, m2), second, e2) = >>=-ok (cleanup_all is m1) _ _ e1 in
    let same : m2 ≡ m' = ground (arith, e2) in
    let (w', refined') =
      cleanup_all-IsRefined range is m1 m2 (vacate i w) others
        (cleanup_instance-IsRefined range i m m1 w here refined first) second in
    (w', IsRefined-same range w' m2 m' same refined')

pub garbage_collect_instances-IsRefined :
    (range : ℕ) (m m' : EntityMap) (w : World) (entities : List Tracked)
    → IsRefined range m w
    → garbage_collect_instances m ≡ ok (entities, m')
    → (w' : World) × IsRefined range m' w'
unfolding garbage_collect_instances ids_at chunk_at
garbage_collect_instances-IsRefined range m m' w entities refined e =
    let ((all, m1), cleaned, e1) = >>=-ok (cleanup_all m.instances_to_cleanup m) _ _ e in
    let same : record m1 { instances_to_cleanup = [] } ≡ m' = ground (arith, e1) in
    let (w', refined') =
      cleanup_all-IsRefined range m.instances_to_cleanup m m1 w all refined cleaned in
    let cleared : IsRefined range (record m1 { instances_to_cleanup = [] }) w' = record {
      once = refined'.once;
      placed = refined'.placed;
      tracks = refined'.tracks;
      loads = refined'.loads;
    } in
    (w', IsRefined-same range w' (record m1 { instances_to_cleanup = [] }) m' same cleared)

-- Entities in no chunk are in no place of the world.
pub garbage_collect_entities-IsRefined :
    (range : ℕ) (m m' : EntityMap) (w : World) (entities : List Tracked)
    → IsRefined range m w
    → ((id : EntityId) → contains id m.entities_to_cleanup ≡ true → chunk_of m id ≡ none)
    → garbage_collect_entities m ≡ ok (entities, m')
    → IsRefined range m' w
unfolding garbage_collect_entities ids_at chunk_at
garbage_collect_entities-IsRefined range m m' w entities refined nowhere e =
    let ((all, m1), cleaned, e1) = >>=-ok (untrack_all m.entities_to_cleanup m) _ _ e in
    let same : record m1 { entities_to_cleanup = [] } ≡ m' = ground (arith, e1) in
    let (kept, registry) : IsUntracked m.entities_to_cleanup m m1 =
      untrack_all-IsUntracked m.entities_to_cleanup m m1 all cleaned in
    let cleared : IsRefined range (record m1 { entities_to_cleanup = [] }) w = record {
      once = refined.once;
      placed = λ j. ground (arith, refined.placed j, registry j, nowhere j);
      tracks = λ j c.
          ground (
            arith,
            refined.tracks j c,
            ap (λ (f : InstanceId → Option (ℕ → ℕ → Chunk)). f c.i) kept,
          );
      loads = λ c chunk e. ground (
        arith,
        e,
        ap (λ (f : InstanceId → Option (ℕ → ℕ → Chunk)). f c.i) kept,
        refined.loads c chunk,
      );
    } in
    IsRefined-same range w (record m1 { entities_to_cleanup = [] }) m' same cleared
