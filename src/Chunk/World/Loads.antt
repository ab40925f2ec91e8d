-- ===== src/Chunk/World/Loads.antt =====
-- src/chunk.rs: what the loop over the chunks around does to one chunk.
use rusty_fusion.Chunk.{Chunk, ChunkCoords, EntityMap, chunk_at, put_chunk, same_coords}
use rusty_fusion.Chunk.Grid.{occurs, same_coords_iff}
use rusty_fusion.Chunk.Moves.{changed_count, touch, touch_all}
use rusty_fusion.Entity.Id.{EntityId, is_player}
use rusty_fusion.Item.Stacks.{count}
use rusty_fusion.Prelude.{
  Bool, Bool-cases, List, Option, Option-cases, [], ap, arith, false, if◌then◌else◌, inl, inr,
  is_some, none, refl, some, true, ℕ, ◌%◌, ◌&&◌, ◌+◌, ◌-◌, ◌^◌, ◌∙◌, ◌∷◌, ◌≡◌,
}

pub chunk_at-put_chunk :
    (d : ChunkCoords) (v : Chunk) (m : EntityMap) (c : ChunkCoords)
    → chunk_at (put_chunk d v m) c
      ≡ elim (chunk_at m c) [ none ↦ none | some u ↦ some (if same_coords c d then v else u) ]
unfolding chunk_at put_chunk same_coords
chunk_at-put_chunk d v m c = go (m.chunk_maps c.i) refl
  where
    go :
        (o : Option (ℕ → ℕ → Chunk))
        → m.chunk_maps c.i ≡ o
        → chunk_at (put_chunk d v m) c
          ≡ elim (chunk_at m c) [ none ↦ none | some u ↦ some (if same_coords c d then v else u) ]
    go none e = ground (arith, e)
    go (some chunks) e = ground (arith, e)

pub chunk_at-same :
    (m : EntityMap) (c d : ChunkCoords) → same_coords c d ≡ true → chunk_at m c ≡ chunk_at m d
chunk_at-same m c d h = let (there, conv) = same_coords_iff c d in ap (chunk_at m) (there h)

pub chunk_at-touch :
    (up : Bool) (id : EntityId) (d : ChunkCoords) (m : EntityMap) (c : ChunkCoords)
    → chunk_at (touch up id d m) c ≡ elim (chunk_at m c) [
      | none ↦ none
      | some u ↦ some (
          if same_coords c d && is_player id
          then record u { load_count = changed_count up u.load_count }
          else u)
    ]
unfolding touch
chunk_at-touch up id d m c = go (chunk_at m d) refl
  where
    go :
        (o : Option Chunk)
        → chunk_at m d ≡ o
        → chunk_at
            (elim o [
              | none ↦ m
              | some u ↦
                  if is_player id
                  then put_chunk d (record u { load_count = changed_count up u.load_count }) m
                  else m
            ])
            c
          ≡ elim (chunk_at m c) [
            | none ↦ none
            | some u ↦ some (
                if same_coords c d && is_player id
                then record u { load_count = changed_count up u.load_count }
                else u)
          ]
    go none e = elim (Option-cases (chunk_at m c)) [
      | inl absent ↦ rw absent refl
      | inr present ↦ let (u, is) = present in ground (arith, is, e, chunk_at-same m c d)
    ]
    go (some v) e = elim (Option-cases (chunk_at m c)) [
      | inl absent ↦ ground (
        arith,
        absent,
        chunk_at-put_chunk d (record v { load_count = changed_count up v.load_count }) m c,
      )
      | inr present ↦
          let (u, is) = present in
          ground (
            arith,
            is,
            e,
            chunk_at-same m c d,
            chunk_at-put_chunk d (record v { load_count = changed_count up v.load_count }) m c,
          )
    ]

-- The loop keeps the registry and the tracked entities.
pub registry-touch_all :
    (up : Bool) (id : EntityId) (ds : List ChunkCoords) (m : EntityMap)
    → (touch_all up id ds m).1.registry ≡ m.registry
unfolding touch_all touch put_chunk
registry-touch_all up id [] m = refl
registry-touch_all up id (d ∷ ds) m =
    registry-touch_all up id ds (touch up id d m) ∙ touched (chunk_at m d)
  where
    touched :
        (o : Option Chunk)
        → (elim o as (λ x. EntityMap) [
          | none ↦ m
          | some u ↦
              if is_player id
              then put_chunk d (record u { load_count = changed_count up u.load_count }) m
              else m
        ]).registry
          ≡ m.registry
    touched none = refl
    touched (some u) = ground arith

pub absent-touch_all :
    (up : Bool) (id : EntityId) (ds : List ChunkCoords) (m : EntityMap) (c : ChunkCoords)
    → chunk_at m c ≡ none
    → chunk_at (touch_all up id ds m).1 c ≡ none
unfolding touch_all
absent-touch_all up id [] m c e = e
absent-touch_all up id (d ∷ ds) m c e =
    absent-touch_all up id ds (touch up id d m) c (ground (arith, chunk_at-touch up id d m c, e))

abbrev pub changes_of : EntityId → ChunkCoords → List ChunkCoords → ℕ
changes_of id c ds = if is_player id then occurs c ds else 0

-- A chunk that exists counts one more for each of its places in the loop.
pub raised-touch_all :
    (id : EntityId) (ds : List ChunkCoords) (m : EntityMap) (c : ChunkCoords) (u : Chunk) (n : ℕ)
    → chunk_at m c ≡ some u
    → u.load_count ≡ n % 2 ^ 64
    → (u' : Chunk) × (chunk_at (touch_all true id ds m).1 c ≡ some u')
      × (u'.tracked ≡ u.tracked)
      × (u'.load_count ≡ (n + changes_of id c ds) % 2 ^ 64)
unfolding touch_all occurs
raised-touch_all id [] m c u n e h = (u, e, refl, ground (arith, h))
raised-touch_all id (d ∷ ds) m c u n e h = elim (Bool-cases (same_coords c d && is_player id)) [
  | inl hit ↦
      let here : chunk_at (touch true id d m) c
          ≡ some (record u { load_count = (u.load_count + 1) % 2 ^ 64 }) =
        ground (arith, chunk_at-touch true id d m c, e, hit) in
      let (u', is, kept, count) =
        raised-touch_all id ds (touch true id d m) c
          (record u { load_count = (u.load_count + 1) % 2 ^ 64 }) (n + 1) here (omega (arith, h)) in
      (u', is, kept, ground (arith, count, hit))
  | inr miss ↦
      let here : chunk_at (touch true id d m) c ≡ some u =
        ground (arith, chunk_at-touch true id d m c, e, miss) in
      let (u', is, kept, count) = raised-touch_all id ds (touch true id d m) c u n here h in
      (u', is, kept, ground (arith, count, miss))
]

-- And one less when the entity is removed.
pub lowered-touch_all :
    (id : EntityId) (ds : List ChunkCoords) (m : EntityMap) (c : ChunkCoords) (u : Chunk) (n : ℕ)
    → chunk_at m c ≡ some u
    → u.load_count ≡ (n + changes_of id c ds) % 2 ^ 64
    → (u' : Chunk) × (chunk_at (touch_all false id ds m).1 c ≡ some u')
      × (u'.tracked ≡ u.tracked)
      × (u'.load_count ≡ n % 2 ^ 64)
unfolding touch_all occurs
lowered-touch_all id [] m c u n e h = (u, e, refl, ground (arith, h))
lowered-touch_all id (d ∷ ds) m c u n e h = elim (Bool-cases (same_coords c d && is_player id)) [
  | inl hit ↦
      let less = record u { load_count = (u.load_count + 2 ^ 64 - 1) % 2 ^ 64 } in
      let here : chunk_at (touch false id d m) c ≡ some less =
        ground (arith, chunk_at-touch false id d m c, e, hit) in
      let before : u.load_count ≡ (n + (1 + changes_of id c ds)) % 2 ^ 64 =
        ground (arith, h, hit) in
      lowered-touch_all id ds (touch false id d m) c less n here (omega (arith, before))
  | inr miss ↦
      let here : chunk_at (touch false id d m) c ≡ some u =
        ground (arith, chunk_at-touch false id d m c, e, miss) in
      lowered-touch_all id ds (touch false id d m) c u n here (ground (arith, h, miss))
]

-- The loop makes no chunk and drops none.
pub exists-touch_all :
    (up : Bool) (id : EntityId) (ds : List ChunkCoords) (m : EntityMap) (c : ChunkCoords)
    → is_some (chunk_at (touch_all up id ds m).1 c) ≡ is_some (chunk_at m c)
unfolding touch_all
exists-touch_all up id [] m c = refl
exists-touch_all up id (d ∷ ds) m c =
    exists-touch_all up id ds (touch up id d m) c ∙ ground (arith, chunk_at-touch up id d m c)
