-- ===== src/Chunk/World/Sets.antt =====
-- src/chunk.rs: the sets of entities around a chunk.
use rusty_fusion.Chunk.{ChunkCoords, EntityMap, join}
use rusty_fusion.Chunk.Grid.{occurs}
use rusty_fusion.Chunk.Moves.{difference, ids_at, touch, touch_all}
use rusty_fusion.Chunk.World.{is_at}
use rusty_fusion.Chunk.World.Loads.{chunk_at-touch}
use rusty_fusion.Entity.Group.{contains}
use rusty_fusion.Entity.Id.{EntityId, same_id_iff}
use rusty_fusion.Prelude.{
  Bool, List, Option, [], arith, false, ltb, none, not, refl, set, some, ◌&&◌, ◌||◌, ◌∙◌, ◌∷◌, ◌≡◌,
}

pub contains-join :
    (j : EntityId) (xs set : List EntityId)
    → contains j (join xs set) ≡ (contains j xs || contains j set)
unfolding contains join
contains-join j [] set = refl
contains-join j (x ∷ xs) set = ground (arith, contains-join j xs set, same_id_iff j x)

pub contains-difference :
    (j : EntityId) (xs others : List EntityId)
    → contains j (difference xs others) ≡ (contains j xs && not (contains j others))
unfolding contains difference
contains-difference j [] others = refl
contains-difference j (x ∷ xs) others =
    ground (arith, contains-difference j xs others, same_id_iff j x)

pub ids_at-touch :
    (up : Bool) (id : EntityId) (d : ChunkCoords) (m : EntityMap) (c : ChunkCoords)
    → ids_at (touch up id d m) c ≡ ids_at m c
unfolding ids_at
ids_at-touch up id d m c = ground (arith, chunk_at-touch up id d m c)

pub ids_at-touch_all :
    (up : Bool) (id : EntityId) (ds : List ChunkCoords) (m : EntityMap) (c : ChunkCoords)
    → ids_at (touch_all up id ds m).1 c ≡ ids_at m c
unfolding touch_all
ids_at-touch_all up id [] m c = refl
ids_at-touch_all up id (d ∷ ds) m c =
    ids_at-touch_all up id ds (touch up id d m) c ∙ ids_at-touch up id d m c

-- An entity that a world has at a place is found by the loop if it goes over that place.
abbrev pub is_passed : Option ChunkCoords → List ChunkCoords → Bool
is_passed none ds = false
is_passed (some p) ds = ltb 0 (occurs p ds)

pub contains-touch_all :
    (up : Bool) (id j : EntityId) (o : Option ChunkCoords) (ds : List ChunkCoords) (m : EntityMap)
    → ((c : ChunkCoords) → contains j (ids_at m c) ≡ is_at o c)
    → contains j (touch_all up id ds m).0 ≡ is_passed o ds
unfolding touch_all occurs contains
contains-touch_all up id j none [] m at = refl
contains-touch_all up id j (some p) [] m at = ground arith
contains-touch_all up id j none (d ∷ ds) m at = ground (
  arith,
  contains-join j (ids_at m d) (touch_all up id ds (touch up id d m)).0,
  at d,
  contains-touch_all up id j none ds (touch up id d m) (λ c. rw (ids_at-touch up id d m c) (at c)),
)
contains-touch_all up id j (some p) (d ∷ ds) m at = ground (
  arith,
  contains-join j (ids_at m d) (touch_all up id ds (touch up id d m)).0,
  at d,
  contains-touch_all up id j (some p) ds (touch up id d m)
      (λ c. rw (ids_at-touch up id d m c) (at c)),
)
