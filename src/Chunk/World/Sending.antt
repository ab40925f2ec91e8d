-- ===== src/Chunk/World/Sending.antt =====
-- src/chunk.rs: all that is sent after a move.
use rusty_fusion.Chunk.{ChunkCoords, EntityMap}
use rusty_fusion.Chunk.Instances.{notices_of}
use rusty_fusion.Chunk.Moves.{Notice, all_registered, difference, enters, exits, told}
use rusty_fusion.Chunk.World.{IsRefined, World, place_of, place_of-depart}
use rusty_fusion.Chunk.World.Notices.{
  all_name, all_name-append, all_name-told, all_name_enters, all_name_exits, enters_other,
  enters_self, exits_other, exits_self, is_told, is_told-append, no_enters, no_exits,
}
use rusty_fusion.Chunk.World.Update.{relocate, sees}
use rusty_fusion.Entity.Group.{contains}
use rusty_fusion.Entity.Group.Bounds.{same_id_refl}
use rusty_fusion.Entity.Id.{EntityId, same_id_iff}
use rusty_fusion.Error.{ok}
use rusty_fusion.Prelude.{
  Bool, List, Option, [], arith, false, is_some, none, refl, some, sym, true, ℕ, ◌&&◌, ◌++◌, ◌∙◌,
  ◌∷◌, ◌≡◌,
}

all_registered-in :
    (m : EntityMap) (es : List EntityId)
    → ((j : EntityId) → contains j es ≡ true → is_some (m.registry j) ≡ true)
    → all_registered m es ≡ true
unfolding all_registered contains
all_registered-in m [] h = refl
all_registered-in m (e ∷ es) h =
    ground (arith, h e, same_id_refl e, all_registered-in m es (λ j c. h j (ground (arith, c))))

-- Whoever an update is about is told of it, both ways, as far as it has a client, and no notice is between
-- two others.
abbrev pub IsTold :
    (has_client : EntityId → Bool) (id : EntityId) (gone come : EntityId → Bool)
    → List Notice
    → Type 0
IsTold has_client id gone come notices =
    (all_name id notices ≡ true)
    × ((j : EntityId)
        → (is_told true j id notices ≡ (come j && has_client j))
          × (is_told true id j notices ≡ (come j && has_client id))
          × (is_told false j id notices ≡ (gone j && has_client j))
          × (is_told false id j notices ≡ (gone j && has_client id)))

pub notices_of-IsTold :
    (has_client : EntityId → Bool) (id : EntityId) (m : EntityMap)
    (around_from around_to : List EntityId)
    → (gone come : EntityId → Bool)
    → ((j : EntityId) → contains j (difference around_from around_to) ≡ gone j)
    → ((j : EntityId) → contains j (difference around_to around_from) ≡ come j)
    → gone id ≡ false
    → come id ≡ false
    → ((j : EntityId) → gone j ≡ true → is_some (m.registry j) ≡ true)
    → ((j : EntityId) → come j ≡ true → is_some (m.registry j) ≡ true)
    → (notices : List Notice) × (notices_of id (some has_client) around_from around_to m
        ≡ ok notices)
      × IsTold has_client id gone come notices
unfolding notices_of
notices_of-IsTold has_client id m around_from around_to gone come is_gone is_come stays lone left
      right =
    (
      told exits has_client m id removed ++ told enters has_client m id added,
      rw (all_registered-in m added λ j c. right j (sym (is_come j) ∙ c)) refl,
      (
        all_name-append id (told exits has_client m id removed) (told enters has_client m id added)
            ∙ rw
                (
                  all_name-told has_client m id exits (all_name_exits id) removed,
                  all_name-told has_client m id enters (all_name_enters id) added,
                )
                refl,
        λ j. (
          ground (
            arith,
            is_told-append true j id (told exits has_client m id removed)
                (told enters has_client m id added),
            no_enters has_client m id j id removed,
            enters_other has_client m id j added (is_come id ∙ lone),
            is_come j,
            right j,
          ),
          ground (
            arith,
            is_told-append true id j (told exits has_client m id removed)
                (told enters has_client m id added),
            no_enters has_client m id id j removed,
            enters_self has_client m id j added (is_come id ∙ lone),
            is_come j,
            right j,
          ),
          ground (
            arith,
            is_told-append false j id (told exits has_client m id removed)
                (told enters has_client m id added),
            no_exits has_client m id j id added,
            exits_other has_client m id j removed (is_gone id ∙ stays),
            is_gone j,
            left j,
          ),
          ground (
            arith,
            is_told-append false id j (told exits has_client m id removed)
                (told enters has_client m id added),
            no_exits has_client m id id j added,
            exits_self has_client m id j removed (is_gone id ∙ stays),
            is_gone j,
            left j,
          ),
        ),
      ),
    )
  where
    removed : List EntityId
    removed = difference around_from around_to

    added : List EntityId
    added = difference around_to around_from

pub nobody-IsTold :
    (id : EntityId) (around_from around_to : List EntityId) (m : EntityMap)
    (gone come : EntityId → Bool)
    → (notices : List Notice) × (notices_of id none around_from around_to m ≡ ok notices)
      × IsTold (λ j. false) id gone come notices
unfolding notices_of is_told all_name
nobody-IsTold id around_from around_to m gone come =
    ([], refl, (refl, λ j. (ground arith, ground arith, ground arith, ground arith)))

-- An entity that a world has somewhere is registered.
pub registered :
    (range : ℕ) (m : EntityMap) (w : World) (j : EntityId)
    → IsRefined range m w
    → is_some (place_of w j) ≡ true
    → is_some (m.registry j) ≡ true
registered range m w j refined there = ground (arith, refined.placed j, there)

-- Whoever an entity sees, or saw, is somewhere after the move.
pub seen-somewhere :
    (range : ℕ) (id : EntityId) (at to : Option ChunkCoords) (w : World) (j : EntityId)
    → sees range id at w j ≡ true
    → is_some (place_of (relocate id to w) j) ≡ true
unfolding place_of
seen-somewhere range id none to w j seen = absurd (cc seen)
seen-somewhere range id (some coords) none w j seen =
    ground (arith, seen, place_of-depart id w j, same_id_iff j id)
seen-somewhere range id (some coords) (some d) w j seen =
    ground (arith, seen, place_of-depart id w j, same_id_iff j id)
