-- ===== src/Chunk/World/Notices.antt =====
-- src/chunk.rs, `update`: whom the map tells of a move, and that it never fails.
use rusty_fusion.Chunk.{EntityMap}
use rusty_fusion.Chunk.Moves.{Notice, enters, exits, told}
use rusty_fusion.Entity.Group.{contains}
use rusty_fusion.Entity.Group.Bounds.{same_id_refl}
use rusty_fusion.Entity.Id.{EntityId, same_id, same_id_iff}
use rusty_fusion.Prelude.{
  Bool, Bool-cases, List, [], arith, false, if◌then◌else◌, inl, inr, is_some, not, refl, true, ◌&&◌,
  ◌++◌, ◌||◌, ◌∙◌, ◌∷◌, ◌≡◌,
}

unfoldable pub is_about : Bool → EntityId → EntityId → Notice → Bool
is_about entering a b (enters c d) = entering && same_id a c && same_id b d
is_about entering a b (exits c d) = not entering && same_id a c && same_id b d

-- Whether the first is told that the second enters, or exits.
unfoldable pub is_told : Bool → EntityId → EntityId → List Notice → Bool
unfolding is_about
is_told entering a b [] = false
is_told entering a b (n ∷ ns) = is_about entering a b n || is_told entering a b ns

-- Whether the entity is told, or is the one that the other is told of, in every notice.
unfoldable pub all_name : EntityId → List Notice → Bool
all_name id [] = true
all_name id (enters a b ∷ ns) = (same_id id a || same_id id b) && all_name id ns
all_name id (exits a b ∷ ns) = (same_id id a || same_id id b) && all_name id ns

pub all_name-append :
    (id : EntityId) (ns os : List Notice)
    → all_name id (ns ++ os) ≡ (all_name id ns && all_name id os)
unfolding all_name
all_name-append id [] os = refl
all_name-append id (enters a b ∷ ns) os = ground (arith, all_name-append id ns os)
all_name-append id (exits a b ∷ ns) os = ground (arith, all_name-append id ns os)

all_name_nil : (id : EntityId) → all_name id [] ≡ true
unfolding all_name
all_name_nil id = refl

pub all_name_enters :
    (id a b : EntityId) (ns : List Notice)
    → all_name id (enters a b ∷ ns) ≡ ((same_id id a || same_id id b) && all_name id ns)
unfolding all_name
all_name_enters id a b ns = refl

pub all_name_exits :
    (id a b : EntityId) (ns : List Notice)
    → all_name id (exits a b ∷ ns) ≡ ((same_id id a || same_id id b) && all_name id ns)
unfolding all_name
all_name_exits id a b ns = refl

is_told-step :
    (entering : Bool) (a b : EntityId) (k l : Bool) (n o : Notice) (ns : List Notice)
    → is_told entering a b (let heard = if l then o ∷ ns else ns in if k then n ∷ heard else heard)
      ≡ ((k && is_about entering a b n)
          || (l && is_about entering a b o)
          || is_told entering a b ns)
unfolding is_told
is_told-step entering a b true true n o ns = ground arith
is_told-step entering a b true false n o ns = ground arith
is_told-step entering a b false true n o ns = ground arith
is_told-step entering a b false false n o ns = ground arith

pub is_told-append :
    (entering : Bool) (a b : EntityId) (ns os : List Notice)
    → is_told entering a b (ns ++ os) ≡ (is_told entering a b ns || is_told entering a b os)
unfolding is_told
is_told-append entering a b [] os = refl
is_told-append entering a b (n ∷ ns) os = ground (arith, is_told-append entering a b ns os)

module _ (has_client : EntityId → Bool) (m : EntityMap) (id : EntityId) where
  enters_nil :
      (entering : Bool) (a b : EntityId)
      → is_told entering a b (told enters has_client m id []) ≡ false
  unfolding is_told told
  enters_nil entering a b = refl

  exits_nil :
      (entering : Bool) (a b : EntityId)
      → is_told entering a b (told exits has_client m id []) ≡ false
  unfolding is_told told
  exits_nil entering a b = refl

  told-enters :
      (entering : Bool) (a b e : EntityId) (es : List EntityId)
      → is_told entering a b (told enters has_client m id (e ∷ es)) ≡ (
          (has_client id && is_some (m.registry e) && is_about entering a b (enters id e))
          || (is_some (m.registry e) && has_client e && is_about entering a b (enters e id))
          || is_told entering a b (told enters has_client m id es))
  unfolding told
  told-enters entering a b e es =
      is_told-step entering a b (has_client id && is_some (m.registry e))
        (is_some (m.registry e) && has_client e) (enters id e) (enters e id)
        (told enters has_client m id es)
      ∙ ground arith

  told-exits :
      (entering : Bool) (a b e : EntityId) (es : List EntityId)
      → is_told entering a b (told exits has_client m id (e ∷ es)) ≡ (
          (has_client id && is_some (m.registry e) && is_about entering a b (exits id e))
          || (is_some (m.registry e) && has_client e && is_about entering a b (exits e id))
          || is_told entering a b (told exits has_client m id es))
  unfolding told
  told-exits entering a b e es =
      is_told-step entering a b (has_client id && is_some (m.registry e))
        (is_some (m.registry e) && has_client e) (exits id e) (exits e id)
        (told exits has_client m id es)
      ∙ ground arith

  pub enters_other :
      (j : EntityId) (es : List EntityId)
      → contains id es ≡ false
      → is_told true j id (told enters has_client m id es)
        ≡ (contains j es && is_some (m.registry j) && has_client j)
  unfolding is_about contains
  enters_other j [] apart = enters_nil true j id
  enters_other j (e ∷ es) apart =
      told-enters true j id e es
      ∙ rw (enters_other j es (ground (arith, apart)))
          (ground (arith, apart, same_id_iff j e, same_id_iff id e, same_id_refl id))

  pub enters_self :
      (j : EntityId) (es : List EntityId)
      → contains id es ≡ false
      → is_told true id j (told enters has_client m id es)
        ≡ (contains j es && is_some (m.registry j) && has_client id)
  unfolding is_about contains
  enters_self j [] apart = enters_nil true id j
  enters_self j (e ∷ es) apart =
      told-enters true id j e es
      ∙ rw (enters_self j es (ground (arith, apart)))
          (ground (arith, apart, same_id_iff j e, same_id_iff id e, same_id_refl id))

  pub exits_other :
      (j : EntityId) (es : List EntityId)
      → contains id es ≡ false
      → is_told false j id (told exits has_client m id es)
        ≡ (contains j es && is_some (m.registry j) && has_client j)
  unfolding is_about contains
  exits_other j [] apart = exits_nil false j id
  exits_other j (e ∷ es) apart =
      told-exits false j id e es
      ∙ rw (exits_other j es (ground (arith, apart)))
          (ground (arith, apart, same_id_iff j e, same_id_iff id e, same_id_refl id))

  pub exits_self :
      (j : EntityId) (es : List EntityId)
      → contains id es ≡ false
      → is_told false id j (told exits has_client m id es)
        ≡ (contains j es && is_some (m.registry j) && has_client id)
  unfolding is_about contains
  exits_self j [] apart = exits_nil false id j
  exits_self j (e ∷ es) apart =
      told-exits false id j e es
      ∙ rw (exits_self j es (ground (arith, apart)))
          (ground (arith, apart, same_id_iff j e, same_id_iff id e, same_id_refl id))

  pub no_exits :
      (a b : EntityId) (es : List EntityId)
      → is_told false a b (told enters has_client m id es) ≡ false
  unfolding is_about
  no_exits a b [] = enters_nil false a b
  no_exits a b (e ∷ es) = ground (arith, told-enters false a b e es, no_exits a b es)

  pub no_enters :
      (a b : EntityId) (es : List EntityId)
      → is_told true a b (told exits has_client m id es) ≡ false
  unfolding is_about
  no_enters a b [] = exits_nil true a b
  no_enters a b (e ∷ es) = ground (arith, told-exits true a b e es, no_enters a b es)

  pub all_name-told :
      (notice : EntityId → EntityId → Notice)
      → ((a b : EntityId) (ns : List Notice)
          → all_name id (notice a b ∷ ns) ≡ ((same_id id a || same_id id b) && all_name id ns))
      → (es : List EntityId) → all_name id (told notice has_client m id es) ≡ true
  unfolding told
  all_name-told notice names [] = all_name_nil id
  all_name-told notice names (e ∷ es) =
      elim (Bool-cases (has_client id && is_some (m.registry e))) [
        | inl k ↦ elim (Bool-cases (is_some (m.registry e) && has_client e)) [
          | inl l ↦
              rw (k, l, names id e, names e id, all_name-told notice names es)
                (ground (arith, same_id_refl id))
          | inr l ↦
              rw (k, l, names id e, all_name-told notice names es) (ground (arith, same_id_refl id))
        ]
        | inr k ↦ elim (Bool-cases (is_some (m.registry e) && has_client e)) [
          | inl l ↦
              rw (k, l, names e id, all_name-told notice names es) (ground (arith, same_id_refl id))
          | inr l ↦ rw (k, l) (all_name-told notice names es)
        ]
      ]
