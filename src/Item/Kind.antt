-- ===== src/Item/Kind.antt =====
-- src/enums.rs: `ItemType` and `ItemLocation` with their codes.
use rusty_fusion.Error.{Outcome, build_dc, err, ok, warning}
use rusty_fusion.Prelude.{Bool, List, [], arith, if◌then◌else◌, ℕ, ◌==◌, ◌∷◌, ◌≡◌}

pub data ItemType : Type 0 where
  hand upper_body lower_body foot head face back general quest chest : ItemType
  vehicle gm_key f_matter hair skin_face nano nano_tune skill npc skill_buff_effect : ItemType

unfoldable pub item_type_code : ItemType → ℕ
item_type_code hand = 0
item_type_code upper_body = 1
item_type_code lower_body = 2
item_type_code foot = 3
item_type_code head = 4
item_type_code face = 5
item_type_code back = 6
item_type_code general = 7
item_type_code quest = 8
item_type_code chest = 9
item_type_code vehicle = 10
item_type_code gm_key = 11
item_type_code f_matter = 12
item_type_code hair = 13
item_type_code skin_face = 14
item_type_code nano = 19
item_type_code nano_tune = 24
item_type_code skill = 27
item_type_code npc = 30
item_type_code skill_buff_effect = 138

all_item_types : List ItemType
all_item_types =
    hand ∷ upper_body ∷ lower_body ∷ foot ∷ head ∷ face ∷ back ∷ general ∷ quest ∷ chest ∷ vehicle
    ∷ gm_key ∷ f_matter ∷ hair ∷ skin_face ∷ nano ∷ nano_tune ∷ skill ∷ npc ∷ skill_buff_effect ∷ []

item_type_among : List ItemType → ℕ → Outcome ItemType
unfolding item_type_code
item_type_among [] code = err (build_dc warning "Enum error")
item_type_among (ty ∷ tys) code =
    if item_type_code ty == code then ok ty else item_type_among tys code

-- The derived `TryFromPrimitive`, whose error is `FFError::from_enum_err`.
unfoldable pub item_type_from : ℕ → Outcome ItemType
unfolding all_item_types item_type_among
item_type_from code = item_type_among all_item_types code

-- The derived `PartialEq` of an enumeration compares the discriminants.
unfoldable pub same_type : ItemType → ItemType → Bool
unfolding item_type_code
same_type a b = item_type_code a == item_type_code b

pub data ItemLocation : Type 0 where
  equip inven q_inven bank : ItemLocation

unfoldable pub item_location_code : ItemLocation → ℕ
item_location_code equip = 0
item_location_code inven = 1
item_location_code q_inven = 2
item_location_code bank = 3

unfoldable pub item_location_from : ℕ → Outcome ItemLocation
item_location_from code =
    if code == 0
    then ok equip
    else if code == 1
    then ok inven
    else if code == 2
    then ok q_inven
    else if code == 3
    then ok bank
    else err (build_dc warning "Enum error")

pub item_type_from-code : (ty : ItemType) → item_type_from (item_type_code ty) ≡ ok ty
unfolding item_type_from item_type_code
item_type_from-code ty = ground arith
