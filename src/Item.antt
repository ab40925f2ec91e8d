-- ===== src/Item.antt =====
-- src/item.rs: items, stacks, vendors. A 16-bit id is its bit pattern; the stack limit, which the
-- table data holds, is a parameter.
pub mod Kind
pub mod Stacks
pub mod Wire
use rusty_fusion.Error.{Outcome, ok, panics, ◌>>=◌}
use rusty_fusion.Item.Kind.{ItemType, item_type_code, item_type_from, same_type}
use rusty_fusion.Prelude.{
  Bool, List, Option, [], bit_or, false, if◌then◌else◌, ltb, min, none, not, some, ℕ, ◌%◌, ◌&&◌,
  ◌*◌, ◌++◌, ◌+◌, ◌-◌, ◌/◌, ◌==◌, ◌^◌, ◌||◌, ◌∷◌,
}
use rusty_fusion.Util.Time.{SystemTime, get_systime_from_sec, get_timestamp_sec}
use rusty_fusion.Util.Words.{sign_extended}

pub record Item : Type 0 where
  pub ty : ItemType
  pub id : ℕ
  pub appearance_id : Option ℕ
  pub quantity : ℕ
  pub expiry_time : Option SystemTime

unfoldable pub new_item : ItemType → ℕ → Outcome Item
new_item ty id =
    if id == 0
    then panics
    else ok (record { ty = ty; id = id; appearance_id = none; quantity = 1; expiry_time = none })

unfoldable pub set_appearance : Item → Item → Item
set_appearance item looks_item = record item { appearance_id = some looks_item.id }

-- The stack that stays and the stack that is taken off.
unfoldable pub split_items : Option Item → ℕ → Option Item × Option Item
split_items none quantity = (none, none)
split_items (some stack) quantity =
    if quantity == 0
    then (some stack, none)
    else (let taken = min quantity stack.quantity in
        (
          if stack.quantity - taken == 0
              then none
              else some (record stack { quantity = stack.quantity - taken }),
          some (record stack { quantity = taken }),
        ))

module _ (max_stack_size : ItemType → ℕ → Outcome ℕ) where
  -- The case of two stacks of one item: `u16` wraps.
  merge : Item → Item → Outcome (Option Item × Option Item)
  merge from to = do
    limit ← max_stack_size to.ty to.id
    let moved = min ((limit + 2 ^ 16 - to.quantity) % 2 ^ 16) from.quantity
    ok (
      if from.quantity - moved == 0
          then none
          else some (record from { quantity = from.quantity - moved }),
      some (record to { quantity = (to.quantity + moved) % 2 ^ 16 }),
    )

  -- The two slots after the call; on an error they are as they were.
  unfoldable pub transfer_items : Option Item → Option Item → Outcome (Option Item × Option Item)
  unfolding merge
  transfer_items none to = ok (none, to)
  transfer_items (some from) none = ok (none, some from)
  transfer_items (some from) (some to) =
      if not (from.id == to.id) || not (same_type from.ty to.ty)
      then ok (some to, some from)
      else merge from to

-- `sItemBase`: four words as the client reads them.
pub record ItemBase : Type 0 where
  pub i_type : ℕ
  pub i_id : ℕ
  pub i_opt : ℕ
  pub i_time_limit : ℕ

abbrev pub item_base_default : ItemBase
item_base_default = record { i_type = 0; i_id = 0; i_opt = 0; i_time_limit = 0 }

unwrap_or_zero : Option ℕ → ℕ
unwrap_or_zero none = 0
unwrap_or_zero (some n) = n

non_zero : ℕ → Option ℕ
non_zero n = if n == 0 then none else some n

time_limit : Option SystemTime → ℕ
time_limit none = 0
time_limit (some time) = get_timestamp_sec time

unfoldable pub item_to_base : Option Item → ItemBase
unfolding unwrap_or_zero time_limit
item_to_base none = item_base_default
item_to_base (some item) = record {
  i_type = item_type_code item.ty;
  i_id = item.id;
  i_opt = bit_or item.quantity (unwrap_or_zero item.appearance_id * 2 ^ 16 % 2 ^ 32);
  i_time_limit = time_limit item.expiry_time;
}

-- A time that an instant cannot hold panics, past 2^63 seconds.
expiry : ℕ → Outcome (Option SystemTime)
unfolding sign_extended
expiry limit =
    if limit == 0
    then ok none
    else if ltb (sign_extended limit) (2 ^ 63)
    then ok (some (get_systime_from_sec (sign_extended limit)))
    else panics

unfoldable pub base_to_item : ItemBase → Outcome (Option Item)
unfolding non_zero expiry
base_to_item value = if value.i_id == 0 || value.i_opt == 0 then ok none else do
  ty ← item_type_from value.i_type
  expiry_time ← expiry value.i_time_limit
  ok (
      some (record {
        ty = ty;
        id = value.i_id;
        appearance_id = non_zero (value.i_opt / 2 ^ 16 % 2 ^ 16);
        quantity = value.i_opt % 2 ^ 16;
        expiry_time = expiry_time;
      }))

-- The part of `ItemStats` that the modelled handlers read; a level and a rarity are bit patterns.
pub record ItemStats : Type 0 where
  pub buy_price : ℕ
  pub sell_price : ℕ
  pub sellable : Bool
  pub required_level : ℕ
  pub rarity : Option ℕ

pub record CrocPotData : Type 0 where
  pub price_multiplier_looks : ℕ
  pub price_multiplier_stats : ℕ

pub record VendorItem : Type 0 where
  pub sort_number : ℕ
  pub ty : ItemType
  pub id : ℕ

pub record VendorData : Type 0 where
  pub vendor_id : ℕ
  pub items : List VendorItem

unfoldable pub vendor_insert : VendorData → VendorItem → VendorData
vendor_insert vendor item = record vendor { items = vendor.items ++ (item ∷ []) }

any_item : List VendorItem → ℕ → ItemType → Bool
any_item [] item_id item_type = false
any_item (item ∷ items) item_id item_type =
    (item_id == item.id && same_type item_type item.ty) || any_item items item_id item_type

unfoldable pub has_item : VendorData → ℕ → ItemType → Bool
unfolding any_item
has_item vendor item_id item_type = any_item vendor.items item_id item_type
