-- ===== src/Shard/Vendors/Expiring.antt =====
-- src/bin/shard/item.rs, `vendor_item_restore_buy`: sold items whose expiry is not in whole seconds, as
-- that of a vehicle from a vendor mostly is.
use rusty_fusion.Entity.Player.{Player}
use rusty_fusion.Error.{Outcome, err, ok, panics}
use rusty_fusion.Item.{Item, ItemBase, ItemStats, base_to_item}
use rusty_fusion.Item.Kind.{ItemType}
use rusty_fusion.Item.Wire.{IsSplit, base_to_item-whole}
use rusty_fusion.Prelude.{
  Bool-cases, List, Option, [], arith, inl, inr, none, refl, some, true, ℕ, ◌∷◌, ◌≡◌,
}
use rusty_fusion.Shard.Shopper.{Shopper}
use rusty_fusion.Shard.Vendors.{equal_items, remove_first, restore_buy, same_field}

-- None of the items expires at a whole second.
abbrev pub AllSplit : List Item → Type 0
AllSplit [] = Unit
AllSplit (item ∷ items) = IsSplit item.expiry_time × AllSplit items

same_field-IsSplit : (a b : Option ℕ) → same_field a b ≡ true → IsSplit a → IsSplit b
unfolding same_field
same_field-IsSplit none none e split = split
same_field-IsSplit none (some b) e split = absurd (cc e)
same_field-IsSplit (some a) none e split = absurd (cc e)
same_field-IsSplit (some a) (some b) e split = ground (arith, e, split)

equal_items-IsSplit :
    (a b : Item) → equal_items a b ≡ true → IsSplit a.expiry_time → IsSplit b.expiry_time
unfolding equal_items
equal_items-IsSplit a b e = same_field-IsSplit a.expiry_time b.expiry_time (ground (arith, e))

remove_first-AllSplit :
    (item : Item) (items : List Item)
    → (IsSplit item.expiry_time → ⊥)
    → AllSplit items
    → remove_first item items ≡ none
unfolding remove_first
remove_first-AllSplit item [] whole splits = refl
remove_first-AllSplit item (list_item ∷ items) whole (split, splits) =
    elim (Bool-cases (equal_items list_item item)) [
      | inl same ↦ absurd (whole (equal_items-IsSplit list_item item same split))
      | inr other ↦ rw (other, remove_first-AllSplit item items whole splits) refl
    ]

-- No item is handed out, and the player and the list stay.
abbrev pub IsRefused : Shopper → Outcome (ℕ × Item) × Shopper → Type 0
IsRefused s (ok bought, s') = ⊥
IsRefused s (err e, s') = s' ≡ s
IsRefused s (panics, s') = s' ≡ s

module _ (get_item_stats : ItemType → ℕ → Outcome ItemStats) where
  wanted_item :
      (base : ItemBase) (slot_num : ℕ) (player : Option Player) (items : List Item)
      (wanted : Outcome (Option Item))
      → base_to_item base ≡ wanted
      → AllSplit items
      → IsRefused
          (record { player = player; buyback = some items })
          (restore_buy get_item_stats base slot_num
            (record { player = player; buyback = some items }))
  unfolding restore_buy
  wanted_item base slot_num player items (err e) is splits = rw is refl
  wanted_item base slot_num player items panics is splits = rw is refl
  wanted_item base slot_num player items (ok none) is splits = rw is refl
  wanted_item base slot_num player items (ok (some item)) is splits =
      rw (is, remove_first-AllSplit item items (base_to_item-whole base item is) splits) refl

  -- Where every item that a player has sold has an expiry that is not in whole seconds, no request to buy
  -- one back succeeds, and the player and the list stay as they are.
  pub restore_buy-IsRefused :
      (base : ItemBase) (slot_num : ℕ) (player : Option Player) (items : List Item)
      → AllSplit items
      → IsRefused
          (record { player = player; buyback = some items })
          (restore_buy get_item_stats base slot_num
            (record { player = player; buyback = some items }))
  restore_buy-IsRefused base slot_num player items splits =
      wanted_item base slot_num player items (base_to_item base) refl splits
