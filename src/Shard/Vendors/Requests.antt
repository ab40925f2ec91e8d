-- ===== src/Shard/Vendors/Requests.antt =====
-- src/bin/shard/item.rs: the handlers of the vendor packets, with the answers that they send. The NPCs of a
-- type and the distance check are parameters.
use rusty_fusion.Error.{Outcome, build, chain, err, guard, ok, ok_or, panics, warning}
use rusty_fusion.Item.{ItemBase, ItemStats, VendorData, item_to_base}
use rusty_fusion.Item.Kind.{ItemType}
use rusty_fusion.Prelude.{List, [], if◌then◌else◌, none, some, ℕ, ◌==◌, ◌∷◌}
use rusty_fusion.Shard.Shopper.{on_shopper}
use rusty_fusion.Shard.State.{
  Message, Run, catching, lift, tell, vendor_battery_buy_fail, vendor_battery_buy_succ,
  vendor_item_buy_fail, vendor_item_buy_succ, vendor_item_restore_buy_fail,
  vendor_item_restore_buy_succ, vendor_item_sell_fail, vendor_item_sell_succ, vendor_start_fail,
  vendor_start_succ, ◌>>=◌, ◌>>◌,
}
use rusty_fusion.Shard.Vendors.{buy_batteries, buy_item, restore_buy, sell_item}
use rusty_fusion.Util.Time.{SystemTime}
use rusty_fusion.Util.Words.{sign_extended}

module _ (self_id : Outcome ℕ) (send : Message → Outcome (Unit {0})) (npcs_of_type : ℕ → List ℕ)
    (validate_proximity : ℕ → ℕ → Outcome (Unit {0})) where
  abbrev pub reply : Message → Run (Unit {0})
  reply message = do tell none message; lift (send message)

  -- The part of `validate_vendor` for an id that is not the type.
  unfoldable pub validate_npc : ℕ → ℕ → Run (Unit {0})
  validate_npc npc_id vendor_id = do
    pc_id ← lift self_id
    mob ← (λ s. (ok_or (s.npcs npc_id) (build warning "NPC doesn't exist"), s))
    lift (guard (mob.ty == vendor_id) (build warning "Vendor has another type"))
    lift (elim (validate_proximity pc_id npc_id) [
      | ok u ↦ ok u
      | err e ↦ err (chain e (build warning "Vendor not close enough"))
      | panics ↦ panics
    ])

  -- The first NPC that is valid. One whose id is its type makes the source recurse without end, and
  -- overflow the stack.
  unfoldable pub any_valid : ℕ → List ℕ → Run (Unit {0})
  unfolding validate_npc
  any_valid vendor_id [] s = (err (build warning "No matching NPCs close enough"), s)
  any_valid vendor_id (npc_id ∷ npc_ids) s =
      let others = any_valid vendor_id npc_ids s in
      if npc_id == vendor_id then (panics, s) else elim (validate_npc npc_id vendor_id s).0 [
        | ok u ↦ (ok u, s)
        | err e ↦ others
        | panics ↦ (panics, s)
      ]

  unfoldable pub validate_vendor : ℕ → ℕ → Run (Unit {0})
  unfolding any_valid
  validate_vendor npc_id vendor_id = do
    _ ← lift self_id
    (if npc_id == vendor_id
        then any_valid vendor_id (npcs_of_type vendor_id)
        else validate_npc npc_id vendor_id)

  unfoldable pub vendor_start : ℕ → ℕ → Run (Unit {0})
  unfolding validate_vendor
  vendor_start npc_id vendor_id =
      catching (do validate_vendor npc_id vendor_id; reply (vendor_start_succ npc_id vendor_id))
        (reply vendor_start_fail)

  unfoldable pub vendor_item_buy :
      (ItemType → ℕ → Outcome ItemStats)
      → (ℕ → Outcome VendorData)
      → SystemTime
      → ℕ
      → ℕ
      → ItemBase
      → ℕ
      → Run (Unit {0})
  unfolding validate_vendor buy_item on_shopper sign_extended
  vendor_item_buy get_item_stats get_vendor_data expires npc_id vendor_id base slot_num =
      catching
        (do
          validate_vendor npc_id vendor_id
          pc_id ← lift self_id
          (taros_left, item) ← on_shopper pc_id (
              buy_item get_item_stats get_vendor_data expires vendor_id base
                (sign_extended slot_num))
          reply (vendor_item_buy_succ taros_left slot_num (item_to_base (some item))))
        (reply vendor_item_buy_fail)

  unfoldable pub vendor_item_sell : (ItemType → ℕ → Outcome ItemStats) → ℕ → ℕ → Run (Unit {0})
  unfolding sell_item on_shopper sign_extended
  vendor_item_sell get_item_stats slot_num item_cnt =
      catching
        (do
          pc_id ← lift self_id
          (new_taros, sold, stays) ←
              on_shopper pc_id (sell_item get_item_stats (sign_extended slot_num) item_cnt)
          reply (
              vendor_item_sell_succ new_taros slot_num (item_to_base (some sold))
                (item_to_base stays)))
        (reply vendor_item_sell_fail)

  unfoldable pub vendor_item_restore_buy :
      (ItemType → ℕ → Outcome ItemStats) → ℕ → ℕ → ItemBase → ℕ → Run (Unit {0})
  unfolding validate_vendor restore_buy on_shopper sign_extended
  vendor_item_restore_buy get_item_stats npc_id vendor_id base slot_num =
      catching
        (do
          pc_id ← lift self_id
          validate_vendor npc_id vendor_id
          (new_taros, item) ←
              on_shopper pc_id (restore_buy get_item_stats base (sign_extended slot_num))
          reply (vendor_item_restore_buy_succ new_taros slot_num (item_to_base (some item))))
        (reply vendor_item_restore_buy_fail)

  unfoldable pub vendor_battery_buy : ℕ → ℕ → ℕ → ℕ → Run (Unit {0})
  unfolding validate_vendor buy_batteries on_shopper
  vendor_battery_buy npc_id vendor_id battery_type i_opt =
      catching
        (do
          validate_vendor npc_id vendor_id
          pc_id ← lift self_id
          player ← on_shopper pc_id (buy_batteries battery_type i_opt)
          reply (vendor_battery_buy_succ player.taros player.weapon_boosts player.nano_potions))
        (reply vendor_battery_buy_fail)
