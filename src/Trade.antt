-- ===== src/Trade.antt =====
-- src/trade.rs: a trade between two players: what each offers, and how it is carried out.
pub mod Context
pub mod Transfer
pub mod Lock
pub mod Success
pub mod Completes
pub mod Resolve
use rusty_fusion.Entity.Player.{Player, get_player_id}
use rusty_fusion.Entity.Player.Inventory.{find_free_slot, get_item_mut, set_item, write_slot}
use rusty_fusion.Entity.Player.Stats.{set_taros}
use rusty_fusion.Error.{
  Outcome, build, err, guard, ok, ok_or, panics, unwrap, unwrap_result, warning, ◌>>=◌, ◌>>◌,
}
use rusty_fusion.Item.{split_items}
use rusty_fusion.Item.Kind.{inven, item_type_code}
use rusty_fusion.Prelude.{
  Bool, List, Option, [], false, get_elem?, if◌then◌else◌, length, ltb, none, not, replicate, set,
  some, true, ℕ, ◌%◌, ◌&&◌, ◌++◌, ◌+◌, ◌-◌, ◌==◌, ◌^◌, ◌∷◌,
}

pub record TradeItem : Type 0 where
  pub inven_slot_num : ℕ
  pub quantity : ℕ

pub record TradeOffer : Type 0 where
  pub taros : ℕ
  pub items : List (Option TradeItem)
  pub confirmed : Bool

abbrev pub default_offer : TradeOffer
default_offer = record { taros = 0; items = replicate 5 none; confirmed = false }

sum_count : List (Option TradeItem) → ℕ → ℕ → ℕ
sum_count [] slot total = total
sum_count (none ∷ items) slot total = sum_count items slot total
sum_count (some item ∷ items) slot total =
    sum_count items slot
      (if item.inven_slot_num == slot then (total + item.quantity) % 2 ^ 16 else total)

-- The sum of `u16` wraps.
unfoldable pub get_count : TradeOffer → ℕ → ℕ
unfolding sum_count
get_count offer slot = sum_count offer.items slot 0

unfoldable pub offer_add_item : TradeOffer → ℕ → ℕ → ℕ → Outcome (TradeOffer × ℕ)
offer_add_item offer trade_slot_num inven_slot_num quantity = do
  guard (ltb trade_slot_num (length offer.items)) (build warning "Trade slot number out of range")
  let item : TradeItem = record { inven_slot_num = inven_slot_num; quantity = quantity }
  let offer' = record offer { items = set offer.items trade_slot_num (some item) }
  ok (offer', get_count offer' inven_slot_num)

unfoldable pub offer_remove_item : TradeOffer → ℕ → Outcome (TradeOffer × (ℕ × ℕ))
offer_remove_item offer trade_slot_num = do
  guard (ltb trade_slot_num (length offer.items)) (build warning "Trade slot number out of range")
  slot ← unwrap (get_elem? offer.items trade_slot_num)
  removed_item ← ok_or slot (build warning "Nothing in trade slot")
  let offer' = record offer { items = set offer.items trade_slot_num none }
  ok (offer', (get_count offer' removed_item.inven_slot_num, removed_item.inven_slot_num))

pub record TradeContext : Type 0 where
  pub from_pc_id : ℕ
  pub from_offer : TradeOffer
  pub to_pc_id : ℕ
  pub to_offer : TradeOffer

unfoldable pub new_trade : ℕ → ℕ → TradeContext
new_trade from_pc_id to_pc_id = record {
  from_pc_id = from_pc_id;
  from_offer = default_offer;
  to_pc_id = to_pc_id;
  to_offer = default_offer;
}

unfoldable pub get_other_id : TradeContext → ℕ → Outcome ℕ
get_other_id trade pc_id =
    if not (trade.from_pc_id == pc_id)
    then ok trade.from_pc_id
    else if not (trade.to_pc_id == pc_id)
    then ok trade.to_pc_id
    else panics

-- The offer that `get_offer_mut` refers to, and a write through the reference.
unfoldable pub get_offer : TradeContext → ℕ → Outcome TradeOffer
get_offer trade pc_id =
    if pc_id == trade.from_pc_id
    then ok trade.from_offer
    else if pc_id == trade.to_pc_id
    then ok trade.to_offer
    else err (build warning "Player not in trade")

unfoldable pub write_offer : TradeContext → ℕ → TradeOffer → TradeContext
write_offer trade pc_id offer =
    if pc_id == trade.from_pc_id
    then record trade { from_offer = offer }
    else record trade { to_offer = offer }

-- The operations return the trade beside the result: an error after the offer was found leaves it
-- unconfirmed.
unfoldable pub trade_set_taros : TradeContext → ℕ → ℕ → Outcome TradeContext
trade_set_taros trade pc_id taros = do
  offer ← get_offer trade pc_id
  ok (write_offer trade pc_id (record offer { taros = taros; confirmed = false }))

module _ {ℓ} {A : Type ℓ} where
  stored : TradeContext → ℕ → TradeOffer → Outcome (TradeOffer × A) → Outcome A × TradeContext
  stored trade pc_id cleared (ok (offer, a)) = (ok a, write_offer trade pc_id offer)
  stored trade pc_id cleared (err e) = (err e, write_offer trade pc_id cleared)
  stored trade pc_id cleared panics = (panics, write_offer trade pc_id cleared)

  change_offer :
      TradeContext
      → ℕ
      → (TradeOffer → Outcome (TradeOffer × A))
      → Outcome TradeOffer
      → Outcome A × TradeContext
  unfolding stored
  change_offer trade pc_id change (ok offer) =
      let cleared = record offer { confirmed = false } in
      stored trade pc_id cleared (change cleared)
  change_offer trade pc_id change (err e) = (err e, trade)
  change_offer trade pc_id change panics = (panics, trade)

unfoldable pub trade_add_item : TradeContext → ℕ → ℕ → ℕ → ℕ → Outcome ℕ × TradeContext
unfolding change_offer
trade_add_item trade pc_id trade_slot_num inven_slot_num quantity =
    change_offer trade pc_id (λ offer. offer_add_item offer trade_slot_num inven_slot_num quantity)
      (get_offer trade pc_id)

unfoldable pub trade_remove_item : TradeContext → ℕ → ℕ → Outcome (ℕ × ℕ) × TradeContext
unfolding change_offer
trade_remove_item trade pc_id trade_slot_num =
    change_offer trade pc_id (λ offer. offer_remove_item offer trade_slot_num)
      (get_offer trade pc_id)

unfoldable pub is_ready : TradeContext → Bool
is_ready trade = trade.from_offer.confirmed && trade.to_offer.confirmed

unfoldable pub lock_in : TradeContext → ℕ → Outcome (TradeContext × Bool)
unfolding is_ready
lock_in trade pc_id = do
  offer ← get_offer trade pc_id
  let trade' = write_offer trade pc_id (record offer { confirmed = true })
  ok (trade', is_ready trade')

-- `sItemTrade`, without the slot number that the client ignores.
pub record ItemTrade : Type 0 where
  pub i_type : ℕ
  pub i_id : ℕ
  pub i_opt : ℕ
  pub i_inven_num : ℕ

abbrev pub blank_item : ItemTrade
blank_item = record { i_type = 0; i_id = 0; i_opt = 0; i_inven_num = 0 }

abbrev pub sizeof_trade_slot : ℕ
sizeof_trade_slot = 12

-- One round of the loop of `transfer`: an item moves from the first player to the second.
unfoldable pub transfer_item : TradeItem → Player → Player → Outcome (Player × Player × ItemTrade)
transfer_item item from to = do
  slot ← unwrap_result (get_item_mut from inven item.inven_slot_num)
  let split = split_items slot item.quantity
  item_traded ← unwrap split.1
  let from' = record from {
    inventory = write_slot from.inventory inven item.inven_slot_num split.0;
  }
  free_slot ← find_free_slot to inven
  (to', _) ← unwrap_result (set_item to inven free_slot (some item_traded))
  let sent : ItemTrade = record {
    i_type = item_type_code item_traded.ty;
    i_id = item_traded.id;
    i_opt = item_traded.quantity;
    i_inven_num = free_slot;
  }
  ok (from', to', sent)

pub transfer_items_loop :
    List (Option TradeItem) → Player → Player → Outcome (Player × Player × List ItemTrade)
transfer_items_loop [] from to = ok (from, to, [])
transfer_items_loop (none ∷ items) from to = transfer_items_loop items from to
transfer_items_loop (some item ∷ items) from to = do
  (from', to', sent) ← transfer_item item from to
  (from'', to'', rest) ← transfer_items_loop items from' to'
  ok (from'', to'', sent ∷ rest)

-- The taros of `u32` wrap before the setter limits them.
unfoldable pub transfer : TradeOffer → Player → Player → Outcome (Player × Player × List ItemTrade)
unfolding transfer_items_loop
transfer offer from to =
    transfer_items_loop offer.items (set_taros from ((from.taros + 2 ^ 32 - offer.taros) % 2 ^ 32))
      (set_taros to ((to.taros + offer.taros) % 2 ^ 32))

-- Five items at most are sent, so that `resize` to twelve only adds blanks.
padded : List ItemTrade → List ItemTrade
padded items = items ++ replicate (sizeof_trade_slot - length items) blank_item

-- The two players afterwards, and the two item lists.
unfoldable pub resolve :
    TradeContext → Player → Player → Outcome (Player × Player × List ItemTrade × List ItemTrade)
unfolding padded
resolve trade player other = do
  id ← get_player_id player
  offer ← unwrap_result (get_offer trade id)
  (player', other', items) ← transfer offer player other
  other_id ← get_player_id other'
  other_offer ← unwrap_result (get_offer trade other_id)
  (other'', player'', other_items) ← transfer other_offer other' player'
  ok (player'', other'', padded other_items, padded items)
