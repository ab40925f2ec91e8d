-- ===== src/Entity/Player/Inventory/FreeSlots.antt =====
-- src/entity/player.rs: the free slots of an inventory.
use rusty_fusion.Entity.Player.{Player, get_player_id}
use rusty_fusion.Entity.Player.Inventory.{
  count_none, find_free_slot, first_none, get_free_slots, get_item, no_free_slot, slot_limit, slots,
}
use rusty_fusion.Entity.Player.Inventory.Slots.{IsShaped}
use rusty_fusion.Error.{FfError, build, err, ok, unwrap, warning, ◌>>=◌}
use rusty_fusion.Item.{Item}
use rusty_fusion.Item.Kind.{ItemLocation, bank, equip, inven, q_inven}
use rusty_fusion.Prelude.{
  Bool-cases, List, Option, [], arith, get_elem?, inl, inr, length, lt-get_elem?, ltb, none, refl,
  some, suc, sym, zero, ℕ, ◌+◌, ◌<◌, ◌∙◌, ◌∷◌, ◌≡◌, ◌≢◌,
}
use rusty_fusion.Shard.Trading.{found}

first_none_lem :
    (items : List (Option Item)) (k : ℕ)
    → 0 < count_none items
    → (n : ℕ) × (first_none items k ≡ some (k + n))
      × (get_elem? items n ≡ some none)
      × ((m : ℕ) → m < n → (item : Item) × (get_elem? items m ≡ some (some item)))
unfolding first_none
first_none_lem [] k h = absurd (omega arith)
first_none_lem (none ∷ items) k h = (0, ground arith, refl, λ m l. absurd (omega arith))
first_none_lem (some item ∷ items) k h =
    let (n, e, free, before) = first_none_lem items (k + 1) h in
    (suc n, ground (arith, e), free, λ m l. earlier item items n before m l)
  where
    earlier :
        (item : Item) (items : List (Option Item)) (n : ℕ)
        → ((m : ℕ) → m < n → (i : Item) × (get_elem? items m ≡ some (some i)))
        → (m : ℕ) → m < suc n
        → (i : Item) × (get_elem? (some item ∷ items) m ≡ some (some i))
    earlier item items n before zero l = (item, refl)
    earlier item items n before (suc m) l = before m (omega arith)

first_none-full :
    (items : List (Option Item)) (k : ℕ) → count_none items ≡ 0 → first_none items k ≡ none
unfolding first_none
first_none-full [] k h = refl
first_none-full (none ∷ items) k h = absurd (omega arith)
first_none-full (some item ∷ items) k h = first_none-full items (k + 1) h

count_none-found :
    (player : Player) (location : ItemLocation) (items : List (Option Item))
    → slots player.inventory location ≡ ok items
    → location ≢ q_inven
    → get_free_slots player location ≡ count_none items
unfolding slots get_free_slots
count_none-found player equip items e ne = cc e
count_none-found player inven items e ne = cc e
count_none-found player q_inven items e ne = absurd (ne refl)
count_none-found player bank items e ne = cc e

slots-in_range :
    (player : Player) (location : ItemLocation)
    → IsShaped player.inventory
    → location ≢ q_inven
    → (items : List (Option Item)) × (slots player.inventory location ≡ ok items)
      × (length items ≡ slot_limit location)
unfolding slots slot_limit
slots-in_range player equip (e, m, b, q) ne = (player.inventory.equipped, refl, e)
slots-in_range player inven (e, m, b, q) ne = (player.inventory.main, refl, m)
slots-in_range player q_inven shape ne = absurd (ne refl)
slots-in_range player bank (e, m, b, q) ne = (player.inventory.bank, refl, b)

pub get_item-slots :
    (player : Player) (location : ItemLocation) (items : List (Option Item)) (n : ℕ)
    (old : Option Item)
    → slots player.inventory location ≡ ok items
    → length items ≡ slot_limit location
    → get_elem? items n ≡ some old
    → get_item player location n ≡ ok old
unfolding get_item
get_item-slots player location items n old e shape h =
    let inside = lt-get_elem? items n old h in ground arith

-- In an inventory with slot numbers and a free slot, `find_free_slot` returns the first free slot: it is
-- inside and empty, and every slot before it holds an item. With no free slot it is an error, or the
-- panic of a player without an id.
pub find_free_slot-get_item :
    (player : Player) (location : ItemLocation)
    → IsShaped player.inventory
    → location ≢ q_inven
    → (0 < get_free_slots player location
        → (n : ℕ) × (find_free_slot player location ≡ ok n)
          × (n < slot_limit location)
          × (get_item player location n ≡ ok none)
          × ((m : ℕ) → m < n → (item : Item) × (get_item player location m ≡ ok (some item))))
      × (get_free_slots player location ≡ 0
          → find_free_slot player location
            ≡ (get_player_id player >>= λ _. err (build warning "Player has no free slots")))
unfolding find_free_slot no_free_slot
find_free_slot-get_item player location shape ne =
    let (items, e, size) = slots-in_range player location shape ne in
    let same = count_none-found player location items e ne in
    (
      λ h.
          let (n, found, free, before) = first_none_lem items 0 (omega (arith, same)) in
          (
            n,
            ground (arith, e),
            omega (arith, lt-get_elem? items n none free),
            get_item-slots player location items n none e size free,
            λ m l.
                let (item, here) = before m l in
                (item, get_item-slots player location items m (some item) e size here),
          ),
      λ h. let full = first_none-full items 0 (omega (arith, same)) in ground (arith, e),
    )

pub find_free_slot-ok :
    (player : Player) (location : ItemLocation) (n : ℕ)
    → IsShaped player.inventory
    → location ≢ q_inven
    → find_free_slot player location ≡ ok n
    → get_item player location n ≡ ok none
unfolding get_player_id
find_free_slot-ok player location n shape ne h =
    let (first, full) = find_free_slot-get_item player location shape ne in
    elim (Bool-cases (ltb 0 (get_free_slots player location))) [
      | inl free ↦
          let (m, found, _, empty, _) = first (ground arith) in
          let same : m ≡ n = cc (found, h) in rw same at empty
      | inr none_free ↦ absurd (
          not_ok player.id (build warning "Player has no free slots")
            (sym (full (ground arith)) ∙ h))
    ]
  where
    not_ok : (id : Option ℕ) (e : FfError) {n : ℕ} → (unwrap id >>= (λ (_ : ℕ). err e)) ≢ ok n
    not_ok none e h = cc h
    not_ok (some i) e h = cc h
