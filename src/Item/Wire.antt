-- ===== src/Item/Wire.antt =====
-- src/item.rs: an item through its wire form.
use rusty_fusion.Error.{ok}
use rusty_fusion.Error.Results.{>>=-ok}
use rusty_fusion.Item.{
  Item, ItemBase, base_to_item, expiry, item_to_base, non_zero, time_limit, unwrap_or_zero,
}
use rusty_fusion.Item.Kind.{item_type_code, item_type_from, item_type_from-code}
use rusty_fusion.Prelude.{
  Bool-cases, Option, arith, bit_or, inl, inr, none, refl, some, ℕ, ◌%◌, ◌*◌, ◌+◌, ◌/◌, ◌<◌, ◌==◌,
  ◌^◌, ◌||◌, ◌≡◌,
}
use rusty_fusion.Prelude.Bits.{bit_or_disjoint}
use rusty_fusion.Util.Time.{SystemTime, get_systime_from_sec, get_timestamp_sec}
use rusty_fusion.Util.Words.{sign_extended}

-- What the wire form can hold: an id, a quantity and an appearance of 16 bits that are not zero, and an
-- expiry in whole seconds, not zero and below 2^31.
abbrev pub IsWire : Item → Type 0
IsWire item =
    (0 < item.id)
    × (0 < item.quantity)
    × (item.quantity < 2 ^ 16)
    × ((appearance : ℕ)
        → item.appearance_id ≡ some appearance
        → (0 < appearance) × (appearance < 2 ^ 16))
    × ((time : SystemTime)
        → item.expiry_time ≡ some time
        → (s : ℕ) × (time ≡ get_systime_from_sec s) × (0 < s) × (s < 2 ^ 31))

packed :
    (quantity appearance : ℕ)
    → quantity < 2 ^ 16
    → appearance < 2 ^ 16
    → bit_or quantity (appearance * 2 ^ 16 % 2 ^ 32) ≡ quantity + appearance * 2 ^ 16
packed quantity appearance h k =
    let small : appearance * 2 ^ 16 % 2 ^ 32 ≡ appearance * 2 ^ 16 = omega arith in
    rw small (bit_or_disjoint 16 quantity appearance h)

expiry-time_limit :
    (s : ℕ)
    → 0 < s
    → s < 2 ^ 31
    → expiry (time_limit (some (get_systime_from_sec s))) ≡ ok (some (get_systime_from_sec s))
unfolding expiry time_limit get_timestamp_sec get_systime_from_sec sign_extended
expiry-time_limit s h k =
    let whole : s * 1000000000 / 1000000000 % 2 ^ 32 ≡ s = omega arith in rw whole (ground arith)

appearance_kept :
    (o : Option ℕ)
    → ((appearance : ℕ) → o ≡ some appearance → (0 < appearance) × (appearance < 2 ^ 16))
    → (unwrap_or_zero o < 2 ^ 16) × (non_zero (unwrap_or_zero o) ≡ o)
unfolding unwrap_or_zero non_zero
appearance_kept none h = (omega arith, refl)
appearance_kept (some appearance) h = let (pos, fits) = h appearance refl in (fits, ground arith)

expiry_kept :
    (o : Option SystemTime)
    → ((time : SystemTime)
        → o ≡ some time
        → (s : ℕ) × (time ≡ get_systime_from_sec s) × (0 < s) × (s < 2 ^ 31))
    → expiry (time_limit o) ≡ ok o
unfolding expiry time_limit
expiry_kept none h = refl
expiry_kept (some time) h =
    let (s, e, pos, fits) = h time refl in rw e (expiry-time_limit s pos fits)

unpacked :
    (item : Item) (opt appearance limit : ℕ)
    → 0 < item.id
    → 0 < item.quantity
    → item.quantity < 2 ^ 16
    → appearance < 2 ^ 16
    → opt ≡ item.quantity + appearance * 2 ^ 16
    → non_zero appearance ≡ item.appearance_id
    → expiry limit ≡ ok item.expiry_time
    → base_to_item (record {
      i_type = item_type_code item.ty;
      i_id = item.id;
      i_opt = opt;
      i_time_limit = limit;
    })
      ≡ ok (some item)
unfolding base_to_item
unpacked item opt appearance limit h q qb ab e a t =
    let high : opt / 2 ^ 16 % 2 ^ 16 ≡ appearance = omega arith in
    let low : opt % 2 ^ 16 ≡ item.quantity = omega arith in
    ground (arith, item_type_from-code item.ty)

-- An item that the wire form can hold comes back from it.
pub base_to_item-item_to_base :
    (item : Item) → IsWire item → base_to_item (item_to_base (some item)) ≡ ok (some item)
unfolding item_to_base
base_to_item-item_to_base item (h, q, qb, a, t) =
    let (ab, ak) = appearance_kept item.appearance_id a in
    unpacked item _ (unwrap_or_zero item.appearance_id) _ h q qb ab
      (packed item.quantity (unwrap_or_zero item.appearance_id) qb ab) ak
      (expiry_kept item.expiry_time t)

-- An expiry that is not in whole seconds.
abbrev pub IsSplit : Option SystemTime → Type 0
IsSplit none = ⊥
IsSplit (some time) = 0 < time % 1000000000

expiry-whole : (limit : ℕ) (o : Option SystemTime) → expiry limit ≡ ok o → IsSplit o → ⊥
unfolding expiry get_systime_from_sec
expiry-whole limit none e split = split
expiry-whole limit (some time) e split = ground (arith, e, split)

-- What comes from the wire form expires in whole seconds.
pub base_to_item-whole :
    (base : ItemBase) (item : Item)
    → base_to_item base ≡ ok (some item)
    → IsSplit item.expiry_time
    → ⊥
unfolding base_to_item
base_to_item-whole base item e split = elim (Bool-cases (base.i_id == 0 || base.i_opt == 0)) [
  | inl nothing ↦ absurd (cc (rw nothing at e))
  | inr real ↦
      let (ty, _, e1) = >>=-ok (item_type_from base.i_type) _ _ (rw real at e) in
      let (expiry_time, limited, e2) = >>=-ok (expiry base.i_time_limit) _ _ e1 in
      expiry-whole base.i_time_limit item.expiry_time (rw limited (ground arith)) split
]
