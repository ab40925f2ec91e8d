-- ===== src/Item/Stacks.antt =====
-- src/item.rs: what splitting and merging stacks keeps.
use rusty_fusion.Error.{Outcome, ok}
use rusty_fusion.Item.{Item, merge, split_items, transfer_items}
use rusty_fusion.Item.Kind.{ItemType, same_type}
use rusty_fusion.Prelude.{
  Bool, Bool-cases, Option, arith, if◌then◌else◌, inl, inr, leb, min, none, refl, some, true, ℕ,
  ◌&&◌, ◌+◌, ◌-◌, ◌<◌, ◌==◌, ◌^◌, ◌≡◌, ◌≤◌,
}

same_item : ItemType → ℕ → Item → Bool
same_item ty id item = same_type ty item.ty && (id == item.id)

-- How many items of one kind a slot holds.
unfoldable pub count : ItemType → ℕ → Option Item → ℕ
unfolding same_item
count ty id none = 0
count ty id (some item) = if same_item ty id item then item.quantity else 0

pub count-none : (ty : ItemType) (id : ℕ) → count ty id none ≡ 0
unfolding count
count-none ty id = refl

-- A slot holds no empty stack, and none above its limit.
abbrev pub IsStack : (ItemType → ℕ → Outcome ℕ) → Option Item → Type 0
IsStack max_stack_size none = Unit
IsStack max_stack_size (some item) =
    (limit : ℕ) × (max_stack_size item.ty item.id ≡ ok limit)
    × (limit < 2 ^ 16)
    × (0 < item.quantity)
    × (item.quantity ≤ limit)

-- Splitting `n` off a slot loses and makes nothing: what stays and what is taken hold together, of
-- every kind of item, what the slot held. What is taken holds the smaller of `n` and the stack.
pub split_items-count :
    (slot : Option Item) (n : ℕ) (ty : ItemType) (id : ℕ)
    → (count ty id (split_items slot n).0 + count ty id (split_items slot n).1 ≡ count ty id slot)
      × (count ty id (split_items slot n).1 ≡ min n (count ty id slot))
unfolding split_items count same_item
split_items-count none n ty id = (refl, ground arith)
split_items-count (some item) n ty id = (ground arith, ground arith)

same_item_eq :
    (from to : Item) (ty : ItemType) (id : ℕ)
    → (from.id == to.id) ≡ true
    → same_type from.ty to.ty ≡ true
    → same_item ty id from ≡ same_item ty id to
unfolding same_item same_type
same_item_eq from to ty id h k = ground arith

merge-count :
    (m : ItemType → ℕ → Outcome ℕ) (from to : Item)
    → IsStack m (some from)
    → IsStack m (some to)
    → ((ty : ItemType) (id : ℕ) → same_item ty id from ≡ same_item ty id to)
    → (from' to' : Option Item) × (merge m from to ≡ ok (from', to'))
      × (IsStack m from')
      × (IsStack m to')
      × ((ty : ItemType) (id : ℕ)
          → count ty id from' + count ty id to' ≡ count ty id (some from) + count ty id (some to))
unfolding merge count same_item
merge-count m from to (fl, fe, fb, fp, fq) (tl, te, tb, tp, tq) same =
    let room = tl - to.quantity in
    elim (Bool-cases (leb from.quantity room)) [
      | inl h ↦ (
        none,
        some (record to { quantity = to.quantity + from.quantity }),
        ground arith,
        tt,
        (tl, te, tb, omega arith, ground arith),
        λ ty id. grind (arith, same ty id),
      )
      | inr h ↦ (
        some (record from { quantity = from.quantity - room }),
        some (record to { quantity = tl }),
        ground arith,
        (fl, fe, fb, ground arith, omega arith),
        (tl, te, tb, omega arith, omega arith),
        λ ty id. grind (arith, same ty id),
      )
    ]

-- Between two slots that hold no empty stack and none above its limit, a transfer succeeds, the slots
-- stay so, and together they hold as many items of every kind as before.
pub transfer_items-count :
    (m : ItemType → ℕ → Outcome ℕ) (from to : Option Item)
    → IsStack m from
    → IsStack m to
    → (from' to' : Option Item) × (transfer_items m from to ≡ ok (from', to'))
      × (IsStack m from')
      × (IsStack m to')
      × ((ty : ItemType) (id : ℕ)
          → count ty id from' + count ty id to' ≡ count ty id from + count ty id to)
unfolding transfer_items
transfer_items-count m none to hf ht = (none, to, refl, tt, ht, λ ty id. refl)
transfer_items-count m (some from) none hf ht =
    (none, some from, refl, tt, hf, λ ty id. omega arith)
transfer_items-count m (some from) (some to) hf ht =
    elim (Bool-cases (from.id == to.id && same_type from.ty to.ty)) [
      | inl h ↦
          let (from', to', e, hf', ht', c) =
            merge-count m from to hf ht
              (λ ty id. same_item_eq from to ty id (ground arith) (ground arith)) in
          (from', to', ground (arith, e), hf', ht', c)
      | inr h ↦ (some to, some from, ground arith, ht, hf, λ ty id. omega arith)
    ]
