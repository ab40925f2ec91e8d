-- ===== src/Entity/Player/Inventory/QuestItems.antt =====
-- src/entity/player.rs: the counts of quest items after a write.
use rusty_fusion.Entity.Player.{Player, get_player_id}
use rusty_fusion.Entity.Player.Inventory.{
  behind, count_none, first_count, get_free_slots, get_quest_item_count, no_free_quest_slot,
  set_quest_item_count, write_quest,
}
use rusty_fusion.Error.{build, err, ok, warning, ◌>>=◌}
use rusty_fusion.Item.Kind.{q_inven}
use rusty_fusion.Item.Stacks.{count}
use rusty_fusion.Prelude.{
  Bool, Bool-cases, List, Option, Option-cases, [], arith, false, if◌then◌else◌, inl, inr, none,
  refl, some, true, ℕ, ◌&&◌, ◌+◌, ◌<◌, ◌==◌, ◌↔◌, ◌∷◌, ◌≡◌, ◌≢◌, ◌≤◌,
}

-- A free slot stands before the item's entry, or the item has no entry and a slot is free.
abbrev pub free_before : List (Option (ℕ × ℕ)) → ℕ → Bool
free_before [] item_id = false
free_before (none ∷ qitems) item_id = true
free_before (some (qitem_id, n) ∷ qitems) item_id =
    if qitem_id == item_id then false else free_before qitems item_id

-- How many slots hold the item.
abbrev pub entries : List (Option (ℕ × ℕ)) → ℕ → ℕ
entries [] item_id = 0
entries (none ∷ qitems) item_id = entries qitems item_id
entries (some (qitem_id, n) ∷ qitems) item_id =
    (if qitem_id == item_id then 1 else 0) + entries qitems item_id

abbrev new_entry : ℕ → ℕ → Option (ℕ × ℕ)
new_entry item_id n = if n == 0 then none else some (item_id, n)

no_entries :
    (qitems : List (Option (ℕ × ℕ))) (item_id : ℕ)
    → entries qitems item_id ≡ 0
    → first_count qitems item_id ≡ 0
unfolding first_count
no_entries [] item_id h = refl
no_entries (none ∷ qitems) item_id h = no_entries qitems item_id h
no_entries (some (qitem_id, n) ∷ qitems) item_id h = ground (arith, no_entries qitems item_id)

-- What a write changes in the list.
abbrev IsWritten : List (Option (ℕ × ℕ)) → ℕ → ℕ → List (Option (ℕ × ℕ)) → Type 0
IsWritten qitems item_id n qitems' =
    (first_count qitems' item_id
      ≡ (if n == 0 && free_before qitems item_id then first_count qitems item_id else n))
    × (entries qitems' item_id
        ≡ (if free_before qitems item_id then entries qitems item_id else 0)
          + (if n == 0 then 0 else 1))
    × ((other : ℕ) → other ≢ item_id → first_count qitems' other ≡ first_count qitems other)

IsWritten-free :
    (qitems : List (Option (ℕ × ℕ))) (item_id n : ℕ)
    → IsWritten (none ∷ qitems) item_id n (new_entry item_id n ∷ qitems)
unfolding first_count
IsWritten-free qitems item_id n = (ground arith, ground arith, λ other ne. ground arith)

IsWritten-here :
    (qitems : List (Option (ℕ × ℕ))) (item_id m n : ℕ)
    → entries (some (item_id, m) ∷ qitems) item_id ≤ 1
    → IsWritten (some (item_id, m) ∷ qitems) item_id n (new_entry item_id n ∷ qitems)
unfolding first_count
IsWritten-here qitems item_id m n h =
    let alone : entries qitems item_id ≡ 0 = ground arith in
    let gone = no_entries qitems item_id alone in
    (ground arith, ground arith, λ other ne. ground arith)

IsWritten-behind :
    (qitems qitems' : List (Option (ℕ × ℕ))) (qitem_id item_id m n : ℕ)
    → qitem_id ≢ item_id
    → IsWritten qitems item_id n qitems'
    → IsWritten (some (qitem_id, m) ∷ qitems) item_id n (some (qitem_id, m) ∷ qitems')
unfolding first_count
IsWritten-behind qitems qitems' qitem_id item_id m n ne (count, held, others) =
    (ground arith, ground arith, λ other o. ground (arith, others other o))

write_quest_lem :
    (qitems : List (Option (ℕ × ℕ))) (item_id n k : ℕ)
    → entries qitems item_id ≤ 1
    → (qitems' : List (Option (ℕ × ℕ))) (idx : ℕ)
    → write_quest qitems item_id (new_entry item_id n) k ≡ some (qitems', idx)
    → IsWritten qitems item_id n qitems'
unfolding write_quest behind
write_quest_lem [] item_id n k h qitems' idx e = cc e
write_quest_lem (none ∷ qitems) item_id n k h qitems' idx e =
    let same : qitems' ≡ new_entry item_id n ∷ qitems = cc e in
    rw same (IsWritten-free qitems item_id n)
write_quest_lem (some (qitem_id, m) ∷ qitems) item_id n k h qitems' idx e =
    elim (Bool-cases (qitem_id == item_id)) [
      | inl agree ↦
          let here : qitem_id ≡ item_id = ground arith in
          let same : qitems' ≡ new_entry item_id n ∷ qitems = ground (arith, e, agree) in
          rw (same, here) (IsWritten-here qitems item_id m n (rw here at h))
      | inr differ ↦
          let ne : qitem_id ≢ item_id = ground arith in
          elim (Option-cases (write_quest qitems item_id (new_entry item_id n) (k + 1))) [
            | inl none_left ↦ absurd (ground (arith, e, differ, none_left))
            | inr ((qs, i), found) ↦
                let same : qitems' ≡ some (qitem_id, m) ∷ qs = ground (arith, e, differ, found) in
                rw same (
                  IsWritten-behind qitems qs qitem_id item_id m n ne
                    (write_quest_lem qitems item_id n (k + 1) (ground arith) qs i found))
          ]
    ]

write_quest-full :
    (qitems : List (Option (ℕ × ℕ))) (item_id k : ℕ) (new_qitem : Option (ℕ × ℕ))
    → (write_quest qitems item_id new_qitem k ≡ none)
      ↔ ((count_none qitems ≡ 0) × (entries qitems item_id ≡ 0))
unfolding write_quest behind
write_quest-full [] item_id k new_qitem = ground arith
write_quest-full (none ∷ qitems) item_id k new_qitem = ground arith
write_quest-full (some (qitem_id, m) ∷ qitems) item_id k new_qitem =
    let rest = write_quest-full qitems item_id (k + 1) new_qitem in ground (arith, rest)

-- With at most one entry of the item: if a slot is free or the item has an entry, `set_quest_item_count`
-- succeeds, the counts of all other items are unchanged, and the item's count is the new one, unless
-- that is zero and a free slot stands before the item's entry: then the old count stays. Where a
-- free slot stands before the entry, a count above zero makes a second entry. If no slot is free and
-- the item has no entry, the call is an error, or the panic of a player without an id.
pub get_quest_item_count-set_quest_item_count :
    (player : Player) (item_id n : ℕ)
    → entries player.inventory.quest item_id ≤ 1
    → (0 < get_free_slots player q_inven + entries player.inventory.quest item_id
        → (player' : Player) × (idx : ℕ) × (set_quest_item_count player item_id n
            ≡ ok (player', idx))
          × (get_quest_item_count player' item_id ≡ (
              if n == 0 && free_before player.inventory.quest item_id
              then get_quest_item_count player item_id
              else n))
          × (entries player'.inventory.quest item_id
              ≡ (if free_before player.inventory.quest item_id
                  then entries player.inventory.quest item_id
                  else 0)
                + (if n == 0 then 0 else 1))
          × ((other : ℕ)
              → other ≢ item_id
              → get_quest_item_count player' other ≡ get_quest_item_count player other))
      × (get_free_slots player q_inven + entries player.inventory.quest item_id ≡ 0
          → set_quest_item_count player item_id n
            ≡ (get_player_id player >>= λ _. err (build warning "No free quest item slots")))
unfolding set_quest_item_count get_quest_item_count no_free_quest_slot get_free_slots
get_quest_item_count-set_quest_item_count player item_id n h =
    let full = write_quest-full player.inventory.quest item_id 0 (new_entry item_id n) in
    elim (Option-cases (write_quest player.inventory.quest item_id (new_entry item_id n) 0)) [
      | inl none_left ↦
          (λ some_left. absurd (ground (arith, full, none_left)), λ no_left. rw none_left refl)
      | inr ((qitems, idx), found) ↦
          let (count, held, others) =
            write_quest_lem player.inventory.quest item_id n 0 h qitems idx found in
          (
            λ some_left. (
              record player { inventory = record player.inventory { quest = qitems } },
              idx,
              rw found refl,
              count,
              held,
              others,
            ),
            λ no_left. absurd (ground (arith, full, found)),
          )
    ]
