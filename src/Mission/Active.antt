-- ===== src/Mission/Active.antt =====
-- src/mission.rs: the six slots of a journal and the active mission.
use rusty_fusion.Error.{Outcome, build, ok, ok_or, warning, ◌>>=◌}
use rusty_fusion.Error.Results.{>>=-ok}
use rusty_fusion.Mission.{MissionJournal, Task, get_current_task_by_idx, get_task_iter, opt_list}
use rusty_fusion.Mission.Slots.{
  TableData, find_slot, get_active_mission_id, get_active_task, is_slot_of, mission_of,
  set_active_mission_id,
}
use rusty_fusion.Prelude.{
  Bool-cases, List, Option, [], arith, inl, inr, length, none, refl, some, suc, sym, true, zero, ℕ,
  ◌++◌, ◌+◌, ◌<◌, ◌∷◌, ◌≡◌, ◌≤◌,
}

-- The tasks of `n` slots from `idx`, as the loops over slot numbers meet them.
unfoldable pub collected : MissionJournal → ℕ → ℕ → Outcome (List Task)
unfolding get_current_task_by_idx
collected journal idx zero = ok []
collected journal idx (suc n) = do
  slot ← get_current_task_by_idx journal idx
  tasks ← collected journal (idx + 1) n
  ok (opt_list slot ++ tasks)

-- The loop over the six slot numbers and the iterator meet the same tasks in the same order, in a journal
-- with at most four world missions.
pub collected-get_task_iter :
    (journal : MissionJournal)
    → length journal.current_world_missions ≤ 4
    → collected journal 0 6 ≡ ok (get_task_iter journal)
unfolding collected get_current_task_by_idx get_task_iter
collected-get_task_iter journal few = go journal.current_world_missions refl
  where
    go :
        (tasks : List Task)
        → journal.current_world_missions ≡ tasks
        → collected journal 0 6 ≡ ok (get_task_iter journal)
    go [] e = rw e refl
    go (a ∷ []) e = rw e refl
    go (a ∷ b ∷ []) e = rw e refl
    go (a ∷ b ∷ c ∷ []) e = rw e refl
    go (a ∷ b ∷ c ∷ d ∷ []) e = rw e refl
    go (a ∷ b ∷ c ∷ d ∷ f ∷ tasks) e =
        let long : length (a ∷ b ∷ c ∷ d ∷ f ∷ tasks) ≤ 4 = rw e at few in
        absurd (omega (arith, long))

module _ (tdata : TableData) where
  is_slot_of-ok :
      (mission_id : ℕ) (slot : Option Task)
      → is_slot_of tdata mission_id slot ≡ ok true
      → (task : Task) × (slot ≡ some task) × (mission_of tdata task ≡ ok mission_id)
  unfolding is_slot_of
  is_slot_of-ok mission_id none e = absurd (cc e)
  is_slot_of-ok mission_id (some task) e =
      let (m, is, r) = >>=-ok (mission_of tdata task) _ _ e in (task, refl, ground (arith, is, r))

  -- A slot that is found holds a task of the mission, and is one of those that were searched.
  find_slot-ok :
      (mission_id : ℕ) (journal : MissionJournal) (idx n i : ℕ)
      → find_slot tdata mission_id journal idx n ≡ ok (some i)
      → (task : Task) × (get_current_task_by_idx journal i ≡ ok (some task))
        × (mission_of tdata task ≡ ok mission_id)
        × (i < idx + n)
  unfolding find_slot
  find_slot-ok mission_id journal idx zero i e = absurd (cc e)
  find_slot-ok mission_id journal idx (suc n) i e =
      let (slot, at, e1) = >>=-ok (get_current_task_by_idx journal idx) _ _ e in
      let (here, is, e2) = >>=-ok (is_slot_of tdata mission_id slot) _ _ e1 in
      elim (Bool-cases here) [
        | inl yes_here ↦
            let (task, holds, of) = is_slot_of-ok mission_id slot (rw yes_here at is) in
            let same : idx ≡ i = cc (rw yes_here at e2) in
            (task, rw (sym same) (rw holds at at), of, omega (arith, same))
        | inr not_here ↦
            let (task, holds, of, low) =
              find_slot-ok mission_id journal (idx + 1) n i (rw not_here at e2) in
            (task, holds, of, omega (arith, low))
      ]

  -- A request to make a mission the active one that succeeds gives one of the six slots, and that mission
  -- is then the active one. The tasks stay.
  pub get_active_mission_id-set_active_mission_id :
      (mission_id idx : ℕ) (journal journal' : MissionJournal)
      → set_active_mission_id tdata mission_id journal ≡ ok (idx, journal')
      → (idx < 6)
        × (get_active_mission_id tdata journal' ≡ ok (some mission_id))
        × (get_task_iter journal' ≡ get_task_iter journal)
  unfolding set_active_mission_id get_active_mission_id get_active_task get_task_iter
      get_current_task_by_idx
  get_active_mission_id-set_active_mission_id mission_id idx journal journal' e =
      let (slot, at, e1) = >>=-ok (find_slot tdata mission_id journal 0 6) _ _ e in
      let (i, is, e2) =
        >>=-ok (ok_or slot (build warning "No current task for mission ID")) _ _ e1 in
      let found_slot : slot ≡ some i = slot_is slot i is in
      let (task, holds, of, low) = find_slot-ok mission_id journal 0 6 i (rw found_slot at at) in
      let same : journal' ≡ record journal { active_mission_slot = some i } = cc e2 in
      let number : idx ≡ i = cc e2 in
      (omega (arith, low, number), rw same (rw holds (rw of refl)), rw same refl)
    where
      slot_is :
          (slot : Option ℕ) (i : ℕ)
          → ok_or slot (build warning "No current task for mission ID") ≡ ok i
          → slot ≡ some i
      slot_is none i h = absurd (cc h)
      slot_is (some k) i h = cc h
