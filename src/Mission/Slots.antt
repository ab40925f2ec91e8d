-- ===== src/Mission/Slots.antt =====
-- src/mission.rs: the operations of the journal that ask the table data which mission a task is of.
use rusty_fusion.Error.{Outcome, build, err, ok, ok_or, panics, unwrap_result, warning, ◌>>=◌}
use rusty_fusion.Mission.{
  MissionDefinition, MissionJournal, MissionType, Task, TaskDefinition, change_first,
  get_current_task_by_idx, get_task_iter, guide_mission, nano_mission, normal_mission,
  unknown_mission,
}
use rusty_fusion.Prelude.{
  Bool, List, Option, [], false, if◌then◌else◌, is_some, leb, length, none, not, some, suc, true,
  zero, ℕ, ◌&&◌, ◌++◌, ◌+◌, ◌==◌, ◌∷◌,
}

abbrev pub is_mission : ℕ → Outcome ℕ → Bool
is_mission mission_id (ok m) = m == mission_id
is_mission mission_id (err e) = false
is_mission mission_id panics = false

is_some_id : Option ℕ → ℕ → Bool
is_some_id none id = false
is_some_id (some a) id = a == id

pub record TableData : Type 0 where
  pub get_task_definition : ℕ → Outcome TaskDefinition
  pub get_mission_definition : ℕ → Outcome MissionDefinition

module _ (tdata : TableData) where
  unfoldable pub get_task_def : Task → Outcome TaskDefinition
  get_task_def task = unwrap_result (tdata.get_task_definition task.task_id)

  unfoldable pub mission_of : Task → Outcome ℕ
  unfolding get_task_def
  mission_of task = do task_def ← get_task_def task; ok task_def.mission_id

  unfoldable pub get_mission_def : Task → Outcome MissionDefinition
  unfolding mission_of
  get_mission_def task = do
    mission_id ← mission_of task
    unwrap_result (tdata.get_mission_definition mission_id)

  unfoldable pub find_mission : ℕ → List Task → Outcome (Option Task)
  unfolding mission_of
  find_mission mission_id [] = ok none
  find_mission mission_id (task ∷ tasks) =
      let rest = find_mission mission_id tasks in
      mission_of task >>= λ m. if m == mission_id then ok (some task) else rest

  unfoldable pub place_new : MissionType → Task → MissionJournal → Outcome MissionJournal
  place_new unknown_mission task journal =
      err (build warning "Tried to start task for unknown mission type")
  place_new guide_mission task journal =
      if is_some journal.current_guide_mission
      then err (build warning "Guide mission already in progress")
      else ok (record journal { current_guide_mission = some task })
  place_new nano_mission task journal =
      if is_some journal.current_nano_mission
      then err (build warning "Nano mission already in progress")
      else ok (record journal { current_nano_mission = some task })
  place_new normal_mission task journal =
      if leb 4 (length journal.current_world_missions)
      then err (build warning "No empty world mission slots")
      else ok (record journal {
        current_world_missions = journal.current_world_missions ++ (task ∷ []);
      })

  -- What `start_task` does with the task that there is of the mission: whether the mission is new.
  unfoldable pub start_with :
      ℕ → MissionType → Task → Option Task → MissionJournal → Outcome (Bool × MissionJournal)
  unfolding place_new change_first mission_of
  start_with mission_id mission_type task (some existing_task) journal =
      if not existing_task.completed && not existing_task.failed
      then err (build warning "Tried to start task while another is in progress")
      else ok (
        false,
        change_first (λ old. is_mission mission_id (mission_of old)) (λ old. task) journal,
      )
  start_with mission_id mission_type task none journal = do
    journal' ← place_new mission_type task journal
    ok (true, journal')

  unfoldable pub start_task : Task → MissionJournal → Outcome (Bool × MissionJournal)
  unfolding start_with find_mission get_mission_def mission_of get_task_iter
  start_task task journal = do
    mission_id ← mission_of task
    mission_def ← get_mission_def task
    existing ← find_mission mission_id (get_task_iter journal)
    start_with mission_id mission_def.mission_type task existing journal

  unfoldable pub get_active_task : MissionJournal → Outcome (Option Task)
  unfolding get_current_task_by_idx
  get_active_task journal = elim journal.active_mission_slot [
    | none ↦ ok none
    | some idx ↦ get_current_task_by_idx journal idx
  ]

  unfoldable pub get_active_task_id : MissionJournal → Outcome (Option ℕ)
  unfolding get_active_task
  get_active_task_id journal = do
    active_task ← get_active_task journal
    ok (elim active_task [ none ↦ none | some task ↦ some task.task_id ])

  unfoldable pub get_active_mission_id : MissionJournal → Outcome (Option ℕ)
  unfolding get_active_task mission_of
  get_active_mission_id journal = get_active_task journal >>= λ active_task. elim active_task [
    | none ↦ ok none
    | some task ↦ mission_of task >>= λ mission_id. ok (some mission_id)
  ]

  -- Whether the task in a slot is of a mission.
  unfoldable pub is_slot_of : ℕ → Option Task → Outcome Bool
  unfolding mission_of
  is_slot_of mission_id none = ok false
  is_slot_of mission_id (some task) = do m ← mission_of task; ok (m == mission_id)

  -- The first of `n` slots from `idx` whose task is of the mission.
  unfoldable pub find_slot : ℕ → MissionJournal → ℕ → ℕ → Outcome (Option ℕ)
  unfolding is_slot_of get_current_task_by_idx
  find_slot mission_id journal idx zero = ok none
  find_slot mission_id journal idx (suc n) =
      let rest = find_slot mission_id journal (idx + 1) n in
      get_current_task_by_idx journal idx >>= λ slot.
      is_slot_of mission_id slot >>= λ here. if here then ok (some idx) else rest

  unfoldable pub set_active_mission_id : ℕ → MissionJournal → Outcome (ℕ × MissionJournal)
  unfolding find_slot
  set_active_mission_id mission_id journal = do
    slot ← find_slot mission_id journal 0 6
    idx ← ok_or slot (build warning "No current task for mission ID")
    ok (idx, record journal { active_mission_slot = some idx })

  -- Whether a task that was completed, or failed, leads to this one.
  unfoldable pub any_leads : (TaskDefinition → Task → Bool) → List Task → Outcome Bool
  unfolding get_task_def
  any_leads leads [] = ok false
  any_leads leads (task ∷ tasks) =
      let rest = any_leads leads tasks in
      get_task_def task >>= λ task_def. if leads task_def task then ok true else rest

  unfoldable pub check_completed_previous_task : TaskDefinition → MissionJournal → Outcome Bool
  unfolding any_leads get_task_iter is_some_id
  check_completed_previous_task task_def journal = do
    mission_def ← unwrap_result (tdata.get_mission_definition task_def.mission_id)
    (if mission_def.first_task_id == task_def.task_id
        then ok true
        else any_leads (λ d task. is_some_id d.succ_task_id task_def.task_id && task.completed)
            (get_task_iter journal))

  unfoldable pub check_failed_previous_task : TaskDefinition → MissionJournal → Outcome Bool
  unfolding any_leads get_task_iter is_some_id
  check_failed_previous_task task_def journal =
      any_leads (λ d task. is_some_id d.fail_task_id task_def.task_id && task.failed)
        (get_task_iter journal)
