-- ===== src/Mission/Reach.antt =====
-- src/mission.rs: any sequence of operations on a journal.
use rusty_fusion.Error.{Outcome, build, err, ok, ok_or, panics, unwrap_result, warning}
use rusty_fusion.Error.Results.{>>=-ok}
use rusty_fusion.Mission.{
  MissionDefinition, MissionJournal, Task, any_task, change_first, change_task, changed,
  complete_task, default_journal, defeat_all, defeat_in, fail_task, get_task_iter,
  mark_enemy_defeated, opt_list, remove_task, repair_task,
}
use rusty_fusion.Mission.Keeping.{AllApart, AllOfType, IsJournal, change_first-IsJournal, keys}
use rusty_fusion.Mission.Removing.{remove_task-IsJournal}
use rusty_fusion.Mission.Slots.{
  TableData, find_mission, find_slot, get_mission_def, get_task_def, is_mission, mission_of,
  place_new, set_active_mission_id, start_task, start_with,
}
use rusty_fusion.Mission.Steps.{find_mission-has, place_new-IsJournal}
use rusty_fusion.Prelude.{
  Bool, Bool-cases, List, Option, String, [], arith, inl, inr, none, not, refl, some, true, ℕ, ◌&&◌,
  ◌==◌, ◌∷◌, ◌≡◌,
}

module _ (tdata : TableData) where
  -- A journal that is reached from the empty one. Operations that fail leave it as it was.
  pub data JournalReaches : MissionJournal → Type 0 where
    empty_journal : JournalReaches default_journal
    starts :
        {journal journal' : MissionJournal} {is_new : Bool} (task : Task)
        → JournalReaches journal
        → start_task tdata task journal ≡ ok (is_new, journal')
        → JournalReaches journal'
    completes :
        {journal journal' : MissionJournal} (task_id : ℕ)
        → JournalReaches journal
        → complete_task task_id journal ≡ ok journal'
        → JournalReaches journal'
    fails :
        {journal journal' : MissionJournal} (task_id : ℕ)
        → JournalReaches journal
        → fail_task task_id journal ≡ ok journal'
        → JournalReaches journal'
    repairs :
        {journal journal' : MissionJournal} (task_id : ℕ)
        → JournalReaches journal
        → repair_task task_id journal ≡ ok journal'
        → JournalReaches journal'
    removes :
        {journal journal' : MissionJournal} {task : Option Task} (task_id : ℕ)
        → JournalReaches journal
        → remove_task task_id journal ≡ ok (task, journal')
        → JournalReaches journal'
    activates :
        {journal journal' : MissionJournal} {idx : ℕ} (mission_id : ℕ)
        → JournalReaches journal
        → set_active_mission_id tdata mission_id journal ≡ ok (idx, journal')
        → JournalReaches journal'
    defeats :
        {journal : MissionJournal} (enemy_type : ℕ)
        → JournalReaches journal
        → JournalReaches (mark_enemy_defeated enemy_type journal).1

  -- A change that leaves the task's id leaves its mission.
  same_mission :
      (task task' : Task)
      → task'.task_id ≡ task.task_id
      → mission_of tdata task' ≡ mission_of tdata task
  unfolding mission_of get_task_def
  same_mission task task' e = rw e refl

  change_task-IsJournal :
      (message : String) (task_id : ℕ) (f : Task → Task) (journal journal' : MissionJournal)
      → ((task : Task) → (f task).task_id ≡ task.task_id)
      → IsJournal tdata journal
      → change_task message task_id f journal ≡ ok journal'
      → IsJournal tdata journal'
  unfolding change_task
  change_task-IsJournal message task_id f journal journal' ids kept e =
      elim (Bool-cases (any_task (λ task. task.task_id == task_id) (get_task_iter journal))) [
        | inl there ↦
            let same : journal' ≡ change_first (λ task. task.task_id == task_id) f journal =
              cc (rw there at e) in
            rw same (
              change_first-IsJournal tdata (λ task. task.task_id == task_id) f journal
                (λ task _. same_mission task (f task) (ids task)) kept)
        | inr missing ↦ absurd (cc (rw missing at e))
      ]

  keys-defeat_all :
      (enemy_type : ℕ) (tasks : List Task)
      → keys tdata (defeat_all enemy_type tasks) ≡ keys tdata tasks
  unfolding keys defeat_all defeat_in
  keys-defeat_all enemy_type [] = refl
  keys-defeat_all enemy_type (task ∷ tasks) =
      rw (same_mission task (defeat_in enemy_type task) refl, keys-defeat_all enemy_type tasks) refl

  keys-defeat_in :
      (enemy_type : ℕ) (o : Option Task)
      → keys tdata (opt_list (changed (defeat_in enemy_type) o)) ≡ keys tdata (opt_list o)
  unfolding keys defeat_in
  keys-defeat_in enemy_type none = refl
  keys-defeat_in enemy_type (some task) =
      rw (same_mission task (defeat_in enemy_type task) refl) refl

  mark_enemy_defeated-IsJournal :
      (enemy_type : ℕ) (journal : MissionJournal)
      → IsJournal tdata journal
      → IsJournal tdata (mark_enemy_defeated enemy_type journal).1
  unfolding mark_enemy_defeated
  mark_enemy_defeated-IsJournal enemy_type journal kept =
      rw
        (
          keys-defeat_in enemy_type journal.current_nano_mission,
          keys-defeat_in enemy_type journal.current_guide_mission,
          keys-defeat_all enemy_type journal.current_world_missions,
        )
        kept

  replaced :
      (task old : Task) (m : ℕ)
      → mission_of tdata task ≡ ok m
      → is_mission m (mission_of tdata old) ≡ true
      → mission_of tdata task ≡ mission_of tdata old
  replaced task old m is hit = go (mission_of tdata old) refl hit
    where
      go :
          (o : Outcome ℕ)
          → mission_of tdata old ≡ o
          → is_mission m o ≡ true
          → mission_of tdata task ≡ mission_of tdata old
      go (ok k) e h = ground (arith, is, e, h)
      go (err x) e h = absurd (cc h)
      go panics e h = absurd (cc h)

  start_with-IsJournal :
      (m : ℕ) (def : MissionDefinition) (task : Task) (existing : Option Task)
      (journal journal' : MissionJournal) (is_new : Bool)
      → IsJournal tdata journal
      → mission_of tdata task ≡ ok m
      → unwrap_result (tdata.get_mission_definition m) ≡ ok def
      → find_mission tdata m (get_task_iter journal) ≡ ok existing
      → start_with tdata m def.mission_type task existing journal ≡ ok (is_new, journal')
      → IsJournal tdata journal'
  unfolding start_with
  start_with-IsJournal m def task none journal journal' is_new kept is defined nothing e =
      let (j, placed, r) = >>=-ok (place_new tdata def.mission_type task journal) _ _ e in
      let same : journal' ≡ j = cc r in
      rw same (
        place_new-IsJournal tdata def.mission_type task journal j m def kept is defined refl
          (find_mission-has tdata m (get_task_iter journal) nothing) placed)
  start_with-IsJournal m def task (some old) journal journal' is_new kept is defined found_old e =
      elim (Bool-cases (not old.completed && not old.failed)) [
        | inl running ↦ absurd (cc (rw running at e))
        | inr over ↦
            let same : journal'
                ≡ change_first (λ t. is_mission m (mission_of tdata t)) (λ t. task) journal =
              cc (rw over at e) in
            rw same (
              change_first-IsJournal tdata (λ t. is_mission m (mission_of tdata t)) (λ t. task)
                journal (λ t hit. replaced task t m is hit) kept)
      ]

  start_task-IsJournal :
      (task : Task) (journal journal' : MissionJournal) (is_new : Bool)
      → IsJournal tdata journal
      → start_task tdata task journal ≡ ok (is_new, journal')
      → IsJournal tdata journal'
  unfolding start_task get_mission_def
  start_task-IsJournal task journal journal' is_new kept e =
      let (m, is, e1) = >>=-ok (mission_of tdata task) _ _ e in
      let (def, defined, e2) = >>=-ok (get_mission_def tdata task) _ _ e1 in
      let (existing, found_old, e3) =
        >>=-ok (find_mission tdata m (get_task_iter journal)) _ _ e2 in
      start_with-IsJournal m def task existing journal journal' is_new kept is (rw is at defined)
        found_old e3

  set_active-IsJournal :
      (mission_id idx : ℕ) (journal journal' : MissionJournal)
      → IsJournal tdata journal
      → set_active_mission_id tdata mission_id journal ≡ ok (idx, journal')
      → IsJournal tdata journal'
  unfolding set_active_mission_id
  set_active-IsJournal mission_id idx journal journal' kept e =
      let (slot, _, e1) = >>=-ok (find_slot tdata mission_id journal 0 6) _ _ e in
      let (i, _, e2) =
        >>=-ok (ok_or slot (build warning "No current task for mission ID")) _ _ e1 in
      let same : journal' ≡ record journal { active_mission_slot = some i } = cc e2 in rw same kept

  -- In every journal that is reached, the nano slot, the guide slot and the world slots hold tasks of
  -- missions of their types, at most four of the world, and no two tasks of one mission.
  pub JournalReaches-IsJournal :
      (journal : MissionJournal) → JournalReaches journal → IsJournal tdata journal
  unfolding keys AllOfType AllApart complete_task fail_task repair_task
  JournalReaches-IsJournal _ empty_journal = (tt, tt, tt, omega arith, tt)
  JournalReaches-IsJournal journal' (starts {journal} {is_new = is_new} task reached e) =
      start_task-IsJournal task journal journal' is_new (JournalReaches-IsJournal journal reached) e
  JournalReaches-IsJournal journal' (completes {journal} task_id reached e) =
      change_task-IsJournal _ task_id _ journal journal' (λ task. refl)
        (JournalReaches-IsJournal journal reached) e
  JournalReaches-IsJournal journal' (fails {journal} task_id reached e) =
      change_task-IsJournal _ task_id _ journal journal' (λ task. refl)
        (JournalReaches-IsJournal journal reached) e
  JournalReaches-IsJournal journal' (repairs {journal} task_id reached e) =
      change_task-IsJournal _ task_id _ journal journal' (λ task. refl)
        (JournalReaches-IsJournal journal reached) e
  JournalReaches-IsJournal journal' (removes {journal} {task = task} task_id reached e) =
      remove_task-IsJournal tdata task_id journal journal' task
        (JournalReaches-IsJournal journal reached) e
  JournalReaches-IsJournal journal' (activates {journal} {idx = idx} mission_id reached e) =
      set_active-IsJournal mission_id idx journal journal'
        (JournalReaches-IsJournal journal reached) e
  JournalReaches-IsJournal _ (defeats {journal} enemy_type reached) =
      mark_enemy_defeated-IsJournal enemy_type journal (JournalReaches-IsJournal journal reached)
