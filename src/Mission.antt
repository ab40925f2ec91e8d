-- ===== src/Mission.antt =====
-- src/mission.rs: tasks and the mission journal. The definitions of tasks and missions are table data: a
-- task id has a mission, and a mission a type and a first task, or the source panics.
pub mod Slots
pub mod Keeping
pub mod Steps
pub mod Removing
pub mod Reach
pub mod Active
use rusty_fusion.Error.{Outcome, build, err, ok, panics, warning}
use rusty_fusion.Item.Stacks.{count}
use rusty_fusion.Prelude.{
  Bool, List, Option, String, [], false, get_elem?, if◌then◌else◌, leb, ltb, none, some, suc, true,
  zero, ℕ, ◌++◌, ◌+◌, ◌-◌, ◌==◌, ◌||◌, ◌∷◌,
}
use rusty_fusion.Util.Time.{SystemTime}

pub data MissionType : Type 0 where
  unknown_mission guide_mission nano_mission normal_mission : MissionType

-- The fields of the definitions that the modelled operations read.
pub record TaskDefinition : Type 0 where
  pub task_id : ℕ
  pub mission_id : ℕ
  pub obj_enemies : List (ℕ × ℕ)
  pub obj_time_limit : Option ℕ
  pub succ_task_id : Option ℕ
  pub fail_task_id : Option ℕ

-- A definition's own id is the key of its table, and is read off the task's definition.
pub record MissionDefinition : Type 0 where
  pub first_task_id : ℕ
  pub mission_type : MissionType

pub record Task : Type 0 where
  pub task_id : ℕ
  pub remaining_enemy_defeats : List (ℕ × ℕ)
  pub fail_time : Option SystemTime
  pub escort_npc_id : Option ℕ
  pub completed : Bool
  pub failed : Bool
  pub pending_repair : Bool

after_now : SystemTime → Option ℕ → Option SystemTime
after_now now none = none
after_now now (some d) = some (now + d)

unfoldable pub task_from : SystemTime → TaskDefinition → Task
unfolding after_now
task_from now task_def = record {
  task_id = task_def.task_id;
  remaining_enemy_defeats = task_def.obj_enemies;
  fail_time = after_now now task_def.obj_time_limit;
  escort_npc_id = none;
  completed = false;
  failed = false;
  pending_repair = false;
}

-- The flags of completed missions are a bit field, kept apart.
pub record MissionJournal : Type 0 where
  pub current_nano_mission : Option Task
  pub current_guide_mission : Option Task
  pub current_world_missions : List Task
  pub active_mission_slot : Option ℕ

abbrev pub default_journal : MissionJournal
default_journal = record {
  current_nano_mission = none;
  current_guide_mission = none;
  current_world_missions = [];
  active_mission_slot = none;
}

abbrev pub opt_list {ℓ} : {A : Type ℓ} → Option A → List A
opt_list none = []
opt_list (some a) = a ∷ []

unfoldable pub get_task_iter : MissionJournal → List Task
get_task_iter journal =
    opt_list journal.current_nano_mission
    ++ (opt_list journal.current_guide_mission ++ journal.current_world_missions)

unfoldable pub get_current_task_by_idx : MissionJournal → ℕ → Outcome (Option Task)
get_current_task_by_idx journal idx =
    if idx == 0
    then ok journal.current_nano_mission
    else if idx == 1
    then ok journal.current_guide_mission
    else if leb idx 5
    then ok (get_elem? journal.current_world_missions (idx - 2))
    else panics

-- The writes through `get_task_iter_mut().find(…)`.
abbrev pub hits : (Task → Bool) → Option Task → Bool
hits p none = false
hits p (some task) = p task

unfoldable pub any_task : (Task → Bool) → List Task → Bool
any_task p [] = false
any_task p (task ∷ tasks) = p task || any_task p tasks

abbrev pub changed : (Task → Task) → Option Task → Option Task
changed f none = none
changed f (some task) = some (f task)

unfoldable pub change_list : (Task → Bool) → (Task → Task) → List Task → List Task
change_list p f [] = []
change_list p f (task ∷ tasks) =
    let rest = change_list p f tasks in if p task then f task ∷ tasks else task ∷ rest

unfoldable pub change_first : (Task → Bool) → (Task → Task) → MissionJournal → MissionJournal
unfolding change_list
change_first p f journal =
    if hits p journal.current_nano_mission
    then record journal { current_nano_mission = changed f journal.current_nano_mission }
    else if hits p journal.current_guide_mission
    then record journal { current_guide_mission = changed f journal.current_guide_mission }
    else record journal { current_world_missions = change_list p f journal.current_world_missions }

unfoldable pub change_task : String → ℕ → (Task → Task) → MissionJournal → Outcome MissionJournal
unfolding change_first any_task get_task_iter
change_task message task_id f journal =
    if any_task (λ task. task.task_id == task_id) (get_task_iter journal)
    then ok (change_first (λ task. task.task_id == task_id) f journal)
    else err (build warning message)

unfoldable pub complete_task : ℕ → MissionJournal → Outcome MissionJournal
unfolding change_task
complete_task task_id =
    change_task "Tried to complete task that is not in progress" task_id
      (λ task. record task { completed = true })

unfoldable pub fail_task : ℕ → MissionJournal → Outcome MissionJournal
unfolding change_task
fail_task task_id =
    change_task "Tried to fail task that is not in progress" task_id
      (λ task. record task { failed = true })

unfoldable pub repair_task : ℕ → MissionJournal → Outcome MissionJournal
unfolding change_task
repair_task task_id =
    change_task "Tried to repair task that is not in progress" task_id
      (λ task. record task { pending_repair = true })

-- The loop over the first `n` world missions.
unfoldable pub remove_world : ℕ → ℕ → List Task → Option (Task × List Task)
remove_world task_id zero tasks = none
remove_world task_id (suc n) [] = none
remove_world task_id (suc n) (task ∷ tasks) =
    let rest = remove_world task_id n tasks in
    if task.task_id == task_id
    then some (task, tasks)
    else elim rest [ none ↦ none | some (found_task, others) ↦ some (found_task, task ∷ others) ]

unfoldable pub remove_task : ℕ → MissionJournal → Outcome (Option Task × MissionJournal)
unfolding remove_world
remove_task task_id journal =
    if hits (λ task. task.task_id == task_id) journal.current_nano_mission
    then ok (journal.current_nano_mission, record journal { current_nano_mission = none })
    else if hits (λ task. task.task_id == task_id) journal.current_guide_mission
    then ok (journal.current_guide_mission, record journal { current_guide_mission = none })
    else elim (remove_world task_id 4 journal.current_world_missions) [
      | none ↦ err (build warning "Tried to remove task that is not in progress")
      | some (task, tasks) ↦ ok (some task, record journal { current_world_missions = tasks })
    ]

-- One defeat less, where the enemy is counted: the counts, and whether it was found and changed.
unfoldable pub count_down : ℕ → List (ℕ × ℕ) → List (ℕ × ℕ) × Bool × Bool
count_down enemy_type [] = ([], false, false)
count_down enemy_type ((enemy, count) ∷ counts) =
    let (counts', is_found, updated) = count_down enemy_type counts in
    if enemy == enemy_type
    then ((enemy, count - 1) ∷ counts, true, ltb 0 count)
    else ((enemy, count) ∷ counts', is_found, updated)

unfoldable pub defeat_in : ℕ → Task → Task
unfolding count_down
defeat_in enemy_type task = record task {
  remaining_enemy_defeats = (count_down enemy_type task.remaining_enemy_defeats).0;
}

unfoldable pub defeat_all : ℕ → List Task → List Task
unfolding defeat_in
defeat_all enemy_type [] = []
defeat_all enemy_type (task ∷ tasks) = defeat_in enemy_type task ∷ defeat_all enemy_type tasks

-- The ids of the tasks that count the enemy.
unfoldable pub counting_tasks : ℕ → List Task → List ℕ
unfolding count_down
counting_tasks enemy_type [] = []
counting_tasks enemy_type (task ∷ tasks) =
    let rest = counting_tasks enemy_type tasks in
    if (count_down enemy_type task.remaining_enemy_defeats).1 then task.task_id ∷ rest else rest

unfoldable pub any_updated : ℕ → List Task → Bool
unfolding count_down
any_updated enemy_type [] = false
any_updated enemy_type (task ∷ tasks) =
    (count_down enemy_type task.remaining_enemy_defeats).2 || any_updated enemy_type tasks

unfoldable pub mark_enemy_defeated : ℕ → MissionJournal → (List ℕ × Bool) × MissionJournal
unfolding defeat_all counting_tasks any_updated get_task_iter
mark_enemy_defeated enemy_type journal = (
  (
    counting_tasks enemy_type (get_task_iter journal),
    any_updated enemy_type (get_task_iter journal),
  ),
  record journal {
    current_nano_mission = changed (defeat_in enemy_type) journal.current_nano_mission;
    current_guide_mission = changed (defeat_in enemy_type) journal.current_guide_mission;
    current_world_missions = defeat_all enemy_type journal.current_world_missions;
  },
)
