-- ===== src/Tests/Missions.antt =====
-- src/mission.rs on a table of three missions: the tasks below 10 are of a nano mission, the others of two
-- normal ones.
use rusty_fusion.Error.{Outcome, ok}
use rusty_fusion.Mission.{
  MissionDefinition, MissionJournal, Task, TaskDefinition, complete_task, default_journal,
  get_task_iter, nano_mission, normal_mission, remove_task,
}
use rusty_fusion.Mission.Active.{
  collected, collected-get_task_iter, get_active_mission_id-set_active_mission_id,
}
use rusty_fusion.Mission.Keeping.{IsJournal}
use rusty_fusion.Mission.Reach.{
  JournalReaches-IsJournal, activates, completes, empty_journal, starts,
}
use rusty_fusion.Mission.Slots.{TableData, get_active_mission_id, set_active_mission_id, start_task}
use rusty_fusion.Prelude.{
  [], arith, false, if◌then◌else◌, leb, none, refl, some, true, ℕ, ◌+◌, ◌<◌, ◌==◌, ◌∷◌, ◌≡◌,
}

abbrev definition_of : ℕ → Outcome TaskDefinition
definition_of task_id = ok (record {
  task_id = task_id;
  mission_id = if leb 30 task_id then 3 else if leb 10 task_id then 1 else 2;
  obj_enemies = (7, 2) ∷ [];
  obj_time_limit = none;
  succ_task_id = some (task_id + 1);
  fail_task_id = none;
})

abbrev mission_table : ℕ → Outcome MissionDefinition
mission_table mission_id = ok (record {
  first_task_id = if mission_id == 1 then 10 else 5;
  mission_type = if mission_id == 2 then nano_mission else normal_mission;
})

abbrev table : TableData
table = record { get_task_definition = definition_of; get_mission_definition = mission_table }

abbrev new_task : ℕ → Task
new_task task_id = record {
  task_id = task_id;
  remaining_enemy_defeats = (7, 2) ∷ [];
  fail_time = none;
  escort_npc_id = none;
  completed = false;
  failed = false;
  pending_repair = false;
}

abbrev journal_one : MissionJournal
journal_one = record default_journal { current_world_missions = new_task 10 ∷ [] }

abbrev journal_two : MissionJournal
journal_two = record journal_one { current_nano_mission = some (new_task 5) }

abbrev journal_active : MissionJournal
journal_active = record journal_two { active_mission_slot = some 2 }

started : start_task table (new_task 10) default_journal ≡ ok (true, journal_one)
unfolding start_task
started = refl

started_nano : start_task table (new_task 5) journal_one ≡ ok (true, journal_two)
unfolding start_task
started_nano = refl

activated : set_active_mission_id table 1 journal_two ≡ ok (2, journal_active)
unfolding set_active_mission_id
activated = refl

-- The next task of the mission takes the place of a completed one.
completed_task :
    complete_task 10 journal_active
    ≡ ok (record journal_active {
      current_world_missions = record (new_task 10) { completed = true } ∷ [];
    })
unfolding complete_task
completed_task = refl

next_task :
    start_task table (new_task 11) (record journal_active {
      current_world_missions = record (new_task 10) { completed = true } ∷ [];
    })
    ≡ ok (false, record journal_active { current_world_missions = new_task 11 ∷ [] })
unfolding start_task
next_task = refl

JournalReaches-IsJournal_example :
    IsJournal table (record journal_active { current_world_missions = new_task 11 ∷ [] })
JournalReaches-IsJournal_example =
    JournalReaches-IsJournal table
      (record journal_active { current_world_missions = new_task 11 ∷ [] })
      (starts (new_task 11)
        (completes 10
          (activates 1
            (starts (new_task 5) (starts (new_task 10) empty_journal started) started_nano)
            activated)
          completed_task)
        next_task)

get_active_mission_id-set_active_mission_id_example :
    (2 < 6)
    × (get_active_mission_id table journal_active ≡ ok (some 1))
    × (get_task_iter journal_active ≡ get_task_iter journal_two)
get_active_mission_id-set_active_mission_id_example =
    get_active_mission_id-set_active_mission_id table 1 2 journal_two journal_active activated

collected-get_task_iter_example : collected journal_active 0 6 ≡ ok (get_task_iter journal_active)
collected-get_task_iter_example = collected-get_task_iter journal_active (omega arith)

-- A task that is removed leaves its slot the active one, and the mission that moves there becomes active.
abbrev journal_stale : MissionJournal
journal_stale = record default_journal {
  current_world_missions = new_task 10 ∷ new_task 30 ∷ [];
  active_mission_slot = some 2;
}

removed_task :
    remove_task 10 journal_stale
    ≡ ok (
      some (new_task 10),
      record default_journal {
        current_world_missions = new_task 30 ∷ [];
        active_mission_slot = some 2;
      },
    )
unfolding remove_task
removed_task = refl
