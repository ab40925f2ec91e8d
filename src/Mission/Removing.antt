-- ===== src/Mission/Removing.antt =====
-- src/mission.rs, `remove_task`: the journal that is left.
use rusty_fusion.Error.{Outcome, build, err, ok, warning}
use rusty_fusion.Mission.{
  MissionJournal, Task, hits, normal_mission, opt_list, remove_task, remove_world,
}
use rusty_fusion.Mission.Keeping.{
  AllApart, AllApart-fewer, AllOfType, IsJournal, has, has-append, keys, length-keys,
}
use rusty_fusion.Mission.Slots.{TableData}
use rusty_fusion.Prelude.{
  Bool-cases, List, Option, [], arith, false, inl, inr, length, none, refl, some, suc, sym, zero, ℕ,
  ◌++◌, ◌==◌, ◌∷◌, ◌≡◌, ◌≤◌,
}

AllApart-drop : (xs ys : List (Outcome ℕ)) → AllApart (xs ++ ys) → AllApart ys
unfolding AllApart
AllApart-drop [] ys apart = apart
AllApart-drop (x ∷ xs) ys (k, is, fresh, apart) = AllApart-drop xs ys apart

module _ (tdata : TableData) where
  -- What is left of a list has no more missions.
  abbrev IsLess : List Task → List Task → Type 0
  IsLess tasks others =
      ((m : ℕ) → has m (keys tdata tasks) ≡ false → has m (keys tdata others) ≡ false)
      × (AllApart (keys tdata tasks) → AllApart (keys tdata others))
      × (AllOfType tdata normal_mission (keys tdata tasks)
          → AllOfType tdata normal_mission (keys tdata others))
      × (length others ≤ length tasks)

  remove_world-IsLess :
      (task_id n : ℕ) (tasks : List Task) (task : Task) (others : List Task)
      → remove_world task_id n tasks ≡ some (task, others)
      → IsLess tasks others
  unfolding remove_world keys has AllApart AllOfType
  remove_world-IsLess task_id zero tasks task others e = absurd (cc e)
  remove_world-IsLess task_id (suc n) [] task others e = absurd (cc e)
  remove_world-IsLess task_id (suc n) (first ∷ tasks) task others e =
      elim (Bool-cases (first.task_id == task_id)) [
        | inl here ↦
            let same : tasks ≡ others = cc (rw here at e) in
            rw (sym same) (
              (λ m absent. ground (arith, absent)),
              (λ (_, _, _, apart). apart),
              (λ (_, ts). ts),
              omega arith,
            )
        | inr later ↦
            after (remove_world task_id n tasks) refl (rw later at e)
              (λ found_task rest r. remove_world-IsLess task_id n tasks found_task rest r)
      ]
    where
      after :
          (o : Option (Task × List Task))
          → remove_world task_id n tasks ≡ o
          → elim o as (λ x. Option (Task × List Task)) [
            | none ↦ none
            | some (found_task, rest) ↦ some (found_task, first ∷ rest)
          ]
            ≡ some (task, others)
          → ((found_task : Task) (rest : List Task)
              → remove_world task_id n tasks ≡ some (found_task, rest)
              → IsLess tasks rest)
          → IsLess (first ∷ tasks) others
      after none r e less = absurd (cc e)
      after (some (found_task, rest)) r e less =
          let (fewer, apart, typed, shorter) = less found_task rest r in
          let same : (first ∷ rest) ≡ others = cc e in
          rw (sym same) (
            (λ m absent. ground (arith, absent, fewer m)),
            (λ (k, is, fresh, ts). (k, is, fewer k fresh, apart ts)),
            (λ (t, ts). (t, typed ts)),
            omega (arith, shorter),
          )

  pub remove_task-IsJournal :
      (task_id : ℕ) (journal journal' : MissionJournal) (task : Option Task)
      → IsJournal tdata journal
      → remove_task task_id journal ≡ ok (task, journal')
      → IsJournal tdata journal'
  unfolding remove_task keys AllOfType has
  remove_task-IsJournal task_id journal journal' task (nanos, guides, worlds, few, apart) e =
      let n = keys tdata (opt_list journal.current_nano_mission) in
      let g = keys tdata (opt_list journal.current_guide_mission) in
      let w = keys tdata journal.current_world_missions in
      elim (Bool-cases (hits (λ t. t.task_id == task_id) journal.current_nano_mission)) [
        | inl at_nano ↦
            let same : journal' ≡ record journal { current_nano_mission = none } =
              cc (rw at_nano at e) in
            rw same (tt, guides, worlds, few, AllApart-drop n (g ++ w) apart)
        | inr not_nano ↦
            elim (Bool-cases (hits (λ t. t.task_id == task_id) journal.current_guide_mission)) [
              | inl at_guide ↦
                  let same : journal' ≡ record journal { current_guide_mission = none } =
                    cc (rw (not_nano, at_guide) at e) in
                  rw same (
                    nanos,
                    tt,
                    worlds,
                    few,
                    AllApart-fewer n (g ++ w) w
                        (λ m absent. ground (arith, has-append m g w, absent)) (AllApart-drop g w)
                        apart,
                  )
              | inr not_guide ↦
                  after (remove_world task_id 4 journal.current_world_missions) refl
                    (rw (not_nano, not_guide) at e)
            ]
      ]
    where
      after :
          (o : Option (Task × List Task))
          → remove_world task_id 4 journal.current_world_missions ≡ o
          → elim o as (λ x. Outcome (Option Task × MissionJournal)) [
            | none ↦ err (build warning "Tried to remove task that is not in progress")
            | some (found_task, tasks) ↦
                ok (some found_task, record journal { current_world_missions = tasks })
          ]
            ≡ ok (task, journal')
          → IsJournal tdata journal'
      after none r e = absurd (cc e)
      after (some (found_task, rest)) r e =
          let (fewer, apart_still, typed, shorter) =
            remove_world-IsLess task_id 4 journal.current_world_missions found_task rest r in
          let same : journal' ≡ record journal { current_world_missions = rest } = cc e in
          let n = keys tdata (opt_list journal.current_nano_mission) in
          let g = keys tdata (opt_list journal.current_guide_mission) in
          let w = keys tdata journal.current_world_missions in
          let w' = keys tdata rest in
          rw same (
            nanos,
            guides,
            typed worlds,
            omega (
              arith,
              few,
              shorter,
              length-keys tdata journal.current_world_missions,
              length-keys tdata rest,
            ),
            AllApart-fewer n (g ++ w) (g ++ w')
                (λ m absent. ground (arith, has-append m g w, has-append m g w', absent, fewer m))
                (AllApart-fewer g w w' fewer apart_still) apart,
          )
