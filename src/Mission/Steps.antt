-- ===== src/Mission/Steps.antt =====
-- src/mission.rs: every operation keeps the journal, whichever order they come in.
use mathlib.Core.List.{append_assoc}
use rusty_fusion.Error.{Outcome, ok, unwrap_result}
use rusty_fusion.Error.Results.{>>=-ok}
use rusty_fusion.Mission.{
  MissionDefinition, MissionJournal, MissionType, Task, get_task_iter, guide_mission, nano_mission,
  normal_mission, opt_list, unknown_mission,
}
use rusty_fusion.Mission.Keeping.{
  AllApart, AllApart-insert, AllApart-push, AllOfType, IsJournal, has, keys, keys-append,
  length-keys,
}
use rusty_fusion.Mission.Slots.{TableData, find_mission, mission_of, place_new}
use rusty_fusion.Prelude.{
  Bool-cases, List, Option-cases, [], ap, arith, false, inl, inr, leb, length, length-append, none,
  refl, some, sym, ℕ, ◌++◌, ◌==◌, ◌∙◌, ◌∷◌, ◌≡◌,
}

module _ (tdata : TableData) where
  -- A search that finds nothing.
  pub find_mission-has :
      (m : ℕ) (tasks : List Task)
      → find_mission tdata m tasks ≡ ok none
      → has m (keys tdata tasks) ≡ false
  unfolding find_mission has keys
  find_mission-has m [] e = refl
  find_mission-has m (task ∷ tasks) e =
      let (k, is, rest) = >>=-ok (mission_of tdata task) _ _ e in
      elim (Bool-cases (k == m)) [
        | inl same ↦ absurd (cc (rw same at rest))
        | inr other ↦ rw is (rw other (find_mission-has m tasks (rw other at rest)))
      ]

  keys_of_new :
      (task : Task) (m : ℕ) → mission_of tdata task ≡ ok m → keys tdata (task ∷ []) ≡ ok m ∷ []
  unfolding keys
  keys_of_new task m is = rw is refl

  absent_from :
      (m : ℕ) (journal : MissionJournal)
      → has m (keys tdata (get_task_iter journal)) ≡ false
      → has m (
          keys tdata (opt_list journal.current_nano_mission)
          ++ (keys tdata (opt_list journal.current_guide_mission)
              ++ keys tdata journal.current_world_missions))
        ≡ false
  unfolding get_task_iter
  absent_from m journal fresh =
      rw
        (sym (
          keys-append tdata (opt_list journal.current_nano_mission)
            (opt_list journal.current_guide_mission ++ journal.current_world_missions)
          ∙ ap (λ os. keys tdata (opt_list journal.current_nano_mission) ++ os)
              (keys-append tdata (opt_list journal.current_guide_mission)
                journal.current_world_missions)))
        fresh

  AllOfType-append :
      (mission_type : MissionType) (xs ys : List (Outcome ℕ))
      → AllOfType tdata mission_type xs
      → AllOfType tdata mission_type ys
      → AllOfType tdata mission_type (xs ++ ys)
  unfolding AllOfType
  AllOfType-append mission_type [] ys hx hy = hy
  AllOfType-append mission_type (x ∷ xs) ys (h, hx) hy =
      (h, AllOfType-append mission_type xs ys hx hy)

  -- A new task in its slot.
  pub place_new-IsJournal :
      (mission_type : MissionType) (task : Task) (journal journal' : MissionJournal) (m : ℕ)
      (def : MissionDefinition)
      → IsJournal tdata journal
      → mission_of tdata task ≡ ok m
      → unwrap_result (tdata.get_mission_definition m) ≡ ok def
      → def.mission_type ≡ mission_type
      → has m (keys tdata (get_task_iter journal)) ≡ false
      → place_new tdata mission_type task journal ≡ ok journal'
      → IsJournal tdata journal'
  unfolding place_new get_task_iter keys AllOfType
  place_new-IsJournal unknown_mission task journal journal' m def kept is defined ty fresh e =
      absurd (cc e)
  place_new-IsJournal guide_mission task journal journal' m def (nanos, guides, worlds, few, apart)
        is defined ty fresh e =
      elim (Option-cases journal.current_guide_mission) [
        | inl free ↦
            let same : journal' ≡ record journal { current_guide_mission = some task } =
              cc (rw free at e) in
            let absent = absent_from m journal fresh in
            rw (same, is)
              (
                nanos,
                ((m, def, refl, defined, ty), tt),
                worlds,
                few,
                AllApart-insert m (keys tdata (opt_list journal.current_nano_mission))
                    (keys tdata journal.current_world_missions) (rw free at apart)
                    (rw free at absent),
              )
        | inr taken ↦ let (other, there) = taken in absurd (cc (rw there at e))
      ]
  place_new-IsJournal nano_mission task journal journal' m def (nanos, guides, worlds, few, apart)
        is defined ty fresh e =
      elim (Option-cases journal.current_nano_mission) [
        | inl free ↦
            let same : journal' ≡ record journal { current_nano_mission = some task } =
              cc (rw free at e) in
            let absent = absent_from m journal fresh in
            rw (same, is)
              (
                ((m, def, refl, defined, ty), tt),
                guides,
                worlds,
                few,
                AllApart-insert m []
                    (keys tdata (opt_list journal.current_guide_mission)
                      ++ keys tdata journal.current_world_missions)
                    (rw free at apart) (rw free at absent),
              )
        | inr taken ↦ let (other, there) = taken in absurd (cc (rw there at e))
      ]
  place_new-IsJournal normal_mission task journal journal' m def (nanos, guides, worlds, few, apart)
        is defined ty fresh e =
      elim (Bool-cases (leb 4 (length journal.current_world_missions))) [
        | inl full ↦ absurd (cc (rw full at e))
        | inr room ↦
            let w = keys tdata journal.current_world_missions in
            let same : journal' ≡ record journal {
              current_world_missions = journal.current_world_missions ++ (task ∷ []);
            } =
              cc (rw room at e) in
            let n = keys tdata (opt_list journal.current_nano_mission) in
            let g = keys tdata (opt_list journal.current_guide_mission) in
            rw
              (
                same,
                keys-append tdata journal.current_world_missions (task ∷ []),
                keys_of_new task m is,
              )
              (
                nanos,
                guides,
                AllOfType-append normal_mission w (ok m ∷ []) worlds
                    ((m, def, refl, defined, ty), tt),
                rw (length-append w (ok m ∷ []))
                    (ground (arith, room, length-keys tdata journal.current_world_missions)),
                at_end n g w (AllApart-push m (n ++ (g ++ w)) apart (absent_from m journal fresh)),
              )
      ]
    where
      at_end :
          (n g w : List (Outcome ℕ))
          → AllApart ((n ++ (g ++ w)) ++ (ok m ∷ []))
          → AllApart (n ++ (g ++ (w ++ (ok m ∷ []))))
      at_end n g w h =
          rw (sym (append_assoc g w (ok m ∷ []))) (rw (sym (append_assoc n (g ++ w) (ok m ∷ []))) h)
