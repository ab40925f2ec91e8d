-- ===== src/Mission/Keeping.antt =====
-- src/mission.rs: which missions a journal has tasks of, and how a journal is kept well formed.
use mathlib.Core.List.{append-nil}
use rusty_fusion.Error.{Outcome, ok, unwrap_result}
use rusty_fusion.Mission.{
  MissionDefinition, MissionJournal, MissionType, Task, change_first, change_list, changed,
  guide_mission, hits, nano_mission, normal_mission, opt_list,
}
use rusty_fusion.Mission.Slots.{TableData, is_mission, mission_of}
use rusty_fusion.Prelude.{
  Bool, Bool-cases, List, Option, [], ap, arith, false, inl, inr, length, none, refl, some, suc,
  true, ℕ, ◌++◌, ◌||◌, ◌∷◌, ◌≡◌, ◌≤◌,
}

-- Whether a list of missions has one.
unfoldable pub has : ℕ → List (Outcome ℕ) → Bool
has mission_id [] = false
has mission_id (o ∷ os) = is_mission mission_id o || has mission_id os

-- Every task has a mission, and no two the same.
unfoldable pub AllApart : List (Outcome ℕ) → Type 0
AllApart [] = Unit
AllApart (o ∷ os) = (m : ℕ) × (o ≡ ok m) × (has m os ≡ false) × AllApart os

pub has-append : (m : ℕ) (xs ys : List (Outcome ℕ)) → has m (xs ++ ys) ≡ (has m xs || has m ys)
unfolding has
has-append m [] ys = refl
has-append m (x ∷ xs) ys = ground (arith, has-append m xs ys)

pub AllApart-insert :
    (m : ℕ) (xs ys : List (Outcome ℕ))
    → AllApart (xs ++ ys)
    → has m (xs ++ ys) ≡ false
    → AllApart (xs ++ (ok m ∷ ys))
unfolding AllApart has
AllApart-insert m [] ys apart absent = (m, refl, absent, apart)
AllApart-insert m (x ∷ xs) ys (k, is, fresh, apart) absent = (
  k,
  is,
  ground (arith, has-append k xs (ok m ∷ ys), has-append k xs ys, fresh, absent, is),
  AllApart-insert m xs ys apart (ground (arith, absent)),
)

pub AllApart-push :
    (m : ℕ) (xs : List (Outcome ℕ)) → AllApart xs → has m xs ≡ false → AllApart (xs ++ (ok m ∷ []))
AllApart-push m xs apart absent =
    AllApart-insert m xs [] (rw (append-nil xs) apart) (rw (append-nil xs) absent)

-- A list with less in it.
pub AllApart-fewer :
    (xs ys zs : List (Outcome ℕ))
    → ((m : ℕ) → has m ys ≡ false → has m zs ≡ false)
    → (AllApart ys → AllApart zs)
    → AllApart (xs ++ ys)
    → AllApart (xs ++ zs)
unfolding AllApart
AllApart-fewer [] ys zs fewer keeps apart = keeps apart
AllApart-fewer (x ∷ xs) ys zs fewer keeps (k, is, fresh, apart) = (
  k,
  is,
  ground (arith, has-append k xs ys, has-append k xs zs, fresh, fewer k),
  AllApart-fewer xs ys zs fewer keeps apart,
)

module _ (tdata : TableData) where
  unfoldable pub keys : List Task → List (Outcome ℕ)
  keys [] = []
  keys (task ∷ tasks) = mission_of tdata task ∷ keys tasks

  -- The missions of the tasks are of one type.
  unfoldable pub AllOfType : MissionType → List (Outcome ℕ) → Type 0
  AllOfType mission_type [] = Unit
  AllOfType mission_type (o ∷ os) =
      ((m : ℕ) × (def : MissionDefinition) × (o ≡ ok m)
        × (unwrap_result (tdata.get_mission_definition m) ≡ ok def)
        × (def.mission_type ≡ mission_type))
      × AllOfType mission_type os

  -- The slots hold tasks of missions of their types, at most four of the world, and no two of one mission.
  abbrev pub IsKept : List (Outcome ℕ) → List (Outcome ℕ) → List (Outcome ℕ) → Type 0
  IsKept nanos guides worlds =
      AllOfType nano_mission nanos
      × AllOfType guide_mission guides
      × AllOfType normal_mission worlds
      × (length worlds ≤ 4)
      × AllApart (nanos ++ (guides ++ worlds))

  abbrev pub IsJournal : MissionJournal → Type 0
  IsJournal journal =
      IsKept (keys (opt_list journal.current_nano_mission))
        (keys (opt_list journal.current_guide_mission)) (keys journal.current_world_missions)

  pub keys-append : (xs ys : List Task) → keys (xs ++ ys) ≡ keys xs ++ keys ys
  unfolding keys
  keys-append [] ys = refl
  keys-append (x ∷ xs) ys = ap (λ os. mission_of tdata x ∷ os) (keys-append xs ys)

  pub length-keys : (xs : List Task) → length (keys xs) ≡ length xs
  unfolding keys
  length-keys [] = refl
  length-keys (x ∷ xs) = ap (λ n. suc n) (length-keys xs)

  keys-change_list :
      (p : Task → Bool) (f : Task → Task) (tasks : List Task)
      → ((task : Task) → p task ≡ true → mission_of tdata (f task) ≡ mission_of tdata task)
      → keys (change_list p f tasks) ≡ keys tasks
  unfolding keys change_list
  keys-change_list p f [] same = refl
  keys-change_list p f (task ∷ tasks) same = elim (Bool-cases (p task)) [
    | inl here ↦ rw (here, same task here) refl
    | inr later ↦ rw (later, keys-change_list p f tasks same) refl
  ]

  keys-changed :
      (p : Task → Bool) (f : Task → Task) (o : Option Task)
      → ((task : Task) → p task ≡ true → mission_of tdata (f task) ≡ mission_of tdata task)
      → hits p o ≡ true
      → keys (opt_list (changed f o)) ≡ keys (opt_list o)
  unfolding keys
  keys-changed p f none same here = refl
  keys-changed p f (some task) same here = rw (same task here) refl

  -- A change of the first task with a property, to one of the same mission.
  pub change_first-IsJournal :
      (p : Task → Bool) (f : Task → Task) (journal : MissionJournal)
      → ((task : Task) → p task ≡ true → mission_of tdata (f task) ≡ mission_of tdata task)
      → IsJournal journal
      → IsJournal (change_first p f journal)
  unfolding change_first
  change_first-IsJournal p f journal same kept =
      elim (Bool-cases (hits p journal.current_nano_mission)) [
        | inl at_nano ↦
            rw (at_nano, keys-changed p f journal.current_nano_mission same at_nano) kept
        | inr not_nano ↦ elim (Bool-cases (hits p journal.current_guide_mission)) [
          | inl at_guide ↦
              rw (not_nano, at_guide, keys-changed p f journal.current_guide_mission same at_guide)
                kept
          | inr not_guide ↦
              rw (not_nano, not_guide, keys-change_list p f journal.current_world_missions same)
                kept
        ]
      ]
