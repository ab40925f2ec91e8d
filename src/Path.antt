-- ===== src/Path.antt =====
-- src/path.rs: the path that an entity follows. How a position moves towards a target is floating-point
-- code and a parameter, which returns the new position and whether it is the target.
pub mod Following
use rusty_fusion.Entity.Id.{Position}
use rusty_fusion.Error.{Outcome, ok, unwrap, ◌>>=◌, ◌>>◌}
use rusty_fusion.Prelude.{
  Bool, List, [], false, get_elem?, if◌then◌else◌, length, ltb, true, ℕ, ◌%◌, ◌*◌, ◌+◌, ◌-◌, ◌==◌,
  ◌^◌, ◌∷◌,
}

pub record PathPoint : Type 0 where
  pub pos : Position
  pub speed : ℕ
  pub stop_ticks : ℕ

pub data PathState : Type 0 where
  pending moving done : PathState
  waiting : ℕ → PathState

pub record Route : Type 0 where
  pub points : List PathPoint
  pub cycle : Bool
  pub idx : ℕ
  pub state : PathState

abbrev pub shard_ticks_per_second : ℕ
shard_ticks_per_second = 8

unfoldable pub new_path : List PathPoint → Bool → Route
new_path points cycle = record { points = points; cycle = cycle; idx = 0; state = pending }

unfoldable pub new_single : Position → ℕ → Route
new_single target_pos speed = record {
  points = record { pos = target_pos; speed = speed; stop_ticks = 0 } ∷ [];
  cycle = false;
  idx = 0;
  state = pending;
}

-- An index out of range panics.
unfoldable pub get_target_pos : Route → Outcome Position
get_target_pos path = do point ← unwrap (get_elem? path.points path.idx); ok point.pos

unfoldable pub get_speed : Route → Outcome ℕ
get_speed path = elim path.state [
  | moving ↦ unwrap (get_elem? path.points path.idx) >>= λ point. ok point.speed
  | pending ↦ ok 0
  | done ↦ ok 0
  | waiting ticks_left ↦ ok 0
]

abbrev pub is_done : Route → Bool
is_done path = elim path.state [
  | done ↦ true
  | pending ↦ false
  | moving ↦ false
  | waiting n ↦ false
]

unfoldable pub advance : Route → Route
advance path =
    if path.idx + 1 == length path.points
    then (if path.cycle then record path { idx = 0 } else record path { state = done })
    else record path { idx = path.idx + 1 }

unfoldable pub start_path : Route → Route
start_path path = record path { state = moving }

module _ (interpolate : Position → Position → ℕ → Position × Bool) where
  unfoldable pub arrive : Route → PathPoint → Bool → Route
  unfolding advance
  arrive path target_point false = path
  arrive path target_point true =
      if ltb 0 target_point.stop_ticks
      then record path {
        state = waiting (target_point.stop_ticks * shard_ticks_per_second % 2 ^ 64);
      }
      else advance path

  -- The path, the position, and whether the entity moved.
  unfoldable pub tick_in : PathState → Route → Position → Outcome (Route × Position × Bool)
  unfolding arrive
  tick_in pending path pos = ok (path, pos, false)
  tick_in done path pos = ok (path, pos, false)
  tick_in moving path pos = do
    target_point ← unwrap (get_elem? path.points path.idx)
    (new_pos, snap) ← ok (interpolate pos target_point.pos target_point.speed)
    ok (arrive path target_point snap, new_pos, true)
  tick_in (waiting ticks_left) path pos =
      if ticks_left == 1
      then ok (advance (record path { state = moving }), pos, false)
      else ok (record path { state = waiting ((ticks_left + 2 ^ 64 - 1) % 2 ^ 64) }, pos, false)

  unfoldable pub tick : Route → Position → Outcome (Route × Position × Bool)
  unfolding tick_in
  tick path pos = tick_in path.state path pos
