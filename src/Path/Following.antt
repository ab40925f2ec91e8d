-- ===== src/Path/Following.antt =====
-- src/path.rs: an entity follows its path without leaving it.
use rusty_fusion.Chunk.Moves.{moved}
use rusty_fusion.Entity.Id.{Position}
use rusty_fusion.Error.{Outcome, ok, ◌>>=◌}
use rusty_fusion.Path.{
  PathPoint, PathState, Route, advance, arrive, done, moving, pending, tick, tick_in, waiting,
}
use rusty_fusion.Prelude.{
  Bool, Bool-cases, arith, false, get_elem?-lt, inl, inr, length, refl, suc, true, zero, ℕ, ◌%◌,
  ◌+◌, ◌-◌, ◌<◌, ◌==◌, ◌^◌, ◌≡◌, ◌⊎◌,
}

abbrev pub IsOnPath : Route → Type 0
IsOnPath path = path.idx < length path.points

advance-IsOnPath : (path : Route) → IsOnPath path → IsOnPath (advance path)
unfolding advance
advance-IsOnPath path on = ground (arith, on)

-- The state after a stop: what follows the point at which the entity stood.
abbrev pub IsNext : Route → Route → Type 0
IsNext path path' =
    (path'.points ≡ path.points)
    × (path'.cycle ≡ path.cycle)
    × (((suc path.idx < length path.points) × (path'.idx ≡ suc path.idx) × (path'.state ≡ moving))
        ⊎ (((suc path.idx ≡ length path.points)
              × (path.cycle ≡ true)
              × (path'.idx ≡ 0)
              × (path'.state ≡ moving))
            ⊎ ((suc path.idx ≡ length path.points)
                × (path.cycle ≡ false)
                × (path'.idx ≡ path.idx)
                × (path'.state ≡ done))))

advance-IsNext :
    (path : Route) → IsOnPath path → IsNext path (advance (record path { state = moving }))
unfolding advance
advance-IsNext path on = elim (Bool-cases (path.idx + 1 == length path.points)) [
  | inl last ↦ elim (Bool-cases path.cycle) [
    | inl c ↦
        rw last (rw c (refl, ground arith, inr (inl (ground (arith, last), refl, refl, refl))))
    | inr c ↦
        rw last (rw c (refl, ground arith, inr (inr (ground (arith, last), refl, refl, refl))))
  ]
  | inr more ↦ rw more (refl, refl, inl (ground (arith, more, on), ground arith, refl))
]

module _ (interpolate : Position → Position → ℕ → Position × Bool) where
  unfoldable pub run : ℕ → Route → Position → Outcome (Route × Position)
  run zero path pos = ok (path, pos)
  run (suc n) path pos = do (path', pos', moved) ← tick interpolate path pos; run n path' pos'

  arrive-IsOnPath :
      (path : Route) (point : PathPoint) (snap : Bool)
      → IsOnPath path
      → IsOnPath (arrive interpolate path point snap)
  unfolding arrive
  arrive-IsOnPath path point false on = on
  arrive-IsOnPath path point true on = ground (arith, on, advance-IsOnPath path on)

  tick_in-IsOnPath :
      (state : PathState) (path : Route) (pos : Position)
      → IsOnPath path
      → (path' : Route) × (pos' : Position) × (moved : Bool) × (tick_in interpolate state path pos
          ≡ ok (path', pos', moved))
        × IsOnPath path'
  unfolding tick_in
  tick_in-IsOnPath pending path pos on = (path, pos, false, refl, on)
  tick_in-IsOnPath done path pos on = (path, pos, false, refl, on)
  tick_in-IsOnPath moving path pos on =
      let (point, here) = get_elem?-lt path.points path.idx on in
      (
        arrive interpolate path point (interpolate pos point.pos point.speed).1,
        (interpolate pos point.pos point.speed).0,
        true,
        rw here refl,
        arrive-IsOnPath path point _ on,
      )
  tick_in-IsOnPath (waiting n) path pos on = elim (Bool-cases (n == 1)) [
    | inl last ↦ (
      advance (record path { state = moving }),
      pos,
      false,
      rw last refl,
      advance-IsOnPath (record path { state = moving }) on,
    )
    | inr more ↦
        (record path { state = waiting ((n + 2 ^ 64 - 1) % 2 ^ 64) }, pos, false, rw more refl, on)
  ]

  -- However a position moves towards a target, any number of ticks of a path whose index is in range
  -- end without a panic, with the index in range.
  pub run-IsOnPath :
      (n : ℕ) (path : Route) (pos : Position)
      → IsOnPath path
      → (path' : Route) × (pos' : Position) × (run n path pos ≡ ok (path', pos')) × IsOnPath path'
  unfolding run tick
  run-IsOnPath zero path pos on = (path, pos, refl, on)
  run-IsOnPath (suc n) path pos on =
      let (path1, pos1, moved, is, on1) = tick_in-IsOnPath path.state path pos on in
      let (path2, pos2, rest, on2) = run-IsOnPath n path1 pos1 on1 in (path2, pos2, rw is rest, on2)

  run-advance :
      (n : ℕ) (path : Route) (pos : Position)
      → suc n < 2 ^ 64
      → path.state ≡ waiting (suc n)
      → run (suc n) path pos ≡ ok (advance (record path { state = moving }), pos)
  unfolding run tick tick_in
  run-advance zero path pos bound at = rw at refl
  run-advance (suc n) path pos bound at =
      let less : (suc (suc n) + 2 ^ 64 - 1) % 2 ^ 64 ≡ suc n = omega arith in
      let more : (suc (suc n) == 1) ≡ false = ground arith in
      rw at (
        rw more (
          rw less (run-advance n (record path { state = waiting (suc n) }) pos (omega arith) refl)))

  -- A path with its index in range that waits for n ticks, at least one and fewer than 2^64, is after n
  -- ticks at the same position, with the same points. It moves to the next point if there is one; at the
  -- last point a cycle moves to the first point, and a path that is no cycle is done.
  pub run-waiting :
      (n : ℕ) (path : Route) (pos : Position)
      → suc n < 2 ^ 64
      → path.state ≡ waiting (suc n)
      → IsOnPath path
      → (path' : Route) × (run (suc n) path pos ≡ ok (path', pos)) × IsNext path path'
  run-waiting n path pos bound at on = (
    advance (record path { state = moving }),
    run-advance n path pos bound at,
    advance-IsNext path on,
  )
