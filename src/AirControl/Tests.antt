-- ===== src/AirControl/Tests.antt =====
-- Schedules of the controllers of P1/PP1/air_control_c/src/functions.c, and the theorems at states
-- that they reach.
use ciic.Common.{
  ℕ, suc, zero, ◌<◌, ◌≡◌, refl, true, Option, none, some, arith, inl, inr, List, [], ◌∷◌, ◌++◌, map,
  Option-cases, dec_lt, replicate,
}
use mathlib.Core.List.{foldl, flatten}
use ciic.Common.Int.{pos, negsuc, ◌+ℤ◌, ◌-ℤ◌}
use ciic.AirControl.{
  Tower, Runway, first, second, Pc, want_state, store_planes, done, Move, System, pick, interrupt,
  handled, Reach, start, later,
}
use ciic.AirControl.Invariant.{in_state, runway_of}
use ciic.AirControl.Safety.{exclusive}
use ciic.AirControl.Progress.{Next, lock_cases, next_move, no_deadlock}

-- What the scheduler may choose: a move of a controller, or a start or an end of the handler.
data Event : Type 0 where
  go : ℕ → Event
  enter : ℕ → Event
  return : ℕ → Event

record Trace (n : ℕ) : Type 0 where
  state : System
  reach : Reach n state

move_of : (i : ℕ) (t : Tower) (p : Pc) → Option (Next i t p)
unfolding next_move
move_of i t done = none
move_of i t (want_state r) = elim (lock_cases t.state_lock) [
  | inl free ↦ some (_, _, Move.lock_state free)
  | inr busy ↦ none
]
move_of i t p = some (next_move i t p (λ e. cc) (λ r e. cc))

happen : {n : ℕ} → Trace n → Event → Trace n
unfolding move_of dec_lt Option-cases
happen {n} tr (go i) = elim (dec_lt i n) [
  | no h ↦ tr
  | yes lt ↦ elim (Option-cases (tr.state.handler i)) [
    | inr busy ↦ tr
    | inl free ↦ elim (move_of i tr.state.tower (tr.state.pc i)) [
      | none ↦ tr
      | some (t, p, mv) ↦ record { state = _; reach = later tr.reach (pick i lt free mv) }
    ]
  ]
]
happen tr (enter i) = elim (Option-cases (tr.state.handler i)) [
  | inr busy ↦ tr
  | inl free ↦ record { state = _; reach = later tr.reach (interrupt i free) }
]
happen tr (return i) = elim (Option-cases (tr.state.handler i)) [
  | inl free ↦ tr
  | inr (v, e) ↦ record { state = _; reach = later tr.reach (handled i v e) }
]

run : (n : ℕ) → List Event → Trace n
unfolding happen ◌+ℤ◌ ◌-ℤ◌
run n = foldl happen (record { state = _; reach = start })

-- Five planes arrive; thread 9 is no controller.
abbrev arrive : List Event
arrive = enter 9 ∷ return 9 ∷ []

-- A takeoff without a signal, from `check_total` to `check_total`.
abbrev takeoff : ℕ → List Event
takeoff i = replicate 11 (go i)

-- Controllers 0 and 1 pass the test of `planes` together when one plane is left.
abbrev last_plane : List Event
last_plane =
    arrive
    ++ (replicate 44 (go 0)
        ++ (go 0 ∷ go 0 ∷ go 1 ∷ go 1 ∷ (replicate 10 (go 0) ++ replicate 10 (go 1))))

planes_negative : (run 2 last_plane).state.tower.planes ≡ negsuc 0
unfolding run
planes_negative = refl

-- Controllers 0 to 4 see 19 takeoffs in the loop's test, and each of them lets a plane take off.
abbrev nineteen : List Event
nineteen = flatten (replicate 5 arrive) ++ replicate 212 (go 0)

abbrev one_each : List Event
one_each =
    go 0
    ∷ go 1
    ∷ go 2
    ∷ go 3
    ∷ go 4
    ∷ flatten (map (λ i. replicate 11 (go i)) (0 ∷ 1 ∷ 2 ∷ 3 ∷ 4 ∷ []))

takeoffs_over_limit : (run 5 (nineteen ++ one_each)).state.tower.total_takeoffs ≡ 24
unfolding run flatten
takeoffs_over_limit = refl

-- The handler reads 5 planes, a plane takes off, and the handler stores 10 where 9 are left.
lost_takeoff :
    (run 1 (arrive ++ (replicate 5 (go 0) ++ (enter 9 ∷ go 0 ∷ return 9 ∷ [])))).state.tower.planes
    ≡ pos 10
unfolding run
lost_takeoff = refl

-- Controller 0 takes the first runway and the state, controller 1 the second runway, and waits.
abbrev both_runways : Trace 2
both_runways = run 2 (arrive ++ (replicate 5 (go 0) ++ replicate 5 (go 1)))

both_runways_pc :
    (both_runways.state.pc 0 ≡ store_planes first (pos 5))
    × (both_runways.state.pc 1 ≡ want_state second)
unfolding run
both_runways_pc = (refl, refl)

-- Controller 0 lets seven planes take off.
abbrev seven : Trace 1
seven = run 1 (arrive ++ (arrive ++ replicate 78 (go 0)))

-- Both of two controllers run to their end.
abbrev landed : Trace 2
landed = run 2 (flatten (replicate 4 arrive) ++ (replicate 300 (go 0) ++ replicate 4 (go 1)))

exclusive_example :
    ((r : Runway)
      → runway_of (both_runways.state.pc 0) ≡ some r
      → runway_of (both_runways.state.pc 1) ≡ some r
      → ◌≡◌ {A = ℕ} 0 1)
    × (in_state (both_runways.state.pc 0) ≡ true
        → in_state (both_runways.state.pc 1) ≡ true
        → ◌≡◌ {A = ℕ} 0 1)
exclusive_example = exclusive both_runways.reach 0 1

seven_tower : (seven.state.tower.usr1 ≡ 1) × (seven.state.tower.total_takeoffs ≡ 7)
unfolding run
seven_tower = (refl, refl)

landed_done : (i : ℕ) → i < 2 → landed.state.pc i ≡ done
unfolding run flatten
landed_done zero h = refl
landed_done (suc zero) h = refl
landed_done (suc (suc i)) h = absurd (omega arith)

no_deadlock_example : (j : ℕ) × (j < 2) × Next j both_runways.state.tower (both_runways.state.pc j)
unfolding run
no_deadlock_example = no_deadlock both_runways.reach 1 (omega arith) (λ e. cc)
