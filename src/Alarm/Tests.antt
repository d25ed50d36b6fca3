-- ===== src/Alarm/Tests.antt =====
-- Runs of driver.c and main.c of the first directory below Bono/, and their theorems at concrete inputs.
use ciic.Common.{
  ℕ, ◌+◌, ◌-◌, ◌≤◌, ◌≡◌, ◌⊎◌, suc, refl, true, false, List, [], ◌∷◌, length, if◌then◌else◌,
}
use ciic.Common.Int.{ℤ, pos, ◌+ℤ◌, ◌-ℤ◌}
use ciic.Alarm.{Doubles, Timespec, first_alarm, alarm, alarm_handler}
use ciic.Alarm.Elapsed.{handle_all}
use ciic.Alarm.Driver.{main, main_refuses, is_empty, exits, sleeping, ended, in_child, in_parent}
use ciic.Alarm.Schedule.{
  System, init, Reach, start, later, sends, installs, handles, gone, pausing, lines_of,
  lines_counted, signal,
}

-- Whole numbers in place of doubles, with a nanosecond as the unit
abbrev units : Doubles
units = record { Double = ℤ; of_ℤ = λ z. z; add = ◌+ℤ◌; div = λ a b. a; milliard = pos 1000000000 }

abbrev at : ℕ → Timespec
at n = record { tv_sec = pos n; tv_nsec = pos 5 }

handle_three :
    (handle_all units
      (pos 14)
      (at 3 ∷ at 4 ∷ at 9 ∷ [])
      (record { first_call = true; last_time = at 0; lines = [] })).lines
    ≡ first_alarm ∷ alarm (pos 14) (pos 1) ∷ alarm (pos 14) (pos 5) ∷ []
unfolding handle_all ◌+ℤ◌ ◌-ℤ◌
handle_three = refl

-- A `strtol` that reads one digit
abbrev digit : List ℕ → ℤ × List ℕ
digit [] = (pos 0, [])
digit (c ∷ cs) = (pos (c - 48), cs)

abbrev three : List (List ℕ)
three = [] ∷ (51 ∷ []) ∷ []

main-three : main digit in_parent true (true ∷ true ∷ false ∷ []) three ≡ ended 3000 2 (pos 0)
unfolding main
main-three = refl

main_sleeping : main digit in_parent true (true ∷ []) three ≡ sleeping 3000 1
unfolding main
main_sleeping = refl

-- An interval of 4294968 milliseconds is one of 704 microseconds.
main_wraps : main (λ cs. (pos 4294968, [])) in_parent true [] three ≡ sleeping 704 0
unfolding main
main_wraps = refl

main_child : main digit in_child false [] three ≡ exits (pos 127)
unfolding main
main_child = refl

main_rest : main digit in_parent true [] ([] ∷ (51 ∷ 120 ∷ []) ∷ []) ≡ exits (pos 1)
unfolding main
main_rest = refl

-- A text behind the number
main_refuses_example :
    (main digit in_parent true [] ([] ∷ (51 ∷ 120 ∷ []) ∷ []) ≡ exits (pos 1))
    ⊎ (program : List ℕ) × (argument : List ℕ) × (n : ℕ) × ([] ∷ (51 ∷ 120 ∷ []) ∷ []
        ≡ program ∷ argument ∷ [])
      × (is_empty argument ≡ false)
      × (digit argument ≡ (pos (suc n), []))
main_refuses_example = main_refuses digit in_parent true [] ([] ∷ (51 ∷ 120 ∷ []) ∷ [])

abbrev heard : System units
heard = record (init units) {
  phase = pausing;
  sent = 1;
  plotter = alarm_handler units signal (at 4) (init units).plotter;
}

heard_reach : Reach units heard
heard_reach =
    later
      (later (later start (installs (init units) refl))
        (sends (record (init units) { phase = pausing }) refl))
      (handles (record (init units) { phase = pausing; pending = true; sent = 1 }) (at 4) refl refl)

lines_counted_example :
    (times : List Timespec) × (heard.plotter.lines ≡ lines_of units times)
    × (length times + (if heard.pending then 1 else 0) ≤ heard.sent)
    × (heard.phase ≡ gone → heard.plotter.lines ≡ [])
lines_counted_example = lines_counted units heard_reach
