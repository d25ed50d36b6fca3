-- ===== src/Alarm/Elapsed.antt =====
-- main.c of the first directory below Bono/: what `alarm_handler` prints for a sequence of signals.
use ciic.Common.{◌≡◌, refl, true, false, List, [], ◌∷◌, ◌++◌, arith, append_assoc, append-nil, sym}
use ciic.Common.Int.{ℤ}
use ciic.Alarm.{Doubles, Timespec, timespec_diff, Line, first_alarm, alarm, Plotter, alarm_handler}

module _ (d : Doubles) where
  -- The handler runs once at each of these times.
  unfoldable pub handle_all : ℤ → List Timespec → Plotter d → Plotter d
  unfolding alarm_handler
  handle_all signum [] p = p
  handle_all signum (t ∷ times) p = handle_all signum times (alarm_handler d signum t p)

  -- The time between every two neighbours
  unfoldable pub between : ℤ → Timespec → List Timespec → List (Line d)
  unfolding timespec_diff
  between signum previous [] = []
  between signum previous (t ∷ times) =
      alarm signum (timespec_diff d t previous) ∷ between signum t times

  handle_all-between :
      (signum : ℤ) (times : List Timespec) (p : Plotter d)
      → p.first_call ≡ false
      → (handle_all signum times p).lines ≡ p.lines ++ between signum p.last_time times
  unfolding handle_all between alarm_handler
  handle_all-between signum [] p later = sym (append-nil p.lines)
  handle_all-between signum (t ∷ times) p later = ground (
    arith,
    later,
    handle_all-between signum times (alarm_handler d signum t p) (ground (arith, later)),
    append_assoc p.lines (alarm signum (timespec_diff d t p.last_time) ∷ [])
        (between signum t times),
  )

  -- The program starts with `first_call` set, whatever `last_time` holds, and the handler runs at
  -- `t` and then at each of `times`. It prints that the first alarm was received, and then for each of
  -- `times` the difference to the one before: the uninitialised `last_time` is never used.
  pub first-between :
      (signum : ℤ) (t last : Timespec) (times : List Timespec)
      → (handle_all signum
          (t ∷ times)
          (record { first_call = true; last_time = last; lines = [] })).lines
        ≡ first_alarm ∷ between signum t times
  unfolding handle_all alarm_handler
  first-between signum t last times =
      handle_all-between signum times
        (record { first_call = false; last_time = t; lines = first_alarm ∷ [] }) refl
