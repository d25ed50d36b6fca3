-- ===== src/Alarm/Schedule.antt =====
-- The first directory below Bono/: the signals from driver.c to the plotter, main.c, in any order of the two.
use ciic.Common.{
  ℕ, ◌+◌, ◌≤◌, ◌≡◌, refl, Bool, true, false, List, [], ◌∷◌, ◌++◌, arith, length, length-append, ◌⊎◌,
  inl, inr, ap, sym, ◌∙◌, if◌then◌else◌,
}
use ciic.Common.Int.{ℤ, pos}
use ciic.Alarm.Elapsed.{handle_all, between, first-between}
use ciic.Alarm.{Doubles, Timespec, Line, first_alarm, Plotter, alarm_handler}

-- The child has not yet called `sigaction`, or is in `pause`, or has ended. The driver never waits for
-- it, so that it is there for `kill` even then.
pub data Phase : Type 0 where
  starting : Phase
  pausing : Phase
  gone : Phase

-- `SIGALRM`
abbrev pub signal : ℤ
signal = pos 14

module _ (d : Doubles) where
  -- Both programs: whether the driver is in its loop, whether a SIGALRM is pending, which is so once at
  -- most, and the signals sent
  pub record System : Type 0 where
    pub driving : Bool
    pub phase : Phase
    pub pending : Bool
    pub plotter : Plotter d
    pub sent : ℕ

  -- The start: `last_time` is zero, as globals are.
  abbrev pub init : System
  init = record {
    driving = true;
    phase = starting;
    pending = false;
    plotter = record {
      first_call = true;
      last_time = record { tv_sec = pos 0; tv_nsec = pos 0 };
      lines = [];
    };
    sent = 0;
  }

  -- `kill` of the driver, which succeeds in every phase, or fails and ends its loop; a call of
  -- `sigaction`; the default action of
  -- a signal before it; an `execlp` or `sigaction` that fails; the handler, at a time `t`.
  pub data Step : System → System → Type 0 where
    sends :
        (s : System) → s.driving ≡ true → Step s (record s { pending = true; sent = s.sent + 1 })
    kill_fails : (s : System) → s.driving ≡ true → Step s (record s { driving = false })
    installs : (s : System) → s.phase ≡ starting → Step s (record s { phase = pausing })
    dies : (s : System) → s.phase ≡ starting → s.pending ≡ true → Step s (record s { phase = gone })
    fails : (s : System) → s.phase ≡ starting → Step s (record s { phase = gone })
    handles :
        (s : System) (t : Timespec)
        → s.phase ≡ pausing
        → s.pending ≡ true
        → Step s (record s { pending = false; plotter = alarm_handler d signal t s.plotter })

  pub data Reach : System → Type 0 where
    start : Reach init
    later : {s t : System} → Reach s → Step s t → Reach t

  -- The handler has run at some times, each for a signal of its own, and only in `pause`.
  record Inv (s : System) : Type 0 where
    times : List Timespec
    handled : s.plotter ≡ handle_all d signal times init.plotter
    counted : length times + (if s.pending then 1 else 0) ≤ s.sent
    silent : (s.phase ≡ pausing) ⊎ (times ≡ [])

  handle_all-snoc :
      (times : List Timespec) (t : Timespec) (p : Plotter d)
      → handle_all d signal (times ++ t ∷ []) p
        ≡ alarm_handler d signal t (handle_all d signal times p)
  unfolding handle_all
  handle_all-snoc [] t p = refl
  handle_all-snoc (x ∷ times) t p = handle_all-snoc times t (alarm_handler d signal x p)

  not_yet : {s : System} → s.phase ≡ starting → (inv : Inv s) → inv.times ≡ []
  not_yet p inv = ground (arith, p, inv.silent)

  Step-Inv : {s t : System} → Step s t → Inv s → Inv t
  Step-Inv (sends s on) inv = record {
    times = inv.times;
    handled = inv.handled;
    counted = ground (arith, inv.counted);
    silent = inv.silent;
  }
  Step-Inv (kill_fails s on) inv = record {
    times = inv.times;
    handled = inv.handled;
    counted = inv.counted;
    silent = inv.silent;
  }
  Step-Inv (installs s p) inv = record {
    times = inv.times;
    handled = inv.handled;
    counted = inv.counted;
    silent = inl refl;
  }
  Step-Inv (dies s p q) inv = record {
    times = inv.times;
    handled = inv.handled;
    counted = inv.counted;
    silent = inr (not_yet p inv);
  }
  Step-Inv (fails s p) inv = record {
    times = inv.times;
    handled = inv.handled;
    counted = inv.counted;
    silent = inr (not_yet p inv);
  }
  Step-Inv (handles s t p q) inv = record {
    times = inv.times ++ t ∷ [];
    handled =
        ap (alarm_handler d signal t) inv.handled ∙ sym (handle_all-snoc inv.times t init.plotter);
    counted = ground (arith, q, inv.counted, length-append inv.times (t ∷ []));
    silent = inl p;
  }

  Reach-Inv : {s : System} → Reach s → Inv s
  unfolding handle_all
  Reach-Inv start = record { times = []; handled = refl; counted = omega arith; silent = inr refl }
  Reach-Inv (later reach step) = Step-Inv step (Reach-Inv reach)

  unfoldable pub lines_of : List Timespec → List (Line d)
  lines_of [] = []
  lines_of (t ∷ times) = first_alarm ∷ between d signal t times

  lines_of_lem :
      (times : List Timespec) → (handle_all d signal times init.plotter).lines ≡ lines_of times
  unfolding handle_all lines_of
  lines_of_lem [] = refl
  lines_of_lem (t ∷ times) = first-between d signal t init.plotter.last_time times

  lines_of_none : {times : List Timespec} → times ≡ [] → lines_of times ≡ []
  unfolding lines_of
  lines_of_none h = ap lines_of h

  -- In a reachable state the plotter has printed the lines of some times, none for no time, and else
  -- the first alarm and the differences between neighbours; there are at most as many times as signals
  -- sent, one less while a signal is pending. A child that has ended has printed nothing.
  pub lines_counted :
      {s : System}
      → Reach s
      → (times : List Timespec) × (s.plotter.lines ≡ lines_of times)
        × (length times + (if s.pending then 1 else 0) ≤ s.sent)
        × (s.phase ≡ gone → s.plotter.lines ≡ [])
  lines_counted {s} reach =
      let inv = Reach-Inv reach in
      let lines : s.plotter.lines ≡ lines_of inv.times =
        ap (λ p. p.lines) inv.handled ∙ lines_of_lem inv.times in
      (inv.times, lines, inv.counted, λ h. lines ∙ lines_of_none (ground (arith, h, inv.silent)))
