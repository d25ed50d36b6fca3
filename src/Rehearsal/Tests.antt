-- ===== src/Rehearsal/Tests.antt =====
-- A rehearsal that never ends, and the theorem there.
use ciic.Common.{◌≡◌, ◌≢◌, refl, true, false}
use ciic.Rehearsal.{
  ready, waiting, closing, director_killed, Stage, install_usr1, usr1_comes, install_usr2, cue,
  pause_director, pause_actor, pausing, Reach, start, later, cued,
}
use ciic.Rehearsal.Cue.{has_spoken, Missed, Steps, none_yet, one_more, closing_spoken}

-- The cue comes between the actor's `sigaction` and its `pause`.
abbrev early : Stage
early = record { actor = ready; director = cued; usr1 = false; usr2 = false }

abbrev early_reach : Reach early
early_reach =
    later (later (later (later start (install_usr1 refl)) (install_usr2 refl)) (cue refl))
      (usr1_comes refl)

abbrev stuck : Stage
stuck = record { actor = pausing; director = waiting; usr1 = false; usr2 = false }

abbrev to_stuck : Steps early stuck
to_stuck = one_more (one_more none_yet (pause_actor refl)) (pause_director refl)

closing_spoken_example :
    (early.director ≢ director_killed)
    × (early.director ≡ closing → has_spoken early.actor ≡ true)
    × (Missed early → stuck.director ≢ closing)
closing_spoken_example = closing_spoken early_reach to_stuck
