-- ===== src/Play/Tests.antt =====
-- Plays of Section2/L2, and the theorems at them.
use ciic.Common.{◌<◌, ◌≡◌, ◌≢◌, ◌⊎◌, refl, true}
use ciic.Play.{
  pausing, exited, sigkilled, shot, waiting, finished, Play, on_usr1, on_usr2, on_kill, Step,
  install_usr1, pause_actor, speak, usr1_comes, install_usr2, send_usr1, pause_director, usr2_comes,
  close, reap, Reach, start, later,
}
use ciic.Play.Order.{past_pause, told, closed_after_speech}
use ciic.Play.Ending.{Going, steps_left, play_ends}

record Trace : Type 0 where
  state : Play
  reach : Reach state

-- Each signal comes when the other process waits for it.
whole : Trace
unfolding on_usr1 on_usr2 on_kill
whole = record {
  state = _;
  reach =
      later
        (later
          (later
            (later
              (later
                (later
                  (later
                    (later (later (later start (install_usr1 refl)) (pause_actor refl))
                      (install_usr2 refl))
                    (send_usr1 refl))
                  (pause_director refl))
                (usr1_comes refl))
              (speak refl))
            (usr2_comes refl))
          (close refl))
        (reap refl refl);
}

whole_end : (whole.state.director ≡ finished) × (whole.state.actor ≡ sigkilled)
unfolding whole
whole_end = (refl, refl)

-- SIGUSR1 comes between the actor's `sigaction` and its `pause`.
early : Trace
unfolding on_usr1
early = record {
  state = _;
  reach =
      later
        (later
          (later
            (later (later (later start (install_usr1 refl)) (install_usr2 refl)) (send_usr1 refl))
            (usr1_comes refl))
          (pause_actor refl))
        (pause_director refl);
}

early_lost :
    (early.state.director ≡ waiting)
    × (early.state.actor ≡ pausing)
    × (early.state.actor_ready ≡ true)
unfolding early
early_lost = (refl, refl, refl)

closed_after_speech_example :
    (whole.state.director ≢ shot)
    × (past_pause whole.state.director ≡ true
        → (whole.state.director_ready ≡ true)
          × (whole.state.actor_ready ≡ true)
          × (told whole.state.actor ≡ true))
    × (whole.state.director ≡ finished
        → (whole.state.actor ≡ exited) ⊎ (whole.state.actor ≡ sigkilled))
closed_after_speech_example = closed_after_speech whole.reach

play_ends_example :
    Going early.state × ((t : Play) → Step early.state t → steps_left t < steps_left early.state)
play_ends_example = play_ends early.reach
