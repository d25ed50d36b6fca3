-- ===== src/Ball/Tests.antt =====
-- A game of Bono (main.c of its second directory) that is won at once, and the theorems at it.
use ciic.Common.{◌≡◌, refl, none, arith, All}
use ciic.Common.Int.{pos, negsuc}
use ciic.Ball.{Window, right, clamp_ball, random_move, press, collides}
use ciic.Ball.Threads.{
  System, keyboard_step, collision_step, main_go_on, main_stop, main_lock, main_copy, main_unlock,
  main_draw, main_show, key_go_on, key, key_lock, switch, clamp, key_unlock, hit_go_on, hit_lock,
  hit, end_game, hit_unlock, Reach, start, later,
}
use ciic.Ball.Clamp.{Inside}
use ciic.Ball.Invariant.{Drawn}
use ciic.Ball.Game.{frames-Inside}

-- Five columns: the ball starts at column 1, X at column 3.
abbrev small : Window
small = record { max_rows = 3; max_cols = 5 }

clamp_ball_corner :
    (clamp_ball small (record { x = negsuc 4; y = pos 9 }) ≡ record { x = pos 1; y = pos 1 })
    × (random_move 2 0 (record { x = pos 2; y = pos 1 }) ≡ record { x = pos 3; y = pos 0 })
unfolding clamp_ball random_move
clamp_ball_corner = (refl, refl)

record Trace : Type 0 where
  state : System
  reach : Reach small state

-- main draws, and then the right arrow has been pressed twice; the second time the clamp is due.
abbrev moved : Trace
unfolding press clamp_ball
moved = record {
  state = _;
  reach =
      later
        (later
          (later
            (later
              (later
                (later
                  (later
                    (later
                      (later
                        (later
                          (later
                            (later
                              (later
                                (later
                                  (later
                                    (later (later start (main_go_on refl refl))
                                      (main_lock refl refl))
                                    (main_copy refl))
                                  (main_unlock refl))
                                (main_draw refl))
                              (keyboard_step (key_go_on refl)))
                            (keyboard_step (key right)))
                          (keyboard_step (key_lock refl)))
                        (keyboard_step switch))
                      (keyboard_step clamp))
                    (keyboard_step key_unlock))
                  (keyboard_step (key_go_on refl)))
                (keyboard_step (key right)))
              (keyboard_step (key_lock refl)))
            (keyboard_step switch))
          (keyboard_step clamp))
        (keyboard_step key_unlock);
}

moved_state : moved.state.globals.ball_pos ≡ record { x = pos 3; y = pos 1 }
unfolding press clamp_ball moved
moved_state = refl

-- The ball has met X, and main has shown its message.
abbrev won : Trace
unfolding press clamp_ball moved collides
won = record {
  state = _;
  reach =
      later
        (later
          (later
            (later
              (later
                (later (later moved.reach (collision_step (hit_go_on refl)))
                  (collision_step (hit_lock refl)))
                (collision_step (hit refl)))
              (collision_step end_game))
            (collision_step hit_unlock))
          (main_stop refl refl))
        (main_show refl);
}

frames-Inside_example :
    All (Drawn small) moved.state.frames
    × (moved.state.globals.pos_mtx ≡ none
        → Inside small moved.state.globals.ball_pos × Inside small moved.state.globals.x_pos)
frames-Inside_example = frames-Inside (omega arith) moved.reach
