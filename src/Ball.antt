-- ===== src/Ball.antt =====
-- The game of Bono (main.c of its second directory): a ball that the keyboard moves and an X that
-- moves at random, with a thread for each, one that looks for a collision, and main, which draws.
pub mod Threads
pub mod Clamp
pub mod Invariant
mod Turns
pub mod Game
mod Tests
use ciic.Common.{
  ℕ, ◌+◌, ◌-◌, ◌*◌, ◌/◌, ◌%◌, ◌≡◌, Bool, true, false, Option, none, some, List, [], ◌∷◌, ◌++◌,
  if◌then◌else◌, ◌==◌, ◌&&◌,
}
use ciic.Common.Int.{eq_ℤ, ℤ, pos, negsuc, pos_part, neg_part, ◌+ℤ◌, ◌-ℤ◌, ltb_ℤ}

-- `Pos`
pub record Pos : Type 0 where
  pub x : ℤ
  pub y : ℤ

-- `getmaxyx`
pub record Window : Type 0 where
  pub max_rows : ℕ
  pub max_cols : ℕ

abbrev pub clamp_low : ℤ → ℤ
clamp_low v = if ltb_ℤ v (pos 1) then pos 1 else v

abbrev pub clamp_high : ℕ → ℤ → ℤ
clamp_high max v = if ltb_ℤ (pos max -ℤ pos 2) v then pos max -ℤ pos 2 else v

pub clamp_ball : Window → Pos → Pos
unfolding ◌-ℤ◌
clamp_ball w p = record {
  x = clamp_high w.max_cols (clamp_low p.x);
  y = clamp_high w.max_rows (clamp_low p.y);
}

-- The additions of `random_step`, where the numbers are what `rand()` returns. Its tests behind them
-- are those of `clamp_ball`.
pub random_move : ℕ → ℕ → Pos → Pos
unfolding ◌+ℤ◌ ◌-ℤ◌
random_move rand1 rand2 p = record {
  x = p.x +ℤ (pos (rand1 % 3) -ℤ pos 1);
  y = p.y +ℤ (pos (rand2 % 3) -ℤ pos 1);
}

-- What `getch` returns other than ERR.
pub data Key : Type 0 where
  left : Key
  right : Key
  up : Key
  down : Key
  quit : Key
  other : Key

-- The globals.
pub record Globals : Type 0 where
  pub ball_pos : Pos
  pub x_pos : Pos
  pub pos_mtx : Option ℕ
  pub running : Bool
  pub won : Bool

-- The `switch` of `keyboard_thread`
pub press : Key → Globals → Globals
unfolding ◌+ℤ◌ ◌-ℤ◌
press left g = record g { ball_pos = record { x = g.ball_pos.x -ℤ pos 1; y = g.ball_pos.y } }
press right g = record g { ball_pos = record { x = g.ball_pos.x +ℤ pos 1; y = g.ball_pos.y } }
press up g = record g { ball_pos = record { x = g.ball_pos.x; y = g.ball_pos.y -ℤ pos 1 } }
press down g = record g { ball_pos = record { x = g.ball_pos.x; y = g.ball_pos.y +ℤ pos 1 } }
press quit g = record g { running = false }
press other g = g

-- The test of `collision_thread`
pub collides : Globals → Bool
collides g = eq_ℤ g.ball_pos.x g.x_pos.x && eq_ℤ g.ball_pos.y g.x_pos.y
