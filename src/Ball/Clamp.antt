-- ===== src/Ball/Clamp.antt =====
-- `clamp_ball` of the game puts a position inside the border of the window.
use ciic.Common.{◌-◌, ◌≤◌, arith}
use ciic.Common.Int.{pos, ◌≤ℤ◌}
use ciic.Ball.{Pos, Window, clamp_ball}

-- Between 1 and `max - 2`
abbrev pub Inside : Window → Pos → Type 0
Inside w p =
    (pos 1 ≤ℤ p.x) × (p.x ≤ℤ pos (w.max_cols - 2)) × (pos 1 ≤ℤ p.y) × (p.y ≤ℤ pos (w.max_rows - 2))

-- The window is large enough for the first positions.
abbrev pub Fits : Window → Type 0
Fits w = (3 ≤ w.max_rows) × (5 ≤ w.max_cols)

pub clamp_ball-Inside : (w : Window) (p : Pos) → Fits w → Inside w (clamp_ball w p)
unfolding clamp_ball
clamp_ball-Inside w p fits = ground arith
