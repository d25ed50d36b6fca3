-- ===== src/Manager/Worker.antt =====
-- worker/src/main.c of Section2/homeworks/H1: a process that logs two signals and ends at a third.
use ciic.Common.{ℕ, Bool, true, false, List, [], ◌∷◌, ◌++◌, if◌then◌else◌}
use ciic.Common.Text.{codes}
use ciic.Manager.{Signal, usr1, usr2, term}

-- `keep_running`, the log file, and whether `fopen` opens it.
pub record Worker : Type 0 where
  pub keep_running : Bool
  pub log : List ℕ
  pub log_opens : Bool

abbrev pub started : Bool → Worker
started log_opens = record { keep_running = true; log = []; log_opens = log_opens }

-- `Sigusr1_handler` and `Sigusr2_handler`: the file is opened to append.
abbrev pub log_line : Worker → List ℕ → Worker
log_line w text = record w { log = if w.log_opens then w.log ++ text else w.log }

unfoldable pub handle : Worker → Signal → Worker
handle w usr1 = log_line w (codes "SIGUSR1 received\n")
handle w usr2 = log_line w (codes "SIGUSR2 received\n")
handle w term = record w { keep_running = false }

-- A signal reaches the process in `pause`, which then returns, or between the test of the `while` and
-- `pause`, which then waits on.
pub data Delivery : Type 0 where
  in_pause : Signal → Delivery
  before_pause : Signal → Delivery

-- The `while` from `pause` on; the Boolean says that it has been left.
unfoldable pub loop : List Delivery → Worker → Worker × Bool
unfolding handle
loop [] w = (w, false)
loop (in_pause s ∷ ds) w =
    let rest = loop ds (handle w s) in
    if (handle w s).keep_running then rest else (handle w s, true)
loop (before_pause s ∷ ds) w = loop ds (handle w s)
