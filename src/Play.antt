-- ===== src/Play.antt =====
-- Section2/L2: a director and its child, the actor, who tell each other by SIGUSR1 and SIGUSR2 when to
-- go on (src/main.c, src/functions.c).
pub mod Order
pub mod Ending
mod Tests
use ciic.Common.{ℕ, ◌≡◌, Bool, true, false, if◌then◌else◌}

-- Where the actor stands: before its `sigaction`, between that and `pause`, in `pause`, behind it,
-- between `kill(getppid(), SIGUSR2)` and `exit`, behind `exit`, and ended by SIGUSR1 or by SIGKILL.
pub data Actor : Type 0 where
  starting : Actor
  installed : Actor
  pausing : Actor
  speaking : Actor
  leaving : Actor
  exited : Actor
  killed : Actor
  sigkilled : Actor

-- Where the director stands: before its `sigaction`, before `kill(pid, SIGUSR1)`, between that and
-- `pause`, in `pause`, behind it, in `waitpid`, behind it, and ended by a signal.
pub data Director : Type 0 where
  opening : Director
  directing : Director
  has_sent : Director
  waiting : Director
  closing : Director
  reaping : Director
  finished : Director
  shot : Director

-- `usr1` and `usr2` are the signals that have been sent and have not come yet.
pub record Play : Type 0 where
  pub actor : Actor
  pub director : Director
  pub actor_ready : Bool
  pub director_ready : Bool
  pub usr1 : Bool
  pub usr2 : Bool

-- SIGUSR1 comes to the actor: without a handler it ends the process, `Handle_sigusr1` sets the flag, and
-- `pause` returns behind it.
pub on_usr1 : Actor → Play → Play
on_usr1 starting s = record s { actor = killed; usr1 = false }
on_usr1 installed s = record s { actor_ready = true; usr1 = false }
on_usr1 pausing s = record s { actor = speaking; actor_ready = true; usr1 = false }
on_usr1 speaking s = record s { actor_ready = true; usr1 = false }
on_usr1 leaving s = record s { actor_ready = true; usr1 = false }
on_usr1 exited s = record s { usr1 = false }
on_usr1 killed s = record s { usr1 = false }
on_usr1 sigkilled s = record s { usr1 = false }

-- SIGUSR2 comes to the director, with `Handle_sigusr2`.
pub on_usr2 : Director → Play → Play
on_usr2 opening s = record s { director = shot; usr2 = false }
on_usr2 directing s = record s { director_ready = true; usr2 = false }
on_usr2 has_sent s = record s { director_ready = true; usr2 = false }
on_usr2 waiting s = record s { director = closing; director_ready = true; usr2 = false }
on_usr2 closing s = record s { director_ready = true; usr2 = false }
on_usr2 reaping s = record s { director_ready = true; usr2 = false }
on_usr2 finished s = record s { usr2 = false }
on_usr2 shot s = record s { usr2 = false }

-- `kill(pid, SIGKILL)`: a process that has ended stays as it is.
pub on_kill : Actor → Actor
on_kill exited = exited
on_kill killed = killed
on_kill _ = sigkilled

-- The actor has ended, so that `waitpid` returns.
abbrev pub is_over : Actor → Bool
is_over exited = true
is_over killed = true
is_over sigkilled = true
is_over _ = false

pub data Step (s : Play) : Play → Type 0 where
  install_usr1 : s.actor ≡ starting → Step s (record s { actor = installed })
  pause_actor : s.actor ≡ installed → Step s (record s { actor = pausing })
  speak :
      s.actor ≡ speaking
      → Step s (record s { actor = leaving; usr2 = if s.actor_ready then true else s.usr2 })
  exit : s.actor ≡ leaving → Step s (record s { actor = exited })
  usr1_comes : s.usr1 ≡ true → Step s (on_usr1 s.actor s)
  install_usr2 : s.director ≡ opening → Step s (record s { director = directing })
  send_usr1 : s.director ≡ directing → Step s (record s { director = has_sent; usr1 = true })
  pause_director : s.director ≡ has_sent → Step s (record s { director = waiting })
  usr2_comes : s.usr2 ≡ true → Step s (on_usr2 s.director s)
  close : s.director ≡ closing → Step s (record s { director = reaping; actor = on_kill s.actor })
  reap : s.director ≡ reaping → is_over s.actor ≡ true → Step s (record s { director = finished })

-- Behind `fork`
abbrev pub init : Play
init = record {
  actor = starting;
  director = opening;
  actor_ready = false;
  director_ready = false;
  usr1 = false;
  usr2 = false;
}

pub data Reach : Play → Type 0 where
  start : Reach init
  later : {s t : Play} → Reach s → Step s t → Reach t
