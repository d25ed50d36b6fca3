-- ===== src/Rehearsal.antt =====
-- Section2/class_examples/Lab2-L2-solution/src/main.c: a director and an actor who wait for each other's
-- signal by a `pause` each, without the flags of Section2/L2.
pub mod Cue
mod Tests
use ciic.Common.{◌≡◌, Bool, true, false}

-- Where the actor is: at `sigaction`, before `pause`, in it, behind it, behind its `kill`, or ended by a
-- signal without a handler.
pub data Actor : Type 0 where
  arriving : Actor
  ready : Actor
  pausing : Actor
  speaking : Actor
  left : Actor
  actor_killed : Actor

-- Where the director is: at `sigaction`, before its `kill`, before `pause`, in it, behind it, or ended.
pub data Director : Type 0 where
  opening : Director
  directing : Director
  cued : Director
  waiting : Director
  closing : Director
  director_killed : Director

-- Both, and whether SIGUSR1 is pending for the actor and SIGUSR2 for the director.
pub record Stage : Type 0 where
  pub actor : Actor
  pub director : Director
  pub usr1 : Bool
  pub usr2 : Bool

-- `ActorHandler` or the default action: only a `pause` that is waiting returns.
abbrev pub on_usr1 : Actor → Actor
on_usr1 arriving = actor_killed
on_usr1 pausing = speaking
on_usr1 a = a

-- `DirectorHandler` or the default action
abbrev pub on_usr2 : Director → Director
on_usr2 opening = director_killed
on_usr2 waiting = closing
on_usr2 d = d

pub data Step (s : Stage) : Stage → Type 0 where
  install_usr1 : s.actor ≡ arriving → Step s (record s { actor = ready })
  pause_actor : s.actor ≡ ready → Step s (record s { actor = pausing })
  speak : s.actor ≡ speaking → Step s (record s { actor = left; usr2 = true })
  usr1_comes : s.usr1 ≡ true → Step s (record s { actor = on_usr1 s.actor; usr1 = false })
  install_usr2 : s.director ≡ opening → Step s (record s { director = directing })
  cue : s.director ≡ directing → Step s (record s { director = cued; usr1 = true })
  pause_director : s.director ≡ cued → Step s (record s { director = waiting })
  usr2_comes : s.usr2 ≡ true → Step s (record s { director = on_usr2 s.director; usr2 = false })

-- Behind `fork`
abbrev pub init : Stage
init = record { actor = arriving; director = opening; usr1 = false; usr2 = false }

pub data Reach : Stage → Type 0 where
  start : Reach init
  later : {s t : Stage} → Reach s → Step s t → Reach t
