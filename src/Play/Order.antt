-- ===== src/Play/Order.antt =====
-- The order of the play of Section2/L2.
use ciic.Common.{◌≡◌, ◌≢◌, ◌⊎◌, Bool, true, false, arith}
use ciic.Play.{
  Actor, speaking, leaving, exited, killed, sigkilled, Director, opening, directing, closing,
  reaping, finished, shot, Play, is_over, exit, reap, on_usr1, on_usr2, on_kill, Step, install_usr1,
  pause_actor, speak, usr1_comes, install_usr2, send_usr1, pause_director, usr2_comes, close, Reach,
  start, later,
}

-- The director is behind its `kill(pid, SIGUSR1)`, and behind its `pause`.
abbrev pub sent : Director → Bool
sent opening = false
sent directing = false
sent _ = true

abbrev pub past_pause : Director → Bool
past_pause closing = true
past_pause reaping = true
past_pause finished = true
past_pause _ = false

abbrev pub spoken : Actor → Bool
spoken speaking = true
spoken leaving = true
spoken exited = true
spoken sigkilled = true
spoken _ = false

-- The actor is behind its `kill(getppid(), SIGUSR2)`.
abbrev pub told : Actor → Bool
told leaving = true
told exited = true
told sigkilled = true
told _ = false

pub record Inv (s : Play) : Type 0 where
  pub alive : s.director ≢ shot
  pub usr1_sent :
      s.usr1 ≡ true
      → (sent s.director ≡ true) × (s.actor_ready ≡ false) × (s.director_ready ≡ false)
  pub ready_sent : s.actor_ready ≡ true → sent s.director ≡ true
  pub spoken_ready : spoken s.actor ≡ true → s.actor_ready ≡ true
  pub usr2_sent : s.usr2 ≡ true → (told s.actor ≡ true) × (s.director_ready ≡ false)
  pub director_told : s.director_ready ≡ true → told s.actor ≡ true
  pub in_time : past_pause s.director ≡ true → s.director_ready ≡ true
  pub told_sent : told s.actor ≡ true → (s.usr2 ≡ true) ⊎ (s.director_ready ≡ true)
  pub arrives :
      sent s.director ≡ true → (s.usr1 ≡ true) ⊎ ((s.actor_ready ≡ true) ⊎ (s.actor ≡ killed))
  pub killed_early :
      s.actor ≡ killed → (s.actor_ready ≡ false) × (s.usr1 ≡ false) × (sent s.director ≡ true)
  pub sigkilled_late : s.actor ≡ sigkilled → (s.director ≡ reaping) ⊎ (s.director ≡ finished)
  pub over : s.director ≡ finished → is_over s.actor ≡ true

Step-Inv : {s t : Play} → Step s t → Inv s → Inv t
unfolding on_usr1 on_usr2 on_kill
Step-Inv {s} (install_usr1 at) inv = ground (arith, inv, at)
Step-Inv {s} (pause_actor at) inv = ground (arith, inv, at)
Step-Inv {s} (speak at) inv = ground (arith, inv, at)
Step-Inv {s} (exit at) inv = ground (arith, inv, at)
Step-Inv {s} (reap at ended) inv = ground (arith, inv, at, ended)
Step-Inv {s} (usr1_comes p) inv = ground (arith, inv, p)
Step-Inv {s} (install_usr2 at) inv = ground (arith, inv, at)
Step-Inv {s} (send_usr1 at) inv = ground (arith, inv, at)
Step-Inv {s} (pause_director at) inv = ground (arith, inv, at)
Step-Inv {s} (usr2_comes p) inv = ground (arith, inv, p)
Step-Inv {s} (close at) inv = ground (arith, inv, at)

pub Reach-Inv : {s : Play} → Reach s → Inv s
Reach-Inv start = ground arith
Reach-Inv (later reach step) = Step-Inv step (Reach-Inv reach)

-- In a reachable state no SIGUSR2 has ended the director. If it is behind its `pause`, then it has had
-- SIGUSR2, and the actor had SIGUSR1 and is behind its words and its own `kill`: at most its `exit` is
-- left. Once the director has finished, the actor has left of itself, or SIGKILL has ended it there.
pub closed_after_speech :
    {s : Play}
    → Reach s
    → (s.director ≢ shot)
      × (past_pause s.director ≡ true
          → (s.director_ready ≡ true) × (s.actor_ready ≡ true) × (told s.actor ≡ true))
      × (s.director ≡ finished → (s.actor ≡ exited) ⊎ (s.actor ≡ sigkilled))
closed_after_speech reach = ground (arith, Reach-Inv reach)
