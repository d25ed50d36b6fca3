-- ===== src/Play/Ending.antt =====
-- How the play of Section2/L2 can end.
use ciic.Common.{ℕ, ◌+◌, ◌<◌, ◌≡◌, ◌⊎◌, inl, inr, refl, Bool, true, false, arith}
use ciic.Play.{
  Actor, starting, installed, pausing, speaking, leaving, exited, killed, sigkilled, Director,
  opening, directing, has_sent, waiting, closing, reaping, finished, shot, Play, on_usr1, on_usr2,
  on_kill, Step, install_usr1, pause_actor, speak, usr1_comes, install_usr2, send_usr1,
  pause_director, usr2_comes, close, exit, reap, Reach,
}
use ciic.Play.Order.{Inv, Reach-Inv}

-- A signal came too early: SIGUSR1 before the actor's `sigaction` or between that and its `pause`, or
-- SIGUSR2 before the director's `pause`.
abbrev pub Lost : Play → Type 0
Lost s =
    (s.director ≡ waiting)
    × (s.usr1 ≡ false)
    × (s.usr2 ≡ false)
    × ((s.actor ≡ killed)
        ⊎ (((s.actor ≡ pausing) × (s.actor_ready ≡ true))
            ⊎ ((s.actor ≡ exited) × (s.director_ready ≡ true))))

abbrev pub Ended : Play → Type 0
Ended s = (s.director ≡ finished) × ((s.actor ≡ exited) ⊎ (s.actor ≡ sigkilled))

-- No step is possible.
abbrev pub Stuck : Play → Type 0
Stuck s = (t : Play) → Step s t → ⊥

-- A state has ended, has a step, or has lost a signal and is stuck.
abbrev pub Going : Play → Type 0
Going s = Ended s ⊎ (((t : Play) × Step s t) ⊎ (Lost s × Stuck s))

Lost-Stuck : {s : Play} → Lost s → Stuck s
Lost-Stuck lost t (install_usr1 at) = absurd (ground (arith, lost, at))
Lost-Stuck lost t (pause_actor at) = absurd (ground (arith, lost, at))
Lost-Stuck lost t (speak at) = absurd (ground (arith, lost, at))
Lost-Stuck lost t (exit at) = absurd (ground (arith, lost, at))
Lost-Stuck lost t (usr1_comes p) = absurd (ground (arith, lost, p))
Lost-Stuck lost t (install_usr2 at) = absurd (ground (arith, lost, at))
Lost-Stuck lost t (send_usr1 at) = absurd (ground (arith, lost, at))
Lost-Stuck lost t (pause_director at) = absurd (ground (arith, lost, at))
Lost-Stuck lost t (usr2_comes p) = absurd (ground (arith, lost, p))
Lost-Stuck lost t (close at) = absurd (ground (arith, lost, at))
Lost-Stuck lost t (reap at ended) = absurd (ground (arith, lost, at))

Lost-Going : {s : Play} → Lost s → Going s
Lost-Going lost = inr (inr (lost, Lost-Stuck lost))

reaping-Going : {s : Play} (a : Actor) → s.director ≡ reaping → s.actor ≡ a → Inv s → Going s
reaping-Going leaving at here inv = inr (inl (_, exit here))
reaping-Going exited at here inv = inr (inl (_, reap at (ground (arith, here))))
reaping-Going killed at here inv = inr (inl (_, reap at (ground (arith, here))))
reaping-Going sigkilled at here inv = inr (inl (_, reap at (ground (arith, here))))
reaping-Going starting at here inv = absurd (ground (arith, at, here, inv))
reaping-Going installed at here inv = absurd (ground (arith, at, here, inv))
reaping-Going pausing at here inv = absurd (ground (arith, at, here, inv))
reaping-Going speaking at here inv = absurd (ground (arith, at, here, inv))

waiting-Going :
    {s : Play} (a : Actor)
    → s.director ≡ waiting
    → s.actor ≡ a
    → s.usr1 ≡ false
    → s.usr2 ≡ false
    → Inv s
    → Going s
waiting-Going starting at here u1 u2 inv = inr (inl (_, install_usr1 here))
waiting-Going installed at here u1 u2 inv = inr (inl (_, pause_actor here))
waiting-Going pausing at here u1 u2 inv = Lost-Going (ground (arith, at, here, u1, u2, inv))
waiting-Going speaking at here u1 u2 inv = inr (inl (_, speak here))
waiting-Going leaving at here u1 u2 inv = inr (inl (_, exit here))
waiting-Going exited at here u1 u2 inv = Lost-Going (ground (arith, at, here, u1, u2, inv))
waiting-Going killed at here u1 u2 inv = Lost-Going (at, u1, u2, inl here)
waiting-Going sigkilled at here u1 u2 inv = absurd (ground (arith, at, here, inv))

director-Going :
    {s : Play} (d : Director) (u1 u2 : Bool)
    → s.director ≡ d
    → s.usr1 ≡ u1
    → s.usr2 ≡ u2
    → Inv s
    → Going s
director-Going opening u1 u2 at p q inv = inr (inl (_, install_usr2 at))
director-Going directing u1 u2 at p q inv = inr (inl (_, send_usr1 at))
director-Going has_sent u1 u2 at p q inv = inr (inl (_, pause_director at))
director-Going waiting true u2 at p q inv = inr (inl (_, usr1_comes p))
director-Going waiting false true at p q inv = inr (inl (_, usr2_comes q))
director-Going {s} waiting false false at p q inv = waiting-Going s.actor at refl p q inv
director-Going closing u1 u2 at p q inv = inr (inl (_, close at))
director-Going {s} reaping u1 u2 at p q inv = reaping-Going s.actor at refl inv
director-Going {s} finished u1 u2 at p q inv = inl (ground (arith, at, inv))
director-Going shot u1 u2 at p q inv = absurd (inv.alive at)

-- What is left to do
abbrev actor_left : Actor → ℕ
actor_left starting = 5
actor_left installed = 4
actor_left pausing = 3
actor_left speaking = 3
actor_left leaving = 1
actor_left sigkilled = 0
actor_left exited = 0
actor_left killed = 0

abbrev director_left : Director → ℕ
director_left opening = 7
director_left directing = 6
director_left has_sent = 4
director_left waiting = 3
director_left closing = 2
director_left reaping = 1
director_left finished = 0
director_left shot = 0

abbrev signal_left : Bool → ℕ
signal_left true = 1
signal_left false = 0

unfoldable pub steps_left : Play → ℕ
steps_left s =
    actor_left s.actor + director_left s.director + signal_left s.usr1 + signal_left s.usr2

Step-steps_left : {s t : Play} → Step s t → steps_left t < steps_left s
unfolding steps_left on_usr1 on_usr2 on_kill
Step-steps_left {s} (install_usr1 at) = ground (arith, at)
Step-steps_left {s} (pause_actor at) = ground (arith, at)
Step-steps_left {s} (speak at) = ground (arith, at)
Step-steps_left {s} (exit at) = ground (arith, at)
Step-steps_left {s} (reap at ended) = ground (arith, at)
Step-steps_left {s} (usr1_comes p) = ground (arith, p)
Step-steps_left {s} (install_usr2 at) = ground (arith, at)
Step-steps_left {s} (send_usr1 at) = ground (arith, at)
Step-steps_left {s} (pause_director at) = ground (arith, at)
Step-steps_left {s} (usr2_comes p) = ground (arith, p)
Step-steps_left {s} (close at) = ground (arith, at)

-- The play comes to an end: in a reachable state both processes have ended, or a step is possible, or
-- a signal has come too early, and then no step is possible any more, with the director in its `pause`.
-- Every step lowers a measure, which counts what is left to do, so that the steps come to an end.
pub play_ends :
    {s : Play} → Reach s → Going s × ((t : Play) → Step s t → steps_left t < steps_left s)
play_ends {s} reach =
    (director-Going s.director s.usr1 s.usr2 refl refl refl (Reach-Inv reach), λ t. Step-steps_left)
