-- ===== src/Rehearsal/Cue.antt =====
-- The signals of Lab2-L2-solution: the order that they keep, and the cue that comes too early.
use ciic.Common.{◌≡◌, ◌≢◌, Bool, true, false, arith}
use ciic.Rehearsal.{
  Actor, speaking, left, Director, cued, waiting, closing, director_killed, Stage, Step,
  install_usr1, pause_actor, speak, usr1_comes, install_usr2, cue, pause_director, usr2_comes,
  Reach, start, later,
}

-- The director has sent SIGUSR1.
abbrev pub has_cued : Director → Bool
has_cued cued = true
has_cued waiting = true
has_cued closing = true
has_cued _ = false

abbrev pub has_spoken : Actor → Bool
has_spoken left = true
has_spoken _ = false

abbrev on_stage : Actor → Bool
on_stage speaking = true
on_stage left = true
on_stage _ = false

record Inv (s : Stage) : Type 0 where
  alive : s.director ≢ director_killed
  cued_first : s.usr1 ≡ true → has_cued s.director ≡ true
  spoken_cued : on_stage s.actor ≡ true → has_cued s.director ≡ true
  told : s.usr2 ≡ true → s.actor ≡ left
  closed : s.director ≡ closing → s.actor ≡ left

Step-Inv : {s t : Stage} → Step s t → Inv s → Inv t
Step-Inv (install_usr1 at) inv = ground (arith, inv, at)
Step-Inv (pause_actor at) inv = ground (arith, inv, at)
Step-Inv (speak at) inv = ground (arith, inv, at)
Step-Inv (usr1_comes p) inv = ground (arith, inv, p)
Step-Inv (install_usr2 at) inv = ground (arith, inv, at)
Step-Inv (cue at) inv = ground (arith, inv, at)
Step-Inv (pause_director at) inv = ground (arith, inv, at)
Step-Inv (usr2_comes p) inv = ground (arith, inv, p)

Reach-Inv : {s : Stage} → Reach s → Inv s
Reach-Inv start = ground arith
Reach-Inv (later reach step) = Step-Inv step (Reach-Inv reach)

-- The cue has been sent and taken, and the actor has not started to speak: it came before `pause`, or ended
-- the actor.
pub record Missed (s : Stage) : Type 0 where
  pub sent : has_cued s.director ≡ true
  pub taken : s.usr1 ≡ false
  pub silent : on_stage s.actor ≡ false

Step-Missed : {s t : Stage} → Step s t → Inv s → Missed s → Missed t
Step-Missed (install_usr1 at) inv m = ground (arith, inv, m, at)
Step-Missed (pause_actor at) inv m = ground (arith, inv, m, at)
Step-Missed (speak at) inv m = ground (arith, inv, m, at)
Step-Missed (usr1_comes p) inv m = ground (arith, inv, m, p)
Step-Missed (install_usr2 at) inv m = ground (arith, inv, m, at)
Step-Missed (cue at) inv m = ground (arith, inv, m, at)
Step-Missed (pause_director at) inv m = ground (arith, inv, m, at)
Step-Missed (usr2_comes p) inv m = ground (arith, inv, m, p)

pub data Steps (s : Stage) : Stage → Type 0 where
  none_yet : Steps s s
  one_more : {t u : Stage} → Steps s t → Step t u → Steps s u

Steps-Reach : {s t : Stage} → Reach s → Steps s t → Reach t
Steps-Reach reach none_yet = reach
Steps-Reach reach (one_more steps step) = later (Steps-Reach reach steps) step

Steps-Missed : {s t : Stage} → Reach s → Steps s t → Missed s → Missed t
Steps-Missed reach none_yet m = m
Steps-Missed reach (one_more steps step) m =
    Step-Missed step (Reach-Inv (Steps-Reach reach steps)) (Steps-Missed reach steps m)

-- In a reachable state no SIGUSR2 has ended the director, and if it is behind its `pause`, the actor has
-- spoken and left. But once the cue has been taken without an actor in `pause`, in no later state is
-- the director behind its `pause`: the play never ends.
pub closing_spoken :
    {s t : Stage}
    → Reach s
    → Steps s t
    → (s.director ≢ director_killed)
      × (s.director ≡ closing → has_spoken s.actor ≡ true)
      × (Missed s → t.director ≢ closing)
closing_spoken {s} {t} reach steps = (
  (Reach-Inv reach).alive,
  λ h. ground (arith, h, (Reach-Inv reach).closed),
  λ m.
      ground
        (arith, (Steps-Missed reach steps m).silent, (Reach-Inv (Steps-Reach reach steps)).closed),
)
