-- ===== src/AirControl/Safety.antt =====
-- What holds in every state that the threads of P1/PP1/air_control_c/src/functions.c can reach.
use ciic.Common.{
  ℕ, ◌+◌, ◌/◌, ◌%◌, ◌≤◌, ◌<◌, ◌≡◌, refl, true, none, some, arith, inl, inr, Option-cases,
}
use ciic.Common.Threads.{sum_below, sum_below-zero, sum_below-all}
use ciic.AirControl.{
  total_limit, Runway, check_total, done, System, Step, pick, interrupt, handled, start_tower,
  Reach, start, later,
}
use ciic.AirControl.Invariant.{runway_of, in_state, pending, behind, ended, Inv}
use ciic.AirControl.Moves.{Move-Inv}

-- The handler changes `planes` only, of which the invariant says nothing.
Step-Inv : {n : ℕ} {s s' : System} → Step n s s' → Inv n s.tower s.pc → Inv n s'.tower s'.pc
Step-Inv (pick i lt free mv) inv = Move-Inv inv i lt mv
Step-Inv (interrupt i free) inv = inv
Step-Inv (handled i v e) inv = record {
  own_runway = λ j r q. ground (arith, inv.own_runway j r);
  own_state = inv.own_state;
  state_owned = inv.state_owned;
  low = inv.low;
  places = λ j. ground (arith, inv.places j);
  tally = inv.tally;
  limit = inv.limit;
  terms = inv.terms;
}

Inv-init : (n : ℕ) → Inv n start_tower (λ _. check_total)
Inv-init n = record {
  own_runway = λ i r q. cc;
  own_state = λ i q. cc;
  state_owned = λ i q. cc;
  low = λ q. omega arith;
  places = λ i. tt;
  tally = omega (arith, sum_below-zero behind n (λ _. check_total) (λ i p. refl));
  limit = omega (arith, sum_below-zero pending n (λ _. check_total) (λ i p. refl));
  terms = sum_below-zero ended n (λ _. check_total) (λ i p. refl);
}

pub Reach-Inv : {n : ℕ} {s : System} → Reach n s → Inv n s.tower s.pc
Reach-Inv {n} start = Inv-init n
Reach-Inv (later r st) = Step-Inv st (Reach-Inv r)

-- In a reachable state no two controllers own one runway, and no two stand between the lock and
-- the unlock of `state_lock`.
pub exclusive :
    {n : ℕ} {s : System}
    → Reach n s
    → (i j : ℕ)
    → ((r : Runway) → runway_of (s.pc i) ≡ some r → runway_of (s.pc j) ≡ some r → i ≡ j)
      × (in_state (s.pc i) ≡ true → in_state (s.pc j) ≡ true → i ≡ j)
exclusive {n} {s} reach i j = (
  λ r p q. ground (arith, inv.own_runway i r p, inv.own_runway j r q),
  λ p q. ground (arith, inv.own_state i p, inv.own_state j q),
)
  where
    inv : Inv n s.tower s.pc
    inv = Reach-Inv reach

-- In a reachable state in which no controller owns `state_lock`, one pair of SIGUSR1 has been
-- sent for every five takeoffs, and `takeoffs` counts those since the last pair.
signals_counted :
    {n : ℕ} {s : System}
    → Reach n s
    → s.tower.state_lock ≡ none
    → (s.tower.usr1 ≡ s.tower.total_takeoffs / 5) × (s.tower.takeoffs ≡ s.tower.total_takeoffs % 5)
signals_counted {n} {s} reach free = omega (arith, tally, low free, none_behind)
  where
    open (Reach-Inv reach) use {tally, low, own_state}

    none_behind : sum_below behind n s.pc ≡ 0
    none_behind = sum_below-zero behind n s.pc (λ i p. grind (arith, own_state i))

-- In a reachable state of n controllers at most 19 + n planes have taken off; a controller is
-- behind the loop only after 20, and the radio got one SIGTERM from each controller that is done.
takeoffs_bounded :
    {n : ℕ} {s : System}
    → Reach n s
    → (s.tower.total_takeoffs ≤ 19 + n)
      × ((i : ℕ) → s.pc i ≡ done → total_limit ≤ s.tower.total_takeoffs)
      × (sum_below ended n s.pc ≡ s.tower.term)
takeoffs_bounded {n} {s} reach =
    (omega (arith, inv.limit), λ i e. ground (arith, inv.places i), inv.terms)
  where
    inv : Inv n s.tower s.pc
    inv = Reach-Inv reach

-- When all of n controllers are done, from 20 to 19 + n planes have taken off, four pairs of SIGUSR1
-- have been sent at least, and the radio got n times SIGTERM.
all_done :
    {n : ℕ} {s : System}
    → Reach n s
    → 0 < n
    → ((i : ℕ) → i < n → s.pc i ≡ done)
    → (total_limit ≤ s.tower.total_takeoffs)
      × (s.tower.total_takeoffs ≤ 19 + n)
      × (4 ≤ s.tower.usr1)
      × (s.tower.term ≡ n)
all_done {n} {s} reach some_thread finished = (
  enough,
  omega (arith, inv.limit),
  omega (arith, signals_counted reach free, enough),
  omega (arith, inv.terms, sum_below-all ended 1 n s.pc (λ i p. ground (arith, finished i p))),
)
  where
    inv : Inv n s.tower s.pc
    inv = Reach-Inv reach

    free : s.tower.state_lock ≡ none
    free = elim (Option-cases s.tower.state_lock) [
      | inl e ↦ e
      | inr (j, e) ↦
          let (inside, known) = inv.state_owned j e in absurd (ground (arith, finished j known))
    ]

    enough : total_limit ≤ s.tower.total_takeoffs
    enough = ground (arith, inv.places 0, finished 0 some_thread)
