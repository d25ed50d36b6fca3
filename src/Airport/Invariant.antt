-- ===== src/Airport/Invariant.antt =====
-- What ground control, the radio and air control may have counted: P1/PP1/ground_control/src/main.c
-- and P1/PP1/radio/src/main.c.
use ciic.Common.{ℕ, ◌+◌, ◌*◌, ◌%◌, ◌≤◌, ◌≡◌, ◌↔◌, Bool, true, false, arith}
use ciic.Airport.{
  planes_limit, traffic, ground_usr1, ground_term, radio_usr1, radio_usr2, radio_term,
  radio_goes_on, Network, Step, tick, take_off, tell_radio, tell_ground, end_of_takeoffs,
  radio_gets_usr1, radio_gets_usr2, radio_gets_term, ground_gets_usr1, ground_gets_term,
  air_gets_usr2, Reach, start, later,
}

-- What a pending signal will add.
abbrev pub weight : Bool → ℕ
weight true = 5
weight false = 0

pub record Inv (s : Network) : Type 0 where
  pub fives : (s.ground.planes % 5 ≡ 0) × (s.radio.planes % 5 ≡ 0) × (s.air_planes % 5 ≡ 0)
  pub ground_planes : s.ground.planes ≤ planes_limit
  pub radio_planes : s.radio.planes + weight s.at_radio.usr2 ≤ s.ground.planes
  pub air_planes : s.air_planes + weight s.at_air.usr2 ≤ s.radio.planes
  pub radio_takeoffs :
      s.radio.takeoffs + weight s.at_radio.usr1 ≤ 5 * s.air_signals + weight s.air_telling
  pub ground_takeoffs :
      s.ground.takeoffs + weight s.at_ground.usr1 ≤ s.radio.takeoffs + 5 * s.air_signals
  pub air_takeoffs :
      (5 * s.air_signals + weight s.air_telling ≤ s.air_takeoffs)
      × (s.air_takeoffs ≤ 5 * (s.air_signals + 1))
      × (s.air_takeoffs ≤ 24)
  pub order : s.at_ground.term ≡ true → s.radio.running ≡ false
  pub ground_last : s.ground.running ≡ false → s.radio.running ≡ false

pub Step-Inv : {s t : Network} → Step s t → Inv s → Inv t
unfolding traffic ground_usr1 ground_term radio_usr1 radio_usr2 radio_term
Step-Inv (tick run) inv = ground arith
Step-Inv (take_off idle some_plane below fewer) inv = ground arith
Step-Inv (tell_radio idle five) inv = ground arith
Step-Inv (tell_ground telling) inv = ground arith
Step-Inv (end_of_takeoffs twenty) inv = ground arith
Step-Inv (radio_gets_usr1 run p) inv = ground arith
Step-Inv (radio_gets_usr2 run p) inv = ground arith
Step-Inv (radio_gets_term run p) inv = ground arith
Step-Inv (ground_gets_usr1 run p) inv = ground arith
Step-Inv (ground_gets_term run p) inv = ground arith
Step-Inv (air_gets_usr2 p) inv = ground arith

Reach-Inv : {s : Network} → Reach s → Inv s
Reach-Inv start = ground arith
Reach-Inv (later r st) = Step-Inv st (Reach-Inv r)

-- In a reachable state air control has added no more planes than the radio has counted, the radio
-- no more than ground control, and ground control no more than 20.
planes_bounded :
    {s : Network}
    → Reach s
    → (s.air_planes ≤ s.radio.planes)
      × (s.radio.planes ≤ s.ground.planes)
      × (s.ground.planes ≤ planes_limit)
planes_bounded reach = omega (arith, Reach-Inv reach)

-- In a reachable state the radio has counted no takeoffs that air control has not made, and 20 at most,
-- so that the test `takeoffs <= 100` of its loop holds; ground control, which hears of them from both,
-- has counted at most twice the takeoffs, and 40 at most.
pub takeoffs_counted :
    {s : Network}
    → Reach s
    → (s.radio.takeoffs ≤ s.air_takeoffs)
      × (s.radio.takeoffs ≤ 20)
      × (radio_goes_on s.radio.takeoffs ≡ true)
      × (s.ground.takeoffs ≤ 2 * s.air_takeoffs)
      × (s.ground.takeoffs ≤ 40)
takeoffs_counted {s} reach = ground (arith, Reach-Inv reach)

-- In a reachable state in which ground control has ended, the radio has ended.
radio_ends_first : {s : Network} → Reach s → s.ground.running ≡ false → s.radio.running ≡ false
radio_ends_first reach h = (Reach-Inv reach).ground_last h

-- In a reachable state with SIGUSR2 pending at the radio, its handler reports an overloaded runway
-- exactly if the planes counted with this signal are ten or more ahead of the takeoffs.
overloaded_iff :
    {s : Network}
    → Reach s
    → s.at_radio.usr2 ≡ true
    → ((radio_usr2 s.radio).1 ≡ true) ↔ (s.radio.takeoffs + 10 ≤ s.radio.planes + 5)
unfolding radio_usr2
overloaded_iff reach p = ground (arith, Reach-Inv reach)
