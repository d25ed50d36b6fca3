-- ===== src/Airport/Tests.antt =====
-- Schedules of ground control and the radio, and the theorems at states that they reach.
use ciic.Common.{true, false, arith, ◌*◌, ◌≤◌, ◌≡◌, refl}
use ciic.Airport.{
  traffic, radio_usr1, radio_usr2, ground_usr1, radio_goes_on, Network, Reach, start, later, tick,
  take_off, tell_radio, tell_ground, radio_gets_usr1, radio_gets_usr2, ground_gets_usr1,
  air_gets_usr2,
}
use ciic.Airport.Startup.{
  Groups, Pids, Startup, air_controlling, radio_storing, ground_opening, Started, air_control,
  ground_control, begin, next, create, resize, air_maps, air_stores, fork, reaches,
}
use ciic.Airport.Addresses.{Valid, addressed}
use ciic.Airport.Invariant.{takeoffs_counted}

record Trace : Type 0 where
  state : Network
  reach : Reach state

-- Two ticks of the timer, whose signals to the radio merge; the radio takes one.
abbrev merged : Trace
unfolding traffic radio_usr2
merged = record {
  state = _;
  reach = later (later (later start (tick refl)) (tick refl)) (radio_gets_usr2 refl refl);
}

-- A tick of which the radio has not heard
abbrev waiting : Trace
unfolding traffic
waiting = record { state = _; reach = later start (tick refl) }

merged_planes : (merged.state.ground.planes ≡ 10) × (merged.state.radio.planes ≡ 5)
unfolding traffic radio_usr2
merged_planes = (refl, refl)

-- Air control has heard of five planes, and has made five takeoffs; ground control takes the signal for
-- them from air control, and then the one from the radio.
abbrev twice : Trace
unfolding traffic radio_usr1 radio_usr2 ground_usr1
twice = record {
  state = _;
  reach =
      later
        (later
          (later
            (later
              (later
                (later
                  (later
                    (later
                      (later
                        (later
                          (later (later (later start (tick refl)) (radio_gets_usr2 refl refl))
                            (air_gets_usr2 refl))
                          (take_off refl (omega arith) (omega arith) (omega arith)))
                        (take_off refl (omega arith) (omega arith) (omega arith)))
                      (take_off refl (omega arith) (omega arith) (omega arith)))
                    (take_off refl (omega arith) (omega arith) (omega arith)))
                  (take_off refl (omega arith) (omega arith) (omega arith)))
                (tell_radio refl refl))
              (tell_ground refl))
            (ground_gets_usr1 refl refl))
          (radio_gets_usr1 refl refl))
        (ground_gets_usr1 refl refl);
}

twice_counted : (twice.state.ground.takeoffs ≡ 10) × (twice.state.air_takeoffs ≡ 5)
unfolding traffic radio_usr1 radio_usr2 ground_usr1
twice_counted = (refl, refl)

takeoffs_counted_example :
    (twice.state.radio.takeoffs ≤ twice.state.air_takeoffs)
    × (twice.state.radio.takeoffs ≤ 20)
    × (radio_goes_on twice.state.radio.takeoffs ≡ true)
    × (twice.state.ground.takeoffs ≤ 2 * twice.state.air_takeoffs)
    × (twice.state.ground.takeoffs ≤ 40)
takeoffs_counted_example = takeoffs_counted twice.reach

abbrev pids : Pids
pids = record { air = 7; radio = 9; ground = 30 }

pids-Valid : Valid pids
pids-Valid = record {
  positive = λ p. grind arith;
  air_radio = ground arith;
  air_ground = ground arith;
  radio_ground = ground arith;
}

-- MemoryCreate, and `fork`; the radio has not stored its number yet.
abbrev early_state : Startup
early_state = record {
  air = air_controlling;
  radio = radio_storing;
  ground = ground_opening;
  named = true;
  sized = true;
  cells = record { air = 7; radio = 0; ground = 0 };
}

abbrev early : Started pids early_state
early =
    next
      (next (next (next (next begin (create refl)) (resize refl)) (air_maps refl))
        (air_stores refl))
      (fork refl)

-- Two terminals: air control and the radio, its child, are in one process group.
abbrev two_terminals : Groups
two_terminals ground_control ground_control = true
two_terminals ground_control _ = false
two_terminals _ ground_control = false
two_terminals _ _ = true

-- A SIGUSR1 that air control sends now to ground control reaches air control itself.
addressed_example : reaches two_terminals pids early_state air_control 0 air_control ≡ true
addressed_example = addressed pids-Valid early two_terminals air_control ground_control air_control
