-- ===== src/Airport.antt =====
-- P1/PP1/ground_control/src/main.c and P1/PP1/radio/src/main.c: the signal handlers of the two
-- processes, and the signals that they, a timer and air control (AirControl) send one another, once
-- the object in memory holds the number of each process (Airport/Startup).
-- A signal that is pending already is lost when it is sent again.
pub mod Invariant
pub mod Startup
pub mod Addresses
mod Tests
use ciic.Common.{ℕ, ◌+◌, ◌*◌, ◌≤◌, ◌<◌, ◌≡◌, Bool, true, false, if◌then◌else◌, ltb, leb}
use ciic.Common.Int.{ℤ, pos, sub_ℕ}

abbrev pub planes_limit : ℕ
planes_limit = 20

-- Signals that are pending at a process.
pub record Pending : Type 0 where
  pub usr1 : Bool
  pub usr2 : Bool
  pub term : Bool

abbrev pub nothing : Pending
nothing = record { usr1 = false; usr2 = false; term = false }

-- ground_control: its global variables.
pub record Ground : Type 0 where
  pub planes : ℕ
  pub takeoffs : ℕ
  pub traffic : ℤ
  pub running : Bool

-- radio: its global variables.
pub record Radio : Type 0 where
  pub planes : ℕ
  pub takeoffs : ℕ
  pub running : Bool

-- What a handler does: the process's new state, and whether it sends its signal on.
-- `Traffic` sends SIGUSR2 to the radio.
pub traffic : Ground → Ground × Bool
traffic g =
    let counted = record g { traffic = sub_ℕ g.planes g.takeoffs } in
    if ltb g.planes planes_limit
    then (record counted { planes = g.planes + 5 }, true)
    else (counted, false)

-- `SigHandler1` of ground control
pub ground_usr1 : Ground → Ground
ground_usr1 g = record g { takeoffs = g.takeoffs + 5 }

-- `SigHandlerTerm`
pub ground_term : Ground → Ground
ground_term g = record g { running = false }

-- `while (takeoffs <= 100) pause();` is looked at when a handler has returned.
abbrev pub radio_goes_on : ℕ → Bool
radio_goes_on takeoffs = leb takeoffs 100

-- `SigHandler1` of the radio, which sends SIGUSR1 to ground control
pub radio_usr1 : Radio → Radio
radio_usr1 r = record r { takeoffs = r.takeoffs + 5; running = radio_goes_on (r.takeoffs + 5) }

-- `SigHandler2` of the radio, which sends SIGUSR2 to air control, and prints "RUNWAY OVERLOADED"
-- if the flag says so
pub radio_usr2 : Radio → Radio × Bool
radio_usr2 r =
    let planes = r.planes + 5 in
    (record r { planes = planes }, if leb (r.takeoffs + 10) planes then ltb planes 50 else false)

-- `SigTerm`, which sends SIGTERM to ground control
pub radio_term : Radio → Radio
radio_term r = record r { running = false }

-- The processes. Of air control: the planes that its handler has added, its takeoffs, the pairs of
-- SIGUSR1 that it has sent, and whether it is between the two signals of a pair.
pub record Network : Type 0 where
  pub ground : Ground
  pub radio : Radio
  pub at_ground : Pending
  pub at_radio : Pending
  pub at_air : Pending
  pub air_planes : ℕ
  pub air_takeoffs : ℕ
  pub air_signals : ℕ
  pub air_telling : Bool

pub data Step (s : Network) : Network → Type 0 where
  -- the timer of ground control
  tick :
      s.ground.running ≡ true
      → Step s (
          let (g, sent) = traffic s.ground in
          record s {
            ground = g;
            at_radio = if sent then record s.at_radio { usr2 = true } else s.at_radio;
          })
  -- air control: a takeoff, for which planes have come, the two signals after every fifth, and the end.
  -- Its controllers are AirControl: they make no takeoff between the two signals, and 24 at most.
  take_off :
      s.air_telling ≡ false
      → 1 ≤ s.air_planes
      → s.air_takeoffs < 24
      → s.air_takeoffs < 5 * (s.air_signals + 1)
      → Step s (record s { air_takeoffs = s.air_takeoffs + 1 })
  tell_radio :
      s.air_telling ≡ false
      → s.air_takeoffs ≡ 5 * (s.air_signals + 1)
      → Step s (record s { air_telling = true; at_radio = record s.at_radio { usr1 = true } })
  tell_ground :
      s.air_telling ≡ true
      → Step s (record s {
        air_telling = false;
        air_signals = s.air_signals + 1;
        at_ground = record s.at_ground { usr1 = true };
      })
  end_of_takeoffs :
      20 ≤ s.air_takeoffs → Step s (record s { at_radio = record s.at_radio { term = true } })
  -- deliveries
  radio_gets_usr1 :
      s.radio.running ≡ true
      → s.at_radio.usr1 ≡ true
      → Step s (record s {
        radio = radio_usr1 s.radio;
        at_radio = record s.at_radio { usr1 = false };
        at_ground = record s.at_ground { usr1 = true };
      })
  radio_gets_usr2 :
      s.radio.running ≡ true
      → s.at_radio.usr2 ≡ true
      → Step s (record s {
        radio = (radio_usr2 s.radio).0;
        at_radio = record s.at_radio { usr2 = false };
        at_air = record s.at_air { usr2 = true };
      })
  radio_gets_term :
      s.radio.running ≡ true
      → s.at_radio.term ≡ true
      → Step s (record s {
        radio = radio_term s.radio;
        at_radio = record s.at_radio { term = false };
        at_ground = record s.at_ground { term = true };
      })
  ground_gets_usr1 :
      s.ground.running ≡ true
      → s.at_ground.usr1 ≡ true
      → Step s (record s {
        ground = ground_usr1 s.ground;
        at_ground = record s.at_ground { usr1 = false };
      })
  ground_gets_term :
      s.ground.running ≡ true
      → s.at_ground.term ≡ true
      → Step s (record s {
        ground = ground_term s.ground;
        at_ground = record s.at_ground { term = false };
      })
  air_gets_usr2 :
      s.at_air.usr2 ≡ true
      → Step s
          (record s { air_planes = s.air_planes + 5; at_air = record s.at_air { usr2 = false } })

abbrev pub init : Network
init = record {
  ground = record { planes = 0; takeoffs = 0; traffic = pos 0; running = true };
  radio = record { planes = 0; takeoffs = 0; running = true };
  at_ground = nothing;
  at_radio = nothing;
  at_air = nothing;
  air_planes = 0;
  air_takeoffs = 0;
  air_signals = 0;
  air_telling = false;
}

pub data Reach : Network → Type 0 where
  start : Reach init
  later : {s t : Network} → Reach s → Step s t → Reach t
