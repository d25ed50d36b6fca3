-- ===== src/AirControl.antt =====
-- P1/PP1/air_control_c/src/functions.c: controller threads that let planes take off from two
-- runways under three mutexes, and the SIGUSR2 handler, which may interrupt any thread.
pub mod Invariant
mod Moves
pub mod Safety
pub mod Progress
mod Tests
use ciic.Common.{ℕ, suc, ◌+◌, ◌*◌, ◌≤◌, ◌<◌, ◌≡◌, ◌≢◌, Bool, true, false, Option, none, some}
use ciic.Common.Int.{ℤ, pos, negsuc, ◌+ℤ◌, ◌-ℤ◌, ◌≤ℤ◌}
use ciic.Common.Threads.{update}

abbrev pub total_limit : ℕ
total_limit = 20

-- The global variables. A mutex is its owner. `usr1` counts the pairs of SIGUSR1 that went to the
-- radio and to the ground control, `term` the SIGTERM that went to the radio.
pub record Tower : Type 0 where
  pub planes : ℤ
  pub takeoffs : ℕ
  pub total_takeoffs : ℕ
  pub runway1_lock : Option ℕ
  pub runway2_lock : Option ℕ
  pub state_lock : Option ℕ
  pub usr1 : ℕ
  pub term : ℕ

-- `current_runway`
pub data Runway : Type 0 where
  first second : Runway

-- Where a controller stands in `TakeOffsFunction`.
pub data Pc : Type 0 where
  check_total : Pc  -- head of the loop
  check_planes : Pc
  try_first : Pc  -- the two calls of `pthread_mutex_trylock`
  try_second : Pc
  want_state : Runway → Pc  -- `pthread_mutex_lock(&state_lock)`
  load_planes : Runway → Pc  -- `planes--` in two parts
  store_planes : Runway → ℤ → Pc
  bump_takeoffs : Runway → Pc
  bump_total : Runway → Pc
  test_five : Runway → Pc
  reset : Runway → Pc  -- `takeoffs = 0`
  unlock_state : Runway → Pc
  leaving : Runway → Pc  -- the sleep, then the runway's unlock
  finish : Pc  -- behind the loop
  done : Pc

abbrev pub give_back : Tower → Runway → Tower
give_back t first = record t { runway1_lock = none }
give_back t second = record t { runway2_lock = none }

-- One step of controller `i`. `takeoffs` and `total_takeoffs` are written by the owner of
-- `state_lock` only, so that their `++` is one step; `planes` is written by the handler too.
pub data Move (i : ℕ) (t : Tower) : Pc → Tower → Pc → Type 0 where
  below_limit : t.total_takeoffs < total_limit → Move i t check_total t check_planes
  at_limit : total_limit ≤ t.total_takeoffs → Move i t check_total t finish
  no_planes : t.planes ≤ℤ pos 0 → Move i t check_planes t check_total
  some_planes : pos 1 ≤ℤ t.planes → Move i t check_planes t try_first
  take_first :
      t.runway1_lock ≡ none
      → Move i t try_first (record t { runway1_lock = some i }) (want_state first)
  busy_first : t.runway1_lock ≢ none → Move i t try_first t try_second
  take_second :
      t.runway2_lock ≡ none
      → Move i t try_second (record t { runway2_lock = some i }) (want_state second)
  busy_second : t.runway2_lock ≢ none → Move i t try_second t check_total
  lock_state :
      {r : Runway}
      → t.state_lock ≡ none
      → Move i t (want_state r) (record t { state_lock = some i }) (load_planes r)
  load : {r : Runway} → Move i t (load_planes r) t (store_planes r t.planes)
  store :
      {r : Runway} {v : ℤ}
      → Move i t (store_planes r v) (record t { planes = v -ℤ pos 1 }) (bump_takeoffs r)
  count_takeoff :
      {r : Runway}
      → Move i t (bump_takeoffs r) (record t { takeoffs = t.takeoffs + 1 }) (bump_total r)
  count_total :
      {r : Runway}
      → Move i t (bump_total r) (record t { total_takeoffs = t.total_takeoffs + 1 }) (test_five r)
  five :
      {r : Runway}
      → t.takeoffs ≡ 5
      → Move i t (test_five r) (record t { usr1 = t.usr1 + 1 }) (reset r)
  not_five : {r : Runway} → t.takeoffs ≢ 5 → Move i t (test_five r) t (unlock_state r)
  clear : {r : Runway} → Move i t (reset r) (record t { takeoffs = 0 }) (unlock_state r)
  unlock : {r : Runway} → Move i t (unlock_state r) (record t { state_lock = none }) (leaving r)
  leave : {r : Runway} → Move i t (leaving r) (give_back t r) check_total
  terminate : total_limit ≤ t.total_takeoffs → Move i t finish (record t { term = t.term + 1 }) done
  quiet : t.total_takeoffs < total_limit → Move i t finish t done

-- The threads: controllers below `n`, and any other thread of the process. `handler` is the value
-- of `planes` that an interrupted thread has read in `SigHandler2`.
pub record System : Type 0 where
  pub tower : Tower
  pub pc : ℕ → Pc
  pub handler : ℕ → Option ℤ

-- An interrupted controller does not move on before its handler returns.
pub data Step (n : ℕ) (s : System) : System → Type 0 where
  pick :
      (i : ℕ) {t : Tower} {p : Pc}
      → i < n
      → s.handler i ≡ none
      → Move i s.tower (s.pc i) t p
      → Step n s (record s { tower = t; pc = update s.pc i p })
  interrupt :
      (i : ℕ)
      → s.handler i ≡ none
      → Step n s (record s { handler = update s.handler i (some s.tower.planes) })
  handled :
      (i : ℕ) (v : ℤ)
      → s.handler i ≡ some v
      → Step n s (record s {
        tower = record s.tower { planes = v +ℤ pos 5 };
        handler = update s.handler i none;
      })

abbrev pub start_tower : Tower
start_tower = record {
  planes = pos 0;
  takeoffs = 0;
  total_takeoffs = 0;
  runway1_lock = none;
  runway2_lock = none;
  state_lock = none;
  usr1 = 0;
  term = 0;
}

abbrev pub init : System
init = record { tower = start_tower; pc = λ _. check_total; handler = λ _. none }

pub data Reach (n : ℕ) : System → Type 0 where
  start : Reach n init
  later : {s t : System} → Reach n s → Step n s t → Reach n t
