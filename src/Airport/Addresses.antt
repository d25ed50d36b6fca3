-- ===== src/Airport/Addresses.antt =====
-- P1/PP1: whom the signals reach that the three processes send to the process ids in their object.
use ciic.Common.{ℕ, ◌≤◌, ◌≡◌, ◌≢◌, Bool, true, false, ◌&&◌, ◌==◌, if◌then◌else◌, arith}
use ciic.Airport.Startup.{
  Process, air_control, radio, ground_control, Pids, of, AirPlace, RadioPlace, GroundPlace, Startup,
  Start, Started, begin, next, alive, Groups, reaches, air_creating, air_forking, air_controlling,
  air_ended, air_stopped, radio_unborn, radio_storing, ground_opening, ground_mapping,
  ground_storing, ground_failed, create, create_fails, resize, resize_fails, air_maps,
  air_map_fails, air_stores, fork, fork_fails, thread_fails, air_ends, radio_stores, execute,
  execute_fails, radio_opens, radio_open_fails, radio_maps, radio_map_fails, radio_installs,
  radio_pauses, radio_ends, ground_opens, ground_open_fails, ground_maps, ground_map_fails,
  ground_stores, ground_faults, ground_installs, timer_fails, ground_pauses,
}

-- The process has stored its number.
abbrev pub air_stored : AirPlace → Bool
air_stored air_forking = true
air_stored air_controlling = true
air_stored air_ended = true
air_stored air_stopped = true
air_stored _ = false

abbrev pub radio_stored : RadioPlace → Bool
radio_stored radio_unborn = false
radio_stored radio_storing = false
radio_stored _ = true

abbrev pub ground_stored : GroundPlace → Bool
ground_stored ground_opening = false
ground_stored ground_mapping = false
ground_stored ground_storing = false
ground_stored ground_failed = false
ground_stored _ = true

abbrev pub stored : Startup → Process → Bool
stored s air_control = air_stored s.air
stored s radio = radio_stored s.radio
stored s ground_control = ground_stored s.ground

abbrev past_fork : AirPlace → Bool
past_fork air_controlling = true
past_fork air_ended = true
past_fork air_stopped = true
past_fork _ = false

record Inv (pids : Pids) (s : Startup) : Type 0 where
  unnamed : s.air ≡ air_creating → s.named ≡ false
  unsized : s.air ≡ air_creating → s.sized ≡ false
  alone : s.air ≡ air_creating → ground_stored s.ground ≡ false
  childless : past_fork s.air ≡ false → s.radio ≡ radio_unborn
  air : s.cells.air ≡ (if air_stored s.air then pids.air else 0)
  radio : s.cells.radio ≡ (if radio_stored s.radio then pids.radio else 0)
  ground : s.cells.ground ≡ (if ground_stored s.ground then pids.ground else 0)

Start-Inv : {pids : Pids} {s t : Startup} → Start pids s t → Inv pids s → Inv pids t
Start-Inv (create at) inv = ground (arith, inv, at)
Start-Inv (create_fails at) inv = ground (arith, inv, at)
Start-Inv (resize at) inv = ground (arith, inv, at)
Start-Inv (resize_fails at) inv = ground (arith, inv, at)
Start-Inv (air_maps at) inv = ground (arith, inv, at)
Start-Inv (air_map_fails at) inv = ground (arith, inv, at)
Start-Inv (air_stores at) inv = ground (arith, inv, at)
Start-Inv (fork at) inv = ground (arith, inv, at)
Start-Inv (fork_fails at) inv = ground (arith, inv, at)
Start-Inv (thread_fails at) inv = ground (arith, inv, at)
Start-Inv (air_ends at) inv = ground (arith, inv, at)
Start-Inv (radio_stores at) inv = ground (arith, inv, at)
Start-Inv (execute at) inv = ground (arith, inv, at)
Start-Inv (execute_fails at) inv = ground (arith, inv, at)
Start-Inv (radio_opens at p) inv = ground (arith, inv, at, p)
Start-Inv (radio_open_fails at) inv = ground (arith, inv, at)
Start-Inv (radio_maps at) inv = ground (arith, inv, at)
Start-Inv (radio_map_fails at) inv = ground (arith, inv, at)
Start-Inv (radio_installs n at p) inv = ground (arith, inv, at)
Start-Inv (radio_pauses at) inv = ground (arith, inv, at)
Start-Inv (radio_ends at) inv = ground (arith, inv, at)
Start-Inv (ground_opens at p) inv = ground (arith, inv, at, p)
Start-Inv (ground_open_fails at) inv = ground (arith, inv, at)
Start-Inv (ground_maps at) inv = ground (arith, inv, at)
Start-Inv (ground_map_fails at) inv = ground (arith, inv, at)
Start-Inv (ground_stores at p) inv = ground (arith, inv, at, p)
Start-Inv (ground_faults at p) inv = ground (arith, inv, at)
Start-Inv (ground_installs n at p) inv = ground (arith, inv, at)
Start-Inv (timer_fails at) inv = ground (arith, inv, at)
Start-Inv (ground_pauses at) inv = ground (arith, inv, at)

Started-Inv : {pids : Pids} {s : Startup} → Started pids s → Inv pids s
Started-Inv begin = ground arith
Started-Inv (next reach step) = Start-Inv step (Started-Inv reach)

-- What stands in the object for a process
abbrev pub cell : Startup → Process → ℕ
cell s = of s.cells

cell_lem :
    {pids : Pids} {s : Startup} (p : Process)
    → Inv pids s
    → cell s p ≡ (if stored s p then of pids p else 0)
cell_lem air_control inv = inv.air
cell_lem radio inv = inv.radio
cell_lem ground_control inv = inv.ground

-- The process ids are above 0 and different.
pub record Valid (pids : Pids) : Type 0 where
  pub positive : (p : Process) → 1 ≤ of pids p
  pub air_radio : pids.air ≢ pids.radio
  pub air_ground : pids.air ≢ pids.ground
  pub radio_ground : pids.radio ≢ pids.ground

abbrev pub same : Process → Process → Bool
same air_control air_control = true
same radio radio = true
same ground_control ground_control = true
same _ _ = false

different_lem : {pids : Pids} → Valid pids → (p q : Process) → (of pids p == of pids q) ≡ same p q
different_lem valid air_control air_control = ground (arith, valid)
different_lem valid air_control radio = ground (arith, valid)
different_lem valid air_control ground_control = ground (arith, valid)
different_lem valid radio air_control = ground (arith, valid)
different_lem valid radio radio = ground (arith, valid)
different_lem valid radio ground_control = ground (arith, valid)
different_lem valid ground_control air_control = ground (arith, valid)
different_lem valid ground_control radio = ground (arith, valid)
different_lem valid ground_control ground_control = ground (arith, valid)

-- No object of that name was there when the programs started. Then, in every state that they reach, a
-- signal to the number that stands in the object for a process reaches, of the three processes that are
-- there, this one and no other, if the process has stored its number; else it reaches all those in the
-- process group of its sender, whichever these are.
pub addressed :
    {pids : Pids} {s : Startup}
    → Valid pids
    → Started pids s
    → (same_group : Groups) (sender p q : Process)
    → reaches same_group pids s sender (cell s p) q
      ≡ (alive s q && (if stored s p then same p q else same_group sender q))
unfolding reaches
addressed {pids} {s} valid reach same_group sender p q =
    ground (arith, cell_lem p (Started-Inv reach), valid.positive p, different_lem valid p q)
