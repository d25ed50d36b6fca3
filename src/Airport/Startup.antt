-- ===== src/Airport/Startup.antt =====
-- P1/PP1: the start of air control (main and MemoryCreate), of the radio (main) and of ground control
-- (main and MemoryOpen), which leave their process ids for one another in a shared object.
use ciic.Common.{ℕ, ◌+◌, ◌<◌, ◌≡◌, Bool, true, false, ◌&&◌, ◌==◌, if◌then◌else◌}

pub data Process : Type 0 where
  air_control : Process
  radio : Process
  ground_control : Process

-- The process ids, and the three positions of the object: 0, 1 and 2.
pub record Pids : Type 0 where
  pub air : ℕ
  pub radio : ℕ
  pub ground : ℕ

abbrev pub of : Pids → Process → ℕ
of pids air_control = pids.air
of pids radio = pids.radio
of pids ground_control = pids.ground

-- Where air control is: at a call of MemoryCreate, at `fork`, or behind it. It fails in MemoryCreate,
-- and stops where a thread cannot be created.
pub data AirPlace : Type 0 where
  air_creating air_sizing air_mapping air_storing air_forking air_controlling : AirPlace
  air_ended air_failed air_stopped : AirPlace

-- Where the radio is, a child of air control until `execl`; `radio_installing n` is behind `n` calls
-- of `signal`.
pub data RadioPlace : Type 0 where
  radio_unborn radio_storing radio_executing radio_opening radio_mapping : RadioPlace
  radio_installing : ℕ → RadioPlace
  radio_pausing radio_ended radio_failed : RadioPlace

-- Where ground control is; it fails in MemoryOpen, and stops where the timer cannot be set.
pub data GroundPlace : Type 0 where
  ground_opening ground_mapping ground_storing : GroundPlace
  ground_installing : ℕ → GroundPlace
  ground_pausing ground_failed ground_stopped : GroundPlace

-- The processes and the object: whether its name is there, whether it has its size, what it holds.
pub record Startup : Type 0 where
  pub air : AirPlace
  pub radio : RadioPlace
  pub ground : GroundPlace
  pub named : Bool
  pub sized : Bool
  pub cells : Pids

abbrev pub no_pids : Pids
no_pids = record { air = 0; radio = 0; ground = 0 }

-- `shm_open` with O_CREAT: an object that is there already keeps what it holds.
abbrev pub created : Startup → Startup
created s = record s {
  air = air_sizing;
  named = true;
  sized = if s.named then s.sized else false;
  cells = if s.named then s.cells else no_pids;
}

-- A call of one of the processes
pub data Start (pids : Pids) (s : Startup) : Startup → Type 0 where
  -- MemoryCreate
  create : s.air ≡ air_creating → Start pids s (created s)
  create_fails : s.air ≡ air_creating → Start pids s (record s { air = air_failed })
  resize : s.air ≡ air_sizing → Start pids s (record s { air = air_mapping; sized = true })
  resize_fails : s.air ≡ air_sizing → Start pids s (record s { air = air_failed })
  air_maps : s.air ≡ air_mapping → Start pids s (record s { air = air_storing })
  air_map_fails : s.air ≡ air_mapping → Start pids s (record s { air = air_failed })
  air_stores :
      s.air ≡ air_storing
      → Start pids s (record s { air = air_forking; cells = record s.cells { air = pids.air } })
  -- main of air control; a `fork` that fails is not noticed
  fork :
      s.air ≡ air_forking → Start pids s (record s { air = air_controlling; radio = radio_storing })
  fork_fails : s.air ≡ air_forking → Start pids s (record s { air = air_controlling })
  thread_fails : s.air ≡ air_controlling → Start pids s (record s { air = air_stopped })
  air_ends : s.air ≡ air_controlling → Start pids s (record s { air = air_ended; named = false })
  -- the child, and main of the radio, which removes the name where it cannot open the object
  radio_stores :
      s.radio ≡ radio_storing
      → Start pids s
          (record s { radio = radio_executing; cells = record s.cells { radio = pids.radio } })
  execute : s.radio ≡ radio_executing → Start pids s (record s { radio = radio_opening })
  execute_fails : s.radio ≡ radio_executing → Start pids s (record s { radio = radio_failed })
  radio_opens :
      s.radio ≡ radio_opening → s.named ≡ true → Start pids s (record s { radio = radio_mapping })
  radio_open_fails :
      s.radio ≡ radio_opening → Start pids s (record s { radio = radio_failed; named = false })
  radio_maps : s.radio ≡ radio_mapping → Start pids s (record s { radio = radio_installing 0 })
  radio_map_fails : s.radio ≡ radio_mapping → Start pids s (record s { radio = radio_failed })
  radio_installs :
      (n : ℕ)
      → s.radio ≡ radio_installing n
      → n < 3
      → Start pids s (record s { radio = radio_installing (n + 1) })
  radio_pauses : s.radio ≡ radio_installing 3 → Start pids s (record s { radio = radio_pausing })
  -- SigTerm
  radio_ends :
      s.radio ≡ radio_pausing → Start pids s (record s { radio = radio_ended; named = false })
  -- MemoryOpen, whose store is outside the object while that has no size
  ground_opens :
      s.ground ≡ ground_opening
      → s.named ≡ true
      → Start pids s (record s { ground = ground_mapping })
  ground_open_fails : s.ground ≡ ground_opening → Start pids s (record s { ground = ground_failed })
  ground_maps : s.ground ≡ ground_mapping → Start pids s (record s { ground = ground_storing })
  ground_map_fails : s.ground ≡ ground_mapping → Start pids s (record s { ground = ground_failed })
  ground_stores :
      s.ground ≡ ground_storing
      → s.sized ≡ true
      → Start pids s (record s {
        ground = ground_installing 0;
        cells = record s.cells { ground = pids.ground };
      })
  ground_faults :
      s.ground ≡ ground_storing
      → s.sized ≡ false
      → Start pids s (record s { ground = ground_failed })
  -- main of ground control: two calls of `sigaction`, `signal`, `setitimer`
  ground_installs :
      (n : ℕ)
      → s.ground ≡ ground_installing n
      → n < 3
      → Start pids s (record s { ground = ground_installing (n + 1) })
  timer_fails : s.ground ≡ ground_installing 3 → Start pids s (record s { ground = ground_stopped })
  ground_pauses :
      s.ground ≡ ground_installing 3 → Start pids s (record s { ground = ground_pausing })

-- The processes at their start, where no object of that name is there.
abbrev pub at_start : Startup
at_start = record {
  air = air_creating;
  radio = radio_unborn;
  ground = ground_opening;
  named = false;
  sized = false;
  cells = no_pids;
}

pub data Started (pids : Pids) : Startup → Type 0 where
  begin : Started pids at_start
  next : {s t : Startup} → Started pids s → Start pids s t → Started pids t

-- The process is there: it has started and has not ended.
abbrev pub air_alive : AirPlace → Bool
air_alive air_ended = false
air_alive air_failed = false
air_alive air_stopped = false
air_alive _ = true

abbrev pub radio_alive : RadioPlace → Bool
radio_alive radio_unborn = false
radio_alive radio_ended = false
radio_alive radio_failed = false
radio_alive _ = true

abbrev pub ground_alive : GroundPlace → Bool
ground_alive ground_failed = false
ground_alive ground_stopped = false
ground_alive _ = true

abbrev pub alive : Startup → Process → Bool
alive s air_control = air_alive s.air
alive s radio = radio_alive s.radio
alive s ground_control = ground_alive s.ground

-- Which processes are in one process group, which depends on how the programs are started: from one
-- script, or from two terminals.
abbrev pub Groups : Type 0
Groups = Process → Process → Bool

-- Whether `kill(n, ...)` of a process reaches another that is there: the number 0 stands for the
-- sender's group.
unfoldable pub reaches : Groups → Pids → Startup → Process → ℕ → Process → Bool
reaches same_group pids s sender n target =
    alive s target && (if n == 0 then same_group sender target else n == of pids target)
