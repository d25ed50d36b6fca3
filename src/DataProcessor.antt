-- ===== src/DataProcessor.antt =====
-- exam1_structurefixed/data_processor/src/main.c: a process that shares a block of ten doubles with a
-- data creator, and sends their average to a data logger at each signal; and in `First` the
-- version of exam1_structure.
pub mod First
pub mod Release
pub mod Messages
mod Tests
use ciic.Common.{ℕ, ◌+◌, Bool, true, false, List, [], ◌∷◌, ◌++◌, if◌then◌else◌, leb, not}

abbrev pub num_elements : ℕ
num_elements = 10

abbrev pub max_signals : ℕ
max_signals = 5

-- `double`, as far as the program uses it: a sum, a quotient and `"%f"`.
pub record Doubles : Type 1 where
  pub Double : Type 0
  pub zero : Double
  pub add : Double → Double → Double
  pub quotient : Double → ℕ → Double
  pub print : Double → List ℕ

-- Which system calls succeed.
pub record Os : Type 0 where
  pub sigaction : Bool
  pub shm_open : Bool
  pub ftruncate : Bool
  pub mmap : Bool
  pub mq_open : Bool
  pub fork_creator : Bool
  pub fork_logger : Bool

-- What outlives the process or has to be given back: the two names, the mapping, the open queue, the
-- children that have not been waited for; and the messages in the queue.
pub record Kernel : Type 0 where
  pub shm_name : Bool
  pub mapping : Bool
  pub mq_name : Bool
  pub queue : Bool
  pub creator : Bool
  pub logger : Bool
  pub messages : List (List ℕ)

abbrev pub at_start : Kernel
at_start = record {
  shm_name = false;
  mapping = false;
  mq_name = false;
  queue = false;
  creator = false;
  logger = false;
  messages = [];
}

-- The system calls, where they succeed.
abbrev pub shm_open : Kernel → Kernel
shm_open k = record k { shm_name = true }

abbrev pub shm_unlink : Kernel → Kernel
shm_unlink k = record k { shm_name = false }

abbrev pub mmap : Kernel → Kernel
mmap k = record k { mapping = true }

abbrev pub munmap : Kernel → Kernel
munmap k = record k { mapping = false }

abbrev pub mq_open : Kernel → Kernel
mq_open k = record k { mq_name = true; queue = true }

abbrev pub mq_close : Kernel → Kernel
mq_close k = record k { queue = false }

abbrev pub mq_unlink : Kernel → Kernel
mq_unlink k = record k { mq_name = false }

abbrev pub fork_creator : Kernel → Kernel
fork_creator k = record k { creator = true }

abbrev pub fork_logger : Kernel → Kernel
fork_logger k = record k { logger = true }

-- `waitpid`, where the child ends by itself or has been sent SIGTERM.
abbrev pub wait_creator : Kernel → Kernel
wait_creator k = record k { creator = false }

abbrev pub wait_logger : Kernel → Kernel
wait_logger k = record k { logger = false }

-- The end of the process takes its mappings and its open queues with it.
abbrev pub exited : Kernel → Kernel
exited k = munmap (mq_close k)

-- How `main` ends; `pausing` means that it waits for a signal that does not come, `bus_error` that
-- it reads a mapping of an object without size.
pub data End : Type 0 where
  success : End
  failure : End
  pausing : End
  bus_error : End

module _ (d : Doubles) where
  open d use {Double}

  -- A return of `pause`: the signals handled since the test of the `while` (those that came before
  -- the `pause` included), the block as it is then, and whether `mq_send` succeeds.
  pub record Wake : Type 0 where
    pub signals : ℕ
    pub block : List Double
    pub sends : Bool

  pub sum_of : Double → List Double → Double
  sum_of sum [] = sum
  sum_of sum (x ∷ xs) = sum_of (d.add sum x) xs

  -- The text of the average.
  pub message : List Double → List ℕ
  unfolding sum_of
  message block = d.print (d.quotient (sum_of d.zero block) num_elements)

  pub send : Kernel → List ℕ → Kernel
  send k text = record k { messages = k.messages ++ text ∷ [] }

  -- The `while`; the Boolean says that it has been left.
  pub loop : ℕ → List Wake → Kernel → Kernel × Bool
  unfolding message send
  loop signal_count [] k = (k, leb max_signals signal_count)
  loop signal_count (w ∷ ws) k =
      let skip = loop (signal_count + w.signals) ws k in
      let go_on = loop (signal_count + w.signals) ws (send k (message w.block)) in
      if leb max_signals signal_count
      then (k, true)
      else if leb (signal_count + w.signals) max_signals
      then (if w.sends then go_on else (k, true))
      else skip

  -- Behind the loop: both children are waited for, and everything is given back.
  pub clean_up : Kernel → Kernel
  clean_up k = mq_unlink (mq_close (shm_unlink (munmap (wait_logger (wait_creator k)))))

  pub after_loop : Kernel × Bool → End × Kernel
  unfolding clean_up
  after_loop (k, true) = (success, exited (clean_up k))
  after_loop (k, false) = (pausing, k)

  -- `main` from the first `fork` on.
  pub with_children : Os → List Wake → Kernel → End × Kernel
  unfolding loop after_loop
  with_children os ws k =
      if not os.fork_creator
      then (failure, exited k)
      else if not os.fork_logger
      then (failure, exited (wait_creator (fork_creator k)))
      else after_loop (loop 0 ws (fork_logger (fork_creator k)))

  pub main : Os → List Wake → End × Kernel
  unfolding with_children
  main os ws =
      if not os.sigaction
      then (failure, exited at_start)
      else if not os.shm_open
      then (failure, exited at_start)
      else if not os.ftruncate
      then (failure, exited (shm_unlink (shm_open at_start)))
      else if not os.mmap
      then (failure, exited (shm_unlink (shm_open at_start)))
      else if not os.mq_open
      then (failure, exited (shm_unlink (munmap (mmap (shm_open at_start)))))
      else with_children os ws (mq_open (mmap (shm_open at_start)))
