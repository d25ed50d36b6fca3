-- ===== src/DataProcessor/First.antt =====
-- exam1_structure/data_processor/src/main.c: the version of the data processor that does not check
-- `shm_open` and `ftruncate`, gives everything back at every failure, and sends at every signal.
use ciic.Common.{ℕ, ◌+◌, Bool, true, List, [], ◌∷◌, if◌then◌else◌, leb, not, ◌&&◌}
use ciic.DataProcessor.{
  max_signals, Doubles, Os, Kernel, at_start, shm_open, shm_unlink, mmap, munmap, mq_open, mq_close,
  mq_unlink, fork_creator, fork_logger, wait_creator, exited, End, failure, pausing, bus_error,
  Wake, message, send, after_loop,
}

module _ (d : Doubles) where
  unfoldable pub loop : ℕ → List (Wake d) → Kernel → Kernel × Bool
  unfolding message send
  loop signal_count [] k = (k, leb max_signals signal_count)
  loop signal_count (w ∷ ws) k =
      let go_on = loop (signal_count + w.signals) ws (send d k (message d w.block)) in
      if leb max_signals signal_count then (k, true) else if w.sends then go_on else (k, true)

  -- An object without its size: the first read of the block fails.
  unfoldable pub unsized : List (Wake d) → Kernel → End × Kernel
  unsized [] k = (pausing, k)
  unsized (w ∷ ws) k = (bus_error, exited k)

  -- What every failure from `sigaction` on gives back.
  abbrev pub give_back : Kernel → Kernel
  give_back k = mq_unlink (mq_close (shm_unlink (munmap k)))

  -- `main` from the first `fork` on.
  unfoldable pub with_children : Os → List (Wake d) → Kernel → End × Kernel
  unfolding loop after_loop unsized
  with_children os ws k =
      if not os.fork_creator
      then (failure, exited (give_back k))
      else if not os.fork_logger
      then (failure, exited (give_back (wait_creator (fork_creator k))))
      else if os.ftruncate
      then after_loop d (loop 0 ws (fork_logger (fork_creator k)))
      else unsized ws (fork_logger (fork_creator k))

  -- Where `shm_open` fails, so does `mmap`, of the descriptor -1; then the name that is unlinked does
  -- not exist.
  unfoldable pub main : Os → List (Wake d) → End × Kernel
  unfolding with_children
  main os ws =
      let k1 = if os.shm_open then shm_open at_start else at_start in
      if not (os.shm_open && os.mmap)
      then (failure, exited (shm_unlink k1))
      else if not os.mq_open
      then (failure, exited (shm_unlink (munmap (mmap k1))))
      else if not os.sigaction
      then (failure, exited (give_back (mq_open (mmap k1))))
      else with_children os ws (mq_open (mmap k1))
