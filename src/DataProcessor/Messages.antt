-- ===== src/DataProcessor/Messages.antt =====
-- The averages that the two data processors of the first exam send.
use ciic.Common.{
  ℕ, zero, suc, ◌+◌, ◌-◌, ◌≤◌, ◌≡◌, refl, true, List, [], ◌∷◌, ◌++◌, arith, map, length, take, All,
  ◌&&◌, append_assoc, append-nil, length-append,
}
use ciic.DataProcessor.{
  Doubles, Os, Kernel, success, Wake, message, send, loop, after_loop, clean_up, with_children,
  main, max_signals, at_start, shm_open, mmap, mq_open, fork_creator, fork_logger,
}
use ciic.DataProcessor.First
use ciic.DataProcessor.Release.{reaches_fork}

-- The kernel at the start of the loop.
abbrev running : Kernel
running = fork_logger (fork_creator (mq_open (mmap (shm_open at_start))))

module _ (d : Doubles) where
  unfoldable pub total : List (Wake d) → ℕ
  total [] = 0
  total (w ∷ ws) = w.signals + total ws

  -- As long as no more than five signals come, the `while` of exam1_structurefixed does what that of
  -- exam1_structure does: it sends the same and is left at the same place.
  pub loop-eq-first_loop :
      (signal_count : ℕ) (ws : List (Wake d)) (k : Kernel)
      → signal_count + total ws ≤ max_signals
      → loop d signal_count ws k ≡ First.loop d signal_count ws k
  unfolding loop First.loop total
  loop-eq-first_loop signal_count [] k h = refl
  loop-eq-first_loop signal_count (w ∷ ws) k h =
      ground
        (arith, loop-eq-first_loop (signal_count + w.signals) ws (send d k (message d w.block)))

  -- With a signal at each return of `pause`, the loop is left after as many returns as signals are
  -- missing, and it sends no more than that.
  loop_ends :
      (signal_count : ℕ) (ws : List (Wake d)) (k : Kernel)
      → All (λ w. 1 ≤ w.signals) ws
      → max_signals ≤ signal_count + length ws
      → ((loop d signal_count ws k).1 ≡ true)
        × (length (loop d signal_count ws k).0.messages
            ≤ length k.messages + (max_signals - signal_count))
  unfolding loop send
  loop_ends signal_count [] k h enough = ground arith
  loop_ends signal_count (w ∷ ws) k h enough = ground (
    arith,
    loop_ends (signal_count + w.signals) ws k,
    loop_ends (signal_count + w.signals) ws (send d k (message d w.block)),
    length-append k.messages (message d w.block ∷ []),
  )

  -- Where every call before the loop succeeds, and each of five or more returns of `pause` comes with
  -- a signal, `main` ends with success and has sent five averages at most.
  main_ends :
      (os : Os) (ws : List (Wake d))
      → reaches_fork os && (os.fork_creator && os.fork_logger) ≡ true
      → All (λ w. 1 ≤ w.signals) ws
      → max_signals ≤ length ws
      → ((main d os ws).0 ≡ success) × (length (main d os ws).1.messages ≤ max_signals)
  unfolding main with_children after_loop clean_up
  main_ends os ws ready h enough = ground (arith, loop_ends 0 ws running)

  -- One signal at each return, and a queue that takes every message.
  abbrev pub Steady : Wake d → Type 0
  Steady w = (w.signals ≡ 1) × (w.sends ≡ true)

  loop-Steady :
      (left signal_count : ℕ) (ws : List (Wake d)) (k : Kernel)
      → left + signal_count ≡ max_signals
      → All Steady ws
      → (loop d signal_count ws k).0.messages
        ≡ k.messages ++ map (λ w. message d w.block) (take left ws)
  unfolding loop send
  loop-Steady zero signal_count [] k e h = ground (arith, append-nil k.messages)
  loop-Steady (suc left) signal_count [] k e h = ground (arith, append-nil k.messages)
  loop-Steady zero signal_count (w ∷ ws) k e h = ground (arith, append-nil k.messages)
  loop-Steady (suc left) signal_count (w ∷ ws) k e h = ground (
    arith,
    loop-Steady left (signal_count + w.signals) ws (send d k (message d w.block)),
    append_assoc k.messages (message d w.block ∷ [])
        (map (λ (v : Wake d). message d v.block) (take left ws)),
  )

  -- Where every call before the loop succeeds, and `pause` returns at each signal and the queue takes
  -- each message, `main` sends the average of the block at each of the first five signals.
  main-Steady :
      (os : Os) (ws : List (Wake d))
      → reaches_fork os && (os.fork_creator && os.fork_logger) ≡ true
      → All Steady ws
      → (main d os ws).1.messages ≡ map (λ w. message d w.block) (take max_signals ws)
  unfolding main with_children after_loop clean_up
  main-Steady os ws ready h = ground (arith, loop-Steady max_signals 0 ws running refl)
