-- ===== src/DataProcessor/Tests.antt =====
-- Runs of the two data processors of the first exam, and the theorems at them.
use ciic.Common.{ℕ, ◌+◌, ◌/◌, ◌≡◌, refl, true, false, List, [], ◌∷◌, arith, replicate}
use ciic.DataProcessor.{Doubles, Os, success, Wake, loop, main, at_start}
use ciic.DataProcessor.First
use ciic.DataProcessor.Messages.{total, loop-eq-first_loop}

-- Whole numbers in place of doubles, printed as one code.
abbrev whole : Doubles
whole = record { Double = ℕ; zero = 0; add = ◌+◌; quotient = ◌/◌; print = λ n. n ∷ [] }

abbrev fine : Os
fine = record {
  sigaction = true;
  shm_open = true;
  ftruncate = true;
  mmap = true;
  mq_open = true;
  fork_creator = true;
  fork_logger = true;
}

-- The block is ten times `n`.
abbrev wake : ℕ → ℕ → Wake whole
wake signals n = record { signals = signals; block = replicate 10 n; sends = true }

abbrev five : List (Wake whole)
five = wake 1 4 ∷ wake 1 6 ∷ wake 1 0 ∷ wake 1 9 ∷ wake 1 2 ∷ []

main_five : main whole fine five ≡ (
  success,
  record at_start { messages = (4 ∷ []) ∷ (6 ∷ []) ∷ (0 ∷ []) ∷ (9 ∷ []) ∷ (2 ∷ []) ∷ [] },
)
unfolding main
main_five = refl

-- Six signals at four returns: the version of exam1_structure sends at the last return, that of
-- exam1_structurefixed does not.
abbrev burst : List (Wake whole)
burst = wake 1 4 ∷ wake 2 6 ∷ wake 1 0 ∷ wake 2 9 ∷ []

main_burst :
    ((main whole fine burst).1.messages ≡ (4 ∷ []) ∷ (6 ∷ []) ∷ (0 ∷ []) ∷ [])
    × ((First.main whole fine burst).1.messages ≡ (4 ∷ []) ∷ (6 ∷ []) ∷ (0 ∷ []) ∷ (9 ∷ []) ∷ [])
unfolding main First.main
main_burst = (refl, refl)

abbrev no_logger : Os
no_logger = record fine { fork_logger = false }

loop-eq-first_loop_example : loop whole 0 five at_start ≡ First.loop whole 0 five at_start
unfolding total
loop-eq-first_loop_example = loop-eq-first_loop whole 0 five at_start (omega arith)
