-- ===== src/Matrix/Tests.antt =====
-- Runs of Section4/L1, and its theorems at a machine.
use ciic.Common.{ℕ, ◌+◌, ◌≡◌, refl, true, false, none, some, map, List, [], ◌∷◌, ◌++◌, length}
use ciic.Common.Int.{ℤ, pos, negsuc, ◌+ℤ◌, ◌-ℤ◌, ◌*ℤ◌, sub_ℕ}
use ciic.Matrix.{
  Doubles, Machine, log, start_failed, heavy_cpu_task, tenths, time_taken, multiply_rows,
}
use ciic.Matrix.Product.{dot, multiply_rows-dot}
use ciic.Matrix.Launch.{
  Os, main, main-dot, main_succeeds, test_start, usage, create_failed, report, test_end,
  affinity_failed, warnings,
}

-- Whole numbers in place of doubles, with 0.1 as the unit
abbrev units : Doubles
units = record {
  Double = ℤ;
  of_ℤ = λ z. z;
  add = ◌+ℤ◌;
  mul = ◌*ℤ◌;
  div = λ a b. a;
  tenth = pos 1;
  milliard = pos 1;
}

abbrev garbage : ℕ → ℕ → ℤ
garbage r s = pos 77

abbrev machine : (size : ℕ) → Machine units size
machine size = record {
  block_a = some garbage;
  block_b = some garbage;
  block_c = some garbage;
  started = some (record { tv_sec = pos 4; tv_nsec = pos 9 });
  ended = some (record { tv_sec = pos 6; tv_nsec = pos 1 });
  cpu = pos 2;
}

-- 1 * 1 + ... : the middle row of A is 1 2 3, the middle column of B -1 0 1.
heavy_cpu_task_three :
    heavy_cpu_task units 3 (pos 5) (machine 3) ≡ log (pos 5) (pos 2) (some (negsuc 5)) (pos 2) ∷ []
unfolding heavy_cpu_task ◌+ℤ◌ ◌-ℤ◌ ◌*ℤ◌
heavy_cpu_task_three = refl

-- The first reading of the clock fails.
heavy_cpu_task_warns :
    heavy_cpu_task units 1 (pos 5) (record (machine 1) { started = none })
    ≡ start_failed ∷ log (pos 5) (pos 2) none (pos 0) ∷ []
unfolding heavy_cpu_task ◌+ℤ◌ ◌-ℤ◌ ◌*ℤ◌
heavy_cpu_task_warns = refl

abbrev os : Os
os = record {
  getpid = pos 40;
  setpriority = λ z. true;
  setaffinity = λ s. s 1;
  create = true;
  join = true;
}

abbrev atoi : List ℕ → ℤ
atoi text = pos (length text)

main_usage : main units atoi os (machine 500) [] ≡ record { lines = usage ∷ []; code = pos 1 }
unfolding main
main_usage = refl

main_no_thread :
    main units atoi (record os { create = false }) (machine 500) ([] ∷ [] ∷ [] ∷ []) ≡ record {
      lines = test_start (pos 40) (pos 0) (pos 0) ∷ affinity_failed ∷ create_failed ∷ [];
      code = pos 1;
    }
unfolding main
main_no_thread = refl

multiply_rows-dot_example :
    multiply_rows units 3 3 0 garbage garbage garbage 1 2
    ≡ dot units 3 3 0 (garbage 1) (λ t. garbage t 2) (pos 77)
multiply_rows-dot_example = multiply_rows-dot units 3 3 0 garbage garbage garbage 1 2

main-dot_example : main units atoi os (machine 500) ([] ∷ (53 ∷ []) ∷ (49 ∷ []) ∷ []) ≡ (record {
  lines =
      test_start (pos 40) (pos 1) (pos 1) ∷ warnings units os (pos 1) (pos 1)
      ++ (map report []
          ++ (report (
                log
                  (pos 1)
                  (pos 2)
                  (time_taken units 500 (machine 500).started (machine 500).ended)
                  (dot units 500 500 0
                    (λ k. tenths units 500 (pos (250 + k)))
                    (λ k. tenths units 500 (sub_ℕ k 250))
                    (pos 0)))
              ∷ test_end
              ∷ []));
  code = pos 0;
})
main-dot_example =
    main-dot units atoi os (machine 500) garbage garbage garbage [] (53 ∷ []) (49 ∷ []) refl refl
      refl refl refl

-- One argument is missing.
main_succeeds_example : (main units atoi os (machine 500) ([] ∷ (53 ∷ []) ∷ [])).code ≡ pos 1
main_succeeds_example = main_succeeds units atoi os (machine 500) ([] ∷ (53 ∷ []) ∷ [])
