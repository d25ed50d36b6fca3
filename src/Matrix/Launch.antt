-- ===== src/Matrix/Launch.antt =====
-- Section4/L1: `SetCpuAffinity` and `SetNiceValue` of src/functions.c, and src/main.c.
use ciic.Common.{
  ℕ, ◌+◌, ◌≡◌, refl, Bool, true, false, ◌&&◌, some, List, [], ◌∷◌, ◌++◌, ◌==◌, if◌then◌else◌, arith,
  ltb, length, map, append_assoc, map-append,
}
use ciic.Common.Int.{ℤ, pos, negsuc}
use ciic.Matrix.{
  Doubles, Machine, Report, log, clock_warnings, heavy_cpu_task, matrix_size, Matrix, time_taken,
  tenths,
}
use ciic.Matrix.Product.{dot, heavy_cpu_task-dot}
use ciic.Common.Int.{sub_ℕ}

-- A `cpu_set_t` has 1024 bits, and `CPU_SET` leaves it as it is for any other number.
abbrev pub cpu_set : ℤ → ℕ → Bool
cpu_set (pos n) c = c == n && ltb n 1024
cpu_set (negsuc n) c = false

-- What the system answers to `setpriority`, `pthread_setaffinity_np`, `pthread_create` and `pthread_join`:
-- whether they succeed.
pub record Os : Type 0 where
  pub getpid : ℤ
  pub setpriority : ℤ → Bool
  pub setaffinity : (ℕ → Bool) → Bool
  pub create : Bool
  pub join : Bool

-- `atoi` on an argument
abbrev Atoi : Type 0
Atoi = List ℕ → ℤ

module _ (d : Doubles) where
  -- The lines of the program, those on stderr and those on stdout, in their order
  pub data Line : Type 0 where
    usage : Line
    test_start : (pid nice cpu : ℤ) → Line
    nice_failed : Line
    affinity_failed : Line
    create_failed : Line
    join_failed : Line
    report : Report d matrix_size → Line
    test_end : Line

  -- What a function writes, and what it returns
  pub record Outcome : Type 0 where
    pub lines : List Line
    pub code : ℤ

  -- `SetCpuAffinity`
  unfoldable pub set_cpu_affinity : Os → ℤ → Outcome
  set_cpu_affinity os cpu_num =
      if os.setaffinity (cpu_set cpu_num)
      then record { lines = []; code = pos 0 }
      else record { lines = affinity_failed ∷ []; code = negsuc 0 }

  -- `SetNiceValue`
  unfoldable pub set_nice_value : Os → ℤ → Outcome
  set_nice_value os nice_val =
      if os.setpriority nice_val
      then record { lines = []; code = pos 0 }
      else record { lines = nice_failed ∷ []; code = negsuc 0 }

  -- From `pthread_create` on; the thread, once created, is taken to end before `pthread_join` returns.
  unfoldable pub on_thread : Os → Machine d matrix_size → ℤ → Outcome
  on_thread os machine nice_val =
      let written = map report (heavy_cpu_task d matrix_size nice_val machine) in
      if os.create
      then if os.join
        then record { lines = written ++ (test_end ∷ []); code = pos 0 }
        else record { lines = written ++ (join_failed ∷ []); code = pos 1 }
      else record { lines = create_failed ∷ []; code = pos 1 }

  -- `main` goes on after `SetNiceValue` and `SetCpuAffinity`, whatever they return.
  unfoldable pub on_arguments : Os → Machine d matrix_size → ℤ → ℤ → Outcome
  unfolding set_cpu_affinity set_nice_value on_thread
  on_arguments os machine nice_val cpu_num =
      let nice = set_nice_value os nice_val in
      let affinity = set_cpu_affinity os cpu_num in
      let thread = on_thread os machine nice_val in
      record {
        lines =
            test_start os.getpid nice_val cpu_num ∷ nice.lines ++ (affinity.lines ++ thread.lines);
        code = thread.code;
      }

  unfoldable pub main : Atoi → Os → Machine d matrix_size → List (List ℕ) → Outcome
  unfolding on_arguments
  main atoi os machine (program ∷ nice ∷ cpu ∷ []) = on_arguments os machine (atoi nice) (atoi cpu)
  main atoi os machine argv = record { lines = usage ∷ []; code = pos 1 }

  -- The warnings of a start: neither stops the program.
  abbrev pub warnings : Os → ℤ → ℤ → List Line
  warnings os nice_val cpu_num =
      (if os.setpriority nice_val then [] else nice_failed ∷ [])
      ++ (if os.setaffinity (cpu_set cpu_num) then [] else affinity_failed ∷ [])

  -- The program has its two arguments, its thread starts and is joined, and `malloc` gives the three
  -- blocks. Then it exits with 0, and has written the line of its start, the warnings of the calls that
  -- failed, those of the clock included, the report and the line of its end; the report has the nice value of the first argument and the checksum of the
  -- matrices of 500 rows.
  pub main-dot :
      (atoi : Atoi) (os : Os) (machine : Machine d matrix_size) (a b c : Matrix d matrix_size)
      (program nice cpu : List ℕ)
      → os.create ≡ true
      → os.join ≡ true
      → machine.block_a ≡ some a
      → machine.block_b ≡ some b
      → machine.block_c ≡ some c
      → main atoi os machine (program ∷ nice ∷ cpu ∷ []) ≡ (record {
        lines =
            test_start os.getpid (atoi nice) (atoi cpu) ∷ warnings os (atoi nice) (atoi cpu)
            ++ (map report (clock_warnings d matrix_size machine)
                ++ (report (
                      log
                        (atoi nice)
                        machine.cpu
                        (time_taken d matrix_size machine.started machine.ended)
                        (dot d matrix_size matrix_size 0
                          (λ k. tenths d matrix_size (pos (250 + k)))
                          (λ k. tenths d matrix_size (sub_ℕ k 250))
                          (d.of_ℤ (pos 0))))
                    ∷ test_end
                    ∷ []));
        code = pos 0;
      })
  unfolding main on_arguments set_cpu_affinity set_nice_value on_thread
  main-dot atoi os machine a b c program nice cpu create join p q r = ground (
    arith,
    create,
    join,
    append_assoc (if os.setpriority (atoi nice) then [] else nice_failed ∷ []),
    map-append report (clock_warnings d matrix_size machine),
    append_assoc (map report (clock_warnings d matrix_size machine)),
    heavy_cpu_task-dot d matrix_size (atoi nice) machine a b c (omega arith) p q r,
  )

  -- The program exits with 0 if it has two arguments beside its name and its thread starts and is
  -- joined; else it exits with 1. Failures of `setpriority`, of the affinity and of `malloc` do not
  -- count.
  pub main_succeeds :
      (atoi : Atoi) (os : Os) (machine : Machine d matrix_size) (argv : List (List ℕ))
      → (main atoi os machine argv).code
        ≡ (if length argv == 3 && (os.create && os.join) then pos 0 else pos 1)
  unfolding main on_arguments on_thread
  main_succeeds atoi os machine [] = refl
  main_succeeds atoi os machine (p ∷ []) = refl
  main_succeeds atoi os machine (p ∷ n ∷ []) = refl
  main_succeeds atoi os machine (p ∷ n ∷ c ∷ []) = ground arith
  main_succeeds atoi os machine (p ∷ n ∷ c ∷ x ∷ rest) = ground arith
