-- ===== src/Matrix.antt =====
-- Section4/L1: src/functions.c, which multiplies two matrices in a thread, and src/main.c.
pub mod Product
pub mod Launch
mod Tests
use ciic.Common.{
  ℕ, zero, suc, ◌+◌, ◌/◌, Bool, true, false, ◌&&◌, Option, none, some, List, [], ◌∷◌, ◌++◌, ◌==◌,
  if◌then◌else◌,
}
use ciic.Common.Int.{ℤ, pos, ◌-ℤ◌, sub_ℕ}

abbrev pub matrix_size : ℕ
matrix_size = 500

-- `double`, as far as the program uses it
pub record Doubles : Type 1 where
  pub Double : Type 0
  pub of_ℤ : ℤ → Double
  pub add : Double → Double → Double
  pub mul : Double → Double → Double
  pub div : Double → Double → Double
  pub tenth : Double
  pub milliard : Double

-- What `clock_gettime` gives, and `struct timespec`
pub record Timespec : Type 0 where
  pub tv_sec : ℤ
  pub tv_nsec : ℤ

-- The functions below are for any size of the matrices, which the program takes from `MATRIX_SIZE`.
module _ (d : Doubles) (size : ℕ) where
  -- `double (*A)[MATRIX_SIZE]`: the rows and columns that the program uses are below `size`.
  abbrev pub Matrix : Type 0
  Matrix = ℕ → ℕ → d.Double

  -- `A[i][j] = x`
  abbrev pub put : Matrix → ℕ → ℕ → d.Double → Matrix
  put m i j x = λ r s. if r == i && s == j then x else m r s

  -- `(double)z * 0.1`
  abbrev pub tenths : ℤ → d.Double
  tenths z = d.mul (d.of_ℤ z) d.tenth

  pub record Matrices : Type 0 where
    pub a : Matrix
    pub b : Matrix
    pub c : Matrix

  -- `A[i][j] = ...; B[i][j] = ...; C[i][j] = 0.0;`
  abbrev pub fill_cell : ℕ → ℕ → Matrices → Matrices
  fill_cell i j m = record {
    a = put m.a i j (tenths (pos (i + j)));
    b = put m.b i j (tenths (sub_ℕ i j));
    c = put m.c i j (d.of_ℤ (pos 0));
  }

  -- The inner loop that initializes the matrices, and the outer one, with the rounds that are left.
  unfoldable pub fill_row : ℕ → ℕ → ℕ → Matrices → Matrices
  fill_row zero i j m = m
  fill_row (suc left) i j m = fill_row left i (j + 1) (fill_cell i j m)

  unfoldable pub fill_rows : ℕ → ℕ → Matrices → Matrices
  unfolding fill_row
  fill_rows zero i m = m
  fill_rows (suc left) i m = fill_rows left (i + 1) (fill_row size i 0 m)

  -- The loops of the multiplication, the innermost first
  unfoldable pub multiply_cell : ℕ → ℕ → ℕ → ℕ → Matrix → Matrix → Matrix → Matrix
  multiply_cell zero i j k a b c = c
  multiply_cell (suc left) i j k a b c =
      multiply_cell left i j (k + 1) a b (put c i j (d.add (c i j) (d.mul (a i k) (b k j))))

  unfoldable pub multiply_row : ℕ → ℕ → ℕ → Matrix → Matrix → Matrix → Matrix
  unfolding multiply_cell
  multiply_row zero i j a b c = c
  multiply_row (suc left) i j a b c =
      multiply_row left i (j + 1) a b (multiply_cell size i j 0 a b c)

  unfoldable pub multiply_rows : ℕ → ℕ → Matrix → Matrix → Matrix → Matrix
  unfolding multiply_row
  multiply_rows zero i a b c = c
  multiply_rows (suc left) i a b c = multiply_rows left (i + 1) a b (multiply_row size i 0 a b c)

  -- `time_taken`; `none` where a clock failed, and the variable was never set.
  unfoldable pub time_taken : Option Timespec → Option Timespec → Option d.Double
  time_taken none finish = none
  time_taken (some start) none = none
  time_taken (some start) (some finish) = some (
      d.add (d.of_ℤ (finish.tv_sec -ℤ start.tv_sec))
        (d.div (d.of_ℤ (finish.tv_nsec -ℤ start.tv_nsec)) d.milliard))

  -- What `HeavyCpuTask` finds: the three blocks of `malloc`, the clock at the start and at the end, and
  -- the core.
  pub record Machine : Type 0 where
    pub block_a : Option Matrix
    pub block_b : Option Matrix
    pub block_c : Option Matrix
    pub started : Option Timespec
    pub ended : Option Timespec
    pub cpu : ℤ

  -- What it prints
  pub data Report : Type 0 where
    no_memory : Report
    start_failed : Report
    end_failed : Report
    log : (nice cpu : ℤ) (time : Option d.Double) (checksum : d.Double) → Report

  abbrev middle : ℕ
  middle = size / 2

  -- The warning of a clock that failed, which does not stop the function
  abbrev pub clock_warning : Option Timespec → Report → List Report
  clock_warning none warning = warning ∷ []
  clock_warning (some t) warning = []

  abbrev pub clock_warnings : Machine → List Report
  clock_warnings machine =
      clock_warning machine.started start_failed ++ clock_warning machine.ended end_failed

  -- From the initialization on
  unfoldable pub on_matrices : ℤ → Machine → Matrices → List Report
  unfolding fill_rows multiply_rows time_taken
  on_matrices nice_val machine blocks =
      let m = fill_rows size 0 blocks in
      let c = multiply_rows size 0 m.a m.b m.c in
      clock_warnings machine
      ++ (log nice_val machine.cpu (time_taken machine.started machine.ended) (c middle middle)
          ∷ [])

  -- `HeavyCpuTask`
  unfoldable pub heavy_cpu_task : ℤ → Machine → List Report
  unfolding on_matrices
  heavy_cpu_task nice_val machine = elim machine.block_a [
    | none ↦ no_memory ∷ []
    | some a ↦ elim machine.block_b [
      | none ↦ no_memory ∷ []
      | some b ↦ elim machine.block_c [
        | none ↦ no_memory ∷ []
        | some c ↦ on_matrices nice_val machine (record { a = a; b = b; c = c })
      ]
    ]
  ]
