-- ===== src/SumArray.antt =====
-- Section1/HM2: an array is filled with 1, 2, 3, … and added up (src/functions.c, src/main.c).
pub mod Triangle
mod Tests
use ciic.Common.{
  ℕ, zero, suc, ◌+◌, Bool, ◌||◌, not, Option, none, some, List, set, get_or, if◌then◌else◌,
}
use ciic.Common.Int.{ℤ, pos, pos_part, ltb_ℤ}

-- The `for` of `FillArray` from `i` on, with the rounds that are left.
pub fill_from : ℕ → ℕ → List ℕ → List ℕ
fill_from i zero arr = arr
fill_from i (suc left) arr = fill_from (i + 1) left (set arr i (i + 1))

pub fill_array : List ℕ → ℕ → List ℕ
unfolding fill_from
fill_array arr size = fill_from 0 size arr

pub sum_from : ℕ → ℕ → ℕ → List ℕ → ℕ
sum_from i zero sum arr = sum
sum_from i (suc left) sum arr = sum_from (i + 1) left (sum + get_or arr i 0) arr

pub sum_array : List ℕ → ℕ → ℕ
unfolding sum_from
sum_array arr size = sum_from 0 size 0 arr

-- `main` on the number that `scanf` reads, if it reads one, and on what `malloc` returns: what it
-- prints, or `none` for EXIT_FAILURE.
pub main : Option ℤ → (ℕ → Option (List ℕ)) → Option ℕ
unfolding fill_array sum_array
main none malloc = none
main (some n) malloc =
    if ltb_ℤ n (pos 10) || ltb_ℤ (pos 50) n then none else elim (malloc (pos_part n)) [
      | none ↦ none
      | some arr ↦ some (sum_array (fill_array arr (pos_part n)) (pos_part n))
    ]
