-- ===== src/MergeSort/Tests.antt =====
-- Runs of Practice/L1/src/functions.c, and its theorem at an array.
use ciic.Common.{
  ◌%◌, ltb, if◌then◌else◌, zero, ℕ, suc, ◌≡◌, refl, arith, none, some, List, [], ◌∷◌, ◌++◌, ◌^◌,
  ◌-◌,
}
use mathlib.Core.List.{Perm}
use ciic.Common.Int.{ℤ, pos, negsuc}
use ciic.MergeSort.{merge, sort_array}
use ciic.Common.Int.{sub_ℕ, ◌+ℤ◌}
use ciic.Common.Text.{scan_int, codes}
use ciic.MergeSort.Statistics.{
  Doubles, value, overflow, out_of_bounds, printed, failure, undefined, main, calculate_median,
}
use ciic.MergeSort.Halves.{median_of, Middle}
use ciic.MergeSort.Input.{KeepsInts, numbers_in, total, main-Middle}
use ciic.MergeSort.Sorting.{IsSorted, sort_array-IsSorted}

abbrev numbers : List ℤ
numbers = pos 5 ∷ negsuc 2 ∷ pos 9 ∷ pos 0 ∷ negsuc 0 ∷ []

sort_array-numbers : sort_array numbers 5 ≡ some (negsuc 2 ∷ negsuc 0 ∷ pos 0 ∷ pos 5 ∷ pos 9 ∷ [])
unfolding sort_array
sort_array-numbers = refl

-- Only the first three elements
sort_array_prefix : sort_array numbers 3 ≡ some (negsuc 2 ∷ pos 5 ∷ pos 9 ∷ pos 0 ∷ negsuc 0 ∷ [])
unfolding sort_array
sort_array_prefix = refl

merge_middle :
    merge (pos 9 ∷ pos 2 ∷ pos 4 ∷ pos 1 ∷ pos 3 ∷ []) 1 2 4
    ≡ pos 9 ∷ pos 1 ∷ pos 2 ∷ pos 3 ∷ pos 4 ∷ []
unfolding merge
merge_middle = refl

sort_array-IsSorted_example :
    (out : List ℤ) × (sort_array (numbers ++ pos 4 ∷ []) 5 ≡ some (out ++ pos 4 ∷ []))
    × IsSorted out
    × Perm out numbers
sort_array-IsSorted_example = sort_array-IsSorted numbers (pos 4 ∷ [])

-- Fractions, enough for the runs below
data Fraction : Type 0 where
  over : ℤ → ℤ → Fraction

abbrev add_fractions : Fraction → Fraction → Fraction
add_fractions (over a b) (over c e) = over (a +ℤ c) b

abbrev div_fractions : Fraction → Fraction → Fraction
div_fractions (over a b) (over c e) = over a c

abbrev fractions : Doubles
fractions = record {
  Double = Fraction;
  of_ℤ = λ z. over z (pos 1);
  add = add_fractions;
  div = div_fractions;
}

abbrev zeros : ℕ → List ℤ
zeros zero = []
zeros (suc n) = pos 0 ∷ zeros n

-- The low 32 bits of a number
abbrev wrap : ℤ → ℤ
wrap (pos n) = if ltb (n % 2 ^ 32) (2 ^ 31) then pos (n % 2 ^ 32) else sub_ℕ (n % 2 ^ 32) (2 ^ 32)
wrap (negsuc n) =
    if ltb (n % 2 ^ 32) (2 ^ 31) then negsuc (n % 2 ^ 32) else pos (2 ^ 32 - 1 - n % 2 ^ 32)

wrap_keeps : KeepsInts wrap
wrap_keeps (pos n) fits = ground (arith, fits)
wrap_keeps (negsuc n) fits = ground (arith, fits)

abbrev typed : List ℕ
typed = codes "4\n7 -3\n10 4\n"

main-typed :
    main fractions wrap (λ n. some (zeros n)) typed
    ≡ printed (value (over (pos 11) (pos 2))) (value (over (pos 18) (pos 4)))
unfolding main scan_int ◌+ℤ◌
main-typed = refl

-- An input that says 4 and ends leaves what was in the block.
main_short :
    main fractions wrap (λ n. some (zeros n)) (codes "4 8")
    ≡ printed (value (over (pos 0) (pos 2))) (value (over (pos 8) (pos 4)))
unfolding main scan_int ◌+ℤ◌
main_short = refl

-- At size 0 the median is of `arr[-1]`.
main_empty :
    main fractions wrap (λ n. some (zeros n)) (codes "0")
    ≡ printed out_of_bounds (value (over (pos 0) (pos 0)))
unfolding main scan_int ◌+ℤ◌
main_empty = refl

-- 4294967297 is stored as 1.
main_wraps :
    main fractions wrap (λ n. some (zeros n)) (codes "1 4294967297")
    ≡ printed (value (over (pos 1) (pos 1))) (value (over (pos 1) (pos 1)))
unfolding main scan_int ◌+ℤ◌
main_wraps = refl

main_failure : main fractions wrap (λ n. none) typed ≡ failure
unfolding main scan_int
main_failure = refl

main_letters : main fractions wrap (λ n. some (zeros n)) (codes "x") ≡ undefined
unfolding main scan_int ◌+ℤ◌
main_letters = refl

-- The two in the middle are added as ints.
median_overflow : calculate_median fractions (pos 1 ∷ pos (2 ^ 31 - 1) ∷ []) 2 ≡ overflow
unfolding calculate_median ◌+ℤ◌
median_overflow = refl

main-Middle_example :
    (out : List ℤ) × (lo : ℤ) × (hi : ℤ) × IsSorted out
    × Perm out (pos 7 ∷ negsuc 2 ∷ pos 10 ∷ pos 4 ∷ [])
    × Middle (pos 7 ∷ negsuc 2 ∷ pos 10 ∷ pos 4 ∷ []) lo hi
    × (main fractions wrap (λ n. some (zeros n)) typed
        ≡ printed (median_of fractions 4 lo hi) (
            value
              (fractions.div (total fractions (over (pos 0) (pos 1)) out) (over (pos 4) (pos 1)))))
unfolding numbers_in scan_int
main-Middle_example =
    main-Middle fractions wrap (λ n. some (zeros n)) typed (codes "\n7 -3\n10 4\n")
      (pos 7 ∷ negsuc 2 ∷ pos 10 ∷ pos 4 ∷ []) (zeros 4) wrap_keeps refl refl refl (omega arith)
      refl refl
