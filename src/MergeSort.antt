-- ===== src/MergeSort.antt =====
-- Practice/L1/src/functions.c: merge sort of an array of ints, in place. (Section1/L1 holds the
-- same file, and Section1/class_examples/calculate_median the same sort.)
pub mod Segments
pub mod Sorting
pub mod Statistics
pub mod Median
pub mod Halves
pub mod Input
mod Tests
use ciic.Common.{
  ℕ, zero, suc, ◌+◌, ◌-◌, ◌/◌, Bool, true, false, Option, none, some, List, [], ◌∷◌, get_or, set,
  ltb, leb,
}
use ciic.Common.Int.{ℤ, pos, leb_ℤ}

-- `for (i = 0; i < n; i++) L[i] = arr[start + i];`
pub copy_out : List ℤ → ℕ → ℕ → List ℤ
copy_out arr start zero = []
copy_out arr start (suc n) = get_or arr start (pos 0) ∷ copy_out arr (start + 1) n

-- `while (i < n) arr[k++] = L[i++];`, where the list is `L` from `i` on.
pub copy_back : List ℤ → List ℤ → ℕ → List ℤ
copy_back [] arr k = arr
copy_back (x ∷ l) arr k = copy_back l (set arr k x) (k + 1)

-- The three loops that write into `arr`; `l` and `r` are `L` from `i` on and `R` from `j` on.
pub merge_loop : List ℤ → List ℤ → List ℤ → ℕ → List ℤ
unfolding copy_back
merge_loop (x ∷ l) (y ∷ r) arr k = elim (leb_ℤ x y) [
  | true ↦ merge_loop l (y ∷ r) (set arr k x) (k + 1)
  | false ↦ merge_loop (x ∷ l) r (set arr k y) (k + 1)
]
merge_loop [] r arr k = copy_back r arr k
merge_loop (x ∷ l) [] arr k = copy_back (x ∷ l) arr k

-- `Merge`
pub merge : List ℤ → ℕ → ℕ → ℕ → List ℤ
unfolding copy_out merge_loop
merge arr left mid right =
    let n1 = mid + 1 - left in
    let n2 = right - mid in merge_loop (copy_out arr left n1) (copy_out arr (mid + 1) n2) arr left

-- `MergeSort`, with fuel for the depth of its calls; `none` means that the fuel ran out.
pub merge_sort : ℕ → List ℤ → ℕ → ℕ → Option (List ℤ)
unfolding merge
merge_sort zero arr left right = none
merge_sort (suc fuel) arr left right = elim (ltb left right) [
  | false ↦ some arr
  | true ↦
      let mid = left + (right - left) / 2 in
      elim (merge_sort fuel arr left mid) [
        | none ↦ none
        | some arr1 ↦ elim (merge_sort fuel arr1 (mid + 1) right) [
          | none ↦ none
          | some arr2 ↦ some (merge arr2 left mid right)
        ]
      ]
]

-- `SortArray`. At size 0 the last index is -1 in the program and 0 here; neither is above 0, and
-- nothing is sorted.
unfoldable pub sort_array : List ℤ → ℕ → Option (List ℤ)
unfolding merge_sort
sort_array arr size = merge_sort (size + 1) arr 0 (size - 1)
