-- ===== src/MergeSort/Statistics.antt =====
-- Practice/L1: the statistics of src/functions.c, and src/main.c, which reads numbers and prints them.
use ciic.Common.{
  ℕ, zero, suc, ◌+◌, ◌-◌, ◌/◌, ◌%◌, ◌^◌, Bool, ◌&&◌, Option, none, some, List, [], get_elem?, set,
  ◌==◌, if◌then◌else◌, ◌>>=◌,
}
use ciic.Common.Int.{ℤ, pos, negsuc, leb_ℤ, ◌+ℤ◌}
use ciic.Common.Text.{Scanned, number, mismatch, end_of_file, scan_int}
use ciic.MergeSort.{sort_array}

-- `double`, as far as the program uses it
pub record Doubles : Type 1 where
  pub Double : Type 0
  pub of_ℤ : ℤ → Double
  pub add : Double → Double → Double
  pub div : Double → Double → Double

-- What a function returns, or what goes wrong in it
pub data Result (A : Type 0) : Type 0 where
  value : A → Result A
  out_of_bounds : Result A
  overflow : Result A

-- The range of an `int`
abbrev pub fits_int : ℤ → Bool
fits_int z = leb_ℤ (negsuc (2 ^ 31 - 1)) z && leb_ℤ z (pos (2 ^ 31 - 1))

module _ (d : Doubles) where
  -- `(a + b) / 2.0`, where the sum is one of `int`
  abbrev pub half_sum : ℤ → ℤ → Result d.Double
  half_sum a b =
      if fits_int (a +ℤ b) then value (d.div (d.of_ℤ (a +ℤ b)) (d.of_ℤ (pos 2))) else overflow

  unfoldable pub on_pair : Option ℤ → Option ℤ → Result d.Double
  on_pair (some a) (some b) = half_sum a b
  on_pair none b = out_of_bounds
  on_pair (some a) none = out_of_bounds

  unfoldable pub on_one : Option ℤ → Result d.Double
  on_one none = out_of_bounds
  on_one (some a) = value (d.of_ℤ a)

  -- `arr[middle_of_array - 1]`, which is outside the array where the middle is 0
  abbrev pub before : List ℤ → ℕ → Option ℤ
  before arr zero = none
  before arr (suc n) = get_elem? arr n

  -- `CalculateMedian`
  unfoldable pub calculate_median : List ℤ → ℕ → Result d.Double
  unfolding on_pair on_one
  calculate_median arr size =
      let middle_of_array = size / 2 in
      if size % 2 == 0
      then on_pair (before arr middle_of_array) (get_elem? arr middle_of_array)
      else on_one (get_elem? arr middle_of_array)

  -- The `while` of `CalculateMean`, with the rounds that are left.
  unfoldable pub mean_loop : ℕ → ℕ → d.Double → List ℤ → Option d.Double
  mean_loop zero i media arr = some media
  mean_loop (suc left) i media arr = do
    x ← get_elem? arr i
    mean_loop left (i + 1) (d.add media (d.of_ℤ x)) arr

  -- `CalculateMean`
  unfoldable pub calculate_mean : List ℤ → ℕ → Result d.Double
  unfolding mean_loop
  calculate_mean arr size = elim (mean_loop size 0 (d.of_ℤ (pos 0)) arr) [
    | none ↦ out_of_bounds
    | some media ↦ value (d.div media (d.of_ℤ (pos size)))
  ]

-- The `int` that `scanf` stores for a number; where it does not fit, this is for the library to say.
abbrev pub AsInt : Type 0
AsInt = ℤ → ℤ

-- The body of the `for` of `main`: a number that cannot be read leaves the entry as `malloc` gave it.
unfoldable pub on_number : AsInt → (List ℕ → List ℤ → List ℤ) → ℕ → List ℤ → Scanned → List ℤ
on_number as_int next i numbers (number z rest) = next rest (set numbers i (as_int z))
on_number as_int next i numbers (mismatch rest) = next rest numbers
on_number as_int next i numbers end_of_file = next [] numbers

-- The `for`, with the rounds that are left
unfoldable pub read_numbers : AsInt → ℕ → ℕ → List ℕ → List ℤ → List ℤ
unfolding on_number
read_numbers as_int zero i input numbers = numbers
read_numbers as_int (suc left) i input numbers =
    on_number as_int (read_numbers as_int left (i + 1)) i numbers (scan_int input)

-- What `main` prints, the median and the mean; or EXIT_FAILURE; or the size, or the end of a sort, is
-- not there.
pub data Printed (A : Type 0) : Type 0 where
  printed : Result A → Result A → Printed A
  failure : Printed A
  undefined : Printed A

module _ (d : Doubles) (as_int : AsInt) where
  unfoldable pub on_sorted : ℕ → Option (List ℤ) → Printed d.Double
  unfolding calculate_median calculate_mean
  on_sorted size none = undefined
  on_sorted size (some numbers) =
      printed (calculate_median d numbers size) (calculate_mean d numbers size)

  -- From `malloc` on, which gives what stands in the block, if it gives one.
  unfoldable pub on_block : ℕ → List ℕ → Option (List ℤ) → Printed d.Double
  unfolding on_sorted read_numbers sort_array
  on_block size input none = failure
  on_block size input (some block) =
      on_sorted size (sort_array (read_numbers as_int size 0 input block) size)

  -- A negative size is no size that `malloc` has, since it is taken for one near 2^64.
  unfoldable pub on_int : (ℕ → Option (List ℤ)) → ℤ → List ℕ → Printed d.Double
  unfolding on_block
  on_int malloc (pos size) rest = on_block size rest (malloc size)
  on_int malloc (negsuc n) rest = failure

  unfoldable pub on_size : (ℕ → Option (List ℤ)) → Scanned → Printed d.Double
  unfolding on_int
  on_size malloc (number z rest) = on_int malloc (as_int z) rest
  on_size malloc (mismatch rest) = undefined
  on_size malloc end_of_file = undefined

  -- `main` on the bytes of the input
  unfoldable pub main : (ℕ → Option (List ℤ)) → List ℕ → Printed d.Double
  unfolding on_size
  main malloc input = on_size malloc (scan_int input)
