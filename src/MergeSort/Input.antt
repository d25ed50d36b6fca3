-- ===== src/MergeSort/Input.antt =====
-- What `main` of Practice/L1 prints for the numbers that it reads.
use ciic.Common.{
  set-append, length-snoc, ℕ, zero, suc, ◌+◌, ◌≤◌, ◌≡◌, refl, Option, none, some, List, [], ◌∷◌,
  ◌++◌, arith, length, get_elem?, append-nil, append_assoc, ap, ap₂, ◌∙◌, ◌>>=◌, Option-cases, inl,
  inr, subst, sym, true, Bool-cases, if◌then◌else◌,
}
use mathlib.Core.List.{foldl, Perm}
use ciic.Common.Int.{ℤ, pos}
use ciic.Common.Text.{Scanned, number, mismatch, end_of_file, scan_int}
use ciic.MergeSort.{sort_array}
use ciic.MergeSort.Sorting.{IsSorted, sort_array-IsSorted}
use ciic.MergeSort.Statistics.{
  AsInt, fits_int, on_int, Doubles, Result, value, calculate_median, mean_loop, calculate_mean,
  on_number, read_numbers, printed, on_sorted, on_block, on_size, main,
}
use ciic.MergeSort.Halves.{length-perm, Middle-perm, Middle, median_of, calculate_median_lem}

get_elem?-append : (pre post : List ℤ) (x : ℤ) → get_elem? (pre ++ x ∷ post) (length pre) ≡ some x
get_elem?-append [] post x = refl
get_elem?-append (p ∷ pre) post x = get_elem?-append pre post x

-- The numbers that an input holds, one behind the other, if each is an `int`
abbrev scanned_in : (List ℕ → Option (List ℤ)) → Scanned → Option (List ℤ)
scanned_in next (number z rest) = if fits_int z then (next rest >>= λ zs. some (z ∷ zs)) else none
scanned_in next (mismatch rest) = none
scanned_in next end_of_file = none

unfoldable pub numbers_in : ℕ → List ℕ → Option (List ℤ)
numbers_in zero input = some []
numbers_in (suc left) input = scanned_in (numbers_in left) (scan_int input)

-- `scanf` stores a number that is an `int` as it is.
abbrev pub KeepsInts : AsInt → Type 0
KeepsInts as_int = (z : ℤ) → fits_int z ≡ true → as_int z ≡ z

module _ (as_int : AsInt) (keeps : KeepsInts as_int) where
  on_number_lem :
      (s : Scanned) (o : ℤ) (old pre xs : List ℤ)
      → ((input : List ℕ) (before after : List ℤ)
          → numbers_in (length old) input ≡ some after
          → read_numbers as_int (length old) (length before) input (before ++ old)
            ≡ before ++ after)
      → scanned_in (numbers_in (length old)) s ≡ some xs
      → on_number as_int
          (read_numbers as_int (length old) (length pre + 1))
          (length pre)
          (pre ++ o ∷ old)
          s
        ≡ pre ++ xs
  unfolding on_number
  on_number_lem (number z rest) o old pre xs ih p = elim (Bool-cases (fits_int z)) [
    | inr large ↦ absurd (ground (arith, p, large))
    | inl fits ↦ elim (Option-cases (numbers_in (length old) rest)) [
      | inl q ↦ absurd (ground (arith, p, q, fits))
      | inr (ys, q) ↦
          let all : z ∷ ys ≡ xs = ground (arith, p, q, fits) in
          rw (keeps z fits, set-append pre old o z)
            (ground (
              arith,
              all,
              length-snoc pre z,
              ih rest (pre ++ z ∷ []) ys q,
              append_assoc pre (z ∷ []) ys,
            ))
    ]
  ]
  on_number_lem (mismatch rest) o old pre xs ih p = absurd (ground (arith, p))
  on_number_lem end_of_file o old pre xs ih p = absurd (ground (arith, p))

  read_numbers_lem :
      (old : List ℤ) (input : List ℕ) (pre xs : List ℤ)
      → numbers_in (length old) input ≡ some xs
      → read_numbers as_int (length old) (length pre) input (pre ++ old) ≡ pre ++ xs
  unfolding read_numbers numbers_in
  read_numbers_lem [] input pre xs p = ground (arith, p)
  read_numbers_lem (o ∷ old) input pre xs p =
      on_number_lem (scan_int input) o old pre xs (read_numbers_lem old) p

-- The ints added up as doubles, from the left
abbrev pub total : (d : Doubles) → d.Double → List ℤ → d.Double
total d media xs = foldl (λ m x. d.add m (d.of_ℤ x)) media xs

mean_loop_lem :
    (d : Doubles) (post pre : List ℤ) (media : d.Double)
    → mean_loop d (length post) (length pre) media (pre ++ post) ≡ some (total d media post)
unfolding mean_loop
mean_loop_lem d [] pre media = refl
mean_loop_lem d (x ∷ post) pre media =
    let tail = mean_loop_lem d post (pre ++ x ∷ []) (d.add media (d.of_ℤ x)) in
    rw (get_elem?-append pre post x) (
      subst
        (λ n.
          mean_loop d (length post) n (d.add media (d.of_ℤ x)) (pre ++ x ∷ post)
          ≡ some (total d media (x ∷ post)))
        (length-snoc pre x)
        (subst
          (λ xs.
            mean_loop d (length post) (length (pre ++ x ∷ [])) (d.add media (d.of_ℤ x)) xs
            ≡ some (total d media (x ∷ post)))
          (append_assoc pre (x ∷ []) post) tail))

calculate_mean_lem :
    (d : Doubles) (size : ℕ) (out : List ℤ)
    → length out ≡ size
    → calculate_mean d out size ≡ value (d.div (total d (d.of_ℤ (pos 0)) out) (d.of_ℤ (pos size)))
unfolding calculate_mean
calculate_mean_lem d size out same =
    let all : mean_loop d size 0 (d.of_ℤ (pos 0)) out ≡ some (total d (d.of_ℤ (pos 0)) out) =
      subst (λ n. mean_loop d n 0 (d.of_ℤ (pos 0)) out ≡ some (total d (d.of_ℤ (pos 0)) out)) same
        (mean_loop_lem d out [] (d.of_ℤ (pos 0))) in
    rw (all, calculate_mean) refl

on_size_lem :
    (d : Doubles) (as_int : AsInt) (malloc : ℕ → Option (List ℤ)) (rest : List ℕ)
    (xs block : List ℤ)
    → KeepsInts as_int
    → fits_int (pos (length xs)) ≡ true
    → numbers_in (length xs) rest ≡ some xs
    → malloc (length xs) ≡ some block
    → length block ≡ length xs
    → on_size d as_int malloc (number (pos (length xs)) rest)
      ≡ on_sorted d as_int (length xs) (sort_array xs (length xs))
unfolding on_size on_int on_block
on_size_lem d as_int malloc rest xs block keeps fits q m len =
    let got : read_numbers as_int (length xs) 0 rest block ≡ xs =
      subst (λ n. read_numbers as_int n 0 rest block ≡ xs) len
        (read_numbers_lem as_int keeps block rest [] xs
          (subst (λ n. numbers_in n rest ≡ some xs) (sym len) q)) in
    rw (keeps (pos (length xs)) fits, m, got) refl

-- `main` reads a size of at least 1 and as many numbers, all of them in the range of an int, in which
-- `scanf` stores them as they are, and the block that `malloc` gives has that size. Then it prints the median and the mean of these numbers: the median is of two of them (one, if
-- their number is odd), `lo` and `hi`, that have half of the numbers at least on either side; if the
-- sum of the two in the middle is no int, there is the overflow in place of the median. The mean is
-- the sum of the numbers as doubles, added up in ascending order, divided by their number.
pub main-Middle :
    (d : Doubles) (as_int : AsInt) (malloc : ℕ → Option (List ℤ)) (input rest : List ℕ)
    (xs block : List ℤ)
    → KeepsInts as_int
    → fits_int (pos (length xs)) ≡ true
    → scan_int input ≡ number (pos (length xs)) rest
    → numbers_in (length xs) rest ≡ some xs
    → 1 ≤ length xs
    → malloc (length xs) ≡ some block
    → length block ≡ length xs
    → (out : List ℤ) × (lo : ℤ) × (hi : ℤ) × IsSorted out
      × Perm out xs
      × Middle xs lo hi
      × (main d as_int malloc input
          ≡ printed
              (median_of d (length xs) lo hi)
              (value (d.div (total d (d.of_ℤ (pos 0)) out) (d.of_ℤ (pos (length xs))))))
unfolding main on_sorted
main-Middle d as_int malloc input rest xs block keeps fits p q some_xs m len =
    let (out, sorts, sorted, same) = sort_array-IsSorted xs [] in
    let size : length out ≡ length xs = length-perm same in
    let result : sort_array xs (length xs) ≡ some out =
      subst (λ ys. sort_array ys (length xs) ≡ some out) (append-nil xs)
        (sorts ∙ ap some (append-nil out)) in
    let (lo, hi, median, middle) =
      calculate_median_lem d out sorted (omega (arith, size, some_xs)) in
    (
      out,
      lo,
      hi,
      sorted,
      same,
      Middle-perm lo hi same middle,
      prints out size result
          (subst (λ n. calculate_median d out n ≡ median_of d n lo hi) size median),
    )
  where
    prints :
        (ys : List ℤ) {m : Result d.Double}
        → length ys ≡ length xs
        → sort_array xs (length xs) ≡ some ys
        → calculate_median d ys (length xs) ≡ m
        → main d as_int malloc input
          ≡ printed m (value (d.div (total d (d.of_ℤ (pos 0)) ys) (d.of_ℤ (pos (length xs)))))
    prints ys size result median =
        ap (on_size d as_int malloc) p
        ∙ on_size_lem d as_int malloc rest xs block keeps fits q m len
        ∙ ap (on_sorted d as_int (length xs)) result
        ∙ ap₂ printed median (calculate_mean_lem d (length xs) ys size)
