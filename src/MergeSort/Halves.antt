-- ===== src/MergeSort/Halves.antt =====
-- CalculateMedian of Practice/L1 takes the numbers in the middle.
use ciic.Common.{
  ℕ, zero, suc, ◌-◌, ◌*◌, ◌/◌, ◌%◌, ◌≤◌, ◌≡◌, true, some, List, arith, length, get_elem?,
  if◌then◌else◌, ◌==◌, ap, ◌∙◌, inl, inr, ◌⊎◌, dec_lt,
}
use mathlib.Core.List.{Perm}
use ciic.Common.Int.{ℤ, ◌≤ℤ◌, leb_ℤ}
use ciic.MergeSort.Sorting.{IsSorted}
use ciic.MergeSort.Median.{
  count, count-perm, count-All, All-true, All-true, count_below, count_above, get_elem?-lt,
  IsSorted-get_elem?,
}
use ciic.MergeSort.Statistics.{
  Doubles, Result, value, half_sum, on_pair, on_one, before, calculate_median,
}

pub length-perm : {xs ys : List ℤ} → Perm xs ys → length xs ≡ length ys
length-perm {xs} {ys} same = omega (
  arith,
  count-perm (λ x. true) same,
  count-All (λ x. true) xs (All-true xs),
  count-All (λ x. true) ys (All-true ys),
)

before-eq-get_elem? :
    (d : Doubles) (xs : List ℤ) (n : ℕ) → 1 ≤ n → before d xs n ≡ get_elem? xs (n - 1)
before-eq-get_elem? d xs zero h = absurd (omega arith)
before-eq-get_elem? d xs (suc n) h = ap (get_elem? xs) (omega arith)

-- The median as it comes of the two elements in the middle
abbrev pub median_of : (d : Doubles) → ℕ → ℤ → ℤ → Result d.Double
median_of d size lo hi = if size % 2 == 0 then half_sum d lo hi else value (d.of_ℤ hi)

-- `lo` and `hi` are in the middle of the numbers: half of these at least are at most `lo`, and half of
-- them at least `hi`.
pub record Middle (xs : List ℤ) (lo hi : ℤ) : Type 0 where
  pub ordered : lo ≤ℤ hi
  pub below : length xs ≤ 2 * count (λ x. leb_ℤ x lo) xs
  pub above : length xs ≤ 2 * count (λ x. leb_ℤ hi x) xs
  pub odd : length xs % 2 ≡ 1 → lo ≡ hi

parity : (n : ℕ) → (n % 2 ≡ 0) ⊎ (n % 2 ≡ 1)
parity n = elim (dec_lt (n % 2) 1) [
  | yes h ↦ inl (omega (arith, h))
  | no h ↦ inr (omega (arith, h))
]

middle_lem :
    (d : Doubles) (out : List ℤ) (lo hi : ℤ)
    → IsSorted out
    → 1 ≤ length out
    → get_elem? out ((length out - 1) / 2) ≡ some lo
    → get_elem? out (length out / 2) ≡ some hi
    → (calculate_median d out (length out) ≡ median_of d (length out) lo hi) × Middle out lo hi
unfolding calculate_median on_pair on_one
middle_lem d out lo hi sorted some_out p q = (
  median,
  record {
    ordered =
        IsSorted-get_elem? out ((length out - 1) / 2) (length out / 2) lo hi sorted (omega arith) p
          q;
    below = omega (arith, count_below out ((length out - 1) / 2) lo sorted p);
    above = omega (arith, count_above out (length out / 2) hi sorted q);
    odd = λ h.
        let same : (length out - 1) / 2 ≡ length out / 2 = omega (arith, h) in
        ground (arith, same, p, q);
  },
)
  where
    median : calculate_median d out (length out) ≡ median_of d (length out) lo hi
    median = elim (parity (length out)) [
      | inl h ↦
          let half : length out / 2 - 1 ≡ (length out - 1) / 2 = omega (arith, h, some_out) in
          let first : before d out (length out / 2) ≡ some lo =
            before-eq-get_elem? d out (length out / 2) (omega (arith, h, some_out))
            ∙ ap (get_elem? out) half
            ∙ p in
          ground (arith, h, first, q)
      | inr h ↦ ground (arith, h, q)
    ]

pub calculate_median_lem :
    (d : Doubles) (out : List ℤ)
    → IsSorted out
    → 1 ≤ length out
    → (lo hi : ℤ) × (calculate_median d out (length out) ≡ median_of d (length out) lo hi)
      × Middle out lo hi
calculate_median_lem d out sorted some_out =
    let (lo, p) = get_elem?-lt out ((length out - 1) / 2) (omega arith) in
    let (hi, q) = get_elem?-lt out (length out / 2) (omega arith) in
    let (median, middle) = middle_lem d out lo hi sorted some_out p q in (lo, hi, median, middle)

pub Middle-perm : {xs ys : List ℤ} (lo hi : ℤ) → Perm xs ys → Middle xs lo hi → Middle ys lo hi
Middle-perm lo hi same middle = record {
  ordered = middle.ordered;
  below = omega (arith, middle.below, length-perm same, count-perm (λ x. leb_ℤ x lo) same);
  above = omega (arith, middle.above, length-perm same, count-perm (λ x. leb_ℤ hi x) same);
  odd = λ h. middle.odd (omega (arith, h, length-perm same));
}
