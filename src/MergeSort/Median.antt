-- ===== src/MergeSort/Median.antt =====
-- The median that Practice/L1 prints has half of the numbers on each side.
use ciic.Common.{
  ℕ, zero, suc, ◌+◌, ◌≤◌, ◌<◌, ◌≡◌, refl, Bool, true, some, List, [], ◌∷◌, arith, length, get_elem?,
  All, if◌then◌else◌, subst,
}
use mathlib.Core.List.{foldr, Perm}
use mathlib.Core.List.Perm
use ciic.Common.Int.{ℤ, ◌≤ℤ◌, leb_ℤ}
use ciic.MergeSort.Sorting.{IsSorted}

-- How many numbers pass a test
abbrev tally : (ℤ → Bool) → ℤ → ℕ → ℕ
tally p x n = if p x then suc n else n

pub count : (ℤ → Bool) → List ℤ → ℕ
count p xs = foldr (tally p) 0 xs

pub count-perm : (p : ℤ → Bool) {xs ys : List ℤ} → Perm xs ys → count p xs ≡ count p ys
unfolding count
count-perm p same = Perm.foldr-eq (hlevel) (tally p) (λ a b x. ground arith) same 0

pub All-true : (xs : List ℤ) → All (λ x. ◌≡◌ {A = Bool} true true) xs
All-true [] = tt
All-true (x ∷ xs) = (refl, All-true xs)

pub count-All : (p : ℤ → Bool) (xs : List ℤ) → All (λ x. p x ≡ true) xs → count p xs ≡ length xs
unfolding count
count-All p [] h = refl
count-All p (x ∷ xs) h = ground (arith, h, count-All p xs h.1)

All-leb : (x : ℤ) (xs : List ℤ) → All (λ y. x ≤ℤ y) xs → All (λ y. leb_ℤ x y ≡ true) xs
All-leb x [] h = tt
All-leb x (y ∷ xs) h = (ground (arith, h), All-leb x xs h.1)

All-get_elem? :
    (x y : ℤ) (xs : List ℤ) (i : ℕ) → All (λ z. x ≤ℤ z) xs → get_elem? xs i ≡ some y → x ≤ℤ y
All-get_elem? x y [] i h p = absurd (ground (arith, p))
All-get_elem? x y (z ∷ xs) zero h p = ground (arith, h, p)
All-get_elem? x y (z ∷ xs) (suc i) h p = All-get_elem? x y xs i h.1 p

-- In an ascending list, `i + 1` elements at least are at most the one with index `i`.
pub count_below :
    (xs : List ℤ) (i : ℕ) (x : ℤ)
    → IsSorted xs
    → get_elem? xs i ≡ some x
    → suc i ≤ count (λ y. leb_ℤ y x) xs
unfolding count
count_below [] i x h p = absurd (ground (arith, p))
count_below (y ∷ xs) zero x h p = ground (arith, p)
count_below (y ∷ xs) (suc i) x h p =
    ground (arith, All-get_elem? y x xs i h.0 p, count_below xs i x h.1 p)

-- And those from index `i` on are at least that one.
pub count_above :
    (xs : List ℤ) (i : ℕ) (x : ℤ)
    → IsSorted xs
    → get_elem? xs i ≡ some x
    → length xs ≤ count (λ y. leb_ℤ x y) xs + i
unfolding count
count_above [] i x h p = omega arith
count_above (y ∷ xs) zero x h p =
    let same : y ≡ x = ground (arith, p) in
    subst (λ z. length (y ∷ xs) ≤ count (λ w. leb_ℤ z w) (y ∷ xs) + 0) same
      (ground (arith, count-All (leb_ℤ y) xs (All-leb y xs h.0)))
count_above (y ∷ xs) (suc i) x h p = ground (arith, count_above xs i x h.1 p)

pub get_elem?-lt : (xs : List ℤ) (i : ℕ) → i < length xs → (x : ℤ) × (get_elem? xs i ≡ some x)
get_elem?-lt [] i h = absurd (omega arith)
get_elem?-lt (x ∷ xs) zero h = (x, refl)
get_elem?-lt (x ∷ xs) (suc i) h = get_elem?-lt xs i (omega arith)

pub IsSorted-get_elem? :
    (xs : List ℤ) (i j : ℕ) (x y : ℤ)
    → IsSorted xs
    → i ≤ j
    → get_elem? xs i ≡ some x
    → get_elem? xs j ≡ some y
    → x ≤ℤ y
IsSorted-get_elem? [] i j x y h le p q = absurd (ground (arith, p))
IsSorted-get_elem? (z ∷ xs) zero zero x y h le p q = ground (arith, p, q)
IsSorted-get_elem? (z ∷ xs) zero (suc j) x y h le p q =
    ground (arith, p, All-get_elem? z y xs j h.0 q)
IsSorted-get_elem? (z ∷ xs) (suc i) zero x y h le p q = absurd (omega arith)
IsSorted-get_elem? (z ∷ xs) (suc i) (suc j) x y h le p q =
    IsSorted-get_elem? xs i j x y h.1 (omega arith) p q
