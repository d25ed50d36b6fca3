-- ===== src/SumArray/Triangle.antt =====
-- `main` of Section1/HM2 prints the triangular number of its input.
use ciic.Common.{
  ℕ, zero, suc, ◌+◌, ◌*◌, ◌/◌, ◌≤◌, ◌<◌, ◌≡◌, ◌⊎◌, refl, Option, none, some, List, arith, length,
  set, get_or, length-set, get_or-set_self, get_or-set_ne, ℕ_discrete, subst,
}
use ciic.Common.Int.{ℤ, pos, pos_part, ◌≤ℤ◌}
use ciic.SumArray.{fill_from, fill_array, sum_from, sum_array, main}

-- What the loop has not reached stays; what it reaches is its index plus one.
fill_from_lem :
    (i left : ℕ) (arr : List ℕ) (j : ℕ)
    → i + left ≤ length arr
    → (j < i → get_or (fill_from i left arr) j 0 ≡ get_or arr j 0)
      × (i ≤ j → j < i + left → get_or (fill_from i left arr) j 0 ≡ j + 1)
unfolding fill_from
fill_from_lem i zero arr j room = ground arith
fill_from_lem i (suc left) arr j room = ground (
  arith,
  fill_from_lem (i + 1) left (set arr i (i + 1)) j,
  fill_from_lem (i + 1) left (set arr i (i + 1)) i,
  length-set arr i (i + 1),
  get_or-set_self arr i (i + 1) 0,
  get_or-set_ne arr i j (i + 1) 0,
  ℕ_discrete i j,
)

-- 1 + 2 + … + n
pub triangle : ℕ → ℕ
triangle zero = 0
triangle (suc n) = triangle n + suc n

triangle_next : (n : ℕ) → triangle (n + 1) ≡ triangle n + (n + 1)
unfolding triangle
triangle_next n = ground arith

triangle-eq : (n : ℕ) → triangle n * 2 ≡ n * (n + 1)
unfolding triangle
triangle-eq zero = refl
triangle-eq (suc n) = grind (arith, triangle-eq n)

sum_from_lem :
    (i left sum : ℕ) (arr : List ℕ)
    → ((j : ℕ) → i ≤ j → j < i + left → get_or arr j 0 ≡ j + 1)
    → sum_from i left sum arr + triangle i ≡ sum + triangle (i + left)
unfolding sum_from
sum_from_lem i zero sum arr h = ground arith
sum_from_lem i (suc left) sum arr h = ground (
  arith,
  sum_from_lem (i + 1) left (sum + get_or arr i 0) arr (λ j p q. h j (omega arith) (omega arith)),
  triangle_next i,
  h i (omega arith) (omega arith),
)

-- Filling any array of `n` places and adding it up gives n (n + 1) / 2.
pub sum_array-fill_array :
    (arr : List ℕ)
    → sum_array (fill_array arr (length arr)) (length arr) ≡ length arr * (length arr + 1) / 2
unfolding sum_array fill_array triangle
sum_array-fill_array arr = ground (
  arith,
  sum_from_lem 0 (length arr) 0 (fill_from 0 (length arr) arr)
      (λ j p q. (fill_from_lem 0 (length arr) arr j (omega arith)).1 p q),
  triangle-eq (length arr),
)

-- `main` prints n (n + 1) / 2 where it reads a number n from 10 to 50 and gets an array of that
-- length, and fails for another number, or without an array.
main_lem :
    (n : ℤ) (malloc : ℕ → Option (List ℕ))
    → ((k : ℕ) (arr : List ℕ) → malloc k ≡ some arr → length arr ≡ k)
    → ((arr : List ℕ)
        → pos 10 ≤ℤ n
        → n ≤ℤ pos 50
        → malloc (pos_part n) ≡ some arr
        → main (some n) malloc ≡ some (pos_part n * (pos_part n + 1) / 2))
      × ((n ≤ℤ pos 9) ⊎ ((pos 51 ≤ℤ n) ⊎ (malloc (pos_part n) ≡ none))
          → main (some n) malloc ≡ none)
unfolding main
main_lem n malloc sized = (
  λ arr low high e. ground (arith, e, sum_of_n arr (pos_part n) (sized (pos_part n) arr e)),
  λ h. ground arith,
)
  where
    sum_of_n :
        (arr : List ℕ) (k : ℕ) → length arr ≡ k → sum_array (fill_array arr k) k ≡ k * (k + 1) / 2
    sum_of_n arr k e =
        subst (λ m. sum_array (fill_array arr m) m ≡ m * (m + 1) / 2) e (sum_array-fill_array arr)
