-- ===== src/MergeSort/Sorting.antt =====
-- `SortArray` of Practice/L1/src/functions.c returns the ascending rearrangement of the array.
use ciic.Common.{
  ℕ, zero, suc, ◌+◌, ◌-◌, ◌/◌, ◌≤◌, ◌<◌, ◌≡◌, refl, subst, some, List, [], ◌∷◌, ◌++◌, arith, length,
  take, drop, length-take, length-drop, take-append-drop, append_assoc, append-nil, length-append,
  Bool-cases, inl, inr, All,
}
use mathlib.Core.List.{Perm, perm_middle}
use mathlib.Core.List.Perm
use ciic.Common.Int.{leb_ℤ, ℤ, ◌≤ℤ◌}
use ciic.MergeSort.{merge, merge_sort, sort_array}
use ciic.MergeSort.Segments.{interleave, merge_lem}

-- Each element is at most every later one.
abbrev pub IsSorted : List ℤ → Type 0
IsSorted [] = Unit
IsSorted (x ∷ xs) = All (λ y. x ≤ℤ y) xs × IsSorted xs

All-trans : (x y : ℤ) (xs : List ℤ) → x ≤ℤ y → All (λ z. y ≤ℤ z) xs → All (λ z. x ≤ℤ z) xs
All-trans x y [] h k = tt
All-trans x y (z ∷ xs) h k = (omega arith, All-trans x y xs h k.1)

All-interleave :
    (x : ℤ) (l r : List ℤ)
    → All (λ z. x ≤ℤ z) l
    → All (λ z. x ≤ℤ z) r
    → All (λ z. x ≤ℤ z) (interleave l r)
unfolding interleave
All-interleave x [] r h k = k
All-interleave x (a ∷ l) [] h k = h
All-interleave x (a ∷ l) (b ∷ r) h k = elim (Bool-cases (leb_ℤ a b)) [
  | inl le ↦ ground (arith, All-interleave x l (b ∷ r))
  | inr gt ↦ ground (arith, All-interleave x (a ∷ l) r)
]

interleave-IsSorted : (l r : List ℤ) → IsSorted l → IsSorted r → IsSorted (interleave l r)
unfolding interleave
interleave-IsSorted [] r h k = k
interleave-IsSorted (a ∷ l) [] h k = h
interleave-IsSorted (a ∷ l) (b ∷ r) h k = elim (Bool-cases (leb_ℤ a b)) [
  | inl le ↦
      ground (arith, interleave-IsSorted l (b ∷ r), All-interleave a l (b ∷ r), All-trans a b r)
  | inr gt ↦
      ground (arith, interleave-IsSorted (a ∷ l) r, All-interleave b (a ∷ l) r, All-trans b a l)
]

interleave-perm : (l r : List ℤ) → Perm (interleave l r) (l ++ r)
unfolding interleave
interleave-perm [] r = Perm.rfl
interleave-perm (a ∷ l) [] = rw (append-nil l) Perm.rfl
interleave-perm (a ∷ l) (b ∷ r) = elim (Bool-cases (leb_ℤ a b)) [
  | inl le ↦ rw (le, interleave) (Perm.cons a (interleave-perm l (b ∷ r)))
  | inr gt ↦
      rw (gt, interleave)
        (Perm.trans (Perm.cons b (interleave-perm (a ∷ l) r)) (Perm.symm (perm_middle (a ∷ l) r)))
]

length-interleave : (l r : List ℤ) → length (interleave l r) ≡ length l + length r
unfolding interleave
length-interleave [] r = omega arith
length-interleave (a ∷ l) [] = omega arith
length-interleave (a ∷ l) (b ∷ r) =
    ground (arith, length-interleave l (b ∷ r), length-interleave (a ∷ l) r)

-- How the call of `MergeSort` on a part of the array ends.
pub record Sorts (fuel : ℕ) (pre part post : List ℤ) : Type 0 where
  pub sorted : List ℤ
  pub result :
      merge_sort fuel (pre ++ (part ++ post)) (length pre) (length pre + length part - 1)
      ≡ some (pre ++ (sorted ++ post))
  pub ascending : IsSorted sorted
  pub same : Perm sorted part
  pub as_long : length sorted ≡ length part

Sorts-short : (fuel : ℕ) (pre : List ℤ) (x : ℤ) (post : List ℤ) → Sorts (suc fuel) pre (x ∷ []) post
unfolding merge_sort
Sorts-short fuel pre x post = record {
  sorted = x ∷ [];
  result = ground arith;
  ascending = (tt, tt);
  same = Perm.rfl;
  as_long = refl;
}

-- The two calls on the halves, and the merge.
module _ (fuel : ℕ) (pre a b post : List ℤ) (some_a : 1 ≤ length a) (some_b : 1 ≤ length b)
    (halves : (length b ≤ length a) × (length a ≤ length b + 1))
    (first_half : Sorts fuel pre a (b ++ post))
    (second_half : Sorts fuel (pre ++ first_half.sorted) b post) where
  middle :
      length pre + (length pre + length (a ++ b) - 1 - length pre) / 2 ≡ length pre + length a - 1
  middle = omega (arith, length-append a b)

  first_call :
      merge_sort fuel (pre ++ ((a ++ b) ++ post)) (length pre) (length pre + length a - 1)
      ≡ some (pre ++ (first_half.sorted ++ (b ++ post)))
  first_call = rw (append_assoc a b post) first_half.result

  second_call :
      merge_sort fuel
        (pre ++ (first_half.sorted ++ (b ++ post)))
        (length pre + length a - 1 + 1)
        (length pre + length (a ++ b) - 1)
      ≡ some (pre ++ (first_half.sorted ++ (second_half.sorted ++ post)))
  second_call = ground (
    arith,
    second_half.result,
    append_assoc pre first_half.sorted (b ++ post),
    append_assoc pre first_half.sorted (second_half.sorted ++ post),
    length-append pre first_half.sorted,
    length-append a b,
    first_half.as_long,
  )

  merged :
      merge
        (pre ++ (first_half.sorted ++ (second_half.sorted ++ post)))
        (length pre)
        (length pre + length a - 1)
        (length pre + length (a ++ b) - 1)
      ≡ pre ++ (interleave first_half.sorted second_half.sorted ++ post)
  merged = ground (
    arith,
    merge_lem pre first_half.sorted second_half.sorted post,
    length-append a b,
    first_half.as_long,
    second_half.as_long,
  )

  Sorts-step : Sorts (suc fuel) pre (a ++ b) post
  unfolding merge_sort
  Sorts-step = record {
    sorted = interleave first_half.sorted second_half.sorted;
    result = ground (arith, middle, first_call, second_call, merged, length-append a b);
    ascending =
        interleave-IsSorted first_half.sorted second_half.sorted first_half.ascending
          second_half.ascending;
    same =
        Perm.trans (interleave-perm first_half.sorted second_half.sorted)
          (Perm.append first_half.same second_half.same);
    as_long = omega (
      arith,
      length-interleave first_half.sorted second_half.sorted,
      length-append a b,
      first_half.as_long,
      second_half.as_long,
    );
  }

halve :
    (fuel : ℕ) (pre part post : List ℤ) (h : ℕ)
    → 2 ≤ length part
    → h ≡ (length part + 1) / 2
    → ((p q r : List ℤ) → 1 ≤ length q → length q < length part → Sorts fuel p q r)
    → Sorts (suc fuel) pre part post
halve fuel pre part post h long e rec =
    subst (λ l. Sorts (suc fuel) pre l post) (take-append-drop h part)
      (Sorts-step fuel pre (take h part) (drop h part) post (omega (arith, length-take h part))
        (omega (arith, length-drop h part)) (omega (arith, length-take h part, length-drop h part))
        first_half
        (rec (pre ++ first_half.sorted) (drop h part) post (omega (arith, length-drop h part))
          (omega (arith, length-drop h part))))
  where
    first_half : Sorts fuel pre (take h part) (drop h part ++ post)
    first_half =
        rec pre (take h part) (drop h part ++ post) (omega (arith, length-take h part))
          (omega (arith, length-take h part))

merge_sort-Sorts :
    (fuel : ℕ) (pre part post : List ℤ)
    → 1 ≤ length part
    → length part ≤ fuel
    → Sorts fuel pre part post
merge_sort-Sorts zero pre part post p q = absurd (omega arith)
merge_sort-Sorts (suc fuel) pre [] post p q = absurd (omega arith)
merge_sort-Sorts (suc fuel) pre (x ∷ []) post p q = Sorts-short fuel pre x post
merge_sort-Sorts (suc fuel) pre (x ∷ y ∷ part) post p q =
    halve fuel pre (x ∷ y ∷ part) post _ (omega arith) refl
      (λ pre' part' post' p' q'. merge_sort-Sorts fuel pre' part' post' p' (omega arith))

-- `SortArray` of the first elements of an array ends, leaves these elements, each as often as it was
-- there, every one of them at most all that come later, and leaves the rest of the array as it was.
pub sort_array-IsSorted :
    (part rest : List ℤ)
    → (out : List ℤ) × (sort_array (part ++ rest) (length part) ≡ some (out ++ rest))
      × IsSorted out
      × Perm out part
unfolding sort_array
sort_array-IsSorted [] rest = ([], refl, tt, Perm.rfl)
sort_array-IsSorted (x ∷ part) rest = (s.sorted, ground (arith, s.result), s.ascending, s.same)
  where
    s : Sorts (length (x ∷ part) + 1) [] (x ∷ part) rest
    s = merge_sort-Sorts (length (x ∷ part) + 1) [] (x ∷ part) rest (omega arith) (omega arith)
