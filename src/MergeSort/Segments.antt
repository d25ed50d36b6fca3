-- ===== src/MergeSort/Segments.antt =====
-- What `Merge` of Practice/L1/src/functions.c does to a part of the array, with the rest untouched.
use ciic.Common.{
  get_or-append, set-append, length-snoc, ◌+◌, ◌-◌, ◌≤◌, ◌≡◌, refl, true, false, List, [], ◌∷◌,
  ◌++◌, arith, length, append_assoc, length-append, Bool-cases, inl, inr,
}
use ciic.Common.Int.{leb_ℤ, ℤ, pos}
use ciic.MergeSort.{copy_out, copy_back, merge_loop, merge}

-- What the loops leave in place of the two parts.
unfoldable pub interleave : List ℤ → List ℤ → List ℤ
interleave (x ∷ l) (y ∷ r) = elim (leb_ℤ x y) [
  | true ↦ x ∷ interleave l (y ∷ r)
  | false ↦ y ∷ interleave (x ∷ l) r
]
interleave [] r = r
interleave (x ∷ l) [] = x ∷ l

copy_out_lem :
    (part pre post : List ℤ) → copy_out (pre ++ (part ++ post)) (length pre) (length part) ≡ part
unfolding copy_out
copy_out_lem [] pre post = refl
copy_out_lem (x ∷ part) pre post = ground (
  arith,
  get_or-append pre (part ++ post) x (pos 0),
  copy_out_lem part (pre ++ x ∷ []) post,
  append_assoc pre (x ∷ []) (part ++ post),
  length-snoc pre x,
)

copy_back_lem :
    (l pre old post : List ℤ)
    → length old ≡ length l
    → copy_back l (pre ++ (old ++ post)) (length pre) ≡ pre ++ (l ++ post)
unfolding copy_back
copy_back_lem [] pre [] post h = refl
copy_back_lem [] pre (o ∷ old) post h = absurd (omega arith)
copy_back_lem (x ∷ l) pre [] post h = absurd (omega arith)
copy_back_lem (x ∷ l) pre (o ∷ old) post h = ground (
  arith,
  set-append pre (old ++ post) o x,
  copy_back_lem l (pre ++ x ∷ []) old post,
  append_assoc pre (x ∷ []) (l ++ post),
  length-snoc pre x,
)

merge_loop_lem :
    (l r pre old post : List ℤ)
    → length old ≡ length l + length r
    → merge_loop l r (pre ++ (old ++ post)) (length pre) ≡ pre ++ (interleave l r ++ post)
unfolding merge_loop interleave
merge_loop_lem [] r pre old post h = copy_back_lem r pre old post (omega arith)
merge_loop_lem (x ∷ l) [] pre old post h = copy_back_lem (x ∷ l) pre old post (omega arith)
merge_loop_lem (x ∷ l) (y ∷ r) pre [] post h = absurd (omega arith)
merge_loop_lem (x ∷ l) (y ∷ r) pre (o ∷ old) post h = elim (Bool-cases (leb_ℤ x y)) [
  | inl le ↦ ground (
    arith,
    set-append pre (old ++ post) o x,
    merge_loop_lem l (y ∷ r) (pre ++ x ∷ []) old post,
    append_assoc pre (x ∷ []) (interleave l (y ∷ r) ++ post),
    length-snoc pre x,
  )
  | inr gt ↦ ground (
    arith,
    set-append pre (old ++ post) o y,
    merge_loop_lem (x ∷ l) r (pre ++ y ∷ []) old post,
    append_assoc pre (y ∷ []) (interleave (x ∷ l) r ++ post),
    length-snoc pre y,
  )
]

-- `Merge` replaces two neighbouring parts of the array, the first not empty, by their interleaving
-- in order.
pub merge_lem :
    (pre a b post : List ℤ)
    → 1 ≤ length a
    → merge
        (pre ++ (a ++ (b ++ post)))
        (length pre)
        (length pre + length a - 1)
        (length pre + length a + length b - 1)
      ≡ pre ++ (interleave a b ++ post)
unfolding merge
merge_lem pre a b post h =
    rw (first_part, second_part, ← append_assoc a b post)
      (merge_loop_lem a b pre (a ++ b) post (length-append a b))
  where
    count : length pre + length a - 1 + 1 - length pre ≡ length a
    count = omega arith

    first_part :
        copy_out
          (pre ++ (a ++ (b ++ post)))
          (length pre)
          (length pre + length a - 1 + 1 - length pre)
        ≡ a
    first_part = rw count (copy_out_lem a pre (b ++ post))

    start : length pre + length a - 1 + 1 ≡ length (pre ++ a)
    start = omega (arith, length-append pre a)

    rest : length pre + length a + length b - 1 - (length pre + length a - 1) ≡ length b
    rest = omega arith

    second_part :
        copy_out
          (pre ++ (a ++ (b ++ post)))
          (length pre + length a - 1 + 1)
          (length pre + length a + length b - 1 - (length pre + length a - 1))
        ≡ b
    second_part =
        rw (start, rest, ← append_assoc pre a (b ++ post)) (copy_out_lem b (pre ++ a) post)
