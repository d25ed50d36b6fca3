-- ===== src/Common/Text/Rest.antt =====
-- What `scanf` with "%d" leaves of its input.
use ciic.Common.Int.{ℤ, pos}
use ciic.Common.Lists.{length}
use ciic.Common.Text.{
  Scanned, number, mismatch, end_of_file, scan_int, scan_sign, scan_digits, read_digits,
  skip_spaces, negate,
}
use Prim.Native.Nat.{ℕ, ◌+◌, ◌-◌, ◌*◌, ◌<◌, ◌≤◌}
use mathlib.Core.List.{List, [], ◌∷◌}
use native.Mathlib.Omega.{arith}

skip_spaces-le : (cs : List ℕ) → length (skip_spaces cs) ≤ length cs
unfolding skip_spaces
skip_spaces-le [] = omega arith
skip_spaces-le (c ∷ cs) = ground (arith, skip_spaces-le cs)

read_digits-le : (n : ℕ) (cs : List ℕ) → length (read_digits n cs).1 ≤ length cs
unfolding read_digits
read_digits-le n [] = omega arith
read_digits-le n (c ∷ cs) = ground (arith, read_digits-le (n * 10 + (c - 48)) cs)

-- What is left is shorter behind a number, and not longer else.
abbrev pub Shorter : ℕ → Scanned → Type 0
Shorter size (number n rest) = length rest < size
Shorter size (mismatch rest) = length rest ≤ size
Shorter size end_of_file = Unit

scan_digits-Shorter : (sign : ℕ → ℤ) (cs : List ℕ) → Shorter (length cs) (scan_digits sign cs)
unfolding scan_digits read_digits
scan_digits-Shorter sign [] = omega arith
scan_digits-Shorter sign (c ∷ cs) = ground (arith, read_digits-le (0 * 10 + (c - 48)) cs)

Shorter-mono : (m n : ℕ) (s : Scanned) → m ≤ n → Shorter m s → Shorter n s
Shorter-mono m n s le h = ground arith

scan_sign-Shorter : (cs : List ℕ) → Shorter (length cs) (scan_sign cs)
unfolding scan_sign
scan_sign-Shorter [] = tt
scan_sign-Shorter (c ∷ cs) = ground (
  arith,
  scan_digits-Shorter negate cs,
  scan_digits-Shorter pos cs,
  scan_digits-Shorter pos (c ∷ cs),
)

pub scan_int-Shorter : (cs : List ℕ) → Shorter (length cs) (scan_int cs)
unfolding scan_int
scan_int-Shorter cs =
    Shorter-mono (length (skip_spaces cs)) (length cs) (scan_sign (skip_spaces cs))
      (skip_spaces-le cs) (scan_sign-Shorter (skip_spaces cs))
