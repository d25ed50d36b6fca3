-- ===== src/Common/Lines.antt =====
-- Files of lines that fit into the buffer of `fgets`.
use ciic.Common.Text.{line_feed, fgets_from, fgets_all}
use ciic.Common.Tests.{◌==◌}
use ciic.Common.Lists.{length, All}
use mathlib.Core.List.{List, [], ◌∷◌, ◌++◌, append_assoc}
use mathlib.Core.Path.{◌≡◌, refl}
use mathlib.Core.Bool.{false}
use native.Mathlib.Omega.{arith}
use Prim.Native.Nat.{ℕ, zero, suc, ◌+◌, ◌-◌, ◌≤◌}

abbrev pub NotFeed : ℕ → Type 0
NotFeed c = (c == line_feed) ≡ false

fgets_from-line :
    (size left : ℕ) (line body rest : List ℕ)
    → All NotFeed body
    → length body ≤ left
    → fgets_from size left line (body ++ line_feed ∷ rest)
      ≡ (line ++ (body ++ line_feed ∷ [])) ∷ fgets_from size size [] rest
unfolding fgets_from
fgets_from-line size left line [] rest h fits = refl
fgets_from-line size zero line (c ∷ body) rest h fits = absurd (omega (arith, fits))
fgets_from-line size (suc left) line (c ∷ body) rest h fits = ground (
  arith,
  h,
  fgets_from-line size left (line ++ c ∷ []) body rest h.1 (omega (arith, fits)),
  append_assoc line (c ∷ []) (body ++ line_feed ∷ []),
)

-- A line that fits into the buffer with its line feed is read whole.
pub fgets_all-line :
    (buffer : ℕ) (body rest : List ℕ)
    → All NotFeed body
    → length body + 2 ≤ buffer
    → fgets_all buffer (body ++ line_feed ∷ rest) ≡ (body ++ line_feed ∷ []) ∷ fgets_all buffer rest
unfolding fgets_all
fgets_all-line buffer body rest h fits =
    fgets_from-line (buffer - 2) (buffer - 2) [] body rest h (omega arith)
