-- ===== src/Common/Text/Strings.antt =====
-- Strings in arrays: the text ends at the first zero.
use ciic.Common.Tests.{◌==◌}
use ciic.Common.Lists.{All}
use ciic.Common.Text.{shown}
use mathlib.Core.Path.{◌≡◌, refl}
use mathlib.Core.Bool.{false}
use mathlib.Core.List.{List, [], ◌∷◌, ◌++◌}
use native.Mathlib.Omega.{arith}
use Prim.Native.Nat.{ℕ}

abbrev pub NotZero : ℕ → Type 0
NotZero c = (c == 0) ≡ false

pub shown-append : (cs rest : List ℕ) → All NotZero cs → shown (cs ++ 0 ∷ rest) ≡ cs
unfolding shown
shown-append [] rest h = refl
shown-append (c ∷ cs) rest h = ground (arith, h.0, shown-append cs rest h.1)
