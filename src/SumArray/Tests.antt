-- ===== src/SumArray/Tests.antt =====
-- Runs of Section1/HM2.
use ciic.Common.{ℕ, ◌≡◌, refl, Option, none, some, List, replicate}
use ciic.Common.Int.{pos}
use ciic.SumArray.{main}

abbrev malloc : ℕ → Option (List ℕ)
malloc n = some (replicate n 77)

main_runs : (main (some (pos 10)) malloc ≡ some 55) × (main (some (pos 51)) malloc ≡ none)
unfolding main
main_runs = (refl, refl)
