-- ===== src/Hurricane/Tests.antt =====
-- A hurricane of Section1/HM3.
use ciic.Common.{ℕ, ◌≡◌, refl, none, some}
use ciic.Common.Int.{pos}
use ciic.Hurricane.{max_speed, main}

-- A `rand` that returns 1000.
abbrev rand : ℕ → ℕ
rand i = 1000

main_too_high : main {Double = ℕ} rand (some (pos 6, 18, 66)) ≡ none
unfolding main
main_too_high = refl

max_speed_three : max_speed (pos 3) ≡ 129
unfolding max_speed
max_speed_three = refl
