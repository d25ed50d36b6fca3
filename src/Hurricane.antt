-- ===== src/Hurricane.antt =====
-- Section1/HM3: a hurricane with a hundred random wind speeds (include/functions.h, src/functions.c,
-- src/main.c).
pub mod Speeds
mod Tests
use ciic.Common.{
  ℕ, zero, suc, ◌+◌, ◌-◌, ◌%◌, Bool, ◌||◌, Option, none, some, List, [], ◌∷◌, set, replicate, ◌==◌,
  if◌then◌else◌,
}
use ciic.Common.Int.{ℤ, pos, ltb_ℤ, eq_ℤ}

abbrev pub min_wind_speed : ℕ
min_wind_speed = 74

-- `Hurricane`; the coordinates are only passed on.
pub record Hurricane (Double : Type 0) : Type 0 where
  pub category : ℤ
  pub latitude : Double
  pub longitude : Double
  pub wind_speeds : List ℕ

pub create_hurricane : {Double : Type 0} → ℤ → Double → Double → Hurricane Double
create_hurricane category latitude longitude = record {
  category = category;
  latitude = latitude;
  longitude = longitude;
  wind_speeds = replicate 100 0;
}

-- The `switch`: the largest speed of a category
pub max_speed : ℤ → ℕ
max_speed category =
    if eq_ℤ category (pos 1)
    then 95
    else if eq_ℤ category (pos 2)
    then 110
    else if eq_ℤ category (pos 3)
    then 129
    else if eq_ℤ category (pos 4)
    then 156
    else if eq_ℤ category (pos 5)
    then 256
    else min_wind_speed

-- The `for`, with the rounds that are left; `rand i` is what the call of round `i` returns.
pub fill_from : (ℕ → ℕ) → ℕ → ℕ → ℕ → List ℕ → List ℕ
fill_from rand max i zero speeds = speeds
fill_from rand max i (suc left) speeds =
    fill_from rand max (i + 1) left
      (set speeds i (min_wind_speed + rand i % (max - min_wind_speed + 1)))

pub fill_wind_speeds : {Double : Type 0} → (ℕ → ℕ) → Hurricane Double → Hurricane Double
unfolding max_speed fill_from
fill_wind_speeds rand h = record h {
  wind_speeds = fill_from rand (max_speed h.category) 0 100 h.wind_speeds;
}

-- `main` on the three values that `scanf` reads, if it reads them: the hurricane that it prints, or
-- `none` for EXIT_FAILURE.
pub main : {Double : Type 0} → (ℕ → ℕ) → Option (ℤ × Double × Double) → Option (Hurricane Double)
unfolding create_hurricane fill_wind_speeds
main rand none = none
main rand (some (category, latitude, longitude)) =
    if ltb_ℤ category (pos 1) || ltb_ℤ (pos 5) category
    then none
    else some (fill_wind_speeds rand (create_hurricane category latitude longitude))
