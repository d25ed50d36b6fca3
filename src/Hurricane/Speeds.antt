-- ===== src/Hurricane/Speeds.antt =====
-- The wind speeds of Section1/HM3 fit the category.
use ciic.Common.{
  ℕ, zero, suc, ◌+◌, ◌-◌, ◌%◌, ◌≤◌, ◌<◌, ◌≡◌, refl, ◌⊎◌, none, some, List, arith, length, set,
  get_or, length-set, get_or-set_self, get_or-set_ne, ℕ_discrete, replicate,
}
use native.Mathlib.Nat.{mod-lt}
use ciic.Common.Int.{ℤ, pos, ◌≤ℤ◌}
use ciic.Hurricane.{
  min_wind_speed, Hurricane, create_hurricane, max_speed, fill_from, fill_wind_speeds, main,
}

abbrev speed : ℕ → ℕ → ℕ
speed r max = min_wind_speed + r % (max - min_wind_speed + 1)

speed-le : (r max : ℕ) → min_wind_speed ≤ max → speed r max ≤ max
speed-le r max h = omega (arith, mod-lt r {m = max - min_wind_speed + 1} (omega arith))

fill_from_lem :
    (rand : ℕ → ℕ) (max i left : ℕ) (speeds : List ℕ) (j : ℕ)
    → i + left ≤ length speeds
    → min_wind_speed ≤ max
    → (length (fill_from rand max i left speeds) ≡ length speeds)
      × (j < i → get_or (fill_from rand max i left speeds) j 0 ≡ get_or speeds j 0)
      × (i ≤ j
          → j < i + left
          → (min_wind_speed ≤ get_or (fill_from rand max i left speeds) j 0)
            × (get_or (fill_from rand max i left speeds) j 0 ≤ max))
unfolding fill_from
fill_from_lem rand max i zero speeds j room h = ground arith
fill_from_lem rand max i (suc left) speeds j room h = ground (
  arith,
  fill_from_lem rand max (i + 1) left (set speeds i (speed (rand i) max)) j,
  fill_from_lem rand max (i + 1) left (set speeds i (speed (rand i) max)) i,
  length-set speeds i (speed (rand i) max),
  get_or-set_self speeds i (speed (rand i) max) 0,
  get_or-set_ne speeds i j (speed (rand i) max) 0,
  speed-le (rand i) max,
  ℕ_discrete i j,
)

max_speed-ge : (category : ℤ) → min_wind_speed ≤ max_speed category
unfolding max_speed
max_speed-ge category = ground arith

-- `main` accepts the categories from 1 to 5 and no other; the coordinates and the category that it
-- prints are those that it has read, and there are a hundred wind speeds, each from 74 to the largest of
-- the category, whatever `rand` returns.
main-speeds :
    {Double : Type 0} (rand : ℕ → ℕ) (category : ℤ) (latitude longitude : Double)
    → ((category ≤ℤ pos 0) ⊎ (pos 6 ≤ℤ category)
        → main rand (some (category, latitude, longitude)) ≡ none)
      × (pos 1 ≤ℤ category
          → category ≤ℤ pos 5
          → (h : Hurricane Double) × (main rand (some (category, latitude, longitude)) ≡ some h)
            × (h.category ≡ category)
            × (h.latitude ≡ latitude)
            × (h.longitude ≡ longitude)
            × (length h.wind_speeds ≡ 100)
            × ((j : ℕ)
                → j < 100
                → (74 ≤ get_or h.wind_speeds j 0)
                  × (get_or h.wind_speeds j 0 ≤ max_speed category)))
unfolding main fill_wind_speeds create_hurricane
main-speeds rand category latitude longitude = (
  λ h. ground arith,
  λ low high. (
    fill_wind_speeds rand (create_hurricane category latitude longitude),
    ground arith,
    refl,
    refl,
    refl,
    (filled 0).0,
    λ j below. (filled j).2 (omega arith) (omega arith),
  ),
)
  where
    filled :
        (j : ℕ)
        → (length (fill_from rand (max_speed category) 0 100 (replicate 100 0)) ≡ 100)
          × (j < 0
              → get_or (fill_from rand (max_speed category) 0 100 (replicate 100 0)) j 0
                ≡ get_or (replicate 100 0) j 0)
          × (0 ≤ j
              → j < 0 + 100
              → (min_wind_speed
                  ≤ get_or (fill_from rand (max_speed category) 0 100 (replicate 100 0)) j 0)
                × (get_or (fill_from rand (max_speed category) 0 100 (replicate 100 0)) j 0
                    ≤ max_speed category))
    filled j =
        fill_from_lem rand (max_speed category) 0 100 (replicate 100 0) j (omega arith)
          (max_speed-ge category)
