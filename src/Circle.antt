-- ===== src/Circle.antt =====
-- Section1/L2: src/functions.c and src/main.c, which compute an area, a perimeter or a volume.
pub mod Commands
mod Tests
use ciic.Common.{ℕ, Bool, true, false, ◌||◌, not, Option, none, some, List, [], ◌∷◌, if◌then◌else◌}
use ciic.Common.Int.{ℤ, pos}
use ciic.Common.Text.{codes, str_same}

-- `double`, as far as the program uses it, with its constants
pub record Doubles : Type 1 where
  pub Double : Type 0
  pub of_ℤ : ℤ → Double
  pub pi : Double  -- 3.14159
  pub mul : Double → Double → Double
  pub div : Double → Double → Double
  pub pow : Double → Double → Double
  pub below_zero : Double → Bool

module _ (d : Doubles) where
  -- `CalculateCircleArea`
  unfoldable pub calculate_circle_area : d.Double → d.Double
  calculate_circle_area radius = d.mul (d.mul d.pi radius) radius

  -- `CalculateCirclePerimeter`
  unfoldable pub calculate_circle_perimeter : d.Double → d.Double
  calculate_circle_perimeter radius = d.mul (d.mul (d.of_ℤ (pos 2)) d.pi) radius

  -- `CalculateSphereVolume`
  unfoldable pub calculate_sphere_volume : d.Double → d.Double
  calculate_sphere_volume radius =
      d.mul (d.mul (d.div (d.of_ℤ (pos 4)) (d.of_ℤ (pos 3))) d.pi) (d.pow radius (d.of_ℤ (pos 3)))

  -- What `main` prints: a number, with exit code 0, or an error, with exit code 1.
  pub data Outcome : Type 0 where
    printed : d.Double → Outcome
    incorrect_number : Outcome
    invalid_radius : Outcome
    invalid_command : Outcome

  -- The chain of `strcmp`
  unfoldable pub on_command : List ℕ → d.Double → Outcome
  unfolding calculate_circle_area calculate_circle_perimeter calculate_sphere_volume
  on_command command radius =
      if str_same command (codes "circle_area")
      then printed (calculate_circle_area radius)
      else if str_same command (codes "circle_perimeter")
      then printed (calculate_circle_perimeter radius)
      else if str_same command (codes "sphere_volume")
      then printed (calculate_sphere_volume radius)
      else invalid_command

  abbrev pub is_empty : List ℕ → Bool
  is_empty [] = true
  is_empty (c ∷ cs) = false

  -- `main`, where `strtod` gives a number and the text behind it
  unfoldable pub main : (List ℕ → d.Double × List ℕ) → List (List ℕ) → Outcome
  unfolding on_command
  main strtod (program ∷ command ∷ argument ∷ []) =
      let (radius, rest) = strtod argument in
      if not (is_empty rest) || d.below_zero radius
      then invalid_radius
      else on_command command radius
  main strtod argv = incorrect_number
