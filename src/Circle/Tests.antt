-- ===== src/Circle/Tests.antt =====
-- Runs of Section1/L2, and its theorem at one.
use ciic.Common.{ℕ, ◌≡◌, refl, Bool, true, false, List, [], ◌∷◌, ◌-◌}
use ciic.Common.Int.{ℤ, pos, negsuc, ◌*ℤ◌}
use ciic.Common.Text.{codes, str_same}
use ciic.Circle.{Doubles, printed, invalid_radius, invalid_command, main}
use ciic.Circle.Commands.{Ends, main-Known}

abbrev negative : ℤ → Bool
negative (pos n) = false
negative (negsuc n) = true

-- Whole numbers, with 3 for pi
abbrev whole : Doubles
whole = record {
  Double = ℤ;
  of_ℤ = λ z. z;
  pi = pos 3;
  mul = ◌*ℤ◌;
  div = λ a b. a;
  pow = λ a b. a *ℤ a *ℤ a;
  below_zero = negative;
}

-- A `strtod` that reads one digit
abbrev digit : List ℕ → ℤ × List ℕ
digit [] = (pos 0, [])
digit (c ∷ cs) = (pos (c - 48), cs)

abbrev area_of_five : List (List ℕ)
area_of_five = codes "circle" ∷ codes "circle_area" ∷ codes "5" ∷ []

main_area : main whole digit area_of_five ≡ printed (pos 75)
unfolding main ◌*ℤ◌ str_same
main_area = refl

main_perimeter :
    main whole digit (codes "circle" ∷ codes "circle_perimeter" ∷ codes "5" ∷ []) ≡ printed (pos 30)
unfolding main ◌*ℤ◌ str_same
main_perimeter = refl

main_rest :
    main whole digit (codes "circle" ∷ codes "circle_area" ∷ codes "5x" ∷ []) ≡ invalid_radius
unfolding main
main_rest = refl

-- An empty argument is taken for the radius 0.
main_empty_argument :
    main whole digit (codes "circle" ∷ codes "circle_area" ∷ [] ∷ []) ≡ printed (pos 0)
unfolding main ◌*ℤ◌ str_same
main_empty_argument = refl

main_other : main whole digit (codes "circle" ∷ codes "cube" ∷ codes "5" ∷ []) ≡ invalid_command
unfolding main str_same
main_other = refl

main-Known_example : Ends whole digit area_of_five
main-Known_example = main-Known whole digit area_of_five
