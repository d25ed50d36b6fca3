-- ===== src/Circle/Commands.antt =====
-- Section1/L2/src/main.c: when it prints a number, and which.
use ciic.Common.{ℕ, ◌≡◌, ◌⊎◌, inl, inr, refl, true, false, List, [], ◌∷◌, arith, Bool-cases, ap₂}
use ciic.Common.Int.{pos}
use ciic.Common.Text.{codes, str_same}
use ciic.Circle.{
  Doubles, calculate_circle_area, calculate_circle_perimeter, calculate_sphere_volume, printed,
  incorrect_number, invalid_radius, invalid_command, on_command, main,
}

str_same-eq : (xs ys : List ℕ) → str_same xs ys ≡ true → xs ≡ ys
unfolding str_same
str_same-eq [] [] h = refl
str_same-eq [] (y ∷ ys) h = absurd (ground (arith, h))
str_same-eq (x ∷ xs) [] h = absurd (ground (arith, h))
str_same-eq (x ∷ xs) (y ∷ ys) h =
    ap₂ ◌∷◌ (ground (arith, h)) (str_same-eq xs ys (ground (arith, h)))

module _ (d : Doubles) where
  -- What a known command prints of a radius
  abbrev pub Known : List ℕ → d.Double → d.Double → Type 0
  Known command radius result =
      ((command ≡ codes "circle_area") × (result ≡ d.mul (d.mul d.pi radius) radius))
      ⊎ (((command ≡ codes "circle_perimeter")
            × (result ≡ d.mul (d.mul (d.of_ℤ (pos 2)) d.pi) radius))
          ⊎ ((command ≡ codes "sphere_volume")
              × (result
                  ≡ d.mul (d.mul (d.div (d.of_ℤ (pos 4)) (d.of_ℤ (pos 3))) d.pi)
                      (d.pow radius (d.of_ℤ (pos 3))))))

  on_command-Known :
      (command : List ℕ) (radius : d.Double)
      → (on_command d command radius ≡ invalid_command)
        ⊎ (result : d.Double) × (on_command d command radius ≡ printed result)
          × Known command radius result
  unfolding on_command calculate_circle_area calculate_circle_perimeter calculate_sphere_volume
  on_command-Known command radius = elim (Bool-cases (str_same command (codes "circle_area"))) [
    | inl p ↦ inr (_, ground (arith, p), inl (str_same-eq command (codes "circle_area") p, refl))
    | inr p ↦ elim (Bool-cases (str_same command (codes "circle_perimeter"))) [
      | inl q ↦ inr (
        _,
        ground (arith, p, q),
        inr (inl (str_same-eq command (codes "circle_perimeter") q, refl)),
      )
      | inr q ↦ elim (Bool-cases (str_same command (codes "sphere_volume"))) [
        | inl r ↦ inr (
          _,
          ground (arith, p, q, r),
          inr (inr (str_same-eq command (codes "sphere_volume") r, refl)),
        )
        | inr r ↦ inl (ground (arith, p, q, r))
      ]
    ]
  ]

  -- How a run of the program ends
  abbrev pub Ends : (List ℕ → d.Double × List ℕ) → List (List ℕ) → Type 0
  Ends strtod argv =
      ((main d strtod argv ≡ incorrect_number)
        ⊎ ((main d strtod argv ≡ invalid_radius) ⊎ (main d strtod argv ≡ invalid_command)))
      ⊎ (program : List ℕ) × (command : List ℕ) × (argument : List ℕ) × (radius : d.Double)
        × (result : d.Double) × (argv ≡ program ∷ command ∷ argument ∷ [])
        × (strtod argument ≡ (radius, []))
        × (d.below_zero radius ≡ false)
        × Known command radius result
        × (main d strtod argv ≡ printed result)

  -- The program prints an error, or it has two arguments beside its name: a command, one of the three
  -- words, and a text that `strtod` takes to its end for a number that is not below zero. Then it
  -- prints the area or the perimeter of the circle, or the volume of the sphere, as the command says.
  pub main-Known : (strtod : List ℕ → d.Double × List ℕ) (argv : List (List ℕ)) → Ends strtod argv
  unfolding main
  main-Known strtod [] = inl (inl refl)
  main-Known strtod (p ∷ []) = inl (inl refl)
  main-Known strtod (p ∷ c ∷ []) = inl (inl refl)
  main-Known strtod (p ∷ c ∷ a ∷ x ∷ rest) = inl (inl refl)
  main-Known strtod (p ∷ c ∷ a ∷ []) = on_number (strtod a).0 (strtod a).1 refl
    where
      on_number :
          (radius : d.Double) (rest : List ℕ)
          → strtod a ≡ (radius, rest)
          → Ends strtod (p ∷ c ∷ a ∷ [])
      on_number radius (y ∷ rest) e = inl (inr (inl (rw (e, main) refl)))
      on_number radius [] e = elim (Bool-cases (d.below_zero radius)) [
        | inl h ↦ inl (inr (inl (ground (arith, e, h))))
        | inr h ↦ elim (on_command-Known c radius) [
          | inl q ↦ inl (inr (inr (ground (arith, e, h, q))))
          | inr (result, q, known) ↦
              inr (p, c, a, radius, result, refl, e, h, known, ground (arith, e, h, q))
        ]
      ]
