-- ===== src/Capitals/Tests.antt =====
-- Runs of the two functions ModifyArray and of array_exercise, and the theorems at them.
use ciic.Common.{◌≡◌, refl, arith, none, some, [], ◌∷◌, ◌++◌, map}
use ciic.Common.Text.{codes, fgets_all, line_feed}
use ciic.Capitals.{toupper, modify_array, modify_every_second, main}
use ciic.Capitals.Letters.{main-capitals}

modify_array_word :
    modify_array (codes "Abc1z" ++ 0 ∷ codes "q") ≡ some (codes "ABC1Z" ++ 0 ∷ codes "q")
unfolding modify_array
modify_array_word = refl

modify_every_second_word :
    modify_every_second (codes "abcde" ++ 0 ∷ []) ≡ some (codes "AbCdE" ++ 0 ∷ [])
unfolding modify_every_second
modify_every_second_word = refl

-- At the end of the input the array is never set.
main_nothing : main [] [] ≡ none
unfolding main fgets_all
main_nothing = refl

main-capitals_example :
    main (9 ∷ []) (codes "hi" ++ line_feed ∷ codes "there")
    ≡ some (map toupper (codes "hi" ++ line_feed ∷ []))
main-capitals_example =
    main-capitals (9 ∷ []) (codes "hi") (codes "there") (refl, (refl, tt)) (refl, (refl, tt))
      (omega arith)
