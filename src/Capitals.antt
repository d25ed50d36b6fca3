-- ===== src/Capitals.antt =====
-- Section1/class_examples/array_exercise, which prints a line in capitals, and ModifyArray of
-- Section2/class_examples/Lab2-L2-solution, which changes every second letter.
pub mod Letters
mod Tests
use mathlib.Core.Option
use ciic.Common.Text.{fgets_all, shown}
use ciic.Common.{
  ◌++◌, ℕ, zero, suc, ◌+◌, ◌-◌, ◌%◌, Bool, true, false, ◌&&◌, Option, none, some, List, [], ◌∷◌,
  ◌==◌, ltb, leb, get_or, set, length, if◌then◌else◌,
}

-- `toupper` in the C locale
abbrev pub toupper : ℕ → ℕ
toupper c = if leb 97 c && leb c 122 then c - 32 else c

-- The `for` of `ModifyArray`, with fuel for its rounds; `none` means that the fuel ran out. Behind its
-- end an array reads as zero here; `Letters` shows that the loop ends before.
unfoldable pub modify_from : ℕ → ℕ → List ℕ → Option (List ℕ)
modify_from zero i array = none
modify_from (suc fuel) i array =
    let next = modify_from fuel (i + 1) (set array i (toupper (get_or array i 0))) in
    if get_or array i 0 == 0 then some array else next

-- `ModifyArray` of array_exercise
unfoldable pub modify_array : List ℕ → Option (List ℕ)
unfolding modify_from
modify_array array = modify_from (suc (length array)) 0 array

-- `strlen`, at most the size of the array
unfoldable pub strlen : List ℕ → ℕ
strlen [] = 0
strlen (c ∷ cs) = if c == 0 then 0 else suc (strlen cs)

-- The `for` of the other `ModifyArray`, which looks at `strlen` in each round
unfoldable pub modify_every_second_from : ℕ → ℕ → List ℕ → Option (List ℕ)
unfolding strlen
modify_every_second_from zero i array = none
modify_every_second_from (suc fuel) i array =
    let next = modify_every_second_from fuel (i + 2) (set array i (toupper (get_or array i 0))) in
    if ltb i (strlen array) then next else some array

-- `ModifyArray` of Lab2-L2-solution
unfoldable pub modify_every_second : List ℕ → Option (List ℕ)
unfolding modify_every_second_from
modify_every_second array = modify_every_second_from (suc (length array)) 0 array

-- The array behind `fgets`: the line that it has stored, with its zero, and the rest of the hundred
-- bytes as it was; `none` at the end of the input, where nothing is stored.
unfoldable pub on_line : List ℕ → List (List ℕ) → Option (List ℕ)
unfolding modify_array shown
on_line rest [] = none
on_line rest (line ∷ lines) = Option.map shown (modify_array (line ++ 0 ∷ rest))

-- What `main` prints as the text
unfoldable pub main : List ℕ → List ℕ → Option (List ℕ)
unfolding fgets_all on_line
main rest input = on_line rest (fgets_all 100 input)
