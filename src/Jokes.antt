-- ===== src/Jokes.antt =====
-- Section1/HM1: three jokes, each with a punchline that the user picks (src/functions.c, src/main.c).
pub mod Session
mod Tests
use Prim.Native.String.{String}
use ciic.Common.{
  ℕ, zero, suc, ◌+◌, ◌%◌, ◌||◌, Option, none, some, List, [], ◌∷◌, ◌++◌, ◌==◌, if◌then◌else◌,
  length,
}
use ciic.Common.Int.{ℤ, pos, pos_part, ltb_ℤ}
use ciic.Common.Text.{line_feed, Scanned, number, mismatch, end_of_file, scan_int}

abbrev pub invalid : String
invalid = "Invalid number. Please enter a number between 1 and 5."

-- `TellJoke`
pub tell_joke : ℕ → String
tell_joke joke_number =
    if joke_number == 1
    then "Do you know why the programmer quit his job?"
    else if joke_number == 2
    then "Do you know why C is a good language for kids?"
    else if joke_number == 3
    then "Do you know why the computer was cold?"
    else if joke_number == 4
    then "Do you know why computers are so smart?"
    else if joke_number == 5
    then "Do you know why a byte got married?"
    else invalid

-- `GivePunchline`
pub give_punchline : ℕ → String
give_punchline punchline_number =
    if punchline_number == 1
    then "Because he didn't get arrays."
    else if punchline_number == 2
    then "Because it's easy to C!"
    else if punchline_number == 3
    then "Because it left its Windows open."
    else if punchline_number == 4
    then "Because they listen to their motherboards."
    else if punchline_number == 5
    then "Because it needed to be converted into a gig-abyte."
    else invalid

-- `while (getchar() != '\n')`: the input behind the line; `none` means that the input has no further
-- line feed and the loop never ends, since EOF is not one.
pub skip_line : List ℕ → Option (List ℕ)
skip_line [] = none
skip_line (c ∷ cs) = if c == line_feed then some cs else skip_line cs

-- How the question ends: with an answer and the rest of the input, or not at all.
pub data Answer : Type 0 where
  answered : ℕ → List ℕ → Answer
  hangs : Answer
  out_of_fuel : Answer

pub on_skipped : (List ℕ → Answer) → Option (List ℕ) → Answer
on_skipped next none = hangs
on_skipped next (some rest) = next rest

-- The body of the `while (1)`, where `next` is the loop's next round.
pub on_scanned : (List ℕ → Answer) → Scanned → Answer
unfolding on_skipped skip_line
on_scanned next (number answer rest) =
    if ltb_ℤ answer (pos 1) || ltb_ℤ (pos 5) answer
    then next rest
    else answered (pos_part answer) rest
on_scanned next (mismatch rest) = on_skipped next (skip_line rest)
on_scanned next end_of_file = on_skipped next (skip_line [])

-- The `while (1)`, with fuel for its rounds.
pub ask : ℕ → List ℕ → Answer
unfolding on_scanned
ask zero input = out_of_fuel
ask (suc fuel) input = on_scanned (ask fuel) (scan_int input)

-- `(rand() % 5) + 1`
abbrev pub joke_num : ℕ → ℕ
joke_num rand = rand % 5 + 1

-- How the program ends: it does, or a question never ends, or the fuel ran out.
pub data Ending : Type 0 where
  finished : Ending
  waiting : Ending
  unfinished : Ending

-- What is printed of each joke and its punchline, and how the program ends.
abbrev pub Printed : Type 0
Printed = List (String × Option String) × Ending

-- A round of the `for` from the answer on, where `next` is the rounds behind it.
pub on_answer : ℕ → (List ℕ → Printed) → Answer → Printed
unfolding tell_joke give_punchline
on_answer rand next (answered answer rest) =
    let (told, ends) = next rest in
    ((tell_joke (joke_num rand), some (give_punchline answer)) ∷ told, ends)
on_answer rand next hangs = ((tell_joke (joke_num rand), none) ∷ [], waiting)
on_answer rand next out_of_fuel = ([], unfinished)

-- The `for`, over what `rand` returns in its rounds.
pub rounds : List ℕ → List ℕ → Printed
unfolding on_answer ask
rounds [] input = ([], finished)
rounds (rand ∷ rands) input = on_answer rand (rounds rands) (ask (length input + 1) input)

pub main : ℕ → ℕ → ℕ → List ℕ → Printed
unfolding rounds
main rand1 rand2 rand3 input = rounds (rand1 ∷ rand2 ∷ rand3 ∷ []) input
