-- ===== src/Jokes/Session.antt =====
-- A session of Section1/HM1: which jokes and punchlines are printed, and when it ends.
use ciic.Common.{ℕ, ◌≤◌, ◌<◌, ◌≡◌, Option, none, some, List, [], ◌∷◌, length, ◌⊎◌}
use ciic.Common.Int.{ℤ, pos}
use ciic.Common.Text.{number, mismatch, scan_int}
use ciic.Jokes.{
  tell_joke, give_punchline, skip_line, Answer, answered, hangs, out_of_fuel, joke_num, Printed,
  finished, waiting,
}

abbrev Skipped : ℕ → Option (List ℕ) → Type 0
Skipped size none = Unit
Skipped size (some rest) = length rest < size

-- A number is an answer if it is one of the five.
abbrev IsAnswer : ℤ → ℕ → Type 0
IsAnswer z a = (z ≡ pos a) × (1 ≤ a) × (a ≤ 5)

-- An input gives the answer `a`, and `rest` behind it: other numbers are refused, and a line is
-- skipped from what is no number on.
pub data Gives (a : ℕ) (rest : List ℕ) : List ℕ → Type 0 where
  valid :
      {input : List ℕ} {z : ℤ} → scan_int input ≡ number z rest → IsAnswer z a → Gives a rest input
  refused :
      {input mid : List ℕ} {z : ℤ}
      → scan_int input ≡ number z mid
      → ((b : ℕ) → IsAnswer z b → ⊥)
      → Gives a rest mid
      → Gives a rest input
  skipped :
      {input line mid : List ℕ}
      → scan_int input ≡ mismatch line
      → skip_line line ≡ some mid
      → Gives a rest mid
      → Gives a rest input

abbrev pub NoAnswer : List ℕ → Type 0
NoAnswer input = (a : ℕ) (rest : List ℕ) → Gives a rest input → ⊥

-- What the question makes of an input
abbrev AnswerOk : List ℕ → Answer → Type 0
AnswerOk input (answered a rest) = Gives a rest input × (1 ≤ a) × (a ≤ 5)
AnswerOk input hangs = NoAnswer input
AnswerOk input out_of_fuel = ⊥

-- Each round tells a joke of the five, and the punchline that the input gives, or it waits for ever
-- behind the joke, where the input gives none.
abbrev pub RoundsOk : List ℕ → List ℕ → Printed → Type 0
RoundsOk [] input p = p ≡ ([], finished)
RoundsOk (rand ∷ rands) input p =
    (1 ≤ joke_num rand)
    × (joke_num rand ≤ 5)
    × (((a : ℕ) × (rest : List ℕ) × (later : Printed) × (1 ≤ a)
          × (a ≤ 5)
          × Gives a rest input
          × RoundsOk rands rest later
          × (p ≡ ((tell_joke (joke_num rand), some (give_punchline a)) ∷ later.0, later.1)))
        ⊎ (NoAnswer input × (p ≡ ((tell_joke (joke_num rand), none) ∷ [], waiting))))
