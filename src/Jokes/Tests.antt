-- ===== src/Jokes/Tests.antt =====
-- Sessions of Section1/HM1, and the theorem at one.
use ciic.Common.{◌≡◌, refl, some, [], ◌∷◌}
use ciic.Common.Text.{codes, scan_int}
use ciic.Jokes.{tell_joke, give_punchline, finished, waiting, main}

-- Two answers are refused.
main_three : main 0 6 4 (codes "1\nfive 3\n7 +2\n5\n") ≡ (
  (tell_joke 1, some (give_punchline 1))
      ∷ (tell_joke 2, some (give_punchline 2))
      ∷ (tell_joke 5, some (give_punchline 5))
      ∷ [],
  finished,
)
unfolding main tell_joke give_punchline scan_int
main_three = refl

-- The end of the input comes before the second answer.
main_hangs : (main 0 6 4 (codes "1\n")).1 ≡ waiting
unfolding main scan_int
main_hangs = refl
