-- ===== src/Uptime/Times.antt =====
-- The report of Section5/L1.
use ciic.Common.{
  ℕ, suc, ◌+◌, ◌≤◌, ◌<◌, ◌≡◌, true, Option, none, some, List, [], ◌∷◌, ◌++◌, arith, length, All,
  if◌then◌else◌,
}
use ciic.Common.Text.{line_feed}
use ciic.Common.Lines.{NotFeed}
use ciic.Uptime.{
  Doubles, Time, Os, starts_with, processor, path_max, Report, write_report, on_parent, on_cores,
  on_times, main,
}

-- A file of lines
unfoldable pub file_of : List (List ℕ) → List ℕ
file_of [] = []
file_of (l ∷ ls) = l ++ line_feed ∷ file_of ls

abbrev pub IsLine : List ℕ → Type 0
IsLine l = All NotFeed l × (length l + 2 ≤ 256)

-- The lines of a file that begin with "processor"
unfoldable pub processors : List (List ℕ) → ℕ
processors [] = 0
processors (l ∷ ls) = let rest = processors ls in if starts_with processor l then suc rest else rest

-- What a report says of the time, where it says something
abbrev pub TimeOk : Option Time → Type 0
TimeOk none = Unit
TimeOk (some t) = (t.hours < 24) × (t.mins < 60) × (t.secs < 60)

-- Whatever the system gives, `main` exits with 0 only with a report of a core at least, under a path
-- that fits, in a file that opens.
main-some :
    (d : Doubles) (os : Os) (r : Report d)
    → main d os ≡ some r
    → (1 ≤ r.num_cores) × (length r.path < path_max) × (os.report_opens r.path ≡ true)
unfolding main on_times on_cores on_parent write_report
main-some d os r h = ground (arith, h)
