-- ===== src/Manager/Validity.antt =====
-- What the manager of Section2/homeworks/H1 sends for any file.
use ciic.Common.{
  ℕ, ◌≡◌, ◌≢◌, ◌⊎◌, refl, Option, none, some, List, [], ◌∷◌, ◌++◌, arith, length, length-append,
  get_or, All, All-append,
}
use ciic.Common.Int.{ℤ, pos, ◌≤ℤ◌}
use ciic.Common.Text.{fgets_all, cut_line}
use ciic.Manager.{
  Signal, term, Outcome, empty_line, sent, parse_signal, target_pid, on_command, on_words, on_text,
  on_line, scan_command, Sent, count_outcome, loop, main, max_line_length,
}

-- A signal that the file of commands may send
abbrev pub IsCommand : ℤ → ℤ → ℤ × Signal → Type 0
IsCommand pid1 pid2 kill = ((kill.0 ≡ pid1) ⊎ (kill.0 ≡ pid2)) × (kill.1 ≢ term)

abbrev OutcomeOk : ℤ → ℤ → Outcome → Type 0
OutcomeOk pid1 pid2 (sent pid signal) = IsCommand pid1 pid2 (pid, signal)
OutcomeOk pid1 pid2 _ = Unit

on_command-OutcomeOk :
    (pid1 pid2 : ℤ) (worker signal : List ℕ)
    → OutcomeOk pid1 pid2 (on_command pid1 pid2 worker signal)
unfolding on_command target_pid parse_signal
on_command-OutcomeOk pid1 pid2 worker signal = ground arith

on_words-OutcomeOk :
    (pid1 pid2 : ℤ) (words : Option (List ℕ × List ℕ))
    → OutcomeOk pid1 pid2 (on_words pid1 pid2 words)
unfolding on_words
on_words-OutcomeOk pid1 pid2 none = tt
on_words-OutcomeOk pid1 pid2 (some (worker, signal)) = on_command-OutcomeOk pid1 pid2 worker signal

on_text-OutcomeOk : (pid1 pid2 : ℤ) (text : List ℕ) → OutcomeOk pid1 pid2 (on_text pid1 pid2 text)
unfolding on_text
on_text-OutcomeOk pid1 pid2 [] = tt
on_text-OutcomeOk pid1 pid2 (c ∷ cs) = on_words-OutcomeOk pid1 pid2 (scan_command (c ∷ cs))

on_line-OutcomeOk : (pid1 pid2 : ℤ) (line : List ℕ) → OutcomeOk pid1 pid2 (on_line pid1 pid2 line)
unfolding on_line
on_line-OutcomeOk pid1 pid2 line = on_text-OutcomeOk pid1 pid2 (cut_line line)

-- The state of the loop: every call of `kill` is a command's, and each is counted.
abbrev SentOk : ℤ → ℤ → Sent → Type 0
SentOk pid1 pid2 s = All (IsCommand pid1 pid2) s.kills × (s.command_count ≡ length s.kills)

count_outcome-SentOk :
    (pid1 pid2 : ℤ) (s : Sent) (o : Outcome)
    → OutcomeOk pid1 pid2 o
    → SentOk pid1 pid2 s
    → SentOk pid1 pid2 (count_outcome s o)
unfolding count_outcome
count_outcome-SentOk pid1 pid2 s (sent pid signal) o h = (
  All-append (IsCommand pid1 pid2) s.kills ((pid, signal) ∷ []) h.0 (o, tt),
  omega (arith, h.1, length-append s.kills ((pid, signal) ∷ [])),
)
count_outcome-SentOk pid1 pid2 s empty_line o h = h
count_outcome-SentOk pid1 pid2 s _ o h = h

loop-SentOk :
    (pid1 pid2 : ℤ) (lines : List (List ℕ)) (s : Sent)
    → SentOk pid1 pid2 s
    → SentOk pid1 pid2 (loop pid1 pid2 lines s)
unfolding loop
loop-SentOk pid1 pid2 [] s h = h
loop-SentOk pid1 pid2 (line ∷ lines) s h =
    loop-SentOk pid1 pid2 lines (count_outcome s (on_line pid1 pid2 line)) (
      count_outcome-SentOk pid1 pid2 s (on_line pid1 pid2 line) (on_line-OutcomeOk pid1 pid2 line)
        h)

-- Whatever the file holds, if `main` runs to its end, the two arguments stand for positive numbers,
-- and the calls of `kill` are as many as `command_count`, each with one of the two and with SIGUSR1
-- or SIGUSR2, and then SIGTERM to both.
main_sends :
    (atoi : List ℕ → ℤ) (argv : List (List ℕ)) (commands : Option (List ℕ)) (out : Sent)
    → main atoi argv commands ≡ some out
    → (pos 1 ≤ℤ atoi (get_or argv 1 []))
      × (pos 1 ≤ℤ atoi (get_or argv 2 []))
      × ((kills : List (ℤ × Signal)) × (out.command_count ≡ length kills)
          × All (IsCommand (atoi (get_or argv 1 [])) (atoi (get_or argv 2 []))) kills
          × (out.kills
              ≡ kills ++ (atoi (get_or argv 1 []), term) ∷ (atoi (get_or argv 2 []), term) ∷ []))
unfolding main
main_sends atoi argv none out e = absurd (ground arith)
main_sends atoi argv (some file) out e =
    (ground arith, ground arith, (s.kills, ground (arith, ok.1), ok.0, ground arith))
  where
    s : Sent
    s =
        loop (atoi (get_or argv 1 [])) (atoi (get_or argv 2 [])) (fgets_all max_line_length file)
          (record { kills = []; command_count = 0 })

    ok : SentOk (atoi (get_or argv 1 [])) (atoi (get_or argv 2 [])) s
    ok =
        loop-SentOk (atoi (get_or argv 1 [])) (atoi (get_or argv 2 []))
          (fgets_all max_line_length file) (record { kills = []; command_count = 0 }) (tt, refl)
