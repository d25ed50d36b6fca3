-- ===== src/Vruntime/Tests.antt =====
-- Runs of examfinal/exam3 and of the monitor below Bono/, and the theorems at them.
use ciic.Common.{ℕ, ◌≡◌, refl, true, Option, none, some, List, [], ◌∷◌, arith, length}
use ciic.Common.Int.{ℤ, pos}
use ciic.Common.Text.{
  codes, Scanned, number, mismatch, end_of_file, scan_int, skip_spaces, fgets_all,
}
use ciic.Vruntime.{Doubles, number_or_zero, get_number_from_text, alarm_handler}
use ciic.Vruntime.Monitor.{max_pids, read_vruntime}
use ciic.Vruntime.Monitor
use ciic.Vruntime.Agreement.{Entry, number_of, sched_file, alarm_handler-read_vruntime}

-- Whole numbers in place of `double`
abbrev found : Scanned → Option ℤ
found (number n rest) = some n
found (mismatch rest) = none
found end_of_file = none

abbrev whole : Doubles
whole = record { Double = ℤ; zero_double = pos 0; scan_double = λ cs. found (scan_int cs) }

abbrev entry : Entry
entry = record {
  first = b's';
  name = codes "e.vruntime  ";
  blanks = 3;
  start = b'4';
  digits = codes "217";
}

abbrev file : List ℕ
file =
    sched_file (codes "bash (12, #threads: 1)") (codes "----") (codes "se.start : 7") entry
      (codes "x\n")

handler_logs :
    alarm_handler whole true (some file) ≡ record { code = 0; log = some (pos 4217 ∷ []) }
unfolding alarm_handler fgets_all scan_int
handler_logs = refl

-- A line that begins with a digit counts as 0.
digit_first : get_number_from_text whole (codes "12 : 5\n") ≡ pos 0
unfolding get_number_from_text
digit_first = refl

-- A file of three lines
handler_fails : (alarm_handler whole true (some (codes "1\n2\n3\n"))).code ≡ 1
unfolding alarm_handler fgets_all
handler_fails = refl

skips : (cs : List ℕ) → whole.scan_double (b' ' ∷ cs) ≡ whole.scan_double cs
unfolding scan_int skip_spaces
skips cs = refl

alarm_handler-read_vruntime_example :
    (alarm_handler whole true (some file) ≡ record {
      code = 0;
      log = some (number_or_zero whole (whole.scan_double (number_of entry)) ∷ []);
    })
    × (read_vruntime whole (some file) ≡ whole.scan_double (number_of entry))
alarm_handler-read_vruntime_example =
    alarm_handler-read_vruntime whole skips (codes "bash (12, #threads: 1)") (codes "----")
      (codes "se.start : 7") entry (codes "x\n") (ground arith) (ground arith) (ground arith)
      (ground arith) (ground arith)

-- The pid of a word is its length; q is pressed in the second of three rounds.
abbrev shown : List (Option ℕ × (ℤ → Option (List ℕ)))
shown = (none, λ pid. some file) ∷ (some b'q', λ pid. none) ∷ (none, λ pid. some file) ∷ []

two_screens :
    (screens : List (List (ℤ × Option ℤ))) × (Monitor.main whole
        (λ cs. pos (length cs))
        (codes "monitor" ∷ codes "a" ∷ codes "bc" ∷ [])
        shown
      ≡ some (screens, true))
    × (screens
        ≡ ((pos 1, some (pos 4217)) ∷ (pos 2, some (pos 4217)) ∷ [])
          ∷ ((pos 1, none) ∷ (pos 2, none) ∷ [])
          ∷ [])
unfolding Monitor.main read_vruntime fgets_all scan_int
two_screens = (_, refl, refl)
