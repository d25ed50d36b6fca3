-- ===== src/Vruntime.antt =====
-- examfinal/exam3/src/main.c: the virtual run time of a process, from the fourth line of its file
-- /proc/<pid>/sched into a log.
pub mod Monitor
pub mod Agreement
pub mod Screens
mod Tests
use ciic.Common.{
  ℕ, zero, suc, ◌≡◌, Bool, true, false, ◌||◌, Option, none, some, List, [], ◌∷◌, length, ◌==◌,
  if◌then◌else◌,
}
use ciic.Common.Int.{ℤ, pos, leb_ℤ}
use ciic.Common.Text.{is_digit, fgets_all}

-- `double`, as far as the programs use it: its zero, and what `sscanf` with "%lf" reads.
pub record Doubles : Type 1 where
  pub Double : Type 0
  pub zero_double : Double
  pub scan_double : List ℕ → Option Double

abbrev pub buffer_size : ℕ
buffer_size = 256

-- The set of "%*[^0-9-]" from outside
abbrev pub is_start : ℕ → Bool
is_start c = is_digit c || c == b'-'

pub skip_other : List ℕ → List ℕ
skip_other [] = []
skip_other (c ∷ cs) = if is_start c then c ∷ cs else skip_other cs

-- The four rounds of the `for` that calls `fgets`: the line that the last one reads, or `none` where the
-- file ends before.
pub read_lines : ℕ → List (List ℕ) → List ℕ → Option (List ℕ)
read_lines zero lines line = some line
read_lines (suc left) [] line = none
read_lines (suc left) (next ∷ lines) line = read_lines left lines next

-- The code that the process exits with, and what the log holds, if it has been opened.
pub record End (Double : Type 0) : Type 0 where
  pub code : ℕ
  pub log : Option (List Double)

module _ (d : Doubles) where
  pub number_or_zero : Option d.Double → d.Double
  number_or_zero none = d.zero_double
  number_or_zero (some number) = number

  -- `GetNumberFromText`; "%*[^0-9-]" takes one byte at least.
  pub get_number_from_text : List ℕ → d.Double
  unfolding skip_other number_or_zero
  get_number_from_text [] = d.zero_double
  get_number_from_text (c ∷ cs) =
      if is_start c then d.zero_double else number_or_zero (d.scan_double (skip_other cs))

  pub write_log : Bool → d.Double → End d.Double
  write_log opens vruntime =
      if opens
      then record { code = 0; log = some (vruntime ∷ []) }
      else record { code = 1; log = none }

  pub on_line : Bool → Option (List ℕ) → End d.Double
  unfolding write_log get_number_from_text
  on_line opens none = record { code = 1; log = none }
  on_line opens (some line) = write_log opens (get_number_from_text line)

  -- `alarm_handler` on the file of the process, `none` if it does not open, and on whether the log opens.
  pub alarm_handler : Bool → Option (List ℕ) → End d.Double
  unfolding on_line read_lines
  alarm_handler opens none = record { code = 1; log = none }
  alarm_handler opens (some file) = on_line opens (read_lines 4 (fgets_all buffer_size file) [])

  -- `main` from `atoi` on, up to the SIGALRM of its timer.
  pub on_pid : Bool → (ℤ → Option (List ℕ)) → ℤ → End d.Double
  unfolding alarm_handler
  on_pid opens sched target_pid =
      if leb_ℤ target_pid (pos 0)
      then record { code = 1; log = none }
      else alarm_handler opens (sched target_pid)

  pub main : (List ℕ → ℤ) → Bool → (ℤ → Option (List ℕ)) → List (List ℕ) → End d.Double
  unfolding on_pid
  main atoi opens sched (program ∷ arg ∷ []) = on_pid opens sched (atoi arg)
  main atoi opens sched _ = record { code = 1; log = none }
