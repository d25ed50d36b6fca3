-- ===== src/Manager.antt =====
-- Section2/homeworks/H1: the manager (manager/src/main.c) reads commands from a file and signals two
-- workers; in `Worker` what a worker (worker/src/main.c) does with the signals.
pub mod Worker
pub mod Commands
pub mod Validity
mod Tests
use ciic.Common.{
  ℕ, ◌+◌, Bool, true, false, ◌||◌, Option, none, some, List, [], ◌∷◌, ◌++◌, if◌then◌else◌, ◌==◌,
  length, not, get_or,
}
use ciic.Common.Int.{ℤ, pos, leb_ℤ}
use ciic.Common.Text.{codes, str_same, fgets_all, cut_line, scan_word}

abbrev pub max_line_length : ℕ
max_line_length = 256

pub data Signal : Type 0 where
  usr1 : Signal
  usr2 : Signal
  term : Signal

-- `Parse_signal`; `none` is -1.
pub parse_signal : List ℕ → Option Signal
unfolding str_same
parse_signal name =
    if str_same name (codes "SIGUSR1")
    then some usr1
    else if str_same name (codes "SIGUSR2")
    then some usr2
    else none

-- The worker that a name stands for.
pub target_pid : ℤ → ℤ → List ℕ → Option ℤ
unfolding str_same
target_pid worker1_pid worker2_pid name =
    if str_same name (codes "worker1")
    then some worker1_pid
    else if str_same name (codes "worker2")
    then some worker2_pid
    else none

-- What a line comes to: a call of `kill`, or one of the messages.
pub data Outcome : Type 0 where
  empty_line : Outcome
  parse_error : Outcome
  unknown_worker : Outcome
  unknown_signal : Outcome
  sent : ℤ → Signal → Outcome

-- The two words of a line
pub scan_command : List ℕ → Option (List ℕ × List ℕ)
unfolding scan_word
scan_command line = elim (scan_word 15 line) [
  | none ↦ none
  | some (worker_name, rest) ↦ elim (scan_word 15 rest) [
    | none ↦ none
    | some (signal_name, rest') ↦ some (worker_name, signal_name)
  ]
]

pub on_command : ℤ → ℤ → List ℕ → List ℕ → Outcome
unfolding target_pid parse_signal
on_command worker1_pid worker2_pid worker_name signal_name =
    elim (target_pid worker1_pid worker2_pid worker_name) [
      | none ↦ unknown_worker
      | some pid ↦ elim (parse_signal signal_name) [
        | none ↦ unknown_signal
        | some signal ↦ sent pid signal
      ]
    ]

pub on_words : ℤ → ℤ → Option (List ℕ × List ℕ) → Outcome
unfolding on_command
on_words worker1_pid worker2_pid none = parse_error
on_words worker1_pid worker2_pid (some (worker_name, signal_name)) =
    on_command worker1_pid worker2_pid worker_name signal_name

pub on_text : ℤ → ℤ → List ℕ → Outcome
unfolding on_words scan_command
on_text worker1_pid worker2_pid [] = empty_line
on_text worker1_pid worker2_pid (c ∷ cs) = on_words worker1_pid worker2_pid (scan_command (c ∷ cs))

-- The body of the `while`
pub on_line : ℤ → ℤ → List ℕ → Outcome
unfolding cut_line on_text
on_line worker1_pid worker2_pid line = on_text worker1_pid worker2_pid (cut_line line)

-- The calls of `kill`, in order, and `command_count`. A call that fails is counted too.
pub record Sent : Type 0 where
  pub kills : List (ℤ × Signal)
  pub command_count : ℕ

pub count_outcome : Sent → Outcome → Sent
count_outcome s (sent pid signal) = record {
  kills = s.kills ++ (pid, signal) ∷ [];
  command_count = s.command_count + 1;
}
count_outcome s _ = s

pub loop : ℤ → ℤ → List (List ℕ) → Sent → Sent
unfolding on_line count_outcome
loop worker1_pid worker2_pid [] s = s
loop worker1_pid worker2_pid (line ∷ lines) s =
    loop worker1_pid worker2_pid lines (count_outcome s (on_line worker1_pid worker2_pid line))

-- `main` on its arguments (the program's name first) and on commands.txt, which may not open; `none`
-- is EXIT_FAILURE. `atoi` is the library's.
pub main : (List ℕ → ℤ) → List (List ℕ) → Option (List ℕ) → Option Sent
unfolding loop fgets_all
main atoi argv commands =
    let worker1_pid = atoi (get_or argv 1 []) in
    let worker2_pid = atoi (get_or argv 2 []) in
    if not (length argv == 3)
    then none
    else if leb_ℤ worker1_pid (pos 0) || leb_ℤ worker2_pid (pos 0)
    then none
    else elim commands [
      | none ↦ none
      | some file ↦
          let s =
            loop worker1_pid worker2_pid (fgets_all max_line_length file)
              (record { kills = []; command_count = 0 }) in
          some (record s { kills = s.kills ++ (worker1_pid, term) ∷ (worker2_pid, term) ∷ [] })
    ]
