-- ===== src/Manager/Tests.antt =====
-- Runs of the manager and a worker of Section2/homeworks/H1, and the theorems at them.
use ciic.Common.{ℕ, ◌≡◌, refl, true, false, none, some, List, [], ◌∷◌, arith, if◌then◌else◌, ◌==◌}
use ciic.Common.Int.{ℤ, pos}
use ciic.Common.Text.{codes}
use ciic.Manager.{Signal, usr1, usr2, term, Sent, main}
use ciic.Manager.Worker.{started, in_pause, before_pause}
use ciic.Manager.Worker
use ciic.Manager.Commands.{
  Command, worker1_usr1, worker1_usr2, worker2_usr1, file_of, line1, line2, log_of, delivered,
  main-workers,
}

-- One digit
abbrev atoi : List ℕ → ℤ
atoi [] = pos 0
atoi (c ∷ cs) = if c == b'7' then pos 7 else if c == b'8' then pos 8 else pos 0

abbrev argv : List (List ℕ)
argv = codes "manager" ∷ codes "7" ∷ codes "8" ∷ []

-- An empty line, a worker that there is not, too few words, a signal that there is not, spaces.
main_errors :
    main atoi argv
      (some (codes "\nworker3 SIGUSR1\nworker1\nworker1 SIGINT\n  worker2\tSIGUSR2 now\n"))
    ≡ some
        (record { kills = (pos 8, usr2) ∷ (pos 7, term) ∷ (pos 8, term) ∷ []; command_count = 1 })
unfolding main
main_errors = refl

main_no_pid : main atoi (codes "manager" ∷ codes "7" ∷ codes "x" ∷ []) (some []) ≡ none
unfolding main
main_no_pid = refl

-- SIGTERM between the test and `pause`: the worker waits on.
lost_term : (Worker.loop (before_pause term ∷ []) (started true)).1 ≡ false
unfolding Worker.loop
lost_term = refl

abbrev commands : List Command
commands = worker2_usr1 ∷ worker1_usr2 ∷ worker1_usr1 ∷ []

abbrev kills : List (ℤ × Signal)
kills = (pos 8, usr1) ∷ (pos 7, usr2) ∷ (pos 7, usr1) ∷ (pos 7, term) ∷ (pos 8, term) ∷ []

main_commands :
    main atoi argv (some (file_of commands)) ≡ some (record { kills = kills; command_count = 3 })
unfolding main file_of
main_commands = refl

main-workers_example :
    (out : Sent) × (main atoi argv (some (file_of commands)) ≡ some out)
    × (out.command_count ≡ 3)
    × (Worker.loop (delivered (pos 7) out.kills) (started true)
        ≡ (record { keep_running = false; log = log_of line1 commands; log_opens = true }, true))
    × (Worker.loop (delivered (pos 8) out.kills) (started true)
        ≡ (record { keep_running = false; log = log_of line2 commands; log_opens = true }, true))
main-workers_example = main-workers atoi argv commands refl (omega arith) (omega arith) (λ e. cc)
