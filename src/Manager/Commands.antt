-- ===== src/Manager/Commands.antt =====
-- The manager and the workers of Section2/homeworks/H1 together: the signals that a file of commands
-- sends, and the logs that they leave.
use ciic.Common.{
  ℕ, ◌+◌, ◌≡◌, ◌≢◌, refl, true, false, some, List, [], ◌∷◌, ◌++◌, arith, map, length, sym, get_or,
  if◌then◌else◌, append_assoc, append-nil,
}
use ciic.Common.Int.{ℤ, pos, ◌≤ℤ◌, eq_ℤ}
use ciic.Common.Text.{codes, fgets_all, fgets_from}
use ciic.Manager.{
  Signal, usr1, usr2, term, sent, on_line, Sent, count_outcome, loop, main, max_line_length,
}
use ciic.Manager.Worker.{Worker, started, log_line, handle, Delivery, in_pause}
use ciic.Manager.Worker

-- A command of the file, as its author means it.
pub data Command : Type 0 where
  worker1_usr1 : Command
  worker1_usr2 : Command
  worker2_usr1 : Command
  worker2_usr2 : Command

abbrev pub text : Command → List ℕ
text worker1_usr1 = codes "worker1 SIGUSR1\n"
text worker1_usr2 = codes "worker1 SIGUSR2\n"
text worker2_usr1 = codes "worker2 SIGUSR1\n"
text worker2_usr2 = codes "worker2 SIGUSR2\n"

unfoldable pub file_of : List Command → List ℕ
file_of [] = []
file_of (c ∷ cs) = text c ++ file_of cs

-- What the logs of the two workers are to hold.
abbrev pub line1 : Command → List ℕ
line1 worker1_usr1 = codes "SIGUSR1 received\n"
line1 worker1_usr2 = codes "SIGUSR2 received\n"
line1 _ = []

abbrev pub line2 : Command → List ℕ
line2 worker2_usr1 = codes "SIGUSR1 received\n"
line2 worker2_usr2 = codes "SIGUSR2 received\n"
line2 _ = []

unfoldable pub log_of : (Command → List ℕ) → List Command → List ℕ
log_of line [] = []
log_of line (c ∷ cs) = line c ++ log_of line cs

-- The signals among the calls of `kill` that go to one process, each delivered in `pause`.
unfoldable pub delivered : ℤ → List (ℤ × Signal) → List Delivery
delivered pid [] = []
delivered pid ((p, s) ∷ kills) =
    if eq_ℤ p pid then in_pause s ∷ delivered pid kills else delivered pid kills

fgets_text :
    (c : Command) (rest : List ℕ)
    → fgets_all max_line_length (text c ++ rest) ≡ text c ∷ fgets_all max_line_length rest
unfolding fgets_all fgets_from
fgets_text worker1_usr1 rest = refl
fgets_text worker1_usr2 rest = refl
fgets_text worker2_usr1 rest = refl
fgets_text worker2_usr2 rest = refl

fgets_file : (cs : List Command) → fgets_all max_line_length (file_of cs) ≡ map text cs
unfolding file_of fgets_all fgets_from
fgets_file [] = refl
fgets_file (c ∷ cs) = rw (fgets_text c (file_of cs), fgets_file cs)

module _ (pid1 pid2 : ℤ) where
  kill_of : Command → ℤ × Signal
  kill_of worker1_usr1 = (pid1, usr1)
  kill_of worker1_usr2 = (pid1, usr2)
  kill_of worker2_usr1 = (pid2, usr1)
  kill_of worker2_usr2 = (pid2, usr2)

  on_line-text : (c : Command) → on_line pid1 pid2 (text c) ≡ sent (kill_of c).0 (kill_of c).1
  unfolding on_line kill_of
  on_line-text worker1_usr1 = refl
  on_line-text worker1_usr2 = refl
  on_line-text worker2_usr1 = refl
  on_line-text worker2_usr2 = refl

  loop-text :
      (cs : List Command) (s : Sent)
      → loop pid1 pid2 (map text cs) s
        ≡ record { kills = s.kills ++ map kill_of cs; command_count = s.command_count + length cs }
  unfolding loop count_outcome
  loop-text [] s = ground (arith, append-nil s.kills)
  loop-text (c ∷ cs) s = ground (
    arith,
    on_line-text c,
    loop-text cs (count_outcome s (sent (kill_of c).0 (kill_of c).1)),
    append_assoc s.kills (kill_of c ∷ []) (map kill_of cs),
  )

  -- The calls of `kill` of a run
  all_kills : List Command → List (ℤ × Signal)
  all_kills cs = map kill_of cs ++ (pid1, term) ∷ (pid2, term) ∷ []

  module _ (self1 : eq_ℤ pid1 pid1 ≡ true) (self2 : eq_ℤ pid2 pid2 ≡ true)
      (other1 : eq_ℤ pid2 pid1 ≡ false) (other2 : eq_ℤ pid1 pid2 ≡ false) where
    worker1_lem :
        (cs : List Command) (log : List ℕ)
        → Worker.loop
            (delivered pid1 (all_kills cs))
            (record { keep_running = true; log = log; log_opens = true })
          ≡ (record { keep_running = false; log = log ++ log_of line1 cs; log_opens = true }, true)
    unfolding all_kills kill_of delivered Worker.loop log_of
    worker1_lem [] log = ground (arith, append-nil log)
    worker1_lem (worker1_usr1 ∷ cs) log = ground (
      arith,
      worker1_lem cs (log ++ line1 worker1_usr1),
      append_assoc log (line1 worker1_usr1) (log_of line1 cs),
    )
    worker1_lem (worker1_usr2 ∷ cs) log = ground (
      arith,
      worker1_lem cs (log ++ line1 worker1_usr2),
      append_assoc log (line1 worker1_usr2) (log_of line1 cs),
    )
    worker1_lem (worker2_usr1 ∷ cs) log = ground (arith, worker1_lem cs log)
    worker1_lem (worker2_usr2 ∷ cs) log = ground (arith, worker1_lem cs log)

    worker2_lem :
        (cs : List Command) (log : List ℕ)
        → Worker.loop
            (delivered pid2 (all_kills cs))
            (record { keep_running = true; log = log; log_opens = true })
          ≡ (record { keep_running = false; log = log ++ log_of line2 cs; log_opens = true }, true)
    unfolding all_kills kill_of delivered Worker.loop log_of
    worker2_lem [] log = ground (arith, append-nil log)
    worker2_lem (worker1_usr1 ∷ cs) log = ground (arith, worker2_lem cs log)
    worker2_lem (worker1_usr2 ∷ cs) log = ground (arith, worker2_lem cs log)
    worker2_lem (worker2_usr1 ∷ cs) log = ground (
      arith,
      worker2_lem cs (log ++ line2 worker2_usr1),
      append_assoc log (line2 worker2_usr1) (log_of line2 cs),
    )
    worker2_lem (worker2_usr2 ∷ cs) log = ground (
      arith,
      worker2_lem cs (log ++ line2 worker2_usr2),
      append_assoc log (line2 worker2_usr2) (log_of line2 cs),
    )

eq_ℤ_self : (a : ℤ) → eq_ℤ a a ≡ true
eq_ℤ_self a = ground arith

eq_ℤ_ne : (a b : ℤ) → a ≢ b → eq_ℤ a b ≡ false
eq_ℤ_ne a b ne = ground arith

-- Where the two arguments stand for two positive numbers that are not the same, and the file holds a
-- list of commands, `main` counts the commands, and the calls of `kill` lead each worker, whose
-- `pause` they reach one by one, to log the signals of its commands in their order and to end.
pub main-workers :
    (atoi : List ℕ → ℤ) (argv : List (List ℕ)) (cs : List Command)
    → length argv ≡ 3
    → pos 1 ≤ℤ atoi (get_or argv 1 [])
    → pos 1 ≤ℤ atoi (get_or argv 2 [])
    → atoi (get_or argv 1 []) ≢ atoi (get_or argv 2 [])
    → (out : Sent) × (main atoi argv (some (file_of cs)) ≡ some out)
      × (out.command_count ≡ length cs)
      × (Worker.loop (delivered (atoi (get_or argv 1 [])) out.kills) (started true)
          ≡ (record { keep_running = false; log = log_of line1 cs; log_opens = true }, true))
      × (Worker.loop (delivered (atoi (get_or argv 2 [])) out.kills) (started true)
          ≡ (record { keep_running = false; log = log_of line2 cs; log_opens = true }, true))
unfolding main all_kills
main-workers atoi argv cs three p1 p2 ne = (
  record { kills = all_kills pid1 pid2 cs; command_count = length cs },
  ground (arith, fgets_file cs, loop-text pid1 pid2 cs (record { kills = []; command_count = 0 })),
  refl,
  worker1_lem pid1 pid2 (eq_ℤ_self pid1) (eq_ℤ_self pid2) (eq_ℤ_ne pid2 pid1 (λ e. ne (sym e)))
      (eq_ℤ_ne pid1 pid2 ne) cs [],
  worker2_lem pid1 pid2 (eq_ℤ_self pid1) (eq_ℤ_self pid2) (eq_ℤ_ne pid2 pid1 (λ e. ne (sym e)))
      (eq_ℤ_ne pid1 pid2 ne) cs [],
)
  where
    pid1 : ℤ
    pid1 = atoi (get_or argv 1 [])

    pid2 : ℤ
    pid2 = atoi (get_or argv 2 [])
