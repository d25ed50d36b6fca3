-- ===== src/Vruntime/Monitor.antt =====
-- main.c of the third directory below Bono/: a monitor that shows the virtual run times of up to 128
-- processes until q is pressed.
use ciic.Common.{
  ℕ, zero, suc, ◌+◌, ◌-◌, Bool, true, false, ◌||◌, Option, none, some, List, [], ◌∷◌, length, set,
  get_or, replicate, drop, ◌==◌, ltb, if◌then◌else◌,
}
use ciic.Common.Int.{ℤ, pos}
use ciic.Common.Text.{fgets_all}
use ciic.Vruntime.{Doubles, buffer_size}

abbrev pub max_pids : ℕ
max_pids = 128

-- The `while` of `read_vruntime` up to its fourth line, `line_no` lines in.
unfoldable pub find_line : ℕ → List (List ℕ) → Option (List ℕ)
find_line line_no [] = none
find_line line_no (line ∷ lines) =
    let rest = find_line (line_no + 1) lines in if line_no + 1 == 4 then some line else rest

-- `strchr(line, ':')`, and the text behind it
unfoldable pub after_colon : List ℕ → Option (List ℕ)
after_colon [] = none
after_colon (c ∷ cs) = if c == b':' then some cs else after_colon cs

-- The pids are stored in an array of 128; `strtol` with the conversion to `pid_t` is a parameter.
unfoldable pub fill_pids : (List ℕ → ℤ) → ℕ → List (List ℕ) → List ℤ → List ℤ
fill_pids to_pid i [] pids = pids
fill_pids to_pid i (arg ∷ args) pids = fill_pids to_pid (i + 1) args (set pids i (to_pid arg))

abbrev pub is_quit : ℕ → Bool
is_quit ch = ch == b'q' || ch == b'Q'

module _ (d : Doubles) where
  unfoldable pub on_colon : Option (List ℕ) → Option d.Double
  on_colon none = none
  on_colon (some text) = d.scan_double text

  unfoldable pub on_fourth : Option (List ℕ) → Option d.Double
  unfolding on_colon after_colon
  on_fourth none = none
  on_fourth (some line) = on_colon (after_colon line)

  -- `read_vruntime`, on the file if it opens; `none` is false.
  unfoldable pub read_vruntime : Option (List ℕ) → Option d.Double
  unfolding on_fourth find_line
  read_vruntime none = none
  read_vruntime (some file) = on_fourth (find_line 0 (fgets_all buffer_size file))

  -- A line of the screen: the pid, and the value if it could be read.
  abbrev pub Shown : Type 0
  Shown = ℤ × Option d.Double

  -- The `for` over the pids from `i` on, with the rounds that are left.
  unfoldable pub screen_from : (ℤ → Option (List ℕ)) → List ℤ → ℕ → ℕ → List Shown
  unfolding read_vruntime
  screen_from sched pids i zero = []
  screen_from sched pids i (suc left) =
      (get_or pids i (pos 0), read_vruntime (sched (get_or pids i (pos 0))))
      ∷ screen_from sched pids (i + 1) left

  -- The `while`: for each round the byte that `getch` gives, if it gives one, and the files; the screens
  -- that are shown, and whether q ends the program.
  unfoldable pub loop :
      List ℤ → ℕ → List (Option ℕ × (ℤ → Option (List ℕ))) → List (List Shown) × Bool
  unfolding screen_from
  loop pids n_pids [] = ([], false)
  loop pids n_pids ((ch, sched) ∷ rounds) =
      let (screens, ends) = loop pids n_pids rounds in
      let screen = screen_from sched pids 0 n_pids in
      elim ch [
        | none ↦ (screen ∷ screens, ends)
        | some c ↦ if is_quit c then (screen ∷ [], true) else (screen ∷ screens, ends)
      ]

  -- `main` on its arguments; `none` is the exit with 1.
  unfoldable pub main :
      (List ℕ → ℤ)
      → List (List ℕ)
      → List (Option ℕ × (ℤ → Option (List ℕ)))
      → Option (List (List Shown) × Bool)
  unfolding loop fill_pids
  main to_pid argv rounds =
      if ltb (length argv) 2
      then none
      else if ltb max_pids (length argv - 1)
      then none
      else some (
          loop (fill_pids to_pid 0 (drop 1 argv) (replicate max_pids (pos 0))) (length argv - 1)
            rounds)
