-- ===== src/Vruntime/Screens.antt =====
-- What the monitor below Bono/ shows for its arguments and for the keys that are pressed.
use ciic.Common.{
  ℕ, ◌+◌, ◌≤◌, ◌<◌, ◌≡◌, refl, Bool, false, ◌&&◌, ◌||◌, Option, none, some, List, [], ◌∷◌, arith,
  length, map, set, get_or, get_or-set_self, get_or-set_ne, length-set, length-replicate, replicate,
  leb, ap, ap₂, ◌∙◌, dec_lt, if◌then◌else◌,
}
use ciic.Common.Int.{ℤ, pos}
use ciic.Vruntime.{Doubles}
use ciic.Vruntime.Monitor.{
  max_pids, fill_pids, is_quit, read_vruntime, Shown, screen_from, loop, main,
}

abbrev is_last : Option ℕ → Bool
is_last none = false
is_last (some c) = is_quit c

module _ {Files : Type 0} where
  -- The rounds up to the first in which q is pressed, and whether there is one.
  unfoldable pub until_quit : List (Option ℕ × Files) → List (Option ℕ × Files)
  until_quit [] = []
  until_quit ((ch, files) ∷ rounds) =
      let rest = until_quit rounds in if is_last ch then (ch, files) ∷ [] else (ch, files) ∷ rest

  unfoldable pub has_quit : List (Option ℕ × Files) → Bool
  has_quit [] = false
  has_quit ((ch, files) ∷ rounds) = is_last ch || has_quit rounds

module _ (d : Doubles) (to_pid : List ℕ → ℤ) where
  -- The screen that is meant
  abbrev pub screen : List (List ℕ) → (ℤ → Option (List ℕ)) → List (Shown d)
  screen args sched = map (λ arg. (to_pid arg, read_vruntime d (sched (to_pid arg)))) args

  fill_pids-before :
      (i : ℕ) (args : List (List ℕ)) (pids : List ℤ) (j : ℕ)
      → j < i
      → get_or (fill_pids to_pid i args pids) j (pos 0) ≡ get_or pids j (pos 0)
  unfolding fill_pids
  fill_pids-before i [] pids j lt = refl
  fill_pids-before i (arg ∷ args) pids j lt = ground (
    arith,
    fill_pids-before (i + 1) args (set pids i (to_pid arg)) j,
    get_or-set_ne pids i j (to_pid arg) (pos 0),
  )

  screen_from-fill_pids :
      (sched : ℤ → Option (List ℕ)) (i : ℕ) (args : List (List ℕ)) (pids : List ℤ)
      → i + length args ≤ length pids
      → screen_from d sched (fill_pids to_pid i args pids) i (length args) ≡ screen args sched
  unfolding fill_pids screen_from
  screen_from-fill_pids sched i [] pids fits = refl
  screen_from-fill_pids sched i (arg ∷ args) pids fits =
      let stored =
        fill_pids-before (i + 1) args (set pids i (to_pid arg)) i (omega arith)
        ∙ get_or-set_self pids i (to_pid arg) (pos 0) (omega arith) in
      ap₂ ◌∷◌ (ap (λ pid. (pid, read_vruntime d (sched pid))) stored) (
        screen_from-fill_pids sched (i + 1) args (set pids i (to_pid arg))
          (omega (arith, length-set pids i (to_pid arg))))

  loop-until_quit :
      (args : List (List ℕ)) (pids : List ℤ) (rounds : List (Option ℕ × (ℤ → Option (List ℕ))))
      → ((sched : ℤ → Option (List ℕ))
          → screen_from d sched pids 0 (length args) ≡ screen args sched)
      → loop d pids (length args) rounds
        ≡ (map (λ r. screen args r.1) (until_quit rounds), has_quit rounds)
  unfolding loop until_quit has_quit
  loop-until_quit args pids [] h = refl
  loop-until_quit args pids ((none, sched) ∷ rounds) h =
      ground (arith, h sched, loop-until_quit args pids rounds h)
  loop-until_quit args pids ((some c, sched) ∷ rounds) h =
      ground (arith, h sched, loop-until_quit args pids rounds h)

  -- With one argument to 128, `main` shows a screen in every round up to the one in which q or Q is
  -- pressed, and in no later one; a screen has one line for each argument, in their order, with its pid
  -- and what its file holds in that round. With no argument or more than 128 it exits with 1.
  main-until_quit :
      (program : List ℕ) (args : List (List ℕ)) (rounds : List (Option ℕ × (ℤ → Option (List ℕ))))
      → main d to_pid (program ∷ args) rounds ≡ (
          if leb 1 (length args) && leb (length args) max_pids
          then some (map (λ r. screen args r.1) (until_quit rounds), has_quit rounds)
          else none)
  unfolding main
  main-until_quit program args rounds = elim (dec_lt max_pids (length args)) [
    | yes many ↦ ground arith
    | no few ↦
        let empty : List ℤ = replicate max_pids (pos 0) in
        ground (
          arith,
          loop-until_quit args (fill_pids to_pid 0 args empty) rounds λ sched.
              screen_from-fill_pids sched 0 args empty
                (omega (arith, length-replicate max_pids (pos 0))),
        )
  ]
