-- ===== src/Decoder/Tests.antt =====
-- Runs of PP2/decode_c/src/main.c on a picture of two pixels, and the theorems at them.
use ciic.Common.{
  ℕ, ◌<◌, ◌≡◌, ◌⊎◌, refl, true, false, Option, none, some, List, [], ◌∷◌, ◌++◌, arith, length, map,
  dec_lt, ℕ_discrete,
}
use mathlib.Core.List.{foldl}
use ciic.Common.Text.{codes}
use ciic.Decoder.{
  total_pixels, Pixel, tests, decrypt, decrypt_byte, ppm_header, Disk, Place, opening, reading,
  locking, counting, counted, interrupted, ended, failed, Thread, open_files, decode_pixel, Turn,
  open_all, read, lock, count, unlock, interrupt, System, turn, Reach, start, later,
}
use ciic.Decoder.Threads.{flat, txt_lines}
use ciic.Decoder.Refine.{Work, Works, Sim, Reach-Sim}
use ciic.Decoder.Outputs.{ended-outputs}
use ciic.Decoder.Deadlock.{Frozen, Steps, stay, then, Steps-Frozen}

-- Two pixels and a byte that is left over; the text file of thread 3 does not open.
abbrev disk : Disk
disk = record {
  encrypt = some (0 ∷ 88 ∷ 255 ∷ 1 ∷ 2 ∷ 3 ∷ 7 ∷ []);
  ppm_opens = λ id. true;
  txt_opens = λ id. elim (dec_lt id 3) [ yes lt ↦ true | no ge ↦ false ];
}

record Trace : Type 0 where
  state : System
  reach : Reach disk state

turn_of :
    (id : ℕ) (m : Option ℕ) (n : ℕ) (p : Place) (i : ℕ) (rest : List ℕ) (ppm txt : Option (List ℕ))
    → Option (
        (m' : Option ℕ) × (n' : ℕ) × (th' : Thread) × Turn disk id m n
          (record { place = p; i = i; rest = rest; ppm = ppm; txt = txt })
          m'
          n'
          th')
turn_of id m n opening i rest ppm txt = some (_, _, _, open_all refl)
turn_of id m n reading i rest ppm txt = some (_, _, _, read refl)
turn_of id none n locking i rest ppm txt = some (_, _, _, lock refl refl)
turn_of id (some holder) n locking i rest ppm txt = none
turn_of id m n counting i rest ppm txt = some (_, _, _, count refl)
turn_of id m n counted i rest ppm txt = some (_, _, _, unlock refl)
turn_of id m n interrupted i rest ppm txt = none
turn_of id m n ended i rest ppm txt = none
turn_of id m n failed i rest ppm txt = none

-- Thread `id` takes a step.
happen : Trace → ℕ → Trace
unfolding turn_of
happen tr id = elim (dec_lt id 4) [
  | no unknown ↦ tr
  | yes known ↦
      let th = tr.state.threads id in
      elim (turn_of id tr.state.mutex (tr.state.progress id) th.place th.i th.rest th.ppm th.txt) [
        | none ↦ tr
        | some (m, n, th', t) ↦ record { state = _; reach = later tr.reach (turn id known t) }
      ]
]

run : List ℕ → Trace
unfolding happen dec_lt ℕ_discrete
run = foldl happen (record { state = _; reach = start })

-- Threads 0 and 2 by turns to their ends, and thread 3 to its failed `open`.
abbrev both : Trace
both = run (3 ∷ 0 ∷ 2 ∷ 0 ∷ 0 ∷ 2 ∷ 0 ∷ 0 ∷ 2 ∷ 2 ∷ 2 ∷ 0 ∷ 0 ∷ 0 ∷ 0 ∷ 0 ∷ 2 ∷ 2 ∷ 2 ∷ 2 ∷ 2 ∷ [])

both_places :
    ((both.state.threads 0).place ≡ ended)
    × ((both.state.threads 2).place ≡ ended)
    × ((both.state.threads 3).place ≡ failed)
unfolding run open_files decode_pixel
both_places = (refl, refl, refl)

both_texts :
    ((both.state.threads 0).txt ≡ some (codes "88 0 167\n89 90 91\n"))
    × ((both.state.threads 2).txt ≡ some (codes "5 93 250\n4 7 6\n"))
unfolding run open_files decode_pixel decrypt_byte
both_texts = (refl, refl)

-- Thread 1 holds the mutex when SIGALRM comes to it.
stuck : Trace
unfolding run open_files decode_pixel
stuck = record {
  state = _;
  reach = later (run (1 ∷ 1 ∷ 1 ∷ [])).reach (turn 1 (omega arith) (interrupt refl));
}

-- Thread 0 goes on behind it.
after : (t : System) × Steps disk stuck.state t
unfolding stuck run open_files decode_pixel
after = (_, then stay (turn 0 (omega arith) (open_all refl)))

stuck_place : (stuck.state.threads 1).place ≡ interrupted
unfolding stuck
stuck_place = refl

Reach-Sim_example : (w : Work) × Works disk w × Sim disk both.state w
Reach-Sim_example = Reach-Sim both.reach

ended-outputs_example :
    (ps : List Pixel) × (rest : List ℕ) × (disk.encrypt ≡ some (flat ps ++ rest))
    × ((length rest < 3) ⊎ (length ps ≡ total_pixels))
    × ((both.state.threads 2).ppm ≡ some (ppm_header ++ flat (map (decrypt (tests 2)) ps)))
    × ((both.state.threads 2).txt ≡ some (txt_lines (map (decrypt (tests 2)) ps)))
    × (both.state.progress 2 ≡ length ps)
ended-outputs_example = ended-outputs 2 both.reach both_places.1

Steps-Frozen_example : Frozen stuck.state 1 after.0
Steps-Frozen_example = Steps-Frozen 1 stuck.reach stuck_place after.1
