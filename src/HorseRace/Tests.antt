-- ===== src/HorseRace/Tests.antt =====
-- Races of Section3/L1/src/main.c, and the theorems at states of them.
use ciic.Common.{
  zero, suc, ◌+◌, ◌≢◌, false, subst, sym, ◌∙◌, ℕ, ◌<◌, ◌≡◌, refl, Option, none, some, List, [], ◌∷◌,
  ◌++◌, arith, get_elem?, replicate, dec_lt, ℕ_discrete,
}
use mathlib.Core.List.{foldl}
use ciic.HorseRace.{
  num_horses, track_length, Board, Place, testing, comparing, reading, writing, loading, storing,
  returned, Horse, advance, Turn, move, skip, go_on, arrive, read, write, load, store, System, turn,
  Reach, start, later, init,
}
use ciic.Common.Threads.{update, update_ne}
use ciic.HorseRace.Results.{
  final_results, Orderly, orderly_start, orderly_later, Alone, entering, all_placed,
}

record Trace : Type 0 where
  state : System
  reach : Reach state

turn_of :
    (id random : ℕ) (b : Board) (track : ℕ) (p : Place)
    → Option ((b' : Board) × (h' : Horse) × Turn id b (record { track = track; place = p }) b' h')
unfolding dec_lt
turn_of id random b track testing = elim (dec_lt track track_length) [
  | yes lt ↦ some (_, _, move random refl lt)
  | no ge ↦ some (_, _, skip refl (omega arith))
]
turn_of id random b track comparing = elim (dec_lt track track_length) [
  | yes lt ↦ some (_, _, go_on refl lt)
  | no ge ↦ some (_, _, arrive refl (omega arith))
]
turn_of id random b track reading = some (_, _, read refl)
turn_of id random b track (writing count) = some (_, _, write refl)
turn_of id random b track loading = some (_, _, load refl)
turn_of id random b track (storing count) = some (_, _, store refl)
turn_of id random b track returned = none

-- Horse `id` takes a turn; each move is of three fields.
happen : Trace → ℕ → Trace
unfolding turn_of
happen tr id = elim (dec_lt id num_horses) [
  | no unknown ↦ tr
  | yes known ↦
      elim (turn_of id 3 tr.state.board (tr.state.horses id).track (tr.state.horses id).place) [
        | none ↦ tr
        | some (b, h, t) ↦ record { state = _; reach = later tr.reach (turn id known t) }
      ]
]

run : List ℕ → Trace
unfolding happen advance ℕ_discrete
run = foldl happen (record { state = _; reach = start })

-- Horses 2 and 4 have both read the count 0.
abbrev tie : Trace
tie = run (replicate 35 2 ++ replicate 35 4)

tie_state : ((tie.state.horses 2).place ≡ writing 0) × ((tie.state.horses 4).place ≡ writing 0)
unfolding run
tie_state = (refl, refl)

-- Both enter themselves, and the first of the two entries is lost.
lost_entry :
    (run (replicate 35 2 ++ (replicate 35 4 ++ (2 ∷ 4 ∷ 2 ∷ 2 ∷ 4 ∷ 4 ∷ [])))).state.board
    ≡ record { finish_order = 4 ∷ 0 ∷ 0 ∷ 0 ∷ 0 ∷ []; finish_count = 2 }
unfolding run
lost_entry = refl

-- A run in which no horse but one enters itself
record Solo (id : ℕ) : Type 0 where
  state : System
  run : Orderly state
  others : (j : ℕ) → j ≢ id → entering (state.horses j).place ≡ false

Solo-Alone :
    (id : ℕ) (s : System) → ((j : ℕ) → j ≢ id → entering (s.horses j).place ≡ false) → Alone s
Solo-Alone id s others i j p q = elim (ℕ_discrete i id) [
  | no other ↦ absurd (ground (arith, p, others i other))
  | yes same ↦ elim (ℕ_discrete j id) [
    | no other ↦ absurd (ground (arith, q, others j other))
    | yes alike ↦ same ∙ sym alike
  ]
]

-- Horse 3 takes a turn alone.
ride : Solo 3 → Solo 3
unfolding turn_of
ride solo =
    elim (turn_of 3 3 solo.state.board (solo.state.horses 3).track (solo.state.horses 3).place) [
      | none ↦ solo
      | some (b, h, t) ↦
          let next : System = record { board = b; horses = update solo.state.horses 3 h } in
          let others : (j : ℕ) → j ≢ 3 → entering (next.horses j).place ≡ false = λ j other.
            subst (λ k. entering k.place ≡ false) (sym (update_ne solo.state.horses 3 h j other))
              (solo.others j other) in
          record {
            state = next;
            run = orderly_later solo.run (turn 3 (omega arith) t) (Solo-Alone 3 next others);
            others = others;
          }
    ]

rides : ℕ → Solo 3
unfolding ride advance ℕ_discrete
rides zero = record { state = init; run = orderly_start; others = λ j other. refl }
rides (suc n) = ride (rides n)

abbrev arrived : Solo 3
arrived = rides 56

all_placed_example :
    (p : ℕ) × (p < num_horses) × (get_elem? (final_results arrived.state.board) p ≡ some (p + 1, 3))
unfolding rides
all_placed_example = all_placed arrived.run 3 refl

results : final_results arrived.state.board ≡ (1, 3) ∷ (2, 0) ∷ (3, 0) ∷ (4, 0) ∷ (5, 0) ∷ []
unfolding rides final_results
results = refl
