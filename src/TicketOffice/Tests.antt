-- ===== src/TicketOffice/Tests.antt =====
-- Schedules of the buyers and the office of Section3/H1, and the theorems at states they reach.
use ciic.Common.{
  ℕ, suc, ◌+◌, ◌<◌, ◌≡◌, inl, inr, refl, true, Option, none, some, List, [], ◌∷◌, ◌++◌, arith,
  length, sum, All, Option-cases, Bool-cases, ℕ_discrete, replicate,
}
use mathlib.Core.List.{foldl}
use ciic.TicketOffice.{
  Memory, Buyer, drawing, locking, deciding, unlocking, leaving, exited, Turn, draw, enter,
  sold_out, try, leave, leave_last, wake, look, go_on, close, look_again, read_both, print, Office,
  asleep, checking, checked, reporting, reading, read, closed, next_count, Watch, tickets_at_start,
  System, buyer, office, Reach, start, later, buy_tickets, sell, Report,
}
use ciic.TicketOffice.Invariant.{logged, IsPurchase, buyer_holds}
use ciic.TicketOffice.Sales.{sales_conserved, sale_in_bounds}

record Trace : Type 0 where
  state : System
  reach : Reach state

-- Buyer `i + 1` moves, where `random` is what `rand()` returns; or the office moves.
data Event : Type 0 where
  buyer_moves : ℕ → ℕ → Event
  office_moves : Event

turn_of :
    (i random : ℕ) (m : Memory) (b : Buyer)
    → Option ((m' : Memory) × (b' : Buyer) × Turn i m b m' b')
unfolding ℕ_discrete Option-cases
turn_of i random m drawing = some (_, _, draw random)
turn_of i random m (locking k) = elim (Option-cases m.mutex) [
  | inl free ↦ some (_, _, enter free)
  | inr taken ↦ none
]
turn_of i random m (deciding k) = elim (ℕ_discrete m.available_tickets 0) [
  | yes e ↦ some (_, _, sold_out e)
  | no ne ↦ some (_, _, try ne)
]
turn_of i random m unlocking = some (_, _, leave)
turn_of i random m leaving = some (_, _, leave_last)
turn_of i random m exited = none

watch_of :
    (m : Memory) (rs : List Report) (o : Office)
    → Option ((m' : Memory) × (rs' : List Report) × (o' : Office) × Watch m rs o m' rs' o')
unfolding Option-cases Bool-cases next_count
watch_of m rs (asleep c) = some (_, _, _, wake)
watch_of m rs (checking c) = elim (Option-cases m.mutex) [
  | inl free ↦ some (_, _, _, look free)
  | inr taken ↦ none
]
watch_of m rs (checked c t) = elim (Bool-cases (next_count c t).1) [
  | inl on ↦ some (_, _, _, go_on on)
  | inr off ↦ some (_, _, _, close off)
]
watch_of m rs (reporting c) = elim (Option-cases m.mutex) [
  | inl free ↦ some (_, _, _, look_again free)
  | inr taken ↦ none
]
watch_of m rs (reading c) = some (_, _, _, read_both)
watch_of m rs (read c t n) = some (_, _, _, print)
watch_of m rs closed = none

happen : Trace → Event → Trace
unfolding turn_of watch_of
happen tr (buyer_moves i random) =
    elim (turn_of (suc i) random tr.state.memory (tr.state.buyers (suc i))) [
      | none ↦ tr
      | some (m, b, t) ↦ record { state = _; reach = later tr.reach (buyer (suc i) (λ e. cc) t) }
    ]
happen tr office_moves = elim (watch_of tr.state.memory tr.state.reports tr.state.office) [
  | none ↦ tr
  | some (m, rs, o, w) ↦ record { state = _; reach = later tr.reach (office w) }
]

run : List Event → Trace
unfolding happen buy_tickets sell
run = foldl happen (record { state = _; reach = start })

-- Buyer 1 buys three tickets and is about to buy two more, while the office has made a report.
abbrev early : Trace
early =
    run
      (replicate 4 (buyer_moves 0 2) ++ (replicate 6 office_moves ++ replicate 2 (buyer_moves 0 1)))

-- Buyer 1 always draws five, and exits.
abbrev ended : Trace
ended = run (replicate 84 (buyer_moves 0 4) ++ replicate 27 office_moves)

early_state :
    (early.state.memory.available_tickets ≡ 97)
    × (early.state.reports ≡ (97, 1) ∷ [])
    × (early.state.buyers 1 ≡ deciding 2)
unfolding run
early_state = (refl, refl, refl)

-- The office writes four reports of no tickets before it closes.
ended_state :
    (ended.state.office ≡ closed)
    × (ended.state.reports ≡ (0, 20) ∷ (0, 20) ∷ (0, 20) ∷ (0, 20) ∷ [])
    × (ended.state.buyers 1 ≡ exited)
unfolding run
ended_state = (refl, refl, refl)

sales_conserved_example :
    (sum (logged early.state.memory) + early.state.memory.available_tickets ≡ tickets_at_start)
    × All IsPurchase (logged early.state.memory)
    × ((i j : ℕ)
        → buyer_holds (early.state.buyers i) ≡ true
        → buyer_holds (early.state.buyers j) ≡ true
        → i ≡ j)
sales_conserved_example = sales_conserved early.reach

sale_in_bounds_example :
    (early.state.memory.transactions < length early.state.memory.purchases_log)
    × (logged (buy_tickets early.state.memory 2).0 ≡ logged early.state.memory ++ 2 ∷ [])
unfolding run
sale_in_bounds_example = sale_in_bounds early.reach 1 refl (omega arith)
