-- ===== src/TicketOffice/Sales.antt =====
-- What the buyers and the office of Section3/H1 do to the hundred tickets.
use ciic.Common.{ℕ, ◌+◌, ◌≤◌, ◌<◌, ◌≡◌, ◌⊎◌, inl, inr, true, [], ◌∷◌, ◌++◌, arith, length, sum, All}
use ciic.TicketOffice.{
  deciding, exited, closed, tickets_at_start, System, buyer, office, Reach, start, later, init,
  buy_tickets,
}
use ciic.TicketOffice.Invariant.{
  logged, IsPurchase, buyer_holds, Inv, initialized-IsConsistent, logged-sell, IsReport,
}
use ciic.TicketOffice.Turns.{Turn-Inv, Watch-Inv}

Inv-init : Inv init
Inv-init = record {
  consistent = initialized-IsConsistent;
  buyers_own = λ i q. cc;
  office_owns = λ q. cc;
  office_alone = λ i q. cc;
  buyers_know = λ i. tt;
  office_knows = ground arith;
  reported = tt;
}

Reach-Inv : {s : System} → Reach s → Inv s
Reach-Inv start = Inv-init
Reach-Inv (later r (buyer i ne t)) = Turn-Inv (Reach-Inv r) i ne t
Reach-Inv (later r (office w)) = Watch-Inv (Reach-Inv r) w

-- In a reachable state the tickets of the written log entries and those that are left are a hundred,
-- each entry is from one to five, and no two buyers stand between lock and unlock.
pub sales_conserved :
    {s : System}
    → Reach s
    → (sum (logged s.memory) + s.memory.available_tickets ≡ tickets_at_start)
      × All IsPurchase (logged s.memory)
      × ((i j : ℕ) → buyer_holds (s.buyers i) ≡ true → buyer_holds (s.buyers j) ≡ true → i ≡ j)
sales_conserved {s} reach = (
  inv.consistent.conserved,
  inv.consistent.purchases,
  λ i j p q. ground (arith, inv.buyers_own i p, inv.buyers_own j q),
)
  where
    inv : Inv s
    inv = Reach-Inv reach

-- In a reachable state in which a buyer under the mutex can have its tickets, the entry that it
-- writes is inside the log, and the written entries are the old ones and this one.
pub sale_in_bounds :
    {s : System} {k : ℕ}
    → Reach s
    → (i : ℕ) → s.buyers i ≡ deciding k
    → k ≤ s.memory.available_tickets
    → (s.memory.transactions < length s.memory.purchases_log)
      × (logged (buy_tickets s.memory k).0 ≡ logged s.memory ++ k ∷ [])
unfolding buy_tickets
sale_in_bounds {s} {k} reach i at enough = (inside, ground (arith, logged-sell s.memory k inside))
  where
    inv : Inv s
    inv = Reach-Inv reach

    inside : s.memory.transactions < length s.memory.purchases_log
    inside = ground (arith, inv.consistent, inv.buyers_know i)

-- In a reachable state in which a buyer has exited or the office has closed, all hundred tickets
-- are in the log.
sold_out_at_end :
    {s : System}
    → Reach s
    → (s.office ≡ closed) ⊎ ((i : ℕ) × (s.buyers i ≡ exited))
    → (s.memory.available_tickets ≡ 0) × (sum (logged s.memory) ≡ tickets_at_start)
sold_out_at_end {s} reach (inl e) =
    ground (arith, (Reach-Inv reach).consistent, (Reach-Inv reach).office_knows)
sold_out_at_end {s} reach (inr (i, e)) =
    ground (arith, (Reach-Inv reach).consistent, (Reach-Inv reach).buyers_know i)

-- In a reachable state every report of the office shows no fewer tickets than are left, and tickets
-- and transactions that come to a hundred at most.
reports_bounded : {s : System} → Reach s → All (IsReport s.memory.available_tickets) s.reports
reports_bounded reach = (Reach-Inv reach).reported
