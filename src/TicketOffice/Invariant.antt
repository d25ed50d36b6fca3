-- ===== src/TicketOffice/Invariant.antt =====
-- What holds of the shared memory of Section3/H1 whenever the mutex may be taken or is held.
use ciic.Common.{
  ℕ, ◌+◌, ◌≤◌, ◌<◌, ◌≡◌, ◌≢◌, Bool, true, false, some, List, [], ◌∷◌, ◌++◌, arith, length, take,
  sum, sum-append, take-set, length-set, Bool-cases, leb, inl, inr, ◌∙◌, ap, All, All-append,
}
use native.Mathlib.Numerals.{add-one}
use ciic.TicketOffice.{
  Memory, Buyer, locking, deciding, unlocking, leaving, exited, Office, asleep, checking, checked,
  reporting, reading, read, closed, Report, sell, buy_tickets, tickets_at_start, initialized,
  System,
}

-- The entries of the log that have been written.
abbrev pub logged : Memory → List ℕ
logged m = take m.transactions m.purchases_log

abbrev pub IsPurchase : ℕ → Type 0
IsPurchase k = (1 ≤ k) × (k ≤ 5)

-- The tickets that are left and those of the log make up the hundred, and the log has room.
pub record IsConsistent (m : Memory) : Type 0 where
  pub size : length m.purchases_log ≡ 100
  pub conserved : sum (logged m) + m.available_tickets ≡ tickets_at_start
  pub room : m.transactions + m.available_tickets ≤ tickets_at_start
  pub purchases : All IsPurchase (logged m)

pub logged-sell :
    (m : Memory) (k : ℕ)
    → m.transactions < length m.purchases_log
    → logged (sell m k) ≡ logged m ++ k ∷ []
unfolding sell
logged-sell m k h = rw add-one (take-set m.purchases_log m.transactions k h)

sell-IsConsistent :
    (m : Memory) (k : ℕ)
    → IsPurchase k
    → k ≤ m.available_tickets
    → IsConsistent m
    → IsConsistent (sell m k)
unfolding sell
sell-IsConsistent m k p enough c =
    let e = logged-sell m k (omega arith) in
    record {
      size = length-set m.purchases_log m.transactions k ∙ c.size;
      conserved = omega (arith, ap sum e, sum-append (logged m) (k ∷ []));
      room = omega arith;
      purchases = rw e (All-append IsPurchase (logged m) (k ∷ []) c.purchases (p, tt));
    }

-- `BuyTickets` with a request of one to five tickets keeps the memory consistent.
pub buy_tickets-IsConsistent :
    {m : Memory} {k : ℕ} → IsPurchase k → IsConsistent m → IsConsistent (buy_tickets m k).0
unfolding buy_tickets
buy_tickets-IsConsistent {m} {k} p c = elim (Bool-cases (leb k m.available_tickets)) [
  | inl enough ↦ rw enough (sell-IsConsistent m k p (ground arith) c)
  | inr short ↦ rw short c
]

pub initialized-IsConsistent : IsConsistent initialized
initialized-IsConsistent = omega arith

-- Between the lock and the unlock of the mutex.
abbrev pub buyer_holds : Buyer → Bool
buyer_holds (deciding k) = true
buyer_holds unlocking = true
buyer_holds leaving = true
buyer_holds _ = false

abbrev pub office_holds : Office → Bool
office_holds (checked c t) = true
office_holds (reading c) = true
office_holds _ = false

-- What a buyer's place says of the memory.
abbrev pub BuyerLocal : Memory → Buyer → Type 0
BuyerLocal m (locking k) = IsPurchase k
BuyerLocal m (deciding k) = IsPurchase k
BuyerLocal m leaving = m.available_tickets ≡ 0
BuyerLocal m exited = m.available_tickets ≡ 0
BuyerLocal m _ = Unit

-- `sold_out_count` is not 0 only if all is sold.
abbrev pub IsCount : Memory → ℕ → Type 0
IsCount m c = (c ≤ 4) × (c ≢ 0 → m.available_tickets ≡ 0)

abbrev pub OfficeLocal : Memory → Office → Type 0
OfficeLocal m (asleep c) = IsCount m c
OfficeLocal m (checking c) = IsCount m c
OfficeLocal m (checked c t) = IsCount m c × (t ≡ m.available_tickets)
OfficeLocal m (reporting c) = IsCount m c
OfficeLocal m (reading c) = IsCount m c
OfficeLocal m (read c t n) = IsCount m c × (m.available_tickets ≤ t) × (n + t ≤ tickets_at_start)
OfficeLocal m closed = m.available_tickets ≡ 0

-- A report counts no fewer tickets than are left now.
abbrev pub IsReport : ℕ → Report → Type 0
IsReport available (t, n) = (available ≤ t) × (n + t ≤ tickets_at_start)

pub record Inv (s : System) : Type 0 where
  pub consistent : IsConsistent s.memory
  pub buyers_own : (i : ℕ) → buyer_holds (s.buyers i) ≡ true → s.memory.mutex ≡ some i
  pub office_owns : office_holds s.office ≡ true → s.memory.mutex ≡ some 0
  pub office_alone : (i : ℕ) → buyer_holds (s.buyers i) ≡ true → i ≢ 0
  pub buyers_know : (i : ℕ) → BuyerLocal s.memory (s.buyers i)
  pub office_knows : OfficeLocal s.memory s.office
  pub reported : All (IsReport s.memory.available_tickets) s.reports
