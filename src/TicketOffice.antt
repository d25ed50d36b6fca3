-- ===== src/TicketOffice.antt =====
-- Section3/H1: buyer threads (buyer/src/functions.c) and a ticket office
-- (ticket_office/src/functions.c and main.c) on one block of shared memory under one mutex, from
-- the moment when the office has initialized the block.
pub mod Invariant
mod Turns
pub mod Sales
mod Tests
use ciic.Common.{
  ℕ, ◌+◌, ◌-◌, ◌%◌, ◌≤◌, ◌≡◌, ◌≢◌, Bool, true, false, Option, none, some, List, [], ◌∷◌, ◌++◌,
  replicate, set, if◌then◌else◌, leb, ltb, ◌==◌,
}
use ciic.Common.Threads.{update}

abbrev pub tickets_at_start : ℕ
tickets_at_start = 100

-- `struct memory`, with the mutex as its owner (index 0 is the office, a buyer's is its id).
pub record Memory : Type 0 where
  pub available_tickets : ℕ
  pub purchases_log : List ℕ
  pub transactions : ℕ
  pub mutex : Option ℕ

-- `InitializeSharedMemory`
abbrev pub initialized : Memory
initialized = record {
  available_tickets = tickets_at_start;
  purchases_log = replicate 100 0;
  transactions = 0;
  mutex = none;
}

-- The body of the branch that sells. A write behind the log changes nothing here; `Sales` shows
-- that there is none.
pub sell : Memory → ℕ → Memory
sell m tickets_to_buy = record m {
  available_tickets = m.available_tickets - tickets_to_buy;
  purchases_log = set m.purchases_log m.transactions tickets_to_buy;
  transactions = m.transactions + 1;
}

-- `BuyTickets`, and the flag of the message it prints, all under the mutex.
pub buy_tickets : Memory → ℕ → Memory × Bool
unfolding sell
buy_tickets m tickets_to_buy =
    if leb tickets_to_buy m.available_tickets then (sell m tickets_to_buy, true) else (m, false)

-- `(rand() % 5) + 1`
abbrev pub drawn : ℕ → ℕ
drawn random = random % 5 + 1

-- Where `BuyerThread` stands: before the draw, before the lock, under it, and behind the loop.
pub data Buyer : Type 0 where
  drawing : Buyer
  locking : ℕ → Buyer
  deciding : ℕ → Buyer
  unlocking : Buyer
  leaving : Buyer
  exited : Buyer

-- The office's loop, with `sold_out_count`: asleep, before the two critical sections (its own and
-- the one of `PrintTicketReport`), under them, and behind the loop.
pub data Office : Type 0 where
  asleep : ℕ → Office
  checking : ℕ → Office
  checked : ℕ → ℕ → Office
  reporting : ℕ → Office
  reading : ℕ → Office
  read : ℕ → ℕ → ℕ → Office
  closed : Office

-- What `main` does with the number of tickets that it has read: the next count, and whether the
-- loop goes on.
pub next_count : ℕ → ℕ → ℕ × Bool
next_count sold_out_count tickets_available =
    if tickets_available == 0 then (sold_out_count + 1, ltb (sold_out_count + 1) 5) else (0, true)

-- A report of the log file: its tickets and its transactions.
abbrev pub Report : Type 0
Report = ℕ × ℕ

pub record System : Type 0 where
  pub memory : Memory
  pub buyers : ℕ → Buyer
  pub office : Office
  pub reports : List Report

abbrev pub lock : Memory → ℕ → Memory
lock m owner = record m { mutex = some owner }

abbrev pub unlock : Memory → Memory
unlock m = record m { mutex = none }

-- One step of buyer `i`.
pub data Turn (i : ℕ) (m : Memory) : Buyer → Memory → Buyer → Type 0 where
  draw : (random : ℕ) → Turn i m drawing m (locking (drawn random))
  enter : {k : ℕ} → m.mutex ≡ none → Turn i m (locking k) (lock m i) (deciding k)
  sold_out : {k : ℕ} → m.available_tickets ≡ 0 → Turn i m (deciding k) m leaving
  try : {k : ℕ} → m.available_tickets ≢ 0 → Turn i m (deciding k) (buy_tickets m k).0 unlocking
  leave : Turn i m unlocking (unlock m) drawing
  leave_last : Turn i m leaving (unlock m) exited

-- One step of the office, with the reports that are written.
pub data Watch (m : Memory) (rs : List Report)
    : Office → Memory → List Report → Office → Type 0 where
  wake : {c : ℕ} → Watch m rs (asleep c) m rs (checking c)
  look :
      {c : ℕ}
      → m.mutex ≡ none
      → Watch m rs (checking c) (lock m 0) rs (checked c m.available_tickets)
  go_on :
      {c tickets : ℕ}
      → (next_count c tickets).1 ≡ true
      → Watch m rs (checked c tickets) (unlock m) rs (reporting (next_count c tickets).0)
  close :
      {c tickets : ℕ}
      → (next_count c tickets).1 ≡ false
      → Watch m rs (checked c tickets) (unlock m) rs closed
  look_again : {c : ℕ} → m.mutex ≡ none → Watch m rs (reporting c) (lock m 0) rs (reading c)
  read_both :
      {c : ℕ} → Watch m rs (reading c) (unlock m) rs (read c m.available_tickets m.transactions)
  print :
      {c tickets transactions : ℕ}
      → Watch m rs (read c tickets transactions) m (rs ++ (tickets, transactions) ∷ []) (asleep c)

pub data Step (s : System) : System → Type 0 where
  buyer :
      (i : ℕ) {m : Memory} {b : Buyer}
      → i ≢ 0
      → Turn i s.memory (s.buyers i) m b
      → Step s (record s { memory = m; buyers = update s.buyers i b })
  office :
      {m : Memory} {o : Office} {rs : List Report}
      → Watch s.memory s.reports s.office m rs o
      → Step s (record s { memory = m; office = o; reports = rs })

abbrev pub init : System
init = record { memory = initialized; buyers = λ _. drawing; office = asleep 0; reports = [] }

pub data Reach : System → Type 0 where
  start : Reach init
  later : {s t : System} → Reach s → Step s t → Reach t
