-- ===== src/TicketCounter.antt =====
-- Section2/homeworks/H2: buyers (buyer/src/functions.c and main.c) that answer to a ticket office
-- (ticket_office/src/main.c) through a block of shared memory.
pub mod Session
mod Tests
use ciic.Common.{ℕ, ◌+◌, Bool, true, false, List, [], ◌∷◌, if◌then◌else◌}
use ciic.Common.Int.{ℤ, pos, ◌+ℤ◌, ◌-ℤ◌, ltb_ℤ, leb_ℤ}

-- `struct memory`
pub record Memory : Type 0 where
  pub available_tickets : ℤ
  pub purchased_tickets : ℤ
  pub transactions : ℤ

-- What `main` of the ticket office stores.
abbrev pub initialized : Memory
initialized = record { available_tickets = pos 20; purchased_tickets = pos 0; transactions = pos 0 }

-- The tickets of a request: five at most, and no more than there are.
pub tickets_to_buy : ℤ → ℤ → ℤ
tickets_to_buy available requested =
    let few = if ltb_ℤ (pos 5) requested then pos 5 else requested in
    if ltb_ℤ available few then available else few

-- `BuyTickets`, and what it returns.
pub buy_tickets : Memory → ℤ → Memory × ℤ
unfolding tickets_to_buy ◌+ℤ◌ ◌-ℤ◌
buy_tickets m requested =
    if leb_ℤ requested (pos 0)
    then (m, pos 0)
    else (let bought = tickets_to_buy m.available_tickets requested in
        (
          record {
            available_tickets = m.available_tickets -ℤ bought;
            purchased_tickets = m.purchased_tickets +ℤ bought;
            transactions = m.transactions +ℤ pos 1;
          },
          bought,
        ))

-- `main` of a buyer on the numbers that it reads, and whether it has left its loop; else it waits
-- for the next number.
pub buyer_main : List ℤ → Memory → Memory × Bool
unfolding buy_tickets
buyer_main [] m = (m, leb_ℤ m.available_tickets (pos 0))
buyer_main (requested ∷ rest) m = elim (leb_ℤ m.available_tickets (pos 0)) [
  | true ↦ (m, true)
  | false ↦ buyer_main rest (buy_tickets m requested).0
]
