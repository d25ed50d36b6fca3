-- ===== src/TicketCounter/Session.antt =====
-- What a call of `BuyTickets` and a session of a buyer of Section2/homeworks/H2 do to the tickets.
use ciic.Common.{
  ℕ, ◌+◌, ◌≤◌, ◌≡◌, ◌⊎◌, ◌↔◌, inl, inr, refl, true, List, [], ◌∷◌, arith, Bool-cases, if◌then◌else◌,
}
use ciic.Common.Int.{ℤ, pos, pos_part, ◌≤ℤ◌, ◌+ℤ◌, ◌-ℤ◌, leb_ℤ}
use ciic.TicketCounter.{Memory, tickets_to_buy, buy_tickets, buyer_main}

-- `BuyTickets` on a memory with no less than 0 tickets changes nothing and returns 0 for a request of
-- 0 or less; else it returns at least 1 if there are tickets, at most five and at most the request,
-- leaves no less than 0, keeps the sum of the tickets, and counts a transaction.
buy_tickets_lem :
    (m : Memory) (requested : ℤ)
    → pos 0 ≤ℤ m.available_tickets
    → ((requested ≤ℤ pos 0) × (buy_tickets m requested ≡ (m, pos 0)))
      ⊎ ((pos 1 ≤ℤ requested)
          × ((m.available_tickets ≡ pos 0) ⊎ (pos 1 ≤ℤ (buy_tickets m requested).1))
          × ((buy_tickets m requested).1 ≤ℤ pos 5)
          × ((buy_tickets m requested).1 ≤ℤ requested)
          × (pos 0 ≤ℤ (buy_tickets m requested).0.available_tickets)
          × ((buy_tickets m requested).0.available_tickets
              ≡ m.available_tickets -ℤ (buy_tickets m requested).1)
          × ((buy_tickets m requested).0.purchased_tickets
              ≡ m.purchased_tickets +ℤ (buy_tickets m requested).1)
          × ((buy_tickets m requested).0.transactions ≡ m.transactions +ℤ pos 1))
unfolding buy_tickets tickets_to_buy ◌+ℤ◌ ◌-ℤ◌
buy_tickets_lem m requested h = ground arith

-- Twenty tickets in all, available or purchased.
abbrev pub Sound : Memory → Type 0
Sound m = (pos 0 ≤ℤ m.available_tickets) × (m.available_tickets +ℤ m.purchased_tickets ≡ pos 20)

buy_tickets-Sound : (m : Memory) (requested : ℤ) → Sound m → Sound (buy_tickets m requested).0
unfolding buy_tickets tickets_to_buy ◌+ℤ◌ ◌-ℤ◌
buy_tickets-Sound m requested h = ground arith

-- If no less than 0 tickets are available and these and the purchased ones come to 20, then so it is
-- after a session of a buyer, whatever numbers it reads, and the session has left its loop exactly
-- if none is available.
pub buyer_main-Sound :
    (requests : List ℤ) (m : Memory)
    → Sound m
    → Sound (buyer_main requests m).0
      × ((buyer_main requests m).1 ≡ true ↔ (buyer_main requests m).0.available_tickets ≡ pos 0)
unfolding buyer_main
buyer_main-Sound [] m h = (h, (λ e. ground (arith, e, h.0), λ e. ground (arith, e)))
buyer_main-Sound (requested ∷ rest) m h = elim (Bool-cases (leb_ℤ m.available_tickets (pos 0))) [
  | inl none_left ↦ rw (none_left, buyer_main) (h, (λ e. ground (arith, h.0, none_left), λ e. refl))
  | inr some_left ↦
      rw (some_left, buyer_main)
        (buyer_main-Sound rest (buy_tickets m requested).0 (buy_tickets-Sound m requested h))
]

-- The requests above 0.
unfoldable pub count_positive : List ℤ → ℕ
count_positive [] = 0
count_positive (requested ∷ rest) = (if leb_ℤ requested (pos 0) then 0 else 1) + count_positive rest

buy_tickets-falls :
    (m : Memory) (requested : ℤ)
    → pos 0 ≤ℤ m.available_tickets
    → pos_part (buy_tickets m requested).0.available_tickets
        + (if leb_ℤ requested (pos 0) then 0 else 1)
      ≤ pos_part m.available_tickets + (if leb_ℤ m.available_tickets (pos 0) then 1 else 0)
unfolding buy_tickets tickets_to_buy ◌+ℤ◌ ◌-ℤ◌
buy_tickets-falls m requested h = ground arith

-- If no less than 0 tickets are available and these and the purchased ones come to 20, then a session
-- that reads, among any others, as many requests above 0 as tickets are available leaves its loop.
buyer_main-leaves :
    (requests : List ℤ) (m : Memory)
    → Sound m
    → pos_part m.available_tickets ≤ count_positive requests
    → (buyer_main requests m).1 ≡ true
unfolding buyer_main count_positive
buyer_main-leaves [] m h enough = ground arith
buyer_main-leaves (requested ∷ rest) m h enough =
    elim (Bool-cases (leb_ℤ m.available_tickets (pos 0))) [
      | inl none_left ↦ ground (arith, none_left)
      | inr some_left ↦
          rw (some_left, buyer_main)
            (buyer_main-leaves rest (buy_tickets m requested).0 (buy_tickets-Sound m requested h)
              (ground (arith, some_left, buy_tickets-falls m requested)))
    ]
