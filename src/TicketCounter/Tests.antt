-- ===== src/TicketCounter/Tests.antt =====
-- Sessions of the buyers of Section2/homeworks/H2, and the theorems at them.
use ciic.Common.{◌≡◌, ◌↔◌, refl, true, false, List, [], ◌∷◌, arith}
use ciic.Common.Int.{ℤ, pos, negsuc, ◌+ℤ◌}
use ciic.TicketCounter.{Memory, buyer_main, initialized}
use ciic.TicketCounter.Session.{Sound, buyer_main-Sound}

abbrev requests : List ℤ
requests = pos 3 ∷ pos 0 ∷ negsuc 4 ∷ pos 9 ∷ []

buyer_main-requests : buyer_main requests initialized ≡ (
  record { available_tickets = pos 12; purchased_tickets = pos 8; transactions = pos 2 },
  false,
)
unfolding buyer_main
buyer_main-requests = refl

-- The last request gets what is left.
buyer_main-sold_out :
    buyer_main (pos 5 ∷ pos 5 ∷ pos 5 ∷ pos 4 ∷ pos 4 ∷ []) initialized
    ≡ (record { available_tickets = pos 0; purchased_tickets = pos 20; transactions = pos 5 }, true)
unfolding buyer_main
buyer_main-sold_out = refl

buyer_main-Sound_example :
    Sound (buyer_main requests initialized).0
    × ((buyer_main requests initialized).1 ≡ true
        ↔ (buyer_main requests initialized).0.available_tickets ≡ pos 0)
unfolding ◌+ℤ◌
buyer_main-Sound_example = buyer_main-Sound requests initialized (omega arith, refl)

abbrev three_left : Memory
three_left = record { available_tickets = pos 3; purchased_tickets = pos 17; transactions = pos 6 }
