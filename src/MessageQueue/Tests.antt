-- ===== src/MessageQueue/Tests.antt =====
-- A run of Section2/class_examples/message_queue, and its theorem there.
use ciic.Common.{ℕ, ◌+◌, ◌<◌, ◌≤◌, ◌≡◌, refl, List, [], ◌∷◌, ◌++◌, map, length, arith}
use mathlib.Core.List.{Perm}
use ciic.Common.Text.{codes, shown}
use ciic.MessageQueue.{
  max_messages, text, message, System, send, receive, print, Reach, start, later,
}
use ciic.MessageQueue.Order.{texts, messages_in_order}

-- One message of an earlier run, two of this one, and two receivers
abbrev old : List (List ℕ)
old = (codes "hola" ++ 0 ∷ []) ∷ []

abbrev two_sent_state : System
two_sent_state = record {
  i = 2;
  queue = old ++ (message [] 0 ∷ message [] 1 ∷ []);
  taken = [];
  held = [];
  printed = [];
}

abbrev two_sent : Reach old two_sent_state
two_sent =
    later (later start (send [] (omega arith) (omega arith))) (send [] (omega arith) (omega arith))

abbrev two_taken : System
two_taken = record two_sent_state {
  queue = message [] 1 ∷ [];
  taken = old ++ message [] 0 ∷ [];
  held = old ++ message [] 0 ∷ [];
}

two_taken_reach : Reach old two_taken
two_taken_reach = later (later two_sent (receive refl)) (receive refl)

-- The second receiver prints first.
abbrev overtaken : System
overtaken = record two_taken { held = old; printed = text 0 ∷ [] }

overtaken_reach : Reach old overtaken
unfolding shown ciic.Common.Decimal.print_int
overtaken_reach = later two_taken_reach (print old (message [] 0) [] refl)

messages_in_order_example :
    (map shown (overtaken.taken ++ overtaken.queue) ≡ map shown old ++ texts 2)
    × Perm (overtaken.printed ++ map shown overtaken.held) (map shown overtaken.taken)
    × (length old + 2 ≤ length overtaken.taken + max_messages)
messages_in_order_example = messages_in_order (omega arith) overtaken_reach
