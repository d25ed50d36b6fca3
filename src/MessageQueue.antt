-- ===== src/MessageQueue.antt =====
-- Section2/class_examples/message_queue: a program that puts ten messages on a queue of five, and one
-- that takes a message off it, run as often as one likes.
pub mod Order
mod Tests
use ciic.Common.{ℕ, ◌+◌, ◌<◌, ◌≤◌, ◌≡◌, List, [], ◌∷◌, ◌++◌, length, ◌==◌, if◌then◌else◌}
use ciic.Common.Int.{pos}
use ciic.Common.Text.{codes, shown}
use ciic.Common.Decimal.{print_int}

abbrev pub max_messages : ℕ
max_messages = 5

-- The rounds of the `for` of the sender
abbrev pub rounds : ℕ
rounds = 10

-- "mensaje numero %d"
abbrev pub text : ℕ → List ℕ
text i = codes "mensaje numero " ++ print_int (pos i)

-- The buffer that is sent: the text, its zero, and what the buffer holds behind it
abbrev pub message : List ℕ → ℕ → List ℕ
message rest i = text i ++ 0 ∷ rest

-- The round of the sender, the queue, the messages that were taken off it, in order, those among them
-- that their receivers have not printed yet, and what the receivers have printed, in order.
pub record System : Type 0 where
  pub i : ℕ
  pub queue : List (List ℕ)
  pub taken : List (List ℕ)
  pub held : List (List ℕ)
  pub printed : List (List ℕ)

-- `mq_send`, which waits while the queue is full; `mq_receive` of a receiver, which waits while it is
-- empty; and the `printf` of one of the receivers that have a message.
pub data Step (s : System) : System → Type 0 where
  send :
      (rest : List ℕ)
      → s.i < rounds
      → length s.queue < max_messages
      → Step s (record s { i = s.i + 1; queue = s.queue ++ message rest s.i ∷ [] })
  receive :
      {first : List ℕ} {queue : List (List ℕ)}
      → s.queue ≡ first ∷ queue
      → Step s
          (record s { queue = queue; taken = s.taken ++ first ∷ []; held = s.held ++ first ∷ [] })
  print :
      (before : List (List ℕ)) (m : List ℕ) (after : List (List ℕ))
      → s.held ≡ before ++ m ∷ after
      → Step s (record s { held = before ++ after; printed = s.printed ++ shown m ∷ [] })

-- The queue is not removed by the programs, so that messages of an earlier run may be in it.
abbrev pub init : List (List ℕ) → System
init left_over = record { i = 0; queue = left_over; taken = []; held = []; printed = [] }

pub data Reach (left_over : List (List ℕ)) : System → Type 0 where
  start : Reach left_over (init left_over)
  later : {s t : System} → Reach left_over s → Step s t → Reach left_over t
