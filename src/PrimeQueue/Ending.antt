-- ===== src/PrimeQueue/Ending.antt =====
-- Every run of Section2/L3 ends with both workers stopped.
use ciic.Common.{
  ℕ, zero, suc, ◌+◌, ◌*◌, ◌≤◌, ◌<◌, ◌≡◌, ◌⊎◌, inl, inr, refl, List, [], ◌∷◌, length, arith,
  append-nil, length-append,
}
use ciic.Common.Int.{ℤ, pos, negsuc}
use ciic.PrimeQueue.{
  Worker, waiting, testing, stopped, System, Step, send, receive1, receive2, test1, test2, Reach,
  messages, is_stop, on_message,
}
use ciic.PrimeQueue.Delivery.{count-messages, stops_of, Inv, Reach-Inv}

pub testing_of : Worker → ℕ
testing_of (testing number) = 1
testing_of waiting = 0
testing_of stopped = 0

testing_of-on_message : (x : ℤ) → testing_of (on_message x) ≤ 1
unfolding testing_of
testing_of-on_message (pos n) = omega arith
testing_of-on_message (negsuc zero) = omega arith
testing_of-on_message (negsuc (suc n)) = omega arith

-- What is left to do: a number in the file takes three steps.
abbrev pub measure : System → ℕ
measure s = 3 * length s.unsent + 2 * length s.queue + testing_of s.worker1 + testing_of s.worker2

Step-measure : {s t : System} → Step s t → measure t < measure s
unfolding testing_of
Step-measure {s} (send {number} {rest} e room) = ground (arith, length-append s.queue (number ∷ []))
Step-measure (receive1 {number} e q) = ground (arith, testing_of-on_message number)
Step-measure (receive2 {number} e q) = ground (arith, testing_of-on_message number)
Step-measure (test1 e) = ground arith
Step-measure (test2 e) = ground arith

-- Where nothing is sent or queued any more, the workers have taken two stops.
drained :
    {numbers : List ℤ} {s : System}
    → Inv numbers s
    → s.queue ≡ []
    → s.unsent ≡ []
    → 2 ≤ stops_of s.worker1 + stops_of s.worker2
drained {numbers} {s} inv eq eu =
    ground (arith, inv.stops, everything, count-messages is_stop numbers)
  where
    everything : s.received ≡ messages numbers
    everything = ground (arith, inv.in_order, append-nil s.received)

abbrev pub GoesOn : System → Type 0
GoesOn s = ((s.worker1 ≡ stopped) × (s.worker2 ≡ stopped)) ⊎ ((t : System) × Step s t)

send_next :
    {numbers : List ℤ} {s : System} (inv : Inv numbers s) (u : List ℤ)
    → s.queue ≡ []
    → s.unsent ≡ u
    → stops_of s.worker1 + stops_of s.worker2 ≤ 1
    → (t : System) × Step s t
send_next inv [] eq eu few = absurd (omega (arith, drained inv eq eu))
send_next inv (x ∷ u) eq eu few = (_, send eu (ground arith))

goes_on :
    {numbers : List ℤ} {s : System} (inv : Inv numbers s) (w1 w2 : Worker) (q : List ℤ)
    → s.worker1 ≡ w1
    → s.worker2 ≡ w2
    → s.queue ≡ q
    → GoesOn s
unfolding stops_of
goes_on inv (testing n) w2 q e1 e2 eq = inr (_, test1 e1)
goes_on inv waiting (testing n) q e1 e2 eq = inr (_, test2 e2)
goes_on inv stopped (testing n) q e1 e2 eq = inr (_, test2 e2)
goes_on inv stopped stopped q e1 e2 eq = inl (e1, e2)
goes_on inv stopped waiting (x ∷ q) e1 e2 eq = inr (_, receive2 e2 eq)
goes_on inv stopped waiting [] e1 e2 eq = inr (send_next inv _ eq refl (ground arith))
goes_on inv waiting waiting (x ∷ q) e1 e2 eq = inr (_, receive1 e1 eq)
goes_on inv waiting waiting [] e1 e2 eq = inr (send_next inv _ eq refl (ground arith))
goes_on inv waiting stopped (x ∷ q) e1 e2 eq = inr (_, receive1 e1 eq)
goes_on inv waiting stopped [] e1 e2 eq = inr (send_next inv _ eq refl (ground arith))

-- In a reachable state both workers have left their loop or a step is possible, and every step
-- lowers a measure: three for an unsent number, two for a queued one, one for a number under test.
delivery_ends :
    {numbers : List ℤ} {s : System}
    → Reach numbers s
    → GoesOn s × ((t : System) → Step s t → measure t < measure s)
delivery_ends reach = (goes_on (Reach-Inv reach) _ _ _ refl refl refl, λ t. Step-measure)
