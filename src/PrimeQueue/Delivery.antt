-- ===== src/PrimeQueue/Delivery.antt =====
-- The run of Section2/L3: the two workers receive what main_program/src/main.c sends, in order, and
-- print the primes of it.
use ciic.Common.{
  ℕ, zero, suc, ◌+◌, ◌≤◌, ◌≡◌, refl, Bool, false, List, [], ◌∷◌, ◌++◌, if◌then◌else◌, length, arith,
  append_assoc, append-nil, length-append,
}
use ciic.Common.Int.{ℤ, pos, negsuc}
use ciic.PrimeQueue.{
  Worker, waiting, testing, stopped, System, Step, send, receive1, receive2, test1, test2, Reach,
  start, later, messages, stop, is_stop, is_found, is_prime, report, on_message, max_messages,
}

-- How many elements pass the test `p`.
unfoldable pub count : (ℤ → Bool) → List ℤ → ℕ
count p [] = 0
count p (x ∷ xs) = (if p x then 1 else 0) + count p xs

-- The primes, by `is_prime`, that pass the test `p`.
abbrev pub found_by : (ℤ → Bool) → ℤ → Bool
found_by p x = if is_found (is_prime x) then p x else false

count-append : (p : ℤ → Bool) (xs ys : List ℤ) → count p (xs ++ ys) ≡ count p xs + count p ys
unfolding count
count-append p [] ys = omega arith
count-append p (x ∷ xs) ys = omega (arith, count-append p xs ys)

count-last :
    (p : ℤ → Bool) (xs : List ℤ) (x : ℤ)
    → count p (xs ++ x ∷ []) ≡ count p xs + (if p x then 1 else 0)
unfolding count
count-last p xs x = omega (arith, count-append p xs (x ∷ []))

-- What a worker is about to print of the numbers that pass the test `p`.
pub held : (ℤ → Bool) → Worker → ℕ
held p (testing number) = if found_by p number then 1 else 0
held p waiting = 0
held p stopped = 0

unfoldable pub stops_of : Worker → ℕ
stops_of stopped = 1
stops_of waiting = 0
stops_of (testing number) = 0

pub record Inv (numbers : List ℤ) (s : System) : Type 0 where
  pub in_order : s.received ++ (s.queue ++ s.unsent) ≡ messages numbers
  pub printed :
      (p : ℤ → Bool)
      → count p s.found + held p s.worker1 + held p s.worker2 ≡ count (found_by p) s.received
  pub stops : stops_of s.worker1 + stops_of s.worker2 ≡ count is_stop s.received
  pub room : length s.queue ≤ max_messages

count-report :
    (p : ℤ → Bool) (xs : List ℤ) (x : ℤ)
    → count p (report xs x) ≡ count p xs + (if found_by p x then 1 else 0)
unfolding report
count-report p xs x = ground (arith, count-last p xs x)

held-on_message : (p : ℤ → Bool) (x : ℤ) → held p (on_message x) ≡ (if found_by p x then 1 else 0)
unfolding held is_prime
held-on_message p (pos n) = refl
held-on_message p (negsuc zero) = refl
held-on_message p (negsuc (suc n)) = refl

stops_of-on_message : (x : ℤ) → stops_of (on_message x) ≡ (if is_stop x then 1 else 0)
unfolding stops_of
stops_of-on_message (pos n) = refl
stops_of-on_message (negsuc zero) = refl
stops_of-on_message (negsuc (suc n)) = refl

module _ {numbers : List ℤ} {s : System} (inv : Inv numbers s) where
  -- The fields that change when a number moves from the queue to a worker.
  module _ {number : ℤ} {rest : List ℤ} (q : s.queue ≡ number ∷ rest) where
    received_in_order : (s.received ++ number ∷ []) ++ (rest ++ s.unsent) ≡ messages numbers
    received_in_order =
        ground (arith, inv.in_order, append_assoc s.received (number ∷ []) (rest ++ s.unsent))

  Step-Inv : {t : System} → Step s t → Inv numbers t
  unfolding held stops_of
  Step-Inv (send {number} {rest} e room) = record {
    in_order = ground (arith, inv.in_order, append_assoc s.queue (number ∷ []) rest);
    printed = inv.printed;
    stops = inv.stops;
    room = omega (arith, length-append s.queue (number ∷ []));
  }
  Step-Inv (receive1 {number} {rest} e q) = record {
    in_order = received_in_order q;
    printed = λ p.
        ground (
          arith,
          inv.printed p,
          held-on_message p number,
          count-last (found_by p) s.received number,
        );
    stops =
        ground (arith, inv.stops, stops_of-on_message number, count-last is_stop s.received number);
    room = ground (arith, inv.room);
  }
  Step-Inv (receive2 {number} {rest} e q) = record {
    in_order = received_in_order q;
    printed = λ p.
        ground (
          arith,
          inv.printed p,
          held-on_message p number,
          count-last (found_by p) s.received number,
        );
    stops =
        ground (arith, inv.stops, stops_of-on_message number, count-last is_stop s.received number);
    room = ground (arith, inv.room);
  }
  Step-Inv (test1 {number} e) = record {
    in_order = inv.in_order;
    printed = λ p. ground (arith, inv.printed p, count-report p s.found number);
    stops = ground (arith, inv.stops);
    room = inv.room;
  }
  Step-Inv (test2 {number} e) = record {
    in_order = inv.in_order;
    printed = λ p. ground (arith, inv.printed p, count-report p s.found number);
    stops = ground (arith, inv.stops);
    room = inv.room;
  }

pub Reach-Inv : {numbers : List ℤ} {s : System} → Reach numbers s → Inv numbers s
unfolding held stops_of count
Reach-Inv start = record { in_order = refl; printed = λ p. refl; stops = refl; room = omega arith }
Reach-Inv (later r t) = Step-Inv (Reach-Inv r) t

count_bounded : (p : ℤ → Bool) (xs : List ℤ) → count p xs ≤ length xs
unfolding count
count_bounded p [] = omega arith
count_bounded p (x ∷ xs) = ground (arith, count_bounded p xs)

-- Two workers stop only behind the last message.
all_received :
    (xs ys numbers : List ℤ)
    → xs ++ ys ≡ messages numbers
    → count is_stop numbers ≡ 0
    → 2 ≤ count is_stop xs
    → ys ≡ []
unfolding count
all_received [] ys numbers e none two = absurd (omega arith)
all_received (x ∷ xs) [] numbers e none two = refl
all_received (x ∷ xs) (y ∷ ys) [] e none two =
    absurd (ground (arith, count_bounded is_stop (x ∷ xs), length-append (x ∷ xs) (y ∷ ys), e))
all_received (x ∷ xs) (y ∷ ys) (n ∷ numbers) e none two =
    ground (arith, all_received xs (y ∷ ys) numbers)

pub count-messages :
    (p : ℤ → Bool) (numbers : List ℤ)
    → count p (messages numbers) ≡ count p numbers + (if p stop then 2 else 0)
unfolding count
count-messages p numbers = ground (arith, count-append p numbers (stop ∷ stop ∷ []))

-- If the file holds no -1, then in a reachable state in which both workers have left their loop, all
-- messages have been received, in the order of the file, and for every test the numbers printed as
-- primes that pass it are as many as the numbers of the file that `is_prime` accepts and that pass it.
pub all_primes_found :
    {numbers : List ℤ} {s : System}
    → count is_stop numbers ≡ 0
    → Reach numbers s
    → s.worker1 ≡ stopped
    → s.worker2 ≡ stopped
    → (s.queue ++ s.unsent ≡ [])
      × (s.received ≡ messages numbers)
      × ((p : ℤ → Bool) → count p s.found ≡ count (found_by p) numbers)
unfolding held stops_of is_prime
all_primes_found {numbers} {s} none reach e1 e2 = (
  nothing_left,
  everything,
  λ p. ground (arith, inv.printed p, everything, count-messages (found_by p) numbers),
)
  where
    inv : Inv numbers s
    inv = Reach-Inv reach

    nothing_left : s.queue ++ s.unsent ≡ []
    nothing_left =
        all_received s.received (s.queue ++ s.unsent) numbers inv.in_order none
          (ground (arith, inv.stops))

    everything : s.received ≡ messages numbers
    everything = ground (arith, inv.in_order, nothing_left, append-nil s.received)
