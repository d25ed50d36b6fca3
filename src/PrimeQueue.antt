-- ===== src/PrimeQueue.antt =====
-- Section2/L3: main_program/src/main.c puts the numbers of a file and then -1 for each of two
-- workers on a message queue; worker/src/main.c takes numbers off it and tests them for primality.
pub mod Text
pub mod Primality
pub mod Delivery
pub mod Ending
mod Tests
use ciic.Common.{
  ℕ, zero, suc, ◌+◌, ◌*◌, ◌%◌, ◌^◌, ◌≡◌, ◌≢◌, ◌<◌, Bool, true, false, Option, none, some, List, [],
  ◌∷◌, ◌++◌, leb, ltb, ◌==◌, if◌then◌else◌, length, arith,
}
use ciic.Common.Int.{ℤ, pos, negsuc}

-- What `is_prime` may come to. The product `i * i` overflows a `long long` where it reaches 2^63,
-- which is undefined in C.
pub data Verdict : Type 0 where
  prime : Verdict
  composite : Verdict
  overflow : Verdict
  out_of_fuel : Verdict

-- The `for`, with fuel for its rounds.
pub prime_loop : ℕ → ℕ → ℕ → Verdict
prime_loop zero i number = out_of_fuel
prime_loop (suc fuel) i number =
    let next = prime_loop fuel (i + 1) number in
    if leb (2 ^ 63) (i * i)
    then overflow
    else (if leb (i * i) number then (if (number % i) == 0 then composite else next) else prime)

pub is_prime : ℤ → Verdict
unfolding prime_loop
is_prime (negsuc n) = composite
is_prime (pos n) = if leb n 1 then composite else prime_loop n 2 n

-- A number is printed as "PRIME FOUND" where `is_prime` returns 1.
abbrev pub is_found : Verdict → Bool
is_found prime = true
is_found _ = false

abbrev pub max_messages : ℕ
max_messages = 5

abbrev pub stop : ℤ
stop = negsuc 0

abbrev pub is_stop : ℤ → Bool
is_stop (negsuc zero) = true
is_stop _ = false

-- A worker waits for a message, tests the number that it has received, or has left its loop.
pub data Worker : Type 0 where
  waiting : Worker
  testing : ℤ → Worker
  stopped : Worker

-- What `main` still has to send, the queue, the two workers, the numbers that they have received
-- (in order), and the numbers that they have printed as primes.
pub record System : Type 0 where
  pub unsent : List ℤ
  pub queue : List ℤ
  pub worker1 : Worker
  pub worker2 : Worker
  pub received : List ℤ
  pub found : List ℤ

-- After `mq_receive`.
abbrev pub on_message : ℤ → Worker
on_message number = if is_stop number then stopped else testing number

-- After the test: the number is printed if it is prime.
pub report : List ℤ → ℤ → List ℤ
unfolding is_prime
report found number = if is_found (is_prime number) then found ++ number ∷ [] else found

pub data Step (s : System) : System → Type 0 where
  send :
      {number : ℤ} {rest : List ℤ}
      → s.unsent ≡ number ∷ rest
      → length s.queue < max_messages
      → Step s (record s { unsent = rest; queue = s.queue ++ number ∷ [] })
  receive1 :
      {number : ℤ} {rest : List ℤ}
      → s.worker1 ≡ waiting
      → s.queue ≡ number ∷ rest
      → Step s (record s {
        queue = rest;
        worker1 = on_message number;
        received = s.received ++ number ∷ [];
      })
  receive2 :
      {number : ℤ} {rest : List ℤ}
      → s.worker2 ≡ waiting
      → s.queue ≡ number ∷ rest
      → Step s (record s {
        queue = rest;
        worker2 = on_message number;
        received = s.received ++ number ∷ [];
      })
  test1 :
      {number : ℤ}
      → s.worker1 ≡ testing number
      → Step s (record s { worker1 = waiting; found = report s.found number })
  test2 :
      {number : ℤ}
      → s.worker2 ≡ testing number
      → Step s (record s { worker2 = waiting; found = report s.found number })

-- `main` sends -1 twice behind the numbers of the file.
abbrev pub messages : List ℤ → List ℤ
messages numbers = numbers ++ stop ∷ stop ∷ []

abbrev pub init : List ℤ → System
init numbers = record {
  unsent = messages numbers;
  queue = [];
  worker1 = waiting;
  worker2 = waiting;
  received = [];
  found = [];
}

pub data Reach (numbers : List ℤ) : System → Type 0 where
  start : Reach numbers (init numbers)
  later : {s t : System} → Reach numbers s → Step s t → Reach numbers t
