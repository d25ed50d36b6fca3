-- ===== src/PrimeQueue/Tests.antt =====
-- Runs of the worker's test and of the queue of Section2/L3, and the theorems at them.
use ciic.Common.{ℕ, suc, length, map, ◌<◌, ◌≡◌, ◌⊎◌, refl, Bool, List, [], ◌∷◌, ◌++◌, arith}
use ciic.Common.Int.{ℤ, pos, negsuc}
use ciic.PrimeQueue.{
  prime, composite, is_prime, stopped, System, send, receive1, receive2, test1, test2, Reach, start,
  later, messages, report,
}
use ciic.Common.Text.{codes, scan_int}
use ciic.PrimeQueue.{stop}
use ciic.PrimeQueue.Text.{message, Reads, received, send_numbers, send_numbers-received}
use ciic.PrimeQueue.Text
use ciic.PrimeQueue.Primality.{IsPrime, is_prime_correct}
use ciic.PrimeQueue.Delivery.{count, found_by, all_primes_found}

is_prime_runs :
    (is_prime (pos 97) ≡ prime)
    × (is_prime (pos 91) ≡ composite)
    × (is_prime (pos 1) ≡ composite)
    × (is_prime (negsuc 6) ≡ composite)
unfolding is_prime
is_prime_runs = (refl, refl, refl, refl)

is_prime_correct_example :
    ((is_prime (pos 97) ≡ prime) × IsPrime 97) ⊎ ((is_prime (pos 97) ≡ composite) × ¬ IsPrime 97)
is_prime_correct_example = is_prime_correct 97 (omega arith)

abbrev numbers : List ℤ
numbers = pos 7 ∷ pos 8 ∷ []

record Trace : Type 0 where
  state : System
  reach : Reach numbers state

-- Worker 1 tests 7 and 8, worker 2 stops first.
abbrev sent : Trace
sent = record {
  state = _;
  reach =
      later
        (later (later (later start (send refl (omega arith))) (send refl (omega arith)))
          (send refl (omega arith)))
        (send refl (omega arith));
}

abbrev half : Trace
half = record {
  state = _;
  reach = later (later sent.reach (receive1 refl refl)) (receive2 refl refl);
}

abbrev ended : Trace
unfolding report is_prime
ended = record {
  state = _;
  reach =
      later (later (later (later half.reach (test2 refl)) (receive2 refl refl)) (test1 refl))
        (receive1 refl refl);
}

ended_state : (ended.state.found ≡ pos 7 ∷ []) × (ended.state.worker2 ≡ stopped)
unfolding report is_prime
ended_state = (refl, refl)

all_primes_found_example :
    (ended.state.queue ++ ended.state.unsent ≡ [])
    × (ended.state.received ≡ messages numbers)
    × ((p : ℤ → Bool) → count p ended.state.found ≡ count (found_by p) numbers)
unfolding count ended
all_primes_found_example = all_primes_found refl ended.reach refl refl

-- Three numbers, and a word behind them
abbrev file : List ℕ
file = codes "13\n-4 700\nx 5"

file_sent :
    send_numbers (suc (length file)) file
    ≡ Text.sent (
        message (pos 13)
        ∷ message (negsuc 3)
        ∷ message (pos 700)
        ∷ message stop
        ∷ message stop
        ∷ [])
unfolding send_numbers scan_int ciic.Common.Decimal.print_int
file_sent = refl

send_numbers-received_example :
    (numbers : List ℤ) × Reads file numbers
    × (send_numbers (suc (length file)) file ≡ Text.sent (map message (messages numbers)))
    × ((stale : List ℕ) → map (received stale) (map message (messages numbers)) ≡ messages numbers)
send_numbers-received_example = send_numbers-received file
