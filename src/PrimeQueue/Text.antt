-- ===== src/PrimeQueue/Text.antt =====
-- Section2/L3: the numbers of the file as messages. main_program/src/main.c prints them, and
-- worker/src/main.c reads the messages.
use ciic.Common.{
  ℕ, zero, suc, ◌<◌, ◌≤◌, ◌≡◌, refl, false, List, [], ◌∷◌, ◌++◌, map, length, leb, if◌then◌else◌,
  arith, ap, ap₂, ◌∙◌, append_assoc,
}
use ciic.Common.Int.{ℤ}
use ciic.Common.Text.{Scanned, number, mismatch, end_of_file, scan_int}
use ciic.Common.Text.Rest.{Shorter, scan_int-Shorter}
use ciic.Common.Decimal.{print_int, atoll, clamp, clamp_twice, length-print_int, atoll-print_int}
use ciic.PrimeQueue.{stop, messages}

-- `sizeof(msg)`
abbrev pub message_size : ℕ
message_size = 40

-- A message: the text with its zero
abbrev pub message : ℤ → List ℕ
message z = print_int z ++ 0 ∷ []

-- What `main` sends: all; or up to a number whose text is too large, where it ends; or the fuel ran out.
pub data Sent : Type 0 where
  sent : List (List ℕ) → Sent
  too_large : List (List ℕ) → Sent
  out_of_fuel : Sent

abbrev pub send : List ℕ → Sent → Sent
send m (sent ms) = sent (m ∷ ms)
send m (too_large ms) = too_large (m ∷ ms)
send m out_of_fuel = out_of_fuel

-- The body of the `while`, and what follows the loop: -1 for each of the workers
unfoldable pub on_number : (List ℕ → Sent) → Scanned → Sent
on_number next (number z rest) =
    let written = length (print_int (clamp z)) in
    let later = next rest in
    if leb message_size written then too_large [] else send (message (clamp z)) later
on_number next (mismatch rest) = sent (message stop ∷ message stop ∷ [])
on_number next end_of_file = sent (message stop ∷ message stop ∷ [])

-- The `while` on the bytes of the file, with fuel for its rounds
unfoldable pub send_numbers : ℕ → List ℕ → Sent
unfolding on_number
send_numbers zero file = out_of_fuel
send_numbers (suc fuel) file = on_number (send_numbers fuel) (scan_int file)

-- `msg[bytes] = '\0'; number = atoll(msg);` where the buffer still holds `stale` behind the message
unfoldable pub received : List ℕ → List ℕ → ℤ
received stale m = atoll (m ++ 0 ∷ stale)

-- The numbers at the start of a text, up to something that is no number
pub data Reads : List ℕ → List ℤ → Type 0 where
  reads_number :
      {file rest : List ℕ} {z : ℤ} {numbers : List ℤ}
      → scan_int file ≡ number z rest
      → Reads rest numbers
      → Reads file (clamp z ∷ numbers)
  reads_other : {file rest : List ℕ} → scan_int file ≡ mismatch rest → Reads file []
  reads_end : {file : List ℕ} → scan_int file ≡ end_of_file → Reads file []

received-message : (stale : List ℕ) (z : ℤ) → clamp z ≡ z → received stale (message z) ≡ z
unfolding received
received-message stale z fits =
    ap atoll (append_assoc (print_int z) (0 ∷ []) (0 ∷ stale))
    ∙ atoll-print_int z 0 (0 ∷ stale) fits refl

-- What `main` sends of a text and what the workers make of it
abbrev Delivered : (List ℕ → Sent) → List ℕ → Type 0
Delivered sends file =
    (numbers : List ℤ) × Reads file numbers
    × (sends file ≡ sent (map message (messages numbers)))
    × ((stale : List ℕ) → map (received stale) (map message (messages numbers)) ≡ messages numbers)

stops_back :
    (stale : List ℕ) → map (received stale) (message stop ∷ message stop ∷ []) ≡ stop ∷ stop ∷ []
stops_back stale = ap (λ z. z ∷ z ∷ []) (received-message stale stop refl)

on_number-Delivered :
    (fuel : ℕ) (file : List ℕ) (s : Scanned)
    → scan_int file ≡ s
    → Shorter fuel s
    → ((rest : List ℕ) → length rest < fuel → Delivered (send_numbers fuel) rest)
    → Delivered (λ text. on_number (send_numbers fuel) s) file
unfolding on_number
on_number-Delivered fuel file (number z rest) p short ih =
    let (numbers, reads, sends, back) = ih rest short in
    let fits : leb message_size (length (print_int (clamp z))) ≡ false =
      ground (arith, length-print_int (clamp z)) in
    (
      clamp z ∷ numbers,
      reads_number p reads,
      rw (fits, sends) refl,
      λ stale. ap₂ ◌∷◌ (received-message stale (clamp z) (clamp_twice z)) (back stale),
    )
on_number-Delivered fuel file (mismatch rest) p short ih = ([], reads_other p, refl, stops_back)
on_number-Delivered fuel file end_of_file p short ih = ([], reads_end p, refl, stops_back)

Shorter-up : {size fuel : ℕ} (s : Scanned) → size ≤ fuel → Shorter size s → Shorter fuel s
Shorter-up s le h = ground (arith, le, h)

send_numbers-Delivered :
    (fuel : ℕ) (file : List ℕ) → length file < fuel → Delivered (send_numbers fuel) file
unfolding send_numbers
send_numbers-Delivered zero file h = absurd (omega (arith, h))
send_numbers-Delivered (suc fuel) file h =
    on_number-Delivered fuel file (scan_int file) refl
      (Shorter-up (scan_int file) (omega (arith, h)) (scan_int-Shorter file))
      (λ rest short. send_numbers-Delivered fuel rest short)

-- Whatever bytes the file holds, its length and one are rounds enough for the `while`. What `main` gives
-- to `mq_send`, call by call and while these calls succeed, are the numbers that the file starts with, up to something that is no
-- number, and then -1 for each of the two workers, in messages that fit; and a worker takes each of them
-- for its number, whatever its buffer held before. A number that does not fit into a `long long` is the
-- nearest that does.
pub send_numbers-received :
    (file : List ℕ)
    → (numbers : List ℤ) × Reads file numbers
      × (send_numbers (suc (length file)) file ≡ sent (map message (messages numbers)))
      × ((stale : List ℕ)
          → map (received stale) (map message (messages numbers)) ≡ messages numbers)
send_numbers-received file = send_numbers-Delivered (suc (length file)) file (omega arith)
