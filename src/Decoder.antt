-- ===== src/Decoder.antt =====
-- PP2/decode_c/src/main.c: four threads decode one encrypted picture, each with a key of its own, and
-- a timer prints how far they are.
pub mod Keys
pub mod Threads
pub mod Refine
pub mod Outputs
pub mod Deadlock
mod Tests
use Prim.Native.Nat.{bit_xor}
use ciic.Common.{
  ℕ, zero, suc, ◌+◌, ◌*◌, ◌/◌, ◌%◌, ◌<◌, ◌≡◌, Bool, true, false, ◌&&◌, Option, none, some, List, [],
  ◌∷◌, ◌++◌, ltb, if◌then◌else◌,
}
use ciic.Common.Text.{codes}
use ciic.Common.Threads.{update}

abbrev pub num_threads : ℕ
num_threads = 4

-- `WEIGHT * HEIGHT`
abbrev pub total_pixels : ℕ
total_pixels = 100 * 100

-- `tests`
abbrev pub tests : ℕ → ℕ
tests zero = 88
tests (suc zero) = 222
tests (suc (suc zero)) = 5
tests _ = 934

abbrev pub Pixel : Type 0
Pixel = ℕ × ℕ × ℕ

-- `unsigned char component = buffer[0] ^ key`: the low byte of the result.
unfoldable pub decrypt_byte : ℕ → ℕ → ℕ
decrypt_byte key b = bit_xor b key % 256

unfoldable pub decrypt : ℕ → Pixel → Pixel
decrypt key (r, g, b) = (decrypt_byte key r, decrypt_byte key g, decrypt_byte key b)

abbrev pub rgb : Pixel → List ℕ
rgb (r, g, b) = r ∷ g ∷ b ∷ []

-- "%d" of a byte
unfoldable pub print_byte : ℕ → List ℕ
print_byte n =
    if ltb n 10
    then (48 + n) ∷ []
    else if ltb n 100
    then (48 + n / 10) ∷ (48 + n % 10) ∷ []
    else (48 + n / 100) ∷ (48 + n / 10 % 10) ∷ (48 + n % 10) ∷ []

-- `txt_line`
unfoldable pub txt_line : Pixel → List ℕ
unfolding print_byte
txt_line (r, g, b) = print_byte r ++ (b' ' ∷ print_byte g) ++ (b' ' ∷ print_byte b) ++ (10 ∷ [])

abbrev pub ppm_header : List ℕ
ppm_header = codes "P6\n100 100\n255\n"

-- What the threads find: the bytes of encrypt.bin, `none` if it does not open, and which of their
-- output files open.
pub record Disk : Type 0 where
  pub encrypt : Option (List ℕ)
  pub ppm_opens : ℕ → Bool
  pub txt_opens : ℕ → Bool

-- Where a thread stands in `Decode`: before its calls of `open`, at the test of the `for`, before
-- `pthread_mutex_lock`, behind it, behind `progress[try_number]++`, in `TryTest` while it holds the
-- mutex, behind the loop, and behind a failed `open`.
pub data Place : Type 0 where
  opening : Place
  reading : Place
  locking : Place
  counting : Place
  counted : Place
  interrupted : Place
  ended : Place
  failed : Place

-- `rest` is what `fd` has still to give; `ppm` and `txt` are the output files, `none` before they exist.
pub record Thread : Type 0 where
  pub place : Place
  pub i : ℕ
  pub rest : List ℕ
  pub ppm : Option (List ℕ)
  pub txt : Option (List ℕ)

-- `open(name, O_WRONLY | O_CREAT | O_TRUNC)`
abbrev pub truncate : Bool → Option (List ℕ)
truncate opens = if opens then some [] else none

-- `write`
abbrev pub append : Option (List ℕ) → List ℕ → Option (List ℕ)
append none bytes = none
append (some file) bytes = some (file ++ bytes)

pub opened : List ℕ → Bool → Bool → Thread
opened frame ppm_opens txt_opens = record {
  place = if ppm_opens && txt_opens then reading else failed;
  i = 0;
  rest = frame;
  ppm = if txt_opens then append (truncate ppm_opens) ppm_header else truncate ppm_opens;
  txt = truncate txt_opens;
}

-- From the start of `Decode` to its loop
pub open_files : Disk → ℕ → Thread → Thread
unfolding opened
open_files d try_number th = elim d.encrypt [
  | none ↦ record th { place = failed }
  | some frame ↦ opened frame (d.ppm_opens try_number) (d.txt_opens try_number)
]

-- The loop up to the lock, on what `read` finds.
pub on_bytes : ℕ → List ℕ → Thread → Thread
unfolding decrypt txt_line
on_bytes key (r ∷ g ∷ b ∷ rest) th = record th {
  place = locking;
  rest = rest;
  ppm = append th.ppm (rgb (decrypt key (r, g, b)));
  txt = append th.txt (txt_line (decrypt key (r, g, b)));
}
on_bytes key _ th = record th { place = ended }

pub decode_pixel : ℕ → Thread → Thread
unfolding on_bytes
decode_pixel key th =
    if ltb th.i total_pixels then on_bytes key th.rest th else record th { place = ended }

-- A step of thread `id` on the mutex, which names its holder, and on its entry of `progress`.
pub data Turn (d : Disk) (id : ℕ) (mutex : Option ℕ) (n : ℕ) (th : Thread)
    : Option ℕ → ℕ → Thread → Type 0 where
  open_all : th.place ≡ opening → Turn d id mutex n th mutex n (open_files d id th)
  read : th.place ≡ reading → Turn d id mutex n th mutex n (decode_pixel (tests id) th)
  lock :
      th.place ≡ locking
      → mutex ≡ none
      → Turn d id mutex n th (some id) n (record th { place = counting })
  count : th.place ≡ counting → Turn d id mutex n th mutex (n + 1) (record th { place = counted })
  unlock :
      th.place ≡ counted → Turn d id mutex n th none n (record th { place = reading; i = th.i + 1 })
  -- SIGALRM comes to the thread that holds the mutex, before or behind its `++`: `TryTest` waits for it.
  interrupt : th.place ≡ counting → Turn d id mutex n th mutex n (record th { place = interrupted })
  interrupt_counted :
      th.place ≡ counted → Turn d id mutex n th mutex n (record th { place = interrupted })

pub record System : Type 0 where
  pub threads : ℕ → Thread
  pub mutex : Option ℕ
  pub progress : ℕ → ℕ
  -- what `TryTest` has printed
  pub reports : List (List ℕ)

abbrev pub report : (ℕ → ℕ) → List ℕ
report progress = progress 0 ∷ progress 1 ∷ progress 2 ∷ progress 3 ∷ []

pub data Step (d : Disk) (s : System) : System → Type 0 where
  turn :
      (id : ℕ) {m : Option ℕ} {n : ℕ} {th : Thread}
      → id < num_threads
      → Turn d id s.mutex (s.progress id) (s.threads id) m n th
      → Step d s (record s {
        threads = update s.threads id th;
        mutex = m;
        progress = update s.progress id n;
      })
  -- SIGALRM comes to a thread that does not hold the mutex, and `TryTest` has it for its report.
  tick : s.mutex ≡ none → Step d s (record s { reports = s.reports ++ report s.progress ∷ [] })

abbrev pub init : System
init = record {
  threads = λ id. record { place = opening; i = 0; rest = []; ppm = none; txt = none };
  mutex = none;
  progress = λ id. 0;
  reports = [];
}

pub data Reach (d : Disk) : System → Type 0 where
  start : Reach d init
  later : {s t : System} → Reach d s → Step d s t → Reach d t
