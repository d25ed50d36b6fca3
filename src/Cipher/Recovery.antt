-- ===== src/Cipher/Recovery.antt =====
-- What decrypt_writer.c recovers of the phrase that encrypt_writer.c was given.
use ciic.Common.{
  ℕ, zero, suc, ◌+◌, ◌-◌, ◌%◌, ◌≤◌, ◌<◌, ◌≡◌, refl, ap, Bool, true, ◌&&◌, not, some, List, [], ◌∷◌,
  ◌++◌, map, arith, length, replicate, drop, if◌then◌else◌, ◌==◌, length-map, length-replicate,
  length-append, ◌≢◌,
}
use ciic.Cipher.{
  Os, Shm, shm_size, newline, read_line, encrypt_loop, strncpy, encrypt_main, out_of_bounds,
  printed, copy_text, decrypt_byte, decrypt_text, decrypt_main,
}

-- A byte that is sent, and does not end the text in the memory: not a terminator or a newline, nor
-- one of the two that the shift turns into those.
abbrev pub is_sent : ℕ → Bool
is_sent b = not (b == 0) && not (b == newline) && not (b == 7) && not (b == 253)

-- The part of a line in front of the first byte that is not sent.
unfoldable pub sent : List ℕ → List ℕ
sent [] = []
sent (b ∷ bs) = if is_sent b then b ∷ sent bs else []

abbrev pub AreBytes : List ℕ → Type 0
AreBytes [] = Unit
AreBytes (b ∷ bs) = (b < 256) × AreBytes bs

abbrev pub encrypt_byte : ℕ → ℕ
encrypt_byte b = (b + 3) % 256

-- The text that stands in the memory, read back up to its end.
copy_text-strncpy :
    (n : ℕ) (line : List ℕ)
    → AreBytes line
    → length line ≤ n
    → copy_text n (strncpy (replicate (suc n) 0) (encrypt_loop (line ++ 0 ∷ [])) n)
      ≡ map encrypt_byte (sent line)
unfolding copy_text strncpy encrypt_loop sent
copy_text-strncpy zero [] h l = refl
copy_text-strncpy zero (b ∷ line) h l = absurd (omega arith)
copy_text-strncpy (suc n) [] h l = refl
copy_text-strncpy (suc n) (b ∷ line) h l = ground (arith, copy_text-strncpy n line)

map-decrypt_byte :
    (line : List ℕ)
    → AreBytes line
    → map decrypt_byte (map encrypt_byte (sent line) ++ newline ∷ []) ≡ sent line ++ newline ∷ []
unfolding decrypt_byte sent
map-decrypt_byte [] h = refl
map-decrypt_byte (b ∷ line) h = ground (arith, map-decrypt_byte line)

pub read_line-AreBytes : (n : ℕ) (input : List ℕ) → AreBytes input → AreBytes (read_line n input)
unfolding read_line
read_line-AreBytes zero input h = tt
read_line-AreBytes (suc n) [] h = tt
read_line-AreBytes (suc n) (c ∷ input) h = ground (arith, read_line-AreBytes n input)

pub length-read_line : (n : ℕ) (input : List ℕ) → length (read_line n input) ≤ n
unfolding read_line
length-read_line zero input = omega arith
length-read_line (suc n) [] = omega arith
length-read_line (suc n) (c ∷ input) = ground (arith, length-read_line n input)

abbrev pub all_well : Os
all_well = record { opens = true; truncates = true; maps = true }

-- What encrypt_writer.c leaves in the memory.
abbrev pub memory_of : List ℕ → List ℕ
memory_of line = strncpy (replicate shm_size 0) (encrypt_loop (line ++ 0 ∷ [])) (shm_size - 1)

-- What is sent of the first line of the input.
abbrev pub text_of : List ℕ → List ℕ
text_of input = sent (read_line (shm_size - 1) input)

length-strncpy :
    (n : ℕ) (dst src : List ℕ) → n ≤ length dst → length (strncpy dst src n) ≡ length dst
unfolding strncpy
length-strncpy zero dst src h = refl
length-strncpy (suc n) [] src h = refl
length-strncpy (suc n) (d ∷ dst) [] h = ap suc (length-strncpy n dst [] (omega arith))
length-strncpy (suc n) (d ∷ dst) (c ∷ src) h =
    ap suc (length-strncpy n dst (if c == 0 then [] else src) (omega arith))

drop-length {ℓ} : {A : Type ℓ} (n : ℕ) (xs : List A) → length xs ≤ n → drop n xs ≡ []
drop-length zero [] h = refl
drop-length zero (x ∷ xs) h = absurd (omega arith)
drop-length (suc n) [] h = refl
drop-length (suc n) (x ∷ xs) h = drop-length n xs (omega arith)

encrypt_main_lem :
    (input : List ℕ) (shm : Shm)
    → input ≢ []
    → encrypt_main all_well input shm ≡ (0, some (memory_of (read_line (shm_size - 1) input)))
unfolding encrypt_main read_line
encrypt_main_lem [] shm h = absurd (h refl)
encrypt_main_lem (c ∷ input) shm h = refl

decrypt_text_lem :
    (text : List ℕ)
    → length text < shm_size - 1
    → decrypt_text text ≡ printed (text ++ newline ∷ []) (map decrypt_byte (text ++ newline ∷ []))
unfolding decrypt_text
decrypt_text_lem text h = ground (arith, length-append text (newline ∷ []))

decrypt_text_full : (text : List ℕ) → length text ≡ shm_size - 1 → decrypt_text text ≡ out_of_bounds
unfolding decrypt_text
decrypt_text_full text h = ground (arith, length-append text (newline ∷ []))

copy_text-memory_of :
    (input : List ℕ)
    → AreBytes input
    → copy_text (shm_size - 1) (memory_of (read_line (shm_size - 1) input))
      ≡ map encrypt_byte (text_of input)
copy_text-memory_of input h =
    copy_text-strncpy 1023 (read_line (shm_size - 1) input)
      (read_line-AreBytes (shm_size - 1) input h) (length-read_line (shm_size - 1) input)

drop-memory_of : (line : List ℕ) → drop shm_size (memory_of line) ≡ []
drop-memory_of line = drop-length shm_size (memory_of line) (
    omega (
      arith,
      length-strncpy (shm_size - 1) (replicate shm_size 0) (encrypt_loop (line ++ 0 ∷ []))
          (omega (arith, length-replicate {A = ℕ} shm_size 0)),
      length-replicate {A = ℕ} shm_size 0,
    ))

-- If all system calls succeed and the first line of a non-empty input, cut at 1023 bytes, has
-- fewer than 1023 bytes in front of the first of 0, 7, 10 and 253, decrypt_writer.c prints these
-- bytes shifted by 3, then as they were, with a newline, and leaves 1024 zeros in the memory.
pub decrypt_main-encrypt_main :
    (input : List ℕ) (shm : Shm)
    → AreBytes input
    → input ≢ []
    → length (text_of input) < shm_size - 1
    → decrypt_main all_well (encrypt_main all_well input shm).1 ≡ (
      printed (map encrypt_byte (text_of input) ++ newline ∷ []) (text_of input ++ newline ∷ []),
      some (replicate shm_size 0),
    )
unfolding decrypt_main
decrypt_main-encrypt_main input shm bytes ne short = rw (
  encrypt_main_lem input shm ne,
  copy_text-memory_of input bytes,
  decrypt_text_lem (map encrypt_byte (text_of input))
      (rw (length-map (text_of input) encrypt_byte) short),
  map-decrypt_byte (read_line (shm_size - 1) input) (read_line-AreBytes (shm_size - 1) input bytes),
  drop-memory_of (read_line (shm_size - 1) input),
)

text_of-ne_nil : (input : List ℕ) → length (text_of input) ≡ shm_size - 1 → input ≢ []
unfolding read_line sent
text_of-ne_nil [] h e = absurd (omega arith)
text_of-ne_nil (c ∷ input) h e = cc

-- If all system calls succeed and the first line of the input has 1023 bytes in front of any of
-- 0, 7, 10 and 253, decrypt_writer.c writes its terminator behind the end of `buf`.
decrypt_main-out_of_bounds :
    (input : List ℕ) (shm : Shm)
    → AreBytes input
    → length (text_of input) ≡ shm_size - 1
    → (decrypt_main all_well (encrypt_main all_well input shm).1).0 ≡ out_of_bounds
unfolding decrypt_main
decrypt_main-out_of_bounds input shm bytes full = rw (
  encrypt_main_lem input shm (text_of-ne_nil input full),
  copy_text-memory_of input bytes,
  decrypt_text_full (map encrypt_byte (text_of input))
      (rw (length-map (text_of input) encrypt_byte) full),
)
