-- ===== src/Cipher.antt =====
-- encrypt_writer.c and decrypt_writer.c, below Bono/: a phrase from the standard input
-- is shifted by 3 into a shared memory object; the other program shifts it back, prints it and
-- clears the object. A `char` is its byte, a number below 256.
pub mod Recovery
mod Tests
use ciic.Common.{
  ℕ, zero, suc, ◌+◌, ◌-◌, ◌%◌, Bool, true, false, ◌&&◌, not, Option, none, some, List, [], ◌∷◌,
  ◌++◌, map, length, replicate, drop, if◌then◌else◌, ltb, ◌==◌,
}

abbrev pub shm_size : ℕ
shm_size = 1024

abbrev pub newline : ℕ
newline = 10

-- Which of the system calls succeed.
pub record Os : Type 0 where
  pub opens : Bool
  pub truncates : Bool
  pub maps : Bool

-- The object "/c4_shared_text", `none` before it is created.
abbrev pub Shm : Type 0
Shm = Option (List ℕ)

-- What `fgets(buf, n + 1, stdin)` stores before the terminator: `n` bytes at most, up to and with
-- a newline.
pub read_line : ℕ → List ℕ → List ℕ
read_line zero input = []
read_line (suc n) [] = []
read_line (suc n) (c ∷ input) = c ∷ (if c == newline then [] else read_line n input)

-- The `for` of encrypt_writer.c, over `buf` with its terminator.
pub encrypt_loop : List ℕ → List ℕ
encrypt_loop [] = []
encrypt_loop (b ∷ buf) =
    if b == 0
    then b ∷ buf
    else (if b == newline then b ∷ buf else ((b + 3) % 256) ∷ encrypt_loop buf)

-- `strncpy(dst, src, n)`: what follows a terminator is filled with zeros.
pub strncpy : List ℕ → List ℕ → ℕ → List ℕ
strncpy dst src zero = dst
strncpy [] src (suc n) = []
strncpy (d ∷ dst) [] (suc n) = 0 ∷ strncpy dst [] n
strncpy (d ∷ dst) (c ∷ src) (suc n) = c ∷ strncpy dst (if c == 0 then [] else src) n

-- `ftruncate`: cut, or filled with zeros
pub resize : ℕ → List ℕ → List ℕ
resize zero mem = []
resize (suc n) [] = 0 ∷ resize n []
resize (suc n) (b ∷ mem) = b ∷ resize n mem

abbrev pub created : Shm → List ℕ
created none = []
created (some mem) = mem

abbrev pub is_empty : List ℕ → Bool
is_empty [] = true
is_empty (b ∷ bs) = false

-- `main` of encrypt_writer.c: its return value, and the object.
pub encrypt_main : Os → List ℕ → Shm → ℕ × Shm
unfolding read_line encrypt_loop strncpy resize
encrypt_main os input shm =
    let line = read_line (shm_size - 1) input in
    if is_empty line
    then (1, shm)
    else (let buf = encrypt_loop (line ++ 0 ∷ []) in
        if not os.opens
        then (1, shm)
        else if not os.truncates
        then (1, some (created shm))
        else if not os.maps
        then (1, some (resize shm_size (created shm)))
        else (0, some (strncpy (replicate shm_size 0) buf (shm_size - 1))))

-- How decrypt_writer.c ends: an error of a system call, a write behind the end of `buf` (what
-- follows is undefined), or `buf` as it is printed before and after the shift.
pub data Outcome : Type 0 where
  failed : Outcome
  out_of_bounds : Outcome
  printed : List ℕ → List ℕ → Outcome

-- The `while`, with `n` for `SHM_SIZE - 1 - i` and the memory from `i` on.
pub copy_text : ℕ → List ℕ → List ℕ
copy_text zero mem = []
copy_text (suc n) [] = []
copy_text (suc n) (c ∷ mem) =
    if c == 0 then [] else (if c == newline then [] else c ∷ copy_text n mem)

-- `if (buf[j] != '\n') buf[j] -= 3`
pub decrypt_byte : ℕ → ℕ
decrypt_byte b = if b == newline then b else (b + 256 - 3) % 256

-- The newline is stored at index `i`, the terminator at the index behind it.
pub decrypt_text : List ℕ → Outcome
unfolding decrypt_byte
decrypt_text text =
    let buf = if ltb (length text) shm_size then text ++ newline ∷ [] else text in
    if ltb (length buf) shm_size then printed buf (map decrypt_byte buf) else out_of_bounds

-- `main` of decrypt_writer.c; `SHM_SIZE` bytes of the object are cleared, only if the end is reached.
pub decrypt_main : Os → Shm → Outcome × Shm
unfolding copy_text decrypt_text
decrypt_main os none = (failed, none)
decrypt_main os (some mem) =
    if not (os.opens && os.maps)
    then (failed, some mem)
    else (elim (decrypt_text (copy_text (shm_size - 1) mem)) [
      | failed ↦ (failed, some mem)
      | out_of_bounds ↦ (out_of_bounds, some mem)
      | printed encrypted decrypted ↦
          (printed encrypted decrypted, some (replicate shm_size 0 ++ drop shm_size mem))
    ])
