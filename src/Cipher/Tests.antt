-- ===== src/Cipher/Tests.antt =====
-- Runs of encrypt_writer.c and decrypt_writer.c, below Bono/, and their theorems at such inputs.
use ciic.Common.{ℕ, zero, suc, ◌≡◌, refl, none, some, List, [], ◌∷◌, arith, replicate}
use ciic.Cipher.{shm_size, newline, printed, failed, encrypt_main, decrypt_main, read_line}
use ciic.Cipher.Recovery.{all_well, AreBytes, sent, decrypt_main-encrypt_main}

abbrev phrase : List ℕ
phrase = b'x' ∷ b'y' ∷ b'z' ∷ newline ∷ b'?' ∷ []

-- 1023 letters and no newline
abbrev long_phrase : List ℕ
long_phrase = replicate 1023 b'a'

-- Byte 7 is sent as a newline, and ends the text.
bell :
    (decrypt_main all_well (encrypt_main all_well (b'a' ∷ 7 ∷ b'b' ∷ newline ∷ []) none).1).0
    ≡ printed (b'd' ∷ newline ∷ []) (b'a' ∷ newline ∷ [])
unfolding encrypt_main decrypt_main
bell = refl

-- The reader alone finds no memory.
reader_first : decrypt_main all_well none ≡ (failed, none)
unfolding decrypt_main
reader_first = refl

decrypt_main-encrypt_main_example : decrypt_main all_well (encrypt_main all_well phrase none).1 ≡ (
  printed (b'{' ∷ b'|' ∷ b'}' ∷ newline ∷ []) (b'x' ∷ b'y' ∷ b'z' ∷ newline ∷ []),
  some (replicate shm_size 0),
)
unfolding read_line sent
decrypt_main-encrypt_main_example =
    decrypt_main-encrypt_main phrase none (omega arith) (cc) (omega arith)

letters-AreBytes : (n : ℕ) → AreBytes (replicate n b'a')
letters-AreBytes zero = tt
letters-AreBytes (suc n) = (omega arith, letters-AreBytes n)
