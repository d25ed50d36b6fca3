-- ===== src/Decoder/Keys.antt =====
-- The keys of PP2/decode_c/src/main.c.
use ciic.Common.{ℕ, zero, suc, ◌<◌, ◌≡◌, refl, Bool, true, ◌&&◌, ◌==◌, ==_iff, arith}
use ciic.Decoder.{num_threads, tests, Pixel, decrypt_byte, decrypt}

-- A test of the numbers below `count`, from the first on
unfoldable passes : (ℕ → Bool) → ℕ → Bool
passes test zero = true
passes test (suc count) = passes test count && test count

passes_at : (test : ℕ → Bool) (count b : ℕ) → b < count → passes test count ≡ true → test b ≡ true
unfolding passes
passes_at test zero b below all = absurd (omega arith)
passes_at test (suc count) b below all = ground (arith, passes_at test count b)

abbrev is_undone : ℕ → ℕ → Bool
is_undone id b = decrypt_byte (tests id) (decrypt_byte (tests id) b) == b

-- All keys on all bytes
all_undone : passes (λ id. passes (is_undone id) 256) num_threads ≡ true
unfolding passes decrypt_byte
all_undone = refl

decrypt_byte_twice :
    (id b : ℕ)
    → id < num_threads
    → b < 256
    → decrypt_byte (tests id) (decrypt_byte (tests id) b) ≡ b
decrypt_byte_twice id b known fits =
    let key_passes = passes_at (λ k. passes (is_undone k) 256) num_threads id known all_undone in
    (==_iff _ b).0 (passes_at (is_undone id) 256 b fits key_passes)

decrypt_byte_lt : (key b : ℕ) → decrypt_byte key b < 256
unfolding decrypt_byte
decrypt_byte_lt key b = omega arith

abbrev pub IsPixel : Pixel → Type 0
IsPixel (r, g, b) = (r < 256) × (g < 256) × (b < 256)

-- Decoding with the key of a thread gives bytes, and is its own inverse on bytes, also for the key 934,
-- which does not fit into a byte.
decrypt_twice :
    (id : ℕ) (p : Pixel)
    → id < num_threads
    → IsPixel p
    → IsPixel (decrypt (tests id) p) × (decrypt (tests id) (decrypt (tests id) p) ≡ p)
unfolding decrypt
decrypt_twice id (r, g, b) known (hr, hg, hb) = (
  (decrypt_byte_lt (tests id) r, decrypt_byte_lt (tests id) g, decrypt_byte_lt (tests id) b),
  rw (
    decrypt_byte_twice id r known hr,
    decrypt_byte_twice id g known hg,
    decrypt_byte_twice id b known hb,
  ),
)
