-- ===== src/Common/Hex/RoundTrip.antt =====
-- Reading back what `printf` with "%lx" writes.
use ciic.Common.{
  ℕ, zero, suc, ◌/◌, ◌%◌, ◌^◌, ◌<◌, ◌≤◌, ◌≡◌, refl, true, false, some, List, [], ◌∷◌, ◌++◌, arith,
  ◌≢◌, dec_lt,
}
use ciic.Common.Text.{skip_spaces}
use ciic.Common.Hex.{
  hex_digit, hex_from, print_hex, is_hex, hex_value, read_hex, scan_digits, scan_prefix, saturate,
  scan_sign, scan_hex,
}

hex_value-hex_digit :
    (d : ℕ) → d < 16 → (hex_value (hex_digit d) ≡ d) × (is_hex (hex_digit d) ≡ true)
hex_value-hex_digit d h = ground arith

-- The digits of `n` take a reader to `n`, if what follows is read from there.
read_hex-hex_from :
    (fuel n : ℕ) (out : List ℕ)
    → n < 16 ^ suc fuel
    → read_hex 0 (hex_from fuel n out) ≡ read_hex n out
unfolding read_hex hex_from
read_hex-hex_from zero n out h = ground (arith, hex_value-hex_digit n)
read_hex-hex_from (suc fuel) n out h = ground (
  arith,
  hex_value-hex_digit n,
  hex_value-hex_digit (n % 16),
  read_hex-hex_from fuel (n / 16) (hex_digit (n % 16) ∷ out),
)

hex_from-append :
    (fuel n : ℕ) (out rest : List ℕ) → hex_from fuel n out ++ rest ≡ hex_from fuel n (out ++ rest)
unfolding hex_from
hex_from-append zero n out rest = refl
hex_from-append (suc fuel) n out rest =
    ground (arith, hex_from-append fuel (n / 16) (hex_digit (n % 16) ∷ out) rest)

-- The first digit is zero only for the number zero.
hex_from_head :
    (fuel n : ℕ) (out : List ℕ)
    → 1 ≤ n
    → n < 16 ^ suc fuel
    → (d : ℕ) × (t : List ℕ) × (1 ≤ d) × (d < 16) × (hex_from fuel n out ≡ hex_digit d ∷ t)
unfolding hex_from
hex_from_head zero n out pos fits = (n % 16, out, omega arith, omega arith, refl)
hex_from_head (suc fuel) n out pos fits = elim (dec_lt n 16) [
  | yes small ↦ (n, out, pos, small, ground arith)
  | no large ↦
      let (d, t, low, high, p) =
        hex_from_head fuel (n / 16) (hex_digit (n % 16) ∷ out) (omega arith) (omega arith) in
      (d, t, low, high, ground arith)
]

scan_hex_zero :
    (c : ℕ) (rest : List ℕ)
    → is_hex c ≡ false
    → c ≢ b'x'
    → c ≢ b'X'
    → scan_hex (b'0' ∷ c ∷ rest) ≡ some (0, c ∷ rest)
unfolding scan_hex skip_spaces scan_sign scan_prefix scan_digits read_hex
scan_hex_zero c rest h p q = ground arith

scan_hex_first :
    (d : ℕ) (t : List ℕ)
    → 1 ≤ d
    → d < 16
    → scan_hex (hex_digit d ∷ t) ≡ saturate (some (read_hex 0 (hex_digit d ∷ t)))
unfolding scan_hex skip_spaces scan_sign scan_prefix scan_digits
scan_hex_first d [] low high = ground arith
scan_hex_first d (c ∷ t) low high = ground arith

-- A number of 64 bits is read back from its print, in front of a byte that ends it.
pub scan_hex-print_hex :
    (n c : ℕ) (rest : List ℕ)
    → n < 2 ^ 64
    → is_hex c ≡ false
    → c ≢ b'x'
    → c ≢ b'X'
    → scan_hex (print_hex n ++ c ∷ rest) ≡ some (n, c ∷ rest)
unfolding print_hex hex_from read_hex
scan_hex-print_hex zero c rest fits h p q = scan_hex_zero c rest h p q
scan_hex-print_hex (suc n) c rest fits h p q =
    let (d, t, low, high, e) = hex_from_head 15 (suc n) (c ∷ rest) (omega arith) fits in
    ground (
      arith,
      hex_from-append 15 (suc n) [] (c ∷ rest),
      e,
      scan_hex_first d t low high,
      read_hex-hex_from 15 (suc n) (c ∷ rest) fits,
    )
