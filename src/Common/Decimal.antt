-- ===== src/Common/Decimal.antt =====
-- Numbers of 64 bits in decimal: `printf` and `scanf` with "%lld", and `atoll`.
use ciic.Common.Tests.{ltb, if◌then◌else◌}
use ciic.Common.Text.{
  number, mismatch, end_of_file, is_digit, read_digits, scan_digits, scan_sign, scan_int, negate,
  skip_spaces,
}
use ciic.Common.Int.{ℤ, pos, negsuc}
use ciic.Common.Lists.{length}
use Prim.Native.Nat.{ℕ, zero, suc, ◌+◌, ◌-◌, ◌/◌, ◌%◌, ◌^◌, ◌<◌, ◌≤◌}
use mathlib.Core.Bool.{false}
use mathlib.Core.Path.{◌≡◌, refl, ap, sym, ◌∙◌}
use mathlib.Core.List.{List, [], ◌∷◌, ◌++◌}
use native.Mathlib.Omega.{arith}
use native.Mathlib.Decide.{dec_lt}

-- The digits of a number of `fuel + 1` digits at most, in front of `out`
unfoldable pub digits_from : ℕ → ℕ → List ℕ → List ℕ
digits_from zero n out = (48 + n % 10) ∷ out
digits_from (suc fuel) n out =
    let rest = digits_from fuel (n / 10) ((48 + n % 10) ∷ out) in
    if ltb n 10 then (48 + n) ∷ out else rest

unfoldable pub print_int : ℤ → List ℕ
unfolding digits_from
print_int (pos n) = digits_from 18 n []
print_int (negsuc n) = b'-' ∷ digits_from 18 (n + 1) []

-- The range of a `long long`, and the number that `strtoll` gives for one outside it
abbrev pub clamp : ℤ → ℤ
clamp (pos n) = if ltb n (2 ^ 63) then pos n else pos (2 ^ 63 - 1)
clamp (negsuc n) = if ltb n (2 ^ 63) then negsuc n else negsuc (2 ^ 63 - 1)

-- `atoll`
unfoldable pub atoll : List ℕ → ℤ
unfolding scan_int
atoll cs = elim (scan_int cs) [
  | number z rest ↦ clamp z
  | mismatch rest ↦ pos 0
  | end_of_file ↦ pos 0
]

digits_from-append :
    (fuel n : ℕ) (out rest : List ℕ)
    → digits_from fuel n out ++ rest ≡ digits_from fuel n (out ++ rest)
unfolding digits_from
digits_from-append zero n out rest = refl
digits_from-append (suc fuel) n out rest =
    ground (arith, digits_from-append fuel (n / 10) ((48 + n % 10) ∷ out) rest)

-- The digits of `n` take a reader to `n`.
read_digits-digits_from :
    (fuel n : ℕ) (out : List ℕ)
    → n < 10 ^ suc fuel
    → read_digits 0 (digits_from fuel n out) ≡ read_digits n out
unfolding read_digits digits_from
read_digits-digits_from zero n out h = ground arith
read_digits-digits_from (suc fuel) n out h =
    ground (arith, read_digits-digits_from fuel (n / 10) ((48 + n % 10) ∷ out))

length-digits_from :
    (fuel n : ℕ) (out : List ℕ) → length (digits_from fuel n out) ≤ suc fuel + length out
unfolding digits_from
length-digits_from zero n out = omega arith
length-digits_from (suc fuel) n out =
    ground (arith, length-digits_from fuel (n / 10) ((48 + n % 10) ∷ out))

digits_from_head :
    (fuel n : ℕ) (out : List ℕ)
    → (d : ℕ) × (t : List ℕ) × (d < 10) × (digits_from fuel n out ≡ (48 + d) ∷ t)
unfolding digits_from
digits_from_head zero n out = (n % 10, out, omega arith, refl)
digits_from_head (suc fuel) n out = elim (dec_lt n 10) [
  | yes small ↦ (n, out, small, ground arith)
  | no large ↦
      let (d, t, low, p) = digits_from_head fuel (n / 10) ((48 + n % 10) ∷ out) in
      (d, t, low, ground arith)
]

-- A print has twenty bytes at most.
pub length-print_int : (z : ℤ) → length (print_int z) ≤ 20
unfolding print_int
length-print_int (pos n) = omega (arith, length-digits_from 18 n [])
length-print_int (negsuc n) = omega (arith, length-digits_from 18 (n + 1) [])

scan_digits_lem :
    (sign : ℕ → ℤ) (n c : ℕ) (rest : List ℕ)
    → n < 10 ^ 19
    → is_digit c ≡ false
    → scan_digits sign (digits_from 18 n [] ++ c ∷ rest) ≡ number (sign n) (c ∷ rest)
unfolding scan_digits read_digits
scan_digits_lem sign n c rest fits stop =
    let (d, t, low, p) = digits_from_head 18 n (c ∷ rest) in
    ground (
      arith,
      p,
      low,
      stop,
      digits_from-append 18 n [] (c ∷ rest),
      read_digits-digits_from 18 n (c ∷ rest) fits,
    )

clamp_pos : (n : ℕ) → clamp (pos n) ≡ pos n → n < 2 ^ 63
clamp_pos n h = ground (arith, h)

clamp_negsuc : (n : ℕ) → clamp (negsuc n) ≡ negsuc n → n < 2 ^ 63
clamp_negsuc n h = ground (arith, h)

pub clamp_twice : (z : ℤ) → clamp (clamp z) ≡ clamp z
clamp_twice (pos n) = ground arith
clamp_twice (negsuc n) = ground arith

scan_int_first :
    (d : ℕ) (t : List ℕ) → d < 10 → scan_int ((48 + d) ∷ t) ≡ scan_digits pos ((48 + d) ∷ t)
unfolding scan_int scan_sign skip_spaces
scan_int_first d t low = ground (arith, low)

-- `scanf` takes a print in front of a byte that is no digit for its number.
pub scan_int-print_int :
    (z : ℤ) (c : ℕ) (rest : List ℕ)
    → clamp z ≡ z
    → is_digit c ≡ false
    → scan_int (print_int z ++ c ∷ rest) ≡ number z (c ∷ rest)
unfolding print_int scan_int scan_sign skip_spaces
scan_int-print_int (pos n) c rest fits stop =
    let (d, t, low, p) = digits_from_head 18 n (c ∷ rest) in
    let same : digits_from 18 n [] ++ c ∷ rest ≡ (48 + d) ∷ t =
      digits_from-append 18 n [] (c ∷ rest) ∙ p in
    ap scan_int same
    ∙ scan_int_first d t low
    ∙ ap (scan_digits pos) (sym same)
    ∙ scan_digits_lem pos n c rest (omega (arith, clamp_pos n fits)) stop
scan_int-print_int (negsuc n) c rest fits stop =
    scan_digits_lem negate (n + 1) c rest (omega (arith, clamp_negsuc n fits)) stop
    ∙ ap (λ z. number z (c ∷ rest)) (ground arith)

-- `atoll` takes the print of a number that fits into a `long long` back to it, in front of a byte that
-- is no digit.
pub atoll-print_int :
    (z : ℤ) (c : ℕ) (rest : List ℕ)
    → clamp z ≡ z
    → is_digit c ≡ false
    → atoll (print_int z ++ c ∷ rest) ≡ z
unfolding atoll
atoll-print_int z c rest fits stop = rw (scan_int-print_int z c rest fits stop, atoll) fits
