-- ===== src/Common/Hex.antt =====
-- Numbers of 64 bits in hexadecimal: `printf` and `sscanf` with "%lx", which PRIxPTR and SCNxPTR are.
pub mod RoundTrip
use ciic.Common.Tests.{ltb, leb, ◌==◌, if◌then◌else◌}
use ciic.Common.Text.{skip_spaces, is_digit}
use Prim.Native.Nat.{ℕ, zero, suc, ◌+◌, ◌-◌, ◌*◌, ◌/◌, ◌%◌, ◌^◌, min}
use mathlib.Core.Bool.{Bool, ◌&&◌, ◌||◌}
use mathlib.Core.Option.{Option, none, some}
use mathlib.Core.List.{List, [], ◌∷◌}

abbrev pub hex_digit : ℕ → ℕ
hex_digit d = if ltb d 10 then 48 + d else 87 + d

-- The digits of a number of `fuel + 1` digits at most, in front of `out`.
unfoldable pub hex_from : ℕ → ℕ → List ℕ → List ℕ
hex_from zero n out = hex_digit (n % 16) ∷ out
hex_from (suc fuel) n out =
    let rest = hex_from fuel (n / 16) (hex_digit (n % 16) ∷ out) in
    if ltb n 16 then hex_digit n ∷ out else rest

unfoldable pub print_hex : ℕ → List ℕ
unfolding hex_from
print_hex n = hex_from 15 n []

abbrev pub is_hex : ℕ → Bool
is_hex c = is_digit c || (leb 97 c && leb c 102) || (leb 65 c && leb c 70)

abbrev pub hex_value : ℕ → ℕ
hex_value c = if is_digit c then c - 48 else if leb 97 c then c - 87 else c - 55

unfoldable pub read_hex : ℕ → List ℕ → ℕ × List ℕ
read_hex n [] = (n, [])
read_hex n (c ∷ cs) =
    let rest = read_hex (n * 16 + hex_value c) cs in if is_hex c then rest else (n, c ∷ cs)

-- One digit at least.
unfoldable pub scan_digits : List ℕ → Option (ℕ × List ℕ)
unfolding read_hex
scan_digits [] = none
scan_digits (c ∷ cs) = let found = read_hex 0 (c ∷ cs) in if is_hex c then some found else none

-- Behind the sign: "0x" may stand in front.
unfoldable pub scan_prefix : List ℕ → Option (ℕ × List ℕ)
unfolding scan_digits
scan_prefix (c ∷ d ∷ cs) =
    if c == b'0' && (d == b'x' || d == b'X') then scan_digits cs else scan_digits (c ∷ d ∷ cs)
scan_prefix cs = scan_digits cs

-- What `strtoul` gives for a number that does not fit, and for one behind a minus sign.
abbrev pub saturate : Option (ℕ × List ℕ) → Option (ℕ × List ℕ)
saturate none = none
saturate (some (n, rest)) = some (min n (2 ^ 64 - 1), rest)

abbrev pub negated : Option (ℕ × List ℕ) → Option (ℕ × List ℕ)
negated none = none
negated (some (n, rest)) = some (if ltb n (2 ^ 64) then (2 ^ 64 - n) % 2 ^ 64 else 2 ^ 64 - 1, rest)

unfoldable pub scan_sign : List ℕ → Option (ℕ × List ℕ)
unfolding scan_prefix
scan_sign [] = none
scan_sign (c ∷ cs) =
    if c == b'-'
    then negated (scan_prefix cs)
    else if c == b'+'
    then saturate (scan_prefix cs)
    else saturate (scan_prefix (c ∷ cs))

unfoldable pub scan_hex : List ℕ → Option (ℕ × List ℕ)
unfolding skip_spaces scan_sign
scan_hex cs = scan_sign (skip_spaces cs)
