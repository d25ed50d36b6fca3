-- ===== src/Common/Text.antt =====
-- Text as bytes, and what the programs use of the C library on it: `fgets`, `strcspn`, `sscanf` with
-- "%ns", `strcmp`.
pub mod Rest
pub mod Strings
use Prim.Native.Char.{code}
use Prim.Native.String.{String}
use ciic.Common.{
  ℕ, zero, suc, ◌+◌, ◌-◌, ◌*◌, Bool, true, false, ◌&&◌, ◌||◌, Option, none, some, List, [], ◌∷◌,
  ◌++◌, ◌==◌, leb, if◌then◌else◌,
}
use ciic.Common.Int.{ℤ, pos, sub_ℕ}

-- The bytes of an ASCII text.
abbrev pub codes : String → List ℕ
codes String.[] = []
codes (String.◌∷◌ c s) = code c ∷ codes s

abbrev pub line_feed : ℕ
line_feed = 10

-- `isspace`
abbrev pub is_space : ℕ → Bool
is_space c = c == 32 || (leb 9 c && leb c 13)

-- `printf` with "%s" of an array
unfoldable pub shown : List ℕ → List ℕ
shown [] = []
shown (c ∷ cs) = if c == 0 then [] else c ∷ shown cs

-- `strcmp(s, t) == 0`
unfoldable pub str_same : List ℕ → List ℕ → Bool
str_same [] [] = true
str_same [] (d ∷ ds) = false
str_same (c ∷ cs) [] = false
str_same (c ∷ cs) (d ∷ ds) = c == d && str_same cs ds

-- What the calls `fgets(line, size + 2, file)` store one after the other: `size + 1` bytes at most, up
-- to and with a line feed; `left` is one less than the room that is left, `line` what is stored.
unfoldable pub fgets_from : ℕ → ℕ → List ℕ → List ℕ → List (List ℕ)
fgets_from size left [] [] = []
fgets_from size left (b ∷ line) [] = (b ∷ line) ∷ []
fgets_from size left line (c ∷ file) = elim (c == line_feed) [
  | true ↦ (line ++ c ∷ []) ∷ fgets_from size size [] file
  | false ↦ elim left [
    | zero ↦ (line ++ c ∷ []) ∷ fgets_from size size [] file
    | suc n ↦ fgets_from size n (line ++ c ∷ []) file
  ]
]

unfoldable pub fgets_all : ℕ → List ℕ → List (List ℕ)
unfolding fgets_from
fgets_all buffer file = fgets_from (buffer - 2) (buffer - 2) [] file

-- `line[strcspn(line, "\n")] = '\0'`: the text ends at the first line feed, or at a zero before it.
unfoldable pub cut_line : List ℕ → List ℕ
cut_line [] = []
cut_line (c ∷ cs) = if c == line_feed || c == 0 then [] else c ∷ cut_line cs

unfoldable pub skip_spaces : List ℕ → List ℕ
skip_spaces [] = []
skip_spaces (c ∷ cs) = if is_space c then skip_spaces cs else c ∷ cs

unfoldable pub word_at : ℕ → List ℕ → List ℕ × List ℕ
word_at zero cs = ([], cs)
word_at (suc n) [] = ([], [])
word_at (suc n) (c ∷ cs) =
    let (word, rest) = word_at n cs in if is_space c then ([], c ∷ cs) else (c ∷ word, rest)

-- `sscanf` with "%ns": a word of `n` bytes at most, and what follows it; `none` at the end of the text.
unfoldable pub scan_word : ℕ → List ℕ → Option (List ℕ × List ℕ)
unfolding skip_spaces word_at
scan_word n cs = elim (skip_spaces cs) [ [] ↦ none | c ∷ rest ↦ some (word_at n (c ∷ rest)) ]

abbrev pub is_digit : ℕ → Bool
is_digit c = leb 48 c && leb c 57

unfoldable pub read_digits : ℕ → List ℕ → ℕ × List ℕ
read_digits n [] = (n, [])
read_digits n (c ∷ cs) =
    let rest = read_digits (n * 10 + (c - 48)) cs in if is_digit c then rest else (n, c ∷ cs)

-- What `scanf` with "%d" finds: a number, something else, or the end of the input; and what follows.
pub data Scanned : Type 0 where
  number : ℤ → List ℕ → Scanned
  mismatch : List ℕ → Scanned
  end_of_file : Scanned

abbrev pub negate : ℕ → ℤ
negate n = sub_ℕ 0 n

-- The digits behind a sign; a sign without a digit is lost.
unfoldable pub scan_digits : (ℕ → ℤ) → List ℕ → Scanned
unfolding read_digits
scan_digits sign [] = mismatch []
scan_digits sign (c ∷ cs) =
    let (n, rest) = read_digits 0 (c ∷ cs) in
    if is_digit c then number (sign n) rest else mismatch (c ∷ cs)

-- The input behind the spaces.
unfoldable pub scan_sign : List ℕ → Scanned
unfolding scan_digits
scan_sign [] = end_of_file
scan_sign (c ∷ cs) =
    if c == b'-'
    then scan_digits negate cs
    else if c == b'+'
    then scan_digits pos cs
    else scan_digits pos (c ∷ cs)

unfoldable pub scan_int : List ℕ → Scanned
unfolding skip_spaces scan_sign
scan_int cs = scan_sign (skip_spaces cs)
