-- ===== src/Capitals/Letters.antt =====
-- What the two functions ModifyArray do to a text.
use mathlib.Core.Option
use ciic.Common.{
  ℕ, zero, suc, ◌+◌, ◌<◌, ◌≤◌, ◌≡◌, refl, some, List, [], ◌∷◌, ◌++◌, map, length, arith, ap, ap₂,
  sym, ◌∙◌, append_assoc, All, All-append, get_or-append, set-append, length-snoc, length-append,
}
use ciic.Common.Text.{line_feed}
use ciic.Common.Text.{shown}
use ciic.Common.Text.Strings.{NotZero, shown-append}
use ciic.Common.Lines.{NotFeed, fgets_all-line}
use ciic.Capitals.{
  toupper, modify_from, modify_array, strlen, modify_every_second_from, modify_every_second,
  on_line, main,
}

modify_from_lem :
    (fuel : ℕ) (pre text rest : List ℕ)
    → length text < fuel
    → All NotZero text
    → modify_from fuel (length pre) (pre ++ (text ++ 0 ∷ rest))
      ≡ some (pre ++ (map toupper text ++ 0 ∷ rest))
unfolding modify_from
modify_from_lem zero pre text rest h z = absurd (omega (arith, h))
modify_from_lem (suc fuel) pre [] rest h z = ground (arith, get_or-append pre rest 0 0)
modify_from_lem (suc fuel) pre (c ∷ text) rest h z = ground (
  arith,
  z,
  get_or-append pre (text ++ 0 ∷ rest) c 0,
  set-append pre (text ++ 0 ∷ rest) c (toupper c),
  length-snoc pre (toupper c),
  append_assoc pre (toupper c ∷ []) (map toupper text ++ 0 ∷ rest),
  modify_from_lem fuel (pre ++ toupper c ∷ []) text rest (omega (arith, h)) z.1,
)

-- A text in an array, without a zero before its end, becomes the text in capitals; the bytes behind it
-- stay.
pub modify_array-capitals :
    (text rest : List ℕ)
    → All NotZero text
    → modify_array (text ++ 0 ∷ rest) ≡ some (map toupper text ++ 0 ∷ rest)
unfolding modify_array
modify_array-capitals text rest z =
    modify_from_lem (suc (length (text ++ 0 ∷ rest))) [] text rest
      (omega (arith, length-append text (0 ∷ rest))) z

strlen-append : (text rest : List ℕ) → All NotZero text → strlen (text ++ 0 ∷ rest) ≡ length text
unfolding strlen
strlen-append [] rest z = refl
strlen-append (c ∷ text) rest z = ground (arith, z.0, strlen-append text rest z.1)

-- Every second byte in capitals, from the first on
unfoldable pub alternate : List ℕ → List ℕ
alternate [] = []
alternate (c ∷ []) = toupper c ∷ []
alternate (c ∷ e ∷ cs) = toupper c ∷ e ∷ alternate cs

toupper-NotZero : (c : ℕ) → NotZero c → NotZero (toupper c)
toupper-NotZero c h = ground (arith, h)

-- At the end of the text the loop ends, also one byte behind it.
second_end :
    (fuel i : ℕ) (text rest : List ℕ)
    → All NotZero text
    → length text ≤ i
    → modify_every_second_from (suc fuel) i (text ++ 0 ∷ rest) ≡ some (text ++ 0 ∷ rest)
unfolding modify_every_second_from
second_end fuel i text rest z h = ground (arith, h, strlen-append text rest z)

second_round :
    (fuel : ℕ) (pre text rest : List ℕ) (c : ℕ)
    → All NotZero pre
    → All NotZero (c ∷ text)
    → modify_every_second_from (suc fuel) (length pre) (pre ++ (c ∷ text ++ 0 ∷ rest))
      ≡ modify_every_second_from fuel
          (length pre + 2)
          ((pre ++ toupper c ∷ []) ++ (text ++ 0 ∷ rest))
unfolding modify_every_second_from
second_round fuel pre text rest c zp z = ground (
  arith,
  get_or-append pre (text ++ 0 ∷ rest) c 0,
  set-append pre (text ++ 0 ∷ rest) c (toupper c),
  append_assoc pre (c ∷ text) (0 ∷ rest),
  strlen-append (pre ++ c ∷ text) rest (All-append NotZero pre (c ∷ text) zp z),
  length-append pre (c ∷ text),
)

second_lem :
    (fuel : ℕ) (pre text rest : List ℕ)
    → length text < fuel
    → All NotZero pre
    → All NotZero text
    → modify_every_second_from fuel (length pre) (pre ++ (text ++ 0 ∷ rest))
      ≡ some (pre ++ (alternate text ++ 0 ∷ rest))
unfolding alternate
second_lem zero pre text rest h zp z = absurd (omega (arith, h))
second_lem (suc fuel) pre [] rest h zp z = second_end fuel (length pre) pre rest zp (omega arith)
second_lem (suc zero) pre (c ∷ text) rest h zp z = absurd (omega (arith, h))
second_lem (suc (suc fuel)) pre (c ∷ []) rest h zp z =
    second_round (suc fuel) pre [] rest c zp z
    ∙ second_end fuel (length pre + 2) (pre ++ toupper c ∷ []) rest
        (All-append NotZero pre (toupper c ∷ []) zp (toupper-NotZero c z.0, tt))
        (omega (arith, length-snoc pre (toupper c)))
    ∙ ap some (append_assoc pre (toupper c ∷ []) (0 ∷ rest))
second_lem (suc fuel) pre (c ∷ e ∷ text) rest h zp z =
    let front = pre ++ toupper c ∷ e ∷ [] in
    second_round fuel pre (e ∷ text) rest c zp z
    ∙ ap₂ (modify_every_second_from fuel) (omega (arith, length-append pre (toupper c ∷ e ∷ []))) (
        append_assoc pre (toupper c ∷ []) (e ∷ text ++ 0 ∷ rest)
        ∙ sym (append_assoc pre (toupper c ∷ e ∷ []) (text ++ 0 ∷ rest)))
    ∙ second_lem fuel front text rest (omega (arith, h))
        (All-append NotZero pre (toupper c ∷ e ∷ []) zp (toupper-NotZero c z.0, (z.1.0, tt))) z.1.1
    ∙ ap some (append_assoc pre (toupper c ∷ e ∷ []) (alternate text ++ 0 ∷ rest))

-- The other ModifyArray makes every second byte of such a text a capital, from the first on, although it
-- looks at the length of the text anew in each round; the bytes behind the text stay.
modify_every_second-alternate :
    (text rest : List ℕ)
    → All NotZero text
    → modify_every_second (text ++ 0 ∷ rest) ≡ some (alternate text ++ 0 ∷ rest)
unfolding modify_every_second
modify_every_second-alternate text rest z =
    second_lem (suc (length (text ++ 0 ∷ rest))) [] text rest
      (omega (arith, length-append text (0 ∷ rest))) tt z

toupper-All : (text : List ℕ) → All NotZero text → All NotZero (map toupper text)
toupper-All [] z = tt
toupper-All (c ∷ text) z = (toupper-NotZero c z.0, toupper-All text z.1)

-- The input starts with a line of 98 bytes at most, without a zero. Then main prints this line in
-- capitals, with its line feed, whatever the array held before.
pub main-capitals :
    (rest body more : List ℕ)
    → All NotFeed body
    → All NotZero body
    → length body + 2 ≤ 100
    → main rest (body ++ line_feed ∷ more) ≡ some (map toupper (body ++ line_feed ∷ []))
unfolding main on_line
main-capitals rest body more feed z fits =
    let line = body ++ line_feed ∷ [] in
    let line_z : All NotZero line = All-append NotZero body (line_feed ∷ []) z (refl, tt) in
    ap (on_line rest) (fgets_all-line 100 body more feed fits)
    ∙ ap (Option.map shown) (modify_array-capitals line rest line_z)
    ∙ ap some (shown-append (map toupper line) rest (toupper-All line line_z))
