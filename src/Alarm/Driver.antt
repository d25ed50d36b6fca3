-- ===== src/Alarm/Driver.antt =====
-- driver.c of the first directory below Bono/: its main, with the answers of fork, execlp and kill.
use ciic.Common.{
  ℕ, zero, suc, ◌*◌, ◌%◌, ◌^◌, ◌≡◌, refl, Bool, true, false, ◌||◌, List, [], ◌∷◌, arith, Option,
  none, some, if◌then◌else◌, not, ltb, ◌⊎◌, inl, inr,
}
use ciic.Common.Int.{ℤ, pos, negsuc, leb_ℤ}

-- `strtol` with base 10 and an `end`: the value, and the text behind the number
abbrev pub Strtol : Type 0
Strtol = List ℕ → ℤ × List ℕ

-- Whether a text is empty: its first byte is the zero at its end.
abbrev pub is_empty : List ℕ → Bool
is_empty [] = true
is_empty (c ∷ cs) = false

-- The argument is no interval for the program.
unfoldable pub invalid : Strtol → List ℕ → Bool
invalid strtol argument =
    let (interval_ms, rest) = strtol argument in
    is_empty argument || (not (is_empty rest) || leb_ℤ interval_ms (pos 0))

-- What `fork` returns: an error, or in which of the two processes
pub data Forked : Type 0 where
  fork_error : Forked
  in_child : Forked
  in_parent : Forked

-- `interval_us`, a `useconds_t` of 32 bits; `none` where the product is no `long`, which a product of
-- positive numbers exceeds above 2^63 - 1.
unfoldable pub interval_us : ℤ → Option ℕ
interval_us (pos n) = if ltb (n * 1000) (2 ^ 63) then some (n * 1000 % 2 ^ 32) else none
interval_us (negsuc n) = none

-- The `for (;;)` on what the calls of `kill` return one after the other: how many signals were sent,
-- and whether the loop has ended.
unfoldable pub kill_loop : List Bool → ℕ × Bool
kill_loop [] = (0, false)
kill_loop (true ∷ kills) = let (sent, ended) = kill_loop kills in (suc sent, ended)
kill_loop (false ∷ kills) = (0, true)

-- How far the program is: it has ended with this exit code, is now the plotter, is still in the loop,
-- after `sent` signals, or has ended there; or its interval overflowed.
pub data Outcome : Type 0 where
  exits : (code : ℤ) → Outcome
  plotter : Outcome
  sleeping : (useconds sent : ℕ) → Outcome
  ended : (useconds sent : ℕ) (code : ℤ) → Outcome
  overflow : Outcome

unfoldable pub on_interval : List Bool → Option ℕ → Outcome
unfolding kill_loop
on_interval kills none = overflow
on_interval kills (some us) =
    let (sent, over) = kill_loop kills in if over then ended us sent (pos 0) else sleeping us sent

unfoldable pub on_fork : Bool → List Bool → ℤ → Forked → Outcome
unfolding interval_us on_interval
on_fork exec kills interval_ms fork_error = exits (pos 1)
on_fork exec kills interval_ms in_child = if exec then plotter else exits (pos 127)
on_fork exec kills interval_ms in_parent = on_interval kills (interval_us interval_ms)

unfoldable pub main : Strtol → Forked → Bool → List Bool → List (List ℕ) → Outcome
unfolding invalid on_fork
main strtol forked exec kills (program ∷ argument ∷ []) =
    if invalid strtol argument then exits (pos 1) else on_fork exec kills (strtol argument).0 forked
main strtol forked exec kills argv = exits (pos 1)

valid_lem :
    (strtol : Strtol) (argument : List ℕ) (z : ℤ) (rest : List ℕ)
    → strtol argument ≡ (z, rest)
    → (invalid strtol argument ≡ true)
      ⊎ (n : ℕ) × (is_empty argument ≡ false) × (strtol argument ≡ (pos (suc n), []))
unfolding invalid
valid_lem strtol argument (negsuc n) rest p = inl (ground (arith, p))
valid_lem strtol argument (pos zero) rest p = inl (ground (arith, p))
valid_lem strtol argument (pos (suc n)) (c ∷ rest) p = inl (ground (arith, p))
valid_lem strtol [] (pos (suc n)) [] p = inl (ground (arith, p))
valid_lem strtol (a ∷ argument) (pos (suc n)) [] p = inr (n, refl, p)

-- The program exits with 1, unless it has one argument, which is not empty and which `strtol` takes for a
-- positive number with nothing behind it.
pub main_refuses :
    (strtol : Strtol) (forked : Forked) (exec : Bool) (kills : List Bool) (argv : List (List ℕ))
    → (main strtol forked exec kills argv ≡ exits (pos 1))
      ⊎ (program : List ℕ) × (argument : List ℕ) × (n : ℕ) × (argv ≡ program ∷ argument ∷ [])
        × (is_empty argument ≡ false)
        × (strtol argument ≡ (pos (suc n), []))
unfolding main
main_refuses strtol forked exec kills [] = inl refl
main_refuses strtol forked exec kills (p ∷ []) = inl refl
main_refuses strtol forked exec kills (p ∷ argument ∷ []) =
    elim (valid_lem strtol argument (strtol argument).0 (strtol argument).1 refl) [
      | inl h ↦ inl (ground (arith, h))
      | inr (n, some_text, h) ↦ inr (p, argument, n, refl, some_text, h)
    ]
main_refuses strtol forked exec kills (p ∷ argument ∷ x ∷ rest) = inl refl
