-- ===== src/AirControl/Progress.antt =====
-- No deadlock in P1/PP1/air_control_c/src/functions.c: what each controller can do next.
use ciic.Common.{
  ℕ, suc, zero, ◌<◌, ◌≡◌, ◌≢◌, refl, Option, none, some, arith, ◌⊎◌, inl, inr, Option-cases, dec_lt,
  ℕ_discrete,
}
use ciic.Common.Int.{ℤ, pos, negsuc, ◌≤ℤ◌}
use ciic.AirControl.{
  Tower, total_limit, Runway, Pc, check_total, check_planes, try_first, try_second, want_state,
  load_planes, store_planes, bump_takeoffs, bump_total, test_five, reset, unlock_state, leaving,
  finish, done, Move, System, Reach,
}
use ciic.AirControl.Safety.{Reach-Inv}

abbrev pub Next : ℕ → Tower → Pc → Type 0
Next i t p = (t' : Tower) × (p' : Pc) × Move i t p t' p'

pub some-ne_none : (j : ℕ) → some j ≢ none
some-ne_none j e = cc

abbrev pub lock_cases : (o : Option ℕ) → (o ≡ none) ⊎ (o ≢ none)
lock_cases none = inl refl
lock_cases (some j) = inr (some-ne_none j)

abbrev planes_cases : (z : ℤ) → (z ≤ℤ pos 0) ⊎ (pos 1 ≤ℤ z)
planes_cases (pos zero) = inl (omega arith)
planes_cases (pos (suc k)) = inr (omega arith)
planes_cases (negsuc k) = inl (omega arith)

-- Only the wait for `state_lock` may hold up a controller that is not done.
unfoldable pub next_move :
    (i : ℕ) (t : Tower) (p : Pc)
    → p ≢ done
    → ((r : Runway) → p ≡ want_state r → t.state_lock ≡ none)
    → Next i t p
unfolding dec_lt ℕ_discrete
next_move i t check_total ne free = elim (dec_lt t.total_takeoffs total_limit) [
  | yes h ↦ (_, _, Move.below_limit h)
  | no h ↦ (_, _, Move.at_limit (omega arith))
]
next_move i t check_planes ne free = elim (planes_cases t.planes) [
  | inl h ↦ (_, _, Move.no_planes h)
  | inr h ↦ (_, _, Move.some_planes h)
]
next_move i t try_first ne free = elim (lock_cases t.runway1_lock) [
  | inl h ↦ (_, _, Move.take_first h)
  | inr h ↦ (_, _, Move.busy_first h)
]
next_move i t try_second ne free = elim (lock_cases t.runway2_lock) [
  | inl h ↦ (_, _, Move.take_second h)
  | inr h ↦ (_, _, Move.busy_second h)
]
next_move i t (want_state r) ne free = (_, _, Move.lock_state (free r refl))
next_move i t (load_planes r) ne free = (_, _, Move.load)
next_move i t (store_planes r v) ne free = (_, _, Move.store)
next_move i t (bump_takeoffs r) ne free = (_, _, Move.count_takeoff)
next_move i t (bump_total r) ne free = (_, _, Move.count_total)
next_move i t (test_five r) ne free = elim (ℕ_discrete t.takeoffs 5) [
  | yes h ↦ (_, _, Move.five h)
  | no h ↦ (_, _, Move.not_five h)
]
next_move i t (reset r) ne free = (_, _, Move.clear)
next_move i t (unlock_state r) ne free = (_, _, Move.unlock)
next_move i t (leaving r) ne free = (_, _, Move.leave)
next_move i t finish ne free = elim (dec_lt t.total_takeoffs total_limit) [
  | yes h ↦ (_, _, Move.quiet h)
  | no h ↦ (_, _, Move.terminate (omega arith))
]
next_move i t done ne free = absurd (ne refl)

-- In a reachable state with a controller that is not done, some controller can move on, unless it
-- waits for its signal handler.
pub no_deadlock :
    {n : ℕ} {s : System}
    → Reach n s
    → (i : ℕ) → i < n
    → s.pc i ≢ done
    → (j : ℕ) × (j < n) × Next j s.tower (s.pc j)
no_deadlock {n} {s} reach i lt ne = elim (Option-cases s.tower.state_lock) [
  | inl free ↦ (i, lt, next_move i s.tower (s.pc i) ne (λ r e. free))
  | inr (j, owned) ↦
      let (inside, known) = (Reach-Inv reach).state_owned j owned in
      (j, known, next_move j s.tower (s.pc j) (λ e. ground arith) (λ r e. absurd (ground arith)))
]
