-- ===== src/AirControl/Moves.antt =====
-- A move of controller `i` keeps each field of the invariant.
use ciic.Common.{ℕ, ◌+◌, ◌*◌, ◌≤◌, ◌<◌, ◌≡◌, ◌≢◌, refl, true, none, some, arith}
use ciic.Common.Threads.{update, sum_below, sum_below-update, sum_below-le}
use ciic.AirControl.{
  Tower, total_limit, Runway, first, second, Pc, Move, below_limit, at_limit, take_first,
  take_second, lock_state, five, not_five, terminate, quiet, leave,
}
use ciic.AirControl.Invariant.{runway_of, in_state, pending, behind, ended, Local, runway_lock, Inv}

-- The premise of a move, for the catch-all clauses below.
abbrev Premise : {i : ℕ} {t t' : Tower} {p p' : Pc} → Move i t p t' p' → Type 0
Premise {t} (below_limit _) = t.total_takeoffs < total_limit
Premise {t} (at_limit _) = total_limit ≤ t.total_takeoffs
Premise {t} (take_first _) = t.runway1_lock ≡ none
Premise {t} (take_second _) = t.runway2_lock ≡ none
Premise {t} (lock_state _) = t.state_lock ≡ none
Premise {t} (five _) = t.takeoffs ≡ 5
Premise {t} (not_five _) = t.takeoffs ≢ 5
Premise {t} (terminate _) = total_limit ≤ t.total_takeoffs
Premise {t} (quiet _) = t.total_takeoffs < total_limit
Premise _ = Unit

premise : {i : ℕ} {t t' : Tower} {p p' : Pc} (mv : Move i t p t' p') → Premise mv
premise (below_limit h) = h
premise (at_limit h) = h
premise (take_first h) = h
premise (take_second h) = h
premise (lock_state h) = h
premise (five h) = h
premise (not_five h) = h
premise (terminate h) = h
premise (quiet h) = h
premise _ = tt

module _ {n : ℕ} {t : Tower} {pc : ℕ → Pc} (inv : Inv n t pc) (i : ℕ) where
  open inv use {own_runway, own_state, state_owned, low, places, tally, limit, terms}

  -- Controller `i` goes from `p` to `p'`; a match on the move needs a variable for `pc i`.
  record Mover (p p' : Pc) : Type 0 where
    here : pc i ≡ p
    known : i < n
    place : Local t p
    behinds : behind p + sum_below behind n (update pc i p') ≡ behind p' + sum_below behind n pc
    pendings :
        pending p + sum_below pending n (update pc i p') ≡ pending p' + sum_below pending n pc
    ends : ended p + sum_below ended n (update pc i p') ≡ ended p' + sum_below ended n pc
    room : sum_below pending n (update pc i p') ≤ n

  mover : i < n → (p' : Pc) → Mover (pc i) p'
  mover lt p' = record {
    here = refl;
    known = lt;
    place = places i;
    behinds = sum_below-update behind n pc i p' lt;
    pendings = sum_below-update pending n pc i p' lt;
    ends = sum_below-update ended n pc i p' lt;
    room = omega (arith, sum_below-le pending 1 (λ p. ground arith) n (update pc i p'));
  }

  Move-own_runway :
      {p p' : Pc} {t' : Tower}
      → Move i t p t' p'
      → Mover p p'
      → (j : ℕ) (r : Runway) → runway_of (update pc i p' j) ≡ some r
      → runway_lock t' r ≡ some j
  Move-own_runway (leave {r = first}) f j r q = ground (arith, own_runway j r, own_runway i first)
  Move-own_runway (leave {r = second}) f j r q = ground (arith, own_runway j r, own_runway i second)
  Move-own_runway mv f j first q = ground (arith, premise mv, own_runway j first)
  Move-own_runway mv f j second q = ground (arith, premise mv, own_runway j second)

  Move-own_state :
      {p p' : Pc} {t' : Tower}
      → Move i t p t' p'
      → Mover p p'
      → (j : ℕ) → in_state (update pc i p' j) ≡ true
      → t'.state_lock ≡ some j
  Move-own_state (leave {r = first}) f j q = ground (arith, own_state j, own_state i)
  Move-own_state (leave {r = second}) f j q = ground (arith, own_state j, own_state i)
  Move-own_state mv f j q = ground (arith, premise mv, own_state j, own_state i)

  Move-state_owned :
      {p p' : Pc} {t' : Tower}
      → Move i t p t' p'
      → Mover p p'
      → (j : ℕ) → t'.state_lock ≡ some j
      → (in_state (update pc i p' j) ≡ true) × (j < n)
  Move-state_owned (leave {r = first}) f j q = ground (arith, state_owned j)
  Move-state_owned (leave {r = second}) f j q = ground (arith, state_owned j)
  Move-state_owned mv f j q = ground (arith, premise mv, state_owned j)

  Move-places :
      {p p' : Pc} {t' : Tower}
      → Move i t p t' p'
      → Mover p p'
      → (j : ℕ) → Local t' (update pc i p' j)
  Move-places (leave {r = first}) f j = ground (arith, places j)
  Move-places (leave {r = second}) f j = ground (arith, places j)
  Move-places mv f j = ground (arith, premise mv, places j, own_state i, own_state j, low)

  Move-counts : {p p' : Pc} {t' : Tower} → Move i t p t' p' → Mover p p' → record {
    low : t'.state_lock ≡ none → t'.takeoffs ≤ 4;
    tally : t'.total_takeoffs + sum_below behind n (update pc i p') ≡ 5 * t'.usr1 + t'.takeoffs;
    limit : t'.total_takeoffs + sum_below pending n (update pc i p') ≤ 19 + n;
    terms : sum_below ended n (update pc i p') ≡ t'.term;
  }
  Move-counts (leave {r = first}) f = ground (arith, low)
  Move-counts (leave {r = second}) f = ground (arith, low)
  Move-counts mv f = ground (arith, premise mv, low, own_state i)

  pub Move-Inv : {p' : Pc} {t' : Tower} → i < n → Move i t (pc i) t' p' → Inv n t' (update pc i p')
  Move-Inv {p'} lt mv = record {
    own_runway = Move-own_runway mv f;
    own_state = Move-own_state mv f;
    state_owned = Move-state_owned mv f;
    low = c_low;
    places = Move-places mv f;
    tally = c_tally;
    limit = c_limit;
    terms = c_terms;
  }
    where
      f : Mover (pc i) p'
      f = mover lt p'

      open (Move-counts mv f) use {
        low as c_low, tally as c_tally, limit as c_limit, terms as c_terms,
      }
