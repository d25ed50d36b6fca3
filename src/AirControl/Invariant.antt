-- ===== src/AirControl/Invariant.antt =====
-- Who owns which mutex in P1/PP1/air_control_c/src/functions.c, and how the counters agree.
use ciic.Common.{ℕ, ◌+◌, ◌*◌, ◌≤◌, ◌<◌, ◌≡◌, Bool, true, false, Option, none, some}
use ciic.Common.Threads.{sum_below}
use ciic.AirControl.{
  Tower, total_limit, Runway, first, second, Pc, check_planes, try_first, try_second, want_state,
  load_planes, store_planes, bump_takeoffs, bump_total, test_five, reset, unlock_state, leaving,
  finish, done,
}

-- The runway whose mutex the controller owns.
abbrev pub runway_of : Pc → Option Runway
runway_of (want_state r) = some r
runway_of (load_planes r) = some r
runway_of (store_planes r v) = some r
runway_of (bump_takeoffs r) = some r
runway_of (bump_total r) = some r
runway_of (test_five r) = some r
runway_of (reset r) = some r
runway_of (unlock_state r) = some r
runway_of (leaving r) = some r
runway_of _ = none

-- Between the lock and the unlock of `state_lock`.
abbrev pub in_state : Pc → Bool
in_state (load_planes r) = true
in_state (store_planes r v) = true
in_state (bump_takeoffs r) = true
in_state (bump_total r) = true
in_state (test_five r) = true
in_state (reset r) = true
in_state (unlock_state r) = true
in_state _ = false

-- A controller that has seen `total_takeoffs` below the limit and has not added to it yet.
abbrev pub pending : Pc → ℕ
pending check_planes = 1
pending try_first = 1
pending try_second = 1
pending (want_state r) = 1
pending (load_planes r) = 1
pending (store_planes r v) = 1
pending (bump_takeoffs r) = 1
pending (bump_total r) = 1
pending _ = 0

-- How far `total_takeoffs` is behind `5 * usr1 + takeoffs` on the controller's account.
abbrev pub behind : Pc → ℕ
behind (bump_total r) = 1
behind (reset r) = 5
behind _ = 0

abbrev pub ended : Pc → ℕ
ended done = 1
ended _ = 0

-- What a controller's place says of the counters.
abbrev pub Local : Tower → Pc → Type 0
Local t (load_planes r) = t.takeoffs ≤ 4
Local t (store_planes r v) = t.takeoffs ≤ 4
Local t (bump_takeoffs r) = t.takeoffs ≤ 4
Local t (bump_total r) = t.takeoffs ≤ 5
Local t (test_five r) = t.takeoffs ≤ 5
Local t (reset r) = t.takeoffs ≡ 5
Local t (unlock_state r) = t.takeoffs ≤ 4
Local t finish = total_limit ≤ t.total_takeoffs
Local t done = total_limit ≤ t.total_takeoffs
Local t _ = Unit

abbrev pub runway_lock : Tower → Runway → Option ℕ
runway_lock t first = t.runway1_lock
runway_lock t second = t.runway2_lock

pub record Inv (n : ℕ) (t : Tower) (pc : ℕ → Pc) : Type 0 where
  pub own_runway : (i : ℕ) (r : Runway) → runway_of (pc i) ≡ some r → runway_lock t r ≡ some i
  pub own_state : (i : ℕ) → in_state (pc i) ≡ true → t.state_lock ≡ some i
  pub state_owned : (i : ℕ) → t.state_lock ≡ some i → (in_state (pc i) ≡ true) × (i < n)
  pub low : t.state_lock ≡ none → t.takeoffs ≤ 4
  pub places : (i : ℕ) → Local t (pc i)
  pub tally : t.total_takeoffs + sum_below behind n pc ≡ 5 * t.usr1 + t.takeoffs
  pub limit : t.total_takeoffs + sum_below pending n pc ≤ 19 + n
  pub terms : sum_below ended n pc ≡ t.term
