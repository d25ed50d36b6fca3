-- ===== src/Common/Threads.antt =====
-- What each of several threads holds, as a function of the thread's number: one entry changed, and
-- a weight summed over the first threads.
use Prim.Native.Nat.{ℕ, zero, suc, ◌+◌, ◌*◌, ◌≤◌, ◌<◌}
use mathlib.Core.Path.{◌≡◌, refl}
use mathlib.Core.Logic.{◌≢◌, ite}
use native.Mathlib.Decide.{dec_lt, ℕ_discrete}
use native.Mathlib.Omega.{arith}

module _ {ℓ} {A : Type ℓ} where
  abbrev pub update : (ℕ → A) → ℕ → A → ℕ → A
  update f i a j = ite (ℕ_discrete j i) a (f j)

  pub update_self : (f : ℕ → A) (i : ℕ) (a : A) → update f i a i ≡ a
  update_self f i a = ground arith

  pub update_ne : (f : ℕ → A) (i : ℕ) (a : A) (j : ℕ) → j ≢ i → update f i a j ≡ f j
  update_ne f i a j h = ground arith

  -- The weights of threads 0 to n - 1, added up.
  pub sum_below : (A → ℕ) → ℕ → (ℕ → A) → ℕ
  sum_below weight zero f = 0
  sum_below weight (suc n) f = weight (f n) + sum_below weight n f

module _ {ℓ} {A : Type ℓ} (weight : A → ℕ) where
  sum_below_above :
      (n : ℕ) (f : ℕ → A) (i : ℕ) (a : A)
      → n ≤ i
      → sum_below weight n (update f i a) ≡ sum_below weight n f
  unfolding sum_below
  sum_below_above zero f i a h = refl
  sum_below_above (suc n) f i a h = ground (arith, sum_below_above n f i a)

  -- A change of one entry changes the sum by the difference of its weights.
  pub sum_below-update :
      (n : ℕ) (f : ℕ → A) (i : ℕ) (a : A)
      → i < n
      → weight (f i) + sum_below weight n (update f i a) ≡ weight a + sum_below weight n f
  unfolding sum_below
  sum_below-update zero f i a h = absurd (omega arith)
  sum_below-update (suc n) f i a h = elim (dec_lt i n) [
    | yes low ↦ ground (arith, sum_below-update n f i a low)
    | no top ↦ ground (arith, sum_below_above n f i a)
  ]

  pub sum_below-le :
      (k : ℕ) → ((a : A) → weight a ≤ k) → (n : ℕ) (f : ℕ → A) → sum_below weight n f ≤ n * k
  unfolding sum_below
  sum_below-le k h zero f = omega arith
  sum_below-le k h (suc n) f = grind (arith, h (f n), sum_below-le k h n f)

  pub sum_below-zero :
      (n : ℕ) (f : ℕ → A) → ((i : ℕ) → i < n → weight (f i) ≡ 0) → sum_below weight n f ≡ 0
  unfolding sum_below
  sum_below-zero zero f h = refl
  sum_below-zero (suc n) f h =
      omega (arith, h n (omega arith), sum_below-zero n f (λ i p. h i (omega arith)))

  pub sum_below-all :
      (k n : ℕ) (f : ℕ → A) → ((i : ℕ) → i < n → weight (f i) ≡ k) → sum_below weight n f ≡ n * k
  unfolding sum_below
  sum_below-all k zero f h = omega arith
  sum_below-all k (suc n) f h =
      grind (arith, h n (omega arith), sum_below-all k n f (λ i p. h i (omega arith)))
