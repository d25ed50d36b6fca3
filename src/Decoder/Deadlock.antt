-- ===== src/Decoder/Deadlock.antt =====
-- TryTest of PP2/decode_c/src/main.c in the thread that holds the mutex that it locks.
use ciic.Common.{
  ℕ, ◌≡◌, ◌≢◌, refl, Bool, true, false, Option, some, List, [], ◌∷◌, arith, ℕ_discrete, ap,
}
use mathlib.Core.Logic.{ite}
use ciic.Common.Threads.{update_ne}
use ciic.Decoder.{
  tests, Disk, Place, counting, counted, interrupted, Thread, opened, open_files, on_bytes,
  decode_pixel, Turn, open_all, read, lock, count, unlock, interrupt, interrupt_counted, System,
  Step, turn, tick, Reach, start, later,
}

abbrev holds : Place → Bool
holds counting = true
holds counted = true
holds interrupted = true
holds _ = false

open_files-free : (d : Disk) (id : ℕ) (th : Thread) → holds (open_files d id th).place ≡ false
unfolding open_files opened
open_files-free d id th = ground arith

on_bytes-free :
    (key : ℕ) (bytes : List ℕ) (th : Thread) → holds (on_bytes key bytes th).place ≡ false
unfolding on_bytes
on_bytes-free key [] th = refl
on_bytes-free key (r ∷ []) th = refl
on_bytes-free key (r ∷ g ∷ []) th = refl
on_bytes-free key (r ∷ g ∷ b ∷ rest) th = refl

decode_pixel-free : (key : ℕ) (th : Thread) → holds (decode_pixel key th).place ≡ false
unfolding decode_pixel
decode_pixel-free key th = ground (arith, on_bytes-free key th.rest th)

-- A step keeps the mutex with the thread that holds it.
Turn-holder :
    {d : Disk} {id n n' : ℕ} {m m' : Option ℕ} {th th' : Thread}
    → Turn d id m n th m' n' th'
    → (holds th.place ≡ true → m ≡ some id)
    → (holds th'.place ≡ true → m' ≡ some id) × ((j : ℕ) → j ≢ id → m ≡ some j → m' ≡ some j)
Turn-holder {d} {id} {th = th} (open_all at) own =
    (λ h. ground (arith, h, open_files-free d id th), λ j ne p. p)
Turn-holder {d} {id} {th = th} (read at) own =
    (λ h. ground (arith, h, decode_pixel-free (tests id) th), λ j ne p. p)
Turn-holder (lock at free) own = (λ h. refl, λ j ne p. ground (arith, p, free))
Turn-holder (count at) own = (λ h. ground (arith, at, own), λ j ne p. p)
Turn-holder (unlock at) own = (λ h. ground (arith, h), λ j ne p. ground (arith, p, ne, at, own))
Turn-holder (interrupt_counted at) own = (λ h. ground (arith, at, own), λ j ne p. p)
Turn-holder (interrupt at) own = (λ h. ground (arith, at, own), λ j ne p. p)

abbrev HasMutex : System → Type 0
HasMutex s = (j : ℕ) → holds (s.threads j).place ≡ true → s.mutex ≡ some j

Step-HasMutex : {d : Disk} {s t : System} → Step d s t → HasMutex s → HasMutex t
Step-HasMutex {d} {s} {t} (turn id {m} {n} {th} known tn) has j =
    elim (ℕ_discrete j id) as (λ x. holds (ite x th (s.threads j)).place ≡ true → m ≡ some j) [
      | yes p ↦ λ h. rw p ((Turn-holder tn (has id)).0 h)
      | no ne ↦ λ h. (Turn-holder tn (has id)).1 j ne (has j h)
    ]
Step-HasMutex (tick free) has j = has j

Reach-HasMutex : {d : Disk} {s : System} → Reach d s → HasMutex s
Reach-HasMutex start j = λ h. ground (arith, h)
Reach-HasMutex (later reach step) j = Step-HasMutex step (Reach-HasMutex reach) j

Turn-stopped :
    {d : Disk} {id n n' : ℕ} {m m' : Option ℕ} {th th' : Thread}
    → Turn d id m n th m' n' th'
    → th.place ≢ interrupted
Turn-stopped (open_all at) p = ground (arith, at, p)
Turn-stopped (read at) p = ground (arith, at, p)
Turn-stopped (lock at free) p = ground (arith, at, p)
Turn-stopped (count at) p = ground (arith, at, p)
Turn-stopped (unlock at) p = ground (arith, at, p)
Turn-stopped (interrupt_counted at) p = ground (arith, at, p)
Turn-stopped (interrupt at) p = ground (arith, at, p)

-- Only the thread that holds the mutex counts.
Turn-uncounted :
    {d : Disk} {id n n' : ℕ} {m m' : Option ℕ} {th th' : Thread} (holder : ℕ)
    → Turn d id m n th m' n' th'
    → (holds th.place ≡ true → m ≡ some id)
    → m ≡ some holder
    → id ≢ holder
    → n' ≡ n
Turn-uncounted holder (open_all at) own p ne = refl
Turn-uncounted holder (read at) own p ne = refl
Turn-uncounted holder (lock at free) own p ne = refl
Turn-uncounted holder (count at) own p ne = ground (arith, at, own, p, ne)
Turn-uncounted holder (unlock at) own p ne = refl
Turn-uncounted holder (interrupt at) own p ne = refl
Turn-uncounted holder (interrupt_counted at) own p ne = refl

-- A thread waits in TryTest for the mutex that it holds, and nothing was counted or printed since `s`.
pub record Frozen (s : System) (id : ℕ) (t : System) : Type 0 where
  pub waits : (t.threads id).place ≡ interrupted
  pub uncounted : (j : ℕ) → t.progress j ≡ s.progress j
  pub unprinted : t.reports ≡ s.reports

Step-Frozen :
    {d : Disk} {s t u : System} {id : ℕ} → Step d t u → HasMutex t → Frozen s id t → Frozen s id u
Step-Frozen {d} {s} {t} {u} {id} (turn j {m} {n} {th} known tn) has frozen =
    let ne : j ≢ id = λ p. Turn-stopped tn (rw p frozen.waits) in
    let held = has id (ap holds frozen.waits) in
    record {
      waits = ground (arith, frozen.waits, update_ne t.threads j th id, ne);
      uncounted = λ k. ground (arith, frozen.uncounted k, Turn-uncounted id tn (has j) held ne);
      unprinted = frozen.unprinted;
    }
Step-Frozen {d} {s} {t} {u} {id} (tick free) has frozen =
    absurd (ground (arith, free, has id (ap holds frozen.waits)))

pub data Steps (d : Disk) (s : System) : System → Type 0 where
  stay : Steps d s s
  then : {t u : System} → Steps d s t → Step d t u → Steps d s u

Steps-Reach : {d : Disk} {s t : System} → Reach d s → Steps d s t → Reach d t
Steps-Reach reach stay = reach
Steps-Reach reach (then steps step) = later (Steps-Reach reach steps) step

-- Once SIGALRM has come to the thread that holds the mutex, that thread waits for ever, and no thread
-- counts a pixel and no report is printed any more, whatever steps follow.
pub Steps-Frozen :
    {d : Disk} {s t : System} (id : ℕ)
    → Reach d s
    → (s.threads id).place ≡ interrupted
    → Steps d s t
    → Frozen s id t
Steps-Frozen id reach at stay = record { waits = at; uncounted = λ j. refl; unprinted = refl }
Steps-Frozen id reach at (then steps step) =
    Step-Frozen step (Reach-HasMutex (Steps-Reach reach steps)) (Steps-Frozen id reach at steps)
