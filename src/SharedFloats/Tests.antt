-- ===== src/SharedFloats/Tests.antt =====
-- A run of shm_example_semaphores, and its theorem there.
use ciic.Common.{
  ℕ, zero, suc, subst, ◌≤◌, ◌*◌, ◌+◌, ◌≡◌, ◌⊎◌, refl, true, false, some, [], ◌∷◌, arith,
}
use ciic.SharedFloats.{
  old, new, waiting, reading, finished, writing, posted, System, store, clear, make, resize,
  map_object, sem_clear, sem_make, wait, read, connect, attach, sem_connect, write, write_all,
  signal, Reach, start, later,
}
use ciic.SharedFloats.Invariant.{count, prefix}
use ciic.SharedFloats.Order.{all_or_nothing}

-- Numbers in place of the floats
abbrev sample : ℕ → ℕ
sample i = i * 66 + 1

abbrev Run : System ℕ 0 sample → Type 0
Run s = Reach ℕ 0 sample false false s

-- The cells after `n` writes
abbrev cells_after : ℕ → ℕ → ℕ
cells_after zero k = 0
cells_after (suc n) k = store ℕ 0 sample new n (cells_after n) k

-- The reader waits, and the writer has written `n` elements.
abbrev at_write : ℕ → System ℕ 0 sample
at_write n = record {
  reader = waiting;
  writer = writing new (some new) n;
  object = some new;
  semaphore = some new;
  sized = true;
  cells = cells_after n;
  posts = 0;
  printed = [];
}

abbrev connected : Run (at_write 0)
connected =
    later
      (later
        (later
          (later
            (later
              (later (later (later (later start (clear refl)) (make refl)) (resize refl))
                (map_object refl))
              (sem_clear refl))
            (sem_make refl))
          (connect new refl refl))
        (attach new refl))
      (sem_connect new refl)

writes : (n : ℕ) → n ≤ 20 → Run (at_write n)
writes zero h = connected
writes (suc n) h =
    subst (λ m. Run (record (at_write (suc n)) { writer = writing new (some new) m })) (omega arith)
      (later (writes n (omega (arith, h)))
        (write new (some new) n refl (omega (arith, h)) (λ p. refl)))

abbrev first_read : System ℕ 0 sample
first_read = record (at_write 20) { reader = reading 1; writer = posted new new; printed = 1 ∷ [] }

first_read_reach : Run first_read
first_read_reach =
    later
      (later
        (later (later (writes 20 (omega arith)) (write_all new (some new) refl))
          (signal new new refl))
        (wait refl refl))
      (read 0 refl (omega arith))

all_or_nothing_example :
    ((first_read.printed ≡ prefix 1 sample)
      ⊎ (false ≡ true)
        × (first_read.writer ≡ posted old new)
        × (first_read.printed ≡ prefix 1 (λ k. 0)))
    × (reading 1 ≡ finished → count (reading 1) ≡ 20)
all_or_nothing_example = all_or_nothing ℕ 0 sample first_read_reach
