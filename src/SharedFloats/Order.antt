-- ===== src/SharedFloats/Order.antt =====
-- What the reader of shm_example_semaphores prints, in every order of the two programs.
use ciic.Common.{ℕ, ◌≡◌, ◌⊎◌, inl, inr, refl, Bool, true, false, arith, ap, ◌∙◌}
use ciic.SharedFloats.{
  old, new, finished, WriterPlace, connecting, attaching, sem_connecting, writing, posting, posted,
  writer_failed, writer_crashed, System, Reach,
}
use ciic.SharedFloats.Invariant.{count, posted_new, prefix, prefix-ext, nothing_read, Reach-Inv}

writer_cases :
    (w : WriterPlace) → (posted_new w ≡ false) ⊎ ((w ≡ posted new new) ⊎ (w ≡ posted old new))
writer_cases (posted new new) = inr (inl refl)
writer_cases (posted old new) = inr (inr refl)
writer_cases (posted o old) = inl refl
writer_cases connecting = inl refl
writer_cases (attaching o) = inl refl
writer_cases (sem_connecting o) = inl refl
writer_cases (writing o sem i) = inl refl
writer_cases (posting o sem) = inl refl
writer_cases writer_failed = inl refl
writer_cases writer_crashed = inl refl

module _ (Float : Type 0) (zero_float : Float) (value : ℕ → Float) where
  -- In every state that the two programs reach, the reader has printed the first so many of the values
  -- that the writer writes, each of them right; or only zeros, and then an object of the name was there
  -- at the start, and the writer has filled that one and posted to the reader's semaphore. When the
  -- reader has finished, these are all twenty.
  pub all_or_nothing :
      {stale_object stale_semaphore : Bool} {s : System Float zero_float value}
      → Reach Float zero_float value stale_object stale_semaphore s
      → ((s.printed ≡ prefix (count s.reader) value)
          ⊎ (stale_object ≡ true)
            × (s.writer ≡ posted old new)
            × (s.printed ≡ prefix (count s.reader) (λ k. zero_float)))
        × (s.reader ≡ finished → count s.reader ≡ 20)
  all_or_nothing {s = s} reach =
      let inv = Reach-Inv Float zero_float value reach in
      (
        elim (writer_cases s.writer) [
          | inl at ↦
              inl
                (inv.prints ∙ nothing_read s.reader s.cells value (ground (arith, at, inv.counted)))
          | inr (inl at) ↦ inl (
              inv.prints
              ∙ prefix-ext (count s.reader) s.cells value
                  (λ k h. ground (arith, at, h, inv.bounded, inv.content (ground (arith, at)) k)))
          | inr (inr at) ↦ inr (
            inv.old_object (ground (arith, at)),
            at,
            inv.prints
                ∙ prefix-ext (count s.reader) s.cells (λ k. zero_float)
                    (λ k h. ground (arith, at, inv.content (ground (arith, at)) k)),
          )
        ],
        λ h. ap count h,
      )
