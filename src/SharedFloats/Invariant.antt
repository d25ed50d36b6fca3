-- ===== src/SharedFloats/Invariant.antt =====
-- shm_example_semaphores: the values in the object, and what the reader has of them, in a reachable state.
use ciic.Common.{
  ℕ, zero, suc, ◌+◌, ◌<◌, ◌≤◌, ◌≡◌, refl, Bool, true, false, Option, none, some, List, [], ◌∷◌,
  ◌++◌, if◌then◌else◌, ltb, arith, ap, ap₂, ◌∙◌, sym,
}
use ciic.SharedFloats.{
  elements, Made, old, new, ReaderPlace, clearing, opening, sizing, mapping, sem_clearing,
  sem_opening, waiting, reading, deleting, finished, reader_failed, WriterPlace, attaching,
  sem_connecting, writing, posting, posted, writer_failed, writer_crashed, System, Step, clear,
  make, resize, map_object, map_fails, sem_clear, sem_make, wait, read, read_all, delete, connect,
  connect_fails, attach, attach_fails, sem_connect, write, write_faults, write_all, signal,
  signal_faults, Reach, start, later,
}

-- How many elements the reader has read
abbrev pub count : ReaderPlace → ℕ
count (reading i) = i
count deleting = elements
count finished = elements
count _ = 0

abbrev pub past_wait : ReaderPlace → Bool
past_wait (reading i) = true
past_wait deleting = true
past_wait finished = true
past_wait _ = false

-- How many elements of the reader's object the writer has written
abbrev pub progress : WriterPlace → ℕ
progress (writing new sem i) = i
progress (posting new sem) = elements
progress (posted new sem) = elements
progress _ = 0

abbrev pub posted_new : WriterPlace → Bool
posted_new (posted o new) = true
posted_new _ = false

abbrev pub crashed : WriterPlace → Bool
crashed writer_crashed = true
crashed _ = false

-- The writer holds an object that was there before.
abbrev pub holds_old : WriterPlace → Bool
holds_old (attaching old) = true
holds_old (sem_connecting old) = true
holds_old (writing old sem i) = true
holds_old (posting old sem) = true
holds_old (posted old sem) = true
holds_old _ = false

abbrev pub is_old : Option Made → Bool
is_old (some old) = true
is_old _ = false

-- The first `n` values of a function
unfoldable pub prefix : {A : Type 0} → ℕ → (ℕ → A) → List A
prefix zero f = []
prefix (suc n) f = prefix n f ++ f n ∷ []

pub prefix-ext :
    {A : Type 0} (n : ℕ) (f g : ℕ → A) → ((k : ℕ) → k < n → f k ≡ g k) → prefix n f ≡ prefix n g
unfolding prefix
prefix-ext zero f g same = refl
prefix-ext (suc n) f g same =
    ap₂ (λ xs x. xs ++ x ∷ []) (prefix-ext n f g (λ k h. same k (omega (arith, h))))
      (same n (omega arith))

suc-eq : (n : ℕ) → suc n ≡ n + 1
suc-eq n = omega arith

-- Before its `sem_wait` the reader has read nothing.
pub nothing_read :
    {A : Type 0} (r : ReaderPlace) (f g : ℕ → A)
    → past_wait r ≡ false
    → prefix (count r) f ≡ prefix (count r) g
unfolding prefix
nothing_read clearing f g h = refl
nothing_read opening f g h = refl
nothing_read sizing f g h = refl
nothing_read mapping f g h = refl
nothing_read sem_clearing f g h = refl
nothing_read sem_opening f g h = refl
nothing_read waiting f g h = refl
nothing_read reader_failed f g h = refl
nothing_read (reading i) f g h = absurd (ground (arith, h))
nothing_read deleting f g h = absurd (ground (arith, h))
nothing_read finished f g h = absurd (ground (arith, h))

module _ (Float : Type 0) (zero_float : Float) (value : ℕ → Float) where
  pub record Inv (stale : Bool) (s : System Float zero_float value) : Type 0 where
    pub content :
        crashed s.writer ≡ false
        → (k : ℕ) → s.cells k ≡ (if ltb k (progress s.writer) then value k else zero_float)
    pub counted :
        s.posts + (if past_wait s.reader then 1 else 0) ≡ (if posted_new s.writer then 1 else 0)
    pub bounded : count s.reader ≤ elements
    pub prints : s.printed ≡ prefix (count s.reader) s.cells
    pub old_name : is_old s.object ≡ true → stale ≡ true
    pub old_object : holds_old s.writer ≡ true → stale ≡ true

  -- A step of the reader that reads no element
  reader_moves :
      {stale : Bool} {s : System Float zero_float value} (r : ReaderPlace)
      (object semaphore : Option Made) (sized : Bool)
      → Inv stale s
      → past_wait r ≡ past_wait s.reader
      → count r ≡ count s.reader
      → (is_old object ≡ true → stale ≡ true)
      → Inv stale (record s { reader = r; object = object; semaphore = semaphore; sized = sized })
  reader_moves {s = s} r object semaphore sized inv p q old_name = record {
    content = inv.content;
    counted = ground (arith, p, inv.counted);
    bounded = ground (arith, q, inv.bounded);
    prints = inv.prints ∙ ap (λ n. prefix n s.cells) (sym q);
    old_name = old_name;
    old_object = inv.old_object;
  }

  -- A step of the writer that writes no element and does not signal
  writer_moves :
      {stale : Bool} {s : System Float zero_float value} (w : WriterPlace)
      → Inv stale s
      → (crashed w ≡ false → (crashed s.writer ≡ false) × (progress w ≡ progress s.writer))
      → posted_new w ≡ posted_new s.writer
      → (holds_old w ≡ true → stale ≡ true)
      → Inv stale (record s { writer = w })
  writer_moves {s = s} w inv p q old_object = record {
    content = λ h k. ground (arith, (p h).1, inv.content (p h).0 k);
    counted = ground (arith, q, inv.counted);
    bounded = inv.bounded;
    prints = inv.prints;
    old_name = inv.old_name;
    old_object = old_object;
  }

  Step-Inv :
      {stale : Bool} {s t : System Float zero_float value}
      → Step Float zero_float value s t
      → Inv stale s
      → Inv stale t
  unfolding prefix
  Step-Inv (clear at) inv =
      reader_moves opening none _ _ inv (ground (arith, at)) (ground (arith, at)) (ground arith)
  Step-Inv (make at) inv =
      reader_moves sizing (some new) _ false inv (ground (arith, at)) (ground (arith, at))
        (ground arith)
  Step-Inv (resize at) inv =
      reader_moves mapping _ _ true inv (ground (arith, at)) (ground (arith, at)) inv.old_name
  Step-Inv (map_object at) inv =
      reader_moves sem_clearing _ _ _ inv (ground (arith, at)) (ground (arith, at)) inv.old_name
  Step-Inv (map_fails at) inv =
      reader_moves reader_failed _ _ _ inv (ground (arith, at)) (ground (arith, at)) inv.old_name
  Step-Inv (sem_clear at) inv =
      reader_moves sem_opening _ none _ inv (ground (arith, at)) (ground (arith, at)) inv.old_name
  Step-Inv (sem_make at) inv =
      reader_moves waiting _ (some new) _ inv (ground (arith, at)) (ground (arith, at)) inv.old_name
  Step-Inv (wait at p) inv = record {
    content = inv.content;
    counted = ground (arith, at, p, inv.counted);
    bounded = omega arith;
    prints = ground (arith, at, inv.prints);
    old_name = inv.old_name;
    old_object = inv.old_object;
  }
  Step-Inv {s = s} (read i at p) inv = record {
    content = inv.content;
    counted = ground (arith, at, inv.counted);
    bounded = omega (arith, p);
    prints =
        ap (λ xs. xs ++ s.cells i ∷ []) (inv.prints ∙ ap (λ r. prefix (count r) s.cells) at)
        ∙ ap (λ n. prefix n s.cells) (suc-eq i);
    old_name = inv.old_name;
    old_object = inv.old_object;
  }
  Step-Inv (read_all at) inv =
      reader_moves deleting _ _ _ inv (ground (arith, at)) (ground (arith, at)) inv.old_name
  Step-Inv (delete at) inv =
      reader_moves finished none _ _ inv (ground (arith, at)) (ground (arith, at)) (ground arith)
  Step-Inv (connect old at p) inv =
      writer_moves (attaching old) inv (ground (arith, at)) (ground (arith, at))
        (ground (arith, p, inv.old_name))
  Step-Inv (connect new at p) inv =
      writer_moves (attaching new) inv (ground (arith, at)) (ground (arith, at)) (ground arith)
  Step-Inv (connect_fails at) inv =
      writer_moves writer_failed inv (ground (arith, at)) (ground (arith, at)) (ground arith)
  Step-Inv (attach old at) inv =
      writer_moves (sem_connecting old) inv (ground (arith, at)) (ground (arith, at))
        (ground (arith, at, inv.old_object))
  Step-Inv (attach new at) inv =
      writer_moves (sem_connecting new) inv (ground (arith, at)) (ground (arith, at)) (ground arith)
  Step-Inv (attach_fails o at) inv =
      writer_moves writer_failed inv (ground (arith, at)) (ground (arith, at)) (ground arith)
  Step-Inv {s = s} (sem_connect old at) inv =
      writer_moves (writing old s.semaphore 0) inv (ground (arith, at)) (ground (arith, at))
        (ground (arith, at, inv.old_object))
  Step-Inv {s = s} (sem_connect new at) inv =
      writer_moves (writing new s.semaphore 0) inv (ground (arith, at)) (ground (arith, at))
        (ground arith)
  Step-Inv (write old sem i at p q) inv =
      writer_moves (writing old sem (i + 1)) inv (ground (arith, at)) (ground (arith, at))
        (ground (arith, at, inv.old_object))
  Step-Inv {s = s} (write new sem i at p q) inv = record {
    content = λ h k. ground (arith, at, inv.content (ground (arith, at)) k);
    counted = ground (arith, at, inv.counted);
    bounded = inv.bounded;
    prints = inv.prints ∙ nothing_read s.reader _ _ (ground (arith, at, inv.counted));
    old_name = inv.old_name;
    old_object = ground arith;
  }
  Step-Inv (write_faults sem i at p) inv =
      writer_moves writer_crashed inv (ground (arith, at)) (ground (arith, at)) (ground arith)
  Step-Inv (write_all old sem at) inv =
      writer_moves (posting old sem) inv (ground (arith, at)) (ground (arith, at))
        (ground (arith, at, inv.old_object))
  Step-Inv (write_all new sem at) inv =
      writer_moves (posting new sem) inv (ground (arith, at)) (ground (arith, at)) (ground arith)
  Step-Inv (signal o sem at) inv = record {
    content = λ h k. ground (arith, at, inv.content (ground (arith, at)) k);
    counted = ground (arith, at, inv.counted);
    bounded = inv.bounded;
    prints = inv.prints;
    old_name = inv.old_name;
    old_object = ground (arith, at, inv.old_object);
  }
  Step-Inv (signal_faults o at) inv =
      writer_moves writer_crashed inv (ground (arith, at)) (ground (arith, at)) (ground arith)

  pub Reach-Inv :
      {stale_object stale_semaphore : Bool} {s : System Float zero_float value}
      → Reach Float zero_float value stale_object stale_semaphore s
      → Inv stale_object s
  unfolding prefix
  Reach-Inv start = record {
    content = λ h k. ground arith;
    counted = omega arith;
    bounded = omega arith;
    prints = refl;
    old_name = ground arith;
    old_object = ground arith;
  }
  Reach-Inv (later reach step) = Step-Inv step (Reach-Inv reach)
