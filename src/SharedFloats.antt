-- ===== src/SharedFloats.antt =====
-- Section2/class_examples/shm_example_semaphores: the writer leaves twenty floats in a shared object,
-- the reader prints them when a semaphore tells it to.
pub mod Invariant
pub mod Order
mod Tests
use ciic.Common.{
  ℕ, suc, ◌+◌, ◌<◌, ◌≤◌, ◌≡◌, Bool, true, false, Option, none, some, List, [], ◌∷◌, ◌++◌, ◌==◌,
  if◌then◌else◌,
}

abbrev pub elements : ℕ
elements = 20

-- What a name stands for: an object or semaphore that was there before, or the one that the reader makes.
pub data Made : Type 0 where
  old : Made
  new : Made

-- Where the reader is, at a call of its main: `shm_unlink`, `shm_open`, `ftruncate`, `mmap`, `sem_unlink`,
-- `sem_open`, `sem_wait`, the loop, `shm_unlink` at the end.
pub data ReaderPlace : Type 0 where
  clearing opening sizing mapping sem_clearing sem_opening waiting : ReaderPlace
  reading : ℕ → ReaderPlace
  deleting finished reader_failed : ReaderPlace

-- Where the writer is: `shm_open`, `mmap` and `sem_open`, the loop, `sem_post`. It holds the object that it
-- has opened, and the semaphore, if there was one.
pub data WriterPlace : Type 0 where
  connecting : WriterPlace
  attaching : Made → WriterPlace
  sem_connecting : Made → WriterPlace
  writing : Made → Option Made → ℕ → WriterPlace
  posting : Made → Option Made → WriterPlace
  posted : Made → Made → WriterPlace
  writer_failed writer_crashed : WriterPlace

module _ (Float : Type 0) (zero_float : Float) (value : ℕ → Float) where
  -- Both processes, the names, the object of the reader and its size, the value of the new semaphore, and
  -- what the reader has printed. `value i` is `i * 0.66` as a float.
  pub record System : Type 0 where
    pub reader : ReaderPlace
    pub writer : WriterPlace
    pub object : Option Made
    pub semaphore : Option Made
    pub sized : Bool
    pub cells : ℕ → Float
    pub posts : ℕ
    pub printed : List Float

  -- `shm_ptr[i] = i * 0.66`, which the reader's object holds only if the writer has opened that one.
  abbrev pub store : Made → ℕ → (ℕ → Float) → ℕ → Float
  store old i cells = cells
  store new i cells = λ k. if k == i then value i else cells k

  abbrev pub post : Made → ℕ → ℕ
  post old n = n
  post new n = n + 1

  pub data Step (s : System) : System → Type 0 where
    -- the reader
    clear : s.reader ≡ clearing → Step s (record s { reader = opening; object = none })
    make :
        s.reader ≡ opening → Step s (record s { reader = sizing; object = some new; sized = false })
    resize : s.reader ≡ sizing → Step s (record s { reader = mapping; sized = true })
    map_object : s.reader ≡ mapping → Step s (record s { reader = sem_clearing })
    map_fails : s.reader ≡ mapping → Step s (record s { reader = reader_failed })
    sem_clear :
        s.reader ≡ sem_clearing → Step s (record s { reader = sem_opening; semaphore = none })
    sem_make : s.reader ≡ sem_opening → Step s (record s { reader = waiting; semaphore = some new })
    wait :
        {n : ℕ}
        → s.reader ≡ waiting
        → s.posts ≡ suc n
        → Step s (record s { reader = reading 0; posts = n })
    read :
        (i : ℕ)
        → s.reader ≡ reading i
        → i < elements
        → Step s (record s { reader = reading (i + 1); printed = s.printed ++ s.cells i ∷ [] })
    read_all : s.reader ≡ reading elements → Step s (record s { reader = deleting })
    delete : s.reader ≡ deleting → Step s (record s { reader = finished; object = none })
    -- the writer
    connect :
        (o : Made)
        → s.writer ≡ connecting
        → s.object ≡ some o
        → Step s (record s { writer = attaching o })
    connect_fails : s.writer ≡ connecting → Step s (record s { writer = writer_failed })
    attach : (o : Made) → s.writer ≡ attaching o → Step s (record s { writer = sem_connecting o })
    attach_fails :
        (o : Made) → s.writer ≡ attaching o → Step s (record s { writer = writer_failed })
    sem_connect :
        (o : Made)
        → s.writer ≡ sem_connecting o
        → Step s (record s { writer = writing o s.semaphore 0 })
    write :
        (o : Made) (sem : Option Made) (i : ℕ)
        → s.writer ≡ writing o sem i
        → i < elements
        → (o ≡ new → s.sized ≡ true)
        → Step s (record s { writer = writing o sem (i + 1); cells = store o i s.cells })
    write_faults :
        (sem : Option Made) (i : ℕ)
        → s.writer ≡ writing new sem i
        → s.sized ≡ false
        → Step s (record s { writer = writer_crashed })
    write_all :
        (o : Made) (sem : Option Made)
        → s.writer ≡ writing o sem elements
        → Step s (record s { writer = posting o sem })
    signal :
        (o sem : Made)
        → s.writer ≡ posting o (some sem)
        → Step s (record s { writer = posted o sem; posts = post sem s.posts })
    -- `sem_post` on the result of a `sem_open` that failed
    signal_faults :
        (o : Made) → s.writer ≡ posting o none → Step s (record s { writer = writer_crashed })

  -- The names may be there from an earlier run; the new object is full of zeros.
  abbrev pub init : Option Made → Option Made → System
  init object semaphore = record {
    reader = clearing;
    writer = connecting;
    object = object;
    semaphore = semaphore;
    sized = false;
    cells = λ k. zero_float;
    posts = 0;
    printed = [];
  }

  -- The runs where an object, and a semaphore, of the names are there at the start, or are not
  pub data Reach (stale_object stale_semaphore : Bool) : System → Type 0 where
    start : Reach stale_object stale_semaphore (
        init (if stale_object then some old else none) (if stale_semaphore then some old else none))
    later :
        {s t : System}
        → Reach stale_object stale_semaphore s
        → Step s t
        → Reach stale_object stale_semaphore t
