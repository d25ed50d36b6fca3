-- ===== src/DataProcessor/Release.antt =====
-- What the two data processors of the first exam leave behind.
use ciic.Common.{◌≡◌, ◌⊎◌, Bool, false, ◌&&◌, List, [], ◌∷◌, arith}
use ciic.DataProcessor.{
  Doubles, Os, Kernel, pausing, bus_error, Wake, after_loop, clean_up, with_children, main,
}
use ciic.DataProcessor.First

-- No name, no mapping, no open queue and no child is left.
abbrev pub Released : Kernel → Type 0
Released k =
    (k.shm_name ≡ false)
    × (k.mapping ≡ false)
    × (k.mq_name ≡ false)
    × (k.queue ≡ false)
    × (k.creator ≡ false)
    × (k.logger ≡ false)

-- The version of exam1_structure ends with everything released, whichever calls fail and whatever
-- signals come, unless it waits for a signal or the block has no size.
first_main-Released :
    (d : Doubles) (os : Os) (ws : List (Wake d))
    → ((First.main d os ws).0 ≡ pausing)
      ⊎ (((First.main d os ws).0 ≡ bus_error) × (os.ftruncate ≡ false))
      ⊎ Released (First.main d os ws).1
unfolding First.main First.with_children First.unsized after_loop clean_up
first_main-Released d os [] = ground arith
first_main-Released d os (w ∷ ws) = ground arith

-- Every call before the first `fork` succeeds.
abbrev pub reaches_fork : Os → Bool
reaches_fork os = os.sigaction && (os.shm_open && (os.ftruncate && (os.mmap && os.mq_open)))
