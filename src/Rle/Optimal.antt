-- ===== src/Rle/Optimal.antt =====
-- The greedy runs of `CompressRLE` are as few as can be.
use ciic.Common.{ℕ, zero, suc, ◌+◌, ◌*◌, ◌^◌, ◌≤◌, ◌<◌, ◌≡◌, ap, List, [], ◌∷◌, arith, length, ◌∙◌}
use ciic.Rle.{max_run, compress_bytes}
use ciic.Rle.Pairs.{Run, pack, unpack, AreRuns, AreMaximal, length-pack}
use ciic.Rle.Encode.{runs_from, runs, runs-AreRuns, unpack-runs, compress_bytes-runs}
use ciic.Rle.Canonical.{runs_from-replicate, runs-AreMaximal}

-- A fuller current run costs no fewer pairs, and at most one more.
length-runs_from_mono :
    (xs : List ℕ) (current k j : ℕ)
    → 1 ≤ k
    → k ≤ j
    → j ≤ max_run
    → (length (runs_from current k xs) ≤ length (runs_from current j xs))
      × (length (runs_from current j xs) ≤ length (runs_from current k xs) + 1)
unfolding runs_from
length-runs_from_mono [] current k j p q r = omega arith
length-runs_from_mono (x ∷ xs) current k j p q r = ground (
  arith,
  length-runs_from_mono xs current (k + 1) (j + 1),
  length-runs_from_mono xs current 1 (k + 1),
  length-runs_from_mono xs x 1 (k + 1),
)

-- A run in progress saves at most the pair that it would open.
length-runs_from-le :
    (xs : List ℕ) (current k x : ℕ)
    → 1 ≤ k
    → k ≤ max_run
    → length (runs_from current k (x ∷ xs)) ≤ length (runs_from x 1 xs) + 1
unfolding runs_from
length-runs_from-le xs current k x p q = ground (arith, length-runs_from_mono xs current 1 (k + 1))

pub length-runs-le : (ps : List Run) → AreRuns ps → length (runs (unpack ps)) ≤ length ps
unfolding runs
length-runs-le [] h = omega arith
length-runs-le ((zero, b) ∷ ps) h = absurd (omega arith)
length-runs-le ((suc c, b) ∷ ps) h =
    rw (runs_from-replicate c b 1 (unpack ps) (omega arith))
      (first_run (unpack ps) (length-runs-le ps h.2))
  where
    first_run :
        (xs : List ℕ)
        → length (runs xs) ≤ length ps
        → length (runs_from b (1 + c) xs) ≤ suc (length ps)
    first_run [] q = omega arith
    first_run (x ∷ xs) q =
        omega (arith, length-runs_from-le xs b (1 + c) x (omega arith) (omega arith))

length-runs_from : (xs : List ℕ) (current k : ℕ) → length (runs_from current k xs) ≤ suc (length xs)
unfolding runs_from
length-runs_from [] current k = omega arith
length-runs_from (x ∷ xs) current k =
    ground (arith, length-runs_from xs current (k + 1), length-runs_from xs x 1)

length-runs : (xs : List ℕ) → length (runs xs) ≤ length xs
unfolding runs
length-runs [] = omega arith
length-runs (x ∷ xs) = length-runs_from xs x 1

-- `CompressRLE` writes pairs of a counter from 1 to 255 and a byte that stand for its input, two
-- neighbours of one byte only behind a full run, and returns the number of bytes written, which
-- is at most twice that of the input, if the input is shorter than 2^62 bytes.
pub compress_bytes-format :
    (xs : List ℕ)
    → length xs < 2 ^ 62
    → (ps : List Run) × (compress_bytes xs ≡ (pack ps, 2 * length ps))
      × AreRuns ps
      × AreMaximal ps
      × (unpack ps ≡ xs)
      × (2 * length ps ≤ 2 * length xs)
compress_bytes-format xs h = (
  runs xs,
  compress_bytes-runs xs
      ∙ ap (λ n. (pack (runs xs), n)) (omega (arith, length-pack (runs xs), length-runs xs)),
  runs-AreRuns xs,
  runs-AreMaximal xs,
  unpack-runs xs,
  omega (arith, length-runs xs),
)

-- No pairs with counters from 1 to 255 that stand for the same bytes take less room than what
-- `CompressRLE` writes.
compress_bytes-le :
    (ps : List Run) → AreRuns ps → length (compress_bytes (unpack ps)).0 ≤ length (pack ps)
compress_bytes-le ps h =
    rw (compress_bytes-runs (unpack ps))
      (omega (arith, length-runs-le ps h, length-pack ps, length-pack (runs (unpack ps))))
