-- ===== src/Rle/Encode.antt =====
-- `CompressRLE` writes the pairs of `runs`, which stand for its input.
use ciic.Common.{
  ℕ, ◌+◌, ◌*◌, ◌≤◌, ◌<◌, ◌≡◌, refl, true, false, ◌&&◌, List, [], ◌∷◌, ◌++◌, arith, length,
  replicate, ltb, ◌==◌, append_assoc,
}
use ciic.Rle.{max_run, int64, compress_loop, compress_bytes}
use ciic.Rle.Pairs.{Run, pack, unpack, AreRuns, length-pack, replicate-snoc}

-- The pairs that the loop writes from a current byte, its counter and the bytes to come.
unfoldable pub runs_from : ℕ → ℕ → List ℕ → List Run
runs_from current counter [] = (counter, current) ∷ []
runs_from current counter (x ∷ xs) = elim (x == current && ltb counter max_run) [
  | true ↦ runs_from current (counter + 1) xs
  | false ↦ (counter, current) ∷ runs_from x 1 xs
]

unfoldable pub runs : List ℕ → List Run
unfolding runs_from
runs [] = []
runs (x ∷ xs) = runs_from x 1 xs

-- The split on the loop's test.
pub same_run :
    (x current counter : ℕ)
    → ((x == current && ltb counter max_run) ≡ true)
    → (x ≡ current) × (counter < max_run)
same_run x current counter h = ground arith

pub compress_loop_lem :
    (xs : List ℕ) (current counter : ℕ) (out : List ℕ) (size : ℕ)
    → compress_loop current counter xs out size ≡ (
      out ++ pack (runs_from current counter xs),
      int64 (size + 2 * length (runs_from current counter xs)),
    )
unfolding compress_loop runs_from
compress_loop_lem [] current counter out size = refl
compress_loop_lem (x ∷ xs) current counter out size = ground (
  arith,
  compress_loop_lem xs current (counter + 1) out size,
  compress_loop_lem xs x 1 (out ++ counter ∷ current ∷ []) (int64 (size + 2)),
  append_assoc out (counter ∷ current ∷ []) (pack (runs_from x 1 xs)),
)

-- What the runs stand for is what was read.
unpack-runs_from :
    (xs : List ℕ) (current counter : ℕ)
    → unpack (runs_from current counter xs) ≡ replicate counter current ++ xs
unfolding runs_from
unpack-runs_from [] current counter = refl
unpack-runs_from (x ∷ xs) current counter = ground (
  arith,
  unpack-runs_from xs current (counter + 1),
  unpack-runs_from xs x 1,
  replicate-snoc counter current xs,
)

pub unpack-runs : (xs : List ℕ) → unpack (runs xs) ≡ xs
unfolding runs
unpack-runs [] = refl
unpack-runs (x ∷ xs) = unpack-runs_from xs x 1

runs_from-AreRuns :
    (xs : List ℕ) (current counter : ℕ)
    → 1 ≤ counter
    → counter ≤ max_run
    → AreRuns (runs_from current counter xs)
unfolding runs_from
runs_from-AreRuns [] current counter p q = (p, q, tt)
runs_from-AreRuns (x ∷ xs) current counter p q =
    ground (arith, runs_from-AreRuns xs current (counter + 1), runs_from-AreRuns xs x 1)

pub runs-AreRuns : (xs : List ℕ) → AreRuns (runs xs)
unfolding runs
runs-AreRuns [] = tt
runs-AreRuns (x ∷ xs) = runs_from-AreRuns xs x 1 (omega arith) (omega arith)

-- `CompressRLE` writes the pairs of `runs` and returns the number of bytes written.
pub compress_bytes-runs :
    (xs : List ℕ) → compress_bytes xs ≡ (pack (runs xs), int64 (length (pack (runs xs))))
unfolding compress_bytes runs
compress_bytes-runs [] = refl
compress_bytes-runs (x ∷ xs) =
    ground (arith, compress_loop_lem xs x 1 [] 0, length-pack (runs_from x 1 xs))
