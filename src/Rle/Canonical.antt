-- ===== src/Rle/Canonical.antt =====
-- The pairs that `CompressRLE` writes are the only ones with maximal runs.
use ciic.Common.{
  ℕ, zero, suc, ◌+◌, ◌≤◌, ◌≡◌, refl, ap, ◌&&◌, List, [], ◌∷◌, ◌++◌, arith, replicate, ltb, ◌==◌,
  ◌∙◌, Bool-cases, inl, inr,
}
use ciic.Rle.{max_run, compress_bytes}
use ciic.Rle.Pairs.{Run, pack, unpack, AreRuns, AreMaximal}
use ciic.Rle.Encode.{runs_from, runs, compress_bytes-runs}

-- The loop's first pair is of its current byte.
runs_from-head :
    (xs : List ℕ) (current counter : ℕ)
    → (c : ℕ) × (ps : List Run) × (runs_from current counter xs ≡ (c, current) ∷ ps)
unfolding runs_from
runs_from-head [] current counter = (counter, [], refl)
runs_from-head (x ∷ xs) current counter = elim (Bool-cases (x == current && ltb counter max_run)) [
  | inl same ↦ let (c, ps, e) = runs_from-head xs current (counter + 1) in (c, ps, ground arith)
  | inr other ↦ (counter, runs_from x 1 xs, ground arith)
]

AreMaximal-cons :
    (c b c' b' : ℕ) (ps qs : List Run)
    → ps ≡ (c', b') ∷ qs
    → (b ≡ b' → c ≡ 255)
    → AreMaximal ps
    → AreMaximal ((c, b) ∷ ps)
AreMaximal-cons c b c' b' ps qs e h m = rw e (h, rw e at m)

runs_from-AreMaximal :
    (xs : List ℕ) (current counter : ℕ)
    → counter ≤ max_run
    → AreMaximal (runs_from current counter xs)
unfolding runs_from
runs_from-AreMaximal [] current counter h = tt
runs_from-AreMaximal (x ∷ xs) current counter h =
    let (c, ps, e) = runs_from-head xs x 1 in
    ground (
      arith,
      runs_from-AreMaximal xs current (counter + 1),
      AreMaximal-cons counter current c x (runs_from x 1 xs) ps e,
      runs_from-AreMaximal xs x 1,
    )

pub runs-AreMaximal : (xs : List ℕ) → AreMaximal (runs xs)
unfolding runs
runs-AreMaximal [] = tt
runs-AreMaximal (x ∷ xs) = runs_from-AreMaximal xs x 1 (omega arith)

-- A run that fits is read up before anything is written.
pub runs_from-replicate :
    (m current counter : ℕ) (xs : List ℕ)
    → counter + m ≤ max_run
    → runs_from current counter (replicate m current ++ xs) ≡ runs_from current (counter + m) xs
unfolding runs_from
runs_from-replicate zero current counter xs h = ap (λ k. runs_from current k xs) (omega arith)
runs_from-replicate (suc m) current counter xs h =
    ground (arith, runs_from-replicate m current (counter + 1) xs)

-- Maximal pairs come back from what they stand for.
pub runs-unpack : (ps : List Run) → AreRuns ps → AreMaximal ps → runs (unpack ps) ≡ ps
unfolding runs runs_from
runs-unpack [] h m = refl
runs-unpack ((zero, b) ∷ ps) h m = absurd (omega arith)
runs-unpack ((suc c, b) ∷ []) h m =
    runs_from-replicate c b 1 [] (omega arith) ∙ ap (λ k. (k, b) ∷ []) (omega arith)
runs-unpack ((suc c, b) ∷ (zero, b') ∷ ps) h m = absurd (omega arith)
runs-unpack ((suc c, b) ∷ (suc c', b') ∷ ps) h m =
    runs_from-replicate c b 1 (unpack ((suc c', b') ∷ ps)) (omega arith)
    ∙ ground (arith, runs-unpack ((suc c', b') ∷ ps))

-- `CompressRLE` gives back any list of pairs with counters from 1 to 255 in which two neighbours
-- of one byte stand only behind a full run, from the bytes that it stands for.
compress_bytes-unpack :
    (ps : List Run) → AreRuns ps → AreMaximal ps → (compress_bytes (unpack ps)).0 ≡ pack ps
compress_bytes-unpack ps h m = rw (compress_bytes-runs (unpack ps), runs-unpack ps h m)
