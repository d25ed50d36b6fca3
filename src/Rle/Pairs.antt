-- ===== src/Rle/Pairs.antt =====
-- The abstract view of a compressed file of Section5/H1/src/main.c: pairs of a run length and a
-- byte, and the bytes that they stand for.
use ciic.Common.{
  ℕ, zero, suc, ◌*◌, ◌≤◌, ◌≡◌, refl, ap, List, [], ◌∷◌, ◌++◌, arith, length, replicate,
}

abbrev pub Run : Type 0
Run = ℕ × ℕ

-- The bytes of the file: each pair is its counter, then its byte.
abbrev pub pack : List Run → List ℕ
pack [] = []
pack ((counter, byte) ∷ ps) = counter ∷ byte ∷ pack ps

-- The bytes that the pairs stand for.
abbrev pub unpack : List Run → List ℕ
unpack [] = []
unpack ((counter, byte) ∷ ps) = replicate counter byte ++ unpack ps

-- Counters are those of a run of `max_run` bytes at most.
abbrev pub AreRuns : List Run → Type 0
AreRuns [] = Unit
AreRuns ((counter, byte) ∷ ps) = (1 ≤ counter) × (counter ≤ 255) × AreRuns ps

-- Two neighbours are of one byte only if the first is full.
abbrev pub AreMaximal : List Run → Type 0
AreMaximal [] = Unit
AreMaximal ((c, b) ∷ []) = Unit
AreMaximal ((c, b) ∷ (c', b') ∷ ps) = (b ≡ b' → c ≡ 255) × AreMaximal ((c', b') ∷ ps)

pub length-pack : (ps : List Run) → length (pack ps) ≡ 2 * length ps
length-pack [] = refl
length-pack ((c, b) ∷ ps) = omega (arith, length-pack ps)

module _ {ℓ} {A : Type ℓ} where
  -- A byte more in front of a run is a byte more behind it.
  pub replicate-snoc :
      (n : ℕ) (a : A) (xs : List A) → replicate n a ++ a ∷ xs ≡ a ∷ (replicate n a ++ xs)
  replicate-snoc zero a xs = refl
  replicate-snoc (suc n) a xs = ap (◌∷◌ a) (replicate-snoc n a xs)
