-- ===== src/Rle/Decode.antt =====
-- `DecompressRLE` writes what the pairs of its input stand for.
use ciic.Common.{
  ℕ, zero, suc, ◌+◌, ◌^◌, ◌<◌, ◌≡◌, List, [], ◌∷◌, ◌++◌, arith, length, replicate, append_assoc,
  append-nil, length-append, length-replicate,
}
use ciic.Rle.{int64, write_run, complete, incomplete, decompress_loop}
use ciic.Rle.Pairs.{Run, pack, unpack}

pub write_run_lem :
    (n byte : ℕ) (out : List ℕ) (size : ℕ)
    → size < 2 ^ 64
    → write_run n byte out size ≡ (out ++ replicate n byte, int64 (size + n))
unfolding write_run
write_run_lem zero byte out size h = ground (arith, append-nil out)
write_run_lem (suc n) byte out size h = ground (
  arith,
  write_run_lem n byte (out ++ byte ∷ []) (int64 (size + 1)),
  append_assoc out (byte ∷ []) (replicate n byte),
)

-- On whole pairs the loop ends well, with the bytes that they stand for.
pub decompress_loop-pack :
    (ps : List Run) (out : List ℕ) (size : ℕ)
    → size < 2 ^ 64
    → decompress_loop (pack ps) out size
      ≡ complete (out ++ unpack ps) (int64 (size + length (unpack ps)))
unfolding decompress_loop
decompress_loop-pack [] out size h = ground (arith, append-nil out)
decompress_loop-pack ((c, b) ∷ ps) out size h = ground (
  arith,
  write_run_lem c b out size,
  decompress_loop-pack ps (out ++ replicate c b) (int64 (size + c)),
  append_assoc out (replicate c b) (unpack ps),
  length-append (replicate c b) (unpack ps),
  length-replicate c b,
)

-- With one byte left over behind the pairs the loop ends in the error, and what the pairs stand
-- for has been written.
pub decompress_loop-left_over :
    (ps : List Run) (last : ℕ) (out : List ℕ) (size : ℕ)
    → size < 2 ^ 64
    → decompress_loop (pack ps ++ last ∷ []) out size ≡ incomplete (out ++ unpack ps)
unfolding decompress_loop
decompress_loop-left_over [] last out size h = ground (arith, append-nil out)
decompress_loop-left_over ((c, b) ∷ ps) last out size h = ground (
  arith,
  write_run_lem c b out size,
  decompress_loop-left_over ps last (out ++ replicate c b) (int64 (size + c)),
  append_assoc out (replicate c b) (unpack ps),
)
