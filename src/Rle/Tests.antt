-- ===== src/Rle/Tests.antt =====
-- Runs of Section5/H1/src/main.c on small files, and its theorems at concrete inputs.
use ciic.Common.{
  ℕ, ◌*◌, ◌≤◌, ◌≡◌, refl, true, false, none, some, List, [], ◌∷◌, arith, length, Disk, put_file,
  ne_of_str_eq,
}
use ciic.Rle.{compress_bytes, compress_rle, decompress_loop, decompress_rle, complete, incomplete}
use ciic.Rle.Pairs.{Run, pack, unpack, AreRuns, AreMaximal}
use ciic.Rle.Optimal.{compress_bytes-format}
use ciic.Rle.Program.{Opens, decompress_rle-compress_rle}

abbrev text_bytes : List ℕ
text_bytes = b'a' ∷ b'a' ∷ b'b' ∷ []

abbrev pairs : List Run
pairs = (255, 7) ∷ (3, 7) ∷ (1, 9) ∷ []

-- a disk with one file "in", where everything can be opened
abbrev disk : List ℕ → Disk
disk bytes =
    put_file (record { files = λ _. none; readable = λ _. true; writable = λ _. true }) "in" bytes

-- a disk where nothing can be written
abbrev locked : Disk
locked = record { files = λ _. none; readable = λ _. true; writable = λ _. false }

abbrev after_compress : Disk
after_compress = (compress_rle (disk text_bytes) "in" "packed").1

compress_small : compress_bytes text_bytes ≡ (2 ∷ b'a' ∷ 1 ∷ b'b' ∷ [], 4)
unfolding compress_bytes
compress_small = refl

decompress_small : decompress_loop (2 ∷ b'a' ∷ 1 ∷ b'b' ∷ []) [] 0 ≡ complete text_bytes 3
unfolding decompress_loop
decompress_small = refl

-- A counter of 0 stands for nothing.
decompress_zero : decompress_loop (0 ∷ b'a' ∷ 1 ∷ []) [] 0 ≡ incomplete []
unfolding decompress_loop
decompress_zero = refl

-- An input that is also the output is emptied before it is read.
compress_in_place : (compress_rle (disk text_bytes) "in" "in").0 ≡ 0
unfolding compress_rle
compress_in_place = refl

opens : (bytes : List ℕ) → Opens (disk bytes) "in" "packed" bytes
opens bytes = record { differ = ne_of_str_eq "packed" "in" refl; contents = refl; writable = refl }

compress_bytes-format_example :
    (ps : List Run) × (compress_bytes text_bytes ≡ (pack ps, 2 * length ps))
    × AreRuns ps
    × AreMaximal ps
    × (unpack ps ≡ text_bytes)
    × (2 * length ps ≤ 2 * 3)
compress_bytes-format_example = compress_bytes-format text_bytes (omega arith)

decompress_rle-compress_rle_example :
    let (size, d) = decompress_rle after_compress "packed" "out" in
    (size ≡ 3) × (d.files "out" ≡ some text_bytes)
decompress_rle-compress_rle_example =
    decompress_rle-compress_rle (opens text_bytes) (ne_of_str_eq "out" "packed" refl) refl refl
      (omega arith)
