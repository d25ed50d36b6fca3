-- ===== src/Rle.antt =====
-- Section5/H1/src/main.c: run-length compression of files, its inverse, and the program that
-- runs both. A byte is a number below 256; an `int64_t` is its bit pattern, a number below 2^64.
pub mod Pairs
pub mod Encode
pub mod Decode
pub mod Canonical
pub mod Optimal
pub mod Program
mod Tests
use Prim.Native.String.{String}
use ciic.Common.{
  ℕ, zero, suc, ◌+◌, ◌-◌, ◌%◌, ◌^◌, Bool, true, false, ◌&&◌, Option, none, some, List, [], ◌∷◌,
  ◌++◌, if◌then◌else◌, ltb, leb, ◌==◌, Disk, open_read, open_write, put_file,
}

abbrev pub max_run : ℕ
max_run = 255

abbrev pub int64 : ℕ → ℕ
int64 n = n % 2 ^ 64

-- `unsigned char`
abbrev pub uint8 : ℕ → ℕ
uint8 n = n % 256

abbrev pub minus_one : ℕ
minus_one = 2 ^ 64 - 1

-- `n < 0` on the bit pattern of an `int64_t`
abbrev pub is_negative : ℕ → Bool
is_negative n = leb (2 ^ 63) n

-- `for (i = 0; i < n; i++) { fwrite(&byte, 1, 1, file); size++; }`
pub write_run : ℕ → ℕ → List ℕ → ℕ → List ℕ × ℕ
write_run zero byte out size = (out, size)
write_run (suc n) byte out size = write_run n byte (out ++ byte ∷ []) (int64 (size + 1))

-- The bytes of the test file, and `total_size`.
pub test_bytes : List ℕ × ℕ
unfolding write_run
test_bytes =
    let (out1, size1) = write_run 255 b'A' [] 0 in
    let (out2, size2) = write_run 10 b'B' out1 size1 in
    let (out3, size3) = write_run 150 b'Z' out2 size2 in write_run 50 b'C' out3 size3

pub generate_test_file : Disk → String → ℕ × Disk
generate_test_file d name = elim (open_write d name) [
  | none ↦ (minus_one, d)
  | some d' ↦ (test_bytes.1, put_file d' name test_bytes.0)
]

-- The `while` of `CompressRLE`, what it has written, and the last `fwrite` behind it.
pub compress_loop : ℕ → ℕ → List ℕ → List ℕ → ℕ → List ℕ × ℕ
compress_loop current_byte counter [] out size =
    (out ++ counter ∷ current_byte ∷ [], int64 (size + 2))
compress_loop current_byte counter (next_byte ∷ rest) out size =
    elim (next_byte == current_byte && ltb counter max_run) [
      | true ↦ compress_loop current_byte (uint8 (counter + 1)) rest out size
      | false ↦
          compress_loop next_byte 1 rest (out ++ counter ∷ current_byte ∷ []) (int64 (size + 2))
    ]

-- An empty input writes nothing and returns 0.
pub compress_bytes : List ℕ → List ℕ × ℕ
unfolding compress_loop
compress_bytes [] = ([], 0)
compress_bytes (current_byte ∷ rest) = compress_loop current_byte 1 rest [] 0

-- The input is read after the output has been emptied, which is seen if both are one file.
pub compress_rle : Disk → String → String → ℕ × Disk
unfolding compress_bytes
compress_rle d input output = elim (open_read d input) [
  | none ↦ (minus_one, d)
  | some _ ↦ elim (open_write d output) [
    | none ↦ (minus_one, d)
    | some d' ↦ elim (open_read d' input) [
      | none ↦ (minus_one, d')
      | some bytes ↦ let (out, size) = compress_bytes bytes in (size, put_file d' output out)
    ]
  ]
]

-- How the `while` of `DecompressRLE` ends: by the end of the input, or by an incomplete pair.
-- What was written before stays in the file either way.
pub data Expanded : Type 0 where
  complete : List ℕ → ℕ → Expanded
  incomplete : List ℕ → Expanded

pub decompress_loop : List ℕ → List ℕ → ℕ → Expanded
unfolding write_run
decompress_loop [] out size = complete out size
decompress_loop (counter ∷ []) out size = incomplete out
decompress_loop (counter ∷ byte ∷ rest) out size =
    let (out', size') = write_run counter byte out size in decompress_loop rest out' size'

pub decompress_rle : Disk → String → String → ℕ × Disk
unfolding decompress_loop
decompress_rle d input output = elim (open_read d input) [
  | none ↦ (minus_one, d)
  | some _ ↦ elim (open_write d output) [
    | none ↦ (minus_one, d)
    | some d' ↦ elim (open_read d' input) [
      | none ↦ (minus_one, d')
      | some bytes ↦ elim (decompress_loop bytes [] 0) [
        | incomplete out ↦ (minus_one, put_file d' output out)
        | complete out size ↦ (size, put_file d' output out)
      ]
    ]
  ]
]

abbrev pub original_file : String
original_file = "original_data.bin"

abbrev pub compressed_file : String
compressed_file = "compressed_data.rle"

abbrev pub decompressed_file : String
decompressed_file = "decompressed_data.bin"

-- What `main` prints of the three sizes, and how it ends.
pub data Report : Type 0 where
  generate_failed : Report
  compress_failed : ℕ → Report
  decompress_failed : ℕ → ℕ → Report
  mismatch : ℕ → ℕ → ℕ → Report
  success : ℕ → ℕ → ℕ → Report

pub main : Disk → Report × Disk
unfolding generate_test_file compress_rle decompress_rle
main d =
    let (original_size, d1) = generate_test_file d original_file in
    if is_negative original_size
    then (generate_failed, d1)
    else (let (compressed_size, d2) = compress_rle d1 original_file compressed_file in
        if is_negative compressed_size
        then (compress_failed original_size, d2)
        else (let (decompressed_size, d3) = decompress_rle d2 compressed_file decompressed_file in
            if is_negative decompressed_size
            then (decompress_failed original_size compressed_size, d3)
            else if original_size == decompressed_size
            then (success original_size compressed_size decompressed_size, d3)
            else (mismatch original_size compressed_size decompressed_size, d3)))

-- `main` returns 0 only at its end.
abbrev pub exit_code : Report → ℕ
exit_code (success _ _ _) = 0
exit_code _ = 1
