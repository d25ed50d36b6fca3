-- ===== src/Rle/Program.antt =====
-- `CompressRLE`, `DecompressRLE` and `main` of Section5/H1/src/main.c, on the disk.
use Prim.Native.String.{String}
use ciic.Common.{
  ℕ, ◌^◌, ◌<◌, ◌≡◌, ◌≢◌, refl, ap, ◌∙◌, true, false, none, some, List, [], ◌∷◌, ◌++◌, arith, length,
  Disk, open_read, put_file, str_eq_ne, ne_of_str_eq, str_eq_self, ◌⊎◌, inl, inr, Option-cases,
}
use ciic.Rle.{
  int64, minus_one, compress_rle, decompress_rle, original_file, compressed_file, decompressed_file,
  test_bytes, main, generate_test_file, success,
}
use ciic.Rle.Pairs.{Run, pack, unpack}
use ciic.Rle.Encode.{runs, runs_from, compress_bytes-runs, unpack-runs}
use ciic.Rle.Decode.{decompress_loop-pack, decompress_loop-left_over}

-- Both files can be opened, and they are two files.
pub record Opens (d : Disk) (input output : String) (bytes : List ℕ) : Type 0 where
  pub differ : output ≢ input
  pub contents : open_read d input ≡ some bytes
  pub writable : d.writable output ≡ true

-- What the program reads after it has emptied the output is what stood in the input.
Opens-open_read :
    {d : Disk} {input output : String} {bytes : List ℕ}
    → Opens d input output bytes
    → open_read (put_file d output []) input ≡ some bytes
Opens-open_read {d} {input} {output} o = ground (arith, str_eq_ne output input o.differ)

pub compress_rle_lem :
    {d : Disk} {input output : String} {bytes : List ℕ}
    → Opens d input output bytes
    → compress_rle d input output ≡ (
      int64 (length (pack (runs bytes))),
      put_file (put_file d output []) output (pack (runs bytes)),
    )
unfolding compress_rle
compress_rle_lem {d} {input} {output} {bytes} o =
    ground (arith, str_eq_ne output input o.differ, compress_bytes-runs bytes)

pub decompress_rle-pack :
    {d : Disk} {input output : String} (ps : List Run)
    → Opens d input output (pack ps)
    → decompress_rle d input output
      ≡ (int64 (length (unpack ps)), put_file (put_file d output []) output (unpack ps))
unfolding decompress_rle
decompress_rle-pack {d} {input} {output} ps o =
    ground (arith, str_eq_ne output input o.differ, decompress_loop-pack ps [] 0)

-- Compressing `input` into `packed` and decompressing that into `output`, where the files can be
-- opened and are three different ones, leaves in `output` the bytes of `input`, and the second
-- call returns their number, if it fits an `int64_t`.
pub decompress_rle-compress_rle :
    {d : Disk} {input packed output : String} {bytes : List ℕ}
    → Opens d input packed bytes
    → output ≢ packed
    → d.readable packed ≡ true
    → d.writable output ≡ true
    → length bytes < 2 ^ 63
    → let (_, d1) = compress_rle d input packed in
      let (size, d2) = decompress_rle d1 packed output in
      (size ≡ length bytes) × (d2.files output ≡ some bytes)
decompress_rle-compress_rle {d} {input} {packed} {output} {bytes} o differ readable writable h =
    rw (compress_rle_lem o, decompress_rle-pack (runs bytes) opens, unpack-runs bytes)
      (ground arith, ground (arith, str_eq_self output))
  where
    d1 : Disk
    d1 = put_file (put_file d packed []) packed (pack (runs bytes))

    opens : Opens d1 packed output (pack (runs bytes))
    opens = record {
      differ = differ;
      contents = ground (arith, str_eq_self packed);
      writable = writable;
    }

-- A compressed file with a byte left over behind its pairs makes `DecompressRLE` return -1; what
-- the whole pairs stand for has been written by then.
decompress_rle-left_over :
    {d : Disk} {input output : String} (ps : List Run) (last : ℕ)
    → Opens d input output (pack ps ++ last ∷ [])
    → let (size, d1) = decompress_rle d input output in
      (size ≡ minus_one) × (d1.files output ≡ some (unpack ps))
unfolding decompress_rle
decompress_rle-left_over {d} {input} {output} ps last o = ground (
  arith,
  str_eq_ne output input o.differ,
  str_eq_self output,
  decompress_loop-left_over ps last [] 0,
)

-- If the input or the output of `CompressRLE` or of `DecompressRLE` cannot be opened, the call
-- returns -1 and changes no file.
rle-unopened :
    (d : Disk) (input output : String)
    → (open_read d input ≡ none) ⊎ (d.writable output ≡ false)
    → (compress_rle d input output ≡ (minus_one, d))
      × (decompress_rle d input output ≡ (minus_one, d))
unfolding compress_rle decompress_rle
rle-unopened d input output (inl h) = ground arith
rle-unopened d input output (inr h) = elim (Option-cases (open_read d input)) [
  | inl e ↦ ground arith
  | inr (bytes, e) ↦ ground arith
]

-- The disk lets `main` open its three files.
pub record Serves (d : Disk) : Type 0 where
  pub original : (d.readable original_file ≡ true) × (d.writable original_file ≡ true)
  pub compressed : (d.readable compressed_file ≡ true) × (d.writable compressed_file ≡ true)
  pub decompressed : d.writable decompressed_file ≡ true

test_bytes_size : (test_bytes.1 ≡ 465) × (length test_bytes.0 ≡ 465)
unfolding test_bytes
test_bytes_size = (refl, refl)

runs-test_bytes : runs test_bytes.0 ≡ (255, b'A') ∷ (10, b'B') ∷ (150, b'Z') ∷ (50, b'C') ∷ []
unfolding test_bytes runs runs_from
runs-test_bytes = refl

module _ {d : Disk} (serves : Serves d) where
  abbrev generated : Disk
  generated = put_file (put_file d original_file []) original_file test_bytes.0

  abbrev packed : Disk
  packed =
      put_file (put_file generated compressed_file []) compressed_file (pack (runs test_bytes.0))

  generate_test_file_lem : generate_test_file d original_file ≡ (465, generated)
  unfolding generate_test_file
  generate_test_file_lem = ground (arith, serves, test_bytes_size)

  generated-Opens : Opens generated original_file compressed_file test_bytes.0
  generated-Opens = record {
    differ = ne_of_str_eq compressed_file original_file refl;
    contents = ground (arith, serves);
    writable = ground (arith, serves);
  }

  packed-Opens : Opens packed compressed_file decompressed_file (pack (runs test_bytes.0))
  packed-Opens = record {
    differ = ne_of_str_eq decompressed_file compressed_file refl;
    contents = ground (arith, serves);
    writable = ground (arith, serves);
  }

  abbrev unpacked : Disk
  unpacked =
      put_file (put_file packed decompressed_file []) decompressed_file (unpack (runs test_bytes.0))

  compress_rle-generated : compress_rle generated original_file compressed_file ≡ (8, packed)
  compress_rle-generated =
      compress_rle_lem generated-Opens ∙ ap (λ n. (n, packed)) (rw runs-test_bytes)

  decompress_rle-packed : decompress_rle packed compressed_file decompressed_file ≡ (465, unpacked)
  decompress_rle-packed =
      decompress_rle-pack (runs test_bytes.0) packed-Opens
      ∙ ap (λ n. (n, unpacked)) (rw (unpack-runs test_bytes.0) (omega (arith, test_bytes_size)))

  -- `main` succeeds, prints the sizes 465, 8 and 465, and leaves a decompressed file that is the
  -- original, if its files can be opened.
  main-success :
      let (report, d') = main d in
      (report ≡ success 465 8 465)
      × (d'.files original_file ≡ some test_bytes.0)
      × (d'.files decompressed_file ≡ some test_bytes.0)
  unfolding main
  main-success =
      rw (generate_test_file_lem, compress_rle-generated, decompress_rle-packed)
        (refl, refl, ap some (unpack-runs test_bytes.0))
