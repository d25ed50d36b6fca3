-- ===== src/MemoryBlocks/Ranges.antt =====
-- Get_os_map_range of Section4/L2/src/main.c on a file as the system writes it.
use ciic.Common.{
  ℕ, ◌+◌, ◌*◌, ◌^◌, ◌<◌, ◌≤◌, ◌≡◌, ◌≢◌, refl, true, false, ◌&&◌, Option, none, some, List, [], ◌∷◌,
  ◌++◌, ltb, leb, ◌==◌, if◌then◌else◌, arith, length, All, append_assoc, ap,
}
use ciic.Common.Text.{line_feed, fgets_all}
use ciic.Common.Hex.{print_hex}
use ciic.Common.Hex.RoundTrip.{scan_hex-print_hex}
use ciic.Common.Lines.{NotFeed, fgets_all-line}
use ciic.MemoryBlocks.{
  line_size, on_end, on_start, scan_range, range_text, on_range, find_range, show_range,
  get_os_map_range,
}

-- A mapping of the process, and how a line of /proc/self/maps shows it: the range and a space, then
-- what it is of.
pub record Mapping : Type 0 where
  pub start : ℕ
  pub end : ℕ
  pub rest : List ℕ

abbrev pub line_of : Mapping → List ℕ
line_of p = range_text p.start p.end ++ (b' ' ∷ p.rest)

unfoldable pub maps_file : List Mapping → List ℕ
maps_file [] = []
maps_file (p ∷ ps) = line_of p ++ line_feed ∷ maps_file ps

-- Addresses are of 64 bits, and a line fits into the buffer.
pub record IsShown (p : Mapping) : Type 0 where
  pub start_fits : p.start < 2 ^ 64
  pub end_fits : p.end < 2 ^ 64
  pub no_feed : All NotFeed (line_of p)
  pub fits : length (line_of p) + 2 ≤ line_size

-- The first mapping that an address lies in
unfoldable pub mapping_at : ℕ → List Mapping → Option (ℕ × ℕ)
mapping_at addr [] = none
mapping_at addr (p ∷ ps) =
    if leb p.start addr && ltb addr p.end then some (p.start, p.end) else mapping_at addr ps

scan_range-line_of :
    (p : Mapping) (tail : List ℕ)
    → p.start < 2 ^ 64
    → p.end < 2 ^ 64
    → scan_range (line_of p ++ tail) ≡ some (p.start, p.end)
unfolding scan_range on_start on_end
scan_range-line_of p tail s e = ground (
  arith,
  append_assoc (range_text p.start p.end) (b' ' ∷ p.rest) tail,
  append_assoc (print_hex p.start) (b'-' ∷ print_hex p.end) (b' ' ∷ p.rest ++ tail),
  scan_hex-print_hex p.start b'-' (print_hex p.end ++ (b' ' ∷ p.rest ++ tail)) s refl
      (λ p. absurd (omega (arith, p))) (λ p. absurd (omega (arith, p))),
  scan_hex-print_hex p.end b' ' (p.rest ++ tail) e refl (λ p. absurd (omega (arith, p)))
      (λ p. absurd (omega (arith, p))),
)

find_range-maps_file :
    (addr : ℕ) (ps : List Mapping)
    → All IsShown ps
    → find_range addr (fgets_all line_size (maps_file ps)) ≡ mapping_at addr ps
unfolding find_range on_range maps_file mapping_at fgets_all ciic.Common.Text.fgets_from
find_range-maps_file addr [] h = refl
find_range-maps_file addr (p ∷ ps) (shown, h) =
    rw (fgets_all-line line_size (line_of p) (maps_file ps) shown.no_feed shown.fits) (
      ground (
        arith,
        scan_range-line_of p (line_feed ∷ []) shown.start_fits shown.end_fits,
        find_range-maps_file addr ps h,
      ))

-- In a file that lists mappings, one a line, each line within the buffer of 256 bytes, the range that
-- is stored is that of the first mapping that holds the address, printed and cut to the buffer of the
-- block; if there is none, it is NOT_FOUND.
pub get_os_map_range-maps_file :
    (addr buf_size : ℕ) (output_buffer : List ℕ) (ps : List Mapping)
    → All IsShown ps
    → get_os_map_range (some (maps_file ps)) addr output_buffer buf_size
      ≡ show_range output_buffer buf_size (mapping_at addr ps)
unfolding get_os_map_range
get_os_map_range-maps_file addr buf_size output_buffer ps h =
    ap (show_range output_buffer buf_size) (find_range-maps_file addr ps h)
