-- ===== src/MemoryBlocks/Tests.antt =====
-- Runs of Section4/L2/src/main.c, and the theorems at one.
use ciic.Common.{◌≡◌, refl, none, some, List, [], ◌∷◌, ◌+◌, arith, map, if◌then◌else◌, ◌==◌, ltb}
use ciic.Common.Text.{codes, fgets_all}
use ciic.Common.Hex.{print_hex, scan_hex}
use ciic.MemoryBlocks.{Os, Memory, requests, Entry, main, get_os_map_range, show_range}
use ciic.MemoryBlocks.Ranges.{Mapping, IsShown, maps_file, mapping_at, get_os_map_range-maps_file}
use ciic.MemoryBlocks.Contents.{is_taken, Apart, wanted, main-wanted}

abbrev program : Mapping
program = record { start = 0x400000; end = 0x402000; rest = codes "r-xp a.out" }

abbrev block : Mapping
block = record { start = 0x70000000; end = 0x70010000; rest = codes "rw-p" }

abbrev mappings : List Mapping
mappings = program ∷ block ∷ []

-- `mmap` gives each block what it asks for, and two places of its own to the others.
abbrev granted : Os
granted = record {
  mmap = λ i addr size fixed.
      if fixed then some addr else some (0x7f0000000000 + (if i == 0 then 0 else 0x100000));
  maps = λ i. if ltb i 2 then none else some (maps_file mappings);
}

-- The second call fails.
abbrev refused : Os
refused = record {
  mmap = λ i addr size fixed. if i == 1 then none else granted.mmap i addr size fixed;
  maps = λ i. none;
}

abbrev nothing : Memory
nothing x = none

log_four : map (λ (e : Entry). e.value) (main granted nothing).0 ≡ 100 ∷ 200 ∷ 300 ∷ 400 ∷ []
unfolding main maps_file
log_four = refl

ranges_four :
    map (λ (e : Entry). e.os_map_range) (main granted nothing).0
    ≡ codes "FILE_ERROR" ∷ codes "FILE_ERROR" ∷ codes "70000000-70010000" ∷ codes "NOT_FOUND" ∷ []
unfolding main maps_file fgets_all print_hex scan_hex
ranges_four = refl

-- The log stops at BLOCK_1, whose address is MAP_FAILED.
log_refused :
    (map (λ (e : Entry). e.value) (main refused nothing).0 ≡ 100 ∷ [])
    × ((main refused nothing).1 ≡ none)
unfolding main
log_refused = (refl, refl)

program-IsShown : IsShown program
unfolding print_hex
program-IsShown = record {
  start_fits = omega arith;
  end_fits = omega arith;
  no_feed = ground arith;
  fits = ground arith;
}

block-IsShown : IsShown block
unfolding print_hex
block-IsShown = record {
  start_fits = omega arith;
  end_fits = omega arith;
  no_feed = ground arith;
  fits = ground arith;
}

get_os_map_range-maps_file_example :
    get_os_map_range (some (maps_file mappings)) 0x70000010 [] 30
    ≡ show_range [] 30 (mapping_at 0x70000010 mappings)
get_os_map_range-maps_file_example =
    get_os_map_range-maps_file 0x70000010 30 [] mappings
      (ground (arith, program-IsShown, block-IsShown))

-- None of the four blocks starts in a range that is mapped behind it.
granted-Apart : Apart granted 0 requests
unfolding Apart is_taken
granted-Apart = (
  λ a p. ground (arith, p),
  (λ a p. ground (arith, p), (λ a p. ground (arith, p), (λ a p. ground (arith, p), ground arith))),
)

main-wanted_example :
    ((main granted nothing).0 ≡ (wanted granted 0 requests).0)
    × ((main granted nothing).1 ≡ (
        if (wanted granted 0 requests).1
        then some (λ x. if is_taken granted 0 requests x then none else nothing x)
        else none))
main-wanted_example = main-wanted granted nothing granted-Apart
