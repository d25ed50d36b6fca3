-- ===== src/MemoryBlocks.antt =====
-- Section4/L2/src/main.c: four blocks of memory from `mmap`, and the ranges that /proc/self/maps shows
-- for them.
pub mod Ranges
pub mod Contents
mod Tests
use ciic.Common.{
  ℕ, zero, suc, ◌+◌, ◌-◌, ◌*◌, ◌≡◌, Bool, true, false, ◌&&◌, Option, none, some, List, [], ◌∷◌,
  ◌++◌, ltb, leb, ◌==◌, if◌then◌else◌, take, ◌>>=◌,
}
use ciic.Common.Text.{codes, fgets_all}
use ciic.Common.Hex.{print_hex, scan_hex}

-- The texts that the buffers hold are written without their terminating zero.
pub record MemoryBlock : Type 0 where
  pub name : List ℕ
  -- `none` is MAP_FAILED
  pub address : Option ℕ
  pub size : ℕ
  pub os_map_range : List ℕ

abbrev pub line_size : ℕ
line_size = 256

abbrev pub range_size : ℕ
range_size = 30

-- `strncpy(output_buffer, text, buf_size - 1)` or `snprintf(output_buffer, buf_size, …)`, and the zero at
-- the end of the buffer; a buffer of size 0 is left alone.
pub put_text : List ℕ → ℕ → List ℕ → List ℕ
put_text output_buffer buf_size text =
    if buf_size == 0 then output_buffer else take (buf_size - 1) text

-- `sscanf(line, "%lx-%lx", &start, &end) == 2`
pub on_end : ℕ → Option (ℕ × List ℕ) → Option (ℕ × ℕ)
on_end start none = none
on_end start (some (end, rest)) = some (start, end)

pub on_start : Option (ℕ × List ℕ) → Option (ℕ × ℕ)
unfolding on_end
on_start none = none
on_start (some (start, [])) = none
on_start (some (start, c ∷ rest)) = if c == b'-' then on_end start (scan_hex rest) else none

pub scan_range : List ℕ → Option (ℕ × ℕ)
unfolding on_start
scan_range line = on_start (scan_hex line)

abbrev pub range_text : ℕ → ℕ → List ℕ
range_text start end = print_hex start ++ (b'-' ∷ print_hex end)

-- A round of the `while` on what `sscanf` reads, where `rest` is what the rounds behind it find.
pub on_range : ℕ → Option (ℕ × ℕ) → Option (ℕ × ℕ) → Option (ℕ × ℕ)
on_range addr none rest = rest
on_range addr (some (start, end)) rest =
    if leb start addr && ltb addr end then some (start, end) else rest

-- The `while`: the range that it stops at.
pub find_range : ℕ → List (List ℕ) → Option (ℕ × ℕ)
unfolding scan_range on_range
find_range addr [] = none
find_range addr (line ∷ lines) = on_range addr (scan_range line) (find_range addr lines)

pub show_range : List ℕ → ℕ → Option (ℕ × ℕ) → List ℕ
unfolding put_text
show_range output_buffer buf_size none = put_text output_buffer buf_size (codes "NOT_FOUND")
show_range output_buffer buf_size (some (start, end)) =
    put_text output_buffer buf_size (range_text start end)

-- `Get_os_map_range`: what `output_buffer` holds behind it. The file is `none` if `fopen` fails.
pub get_os_map_range : Option (List ℕ) → ℕ → List ℕ → ℕ → List ℕ
unfolding show_range find_range
get_os_map_range none addr output_buffer buf_size =
    put_text output_buffer buf_size (codes "FILE_ERROR")
get_os_map_range (some file) addr output_buffer buf_size =
    show_range output_buffer buf_size (find_range addr (fgets_all line_size file))

-- What the system gives: the address that call `i` of `mmap` returns for the address, the size and
-- MAP_FIXED that it is asked for, and what /proc/self/maps then holds.
pub record Os : Type 0 where
  pub mmap : ℕ → ℕ → ℕ → Bool → Option ℕ
  pub maps : ℕ → Option (List ℕ)

-- The `int` at an address; `none` where nothing is mapped.
abbrev pub Memory : Type 0
Memory = ℕ → Option ℕ

abbrev pub is_within : ℕ → ℕ → ℕ → Bool
is_within start size x = leb start x && ltb x (start + size)

-- Fresh pages are zero.
abbrev pub map_pages : ℕ → ℕ → Memory → Memory
map_pages start size m x = if is_within start size x then some 0 else m x

-- `munmap`
abbrev pub unmap_pages : ℕ → ℕ → Memory → Memory
unmap_pages start size m x = if is_within start size x then none else m x

-- `block->address[0] = value`
abbrev pub put_int : ℕ → ℕ → Memory → Memory
put_int a value m x = if x == a then some value else m x

-- What `Create_memory_blocks` sets for one block in names, sizes, addrs, flags and values.
pub record Request : Type 0 where
  pub name : List ℕ
  pub size : ℕ
  pub addr : ℕ
  pub fixed : Bool
  pub value : ℕ

abbrev pub requests : List Request
requests =
    record { name = codes "BLOCK_0"; size = 64 * 1024; addr = 0; fixed = false; value = 100 }
    ∷ record { name = codes "BLOCK_1"; size = 128 * 1024; addr = 0; fixed = false; value = 200 }
    ∷ record {
      name = codes "BLOCK_2";
      size = 64 * 1024;
      addr = 0x70000000;
      fixed = true;
      value = 300;
    }
    ∷ record {
      name = codes "BLOCK_3";
      size = 64 * 1024;
      addr = 0x80000000;
      fixed = true;
      value = 400;
    }
    ∷ []

-- The round of the second `for`, on the address that `mmap` returns.
pub on_mmap : Option (List ℕ) → Request → Option ℕ → Memory → MemoryBlock × Memory
unfolding get_os_map_range
on_mmap maps r none m = (
  record {
    name = r.name;
    address = none;
    size = r.size;
    os_map_range = put_text [] range_size (codes "MAP_FAILED");
  },
  m,
)
on_mmap maps r (some addr) m = (
  record {
    name = r.name;
    address = some addr;
    size = r.size;
    os_map_range = get_os_map_range maps addr [] range_size;
  },
  put_int addr r.value (map_pages addr r.size m),
)

-- The second `for` from `i` on.
pub create_from : Os → ℕ → List Request → Memory → List MemoryBlock × Memory
unfolding on_mmap
create_from os i [] m = ([], m)
create_from os i (r ∷ rs) m =
    let (block, m') = on_mmap (os.maps i) r (os.mmap i r.addr r.size r.fixed) m in
    let (blocks, m'') = create_from os (suc i) rs m' in (block ∷ blocks, m'')

pub create_memory_blocks : Os → Memory → List MemoryBlock × Memory
unfolding create_from
create_memory_blocks os m = create_from os 0 requests m

-- An entry of the log line
pub record Entry : Type 0 where
  pub name : List ℕ
  pub address : ℕ
  pub size : ℕ
  pub value : ℕ
  pub os_map_range : List ℕ

-- `Print_result_log`; `none` is the fault of reading `address[0]` where nothing is mapped, which is
-- also so of MAP_FAILED.
pub print_result_log : Memory → MemoryBlock → Option Entry
print_result_log m block = do
  a ← block.address
  v ← m a
  some (record {
    name = block.name;
    address = a;
    size = block.size;
    value = v;
    os_map_range = block.os_map_range;
  })

-- The entries that are printed, and whether the loop reaches its end.
pub on_entry : Option Entry → List Entry × Bool → List Entry × Bool
on_entry none rest = ([], false)
on_entry (some entry) (entries, ends) = (entry ∷ entries, ends)

pub print_logs : Memory → List MemoryBlock → List Entry × Bool
unfolding print_result_log on_entry
print_logs m [] = ([], true)
print_logs m (block ∷ blocks) = on_entry (print_result_log m block) (print_logs m blocks)

-- The last `for` of `main`
pub release : MemoryBlock → Memory → Memory
release block m = elim block.address [ none ↦ m | some a ↦ unmap_pages a block.size m ]

pub clean_up : List MemoryBlock → Memory → Memory
unfolding release
clean_up [] m = m
clean_up (block ∷ blocks) m = clean_up blocks (release block m)

-- The log of `main` and, if it does not end in a fault, the memory behind it.
pub main : Os → Memory → List Entry × Option Memory
unfolding create_memory_blocks print_logs clean_up
main os m =
    let (blocks, m') = create_memory_blocks os m in
    let (entries, ends) = print_logs m' blocks in
    (entries, if ends then some (clean_up blocks m') else none)
