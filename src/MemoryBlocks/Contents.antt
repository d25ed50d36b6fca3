-- ===== src/MemoryBlocks/Contents.antt =====
-- What main of Section4/L2/src/main.c logs of its blocks, and what it leaves mapped.
use ciic.Common.{
  ℕ, suc, ◌<◌, ◌≡◌, refl, Bool, true, false, ◌||◌, none, some, List, [], ◌∷◌, if◌then◌else◌, arith,
  All, ap, ap₂, Option-cases, inl, inr,
}
use ciic.MemoryBlocks.{
  Os, Memory, is_within, map_pages, unmap_pages, put_int, Request, requests, on_mmap, create_from,
  create_memory_blocks, Entry, print_result_log, on_entry, print_logs, release, clean_up, main,
  get_os_map_range, range_size,
}

module _ (os : Os) where
  -- Whether a call of `mmap`, from call `i` on, gives a range that holds an address.
  unfoldable pub is_taken : ℕ → List Request → ℕ → Bool
  is_taken i [] x = false
  is_taken i (r ∷ rs) x = elim (os.mmap i r.addr r.size r.fixed) [
    | none ↦ is_taken (suc i) rs x
    | some a ↦ is_within a r.size x || is_taken (suc i) rs x
  ]

  -- No block starts inside a range that is mapped after it.
  unfoldable pub Apart : ℕ → List Request → Type 0
  Apart i [] = Unit
  Apart i (r ∷ rs) =
      ((a : ℕ) → os.mmap i r.addr r.size r.fixed ≡ some a → is_taken (suc i) rs a ≡ false)
      × Apart (suc i) rs

  -- The log that is meant: each block with its address and its value, up to the first block that could
  -- not be mapped; and whether all could.
  unfoldable pub wanted : ℕ → List Request → List Entry × Bool
  wanted i [] = ([], true)
  wanted i (r ∷ rs) = elim (os.mmap i r.addr r.size r.fixed) [
    | none ↦ ([], false)
    | some a ↦ (
      record {
        name = r.name;
        address = a;
        size = r.size;
        value = r.value;
        os_map_range = get_os_map_range (os.maps i) a [] range_size;
      }
          ∷ (wanted (suc i) rs).0,
      (wanted (suc i) rs).1,
    )
  ]

  create_from-other :
      (i : ℕ) (rs : List Request) (m : Memory) (x : ℕ)
      → All (λ r. 0 < r.size) rs
      → is_taken i rs x ≡ false
      → (create_from os i rs m).1 x ≡ m x
  unfolding create_from on_mmap is_taken
  create_from-other i [] m x sizes h = refl
  create_from-other i (r ∷ rs) m x sizes h = elim (Option-cases (os.mmap i r.addr r.size r.fixed)) [
    | inl p ↦ ground (arith, p, create_from-other (suc i) rs m x sizes.1)
    | inr (a, p) ↦ ground (
      arith,
      p,
      sizes.0,
      create_from-other (suc i) rs (put_int a r.value (map_pages a r.size m)) x sizes.1,
    )
  ]

  print_logs-create_from :
      (i : ℕ) (rs : List Request) (m : Memory)
      → All (λ r. 0 < r.size) rs
      → Apart i rs
      → print_logs (create_from os i rs m).1 (create_from os i rs m).0 ≡ wanted i rs
  unfolding create_from on_mmap print_logs print_result_log on_entry wanted Apart
  print_logs-create_from i [] m h apart = refl
  print_logs-create_from i (r ∷ rs) m sizes (first, apart) =
      elim (Option-cases (os.mmap i r.addr r.size r.fixed)) [
        | inl p ↦ ground (arith, p)
        | inr (a, p) ↦
            let m' = put_int a r.value (map_pages a r.size m) in
            ground (
              arith,
              p,
              print_logs-create_from (suc i) rs m' sizes.1 apart,
              create_from-other (suc i) rs m' a sizes.1 (first a p),
            )
      ]

  clean_up-create_from :
      (i : ℕ) (rs : List Request) (m m' : Memory) (x : ℕ)
      → clean_up (create_from os i rs m).0 m' x ≡ (if is_taken i rs x then none else m' x)
  unfolding create_from on_mmap clean_up release is_taken
  clean_up-create_from i [] m m' x = refl
  clean_up-create_from i (r ∷ rs) m m' x = elim (Option-cases (os.mmap i r.addr r.size r.fixed)) [
    | inl p ↦ ground (arith, p, clean_up-create_from (suc i) rs m m' x)
    | inr (a, p) ↦ ground (
      arith,
      p,
      clean_up-create_from (suc i) rs (put_int a r.value (map_pages a r.size m))
          (unmap_pages a r.size m') x,
    )
  ]

  freed :
      (i : ℕ) (rs : List Request) (m : Memory) (x : ℕ)
      → All (λ r. 0 < r.size) rs
      → clean_up (create_from os i rs m).0 (create_from os i rs m).1 x
        ≡ (if is_taken i rs x then none else m x)
  freed i rs m x sizes = ground (
    arith,
    clean_up-create_from i rs m (create_from os i rs m).1 x,
    create_from-other i rs m x sizes,
  )

  -- Where no block starts inside a range that is mapped after it, `main` logs each block with the address
  -- that `mmap` gave it, the value that was stored in it and its line of /proc/self/maps. The log stops at
  -- the first block that could not be mapped, with the fault of reading it; if there is none, then
  -- behind `main` nothing of the blocks is mapped any more, and all other memory is as before.
  pub main-wanted :
      (m : Memory)
      → Apart 0 requests
      → ((main os m).0 ≡ (wanted 0 requests).0)
        × ((main os m).1 ≡ (
            if (wanted 0 requests).1
            then some (λ x. if is_taken 0 requests x then none else m x)
            else none))
  unfolding main create_memory_blocks
  main-wanted m apart =
      let sizes : All (λ (r : Request). 0 < r.size) requests = ground arith in
      let logs = print_logs-create_from 0 requests m sizes apart in
      (
        ap (λ w. w.0) logs,
        ap₂ (λ (ends : Bool) (left : Memory). if ends then some left else none) (ap (λ w. w.1) logs)
            (λ i x. freed 0 requests m x sizes i),
      )
