-- ===== src/Matrix/Product.antt =====
-- Section4/L1/src/functions.c: the three loops of HeavyCpuTask compute the product of two matrices.
use ciic.Common.{
  ℕ, zero, suc, ◌+◌, ◌/◌, ◌≤◌, ◌<◌, ◌≡◌, refl, Bool, ◌&&◌, some, [], ◌∷◌, ◌++◌, ◌==◌, if◌then◌else◌,
  arith, leb, ltb, ◌∙◌, ap, ap₂,
}
use ciic.Common.Int.{ℤ, pos, sub_ℕ}
use ciic.Matrix.{
  Doubles, Matrix, put, tenths, Matrices, fill_cell, fill_row, fill_rows, multiply_cell,
  multiply_row, multiply_rows, time_taken, Machine, log, clock_warnings, on_matrices,
  heavy_cpu_task,
}

-- Whether `x` is one of the `n` numbers from `low` on
abbrev pub in_range : ℕ → ℕ → ℕ → Bool
in_range low n x = leb low x && ltb x (low + n)

module _ (d : Doubles) (size : ℕ) where
  -- The products of `n` elements of a row and a column from index `k` on, added to `sum` one by one
  unfoldable pub dot : ℕ → ℕ → (ℕ → d.Double) → (ℕ → d.Double) → d.Double → d.Double
  dot zero k row column sum = sum
  dot (suc n) k row column sum = dot n (k + 1) row column (d.add sum (d.mul (row k) (column k)))

  multiply_cell-dot :
      (left i j k : ℕ) (a b c : Matrix d size) (r s : ℕ)
      → multiply_cell d size left i j k a b c r s
        ≡ (if r == i && s == j then dot left k (a r) (λ t. b t s) (c r s) else c r s)
  unfolding multiply_cell dot
  multiply_cell-dot zero i j k a b c r s = ground arith
  multiply_cell-dot (suc left) i j k a b c r s = ground (
    arith,
    multiply_cell-dot left i j (k + 1) a b
        (put d size c i j (d.add (c i j) (d.mul (a i k) (b k j)))) r s,
  )

  multiply_row-dot :
      (left i j : ℕ) (a b c : Matrix d size) (r s : ℕ)
      → multiply_row d size left i j a b c r s
        ≡ (if r == i && in_range j left s then dot size 0 (a r) (λ t. b t s) (c r s) else c r s)
  unfolding multiply_row
  multiply_row-dot zero i j a b c r s = ground arith
  multiply_row-dot (suc left) i j a b c r s = ground (
    arith,
    multiply_row-dot left i (j + 1) a b (multiply_cell d size size i j 0 a b c) r s,
    multiply_cell-dot size i j 0 a b c r s,
  )

  -- The loops over `left` rows from row `i` on leave in every row and column of these, and below
  -- `size`, the products of that row of `a` and that column of `b`, added to what was there; the other
  -- elements stay. With all rows, and zeros in `c`, this is the product of the two matrices.
  pub multiply_rows-dot :
      (left i : ℕ) (a b c : Matrix d size) (r s : ℕ)
      → multiply_rows d size left i a b c r s ≡ (
          if in_range i left r && in_range 0 size s
          then dot size 0 (a r) (λ t. b t s) (c r s)
          else c r s)
  unfolding multiply_rows
  multiply_rows-dot zero i a b c r s = ground arith
  multiply_rows-dot (suc left) i a b c r s = ground (
    arith,
    multiply_rows-dot left (i + 1) a b (multiply_row d size size i 0 a b c) r s,
    multiply_row-dot size i 0 a b c r s,
  )

  dot-ext :
      (n k : ℕ) (row row' column column' : ℕ → d.Double) (sum : d.Double)
      → ((t : ℕ) → t < k + n → row t ≡ row' t)
      → ((t : ℕ) → t < k + n → column t ≡ column' t)
      → dot n k row column sum ≡ dot n k row' column' sum
  unfolding dot
  dot-ext zero k row row' column column' sum p q = refl
  dot-ext (suc n) k row row' column column' sum p q =
      ap (dot n (k + 1) row column)
        (ap₂ (λ x y. d.add sum (d.mul x y)) (p k (omega arith)) (q k (omega arith)))
      ∙ dot-ext n (k + 1) row row' column column' (d.add sum (d.mul (row' k) (column' k)))
          (λ t h. p t (omega (arith, h))) (λ t h. q t (omega (arith, h)))

  -- What the matrices start with
  abbrev first_a : ℕ → ℕ → d.Double
  first_a r s = tenths d size (pos (r + s))

  abbrev first_b : ℕ → ℕ → d.Double
  first_b r s = tenths d size (sub_ℕ r s)

  record Filled (m out : Matrices d size) (region : Bool) (r s : ℕ) : Type 0 where
    a : out.a r s ≡ (if region then first_a r s else m.a r s)
    b : out.b r s ≡ (if region then first_b r s else m.b r s)
    c : out.c r s ≡ (if region then d.of_ℤ (pos 0) else m.c r s)

  fill_row-Filled :
      (left i j : ℕ) (m : Matrices d size) (r s : ℕ)
      → Filled m (fill_row d size left i j m) (r == i && in_range j left s) r s
  unfolding fill_row
  fill_row-Filled zero i j m r s = record { a = ground arith; b = ground arith; c = ground arith }
  fill_row-Filled (suc left) i j m r s =
      let next = fill_row-Filled left i (j + 1) (fill_cell d size i j m) r s in
      record { a = ground (arith, next.a); b = ground (arith, next.b); c = ground (arith, next.c) }

  fill_rows-Filled :
      (left i : ℕ) (m : Matrices d size) (r s : ℕ)
      → Filled m (fill_rows d size left i m) (in_range i left r && in_range 0 size s) r s
  unfolding fill_rows
  fill_rows-Filled zero i m r s = record { a = ground arith; b = ground arith; c = ground arith }
  fill_rows-Filled (suc left) i m r s =
      let row = fill_row-Filled size i 0 m r s in
      let next = fill_rows-Filled left (i + 1) (fill_row d size size i 0 m) r s in
      record {
        a = ground (arith, next.a, row.a);
        b = ground (arith, next.b, row.b);
        c = ground (arith, next.c, row.c);
      }

  -- `HeavyCpuTask` gets its three blocks, whatever stands in them, and the matrices have one row at
  -- least. Then it prints a warning for each reading of the clock that failed, the nice value and the core that it was given, the time between the two
  -- readings of the clock, and as its checksum the element in the middle of the product: the products
  -- of the middle row of A and the middle column of B, added up from the first to the last.
  pub heavy_cpu_task-dot :
      (nice : ℤ) (machine : Machine d size) (a b c : Matrix d size)
      → 1 ≤ size
      → machine.block_a ≡ some a
      → machine.block_b ≡ some b
      → machine.block_c ≡ some c
      → heavy_cpu_task d size nice machine
        ≡ clock_warnings d size machine
          ++ (log nice machine.cpu
                (time_taken d size machine.started machine.ended)
                (dot size 0 (first_a (size / 2)) (λ k. first_b k (size / 2)) (d.of_ℤ (pos 0)))
              ∷ [])
  unfolding heavy_cpu_task on_matrices
  heavy_cpu_task-dot nice machine a b c some_row p q r =
      rw (p, q, r)
        (ap
          (λ x.
            clock_warnings d size machine
            ++ (log nice machine.cpu (time_taken d size machine.started machine.ended) x ∷ []))
          checksum)
    where
      half : ℕ
      half = size / 2

      blocks : Matrices d size
      blocks = record { a = a; b = b; c = c }

      m : Matrices d size
      m = fill_rows d size size 0 blocks

      checksum :
          multiply_rows d size size 0 m.a m.b m.c half half
          ≡ dot size 0 (first_a half) (λ k. first_b k half) (d.of_ℤ (pos 0))
      checksum =
          ground (arith, some_row, multiply_rows-dot size 0 m.a m.b m.c half half)
          ∙ dot-ext size 0 (m.a half) (first_a half) (λ k. m.b k half) (λ k. first_b k half)
              (m.c half half)
              (λ t h. ground (arith, some_row, h, (fill_rows-Filled size 0 blocks half t).a))
              (λ t h. ground (arith, some_row, h, (fill_rows-Filled size 0 blocks t half).b))
          ∙ ap (dot size 0 (first_a half) (λ k. first_b k half))
              (ground (arith, some_row, (fill_rows-Filled size 0 blocks half half).c))
