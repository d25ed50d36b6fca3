-- ===== src/Decoder/Threads.antt =====
-- Each thread of PP2/decode_c/src/main.c by itself: what it holds when it has decoded some pixels, and
-- what a step of it makes of that.
use ciic.Common.{
  ℕ, ◌+◌, ◌≤◌, ◌<◌, ◌≡◌, ◌⊎◌, inl, inr, refl, Option, some, List, [], ◌∷◌, ◌++◌, arith, length, map,
  append_assoc, append-nil, subst, length-append, dec_lt, lt→ltb,
}
use ciic.Decoder.{
  total_pixels, tests, Pixel, decrypt, rgb, txt_line, ppm_header, Disk, Place, opening, reading,
  locking, counting, counted, interrupted, ended, failed, Thread, append, opened, open_files,
  on_bytes, decode_pixel, Turn, open_all, read, lock, count, unlock, interrupt, interrupt_counted,
}

-- The bytes of a list of pixels
unfoldable pub flat : List Pixel → List ℕ
flat [] = []
flat (p ∷ ps) = rgb p ++ flat ps

unfoldable pub txt_lines : List Pixel → List ℕ
txt_lines [] = []
txt_lines (p ∷ ps) = txt_line p ++ txt_lines ps

flat-append : (ps : List Pixel) (p : Pixel) → flat (ps ++ p ∷ []) ≡ flat ps ++ rgb p
unfolding flat
flat-append [] p = refl
flat-append (q ∷ ps) p = ground (arith, flat-append ps p)

txt_lines-append :
    (ps : List Pixel) (p : Pixel) → txt_lines (ps ++ p ∷ []) ≡ txt_lines ps ++ txt_line p
unfolding txt_lines
txt_lines-append [] p = append-nil (txt_line p)
txt_lines-append (q ∷ ps) p =
    ground (arith, txt_lines-append ps p, append_assoc (txt_line q) (txt_lines ps) (txt_line p))

map-append_one :
    (f : Pixel → Pixel) (ps : List Pixel) (p : Pixel) → map f (ps ++ p ∷ []) ≡ map f ps ++ f p ∷ []
map-append_one f [] p = refl
map-append_one f (q ∷ ps) p = ground (arith, map-append_one f ps p)

-- How the place, the index and the entry of `progress` of a thread stand to the pixels that it has
-- decoded: the index is `pending` behind them, and the entry `uncounted`.
pub record Running (d : Disk) (id n : ℕ) (th : Thread) (pending uncounted : ℕ) (ps : List Pixel)
    : Type 0 where
  pub source : d.encrypt ≡ some (flat ps ++ th.rest)
  pub index : th.i + pending ≡ length ps
  pub entry : n + uncounted ≡ length ps
  pub ppm : th.ppm ≡ some (ppm_header ++ flat (map (decrypt (tests id)) ps))
  pub txt : th.txt ≡ some (txt_lines (map (decrypt (tests id)) ps))
  pub bound : length ps ≤ total_pixels

abbrev pub AtPlace : Disk → ℕ → ℕ → Thread → List Pixel → Place → Type 0
AtPlace d id n th ps opening = (ps ≡ []) × (n ≡ 0)
AtPlace d id n th ps failed = (ps ≡ []) × (n ≡ 0)
AtPlace d id n th ps reading = Running d id n th 0 0 ps
AtPlace d id n th ps ended =
    Running d id n th 0 0 ps × ((length th.rest < 3) ⊎ (length ps ≡ total_pixels))
AtPlace d id n th ps counted = Running d id n th 1 0 ps
AtPlace d id n th ps interrupted = Running d id n th 1 1 ps ⊎ Running d id n th 1 0 ps
AtPlace d id n th ps _ = Running d id n th 1 1 ps

abbrev pub ThreadSim : Disk → ℕ → ℕ → Thread → List Pixel → Type 0
ThreadSim d id n th ps = AtPlace d id n th ps th.place

open_files-ThreadSim :
    (d : Disk) (id n : ℕ) (th : Thread) (ps : List Pixel)
    → th.place ≡ opening
    → ThreadSim d id n th ps
    → ThreadSim d id n (open_files d id th) ps
unfolding open_files opened flat txt_lines
open_files-ThreadSim d id n th ps at sim =
    let here : AtPlace d id n th ps opening = subst (AtPlace d id n th ps) at sim in
    ground (arith, here)

-- The thread of a round, behind its writes.
abbrev written : ℕ → Thread → Pixel → List ℕ → Thread
written id th p rest = record th {
  place = locking;
  rest = rest;
  ppm = append th.ppm (rgb (decrypt (tests id) p));
  txt = append th.txt (txt_line (decrypt (tests id) p));
}

written-Running :
    (d : Disk) (id n : ℕ) (th : Thread) (ps : List Pixel) (p : Pixel) (rest : List ℕ)
    → th.rest ≡ rgb p ++ rest
    → th.i < total_pixels
    → Running d id n th 0 0 ps
    → Running d id n (written id th p rest) 1 1 (ps ++ p ∷ [])
written-Running d id n th ps p rest e lt run = record {
  source = rw (flat-append ps p) (ground (arith, run, e, append_assoc (flat ps) (rgb p) rest));
  index = omega (arith, run.index, length-append ps (p ∷ []));
  entry = omega (arith, run.entry, length-append ps (p ∷ []));
  ppm = ground (
    arith,
    run,
    map-append_one (decrypt (tests id)) ps p,
    flat-append (map (decrypt (tests id)) ps) (decrypt (tests id) p),
    append_assoc ppm_header (flat (map (decrypt (tests id)) ps)) (rgb (decrypt (tests id) p)),
  );
  txt = ground (
    arith,
    run,
    map-append_one (decrypt (tests id)) ps p,
    txt_lines-append (map (decrypt (tests id)) ps) (decrypt (tests id) p),
  );
  bound = omega (arith, run.index, length-append ps (p ∷ []));
}

-- A round of the loop leaves the loop, or decodes the next pixel.
abbrev pub Rounds : Disk → ℕ → ℕ → List Pixel → Thread → Type 0
Rounds d id n ps th' =
    ThreadSim d id n th' ps
    ⊎ ((p : Pixel) × (rest : List ℕ) × (length ps < total_pixels)
        × (d.encrypt ≡ some (flat ps ++ (rgb p ++ rest)))
        × ThreadSim d id n th' (ps ++ p ∷ []))

on_bytes-Rounds :
    (d : Disk) (id n : ℕ) (th : Thread) (ps : List Pixel) (bytes : List ℕ)
    → th.rest ≡ bytes
    → th.i < total_pixels
    → Running d id n th 0 0 ps
    → Rounds d id n ps (on_bytes (tests id) bytes th)
unfolding on_bytes
on_bytes-Rounds d id n th ps [] e lt run = inl (ground (arith, run))
on_bytes-Rounds d id n th ps (r ∷ []) e lt run = inl (ground (arith, run))
on_bytes-Rounds d id n th ps (r ∷ g ∷ []) e lt run = inl (ground (arith, run))
on_bytes-Rounds d id n th ps (r ∷ g ∷ b ∷ rest) e lt run = inr (
  (r, g, b),
  rest,
  omega (arith, run.index),
  ground (arith, run, e),
  written-Running d id n th ps (r, g, b) rest e lt run,
)

decode_pixel-Rounds :
    (d : Disk) (id n : ℕ) (th : Thread) (ps : List Pixel)
    → th.place ≡ reading
    → ThreadSim d id n th ps
    → Rounds d id n ps (decode_pixel (tests id) th)
unfolding decode_pixel
decode_pixel-Rounds d id n th ps at sim =
    let run : AtPlace d id n th ps reading = subst (AtPlace d id n th ps) at sim in
    elim (dec_lt th.i total_pixels) [
      | yes lt ↦ rw (lt→ltb _ _ lt) (on_bytes-Rounds d id n th ps th.rest refl lt run)
      | no ge ↦ inl (ground (arith, run))
    ]

lock-ThreadSim :
    (d : Disk) (id n : ℕ) (th : Thread) (ps : List Pixel)
    → th.place ≡ locking
    → ThreadSim d id n th ps
    → ThreadSim d id n (record th { place = counting }) ps
lock-ThreadSim d id n th ps at sim =
    let run : AtPlace d id n th ps locking = subst (AtPlace d id n th ps) at sim in
    ground (arith, run)

count-ThreadSim :
    (d : Disk) (id n : ℕ) (th : Thread) (ps : List Pixel)
    → th.place ≡ counting
    → ThreadSim d id n th ps
    → ThreadSim d id (n + 1) (record th { place = counted }) ps
count-ThreadSim d id n th ps at sim =
    let run : AtPlace d id n th ps counting = subst (AtPlace d id n th ps) at sim in
    ground (arith, run)

unlock-ThreadSim :
    (d : Disk) (id n : ℕ) (th : Thread) (ps : List Pixel)
    → th.place ≡ counted
    → ThreadSim d id n th ps
    → ThreadSim d id n (record th { place = reading; i = th.i + 1 }) ps
unlock-ThreadSim d id n th ps at sim =
    let run : AtPlace d id n th ps counted = subst (AtPlace d id n th ps) at sim in
    ground (arith, run)

interrupt-ThreadSim :
    (d : Disk) (id n : ℕ) (th : Thread) (ps : List Pixel)
    → th.place ≡ counting
    → ThreadSim d id n th ps
    → ThreadSim d id n (record th { place = interrupted }) ps
interrupt-ThreadSim d id n th ps at sim =
    let run : AtPlace d id n th ps counting = subst (AtPlace d id n th ps) at sim in
    inl (ground (arith, run))

interrupt_counted-ThreadSim :
    (d : Disk) (id n : ℕ) (th : Thread) (ps : List Pixel)
    → th.place ≡ counted
    → ThreadSim d id n th ps
    → ThreadSim d id n (record th { place = interrupted }) ps
interrupt_counted-ThreadSim d id n th ps at sim =
    let run : AtPlace d id n th ps counted = subst (AtPlace d id n th ps) at sim in
    inr (ground (arith, run))

pub Turn-Rounds :
    {d : Disk} {id n n' : ℕ} {m m' : Option ℕ} {th th' : Thread} (ps : List Pixel)
    → Turn d id m n th m' n' th'
    → ThreadSim d id n th ps
    → Rounds d id n' ps th'
Turn-Rounds {d} {id} {n} {n'} {m} {m'} {th} ps (open_all at) sim =
    inl (open_files-ThreadSim d id n th ps at sim)
Turn-Rounds {d} {id} {n} {n'} {m} {m'} {th} ps (read at) sim =
    decode_pixel-Rounds d id n th ps at sim
Turn-Rounds {d} {id} {n} {n'} {m} {m'} {th} ps (lock at free) sim =
    inl (lock-ThreadSim d id n th ps at sim)
Turn-Rounds {d} {id} {n} {n'} {m} {m'} {th} ps (count at) sim =
    inl (count-ThreadSim d id n th ps at sim)
Turn-Rounds {d} {id} {n} {n'} {m} {m'} {th} ps (interrupt at) sim =
    inl (interrupt-ThreadSim d id n th ps at sim)
Turn-Rounds {d} {id} {n} {n'} {m} {m'} {th} ps (unlock at) sim =
    inl (unlock-ThreadSim d id n th ps at sim)
Turn-Rounds {d} {id} {n} {n'} {m} {m'} {th} ps (interrupt_counted at) sim =
    inl (interrupt_counted-ThreadSim d id n th ps at sim)
