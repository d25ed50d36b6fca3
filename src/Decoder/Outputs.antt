-- ===== src/Decoder/Outputs.antt =====
-- The output files of PP2/decode_c/src/main.c.
use ciic.Common.{ℕ, ◌<◌, ◌≡◌, ◌⊎◌, some, List, ◌++◌, arith, length, map, subst}
use ciic.Decoder.{total_pixels, tests, Pixel, decrypt, ppm_header, Disk, ended, System, Reach}
use ciic.Decoder.Threads.{flat, txt_lines, AtPlace}
use ciic.Decoder.Refine.{Reach-Sim}

-- A thread that has left its loop has decoded all the whole pixels of the picture, or 10000 of them: its
-- files hold them, decoded with its key, after the header and one a line, and its entry of `progress`
-- counts them.
pub ended-outputs :
    {d : Disk} {s : System} (id : ℕ)
    → Reach d s
    → (s.threads id).place ≡ ended
    → (ps : List Pixel) × (rest : List ℕ) × (d.encrypt ≡ some (flat ps ++ rest))
      × ((length rest < 3) ⊎ (length ps ≡ total_pixels))
      × ((s.threads id).ppm ≡ some (ppm_header ++ flat (map (decrypt (tests id)) ps)))
      × ((s.threads id).txt ≡ some (txt_lines (map (decrypt (tests id)) ps)))
      × (s.progress id ≡ length ps)
ended-outputs {d} {s} id reach at =
    let (w, works, sim) = Reach-Sim reach in
    let (run, all) = subst (AtPlace d id (s.progress id) (s.threads id) (w id)) at (sim id) in
    (w id, (s.threads id).rest, run.source, all, run.ppm, run.txt, omega (arith, run.entry))
