-- ===== src/Decoder/Refine.antt =====
-- The threads of PP2/decode_c/src/main.c, in any order of their steps, do what independent workers do
-- that take one pixel after the other from the picture.
use ciic.Common.{
  ℕ, ◌<◌, ◌≡◌, ◌⊎◌, inl, inr, refl, some, List, [], ◌∷◌, ◌++◌, length, ℕ_discrete, subst, sym,
}
use mathlib.Core.Logic.{ite}
use ciic.Common.Threads.{update}
use ciic.Decoder.{
  num_threads, total_pixels, Pixel, rgb, Disk, Thread, System, Step, turn, tick, init, Reach, start,
  later,
}
use ciic.Decoder.Threads.{flat, ThreadSim, Turn-Rounds}

-- What each worker has decoded; a worker that has not decoded all pixels that it may takes the next.
abbrev pub Work : Type 0
Work = ℕ → List Pixel

pub data Decodes (d : Disk) (w : Work) : Work → Type 0 where
  next :
      (id : ℕ) (p : Pixel) (rest : List ℕ)
      → id < num_threads
      → length (w id) < total_pixels
      → d.encrypt ≡ some (flat (w id) ++ (rgb p ++ rest))
      → Decodes d w (update w id (w id ++ p ∷ []))

-- A state of the program stands to the work of the workers.
abbrev pub Sim : Disk → System → Work → Type 0
Sim d s w = (id : ℕ) → ThreadSim d id (s.progress id) (s.threads id) (w id)

-- At the start nothing is decoded.
pub init-Sim : (d : Disk) → Sim d init (λ id. [])
init-Sim d id = (refl, refl)

unchanged-Sim :
    (d : Disk) (s : System) (w : Work) (id n : ℕ) (th : Thread)
    → Sim d s w
    → ThreadSim d id n th (w id)
    → (j : ℕ) → ThreadSim d j (update s.progress id n j) (update s.threads id th j) (w j)
unchanged-Sim d s w id n th sim here j =
    elim (ℕ_discrete j id)
      as (λ x. ThreadSim d j (ite x n (s.progress j)) (ite x th (s.threads j)) (w j)) [
        | yes p ↦ subst (λ k. ThreadSim d k n th (w k)) (sym p) here
        | no p ↦ sim j
      ]

update-Sim :
    (d : Disk) (s : System) (w : Work) (id n : ℕ) (th : Thread) (ps : List Pixel)
    → Sim d s w
    → ThreadSim d id n th ps
    → (j : ℕ)
    → ThreadSim d j (update s.progress id n j) (update s.threads id th j) (update w id ps j)
update-Sim d s w id n th ps sim here j =
    elim (ℕ_discrete j id)
      as (λ x. ThreadSim d j (ite x n (s.progress j)) (ite x th (s.threads j)) (ite x ps (w j))) [
        | yes p ↦ subst (λ k. ThreadSim d k n th ps) (sym p) here
        | no p ↦ sim j
      ]

-- Every step of the program, whichever thread takes it, leaves the work as it is or is one step of the
-- workers: the next pixel of the picture, decoded by one of them.
pub Step-Sim :
    {d : Disk} {s t : System} (w : Work)
    → Step d s t
    → Sim d s w
    → Sim d t w ⊎ ((w' : Work) × Decodes d w w' × Sim d t w')
Step-Sim {d} {s} {t} w (turn id {m} {n} {th} known tn) sim = elim (Turn-Rounds (w id) tn (sim id)) [
  | inl here ↦ inl (unchanged-Sim d s w id n th sim here)
  | inr (p, rest, lt, e, here) ↦ inr (
    update w id (w id ++ p ∷ []),
    next id p rest known lt e,
    update-Sim d s w id n th (w id ++ p ∷ []) sim here,
  )
]
Step-Sim w (tick free) sim = inl sim

-- What the workers can come to
pub data Works (d : Disk) : Work → Type 0 where
  begin : Works d (λ id. [])
  go_on : {w w' : Work} → Works d w → Decodes d w w' → Works d w'

-- Every state that the program can reach, in any order of the steps of its threads and with SIGALRM at
-- any point of a thread that holds the mutex, stands to some work of the workers: the entry of a
-- thread in `progress` is the number of its pixels, or one less from its writes to its `++`.
pub Reach-Sim : {d : Disk} {s : System} → Reach d s → (w : Work) × Works d w × Sim d s w
Reach-Sim {d} start = (λ id. [], begin, init-Sim d)
Reach-Sim (later reach step) =
    let (w, works, sim) = Reach-Sim reach in
    elim (Step-Sim w step sim) [
      | inl same ↦ (w, works, same)
      | inr (w', decodes, sim') ↦ (w', go_on works decodes, sim')
    ]
