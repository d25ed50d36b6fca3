-- ===== src/HorseRace/Results.antt =====
-- The final results that main of Section3/L1/src/main.c prints, for horses that enter themselves one
-- after the other.
use ciic.Common.{
  ℕ, zero, suc, ◌+◌, ◌<◌, ◌≡◌, refl, Bool, true, false, some, List, [], ◌∷◌, arith, length, set,
  get_elem?, get_elem?-set_ne, get_or, length-set, subst, sym, ap, ◌∙◌, ℕ_discrete,
}
use ciic.Common.Threads.{update, update_self, update_ne}
use ciic.HorseRace.{
  num_horses, track_length, Board, Place, testing, comparing, reading, writing, loading, storing,
  returned, Horse, Turn, move, skip, go_on, arrive, read, write, load, store, System, Step, turn,
  Reach, start, later, init,
}
use ciic.HorseRace.Arrival.{entry_in_bounds}

-- The lines "Place %d: Horse %d" from index `i` on
unfoldable pub places_from : ℕ → ℕ → List ℕ → List (ℕ × ℕ)
places_from zero i finish_order = []
places_from (suc left) i finish_order =
    (i + 1, get_or finish_order i 0) ∷ places_from left (i + 1) finish_order

-- What `main` prints when it has joined the horses
unfoldable pub final_results : Board → List (ℕ × ℕ)
unfolding places_from
final_results b = places_from num_horses 0 b.finish_order

-- The horse has read `finish_count`, and has not stored it again.
abbrev pub entering : Place → Bool
entering (writing count) = true
entering loading = true
entering (storing count) = true
entering _ = false

-- One horse at a time, at most, enters itself.
abbrev pub Alone : System → Type 0
Alone s =
    (i j : ℕ) → entering (s.horses i).place ≡ true → entering (s.horses j).place ≡ true → i ≡ j

-- The runs in which this is so all the time
pub data Orderly : System → Type 0 where
  orderly_start : Orderly init
  orderly_later : {s t : System} → Orderly s → Step s t → Alone t → Orderly t

Orderly-Reach : {s : System} → Orderly s → Reach s
Orderly-Reach orderly_start = start
Orderly-Reach (orderly_later run step alone) = later (Orderly-Reach run) step

Orderly-Alone : {s : System} → Orderly s → Alone s
Orderly-Alone orderly_start = λ i j p q. absurd (ground (arith, p))
Orderly-Alone (orderly_later run step alone) = alone

-- The horse stands in the order of arrival.
abbrev Entered : Board → ℕ → Type 0
Entered b id = (p : ℕ) × (p < b.finish_count) × (get_elem? b.finish_order p ≡ some id)

abbrev PlaceOk : Board → ℕ → ℕ → Place → Type 0
PlaceOk b id track testing = track < track_length
PlaceOk b id track comparing = Unit
PlaceOk b id track reading = Unit
PlaceOk b id track (writing count) = count ≡ b.finish_count
PlaceOk b id track loading = get_elem? b.finish_order b.finish_count ≡ some id
PlaceOk b id track (storing count) =
    (count ≡ b.finish_count) × (get_elem? b.finish_order count ≡ some id)
PlaceOk b id track returned = Entered b id

abbrev HorseOk : Board → ℕ → Horse → Type 0
HorseOk b id h = PlaceOk b id h.track h.place

-- The place of a horse as the turn finds it
at_place :
    (b : Board) (id : ℕ) (h : Horse) {p : Place}
    → h.place ≡ p
    → HorseOk b id h
    → PlaceOk b id h.track p
at_place b id h e ok = subst (PlaceOk b id h.track) e ok

Turn-HorseOk :
    {id : ℕ} {b b' : Board} {h h' : Horse}
    → Turn id b h b' h'
    → ((count : ℕ)
        → h.place ≡ writing count
        → get_elem? (set b.finish_order count id) count ≡ some id)
    → HorseOk b id h
    → HorseOk b' id h'
Turn-HorseOk (move random e lt) inside ok = tt
Turn-HorseOk {id} {b} {h = h} (skip e ge) inside ok =
    absurd (omega (arith, at_place b id h e ok, ge))
Turn-HorseOk (go_on e lt) inside ok = lt
Turn-HorseOk (arrive e ge) inside ok = tt
Turn-HorseOk (read e) inside ok = refl
Turn-HorseOk {id} {b} {h = h} (write {count} e) inside ok =
    subst (λ n. get_elem? (set b.finish_order count id) n ≡ some id) (at_place b id h e ok)
      (inside count e)
Turn-HorseOk {id} {b} {h = h} (load e) inside ok = (refl, at_place b id h e ok)
Turn-HorseOk {id} {b} {h = h} (store {count} e) inside ok =
    let here = at_place b id h e ok in (count, omega arith, here.1)

keeps :
    (b b' : Board) (j track : ℕ) (p : Place)
    → entering p ≡ false
    → (Entered b j → Entered b' j)
    → PlaceOk b j track p
    → PlaceOk b' j track p
keeps b b' j track testing quiet more ok = ok
keeps b b' j track comparing quiet more ok = tt
keeps b b' j track reading quiet more ok = tt
keeps b b' j track (writing count) quiet more ok = absurd (ground (arith, quiet))
keeps b b' j track loading quiet more ok = absurd (ground (arith, quiet))
keeps b b' j track (storing count) quiet more ok = absurd (ground (arith, quiet))
keeps b b' j track returned quiet more ok = more ok

-- The other horses
Turn-others :
    {id : ℕ} {b b' : Board} {h h' : Horse}
    → Turn id b h b' h'
    → HorseOk b id h
    → (j : ℕ) (k : Horse) → (entering h.place ≡ true → entering k.place ≡ false)
    → HorseOk b j k
    → HorseOk b' j k
Turn-others (move random e lt) ok j k alone other = other
Turn-others (skip e ge) ok j k alone other = other
Turn-others (go_on e lt) ok j k alone other = other
Turn-others (arrive e ge) ok j k alone other = other
Turn-others (read e) ok j k alone other = other
Turn-others {id} {b} {b'} {h} (write {count} e) ok j k alone other =
    keeps b b' j k.track k.place (alone (ground (arith, e)))
      (λ (p, lt, at). (
        p,
        lt,
        get_elem?-set_ne b.finish_order id (λ same. omega (arith, same, lt, at_place b id h e ok))
            ∙ at,
      ))
      other
Turn-others (load e) ok j k alone other = other
Turn-others {id} {b} {b'} {h} (store {count} e) ok j k alone other =
    keeps b b' j k.track k.place (alone (ground (arith, e)))
      (λ (p, lt, at). (p, omega (arith, lt, (at_place b id h e ok).0), at)) other

Orderly-HorseOk : {s : System} → Orderly s → (id : ℕ) → HorseOk s.board id (s.horses id)
Orderly-HorseOk orderly_start id = omega arith
Orderly-HorseOk (orderly_later {s} run (turn id {b} {h} known t) alone) j = elim (ℕ_discrete j id) [
  | yes same ↦
      subst (HorseOk b j) (sym (ap (update s.horses id h) same ∙ update_self s.horses id h)) (
        subst (λ i. HorseOk b i h) (sym same)
          (Turn-HorseOk t (λ count e. (entry_in_bounds (Orderly-Reach run) id known e).1)
            (Orderly-HorseOk run id)))
  | no other ↦ subst (HorseOk b j) (sym (update_ne s.horses id h j other)) (
      Turn-others t (Orderly-HorseOk run id) j (s.horses j)
        (λ p. quiet (s.horses j).place (λ q. other (Orderly-Alone run j id q p)))
        (Orderly-HorseOk run j))
]
  where
    quiet : (p : Place) → (entering p ≡ true → ⊥) → entering p ≡ false
    quiet p h = ground (arith, h)

get_elem?-places_from :
    (left i : ℕ) (order : List ℕ) (p : ℕ)
    → p < left
    → get_elem? (places_from left i order) p ≡ some (i + p + 1, get_or order (i + p) 0)
unfolding places_from
get_elem?-places_from zero i order p h = absurd (omega (arith, h))
get_elem?-places_from (suc left) i order zero h =
    ap (λ n. some (n + 1, get_or order n 0)) (omega arith)
get_elem?-places_from (suc left) i order (suc p) h =
    get_elem?-places_from left (i + 1) order p (omega (arith, h))
    ∙ ap (λ n. some (n + 1, get_or order n 0)) (omega arith)

Turn-length :
    {id : ℕ} {b b' : Board} {h h' : Horse}
    → Turn id b h b' h'
    → length b'.finish_order ≡ length b.finish_order
Turn-length (move random e lt) = refl
Turn-length (skip e ge) = refl
Turn-length (go_on e lt) = refl
Turn-length (arrive e ge) = refl
Turn-length (read e) = refl
Turn-length {id} {b} (write {count} e) = length-set b.finish_order count id
Turn-length (load e) = refl
Turn-length (store e) = refl

Reach-length : {s : System} → Reach s → length s.board.finish_order ≡ num_horses
Reach-length start = refl
Reach-length (later reach (turn id known t)) = Turn-length t ∙ Reach-length reach

get_elem?-inside :
    (xs : List ℕ) (i x : ℕ) → get_elem? xs i ≡ some x → (i < length xs) × (get_or xs i 0 ≡ x)
get_elem?-inside [] i x h = absurd (ground (arith, h))
get_elem?-inside (y ∷ xs) zero x h = ground (arith, h)
get_elem?-inside (y ∷ xs) (suc i) x h =
    let (lt, same) = get_elem?-inside xs i x h in (omega (arith, lt), same)

-- One horse at a time, at most, is between its read of `finish_count` and its store of it. Then a horse
-- that has left its loop has a place in the results, if these are printed now: some line gives that
-- place to this horse. So when all have left, each horse is in the final results.
pub all_placed :
    {s : System}
    → Orderly s
    → (id : ℕ) → (s.horses id).place ≡ returned
    → (p : ℕ) × (p < num_horses) × (get_elem? (final_results s.board) p ≡ some (p + 1, id))
unfolding final_results
all_placed {s} run id ended =
    let (p, lt, at) = at_place s.board id (s.horses id) ended (Orderly-HorseOk run id) in
    let (inside, same) = get_elem?-inside s.board.finish_order p id at in
    let here : p < num_horses = omega (arith, inside, Reach-length (Orderly-Reach run)) in
    let plain : 0 + p ≡ p = omega arith in
    (
      p,
      here,
      get_elem?-places_from num_horses 0 s.board.finish_order p here
          ∙ ap (λ n. some (n + 1, get_or s.board.finish_order n 0)) plain
          ∙ ap (λ x. some (p + 1, x)) same,
    )
