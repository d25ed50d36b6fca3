-- ===== src/HorseRace/Arrival.antt =====
-- The horses of Section3/L1/src/main.c stay on the track, and the order of arrival in its array.
use ciic.Common.{
  ℕ, ◌+◌, ◌≤◌, ◌<◌, ◌≡◌, refl, arith, length, length-set, set, some, get_elem?, get_elem?-set_self,
  subst, sym, ℕ_discrete,
}
use ciic.Common.Threads.{
  update, update_self, update_ne, sum_below, sum_below-update, sum_below-le, sum_below-zero,
}
use ciic.HorseRace.{
  num_horses, track_length, Board, Place, testing, writing, storing, returned, Horse, advance, Turn,
  move, skip, go_on, arrive, read, write, load, store, System, turn, Reach, start, later, init,
}

-- A horse that has left its loop.
abbrev arrived : Place → ℕ
arrived returned = 1
arrived _ = 0

abbrev pub weight : Horse → ℕ
weight h = arrived h.place

weight-le : (h : Horse) → weight h ≤ 1
weight-le h = ground arith

-- The horses that have left their loop.
abbrev pub arrivals : (ℕ → Horse) → ℕ
arrivals horses = sum_below weight num_horses horses

-- Before the end a horse is on the track, and a value that it has read is at most the arrivals.
abbrev PlaceOk : ℕ → ℕ → Place → Type 0
PlaceOk total track testing = track < track_length
PlaceOk total track (writing count) = count ≤ total
PlaceOk total track (storing count) = count ≤ total
PlaceOk total track _ = Unit

record Inv (s : System) : Type 0 where
  on_track : (id : ℕ) → (s.horses id).track ≤ track_length
  places : (id : ℕ) → PlaceOk (arrivals s.horses) (s.horses id).track (s.horses id).place
  counted : s.board.finish_count ≤ arrivals s.horses
  first : 1 ≤ arrivals s.horses → 1 ≤ s.board.finish_count
  as_long : length s.board.finish_order ≡ num_horses

PlaceOk-mono : (a b track : ℕ) (p : Place) → a ≤ b → PlaceOk a track p → PlaceOk b track p
PlaceOk-mono a b track p le h = ground arith

advance-le : (track random : ℕ) → advance track random ≤ track_length
unfolding advance
advance-le track random = ground arith

module _ {s : System} (inv : Inv s) (id : ℕ) (known : id < num_horses) where
  -- What a turn of a horse does to the fields of the invariant.
  record Effect (b : Board) (h : Horse) : Type 0 where
    track_ok : h.track ≤ track_length
    more : arrivals s.horses ≤ arrivals (update s.horses id h)
    place_ok : PlaceOk (arrivals (update s.horses id h)) h.track h.place
    count_ok : b.finish_count ≤ arrivals (update s.horses id h)
    first_ok : 1 ≤ arrivals (update s.horses id h) → 1 ≤ b.finish_count
    order_ok : length b.finish_order ≡ num_horses

  tally :
      (h : Horse)
      → weight (s.horses id) + arrivals (update s.horses id h) ≡ weight h + arrivals s.horses
  tally h = sum_below-update weight num_horses s.horses id h known

  Turn-Effect : {b : Board} {h : Horse} → Turn id s.board (s.horses id) b h → Effect b h
  Turn-Effect {h} (move random e lt) =
      ground (arith, inv, tally h, inv.places id, advance-le (s.horses id).track random)
  Turn-Effect {h} (skip e ge) = ground (arith, inv, tally h, inv.places id)
  Turn-Effect {h} (go_on e lt) = ground (arith, inv, tally h, inv.places id)
  Turn-Effect {h} (arrive e ge) = ground (arith, inv, tally h, inv.places id, inv.on_track id)
  Turn-Effect {h} (read e) = ground (arith, inv, tally h, inv.places id, inv.on_track id)
  Turn-Effect {h} (write {count} e) = ground (
    arith,
    inv,
    tally h,
    inv.places id,
    inv.on_track id,
    length-set s.board.finish_order count id,
  )
  Turn-Effect {h} (load e) = ground (arith, inv, tally h, inv.places id, inv.on_track id)
  Turn-Effect {h} (store e) = ground (arith, inv, tally h, inv.places id, inv.on_track id)

  Turn-Inv :
      {b : Board} {h : Horse}
      → Turn id s.board (s.horses id) b h
      → Inv (record { board = b; horses = update s.horses id h })
  Turn-Inv {b} {h} t = record {
    on_track = λ j. ground (arith, inv.on_track j, e.track_ok);
    places = λ j. elim (ℕ_discrete j id) [
      | yes same ↦ subst HorseOk (sym (at_self j same)) e.place_ok
      | no other ↦
          subst HorseOk (sym (update_ne s.horses id h j other))
            (PlaceOk-mono _ _ (s.horses j).track (s.horses j).place e.more (inv.places j))
    ];
    counted = e.count_ok;
    first = e.first_ok;
    as_long = e.order_ok;
  }
    where
      e : Effect b h
      e = Turn-Effect t

      HorseOk : Horse → Type 0
      HorseOk k = PlaceOk (arrivals (update s.horses id h)) k.track k.place

      at_self : (j : ℕ) → j ≡ id → update s.horses id h j ≡ h
      at_self j same = rw same (update_self s.horses id h)

Reach-Inv : {s : System} → Reach s → Inv s
Reach-Inv start = record {
  on_track = λ id. omega arith;
  places = λ id. omega arith;
  counted = omega arith;
  first =
      λ h. absurd (omega (arith, h, sum_below-zero weight num_horses init.horses (λ i p. refl)));
  as_long = refl;
}
Reach-Inv (later r (turn id known t)) = Turn-Inv (Reach-Inv r) id known t

-- In a reachable state no horse is behind the end of the track, the count of the horses is at most
-- the number of those that have left their loop, and is not 0 once there is one.
race_bounded :
    {s : System}
    → Reach s
    → ((id : ℕ) → (s.horses id).track ≤ track_length)
      × (s.board.finish_count ≤ arrivals s.horses)
      × (1 ≤ arrivals s.horses → 1 ≤ s.board.finish_count)
race_bounded {s} reach = (inv.on_track, inv.counted, inv.first)
  where
    inv : Inv s
    inv = Reach-Inv reach

-- In a reachable state a horse that is about to enter itself in the order of arrival does so inside
-- the array, whatever other horses do between its read of the count and its write.
pub entry_in_bounds :
    {s : System} {count : ℕ}
    → Reach s
    → (id : ℕ) → id < num_horses
    → (s.horses id).place ≡ writing count
    → (count < length s.board.finish_order)
      × (get_elem? (set s.board.finish_order count id) count ≡ some id)
entry_in_bounds {s} {count} reach id known e =
    (inside, get_elem?-set_self s.board.finish_order count id inside)
  where
    inv : Inv s
    inv = Reach-Inv reach

    inside : count < length s.board.finish_order
    inside = ground (
      arith,
      inv,
      inv.places id,
      tally inv id known (record { track = 0; place = returned }),
      sum_below-le weight 1 weight-le num_horses
          (update s.horses id (record { track = 0; place = returned })),
    )
