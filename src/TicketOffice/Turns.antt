-- ===== src/TicketOffice/Turns.antt =====
-- A step of a buyer or of the office of Section3/H1 keeps the invariant.
use ciic.Common.{
  ℕ, ◌≤◌, ◌≡◌, ◌≢◌, refl, true, false, Option, none, some, List, [], ◌∷◌, arith, All, All-append,
  Bool-cases, inl, inr,
}
use ciic.Common.Threads.{update}
use ciic.TicketOffice.{
  Memory, Buyer, Office, asleep, Report, sell, buy_tickets, System, Turn, draw, enter, sold_out,
  try, leave, leave_last, Watch, wake, look, go_on, close, look_again, read_both, print, next_count,
}
use ciic.TicketOffice.Invariant.{
  IsConsistent, buyer_holds, office_holds, BuyerLocal, OfficeLocal, IsReport, Inv,
  buy_tickets-IsConsistent,
}

-- The mutex is no part of what is consistent.
IsConsistent-mutex :
    {m : Memory} (o : Option ℕ) → IsConsistent m → IsConsistent (record m { mutex = o })
IsConsistent-mutex o c = record {
  size = c.size;
  conserved = c.conserved;
  room = c.room;
  purchases = c.purchases;
}

buy_tickets-shrinks :
    (m : Memory) (k : ℕ)
    → ((buy_tickets m k).0.mutex ≡ m.mutex)
      × ((buy_tickets m k).0.available_tickets ≤ m.available_tickets)
unfolding buy_tickets sell
buy_tickets-shrinks m k = ground arith

IsReport-mono : (a b : ℕ) (rs : List Report) → b ≤ a → All (IsReport a) rs → All (IsReport b) rs
IsReport-mono a b [] h r = tt
IsReport-mono a b ((t, n) ∷ rs) h r = (omega arith, IsReport-mono a b rs h r.1)

OfficeLocal-mono :
    (m m' : Memory) (o : Office)
    → m'.available_tickets ≤ m.available_tickets
    → office_holds o ≡ false
    → OfficeLocal m o
    → OfficeLocal m' o
OfficeLocal-mono m m' (asleep c) h q l = ground arith
OfficeLocal-mono m m' o h q l = ground arith

OfficeLocal-eq :
    (m m' : Memory) (o : Office)
    → m'.available_tickets ≡ m.available_tickets
    → OfficeLocal m o
    → OfficeLocal m' o
OfficeLocal-eq m m' (asleep c) h l = ground arith
OfficeLocal-eq m m' o h l = ground arith

module _ {s : System} (inv : Inv s) (i : ℕ) (ne : i ≢ 0) where
  open inv use {
    consistent, buyers_own, office_owns, office_alone, buyers_know, office_knows, reported,
  }

  record Mover (b : Buyer) : Type 0 where
    here : s.buyers i ≡ b
    know : BuyerLocal s.memory b

  Turn-IsConsistent :
      {b b' : Buyer} {m : Memory} → Turn i s.memory b m b' → Mover b → IsConsistent m
  Turn-IsConsistent (draw r) f = consistent
  Turn-IsConsistent (enter h) f = IsConsistent-mutex (some i) consistent
  Turn-IsConsistent (sold_out h) f = consistent
  Turn-IsConsistent (try h) f = buy_tickets-IsConsistent f.know consistent
  Turn-IsConsistent leave f = IsConsistent-mutex none consistent
  Turn-IsConsistent leave_last f = IsConsistent-mutex none consistent

  -- What a step may do to the tickets and to the mutex.
  Turn-memory :
      {b b' : Buyer} {m : Memory}
      → Turn i s.memory b m b'
      → Mover b
      → (m.available_tickets ≤ s.memory.available_tickets)
        × (buyer_holds b' ≡ true → m.mutex ≡ some i)
        × (buyer_holds b ≡ false → m.available_tickets ≡ s.memory.available_tickets)
        × (buyer_holds b ≡ false → buyer_holds b' ≡ false → m.mutex ≡ s.memory.mutex)
        × (buyer_holds b ≡ false → buyer_holds b' ≡ true → s.memory.mutex ≡ none)
  Turn-memory (draw r) f = ground arith
  Turn-memory (enter h) f = ground arith
  Turn-memory (try {k} h) f = ground (arith, buy_tickets-shrinks s.memory k, buyers_own i)
  Turn-memory mv f = ground (arith, buyers_own i)

  Turn-own :
      {b b' : Buyer} {m : Memory}
      → Turn i s.memory b m b'
      → Mover b
      → (j : ℕ) → buyer_holds (update s.buyers i b' j) ≡ true
      → (m.mutex ≡ some j) × (j ≢ 0)
  Turn-own mv f j q = ground (arith, Turn-memory mv f, buyers_own j, buyers_own i, office_alone j)

  Turn-know :
      {b b' : Buyer} {m : Memory}
      → Turn i s.memory b m b'
      → Mover b
      → (j : ℕ) → BuyerLocal m (update s.buyers i b' j)
  Turn-know (sold_out h) f j = ground (arith, buyers_know j)
  Turn-know (try h) f j = ground (arith, Turn-memory (try h) f, buyers_know j)
  Turn-know mv f j = ground (arith, Turn-memory mv f, buyers_know j)

  Turn-office :
      {b b' : Buyer} {m : Memory}
      → Turn i s.memory b m b'
      → Mover b
      → (office_holds s.office ≡ true → m.mutex ≡ some 0) × OfficeLocal m s.office
  Turn-office {m} mv f = elim (Bool-cases (office_holds s.office)) [
    | inl held ↦
        let (less, own, same, kept, taken) = Turn-memory mv f in
        (
          ground (arith, office_owns, buyers_own i),
          OfficeLocal-eq s.memory m s.office (ground (arith, office_owns, buyers_own i))
              office_knows,
        )
    | inr free ↦
        (λ q. cc, OfficeLocal-mono s.memory m s.office (Turn-memory mv f).0 free office_knows)
  ]

  pub Turn-Inv :
      {b' : Buyer} {m : Memory}
      → Turn i s.memory (s.buyers i) m b'
      → Inv (record s { memory = m; buyers = update s.buyers i b' })
  Turn-Inv {m} mv = record {
    consistent = Turn-IsConsistent mv f;
    buyers_own = λ j q. (Turn-own mv f j q).0;
    office_owns = (Turn-office mv f).0;
    office_alone = λ j q. (Turn-own mv f j q).1;
    buyers_know = Turn-know mv f;
    office_knows = (Turn-office mv f).1;
    reported =
        IsReport-mono s.memory.available_tickets m.available_tickets s.reports (Turn-memory mv f).0
          reported;
  }
    where
      f : Mover (s.buyers i)
      f = record { here = refl; know = buyers_know i }

-- The office writes nothing but the mutex into the memory.
module _ {s : System} (inv : Inv s) where
  open inv use {
    consistent, buyers_own, office_owns, office_alone, buyers_know, office_knows, reported,
  }

  Watch-memory :
      {o o' : Office} {m : Memory} {rs : List Report}
      → Watch s.memory s.reports o m rs o'
      → m ≡ record s.memory { mutex = m.mutex }
  Watch-memory wake = refl
  Watch-memory (print) = refl
  Watch-memory mv = refl

  Watch-office :
      {o o' : Office} {m : Memory} {rs : List Report}
      → Watch s.memory s.reports o m rs o'
      → OfficeLocal s.memory o
      → (office_holds o ≡ true → s.memory.mutex ≡ some 0)
      → (office_holds o' ≡ true → m.mutex ≡ some 0) × OfficeLocal m o'
  unfolding next_count
  Watch-office wake l h = ground arith
  Watch-office (look e) l h = ground arith
  Watch-office (go_on e) l h = ground arith
  Watch-office (close e) l h = ground arith
  Watch-office read_both l h = ground (arith, consistent.room)
  Watch-office mv l h = ground arith

  Watch-buyers :
      {o o' : Office} {m : Memory} {rs : List Report}
      → Watch s.memory s.reports o m rs o'
      → s.office ≡ o
      → (j : ℕ) → (buyer_holds (s.buyers j) ≡ true → m.mutex ≡ some j) × BuyerLocal m (s.buyers j)
  Watch-buyers (look e) h j = ground (arith, buyers_own j, office_alone j, buyers_know j)
  Watch-buyers (look_again e) h j = ground (arith, buyers_own j, office_alone j, buyers_know j)
  Watch-buyers mv h j = ground (arith, buyers_own j, office_alone j, buyers_know j, office_owns)

  Watch-reported :
      {o o' : Office} {m : Memory} {rs : List Report}
      → Watch s.memory s.reports o m rs o'
      → OfficeLocal s.memory o
      → All (IsReport m.available_tickets) rs
  Watch-reported (print {tickets} {transactions}) l =
      All-append (IsReport s.memory.available_tickets) s.reports ((tickets, transactions) ∷ [])
        reported (omega arith)
  Watch-reported wake l = reported
  Watch-reported mv l = reported

  Watch-IsConsistent :
      {o o' : Office} {m : Memory} {rs : List Report}
      → Watch s.memory s.reports o m rs o'
      → IsConsistent m
  Watch-IsConsistent {m} mv = rw (Watch-memory mv) (IsConsistent-mutex m.mutex consistent)

  pub Watch-Inv :
      {o' : Office} {m : Memory} {rs : List Report}
      → Watch s.memory s.reports s.office m rs o'
      → Inv (record s { memory = m; office = o'; reports = rs })
  Watch-Inv mv = record {
    consistent = Watch-IsConsistent mv;
    buyers_own = λ j. (Watch-buyers mv refl j).0;
    office_owns = (Watch-office mv office_knows office_owns).0;
    office_alone = office_alone;
    buyers_know = λ j. (Watch-buyers mv refl j).1;
    office_knows = (Watch-office mv office_knows office_owns).1;
    reported = Watch-reported mv office_knows;
  }
