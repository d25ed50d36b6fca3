-- ===== src/HorseRace.antt =====
-- Section3/L1/src/main.c: five horses, a thread each, that run along a track and enter themselves in
-- the order of arrival.
pub mod Arrival
pub mod Results
mod Tests
use ciic.Common.{ℕ, ◌+◌, ◌%◌, ◌≤◌, ◌<◌, ◌≡◌, List, replicate, set, ltb, if◌then◌else◌}
use ciic.Common.Threads.{update}

abbrev pub num_horses : ℕ
num_horses = 5

abbrev pub track_length : ℕ
track_length = 50

-- The globals that the horses share.
pub record Board : Type 0 where
  pub finish_order : List ℕ
  pub finish_count : ℕ

-- Where `horse_run` stands: at the test of the `while`, behind the move, and at each access to
-- `finish_count` and `finish_order`; `writing` and `storing` hold the value that has been read.
pub data Place : Type 0 where
  testing : Place
  comparing : Place
  reading : Place
  writing : ℕ → Place
  loading : Place
  storing : ℕ → Place
  returned : Place

-- A thread, with its own entry of `track`.
pub record Horse : Type 0 where
  pub track : ℕ
  pub place : Place

-- The move: at most three fields, and not beyond the end.
pub advance : ℕ → ℕ → ℕ
advance track random =
    if ltb track_length (track + random % 4) then track_length else track + random % 4

-- `horse_run` of horse `id`
pub data Turn (id : ℕ) (b : Board) (h : Horse) : Board → Horse → Type 0 where
  move :
      (random : ℕ)
      → h.place ≡ testing
      → h.track < track_length
      → Turn id b h b (record { track = advance h.track random; place = comparing })
  skip : h.place ≡ testing → track_length ≤ h.track → Turn id b h b (record h { place = returned })
  go_on :
      h.place ≡ comparing → h.track < track_length → Turn id b h b (record h { place = testing })
  arrive :
      h.place ≡ comparing → track_length ≤ h.track → Turn id b h b (record h { place = reading })
  read : h.place ≡ reading → Turn id b h b (record h { place = writing b.finish_count })
  write :
      {count : ℕ}
      → h.place ≡ writing count
      → Turn id b h
          (record b { finish_order = set b.finish_order count id })
          (record h { place = loading })
  load : h.place ≡ loading → Turn id b h b (record h { place = storing b.finish_count })
  store :
      {count : ℕ}
      → h.place ≡ storing count
      → Turn id b h (record b { finish_count = count + 1 }) (record h { place = returned })

pub record System : Type 0 where
  pub board : Board
  pub horses : ℕ → Horse

pub data Step (s : System) : System → Type 0 where
  turn :
      (id : ℕ) {b : Board} {h : Horse}
      → id < num_horses
      → Turn id s.board (s.horses id) b h
      → Step s (record { board = b; horses = update s.horses id h })

abbrev pub init : System
init = record {
  board = record { finish_order = replicate num_horses 0; finish_count = 0 };
  horses = λ id. record { track = 0; place = testing };
}

pub data Reach : System → Type 0 where
  start : Reach init
  later : {s t : System} → Reach s → Step s t → Reach t
