-- ===== src/Ball/Game.antt =====
-- The game of Bono (main.c of its second directory): what holds in every state that it reaches.
use ciic.Common.{
  ℕ, ◌+◌, ◌≤◌, ◌≡◌, ◌≢◌, ◌⊎◌, inl, inr, Bool, true, false, none, some, [], ◌∷◌, arith, Bool-cases,
  if◌then◌else◌, All, All-append,
}
use ciic.Ball.{Pos, Window}
use ciic.Ball.Threads.{
  System, Step, keyboard_step, mover_step, collision_step, main_go_on, main_stop, main_lock,
  main_copy, main_unlock, main_draw, main_show, main_join, init, Reach, start, later, KeyPc,
  key_testing, polling, key_locking, switching, clamping, key_unlocking, key_returned, drawing,
  MovePc, move_testing, move_locking, stepping, clamping_x, move_unlocking, move_returned,
}
use ciic.Ball.Clamp.{Inside, Fits}
use ciic.Ball.Invariant.{
  main_holds, key_holds, move_holds, hit_holds, BallOk, XOk, Drawn, has_quit, Owners, Places,
  Reasons, Inv,
}
use ciic.Ball.Turns.{
  Key-Owners, Move-Owners, Hit-Owners, Key-Places, Move-Places, Hit-Places, Key-Reasons,
  Move-Reasons, Hit-Reasons,
}

BallOk-Inside :
    (w : Window) (kb : KeyPc) (p : Pos) → key_holds kb ≡ false → BallOk w kb p → Inside w p
BallOk-Inside w clamping p free ok = absurd cc
BallOk-Inside w key_testing p free ok = ok
BallOk-Inside w polling p free ok = ok
BallOk-Inside w (key_locking ch) p free ok = ok
BallOk-Inside w (switching ch) p free ok = ok
BallOk-Inside w key_unlocking p free ok = ok
BallOk-Inside w key_returned p free ok = ok

XOk-Inside : (w : Window) (mv : MovePc) (p : Pos) → move_holds mv ≡ false → XOk w mv p → Inside w p
XOk-Inside w clamping_x p free ok = absurd cc
XOk-Inside w move_testing p free ok = ok
XOk-Inside w move_locking p free ok = ok
XOk-Inside w stepping p free ok = ok
XOk-Inside w move_unlocking p free ok = ok
XOk-Inside w move_returned p free ok = ok

copied-Drawn :
    {w : Window} {s : System} {b x : Pos} → Inv w s → s.main ≡ drawing b x → Drawn w (b, x)
unfolding Owners Places Reasons
copied-Drawn inv e = ground (arith, inv)

module _ {w : Window} (fits : Fits w) where
  Step-Inv : {s t : System} → Inv w s → Step w s t → Inv w t
  unfolding Owners Places Reasons
  Step-Inv inv (keyboard_step t) = record {
    owners = Key-Owners _ _ _ t inv.owners;
    places = Key-Places _ _ _ fits t inv.places;
    reasons = Key-Reasons _ _ _ t inv.reasons;
  }
  Step-Inv {s} inv (mover_step t) = record {
    owners = Move-Owners _ _ _ t inv.owners;
    places = Move-Places _ _ _ fits t inv.places;
    reasons = Move-Reasons _ _ _ s.pressed _ t inv.reasons;
  }
  Step-Inv {s} inv (collision_step t) = record {
    owners = Hit-Owners _ _ _ t inv.owners;
    places = Hit-Places _ _ _ _ _ t inv.places;
    reasons = Hit-Reasons _ _ s.pressed _ t inv.reasons;
  }
  Step-Inv inv (main_go_on e on) = ground (arith, inv)
  Step-Inv inv (main_stop e off) = ground (arith, inv)
  Step-Inv inv (main_lock e free) = ground (arith, inv)
  Step-Inv {s} inv (main_copy e) = ground (
    arith,
    inv,
    BallOk-Inside w s.keyboard s.globals.ball_pos,
    XOk-Inside w s.mover s.globals.x_pos,
  )
  Step-Inv inv (main_unlock e) = ground (arith, inv)
  Step-Inv {s} inv (main_draw {b} {x} e) = record {
    owners = ground (arith, inv);
    places = ground (
      arith,
      inv,
      copied-Drawn inv e,
      All-append (Drawn w) s.frames ((b, x) ∷ []) inv.places.3 (copied-Drawn inv e, tt),
    );
    reasons = ground (arith, inv);
  }
  Step-Inv {s} inv (main_show e) = elim (Bool-cases s.globals.won) [
    | inl won ↦ ground (arith, inv, won)
    | inr lost ↦ ground (arith, inv, lost)
  ]
  Step-Inv inv (main_join e kb mv ht) = ground (arith, inv)

Inv-init : (w : Window) → Fits w → Inv w (init w)
unfolding Owners Places Reasons
Inv-init w fits = record { owners = ground arith; places = ground arith; reasons = ground arith }

Reach-Inv : {w : Window} {s : System} → Fits w → Reach w s → Inv w s
Reach-Inv {w} fits start = Inv-init w fits
Reach-Inv fits (later r t) = Step-Inv fits (Reach-Inv fits r) t

-- In a window of five columns and three rows at least, in every reachable state each position that
-- main has drawn is inside the border, and so are the ball and X wherever no thread holds the mutex.
pub frames-Inside :
    {w : Window} {s : System}
    → Fits w
    → Reach w s
    → All (Drawn w) s.frames
      × (s.globals.pos_mtx ≡ none → Inside w s.globals.ball_pos × Inside w s.globals.x_pos)
unfolding Owners Places
frames-Inside {w} {s} fits reach = (
  inv.places.3,
  λ free. ground (
    arith,
    inv.owners,
    inv.places,
    BallOk-Inside w s.keyboard s.globals.ball_pos,
    XOk-Inside w s.mover s.globals.x_pos,
  ),
)
  where
    inv : Inv w s
    inv = Reach-Inv fits reach

-- Threads between lock and unlock
abbrev pub holders : System → ℕ
holders s =
    (if main_holds s.main then 1 else 0)
    + (if key_holds s.keyboard then 1 else 0)
    + (if move_holds s.mover then 1 else 0)
    + (if hit_holds s.collision then 1 else 0)

-- In a reachable state at most one thread is between lock and unlock, and one is if the mutex is
-- taken.
one_holder :
    {w : Window} {s : System}
    → Fits w
    → Reach w s
    → (holders s ≤ 1) × (s.globals.pos_mtx ≢ none → holders s ≡ 1)
unfolding Owners
one_holder fits reach = (
  ground (arith, (Reach-Inv fits reach).owners),
  λ ne. ground (arith, (Reach-Inv fits reach).owners),
)

-- In a reachable state the message "You win!" is shown only if a collision has been found, and
-- "Bye!" only if q or Q has been pressed.
message_reason :
    {w : Window} {s : System} {m : Bool}
    → Fits w
    → Reach w s
    → s.shown ≡ some m
    → ((m ≡ true) × (s.globals.won ≡ true)) ⊎ ((m ≡ false) × (has_quit s.pressed ≡ true))
unfolding Reasons
message_reason {m = true} fits reach e = ground (arith, (Reach-Inv fits reach).reasons)
message_reason {m = false} fits reach e = ground (arith, (Reach-Inv fits reach).reasons)
