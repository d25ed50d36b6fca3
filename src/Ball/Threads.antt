-- ===== src/Ball/Threads.antt =====
-- The threads of Bono (main.c of its second directory) and their interleaving.
use ciic.Common.{ℕ, ◌≡◌, Bool, true, false, Option, none, some, List, [], ◌∷◌, ◌++◌, ◌*◌, ◌/◌}
use ciic.Common.Int.{pos}
use ciic.Ball.{Pos, Window, Key, Globals, clamp_ball, random_move, press, collides}

-- Where a thread stands. The index of a thread in the mutex: main 0, keyboard 1, mover 2, collision 3.
pub data KeyPc : Type 0 where
  key_testing : KeyPc
  polling : KeyPc
  key_locking : Key → KeyPc
  switching : Key → KeyPc
  clamping : KeyPc
  key_unlocking : KeyPc
  key_returned : KeyPc

pub data MovePc : Type 0 where
  move_testing : MovePc
  move_locking : MovePc
  stepping : MovePc
  clamping_x : MovePc
  move_unlocking : MovePc
  move_returned : MovePc

pub data HitPc : Type 0 where
  hit_testing : HitPc
  hit_locking : HitPc
  comparing : HitPc
  stopping : HitPc
  hit_unlocking : HitPc
  hit_returned : HitPc

pub data MainPc : Type 0 where
  main_testing : MainPc
  main_locking : MainPc
  copying : MainPc
  main_unlocking : Pos → Pos → MainPc
  drawing : Pos → Pos → MainPc
  showing : MainPc
  joining : MainPc
  ended : MainPc

abbrev pub locked : Globals → ℕ → Globals
locked g owner = record g { pos_mtx = some owner }

abbrev pub unlocked : Globals → Globals
unlocked g = record g { pos_mtx = none }

-- `keyboard_thread`
pub data KeyTurn (w : Window) (g : Globals) (ks : List Key)
    : KeyPc → Globals → List Key → KeyPc → Type 0 where
  key_go_on : g.running ≡ true → KeyTurn w g ks key_testing g ks polling
  key_stop : g.running ≡ false → KeyTurn w g ks key_testing g ks key_returned
  no_key : KeyTurn w g ks polling g ks key_testing
  key : (ch : Key) → KeyTurn w g ks polling g (ks ++ ch ∷ []) (key_locking ch)
  key_lock :
      {ch : Key} → g.pos_mtx ≡ none → KeyTurn w g ks (key_locking ch) (locked g 1) ks (switching ch)
  switch : {ch : Key} → KeyTurn w g ks (switching ch) (press ch g) ks clamping
  clamp : KeyTurn w g ks clamping (record g { ball_pos = clamp_ball w g.ball_pos }) ks key_unlocking
  key_unlock : KeyTurn w g ks key_unlocking (unlocked g) ks key_testing

-- `x_mover_thread`
pub data MoveTurn (w : Window) (g : Globals) : MovePc → Globals → MovePc → Type 0 where
  move_go_on : g.running ≡ true → MoveTurn w g move_testing g move_locking
  move_stop : g.running ≡ false → MoveTurn w g move_testing g move_returned
  move_lock : g.pos_mtx ≡ none → MoveTurn w g move_locking (locked g 2) stepping
  step :
      (rand1 rand2 : ℕ)
      → MoveTurn w g stepping (record g { x_pos = random_move rand1 rand2 g.x_pos }) clamping_x
  clamp_x : MoveTurn w g clamping_x (record g { x_pos = clamp_ball w g.x_pos }) move_unlocking
  move_unlock : MoveTurn w g move_unlocking (unlocked g) move_testing

-- `collision_thread`; `won` is stored before `running`.
pub data HitTurn (g : Globals) : HitPc → Globals → HitPc → Type 0 where
  hit_go_on : g.running ≡ true → HitTurn g hit_testing g hit_locking
  hit_stop : g.running ≡ false → HitTurn g hit_testing g hit_returned
  hit_lock : g.pos_mtx ≡ none → HitTurn g hit_locking (locked g 3) comparing
  hit : collides g ≡ true → HitTurn g comparing (record g { won = true }) stopping
  miss : collides g ≡ false → HitTurn g comparing g hit_unlocking
  end_game : HitTurn g stopping (record g { running = false }) hit_unlocking
  hit_unlock : HitTurn g hit_unlocking (unlocked g) hit_testing

-- The globals, the threads, and what can be seen from outside: the keys that were pressed, the
-- positions that were drawn, and the message at the end (`true` for "You win!").
pub record System : Type 0 where
  pub globals : Globals
  pub keyboard : KeyPc
  pub mover : MovePc
  pub collision : HitPc
  pub main : MainPc
  pub pressed : List Key
  pub frames : List (Pos × Pos)
  pub shown : Option Bool

pub data Step (w : Window) (s : System) : System → Type 0 where
  keyboard_step :
      {g : Globals} {ks : List Key} {pc : KeyPc}
      → KeyTurn w s.globals s.pressed s.keyboard g ks pc
      → Step w s (record s { globals = g; keyboard = pc; pressed = ks })
  mover_step :
      {g : Globals} {pc : MovePc}
      → MoveTurn w s.globals s.mover g pc
      → Step w s (record s { globals = g; mover = pc })
  collision_step :
      {g : Globals} {pc : HitPc}
      → HitTurn s.globals s.collision g pc
      → Step w s (record s { globals = g; collision = pc })
  main_go_on :
      s.main ≡ main_testing → s.globals.running ≡ true → Step w s (record s { main = main_locking })
  main_stop :
      s.main ≡ main_testing → s.globals.running ≡ false → Step w s (record s { main = showing })
  main_lock :
      s.main ≡ main_locking
      → s.globals.pos_mtx ≡ none
      → Step w s (record s { globals = locked s.globals 0; main = copying })
  main_copy :
      s.main ≡ copying
      → Step w s (record s { main = main_unlocking s.globals.ball_pos s.globals.x_pos })
  main_unlock :
      {b x : Pos}
      → s.main ≡ main_unlocking b x
      → Step w s (record s { globals = unlocked s.globals; main = drawing b x })
  main_draw :
      {b x : Pos}
      → s.main ≡ drawing b x
      → Step w s (record s { main = main_testing; frames = s.frames ++ (b, x) ∷ [] })
  main_show : s.main ≡ showing → Step w s (record s { main = joining; shown = some s.globals.won })
  main_join :
      s.main ≡ joining
      → s.keyboard ≡ key_returned
      → s.mover ≡ move_returned
      → s.collision ≡ hit_returned
      → Step w s (record s { main = ended })

abbrev pub init : Window → System
init w = record {
  globals = record {
    ball_pos = record { x = pos (w.max_cols / 4); y = pos (w.max_rows / 2) };
    x_pos = record { x = pos (3 * w.max_cols / 4); y = pos (w.max_rows / 2) };
    pos_mtx = none;
    running = true;
    won = false;
  };
  keyboard = key_testing;
  mover = move_testing;
  collision = hit_testing;
  main = main_testing;
  pressed = [];
  frames = [];
  shown = none;
}

pub data Reach (w : Window) : System → Type 0 where
  start : Reach w (init w)
  later : {s t : System} → Reach w s → Step w s t → Reach w t
