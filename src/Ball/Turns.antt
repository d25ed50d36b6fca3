-- ===== src/Ball/Turns.antt =====
-- The three threads of the game keep the invariant.
use ciic.Common.{
  ◌≡◌, ◌⊎◌, inl, inr, refl, Bool, true, false, Option, none, some, List, [], ◌∷◌, ◌++◌, arith,
}
use ciic.Ball.{Pos, Window, Key, left, right, up, down, quit, other, Globals, press}
use ciic.Ball.Threads.{
  KeyPc, KeyTurn, key_go_on, key_stop, no_key, key, key_lock, switch, clamp, key_unlock, MovePc,
  MoveTurn, move_go_on, move_stop, move_lock, step, clamp_x, move_unlock, HitPc, HitTurn, hit_go_on,
  hit_stop, hit_lock, hit, miss, end_game, hit_unlock, MainPc,
}
use ciic.Ball.Clamp.{Fits, clamp_ball-Inside}
use ciic.Ball.Invariant.{
  Owners, Places, Reasons, has_quit, has_quit-append, has_quit_last, ShownOk-append,
}

press_keeps :
    (ch : Key) (g : Globals)
    → ((press ch g).x_pos ≡ g.x_pos)
      × ((press ch g).pos_mtx ≡ g.pos_mtx)
      × ((press ch g).won ≡ g.won)
      × ((press ch g).running ≡ false → (g.running ≡ false) ⊎ (ch ≡ quit))
      × (g.running ≡ false → (press ch g).running ≡ false)
unfolding press
press_keeps left g = (refl, refl, refl, λ h. inl h, λ h. h)
press_keeps right g = (refl, refl, refl, λ h. inl h, λ h. h)
press_keeps up g = (refl, refl, refl, λ h. inl h, λ h. h)
press_keeps down g = (refl, refl, refl, λ h. inl h, λ h. h)
press_keeps quit g = (refl, refl, refl, λ h. inr refl, λ h. refl)
press_keeps other g = (refl, refl, refl, λ h. inl h, λ h. h)

has_quit-key : (ks : List Key) (ch : Key) → ch ≡ quit → has_quit (ks ++ ch ∷ []) ≡ true
has_quit-key ks ch e = rw e (has_quit_last ks)

pub Key-Owners :
    {w : Window} {g g' : Globals} {kb kb' : KeyPc} {ks ks' : List Key} (mv : MovePc) (ht : HitPc)
    (mn : MainPc)
    → KeyTurn w g ks kb g' ks' kb'
    → Owners g kb mv ht mn
    → Owners g' kb' mv ht mn
unfolding Owners
Key-Owners {g} mv ht mn (switch {ch}) o = ground (arith, o, press_keeps ch g)
Key-Owners mv ht mn (key_lock free) o = ground (arith, o)
Key-Owners mv ht mn t o = ground (arith, o)

pub Move-Owners :
    {w : Window} {g g' : Globals} {mv mv' : MovePc} (kb : KeyPc) (ht : HitPc) (mn : MainPc)
    → MoveTurn w g mv g' mv'
    → Owners g kb mv ht mn
    → Owners g' kb mv' ht mn
unfolding Owners
Move-Owners kb ht mn (move_lock free) o = ground (arith, o)
Move-Owners kb ht mn t o = ground (arith, o)

pub Hit-Owners :
    {g g' : Globals} {ht ht' : HitPc} (kb : KeyPc) (mv : MovePc) (mn : MainPc)
    → HitTurn g ht g' ht'
    → Owners g kb mv ht mn
    → Owners g' kb mv ht' mn
unfolding Owners
Hit-Owners kb mv mn (hit_lock free) o = ground (arith, o)
Hit-Owners kb mv mn t o = ground (arith, o)

pub Key-Places :
    {w : Window} {g g' : Globals} {kb kb' : KeyPc} {ks ks' : List Key} (mv : MovePc) (mn : MainPc)
    (fs : List (Pos × Pos))
    → Fits w
    → KeyTurn w g ks kb g' ks' kb'
    → Places w g kb mv mn fs
    → Places w g' kb' mv mn fs
unfolding Places
Key-Places {g} mv mn fs fits (switch {ch}) (ball, x, m, f) = (tt, rw ((press_keeps ch g).0) x, m, f)
Key-Places {w} {g} mv mn fs fits clamp (ball, x, m, f) =
    (clamp_ball-Inside w g.ball_pos fits, x, m, f)
Key-Places mv mn fs fits (key_go_on on) p = p
Key-Places mv mn fs fits (key_stop off) p = p
Key-Places mv mn fs fits no_key p = p
Key-Places mv mn fs fits (key ch) p = p
Key-Places mv mn fs fits (key_lock free) p = p
Key-Places mv mn fs fits key_unlock p = p

pub Move-Places :
    {w : Window} {g g' : Globals} {mv mv' : MovePc} (kb : KeyPc) (mn : MainPc)
    (fs : List (Pos × Pos))
    → Fits w
    → MoveTurn w g mv g' mv'
    → Places w g kb mv mn fs
    → Places w g' kb mv' mn fs
unfolding Places
Move-Places {w} {g} kb mn fs fits (step r1 r2) (ball, x, m, f) = (ball, tt, m, f)
Move-Places {w} {g} kb mn fs fits clamp_x (ball, x, m, f) =
    (ball, clamp_ball-Inside w g.x_pos fits, m, f)
Move-Places kb mn fs fits (move_go_on on) p = p
Move-Places kb mn fs fits (move_stop off) p = p
Move-Places kb mn fs fits (move_lock free) p = p
Move-Places kb mn fs fits move_unlock p = p

pub Hit-Places :
    {g g' : Globals} {ht ht' : HitPc} (w : Window) (kb : KeyPc) (mv : MovePc) (mn : MainPc)
    (fs : List (Pos × Pos))
    → HitTurn g ht g' ht'
    → Places w g kb mv mn fs
    → Places w g' kb mv mn fs
unfolding Places
Hit-Places w kb mv mn fs (hit_go_on on) p = p
Hit-Places w kb mv mn fs (hit_stop off) p = p
Hit-Places w kb mv mn fs (hit_lock free) p = p
Hit-Places w kb mv mn fs (hit at) p = p
Hit-Places w kb mv mn fs (miss apart) p = p
Hit-Places w kb mv mn fs end_game p = p
Hit-Places w kb mv mn fs hit_unlock p = p

pub Key-Reasons :
    {w : Window} {g g' : Globals} {kb kb' : KeyPc} {ks ks' : List Key} (ht : HitPc) (mn : MainPc)
    (sh : Option Bool)
    → KeyTurn w g ks kb g' ks' kb'
    → Reasons g kb ht mn ks sh
    → Reasons g' kb' ht mn ks' sh
unfolding Reasons
Key-Reasons {g} {ks} ht mn sh (switch {ch}) r = ground (arith, r, press_keeps ch g)
Key-Reasons {g} {ks} ht mn sh (key ch) r = ground (
  arith,
  r,
  has_quit-append ks (ch ∷ []),
  has_quit-key ks ch,
  ShownOk-append g.won ks (ch ∷ []) sh,
)
Key-Reasons ht mn sh (key_go_on on) r = ground (arith, r)
Key-Reasons ht mn sh (key_stop off) r = ground (arith, r)
Key-Reasons ht mn sh t r = ground (arith, r)

pub Move-Reasons :
    {w : Window} {g g' : Globals} {mv mv' : MovePc} (kb : KeyPc) (ht : HitPc) (mn : MainPc)
    (ks : List Key) (sh : Option Bool)
    → MoveTurn w g mv g' mv'
    → Reasons g kb ht mn ks sh
    → Reasons g' kb ht mn ks sh
unfolding Reasons
Move-Reasons kb ht mn ks sh (step r1 r2) r = r
Move-Reasons kb ht mn ks sh clamp_x r = r
Move-Reasons kb ht mn ks sh (move_go_on on) r = r
Move-Reasons kb ht mn ks sh (move_stop off) r = r
Move-Reasons kb ht mn ks sh (move_lock free) r = r
Move-Reasons kb ht mn ks sh move_unlock r = r

pub Hit-Reasons :
    {g g' : Globals} {ht ht' : HitPc} (kb : KeyPc) (mn : MainPc) (ks : List Key) (sh : Option Bool)
    → HitTurn g ht g' ht'
    → Reasons g kb ht mn ks sh
    → Reasons g' kb ht' mn ks sh
unfolding Reasons
Hit-Reasons kb mn ks sh (hit_go_on on) r = ground (arith, r)
Hit-Reasons kb mn ks (none) (hit at) r = ground (arith, r)
Hit-Reasons kb mn ks (some true) (hit at) r = ground (arith, r)
Hit-Reasons kb mn ks (some false) (hit at) r = ground (arith, r)
Hit-Reasons kb mn ks sh t r = ground (arith, r)
