-- ===== src/Ball/Invariant.antt =====
-- What holds in every state of the game: who owns the mutex, where the positions are, and why the
-- game is over.
use ciic.Common.{◌≡◌, ◌⊎◌, refl, Bool, true, false, Option, none, some, List, [], ◌∷◌, ◌++◌, All}
use ciic.Ball.{Pos, Window, Key, left, right, up, down, quit, other, Globals}
use ciic.Ball.Threads.{
  KeyPc, key_locking, switching, clamping, key_unlocking, MovePc, stepping, clamping_x,
  move_unlocking, HitPc, comparing, stopping, hit_unlocking, MainPc, copying, main_unlocking,
  drawing, showing, joining, ended, System,
}
use ciic.Ball.Clamp.{Inside}

-- `q` or `Q` is among the keys.
abbrev pub has_quit : List Key → Bool
has_quit [] = false
has_quit (quit ∷ ks) = true
has_quit (k ∷ ks) = has_quit ks

pub has_quit-append : (ks js : List Key) → has_quit ks ≡ true → has_quit (ks ++ js) ≡ true
has_quit-append [] js h = absurd cc
has_quit-append (quit ∷ ks) js h = refl
has_quit-append (left ∷ ks) js h = has_quit-append ks js h
has_quit-append (right ∷ ks) js h = has_quit-append ks js h
has_quit-append (up ∷ ks) js h = has_quit-append ks js h
has_quit-append (down ∷ ks) js h = has_quit-append ks js h
has_quit-append (other ∷ ks) js h = has_quit-append ks js h

pub has_quit_last : (ks : List Key) → has_quit (ks ++ quit ∷ []) ≡ true
has_quit_last [] = refl
has_quit_last (quit ∷ ks) = refl
has_quit_last (left ∷ ks) = has_quit_last ks
has_quit_last (right ∷ ks) = has_quit_last ks
has_quit_last (up ∷ ks) = has_quit_last ks
has_quit_last (down ∷ ks) = has_quit_last ks
has_quit_last (other ∷ ks) = has_quit_last ks

-- Which threads are between lock and unlock.
abbrev pub key_holds : KeyPc → Bool
key_holds (switching ch) = true
key_holds clamping = true
key_holds key_unlocking = true
key_holds _ = false

abbrev pub move_holds : MovePc → Bool
move_holds stepping = true
move_holds clamping_x = true
move_holds move_unlocking = true
move_holds _ = false

abbrev pub hit_holds : HitPc → Bool
hit_holds comparing = true
hit_holds stopping = true
hit_holds hit_unlocking = true
hit_holds _ = false

abbrev pub main_holds : MainPc → Bool
main_holds copying = true
main_holds (main_unlocking b x) = true
main_holds _ = false

-- Only between the `switch` and the clamp may the ball be outside.
abbrev pub BallOk : Window → KeyPc → Pos → Type 0
BallOk w clamping p = Unit
BallOk w _ p = Inside w p

-- Only between the additions of `random_step` and its tests may X be outside.
abbrev pub XOk : Window → MovePc → Pos → Type 0
XOk w clamping_x p = Unit
XOk w _ p = Inside w p

abbrev pub KeyOk : List Key → KeyPc → Type 0
KeyOk ks (key_locking ch) = ch ≡ quit → has_quit ks ≡ true
KeyOk ks (switching ch) = ch ≡ quit → has_quit ks ≡ true
KeyOk ks _ = Unit

abbrev pub HitOk : Bool → HitPc → Type 0
HitOk won stopping = won ≡ true
HitOk won _ = Unit

abbrev pub Drawn : Window → Pos × Pos → Type 0
Drawn w f = Inside w f.0 × Inside w f.1

abbrev pub MainPlaces : Window → MainPc → Type 0
MainPlaces w (main_unlocking b x) = Drawn w (b, x)
MainPlaces w (drawing b x) = Drawn w (b, x)
MainPlaces w _ = Unit

abbrev pub MainOk : Bool → MainPc → Type 0
MainOk running showing = running ≡ false
MainOk running joining = running ≡ false
MainOk running ended = running ≡ false
MainOk running _ = Unit

-- What the message at the end stands for.
abbrev pub ShownOk : Bool → List Key → Option Bool → Type 0
ShownOk won ks none = Unit
ShownOk won ks (some true) = won ≡ true
ShownOk won ks (some false) = has_quit ks ≡ true

pub ShownOk-append :
    (won : Bool) (ks js : List Key) (m : Option Bool) → ShownOk won ks m → ShownOk won (ks ++ js) m
ShownOk-append won ks js none h = tt
ShownOk-append won ks js (some true) h = h
ShownOk-append won ks js (some false) h = has_quit-append ks js h

-- The owner of the mutex is the thread between its lock and its unlock.
unfoldable pub Owners : Globals → KeyPc → MovePc → HitPc → MainPc → Type 0
Owners g kb mv ht mn =
    (main_holds mn ≡ true → g.pos_mtx ≡ some 0)
    × (key_holds kb ≡ true → g.pos_mtx ≡ some 1)
    × (move_holds mv ≡ true → g.pos_mtx ≡ some 2)
    × (hit_holds ht ≡ true → g.pos_mtx ≡ some 3)
    × ((g.pos_mtx ≡ none)
        ⊎ ((main_holds mn ≡ true)
            ⊎ ((key_holds kb ≡ true) ⊎ ((move_holds mv ≡ true) ⊎ (hit_holds ht ≡ true)))))

-- The positions, those that main has copied, and those that it has drawn.
unfoldable pub Places : Window → Globals → KeyPc → MovePc → MainPc → List (Pos × Pos) → Type 0
Places w g kb mv mn fs =
    BallOk w kb g.ball_pos × XOk w mv g.x_pos × MainPlaces w mn × All (Drawn w) fs

-- Why the game is over, and which message is shown.
unfoldable pub Reasons : Globals → KeyPc → HitPc → MainPc → List Key → Option Bool → Type 0
Reasons g kb ht mn ks sh =
    KeyOk ks kb
    × HitOk g.won ht
    × MainOk g.running mn
    × (g.running ≡ false → (g.won ≡ true) ⊎ (has_quit ks ≡ true))
    × ShownOk g.won ks sh

pub record Inv (w : Window) (s : System) : Type 0 where
  pub owners : Owners s.globals s.keyboard s.mover s.collision s.main
  pub places : Places w s.globals s.keyboard s.mover s.main s.frames
  pub reasons : Reasons s.globals s.keyboard s.collision s.main s.pressed s.shown
