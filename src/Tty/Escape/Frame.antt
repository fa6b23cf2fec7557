-- ===== src/Tty/Escape/Frame.antt =====
-- kernel/console.c: the invariant of the screen, character by character.
use linux.Prelude.{
  ℕ, ◌+◌, ◌-◌, ◌<◌, ◌≡◌, refl, ap, arith, inl, inr, Bool, true, false, Bool-cases, ◌&&◌, ◌==◌, ltb,
  leb, if◌then◌else◌, add32, sub32,
}
use linux.Tty.Screen.{Screen, lines, gotoxy, lf, ri, save_cur, restore_cur}
use linux.Tty.Screen.Frame.{
  IsScreen, Draws, Draws-trans, gotoxy-Draws, cr-Draws, del-Draws, csi_j-Draws, csi_k-Draws,
  save_cur-Draws, restore_cur-Draws,
}
use linux.Tty.Screen.Loops.{
  same-Draws, lf-Draws, ri-Draws, csi_m-Draws, csi_at-Draws, csi_l-Draws, csi_p-Draws,
  csi_m_lines-Draws,
}
use linux.Tty.Escape.Cursor.{IsDrawing, if-Draws, back_space-Draws, tab-Draws, print_char-Draws}
use linux.Tty.Escape.{
  plain, escaped, set_par, less_one, at_least_one, go, set_region, motion, edit, final, npar_max,
  parameter, bracket, con_char,
}

same : (s : Screen) → IsScreen s → Draws s s
same s v = same-Draws s s v (λ i. refl)

-- A change of other fields than the memory, and then a drawing.
after-Draws :
    (s t : Screen) (f : Screen → Screen)
    → t.video ≡ s.video
    → IsScreen t
    → IsDrawing f
    → Draws s (f t)
after-Draws s t f e v d = Draws-trans s t (f t) (same-Draws s t v (λ i. ap (λ g. g i) e)) (d t v)

in_state : (n : ℕ) (s : Screen) → IsScreen s → n < 4 → IsScreen (record s { state = n })
in_state n s v h = ground arith

in_state-Draws : (n : ℕ) (s : Screen) → IsScreen s → n < 4 → Draws s (record s { state = n })
in_state-Draws n s v h = same-Draws s (record s { state = n }) (in_state n s v h) (λ i. refl)

plain-Draws : (erase c : ℕ) → IsDrawing (plain erase c)
unfolding plain
plain-Draws erase c s v = if-Draws _ (print_char-Draws c s v) (
    if-Draws _ (in_state-Draws 1 s v (omega arith)) (
      if-Draws _ (lf-Draws s v) (
        if-Draws _ (cr-Draws s v) (
          if-Draws _ (del-Draws s v)
            (if-Draws _ (back_space-Draws s v) (if-Draws _ (tab-Draws s v) (same s v)))))))

escaped-Draws : (c : ℕ) → IsDrawing (escaped c)
unfolding escaped
escaped-Draws c s v = if-Draws _ (in_state-Draws 2 s v (omega arith)) (
    if-Draws _ (after-Draws s s' (gotoxy 0 (add32 s.y 1)) refl v' (gotoxy-Draws 0 (add32 s.y 1))) (
      if-Draws _ (after-Draws s s' ri refl v' ri-Draws) (
        if-Draws _ (after-Draws s s' lf refl v' lf-Draws) (
          if-Draws _ (same-Draws s s' v' (λ i. refl)) (
            if-Draws _ (after-Draws s s' save_cur refl v' save_cur-Draws) (
              if-Draws _ (after-Draws s s' restore_cur refl v' restore_cur-Draws)
                (same-Draws s s' v' (λ i. refl))))))))
  where
    s' : Screen
    s' = record s { state = 0 }

    v' : IsScreen s'
    v' = ground arith

-- The parameters are no part of the invariant.
set_par-Draws : (k w : ℕ) → IsDrawing (set_par k w)
set_par-Draws k w s v = same-Draws s (set_par k w s) (ground arith) (λ i. refl)

less_one-Draws : (k : ℕ) → IsDrawing (less_one k)
less_one-Draws k s v = if-Draws _ (same s v) (set_par-Draws k (s.par k - 1) s v)

at_least_one-Draws : (k : ℕ) → IsDrawing (at_least_one k)
at_least_one-Draws k s v = if-Draws _ (set_par-Draws k 1 s v) (same s v)

then-Draws : (f g : Screen → Screen) → IsDrawing f → IsDrawing g → IsDrawing (λ s. g (f s))
then-Draws f g d e s v = Draws-trans s (f s) (g (f s)) (d s v) (e (f s) (d s v).valid)

go-Draws : (new_x new_y : Screen → ℕ) → IsDrawing (go new_x new_y)
go-Draws new_x new_y s v = gotoxy-Draws (new_x s) (new_y s) s v

in_region :
    (s : Screen) (a b : ℕ)
    → IsScreen s
    → ltb a b && leb b lines ≡ true
    → IsScreen (record s { top = a; bottom = b })
in_region s a b v h = ground arith

set_region-Draws : IsDrawing set_region
unfolding set_region
set_region-Draws = then-Draws (less_one 0) (λ s. choose s) (less_one-Draws 0) choose-Draws
  where
    fill_in : Screen → Screen
    fill_in s = if s.par 1 == 0 then set_par 1 lines s else s

    narrow : Screen → Screen
    narrow s =
        if ltb (s.par 0) (s.par 1) && leb (s.par 1) lines
        then record s { top = s.par 0; bottom = s.par 1 }
        else s

    choose : Screen → Screen
    choose s = narrow (fill_in s)

    narrow-Draws : IsDrawing narrow
    narrow-Draws s v = elim (Bool-cases (ltb (s.par 0) (s.par 1) && leb (s.par 1) lines)) [
      | inl ok ↦ rw ok (same-Draws s _ (in_region s (s.par 0) (s.par 1) v ok) (λ i. refl))
      | inr bad ↦ rw bad (same s v)
    ]

    choose-Draws : IsDrawing choose
    choose-Draws =
        then-Draws fill_in narrow (λ s v. if-Draws _ (set_par-Draws 1 lines s v) (same s v))
          narrow-Draws

moves : {s t : Screen} → Draws s t → (new_x new_y : Screen → ℕ) → Draws s (go new_x new_y t)
moves {s} {t} d new_x new_y = Draws-trans s t (go new_x new_y t) d (go-Draws new_x new_y t d.valid)

motion-Draws : (c : ℕ) → IsDrawing (motion c)
unfolding motion
motion-Draws c s v = if-Draws _ (moves (less_one-Draws 0 s v) (λ t. t.par 0) (λ t. t.y)) (
    if-Draws _ (moves (at_least_one-Draws 0 s v) (λ t. t.x) (λ t. sub32 t.y (t.par 0))) (
      if-Draws _ (moves (at_least_one-Draws 0 s v) (λ t. t.x) (λ t. add32 t.y (t.par 0))) (
        if-Draws _ (moves (at_least_one-Draws 0 s v) (λ t. add32 t.x (t.par 0)) (λ t. t.y)) (
          if-Draws _ (moves (at_least_one-Draws 0 s v) (λ t. sub32 t.x (t.par 0)) (λ t. t.y)) (
            if-Draws _ (moves (at_least_one-Draws 0 s v) (λ t. 0) (λ t. add32 t.y (t.par 0))) (
              if-Draws _ (moves (at_least_one-Draws 0 s v) (λ t. 0) (λ t. sub32 t.y (t.par 0))) (
                if-Draws _ (moves (less_one-Draws 0 s v) (λ t. t.x) (λ t. t.par 0)) (
                  if-Draws _
                    (moves
                      (then-Draws (less_one 0) (less_one 1) (less_one-Draws 0) (less_one-Draws 1) s
                        v)
                      (λ t. t.par 1) (λ t. t.par 0))
                    (same s v)))))))))

edit-Draws : (c : ℕ) → IsDrawing (edit c)
unfolding edit
edit-Draws c s v = if-Draws _ (csi_j-Draws (s.par 0) s v) (
    if-Draws _ (csi_k-Draws (s.par 0) s v) (
      if-Draws _ (csi_l-Draws (s.par 0) s v) (
        if-Draws _ (csi_m_lines-Draws (s.par 0) s v) (
          if-Draws _ (csi_p-Draws (s.par 0) s v) (
            if-Draws _ (csi_at-Draws (s.par 0) s v) (
              if-Draws _ (csi_m-Draws s v) (
                if-Draws _ (set_region-Draws s v) (
                  if-Draws _ (save_cur-Draws s v)
                    (if-Draws _ (restore_cur-Draws s v) (same s v))))))))))

final-Draws : (c : ℕ) → IsDrawing (final c)
unfolding final
final-Draws c s v =
    after-Draws s (record s { state = 0 }) (λ t. edit c (motion c t)) refl (ground arith)
      (then-Draws (motion c) (edit c) (motion-Draws c) (edit-Draws c))

parameter-Draws : (c : ℕ) → IsDrawing (parameter c)
unfolding parameter
parameter-Draws c s v = elim (Bool-cases (c == b';' && ltb s.npar (npar_max - 1))) [
  | inl next ↦ rw next (same-Draws s _ (next_par s v (ground arith)) (λ i. refl))
  | inr other ↦ rw other (if-Draws _ (set_par-Draws _ _ s v) (final-Draws c s v))
]
  where
    next_par : (s : Screen) → IsScreen s → s.npar < 15 → IsScreen (record s { npar = s.npar + 1 })
    next_par s v h = ground arith

bracket-Draws : (c : ℕ) → IsDrawing (bracket c)
unfolding bracket
bracket-Draws c s v =
    if-Draws _ (same-Draws s s' v' (λ i. refl))
      (after-Draws s s' (parameter c) refl v' (parameter-Draws c))
  where
    s' : Screen
    s' = record s {
      par = λ k. if ltb k npar_max then 0 else s.par k;
      npar = 0;
      state = 3;
      ques = c == b'?';
    }

    v' : IsScreen s'
    v' = ground arith

if-Draws_pair :
    (b : Bool) {s : Screen} (p q : Screen × Bool)
    → Draws s p.0
    → Draws s q.0
    → Draws s (if b then p else q).0
if-Draws_pair true p q d e = d
if-Draws_pair false p q d e = e

-- For every character `switch (state)` keeps the invariant of the screen, and it writes to no
-- memory but that of the screen.
pub con_char-Draws : (erase c : ℕ) (s : Screen) → IsScreen s → Draws s (con_char erase c s).0
unfolding con_char
con_char-Draws erase c s v = if-Draws_pair _ _ _ (plain-Draws erase c s v) (
    if-Draws_pair _ _ _ (escaped-Draws c s v) (
      if-Draws_pair _ _ _ (bracket-Draws c s v) (
        if-Draws_pair _ _ _ (parameter-Draws c s v)
          (if-Draws_pair _ _ _ (final-Draws c s v) (same s v)))))
