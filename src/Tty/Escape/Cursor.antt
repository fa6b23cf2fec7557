-- ===== src/Tty/Escape/Cursor.antt =====
-- kernel/console.c: the characters that move the cursor.
use linux.Prelude.{
  ℕ, ◌+◌, ◌-◌, ◌*◌, ◌/◌, ◌%◌, ◌<◌, ◌≤◌, ◌≡◌, refl, ◌∙◌, arith, ◌⊎◌, inl, inr, Bool, true, false,
  Bool-cases, ◌==◌, ltb, leb, if◌then◌else◌, add32, sub32,
}
use linux.Tty.Screen.{Screen, screen_start, screen_end, columns, lf}
use linux.Tty.Screen.Frame.{IsScreen, Draws, Draws-trans}
use linux.Tty.Screen.Loops.{lf-x, same-Draws, lf-Draws}
use linux.Tty.Escape.{wrap, store, print_char, back_space, advance, tab}

-- An operation that keeps the invariant, and writes only the screen.
abbrev pub IsDrawing : (Screen → Screen) → Type 0
IsDrawing f = (s : Screen) → IsScreen s → Draws s (f s)

wrap-Draws :
    (s : Screen)
    → IsScreen (record s { x = sub32 s.x columns; pos = sub32 s.pos (columns * 2) })
    → Draws s (wrap s)
wrap-Draws s v =
    let d : Draws t (lf t) = lf-Draws t v in record { valid = d.valid; keeps = d.keeps }
  where
    t : Screen
    t = record s { x = sub32 s.x columns; pos = sub32 s.pos (columns * 2) }

-- Without an `elim` for each of the tests.
pub if-Draws : (b : Bool) {s t u : Screen} → Draws s t → Draws s u → Draws s (if b then t else u)
if-Draws true d e = d
if-Draws false d e = e

store-IsScreen : (c : ℕ) (s : Screen) → IsScreen s → s.x < columns → IsScreen (store c s)
store-IsScreen c s v h = ground arith

store-keeps :
    (c : ℕ) (s : Screen)
    → IsScreen s
    → s.x < columns
    → (i : ℕ) → (i < screen_start / 2) ⊎ (screen_end / 2 ≤ i)
    → (store c s).video i ≡ s.video i
store-keeps c s v h i k = ground arith

store-Draws : (c : ℕ) (s : Screen) → IsScreen s → s.x < columns → Draws s (store c s)
store-Draws c s v h = record { valid = store-IsScreen c s v h; keeps = store-keeps c s v h }

back_space-IsScreen : (s : Screen) → IsScreen s → IsScreen (back_space s)
unfolding back_space
back_space-IsScreen s v = ground arith

pub back_space-Draws : IsDrawing back_space
unfolding back_space
back_space-Draws s v = elim (Bool-cases (s.x == 0)) [
  | inl start ↦ rw start (same-Draws s s v (λ i. refl))
  | inr more ↦
      rw more (same-Draws s _ (rw (more, back_space) at (back_space-IsScreen s v)) (λ i. refl))
]

-- `wrap` in a column that is one of the last, or just behind, or up to 8 further.
wrapped :
    (s : Screen) (dx : ℕ)
    → IsScreen s
    → dx ≤ 8
    → columns ≤ s.x + dx
    → IsScreen (record s {
      x = sub32 (add32 s.x dx) columns;
      pos = sub32 (add32 s.pos (dx * 2)) (columns * 2);
    })
wrapped s dx v h k = ground arith

wrapped_here :
    (s : Screen)
    → IsScreen s
    → columns ≤ s.x
    → IsScreen (record s { x = sub32 s.x columns; pos = sub32 s.pos (columns * 2) })
wrapped_here s v h = ground arith

advanced :
    (s : Screen) (dx : ℕ)
    → IsScreen s
    → dx ≤ 8
    → ltb columns (add32 s.x dx) ≡ false
    → IsScreen (record s { x = add32 s.x dx; pos = add32 s.pos (dx * 2) })
advanced s dx v h k = ground arith

pub tab-Draws : IsDrawing tab
unfolding tab
tab-Draws s v = elim (Bool-cases (ltb columns (add32 s.x (8 - s.x % 8)))) [
  | inl beyond ↦ rw beyond (
      let d : Draws (advance s) (wrap (advance s)) =
        wrap-Draws (advance s) (wrapped s (8 - s.x % 8) v (omega arith) (ground arith)) in
      record { valid = d.valid; keeps = d.keeps })
  | inr within ↦
      rw within (same-Draws s _ (advanced s (8 - s.x % 8) v (omega arith) within) (λ i. refl))
]

wrap-x : (s : Screen) → s.x ≡ columns → (wrap s).x ≡ 0
wrap-x s h =
    lf-x (record s { x = sub32 s.x columns; pos = sub32 s.pos (columns * 2) }) ∙ omega arith

pub print_char-Draws : (c : ℕ) → IsDrawing (print_char c)
unfolding print_char
print_char-Draws c s v = elim (Bool-cases (leb columns s.x)) [
  | inl behind ↦ rw behind (on_next_line (ground arith))
  | inr within ↦ rw within (store-Draws c s v (ground arith))
]
  where
    on_next_line : columns ≤ s.x → Draws s (store c (wrap s))
    on_next_line h =
        let d : Draws s (wrap s) = wrap-Draws s (wrapped_here s v h) in
        Draws-trans s (wrap s) (store c (wrap s)) d
          (store-Draws c (wrap s) d.valid (omega (arith, wrap-x s (omega (arith, v.x_in)))))
