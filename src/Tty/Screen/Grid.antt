-- ===== src/Tty/Screen/Grid.antt =====
-- What the screen shows: a grid of cells, in the window of its memory.
use linux.Prelude.{
  ℕ, ◌+◌, ◌-◌, ◌*◌, ◌/◌, ◌<◌, ◌≤◌, ◌≡◌, refl, ◌∙◌, arith, ◌⊎◌, inl, inr, true, false, Bool-cases,
  ◌&&◌, ◌==◌, ltb, leb, if◌then◌else◌, add32,
}
use linux.Tty.Screen.{
  Screen, screen_end, lines, columns, scrup, scrdown, lf, ri, blank, clear, copy, region, row_at,
  roll,
}
use linux.Tty.Screen.Frame.{IsScreen}

-- The short in row `r` and column `c`.
abbrev pub cell : Screen → ℕ → ℕ → ℕ
cell s r c = s.video (s.origin / 2 + r * columns + c)

-- The lines of the region, one up, and a blank line below; and one down.
abbrev pub rows_up : (top bottom : ℕ) → (ℕ → ℕ → ℕ) → ℕ → ℕ → ℕ
rows_up top bottom g r c =
    if leb top r && ltb r bottom then (if r + 1 == bottom then blank else g (r + 1) c) else g r c

abbrev pub rows_down : (top bottom : ℕ) → (ℕ → ℕ → ℕ) → ℕ → ℕ → ℕ
rows_down top bottom g r c =
    if leb top r && ltb r bottom then (if r == top then blank else g (r - 1) c) else g r c

-- The window after the whole screen has gone up, before `roll`.
abbrev next_window : Screen → Screen
next_window s = record s {
  origin = add32 s.origin (columns * 2);
  pos = add32 s.pos (columns * 2);
  scr_end = add32 s.scr_end (columns * 2);
}

cell-roll_copied :
    (s : Screen) (r c : ℕ)
    → IsScreen s
    → r < lines
    → c < columns
    → ltb screen_end (add32 s.scr_end (columns * 2)) ≡ true
    → cell (roll (next_window s)) r c ≡ (if r + 1 == lines then blank else cell s (r + 1) c)
cell-roll_copied s r c v h k e = rw e (ground arith)

cell-roll_cleared :
    (s : Screen) (r c : ℕ)
    → IsScreen s
    → r < lines
    → c < columns
    → ltb screen_end (add32 s.scr_end (columns * 2)) ≡ false
    → cell (roll (next_window s)) r c ≡ (if r + 1 == lines then blank else cell s (r + 1) c)
cell-roll_cleared s r c v h k e = rw e (ground arith)

cell-roll :
    (s : Screen) (r c : ℕ)
    → IsScreen s
    → r < lines
    → c < columns
    → cell (roll (next_window s)) r c ≡ (if r + 1 == lines then blank else cell s (r + 1) c)
cell-roll s r c v h k = elim (Bool-cases (ltb screen_end (add32 s.scr_end (columns * 2)))) [
  | inl beyond ↦ cell-roll_copied s r c v h k beyond
  | inr within ↦ cell-roll_cleared s r c v h k within
]

whole_region :
    (top bottom r : ℕ) (g : ℕ → ℕ → ℕ) (c : ℕ)
    → r < lines
    → (top == 0 && bottom == lines) ≡ true
    → (if r + 1 == lines then blank else g (r + 1) c) ≡ rows_up top bottom g r c
whole_region top bottom r g c h e = ground arith

cell-region :
    (s : Screen) (r c : ℕ)
    → IsScreen s
    → r < lines
    → c < columns
    → clear
        (row_at s s.top + 2 * region s)
        columns
        (copy (row_at s (s.top + 1)) (row_at s s.top) (region s) s.video)
        (s.origin / 2 + r * columns + c)
      ≡ rows_up s.top s.bottom (cell s) r c
cell-region s r c v h k = ground arith

pub cell-scrup :
    (s : Screen) (r c : ℕ)
    → IsScreen s
    → r < lines
    → c < columns
    → cell (scrup s) r c ≡ rows_up s.top s.bottom (cell s) r c
unfolding scrup
cell-scrup s r c v h k = elim (Bool-cases (s.top == 0 && s.bottom == lines)) [
  | inl whole ↦
      rw (whole, scrup) (cell-roll s r c v h k ∙ whole_region s.top s.bottom r (cell s) c h whole)
  | inr part ↦ rw (part, scrup) (cell-region s r c v h k)
]

pub cell-scrdown :
    (s : Screen) (r c : ℕ)
    → IsScreen s
    → r < lines
    → c < columns
    → cell (scrdown s) r c ≡ rows_down s.top s.bottom (cell s) r c
unfolding scrdown
cell-scrdown s r c v h k = ground arith

scrup-y : (s : Screen) → (scrup s).y ≡ s.y
unfolding scrup
scrup-y s = ground arith

scrdown-y : (s : Screen) → (scrdown s).y ≡ s.y
unfolding scrdown
scrdown-y s = refl

-- `lf` goes down a line and leaves the screen, or it stays and the lines of the region go up.
-- `ri` goes up a line, or the lines go down.
pub lf-ri_lem :
    (s : Screen) (r c : ℕ)
    → IsScreen s
    → r < lines
    → c < columns
    → (((s.y + 1 < s.bottom) × ((lf s).y ≡ s.y + 1) × (cell (lf s) r c ≡ cell s r c))
        ⊎ ((s.bottom ≤ s.y + 1)
            × ((lf s).y ≡ s.y)
            × (cell (lf s) r c ≡ rows_up s.top s.bottom (cell s) r c)))
      × (((s.top < s.y) × ((ri s).y ≡ s.y - 1) × (cell (ri s) r c ≡ cell s r c))
          ⊎ ((s.y ≤ s.top)
              × ((ri s).y ≡ s.y)
              × (cell (ri s) r c ≡ rows_down s.top s.bottom (cell s) r c)))
unfolding lf ri
lf-ri_lem s r c v h k = (down, up)
  where
    down :
        ((s.y + 1 < s.bottom) × ((lf s).y ≡ s.y + 1) × (cell (lf s) r c ≡ cell s r c))
        ⊎ ((s.bottom ≤ s.y + 1)
            × ((lf s).y ≡ s.y)
            × (cell (lf s) r c ≡ rows_up s.top s.bottom (cell s) r c))
    down = elim (Bool-cases (ltb (add32 s.y 1) s.bottom)) [
      | inl room ↦ rw (room, lf) (inl (ground arith, ground arith, refl))
      | inr last ↦ rw (last, lf) (inr (ground arith, scrup-y s, cell-scrup s r c v h k))
    ]

    up :
        ((s.top < s.y) × ((ri s).y ≡ s.y - 1) × (cell (ri s) r c ≡ cell s r c))
        ⊎ ((s.y ≤ s.top)
            × ((ri s).y ≡ s.y)
            × (cell (ri s) r c ≡ rows_down s.top s.bottom (cell s) r c))
    up = elim (Bool-cases (ltb s.top s.y)) [
      | inl room ↦ rw (room, ri) (inl (ground arith, ground arith, refl))
      | inr first ↦ rw (first, ri) (inr (ground arith, scrdown-y s, cell-scrdown s r c v h k))
    ]
