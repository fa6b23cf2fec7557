-- ===== src/Tty/Screen/Erase.antt =====
-- What the erasing sequences leave of the grid.
use linux.Prelude.{
  ℕ, ◌+◌, ◌*◌, ◌<◌, ◌≡◌, arith, Bool, not, ◌&&◌, ◌||◌, ◌==◌, ltb, leb, if◌then◌else◌,
}
use linux.Tty.Screen.{Screen, lines, columns, csi_j, csi_k, blank}
use linux.Tty.Screen.Frame.{IsScreen}
use linux.Tty.Screen.Grid.{cell}

-- The cells before the cursor, in the order in which they are read.
abbrev pub before_cursor : Screen → (r : ℕ) → (c : ℕ) → Bool
before_cursor s r c = ltb (r * columns + c) (s.y * columns + s.x)

-- `ESC [ J` with a parameter blanks the cells from the cursor on (0), those before it (1) or all
-- (2), and leaves the others; with any other parameter all.
pub cell-csi_j :
    (par : ℕ) (s : Screen) (r c : ℕ)
    → IsScreen s
    → r < lines
    → c < columns
    → cell (csi_j par s) r c ≡ (
        if (par == 0 && not (before_cursor s r c)) || (par == 1 && before_cursor s r c) || par == 2
        then blank
        else cell s r c)
unfolding csi_j
cell-csi_j par s r c v h k = ground arith

-- `ESC [ K` does the same in the line of the cursor.
pub cell-csi_k :
    (par : ℕ) (s : Screen) (r c : ℕ)
    → IsScreen s
    → r < lines
    → c < columns
    → cell (csi_k par s) r c ≡ (
        if r == s.y && ((par == 0 && leb s.x c) || (par == 1 && ltb c s.x) || par == 2)
        then blank
        else cell s r c)
unfolding csi_k
cell-csi_k par s r c v h k = ground arith
