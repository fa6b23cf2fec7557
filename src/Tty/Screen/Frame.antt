-- ===== src/Tty/Screen/Frame.antt =====
-- What holds of the screen between two characters.
use linux.Prelude.{ℕ, ◌+◌, ◌-◌, ◌*◌, ◌/◌, ◌%◌, ◌<◌, ◌≤◌, ◌≡◌, ◌∙◌, arith, ◌⊎◌}
use linux.Tty.Screen.{
  Screen, screen_start, screen_end, lines, columns, gotoxy, scrup, scrdown, cr, del, csi_j, csi_k,
  save_cur, restore_cur,
}

-- The window lies in the memory of the screen, the cursor in the window or just behind a line, and
-- `pos` is its address. The region is a range of lines.
pub record IsScreen (s : Screen) : Type 0 where
  pub origin_from : screen_start ≤ s.origin
  pub origin_even : s.origin % 2 ≡ 0
  pub end_at : s.scr_end ≡ s.origin + lines * columns * 2
  pub end_in : s.scr_end ≤ screen_end
  pub pos_at : s.pos ≡ s.origin + (s.y * columns + s.x) * 2
  pub x_in : s.x ≤ columns
  pub y_in : s.y < lines
  pub region_in : s.top < s.bottom
  pub bottom_in : s.bottom ≤ lines
  pub saved_x_in : s.saved_x ≤ columns
  pub saved_y_in : s.saved_y < lines
  pub state_in : s.state < 4
  pub npar_in : s.npar < 16
  pub attr_in : s.attr < 256
  pub origin_shown : s.crtc 12 * 256 + s.crtc 13 ≡ (s.origin - screen_start) / 2

-- The invariant holds after, and the shorts outside the memory of the screen are as before.
pub record Draws (s : Screen) (s' : Screen) : Type 0 where
  pub valid : IsScreen s'
  pub keeps : (i : ℕ) → (i < screen_start / 2) ⊎ (screen_end / 2 ≤ i) → s'.video i ≡ s.video i

pub Draws-trans : (s t u : Screen) → Draws s t → Draws t u → Draws s u
Draws-trans s t u a b = record { valid = b.valid; keeps = λ i h. b.keeps i h ∙ a.keeps i h }

gotoxy-IsScreen : (x y : ℕ) (s : Screen) → IsScreen s → IsScreen (gotoxy x y s)
unfolding gotoxy
gotoxy-IsScreen x y s v = ground arith

gotoxy-keeps :
    (x y : ℕ) (s : Screen)
    → IsScreen s
    → (i : ℕ) → (i < screen_start / 2) ⊎ (screen_end / 2 ≤ i)
    → (gotoxy x y s).video i ≡ s.video i
unfolding gotoxy
gotoxy-keeps x y s v i h = ground arith

pub gotoxy-Draws : (x y : ℕ) (s : Screen) → IsScreen s → Draws s (gotoxy x y s)
gotoxy-Draws x y s v = record { valid = gotoxy-IsScreen x y s v; keeps = gotoxy-keeps x y s v }

scrup-IsScreen : (s : Screen) → IsScreen s → IsScreen (scrup s)
unfolding scrup
scrup-IsScreen s v = ground arith

scrup-keeps :
    (s : Screen)
    → IsScreen s
    → (i : ℕ) → (i < screen_start / 2) ⊎ (screen_end / 2 ≤ i)
    → (scrup s).video i ≡ s.video i
unfolding scrup
scrup-keeps s v i h = ground arith

pub scrup-Draws : (s : Screen) → IsScreen s → Draws s (scrup s)
scrup-Draws s v = record { valid = scrup-IsScreen s v; keeps = scrup-keeps s v }

scrdown-IsScreen : (s : Screen) → IsScreen s → IsScreen (scrdown s)
unfolding scrdown
scrdown-IsScreen s v = ground arith

scrdown-keeps :
    (s : Screen)
    → IsScreen s
    → (i : ℕ) → (i < screen_start / 2) ⊎ (screen_end / 2 ≤ i)
    → (scrdown s).video i ≡ s.video i
unfolding scrdown
scrdown-keeps s v i h = ground arith

pub scrdown-Draws : (s : Screen) → IsScreen s → Draws s (scrdown s)
scrdown-Draws s v = record { valid = scrdown-IsScreen s v; keeps = scrdown-keeps s v }

cr-IsScreen : (s : Screen) → IsScreen s → IsScreen (cr s)
unfolding cr
cr-IsScreen s v = ground arith

cr-keeps :
    (s : Screen)
    → IsScreen s
    → (i : ℕ) → (i < screen_start / 2) ⊎ (screen_end / 2 ≤ i)
    → (cr s).video i ≡ s.video i
unfolding cr
cr-keeps s v i h = ground arith

pub cr-Draws : (s : Screen) → IsScreen s → Draws s (cr s)
cr-Draws s v = record { valid = cr-IsScreen s v; keeps = cr-keeps s v }

del-IsScreen : (s : Screen) → IsScreen s → IsScreen (del s)
unfolding del
del-IsScreen s v = ground arith

del-keeps :
    (s : Screen)
    → IsScreen s
    → (i : ℕ) → (i < screen_start / 2) ⊎ (screen_end / 2 ≤ i)
    → (del s).video i ≡ s.video i
unfolding del
del-keeps s v i h = ground arith

pub del-Draws : (s : Screen) → IsScreen s → Draws s (del s)
del-Draws s v = record { valid = del-IsScreen s v; keeps = del-keeps s v }

csi_j-IsScreen : (par : ℕ) (s : Screen) → IsScreen s → IsScreen (csi_j par s)
unfolding csi_j
csi_j-IsScreen par s v = ground arith

csi_j-keeps :
    (par : ℕ) (s : Screen)
    → IsScreen s
    → (i : ℕ) → (i < screen_start / 2) ⊎ (screen_end / 2 ≤ i)
    → (csi_j par s).video i ≡ s.video i
unfolding csi_j
csi_j-keeps par s v i h = ground arith

pub csi_j-Draws : (par : ℕ) (s : Screen) → IsScreen s → Draws s (csi_j par s)
csi_j-Draws par s v = record { valid = csi_j-IsScreen par s v; keeps = csi_j-keeps par s v }

csi_k-IsScreen : (par : ℕ) (s : Screen) → IsScreen s → IsScreen (csi_k par s)
unfolding csi_k
csi_k-IsScreen par s v = ground arith

csi_k-keeps :
    (par : ℕ) (s : Screen)
    → IsScreen s
    → (i : ℕ) → (i < screen_start / 2) ⊎ (screen_end / 2 ≤ i)
    → (csi_k par s).video i ≡ s.video i
unfolding csi_k
csi_k-keeps par s v i h = ground arith

pub csi_k-Draws : (par : ℕ) (s : Screen) → IsScreen s → Draws s (csi_k par s)
csi_k-Draws par s v = record { valid = csi_k-IsScreen par s v; keeps = csi_k-keeps par s v }

save_cur-IsScreen : (s : Screen) → IsScreen s → IsScreen (save_cur s)
unfolding save_cur
save_cur-IsScreen s v = ground arith

save_cur-keeps :
    (s : Screen)
    → IsScreen s
    → (i : ℕ) → (i < screen_start / 2) ⊎ (screen_end / 2 ≤ i)
    → (save_cur s).video i ≡ s.video i
unfolding save_cur
save_cur-keeps s v i h = ground arith

pub save_cur-Draws : (s : Screen) → IsScreen s → Draws s (save_cur s)
save_cur-Draws s v = record { valid = save_cur-IsScreen s v; keeps = save_cur-keeps s v }

restore_cur-IsScreen : (s : Screen) → IsScreen s → IsScreen (restore_cur s)
unfolding restore_cur
restore_cur-IsScreen s v = ground arith

restore_cur-keeps :
    (s : Screen)
    → IsScreen s
    → (i : ℕ) → (i < screen_start / 2) ⊎ (screen_end / 2 ≤ i)
    → (restore_cur s).video i ≡ s.video i
unfolding restore_cur
restore_cur-keeps s v i h = ground arith

pub restore_cur-Draws : (s : Screen) → IsScreen s → Draws s (restore_cur s)
restore_cur-Draws s v = record { valid = restore_cur-IsScreen s v; keeps = restore_cur-keeps s v }
