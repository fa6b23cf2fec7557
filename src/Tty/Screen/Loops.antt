-- ===== src/Tty/Screen/Loops.antt =====
-- The invariant of the screen over the operations that are loops or call others.
use linux.Prelude.{
  ℕ, zero, suc, ◌+◌, ◌-◌, ◌/◌, ◌<◌, ◌≤◌, ◌≡◌, refl, ◌∙◌, arith, ◌⊎◌, inl, inr, true, Bool-cases,
  ltb, leb, add32, update, update_ne,
}
use linux.Tty.Screen.{
  Screen, lines, columns, scrup, scrdown, lf, ri, set_attrs, csi_m, shift_right, insert_char,
  shift_left, delete_char, insert_line, delete_line, repeat, csi_at, csi_l, csi_p, csi_m_lines,
  attr_of, times, from_cursor, blank,
}
use linux.Tty.Screen.Frame.{IsScreen, Draws, Draws-trans, scrup-Draws, scrdown-Draws}

pub same-Draws : (s t : Screen) → IsScreen t → ((i : ℕ) → t.video i ≡ s.video i) → Draws s t
same-Draws s t v e = record { valid = v; keeps = λ i h. e i }

lf_step : (s : Screen) → IsScreen s → ltb (add32 s.y 1) s.bottom ≡ true → IsScreen (lf s)
unfolding lf
lf_step s v e = rw e (ground arith)

pub lf-Draws : (s : Screen) → IsScreen s → Draws s (lf s)
unfolding lf
lf-Draws s v = elim (Bool-cases (ltb (add32 s.y 1) s.bottom)) [
  | inl room ↦ rw room (same-Draws s _ (rw (room, lf) at (lf_step s v room)) (λ i. refl))
  | inr last ↦ rw last (scrup-Draws s v)
]

ri_step : (s : Screen) → IsScreen s → ltb s.top s.y ≡ true → IsScreen (ri s)
unfolding ri
ri_step s v e = rw e (ground arith)

pub ri-Draws : (s : Screen) → IsScreen s → Draws s (ri s)
unfolding ri
ri-Draws s v = elim (Bool-cases (ltb s.top s.y)) [
  | inl room ↦ rw room (same-Draws s _ (rw (room, ri) at (ri_step s v room)) (λ i. refl))
  | inr first ↦ rw first (scrdown-Draws s v)
]

attr_of_lt : (par attr : ℕ) → attr < 256 → attr_of par attr < 256
attr_of_lt par attr h = ground arith

set_attrs_lt : (n i : ℕ) (par : ℕ → ℕ) (attr : ℕ) → attr < 256 → set_attrs n i par attr < 256
unfolding set_attrs
set_attrs_lt zero i par attr h = h
set_attrs_lt (suc n) i par attr h =
    set_attrs_lt n (suc i) par (attr_of (par i) attr) (attr_of_lt (par i) attr h)

csi_m-IsScreen : (s : Screen) → IsScreen s → IsScreen (csi_m s)
unfolding csi_m
csi_m-IsScreen s v = ground (arith, set_attrs_lt (s.npar + 1) 0 s.par s.attr v.attr_in)

pub csi_m-Draws : (s : Screen) → IsScreen s → Draws s (csi_m s)
unfolding csi_m
csi_m-Draws s v = same-Draws s (csi_m s) (csi_m-IsScreen s v) (λ i. refl)

-- The loops write the shorts from number `p` on.
shift_right_outside :
    (n p old : ℕ) (video : ℕ → ℕ) (i : ℕ)
    → (i < p) ⊎ (p + n ≤ i)
    → shift_right n p old video i ≡ video i
unfolding shift_right
shift_right_outside zero p old video i h = refl
shift_right_outside (suc n) p old video i h =
    shift_right_outside n (suc p) (video p) (update video p old) i (omega arith)
    ∙ update_ne video old {i = p} {j = i} (λ e. omega arith)

shift_left_outside :
    (n p : ℕ) (video : ℕ → ℕ) (i : ℕ) → (i < p) ⊎ (p + n < i) → shift_left n p video i ≡ video i
unfolding shift_left
shift_left_outside zero p video i h = update_ne video blank {i = p} {j = i} (λ e. omega arith)
shift_left_outside (suc n) p video i h =
    shift_left_outside n (suc p) (update video p (video (suc p))) i (omega arith)
    ∙ update_ne video (video (suc p)) {i = p} {j = i} (λ e. omega arith)

-- Of these two only the memory changes.
with_video : (s : Screen) (video : ℕ → ℕ) → IsScreen s → IsScreen (record s { video = video })
with_video s video v = ground arith

pub insert_char-Draws : (s : Screen) → IsScreen s → Draws s (insert_char s)
unfolding insert_char
insert_char-Draws s v = record {
  valid = with_video s _ v;
  keeps = λ i h.
      shift_right_outside (columns - s.x) (s.pos / 2) blank s.video i (omega (arith, v.pos_at));
}

pub delete_char-Draws : (s : Screen) → IsScreen s → Draws s (delete_char s)
unfolding delete_char
delete_char-Draws s v = elim (Bool-cases (leb columns s.x)) [
  | inl behind ↦ rw behind (same-Draws s s v (λ i. refl))
  | inr within ↦ rw within record {
    valid = with_video s _ v;
    keeps = λ i h. shift_left_outside (columns - 1 - s.x) (s.pos / 2) s.video i (ground arith);
  }
]

with_region :
    (s : Screen) (a b : ℕ)
    → IsScreen s
    → a < b
    → b ≤ lines
    → IsScreen (record s { top = a; bottom = b })
with_region s a b v h k = ground arith

module _ (scroll : Screen → Screen)
    (scroll-Draws : (s : Screen) → IsScreen s → Draws s (scroll s)) where
  from_cursor-Draws : (s : Screen) → IsScreen s → Draws s (from_cursor scroll s)
  from_cursor-Draws s v =
      let d : Draws (record s { top = s.y; bottom = lines })
          (scroll (record s { top = s.y; bottom = lines })) =
        scroll-Draws (record s { top = s.y; bottom = lines }) (ground arith) in
      record {
        valid = with_region _ s.top s.bottom d.valid v.region_in v.bottom_in;
        keeps = d.keeps;
      }

  repeat-Draws : (n : ℕ) (s : Screen) → IsScreen s → Draws s (repeat n scroll s)
  unfolding repeat
  repeat-Draws zero s v = same-Draws s s v (λ i. refl)
  repeat-Draws (suc n) s v =
      let d : Draws s (scroll s) = scroll-Draws s v in
      Draws-trans s (scroll s) (repeat n scroll (scroll s)) d (repeat-Draws n (scroll s) d.valid)

pub insert_line-Draws : (s : Screen) → IsScreen s → Draws s (insert_line s)
unfolding insert_line
insert_line-Draws s v = from_cursor-Draws scrdown scrdown-Draws s v

pub delete_line-Draws : (s : Screen) → IsScreen s → Draws s (delete_line s)
unfolding delete_line
delete_line-Draws s v = from_cursor-Draws scrup scrup-Draws s v

pub csi_at-Draws : (nr : ℕ) (s : Screen) → IsScreen s → Draws s (csi_at nr s)
unfolding csi_at
csi_at-Draws nr s v = repeat-Draws insert_char insert_char-Draws (times columns nr) s v

pub csi_l-Draws : (nr : ℕ) (s : Screen) → IsScreen s → Draws s (csi_l nr s)
unfolding csi_l
csi_l-Draws nr s v = repeat-Draws insert_line insert_line-Draws (times lines nr) s v

pub csi_p-Draws : (nr : ℕ) (s : Screen) → IsScreen s → Draws s (csi_p nr s)
unfolding csi_p
csi_p-Draws nr s v = repeat-Draws delete_char delete_char-Draws (times columns nr) s v

pub csi_m_lines-Draws : (nr : ℕ) (s : Screen) → IsScreen s → Draws s (csi_m_lines nr s)
unfolding csi_m_lines
csi_m_lines-Draws nr s v = repeat-Draws delete_line delete_line-Draws (times lines nr) s v

-- Going down a line keeps the column.
pub lf-x : (s : Screen) → (lf s).x ≡ s.x
unfolding lf scrup
lf-x s = ground arith
