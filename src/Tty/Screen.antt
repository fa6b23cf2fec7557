-- ===== src/Tty/Screen.antt =====
-- kernel/console.c: the screen, up to the escape sequences. `video` is the memory as shorts: the
-- short at the even address `a` is number `a / 2`. `crtc` has the registers of the controller.
pub mod Frame
pub mod Loops
pub mod Grid
pub mod Erase
use linux.Prelude.{
  ℕ, zero, suc, ◌+◌, ◌-◌, ◌*◌, ◌/◌, ◌%◌, ◌^◌, Bool, true, false, ◌&&◌, ◌||◌, ◌==◌, ltb, leb,
  if◌then◌else◌, add32, sub32, update,
}

pub record Screen : Type 0 where
  pub origin : ℕ
  pub scr_end : ℕ
  pub pos : ℕ
  pub x : ℕ
  pub y : ℕ
  pub top : ℕ
  pub bottom : ℕ
  pub state : ℕ
  pub npar : ℕ
  pub par : ℕ → ℕ
  pub ques : Bool
  pub attr : ℕ
  pub saved_x : ℕ
  pub saved_y : ℕ
  pub video : ℕ → ℕ
  pub crtc : ℕ → ℕ

abbrev pub screen_start : ℕ
screen_start = 0xb8000

abbrev pub screen_end : ℕ
screen_end = 0xc0000

abbrev pub lines : ℕ
lines = 25

abbrev pub columns : ℕ
columns = 80

-- A space in the usual colours.
abbrev pub blank : ℕ
blank = 0x0720

-- `pos` for the place (x, y).
abbrev pub pos_of : Screen → (x : ℕ) → (y : ℕ) → ℕ
pos_of s x y = add32 s.origin ((y * columns + x) * 2)

unfoldable pub gotoxy : (new_x : ℕ) → (new_y : ℕ) → Screen → Screen
gotoxy new_x new_y s =
    if leb columns new_x || leb lines new_y
    then s
    else record s { x = new_x; y = new_y; pos = pos_of s new_x new_y }

-- `outb_p(reg, 0x3d4); outb_p(0xff & (v >> 9), 0x3d5)`, and the same for the next register and
-- `v >> 1`.
abbrev pub set_crtc : (reg : ℕ) → (v : ℕ) → (ℕ → ℕ) → ℕ → ℕ
set_crtc reg v crtc = update (update crtc reg (v / 512 % 256)) (reg + 1) (v / 2 % 256)

abbrev pub set_origin : Screen → Screen
set_origin s = record s { crtc = set_crtc 12 (sub32 s.origin screen_start) s.crtc }

abbrev pub set_cursor : Screen → Screen
set_cursor s = record s { crtc = set_crtc 14 (sub32 s.pos screen_start) s.crtc }

-- Is short `i` one of the `n` from address `a` on?
abbrev pub in_cells : (a : ℕ) → (n : ℕ) → (i : ℕ) → Bool
in_cells a n i = leb (a / 2) i && ltb i (a / 2 + n)

-- `rep; stosw` of `n` blanks from address `a` on.
abbrev pub clear : (a : ℕ) → (n : ℕ) → (ℕ → ℕ) → ℕ → ℕ
clear a n video i = if in_cells a n i then blank else video i

-- `rep; movsl` of `n` shorts, in the direction in which each is read before it is written.
abbrev pub copy : (from : ℕ) → (to : ℕ) → (n : ℕ) → (ℕ → ℕ) → ℕ → ℕ
copy from to n video i = if in_cells to n i then video (i - to / 2 + from / 2) else video i

-- The shorts that `count >> 1` longs hold.
abbrev pub in_longs : ℕ → ℕ
in_longs count = count / 2 * 2

-- The whole screen goes up: the window moves down in the memory of the screen; at its end the
-- lines are copied back to the beginning.
abbrev pub roll : Screen → Screen
roll s =
    if ltb screen_end s.scr_end
    then (let n : ℕ = in_longs ((lines - 1) * columns) in
        record s {
          video = clear (screen_start + 2 * n) columns (copy s.origin screen_start n s.video);
          scr_end = sub32 s.scr_end (sub32 s.origin screen_start);
          pos = sub32 s.pos (sub32 s.origin screen_start);
          origin = screen_start;
        })
    else record s { video = clear (sub32 s.scr_end (columns * 2)) (in_longs columns) s.video }

abbrev pub row_at : Screen → (row : ℕ) → ℕ
row_at s row = add32 s.origin (columns * 2 * row)

-- The shorts of the lines of the region but one.
abbrev pub region : Screen → ℕ
region s = in_longs (sub32 (sub32 s.bottom s.top) 1 * columns)

unfoldable pub scrup : Screen → Screen
scrup s =
    if s.top == 0 && s.bottom == lines
    then set_origin (
        roll (record s {
          origin = add32 s.origin (columns * 2);
          pos = add32 s.pos (columns * 2);
          scr_end = add32 s.scr_end (columns * 2);
        }))
    else record s {
      video =
          clear (row_at s s.top + 2 * region s) columns
            (copy (row_at s (s.top + 1)) (row_at s s.top) (region s) s.video);
    }

-- The direction flag is set: the copy and the blanks go down from the end of the region.
unfoldable pub scrdown : Screen → Screen
scrdown s =
    let to : ℕ = row_at s s.bottom - 2 * region s in
    let from : ℕ = row_at s (sub32 s.bottom 1) - 2 * region s in
    record s { video = clear (to - 2 * columns) columns (copy from to (region s) s.video) }

unfoldable pub lf : Screen → Screen
lf s =
    if ltb (add32 s.y 1) s.bottom
    then record s { y = add32 s.y 1; pos = add32 s.pos (columns * 2) }
    else scrup s

unfoldable pub ri : Screen → Screen
ri s =
    if ltb s.top s.y
    then record s { y = sub32 s.y 1; pos = sub32 s.pos (columns * 2) }
    else scrdown s

pub cr : Screen → Screen
cr s = record s { pos = sub32 s.pos (s.x * 2); x = 0 }

abbrev pub put_cell : (pos : ℕ) → (v : ℕ) → (ℕ → ℕ) → ℕ → ℕ
put_cell pos v video = update video (pos / 2) v

pub del : Screen → Screen
del s = if s.x == 0 then s else record s {
  pos = sub32 s.pos 2;
  x = sub32 s.x 1;
  video = put_cell (sub32 s.pos 2) blank s.video;
}

abbrev pub clear_screen : (start : ℕ) → (count : ℕ) → Screen → Screen
clear_screen start count s = record s { video = clear start count s.video }

pub csi_j : (par : ℕ) → Screen → Screen
csi_j par s =
    if par == 0
    then clear_screen s.pos (sub32 s.scr_end s.pos / 2) s
    else (if par == 1
        then clear_screen s.origin (sub32 s.pos s.origin / 2) s
        else (if par == 2 then clear_screen s.origin (columns * lines) s else s))

pub csi_k : (par : ℕ) → Screen → Screen
csi_k par s =
    let start : ℕ = sub32 s.pos (s.x * 2) in
    if par == 0
    then (if leb columns s.x then s else clear_screen s.pos (columns - s.x) s)
    else (if par == 1
        then clear_screen start (if ltb s.x columns then s.x else columns) s
        else (if par == 2 then clear_screen start columns s else s))

-- The attribute that a parameter of `csi_m` sets.
abbrev pub attr_of : (par : ℕ) → (attr : ℕ) → ℕ
attr_of par attr =
    if par == 0 || par == 27
    then 0x07
    else (if par == 1 || par == 4 then 0x0f else (if par == 7 then 0x70 else attr))

-- The loop of `csi_m` over `n` parameters from number `i` on.
pub set_attrs : (n : ℕ) → (i : ℕ) → (par : ℕ → ℕ) → (attr : ℕ) → ℕ
set_attrs zero i par attr = attr
set_attrs (suc n) i par attr = set_attrs n (suc i) par (attr_of (par i) attr)

pub csi_m : Screen → Screen
csi_m s = record s { attr = set_attrs (s.npar + 1) 0 s.par s.attr }

-- The loop of `insert_char` over `n` shorts from number `p` on.
pub shift_right : (n : ℕ) → (p : ℕ) → (old : ℕ) → (ℕ → ℕ) → ℕ → ℕ
shift_right zero p old video = video
shift_right (suc n) p old video = shift_right n (suc p) (video p) (update video p old)

pub insert_char : Screen → Screen
insert_char s = record s { video = shift_right (columns - s.x) (s.pos / 2) blank s.video }

-- The loop of `delete_char`, and the blank that it puts last.
pub shift_left : (n : ℕ) → (p : ℕ) → (ℕ → ℕ) → ℕ → ℕ
shift_left zero p video = update video p blank
shift_left (suc n) p video = shift_left n (suc p) (update video p (video (suc p)))

pub delete_char : Screen → Screen
delete_char s =
    if leb columns s.x
    then s
    else record s { video = shift_left (columns - 1 - s.x) (s.pos / 2) s.video }

-- `insert_line` and `delete_line` scroll the lines from the cursor on.
abbrev pub from_cursor : (Screen → Screen) → Screen → Screen
from_cursor scroll s = record (scroll (record s { top = s.y; bottom = lines })) {
  top = s.top;
  bottom = s.bottom;
}

pub insert_line : Screen → Screen
insert_line s = from_cursor scrdown s

pub delete_line : Screen → Screen
delete_line s = from_cursor scrup s

-- `nr` of the four functions below: at least 1 and at most `most`.
abbrev pub times : (most : ℕ) → (nr : ℕ) → ℕ
times most nr = if ltb most nr then most else (if nr == 0 then 1 else nr)

pub repeat : ℕ → (Screen → Screen) → Screen → Screen
repeat zero f s = s
repeat (suc n) f s = repeat n f (f s)

pub csi_at : (nr : ℕ) → Screen → Screen
csi_at nr s = repeat (times columns nr) insert_char s

pub csi_l : (nr : ℕ) → Screen → Screen
csi_l nr s = repeat (times lines nr) insert_line s

pub csi_p : (nr : ℕ) → Screen → Screen
csi_p nr s = repeat (times columns nr) delete_char s

pub csi_m_lines : (nr : ℕ) → Screen → Screen
csi_m_lines nr s = repeat (times lines nr) delete_line s

pub save_cur : Screen → Screen
save_cur s = record s { saved_x = s.x; saved_y = s.y }

pub restore_cur : Screen → Screen
restore_cur s = record s { x = s.saved_x; y = s.saved_y; pos = pos_of s s.saved_x s.saved_y }
