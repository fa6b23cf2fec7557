-- ===== src/Tty/Escape.antt =====
-- kernel/console.c: the body of the loop of `con_write`, up to `respond`. A character is a byte; as
-- a signed `char` those from 128 on are negative.
pub mod Cursor
pub mod Frame
use linux.Prelude.{
  ℕ, ◌+◌, ◌-◌, ◌*◌, ◌/◌, ◌%◌, ◌^◌, Bool, true, false, not, ◌&&◌, ◌||◌, ◌==◌, ltb, leb,
  if◌then◌else◌, add32, sub32, update,
}
use linux.Tty.Screen.{
  Screen, lines, columns, gotoxy, lf, ri, cr, del, csi_j, csi_k, csi_m, csi_at, csi_l, csi_p,
  csi_m_lines, save_cur, restore_cur, put_cell,
}

-- `x -= columns; pos -= columns<<1; lf();`
abbrev pub wrap : Screen → Screen
wrap s = lf (record s { x = sub32 s.x columns; pos = sub32 s.pos (columns * 2) })

abbrev pub store : (c : ℕ) → Screen → Screen
store c s = record s {
  video = put_cell s.pos (s.attr * 256 + c) s.video;
  pos = add32 s.pos 2;
  x = add32 s.x 1;
}

unfoldable pub print_char : (c : ℕ) → Screen → Screen
print_char c s = store c (if leb columns s.x then wrap s else s)

pub back_space : Screen → Screen
back_space s = if s.x == 0 then s else record s { x = sub32 s.x 1; pos = sub32 s.pos 2 }

-- `c = 8-(x&7); x += c; pos += c<<1;`
abbrev pub advance : Screen → Screen
advance s = let c : ℕ = 8 - s.x % 8 in record s { x = add32 s.x c; pos = add32 s.pos (c * 2) }

pub tab : Screen → Screen
tab s = let s' : Screen = advance s in if ltb columns s'.x then wrap s' else s'

-- `case 0`; `erase` is ERASE_CHAR.
unfoldable pub plain : (erase : ℕ) → (c : ℕ) → Screen → Screen
plain erase c s =
    if ltb 31 c && ltb c 127
    then print_char c s
    else (if c == 27
        then record s { state = 1 }
        else (if c == 10 || c == 11 || c == 12
            then lf s
            else (if c == 13
                then cr s
                else (if c == erase && ltb c 128
                    then del s
                    else (if c == 8 then back_space s else (if c == 9 then tab s else s))))))

-- `case 1`, after an escape, but for `respond`; the last two tests are on `x`.
unfoldable pub escaped : (c : ℕ) → Screen → Screen
escaped c s =
    let s' : Screen = record s { state = 0 } in
    if c == b'['
    then record s { state = 2 }
    else (if c == b'E'
        then gotoxy 0 (add32 s.y 1) s'
        else (if c == b'M'
            then ri s'
            else (if c == b'D'
                then lf s'
                else (if c == b'Z'
                    then s'
                    else (if s.x == b'7'
                        then save_cur s'
                        else (if s.x == b'8' then restore_cur s' else s'))))))

abbrev pub set_par : (k : ℕ) → (v : ℕ) → Screen → Screen
set_par k v s = record s { par = update s.par k v }

-- `if (par[k]) par[k]--` and `if (!par[k]) par[k]++`
abbrev pub less_one : (k : ℕ) → Screen → Screen
less_one k s = if s.par k == 0 then s else set_par k (s.par k - 1) s

abbrev pub at_least_one : (k : ℕ) → Screen → Screen
at_least_one k s = if s.par k == 0 then set_par k 1 s else s

-- `gotoxy(x+par[0], y)` and the like, with the screen that has the parameter.
abbrev pub go : (Screen → ℕ) → (Screen → ℕ) → Screen → Screen
go new_x new_y s = gotoxy (new_x s) (new_y s) s

pub set_region : Screen → Screen
set_region s =
    let s₁ : Screen = less_one 0 s in
    let s₂ : Screen = if s₁.par 1 == 0 then set_par 1 lines s₁ else s₁ in
    if ltb (s₂.par 0) (s₂.par 1) && leb (s₂.par 1) lines
    then record s₂ { top = s₂.par 0; bottom = s₂.par 1 }
    else s₂

-- The cases that move the cursor; `none` of them is the other function's.
pub motion : (c : ℕ) → Screen → Screen
motion c s =
    if c == b'G' || c == 96
    then go (λ t. t.par 0) (λ t. t.y) (less_one 0 s)
    else (if c == b'A'
        then go (λ t. t.x) (λ t. sub32 t.y (t.par 0)) (at_least_one 0 s)
        else (if c == b'B' || c == b'e'
            then go (λ t. t.x) (λ t. add32 t.y (t.par 0)) (at_least_one 0 s)
            else (if c == b'C' || c == b'a'
                then go (λ t. add32 t.x (t.par 0)) (λ t. t.y) (at_least_one 0 s)
                else (if c == b'D'
                    then go (λ t. sub32 t.x (t.par 0)) (λ t. t.y) (at_least_one 0 s)
                    else (if c == b'E'
                        then go (λ t. 0) (λ t. add32 t.y (t.par 0)) (at_least_one 0 s)
                        else (if c == b'F'
                            then go (λ t. 0) (λ t. sub32 t.y (t.par 0)) (at_least_one 0 s)
                            else (if c == b'd'
                                then go (λ t. t.x) (λ t. t.par 0) (less_one 0 s)
                                else (if c == b'H' || c == b'f'
                                    then go (λ t. t.par 1) (λ t. t.par 0)
                                        (less_one 1 (less_one 0 s))
                                    else s))))))))

-- The other cases of `switch (c)`.
pub edit : (c : ℕ) → Screen → Screen
edit c s =
    if c == b'J'
    then csi_j (s.par 0) s
    else (if c == b'K'
        then csi_k (s.par 0) s
        else (if c == b'L'
            then csi_l (s.par 0) s
            else (if c == b'M'
                then csi_m_lines (s.par 0) s
                else (if c == b'P'
                    then csi_p (s.par 0) s
                    else (if c == b'@'
                        then csi_at (s.par 0) s
                        else (if c == b'm'
                            then csi_m s
                            else (if c == b'r'
                                then set_region s
                                else (if c == b's'
                                    then save_cur s
                                    else (if c == b'u' then restore_cur s else s)))))))))

-- `case 4`. No character is a case of both.
unfoldable pub final : (c : ℕ) → Screen → Screen
final c s = edit c (motion c (record s { state = 0 }))

abbrev pub npar_max : ℕ
npar_max = 16

-- `case 3`, which may go on to `case 4`.
unfoldable pub parameter : (c : ℕ) → Screen → Screen
parameter c s =
    if c == b';' && ltb s.npar (npar_max - 1)
    then record s { npar = s.npar + 1 }
    else (if leb b'0' c && leb c b'9'
        then set_par s.npar ((10 * s.par s.npar + c + 2 ^ 32 - b'0') % 2 ^ 32) s
        else final c s)

-- `case 2`, which may go on to `case 3`.
unfoldable pub bracket : (c : ℕ) → Screen → Screen
bracket c s =
    let s' : Screen = record s {
      par = λ k. if ltb k npar_max then 0 else s.par k;
      npar = 0;
      state = 3;
      ques = c == b'?';
    } in
    if c == b'?' then s' else parameter c s'

-- `switch (state)`: the screen, and whether `respond` is called then.
unfoldable pub con_char : (erase : ℕ) → (c : ℕ) → Screen → Screen × Bool
con_char erase c s =
    if s.state == 0
    then (plain erase c s, false)
    else (if s.state == 1
        then (escaped c s, c == b'Z')
        else (if s.state == 2
            then (bracket c s, false)
            else (if s.state == 3
                then (parameter c s, false)
                else (if s.state == 4 then (final c s, false) else (s, false)))))
