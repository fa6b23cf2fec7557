-- ===== src/Tty/Console.antt =====
-- kernel/tty_io.c, the input side, and `respond` and `con_write` of kernel/console.c. The output
-- function of a terminal, `tty->write`, is an argument: `con_write` itself, or `rs_write`, which is
-- assembly.
pub mod Frame
pub mod Output
pub mod Line
pub mod Cooking
pub mod Effects
pub mod Drain
use linux.Prelude.{
  ℕ, zero, suc, ◌+◌, ◌-◌, ◌*◌, ◌/◌, ◌%◌, ◌^◌, Bool, true, false, not, ◌&&◌, ◌||◌, ◌==◌, ltb, leb,
  slt, if◌then◌else◌, add32, update, Option, none, some, set_bit, test_bit, List, [], ◌∷◌,
}
use linux.Kernel.Task.{Task, Table, nr_tasks, on_task}
use linux.Tty.Queue.{Queue, Tty, is_empty, is_full, last, chars, getch, putch, dec}
use linux.Tty.Screen.{Screen, set_cursor}
use linux.Tty.Escape.{con_char}

-- A terminal with the screen and the tasks.
pub record Console : Type 0 where
  pub screen : Screen
  pub tty : Tty
  pub tasks : Table

-- L_CANON, L_ISIG, L_ECHO, L_ECHOCTL; I_UCLC, I_NLCR, I_CRNL, I_NOCR
abbrev pub l_canon : Tty → Bool
l_canon t = test_bit 1 t.lflag

abbrev pub l_isig : Tty → Bool
l_isig t = test_bit 0 t.lflag

abbrev pub l_echo : Tty → Bool
l_echo t = test_bit 3 t.lflag

abbrev pub l_echoctl : Tty → Bool
l_echoctl t = test_bit 9 t.lflag

abbrev pub i_uclc : Tty → Bool
i_uclc t = test_bit 9 t.iflag

abbrev pub i_nlcr : Tty → Bool
i_nlcr t = test_bit 6 t.iflag

abbrev pub i_crnl : Tty → Bool
i_crnl t = test_bit 8 t.iflag

abbrev pub i_nocr : Tty → Bool
i_nocr t = test_bit 7 t.iflag

-- INTR_CHAR, ERASE_CHAR, EOF_CHAR, START_CHAR and STOP_CHAR
abbrev pub intr_char : Tty → ℕ
intr_char t = t.cc 0

abbrev pub erase_char : Tty → ℕ
erase_char t = t.cc 2

abbrev pub eof_char : Tty → ℕ
eof_char t = t.cc 4

abbrev pub start_char : Tty → ℕ
start_char t = t.cc 8

abbrev pub stop_char : Tty → ℕ
stop_char t = t.cc 9

-- Is the signed `c` the unsigned `k`? Is `c` below 32?
abbrev pub is_char : (c : ℕ) → (k : ℕ) → Bool
is_char c k = c == k && ltb c 128

abbrev pub is_control : ℕ → Bool
is_control c = ltb c 32 || leb 128 c

abbrev pub on_tty : (Tty → Tty) → Console → Console
on_tty f k = record k { tty = f k.tty }

abbrev pub put_read : (c : ℕ) → Console → Console
put_read c k = on_tty (λ t. record t { read_q = putch c t.read_q }) k

abbrev pub put_write : (c : ℕ) → Console → Console
put_write c k = on_tty (λ t. record t { write_q = putch c t.write_q }) k

abbrev pub put_secondary : (c : ℕ) → Console → Console
put_secondary c k = on_tty (λ t. record t { secondary = putch c t.secondary }) k

-- `tty_intr`
unfoldable pub tty_intr : (signal : ℕ) → Console → Console
tty_intr signal k =
    if slt 0 k.tty.pgrp
    then record k {
      tasks = λ i.
          if ltb i nr_tasks
          then on_task
              (λ t.
                if t.pgrp == k.tty.pgrp
                then record t { signal = set_bit (signal - 1) t.signal }
                else t)
              (k.tasks i)
          else k.tasks i;
    }
    else k

-- `tolower` of include/ctype.h, as a `char`; it adds 'a' + 'A' to a capital. A character from 128 on
-- is looked up before the table; it is taken not to be a capital.
abbrev pub tolower : ℕ → ℕ
tolower c = if leb b'A' c && leb c b'Z' then (c + (b'a' + b'A')) % 256 else c

-- The first tests of the loop of `copy_to_cooked`: the character that goes on, or none.
unfoldable pub translate : Tty → (c : ℕ) → Option ℕ
translate t c =
    let lower = λ (d : ℕ). some (if i_uclc t then tolower d else d) in
    if c == 13
    then (if i_crnl t then lower 10 else (if i_nocr t then none else lower c))
    else (if c == 10 && i_nlcr t then lower 13 else lower c)

-- `if (L_ECHO(tty))` where a character is erased, and DEC(tty->secondary.head)
abbrev pub echo_erase : (write : Console → Console) → (c : ℕ) → Console → Console
echo_erase write c k =
    if l_echo k.tty then write (put_write 127 (if is_control c then put_write 127 k else k)) else k

abbrev pub drop_last : Console → Console
drop_last k =
    on_tty (λ t. record t { secondary = record t.secondary { head = dec t.secondary.head } }) k

-- `c==ERASE_CHAR(tty)`
unfoldable pub erase_last : (write : Console → Console) → Console → Console
erase_last write k =
    let c : ℕ = last k.tty.secondary in
    if is_empty k.tty.secondary || c == 10 || is_char c (eof_char k.tty)
    then k
    else drop_last (echo_erase write c k)

-- `if (L_ECHO(tty))` where a character is taken
abbrev pub echo_chars : (c : ℕ) → Console → Console
echo_chars c k =
    if c == 10
    then put_write 13 (put_write 10 k)
    else (if is_control c
        then (if l_echoctl k.tty then put_write ((c + 64) % 256) (put_write b'^' k) else k)
        else put_write c k)

unfoldable pub echo : (write : Console → Console) → (c : ℕ) → Console → Console
echo write c k = if l_echo k.tty then write (echo_chars c k) else k

-- `tty->secondary.data++`
abbrev pub count_line : (c : ℕ) → Console → Console
count_line c k =
    if c == 10 || is_char c (eof_char k.tty)
    then on_tty
        (λ t. record t { secondary = record t.secondary { count = add32 t.secondary.count 1 } }) k
    else k

abbrev pub set_stopped : Bool → Console → Console
set_stopped b k = on_tty (λ t. record t { stopped = b }) k

-- The rest of the loop's body, with the translated character.
unfoldable pub cook : (write : Console → Console) → (c : ℕ) → Console → Console
cook write c k =
    if l_canon k.tty && is_char c (erase_char k.tty)
    then erase_last write k
    else (if l_canon k.tty && is_char c (stop_char k.tty)
        then set_stopped true k
        else (if l_canon k.tty && is_char c (start_char k.tty)
            then set_stopped false k
            else (if not (l_isig k.tty) && is_char c (intr_char k.tty)
                then tty_intr 2 k
                else put_secondary c (echo write c (count_line c k)))))

abbrev pub cook_translated : (write : Console → Console) → Option ℕ → Console → Console
cook_translated write none k = k
cook_translated write (some c) k = cook write c k

-- A character taken from the read queue.
abbrev pub got_read : Console → Console
got_read k = on_tty (λ t. record t { read_q = (getch k.tty.read_q).1 }) k

unfoldable pub cook_next : (write : Console → Console) → Console → Console
cook_next write k = cook_translated write (translate k.tty (getch k.tty.read_q).0) (got_read k)

-- The loop of `copy_to_cooked`, for at most so many characters.
unfoldable pub copy_to_cooked : (fuel : ℕ) → (write : Console → Console) → Console → Console
copy_to_cooked zero write k = k
copy_to_cooked (suc fuel) write k =
    let rest = copy_to_cooked fuel write (cook_next write k) in
    if is_empty k.tty.read_q || is_full k.tty.secondary then k else rest

-- RESPONSE
abbrev pub response : List ℕ
response = 27 ∷ b'[' ∷ b'?' ∷ b'1' ∷ b';' ∷ b'2' ∷ b'c' ∷ []

unfoldable pub put_all : List ℕ → Console → Console
put_all [] k = k
put_all (c ∷ s) k = put_all s (put_read c k)

-- `respond`; the queue has at most 1023 characters to be copied.
unfoldable pub respond : (write : Console → Console) → Console → Console
respond write k = copy_to_cooked 1024 write (put_all response k)

-- The loop of `con_write`, for `nr` characters.
unfoldable pub con_loop : (nr : ℕ) → (write : Console → Console) → Console → Console
con_loop zero write k = k
con_loop (suc nr) write k =
    let (c, q) = getch k.tty.write_q in
    let (s, asks) = con_char (erase_char k.tty) c k.screen in
    let k' : Console = record (on_tty (λ t. record t { write_q = q }) k) { screen = s } in
    con_loop nr write (if asks then respond write k' else k')

unfoldable pub con_write : (write : Console → Console) → Console → Console
con_write write k =
    let k' : Console = con_loop (chars k.tty.write_q) write k in
    record k' { screen = set_cursor k'.screen }

-- `tty->write` of the console is `con_write`, which may be called from itself through `respond`;
-- `depth` calls deep.
unfoldable pub console_write : (depth : ℕ) → Console → Console
console_write zero k = k
console_write (suc depth) k = con_write (console_write depth) k
