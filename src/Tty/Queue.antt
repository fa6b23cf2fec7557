-- ===== src/Tty/Queue.antt =====
-- include/linux/tty.h: the queues of a terminal, and the terminal.
pub mod Contents
use linux.Prelude.{ℕ, ◌+◌, ◌-◌, ◌%◌, ◌^◌, Bool, ◌==◌, add32, sub32, update, test_bit}

-- `proc_list`, the tasks that wait, is left out.
pub record Queue : Type 0 where
  pub count : ℕ
  pub head : ℕ
  pub tail : ℕ
  pub buf : ℕ → ℕ

abbrev pub tty_buf_size : ℕ
tty_buf_size = 1024

-- INC and DEC
abbrev pub inc : ℕ → ℕ
inc a = add32 a 1 % tty_buf_size

abbrev pub dec : ℕ → ℕ
dec a = sub32 a 1 % tty_buf_size

-- EMPTY, LEFT, FULL, LAST and CHARS
abbrev pub is_empty : Queue → Bool
is_empty q = q.head == q.tail

abbrev pub left : Queue → ℕ
left q = sub32 (sub32 q.tail q.head) 1 % tty_buf_size

abbrev pub is_full : Queue → Bool
is_full q = left q == 0

abbrev pub last : Queue → ℕ
last q = q.buf (dec q.head)

abbrev pub chars : Queue → ℕ
chars q = sub32 q.head q.tail % tty_buf_size

-- GETCH: the character, and the queue without it.
abbrev pub getch : Queue → ℕ × Queue
getch q = (q.buf q.tail, record q { tail = inc q.tail })

abbrev pub putch : ℕ → Queue → Queue
putch c q = record q { buf = update q.buf q.head c; head = inc q.head }

-- The line of a terminal. `iflag`, `oflag` and `lflag` are the words of `termios`.
pub record Tty : Type 0 where
  pub iflag : ℕ
  pub oflag : ℕ
  pub lflag : ℕ
  pub cc : ℕ → ℕ
  pub pgrp : ℕ
  pub stopped : Bool
  pub read_q : Queue
  pub write_q : Queue
  pub secondary : Queue
