-- ===== src/Tty/Output.antt =====
-- kernel/tty_io.c: the inner loop of tty_write, which puts characters into the write queue. The
-- static `cr_flag`, which the terminals share, is passed along.
pub mod Posted
use linux.Prelude.{
  ℕ, zero, suc, ◌+◌, ◌-◌, ◌%◌, Bool, true, false, not, ◌&&◌, ◌==◌, leb, if◌then◌else◌, test_bit,
  List, [], ◌∷◌,
}
use linux.Tty.Queue.{Queue, Tty, is_full, putch}

-- O_POST, O_LCUC, O_NLCR, O_CRNL and O_NLRET
abbrev pub o_post : Tty → Bool
o_post t = test_bit 0 t.oflag

abbrev pub o_lcuc : Tty → Bool
o_lcuc t = test_bit 1 t.oflag

abbrev pub o_nlcr : Tty → Bool
o_nlcr t = test_bit 2 t.oflag

abbrev pub o_crnl : Tty → Bool
o_crnl t = test_bit 3 t.oflag

abbrev pub o_nlret : Tty → Bool
o_nlret t = test_bit 5 t.oflag

-- The first two tests on a character.
abbrev pub swap_line_end : Tty → (c : ℕ) → ℕ
swap_line_end t c = if c == 13 && o_crnl t then 10 else (if c == 10 && o_nlret t then 13 else c)

-- `c=='\n' && !cr_flag && O_NLCR(tty)`
abbrev pub wants_cr : Tty → (cr_flag : Bool) → (c : ℕ) → Bool
wants_cr t cr_flag c = o_post t && (swap_line_end t c == 10 && not cr_flag && o_nlcr t)

-- `toupper` of include/ctype.h, with the characters from 128 on taken not to be letters.
abbrev pub toupper : ℕ → ℕ
toupper c = if leb b'a' c && leb c b'z' then c - 32 else c

-- The character that is put.
abbrev pub written : Tty → (c : ℕ) → ℕ
written t c =
    if o_post t then (let d : ℕ = swap_line_end t c in if o_lcuc t then toupper d else d) else c

-- The loop, for at most so many rounds: what is left of the characters, `cr_flag` and the queue.
unfoldable pub fill_queue :
    (rounds : ℕ) → Tty → (cr_flag : Bool) → List ℕ → Queue → List ℕ × Bool × Queue
fill_queue zero t cr_flag s q = (s, cr_flag, q)
fill_queue (suc rounds) t cr_flag [] q = ([], cr_flag, q)
fill_queue (suc rounds) t cr_flag (c ∷ s) q = elim (is_full q) [
  | true ↦ (c ∷ s, cr_flag, q)
  | false ↦ elim (wants_cr t cr_flag c) [
    | true ↦ fill_queue rounds t true (c ∷ s) (putch 13 q)
    | false ↦ fill_queue rounds t false s (putch (written t c) q)
  ]
]
