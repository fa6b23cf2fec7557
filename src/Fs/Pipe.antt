-- ===== src/Fs/Pipe.antt =====
-- fs/pipe.c: reading and writing a pipe. A call runs until it returns or until it sleeps, in which
-- case it goes on later from the same place with what is left; `wake_up` has no effect here.
pub mod Window
pub mod Fifo
use linux.Prelude.{
  ℕ, zero, suc, ◌+◌, ◌-◌, ◌%◌, ◌^◌, Bool, true, false, not, ◌==◌, if◌then◌else◌, update, sub32,
  List, [], ◌∷◌, set_bit,
}

-- The inode of a pipe: PIPE_HEAD and PIPE_TAIL in `i_zone`, the page at `i_size`, and `i_count`,
-- 2 while both ends are open. `signal` is that of the current task.
pub record Pipe : Type 0 where
  pub head : ℕ
  pub tail : ℕ
  pub page : ℕ → ℕ
  pub count : ℕ
  pub signal : ℕ

-- PIPE_SIZE, PIPE_EMPTY, PIPE_FULL and INC_PIPE.
abbrev pub pipe_size : Pipe → ℕ
pipe_size p = sub32 p.head p.tail % 4096

abbrev pub pipe_empty : Pipe → Bool
pipe_empty p = p.head == p.tail

abbrev pub pipe_full : Pipe → Bool
pipe_full p = pipe_size p == 4095

abbrev pub inc_pipe : ℕ → ℕ
inc_pipe i = (i + 1) % 4096

-- How a call ends: it returns so many bytes, it returns -1, or it sleeps with `left` bytes to go.
pub data End : Type 0 where
  returned : ℕ → End
  failed : End
  sleeping : (left : ℕ) → End

-- `while (count > 0 && !PIPE_EMPTY)`: the bytes for the caller, and the pipe.
unfoldable pub take_bytes : ℕ → Pipe → List ℕ × Pipe
take_bytes zero p = ([], p)
take_bytes (suc count) p =
    let (bytes, p') = take_bytes count (record p { tail = inc_pipe p.tail }) in
    if pipe_empty p then ([], p) else (p.page p.tail ∷ bytes, p')

abbrev pub count_bytes : List ℕ → ℕ
count_bytes [] = 0
count_bytes (b ∷ bs) = suc (count_bytes bs)

-- `read_pipe` of `count` bytes: what it gives the caller, the pipe, and how it ends.
unfoldable pub read_pipe : ℕ → Pipe → List ℕ × Pipe × End
unfolding take_bytes
read_pipe count p =
    if pipe_empty p
    then (if p.count == 2 then ([], p, sleeping count) else ([], p, returned 0))
    else (let (bytes, p') = take_bytes count p in (bytes, p', returned (count_bytes bytes)))

abbrev pub put_byte : ℕ → Pipe → Pipe
put_byte b p = record p { page = update p.page p.head b; head = inc_pipe p.head }

-- `current->signal |= 1 << (SIGPIPE - 1)`; SIGPIPE is 13.
abbrev pub raise_sigpipe : Pipe → Pipe
raise_sigpipe p = record p { signal = set_bit 12 p.signal }

-- What `write_pipe` does when the pipe is full, with `left` bytes to go and `n` written.
unfoldable pub stop_full : (left : ℕ) → (n : ℕ) → Pipe → Pipe × End
stop_full left n p = if p.count == 2 then (p, sleeping left) else (raise_sigpipe p, returned n)

-- The loop of `write_pipe`, with the bytes that are left; `n` have been written.
unfoldable pub put_bytes : List ℕ → ℕ → Pipe → Pipe × End
put_bytes [] n p = (p, returned n)
put_bytes (b ∷ bs) n p =
    let rest = put_bytes bs (n + 1) (put_byte b p) in
    if pipe_full p then stop_full (suc (count_bytes bs)) n p else rest

unfoldable pub write_pipe : List ℕ → Pipe → Pipe × End
unfolding put_bytes
write_pipe bytes p = if p.count == 2 then put_bytes bytes 0 p else (raise_sigpipe p, failed)
