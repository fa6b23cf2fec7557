-- ===== src/Fs/Files.antt =====
-- fs/fcntl.c and `sys_close` of fs/open.c: the file descriptors of the current task. `iput` is
-- modelled by the list of the inodes it was called with, the last one first.
pub mod Counts
pub mod Duplicates
pub mod Control
use linux.Prelude.{
  ℕ, zero, suc, ◌+◌, ◌-◌, ◌%◌, ◌^◌, Bool, true, false, not, ◌||◌, ◌&&◌, ◌==◌, ltb, leb,
  if◌then◌else◌, update, List, [], ◌∷◌, Option, none, some, find_first, set_bit, clear_bit,
  test_bit, Ret, ret, fail, ebadf, einval, emfile, Result, ok, panic, ◌>>=◌,
}

-- `filp` holds numbers of entries of `file_table`, whose fields are the last four.
pub record Files : Type 0 where
  pub filp : ℕ → Option ℕ
  pub close_on_exec : ℕ
  pub f_count : ℕ → ℕ
  pub f_flags : ℕ → ℕ
  pub f_inode : ℕ → ℕ
  pub iputs : List ℕ

abbrev pub nr_open : ℕ
nr_open = 20

abbrev pub is_open : Option ℕ → Bool
is_open none = false
is_open (some f) = true

-- `(current->filp[arg] = current->filp[fd])->f_count++`, the count being an unsigned short.
abbrev pub share_file : (f : ℕ) → (slot : ℕ) → Files → Files
share_file f slot s = record s {
  close_on_exec = clear_bit slot s.close_on_exec;
  filp = update s.filp slot (some f);
  f_count = update s.f_count f ((s.f_count f + 1) % 2 ^ 16);
}

-- The loop of `dupfd`: the first free slot from `arg` on.
unfoldable pub slot_from : (arg : ℕ) → (ℕ → Option ℕ) → Option ℕ
slot_from arg filp = find_first (λ i. not (is_open (filp i))) (nr_open - arg) arg

-- The descriptor `fd`, if it is open.
unfoldable pub file_of : (fd : ℕ) → Files → Option ℕ
file_of fd s = if ltb fd nr_open then s.filp fd else none

unfoldable pub dupfd : (fd : ℕ) → (arg : ℕ) → Files → Files × Ret
dupfd fd arg s = elim (file_of fd s) as (λ _. Files × Ret) [
  | none ↦ (s, fail ebadf)
  | some f ↦
      if leb nr_open arg
      then (s, fail einval)
      else elim (slot_from arg s.filp) as (λ _. Files × Ret) [
        | none ↦ (s, fail emfile)
        | some slot ↦ (share_file f slot s, ret slot)
      ]
]

-- `if (--filp->f_count) return 0; iput(filp->f_inode);`
abbrev pub drop_file : (f : ℕ) → Files → Files
drop_file f s =
    let n : ℕ = s.f_count f - 1 in
    record s {
      f_count = update s.f_count f n;
      iputs = (if n == 0 then s.f_inode f ∷ s.iputs else s.iputs);
    }

unfoldable pub sys_close : (fd : ℕ) → Files → Result (Files × Ret)
sys_close fd s =
    if leb nr_open fd
    then ok (s, fail einval)
    else (let s' : Files = record s { close_on_exec = clear_bit fd s.close_on_exec } in
        elim (s.filp fd) as (λ _. Result (Files × Ret)) [
          | none ↦ ok (s', fail einval)
          | some f ↦
              if s.f_count f == 0
              then panic
              else ok (drop_file f (record s' { filp = update s.filp fd none }), ret 0)
        ])

unfoldable pub sys_dup2 : (oldfd : ℕ) → (newfd : ℕ) → Files → Result (Files × Ret)
sys_dup2 oldfd newfd s = sys_close newfd s >>= λ r. ok (dupfd oldfd newfd r.0)

unfoldable pub sys_dup : (fildes : ℕ) → Files → Files × Ret
sys_dup fildes s = dupfd fildes 0 s

abbrev pub put_bit : (k : ℕ) → Bool → ℕ → ℕ
put_bit k b w = if b then set_bit k w else clear_bit k w

-- The commands of `fcntl`; `other_cmd` stands for every other number, the locks among them.
pub data Cmd : Type 0 where
  f_dupfd : Cmd
  f_getfd : Cmd
  f_setfd : Cmd
  f_getfl : Cmd
  f_setfl : Cmd
  other_cmd : Cmd

-- O_APPEND is bit 10 and O_NONBLOCK bit 11.
unfoldable pub set_flags : (arg : ℕ) → ℕ → ℕ
set_flags arg w = put_bit 11 (test_bit 11 arg) (put_bit 10 (test_bit 10 arg) w)

-- What `fcntl` does with the open file `f`.
unfoldable pub fcntl_cmd : (fd : ℕ) → (f : ℕ) → Cmd → (arg : ℕ) → Files → Files × Ret
fcntl_cmd fd f f_dupfd arg s = dupfd fd arg s
fcntl_cmd fd f f_getfd arg s = (s, ret (if test_bit fd s.close_on_exec then 1 else 0))
fcntl_cmd fd f f_setfd arg s =
    (record s { close_on_exec = put_bit fd (test_bit 0 arg) s.close_on_exec }, ret 0)
fcntl_cmd fd f f_getfl arg s = (s, ret (s.f_flags f))
fcntl_cmd fd f f_setfl arg s =
    (record s { f_flags = update s.f_flags f (set_flags arg (s.f_flags f)) }, ret 0)
fcntl_cmd fd f other_cmd arg s = (s, fail 1)

unfoldable pub sys_fcntl : (fd : ℕ) → Cmd → (arg : ℕ) → Files → Files × Ret
sys_fcntl fd cmd arg s = elim (file_of fd s) as (λ _. Files × Ret) [
  | none ↦ (s, fail ebadf)
  | some f ↦ fcntl_cmd fd f cmd arg s
]
