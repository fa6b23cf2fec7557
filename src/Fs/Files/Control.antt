-- ===== src/Fs/Files/Control.antt =====
-- `sys_fcntl`.
use linux.Prelude.{
  ℕ, ◌≡◌, refl, ◌∙◌, inl, inr, Bool, true, false, Option-cases, if◌then◌else◌, some, ret, test_bit,
  test_bit-set_bit_self, test_bit-clear_bit_self,
}
use linux.Fs.Files.{
  Files, sys_fcntl, fcntl_cmd, Cmd, f_dupfd, f_getfd, f_setfd, f_getfl, f_setfl, other_cmd, file_of,
  put_bit,
}
use linux.Fs.Files.Counts.{IsCounted}
use linux.Fs.Files.Duplicates.{dupfd_lem}

fcntl_cmd-IsCounted :
    (other : ℕ → ℕ) (fd f arg : ℕ) (cmd : Cmd) (s : Files)
    → IsCounted other s
    → IsCounted other (fcntl_cmd fd f cmd arg s).0
unfolding fcntl_cmd
fcntl_cmd-IsCounted other fd f arg f_dupfd s v = (dupfd_lem other fd arg s v).0
fcntl_cmd-IsCounted other fd f arg f_getfd s v = v
fcntl_cmd-IsCounted other fd f arg f_setfd s v = record { counts = v.counts; bound = v.bound }
fcntl_cmd-IsCounted other fd f arg f_getfl s v = v
fcntl_cmd-IsCounted other fd f arg f_setfl s v = record { counts = v.counts; bound = v.bound }
fcntl_cmd-IsCounted other fd f arg other_cmd s v = v

-- The counts of the open files stay right over every command of `sys_fcntl`.
pub sys_fcntl-IsCounted :
    (other : ℕ → ℕ) (fd arg : ℕ) (cmd : Cmd) (s : Files)
    → IsCounted other s
    → IsCounted other (sys_fcntl fd cmd arg s).0
unfolding sys_fcntl
sys_fcntl-IsCounted other fd arg cmd s v = elim (Option-cases (file_of fd s)) [
  | inl closed ↦ rw (closed, sys_fcntl) v
  | inr (f, opened) ↦ rw (opened, sys_fcntl) (fcntl_cmd-IsCounted other fd f arg cmd s v)
]

test_bit-put_bit : (k w : ℕ) (b : Bool) → test_bit k (put_bit k b w) ≡ b
test_bit-put_bit k w true = test_bit-set_bit_self k w
test_bit-put_bit k w false = test_bit-clear_bit_self k w

file_of-exec : (fd c : ℕ) (s : Files) → file_of fd (record s { close_on_exec = c }) ≡ file_of fd s
unfolding file_of
file_of-exec fd c s = refl

-- F_SETFD on an open descriptor returns 0, and F_GETFD then returns the lowest bit of its argument.
pub f_getfd-f_setfd :
    (fd f arg : ℕ) (s : Files)
    → file_of fd s ≡ some f
    → let (s', r) = sys_fcntl fd f_setfd arg s in
      (r ≡ ret 0) × (sys_fcntl fd f_getfd 0 s' ≡ (s', ret (if test_bit 0 arg then 1 else 0)))
unfolding sys_fcntl fcntl_cmd
f_getfd-f_setfd fd f arg s opened = rw set (refl, get)
  where
    s' : Files
    s' = record s { close_on_exec = put_bit fd (test_bit 0 arg) s.close_on_exec }

    set : sys_fcntl fd f_setfd arg s ≡ (s', ret 0)
    set = rw (opened, sys_fcntl) refl

    same : file_of fd s' ≡ some f
    same = file_of-exec fd _ s ∙ opened

    get : sys_fcntl fd f_getfd 0 s' ≡ (s', ret (if test_bit 0 arg then 1 else 0))
    get = rw (same, sys_fcntl, test_bit-put_bit fd s.close_on_exec (test_bit 0 arg)) refl
