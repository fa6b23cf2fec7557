-- ===== src/Kernel/Sys/Identity.antt =====
-- What a process can do to its own identity, its break and its mask.
use linux.Prelude.{
  ℕ, ◌+◌, ◌^◌, ◌≤◌, ◌<◌, ◌≡◌, ◌≢◌, ◌⊎◌, inl, inr, refl, arith, Bool-cases, sub32, ret, fail, eperm,
  ◌==◌, ◌||◌, ◌&&◌, leb, ltb, not,
}
use linux.Kernel.Task.{Task}
use linux.Kernel.Sys.{sys_setgid, sys_brk, sys_setsid, sys_umask, is_ordinary}

-- A process whose real and effective user are not the superuser gets no effective group but its
-- real or its saved one: `setgid` sets it to that and returns 0, or returns -EPERM and changes
-- nothing; and it never changes the real group.
pub sys_setgid_ordinary :
    (gid : ℕ) (t : Task)
    → t.uid ≢ 0
    → t.euid ≢ 0
    → t.gid < 2 ^ 16
    → t.sgid < 2 ^ 16
    → (((gid ≡ t.gid) ⊎ (gid ≡ t.sgid)) × (sys_setgid gid t ≡ (record t { egid = gid }, ret 0)))
      ⊎ ((gid ≢ t.gid) × (gid ≢ t.sgid) × (sys_setgid gid t ≡ (t, fail eperm)))
unfolding sys_setgid
sys_setgid_ordinary gid t nu ne g s = elim (Bool-cases (t.gid == gid || t.sgid == gid)) [
  | inl y ↦ inl (ground arith, ground arith)
  | inr n ↦ inr (ground arith, ground arith, ground arith)
]

-- `brk` keeps a break that lies from the end of the code on and more than 16 kB below the stack
-- there, and returns the break that is then in force; a request out of these bounds changes
-- nothing.
pub sys_brk_bounds :
    (e : ℕ) (t : Task)
    → t.end_code ≤ t.brk
    → t.brk + 16384 < t.start_stack
    → t.start_stack < 2 ^ 32
    → let (t', r) = sys_brk e t in
      (r ≡ ret t'.brk)
      × (t'.end_code ≤ t'.brk)
      × (t'.brk + 16384 < t'.start_stack)
      × ((t'.brk ≡ e) ⊎ (t' ≡ t))
unfolding sys_brk
sys_brk_bounds e t lo hi word =
    elim (Bool-cases (leb t.end_code e && ltb e (sub32 t.start_stack 16384))) [
      | inl y ↦ rw y (refl, ground arith, ground arith, inl refl)
      | inr n ↦ rw n (refl, lo, hi, inr refl)
    ]

-- `setsid` succeeds exactly for a superuser that leads no session yet: it then leads the session
-- and the group of its own number. Otherwise it returns -EPERM and changes nothing. A second call
-- always fails.
pub sys_setsid_lem :
    (t : Task)
    → (((t.uid ≡ 0) ⊎ (t.euid ≡ 0))
        × (t.leader ≡ 0)
        × ((sys_setsid t).1 ≡ ret t.pid)
        × ((sys_setsid t).0.session ≡ t.pid)
        × ((sys_setsid t).0.pgrp ≡ t.pid)
        × ((sys_setsid (sys_setsid t).0).1 ≡ fail eperm))
      ⊎ (((t.leader ≢ 0) ⊎ ((t.uid ≢ 0) × (t.euid ≢ 0))) × (sys_setsid t ≡ (t, fail eperm)))
unfolding sys_setsid
sys_setsid_lem t = elim (Bool-cases (is_ordinary t || not (t.leader == 0))) [
  | inl y ↦ inr (ground arith, ground arith)
  | inr n ↦ inl (ground arith, ground arith, ground arith, ground arith, ground arith, ground arith)
]

-- `umask` returns the mask before the call: setting a mask and putting the old one back restores
-- the task, if its mask has nine bits.
pub umask-umask :
    (mask old : ℕ) (t : Task)
    → t.umask < 512
    → (sys_umask mask t).1 ≡ ret old
    → (sys_umask old (sys_umask mask t).0).0 ≡ t
unfolding sys_umask
umask-umask mask old t h e = ground arith
