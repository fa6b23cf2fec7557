-- ===== src/Kernel/Sys.antt =====
-- kernel/sys.c: the system calls on the current task's identity and on process groups. A call that
-- touches `current` alone takes and returns that task; `uid` and `gid` arguments are 32-bit words,
-- the fields that keep them have 16 bits.
pub mod Identity
pub mod Groups
use linux.Prelude.{
  ℕ, zero, suc, ◌+◌, ◌-◌, ◌/◌, ◌%◌, ◌^◌, Bool, true, false, not, ◌&&◌, ◌||◌, Option, none, some,
  ◌==◌, ltb, leb, if◌then◌else◌, add32, sub32, minus, update, Ret, ret, fail, eperm, esrch,
  find_first,
}
use linux.Kernel.Task.{Task, Table, nr_tasks}

-- `current->euid && current->uid`
abbrev pub is_ordinary : Task → Bool
is_ordinary t = not (t.euid == 0) && not (t.uid == 0)

abbrev pub u16 : ℕ → ℕ
u16 n = n % 2 ^ 16

pub sys_setgid : ℕ → Task → Task × Ret
sys_setgid gid t =
    if is_ordinary t
    then (if t.gid == gid || t.sgid == gid
        then (record t { egid = u16 gid }, ret 0)
        else (t, fail eperm))
    else (record t { gid = u16 gid; egid = u16 gid }, ret 0)

-- The second test compares the saved with the real identity, not with the argument.
pub sys_setuid : ℕ → Task → Task × Ret
sys_setuid uid t =
    if is_ordinary t
    then (if uid == t.uid || t.suid == t.uid
        then (record t { euid = u16 uid }, ret 0)
        else (t, fail eperm))
    else (record t { euid = u16 uid; uid = u16 uid }, ret 0)

-- `jiffies/HZ` for signed longs, towards 0; HZ is 100.
abbrev pub jiffies_over_hz : ℕ → ℕ
jiffies_over_hz jiffies =
    if ltb jiffies (2 ^ 31) then jiffies / 100 else sub32 0 (sub32 0 jiffies / 100)

-- `value` is the long that `tptr` points to. The pair is the new `startup_time`.
pub sys_stime : ℕ → ℕ → ℕ → Task → ℕ × Ret
sys_stime value jiffies startup_time t =
    if is_ordinary t then (startup_time, fail 1) else (sub32 value (jiffies_over_hz jiffies), ret 0)

-- The comparisons are unsigned.
pub sys_brk : ℕ → Task → Task × Ret
sys_brk end_data_seg t =
    if leb t.end_code end_data_seg && ltb end_data_seg (sub32 t.start_stack 16384)
    then (record t { brk = end_data_seg }, ret end_data_seg)
    else (t, ret t.brk)

pub sys_setsid : Task → Task × Ret
sys_setsid t =
    if is_ordinary t
    then (t, fail eperm)
    else (if not (t.leader == 0)
        then (t, fail eperm)
        else (record t { leader = 1; session = t.pid; pgrp = t.pid; tty = minus 1 }, ret t.pid))

-- `mask & 0777`
pub sys_umask : ℕ → Task → Task × Ret
sys_umask mask t = (record t { umask = mask % 512 }, ret t.umask)

-- The body of the loop of `sys_setpgid` for the task that it finds.
pub join_group : Task → ℕ → ℕ → Table → Task → Table × Ret
join_group me pgid i tab t =
    if not (t.leader == 0)
    then (tab, fail eperm)
    else (if not (t.session == me.session)
        then (tab, fail eperm)
        else (update tab i (some (record t { pgrp = pgid })), ret 0))

abbrev pub has_pid : ℕ → Option Task → Bool
has_pid pid none = false
has_pid pid (some t) = t.pid == pid

pub join_found : Task → ℕ → ℕ → Table → Option Task → Table × Ret
unfolding join_group
join_found me pgid i tab none = (tab, fail esrch)
join_found me pgid i tab (some t) = join_group me pgid i tab t

pub join_slot : Task → ℕ → Table → Option ℕ → Table × Ret
unfolding join_found
join_slot me pgid tab none = (tab, fail esrch)
join_slot me pgid tab (some i) = join_found me pgid i tab (tab i)

abbrev pub default_to : ℕ → ℕ → ℕ
default_to n d = if n == 0 then d else n

pub sys_setpgid : ℕ → ℕ → Task → Table → Table × Ret
unfolding find_first join_slot
sys_setpgid pid pgid me tab =
    let pid' = default_to pid me.pid in
    join_slot me (default_to pgid pid') tab (find_first (λ i. has_pid pid' (tab i)) nr_tasks 0)
