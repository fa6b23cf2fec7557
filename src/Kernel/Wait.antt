-- ===== src/Kernel/Wait.antt =====
-- kernel/exit.c: `sys_waitpid`, one pass over the task table, and what it does with a zombie. A
-- pass that finds children, but no zombie, ends in `sys_pause` and a new pass.
pub mod Children
use linux.Prelude.{
  ℕ, zero, suc, Bool, true, false, not, ◌&&◌, ◌||◌, Option, none, some, ◌==◌, slt, if◌then◌else◌,
  minus, sub32, add32, update, clear_bit, test_bit,
}
use linux.Kernel.Task.{Task, Table, is_zombie, last_slot}

-- The test on `pid` in the `if` of the loop.
pub is_wanted : ℕ → Task → Task → Bool
is_wanted pid me p =
    pid == minus 1
    || p.pid == pid
    || (pid == 0 && p.pgrp == me.pgrp)
    || (slt pid 0 && p.pgrp == sub32 0 pid)

-- `*p && *p != current && (...)`, and the inner test on `father`. `here` is the caller's slot.
pub is_child : ℕ → ℕ → Task → ℕ → Option Task → Bool
unfolding is_wanted
is_child pid here me i none = false
is_child pid here me i (some p) = not (i == here) && is_wanted pid me p && p.father == me.pid

-- How a pass ends: a zombie child in a slot, or the value of `flag`.
pub data Pass : Type 0 where
  found : ℕ → Pass
  flag : Bool → Pass

abbrev pub is_dead : Option Task → Bool
is_dead none = false
is_dead (some p) = is_zombie p.state

-- `for (p = &LAST_TASK; p > &FIRST_TASK; --p)`, for the slots n to 1.
pub wait_pass : ℕ → ℕ → Task → ℕ → Bool → Table → Pass
unfolding is_child
wait_pass pid here me zero fl tab = flag fl
wait_pass pid here me (suc n) fl tab =
    let child = is_child pid here me (suc n) (tab (suc n)) in
    let rest = wait_pass pid here me n (fl || child) tab in
    if child && is_dead (tab (suc n)) then found (suc n) else rest

-- What `sys_waitpid` returns after a pass, or that it sleeps: the child's number and exit code,
-- WNOHANG's 0, or -ECHILD.
pub data Answer : Type 0 where
  reaped : (slot pid exit_code : ℕ) → Answer
  nothing_yet no_child pauses : Answer

-- The caller takes over the times of the zombie.
pub take_times : Task → Task → Task
take_times me p = record me { cutime = add32 me.cutime p.utime; cstime = add32 me.cstime p.stime }

pub reap : ℕ → Task → Option Task → Task × Answer
unfolding take_times
reap i me none = (me, no_child)
reap i me (some p) = (take_times me p, reaped i p.pid p.exit_code)

pub answer : Bool → Task → Table → Pass → Task × Answer
unfolding reap
answer nohang me tab (found i) = reap i me (tab i)
answer nohang me tab (flag true) = (me, if nohang then nothing_yet else pauses)
answer nohang me tab (flag false) = (me, no_child)

unfoldable pub waitpid_pass : ℕ → Bool → ℕ → Task → Table → Task × Answer
unfolding wait_pass answer
waitpid_pass pid nohang here me tab =
    answer nohang me tab (wait_pass pid here me last_slot false tab)

-- After `sys_pause`: SIGCHLD (17) is taken off, and any other signal ends the call with -EINTR.
pub after_pause : Task → Task × Bool
after_pause me = let left = clear_bit 16 me.signal in (record me { signal = left }, not (left == 0))
