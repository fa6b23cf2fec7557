-- ===== src/Kernel/Kill.antt =====
-- kernel/exit.c: sending signals.
pub mod Targets
use linux.Prelude.{
  ℕ, ◌-◌, Bool, true, false, not, ◌&&◌, ◌||◌, ◌==◌, ltb, leb, slt, if◌then◌else◌, minus, sub32,
  set_bit, Ret, ret,
}
use linux.Kernel.Task.{Task, Table, last_slot}
use linux.Kernel.Sched.{each_task}

-- May the current task send a signal to `p`?
pub may_signal : Task → Bool → Task → Bool
may_signal me priv p =
    priv || me.uid == p.uid || me.euid == p.uid || me.uid == p.euid || me.euid == p.euid

-- `if (sig < 1 || sig > 32) return;`, for a signed `sig`.
abbrev pub is_signal : ℕ → Bool
is_signal sig = leb 1 sig && leb sig 32

pub send_sig : Task → Bool → ℕ → Task → Task
unfolding may_signal
send_sig me priv sig p =
    if is_signal sig && may_signal me priv p
    then record p { signal = set_bit (sig - 1) p.signal }
    else p

-- The four loops of `do_kill`: the tests on the task in the slot.
pub is_target : Task → ℕ → Task → Bool
is_target me pid p =
    if pid == 0
    then p.pgrp == me.pid
    else (if slt 0 pid
        then p.pid == pid
        else (if pid == minus 1 then true else p.pgrp == sub32 0 pid))

pub do_kill : Task → ℕ → ℕ → Bool → Table → Table
unfolding is_target send_sig each_task
do_kill me pid sig priv tab =
    each_task (λ p. if is_target me pid p then send_sig me priv sig p else p) last_slot tab

-- `!(current->uid || current->euid)`
abbrev pub is_super : Task → Bool
is_super me = me.uid == 0 && me.euid == 0

pub sys_kill : Task → ℕ → ℕ → Table → Table × Ret
unfolding do_kill
sys_kill me pid sig tab = (do_kill me pid sig (is_super me) tab, ret 0)
