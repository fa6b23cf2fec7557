-- ===== src/Kernel/Kill/Targets.antt =====
-- Who is signalled by `kill`.
use linux.Prelude.{
  ℕ, ◌+◌, ◌^◌, ◌-◌, ◌≤◌, ◌<◌, ◌≡◌, ◌≢◌, ◌⊎◌, inl, inr, ap, ◌∙◌, arith, true, false, Bool-cases,
  some, if◌then◌else◌, test_bit, test_bit-set_bit_self, test_bit-set_bit_ne,
}
use linux.Kernel.Task.{Task, Table, last_slot, on_task}
use linux.Kernel.Sched.{each_task}
use linux.Kernel.Sched.Loops.{each_task_inside, each_task_first}
use linux.Kernel.Kill.{may_signal, is_signal, send_sig, is_target, do_kill, is_super, sys_kill}

-- The sender is the superuser, or shares a user with the receiver.
abbrev pub IsRelated : Task → Task → Type 0
IsRelated me p =
    ((me.uid ≡ 0) × (me.euid ≡ 0))
    ⊎ (me.uid ≡ p.uid)
    ⊎ (me.euid ≡ p.uid)
    ⊎ (me.uid ≡ p.euid)
    ⊎ (me.euid ≡ p.euid)

-- Signal `sig` is pending now, and no other signal has become pending or stopped being so.
abbrev pub IsSignalled : ℕ → Task → Task → Type 0
IsSignalled sig t t' =
    (test_bit (sig - 1) t'.signal ≡ true)
    × ((j : ℕ) → j ≢ sig - 1 → test_bit j t'.signal ≡ test_bit j t.signal)
    × (t' ≡ record t { signal = t'.signal })

-- Whom `pid` stands for: with 0 the group that the caller leads, with a positive number that
-- process, with -1 everybody, and with any other negative number the group of its absolute value.
abbrev pub IsTarget : Task → ℕ → Task → Type 0
IsTarget me pid p =
    ((pid ≡ 0) × (p.pgrp ≡ me.pid))
    ⊎ ((0 < pid) × (pid < 2 ^ 31) × (p.pid ≡ pid))
    ⊎ (pid ≡ 2 ^ 32 - 1)
    ⊎ ((2 ^ 31 ≤ pid) × (pid < 2 ^ 32 - 1) × (p.pgrp + pid ≡ 2 ^ 32))

is_target_lem :
    (me : Task) (pid : ℕ) (p : Task)
    → pid < 2 ^ 32
    → ((is_target me pid p ≡ true) × IsTarget me pid p)
      ⊎ ((is_target me pid p ≡ false) × ¬ (IsTarget me pid p))
unfolding is_target
is_target_lem me pid p h = elim (Bool-cases (is_target me pid p)) [
  | inl y ↦ inl (y, ground arith)
  | inr n ↦ inr (n, λ r. ground arith)
]

abbrev pub IsReceiver : Task → ℕ → ℕ → Task → Type 0
IsReceiver me pid sig t = IsTarget me pid t × (1 ≤ sig) × (sig ≤ 32) × IsRelated me t

may_signal_lem :
    (me p : Task)
    → ((may_signal me (is_super me) p ≡ true) × IsRelated me p)
      ⊎ ((may_signal me (is_super me) p ≡ false) × ¬ (IsRelated me p))
unfolding may_signal
may_signal_lem me p = elim (Bool-cases (may_signal me (is_super me) p)) [
  | inl y ↦ inl (y, ground arith)
  | inr n ↦ inr (n, λ r. ground arith)
]

-- `kill` leaves slot 0 alone. In each of the slots 1 to NR_TASKS - 1 it makes the signal pending,
-- and changes nothing else, if `pid`, a word, stands for the task or its group, the signal is
-- between 1 and 32, and the sender is the superuser or one of its users is one of the receiver's;
-- otherwise it leaves the task as it was.
pub sys_kill_lem :
    (me : Task) (pid sig : ℕ) (tab : Table)
    → pid < 2 ^ 32
    → ((sys_kill me pid sig tab).0 0 ≡ tab 0)
      × ((i : ℕ) (t : Task)
          → 0 < i
          → i ≤ last_slot
          → tab i ≡ some t
          → (t' : Task) × ((sys_kill me pid sig tab).0 i ≡ some t')
            × ((IsReceiver me pid sig t × IsSignalled sig t t')
                ⊎ ((¬ (IsReceiver me pid sig t)) × (t' ≡ t))))
unfolding sys_kill do_kill send_sig
sys_kill_lem me pid sig tab word = (each_task_first kill_one last_slot tab, slot)
  where
    kill_one : Task → Task
    kill_one p = if is_target me pid p then send_sig me (is_super me) sig p else p

    not_signal : is_signal sig ≡ false → 1 ≤ sig → sig ≤ 32 → ⊥
    not_signal n l h = ground arith

    split :
        (t : Task)
        → ((may_signal me (is_super me) t ≡ true) × IsRelated me t)
          ⊎ ((may_signal me (is_super me) t ≡ false) × ¬ (IsRelated me t))
        → ((is_target me pid t ≡ true) × IsTarget me pid t)
          ⊎ ((is_target me pid t ≡ false) × ¬ (IsTarget me pid t))
        → (IsReceiver me pid sig t × IsSignalled sig t (kill_one t))
          ⊎ ((¬ (IsReceiver me pid sig t)) × (kill_one t ≡ t))
    split t (inr (no_may, why)) target = inr ((λ r. why r.3), ground arith)
    split t (inl (may, related)) (inr (no_target, why)) = inr ((λ r. why r.0), ground arith)
    split t (inl (may, related)) (inl (hit, target)) = elim (Bool-cases (is_signal sig)) [
      | inr n ↦ inr ((λ r. not_signal n r.1 r.2), ground arith)
      | inl y ↦ inl (
        (target, ground arith, ground arith, related),
        (
          ground (arith, test_bit-set_bit_self (sig - 1) t.signal),
          λ j ne. ground (arith, test_bit-set_bit_ne j (sig - 1) t.signal ne),
          ground arith,
        ),
      )
    ]

    slot :
        (i : ℕ) (t : Task)
        → 0 < i
        → i ≤ last_slot
        → tab i ≡ some t
        → (t' : Task) × (each_task kill_one last_slot tab i ≡ some t')
          × ((IsReceiver me pid sig t × IsSignalled sig t t')
              ⊎ ((¬ (IsReceiver me pid sig t)) × (t' ≡ t)))
    slot i t p l at = (
      kill_one t,
      each_task_inside kill_one last_slot tab i p l ∙ ap (on_task kill_one) at,
      split t (may_signal_lem me t) (is_target_lem me pid t word),
    )
