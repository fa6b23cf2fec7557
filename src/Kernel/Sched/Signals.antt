-- ===== src/Kernel/Sched/Signals.antt =====
-- What `schedule` does to alarms and signals before it chooses.
use linux.Prelude.{
  ℕ, zero, suc, ◌≤◌, ◌<◌, ◌≡◌, ◌≢◌, ◌⊎◌, set_bit, inl, inr, ap, ◌∙◌, arith, Option, none, some,
  true, Bool-cases, ◌==◌, slt, test_bit, test_bit-set_bit_self, nonzero_of_test_bit,
}
use linux.Kernel.Task.{Task, TaskState, Table, Kernel, running, interruptible, last_slot, on_task}
use linux.Kernel.Sched.{
  each_task, pick, no_choice, recharge, choose, check_task, ring_alarm, wake_signalled, schedule,
  switch_if_chosen,
}
use linux.Kernel.Sched.Loops.{each_task_inside}

-- A property that `recharge` keeps holds of a slot's task after the loop if it held before.
choose-keeps :
    (P : Task → Type 0)
    → ((t : Task) → P t → P (recharge t))
    → (fuel : ℕ) (tab tab' : Table) (next i : ℕ) (t : Task) → 0 < i
    → i ≤ last_slot
    → choose fuel tab ≡ some (tab', next)
    → tab i ≡ some t
    → P t
    → (t' : Task) × (tab' i ≡ some t') × P t'
unfolding choose
choose-keeps P keep zero tab tab' next i t p l e at h = absurd (cc)
choose-keeps P keep (suc fuel) tab tab' next i t p l e at h =
    elim (Bool-cases ((pick last_slot tab no_choice).c == 0)) [
      | inr done ↦ (t, (let q = rw done at e in cc (q, at)), h)
      | inl more ↦
          choose-keeps P keep fuel (each_task recharge last_slot tab) tab' next i (recharge t) p l
            (rw more at e)
            (each_task_inside recharge last_slot tab i p l ∙ ap (on_task recharge) at) (keep t h)
    ]

-- What `schedule` did when it came back.
schedule-choose :
    (fuel : ℕ) (k k' : Kernel)
    → schedule fuel k ≡ some k'
    → (next : ℕ) × (choose fuel (each_task (check_task k.jiffies) last_slot k.task)
        ≡ some (k'.task, next))
unfolding schedule
schedule-choose fuel k k' e = go (choose fuel (each_task (check_task k.jiffies) last_slot k.task)) e
  where
    go :
        (o : Option (Table × ℕ))
        → switch_if_chosen k o ≡ some k'
        → (next : ℕ) × (o ≡ some (k'.task, next))
    go none q = absurd (cc)
    go (some (tab, next)) q = (next, cc)

-- An interruptible task has been made runnable, and any other stands as before.
abbrev pub IsRoused : (before after : TaskState) → Type 0
IsRoused before after =
    ((before ≡ interruptible) × (after ≡ running)) ⊎ ((before ≢ interruptible) × (after ≡ before))

-- A task that `schedule` has looked at: no signal is pending while it sleeps interruptibly.
abbrev pub IsAttended : Task → Type 0
IsAttended t = t.signal ≢ 0 → t.state ≢ interruptible

wake_signalled-IsAttended : (t : Task) → IsAttended (wake_signalled t)
unfolding wake_signalled
wake_signalled-IsAttended t p e = ground arith

recharge-IsAttended : (t : Task) → IsAttended t → IsAttended (recharge t)
unfolding recharge
recharge-IsAttended t h = h

-- However many rounds the loop of `schedule` takes, a task of the slots 1 to NR_TASKS - 1 stays in
-- its slot, and it no longer sleeps interruptibly if a signal is pending.
pub schedule-attends :
    (fuel : ℕ) (k k' : Kernel) (i : ℕ) (t : Task)
    → schedule fuel k ≡ some k'
    → 0 < i
    → i ≤ last_slot
    → k.task i ≡ some t
    → (t' : Task) × (k'.task i ≡ some t') × (t'.signal ≢ 0 → t'.state ≢ interruptible)
unfolding schedule check_task
schedule-attends fuel k k' i t e p l at =
    let (next, run) = schedule-choose fuel k k' e in
    choose-keeps IsAttended recharge-IsAttended fuel
      (each_task (check_task k.jiffies) last_slot k.task) k'.task next i (check_task k.jiffies t) p
      l run
      (each_task_inside (check_task k.jiffies) last_slot k.task i p l
        ∙ ap (on_task (check_task k.jiffies)) at)
      (wake_signalled-IsAttended (ring_alarm k.jiffies t))

-- The alarm has gone off: SIGALRM is pending, and no alarm is set.
abbrev pub IsAlarmed : (before : TaskState) → Task → Type 0
IsAlarmed before t = (t.alarm ≡ 0) × (test_bit 13 t.signal ≡ true) × IsRoused before t.state

check_task-IsAlarmed :
    (j : ℕ) (t : Task) → t.alarm ≢ 0 → slt t.alarm j ≡ true → IsAlarmed t.state (check_task j t)
unfolding check_task ring_alarm wake_signalled
check_task-IsAlarmed j t p q = (
  ground arith,
  ground (arith, test_bit-set_bit_self 13 t.signal),
  woken (λ z. nonzero_of_test_bit 13 (set_bit 13 t.signal) (test_bit-set_bit_self 13 t.signal) z),
)
  where
    woken : set_bit 13 t.signal ≢ 0 → IsRoused t.state (check_task j t).state
    woken pending = ground arith

-- If the alarm of a task in the slots 1 to NR_TASKS - 1 is set and lies before `jiffies`, then
-- after `schedule` the task has SIGALRM pending and no alarm, and it is runnable if it slept
-- interruptibly, and in the state that it had if not.
pub schedule-rings :
    (fuel : ℕ) (k k' : Kernel) (i : ℕ) (t : Task)
    → schedule fuel k ≡ some k'
    → 0 < i
    → i ≤ last_slot
    → k.task i ≡ some t
    → t.alarm ≢ 0
    → slt t.alarm k.jiffies ≡ true
    → (t' : Task) × (k'.task i ≡ some t')
      × (t'.alarm ≡ 0)
      × (test_bit 13 t'.signal ≡ true)
      × IsRoused t.state t'.state
unfolding schedule recharge
schedule-rings fuel k k' i t e p l at set due =
    let (next, run) = schedule-choose fuel k k' e in
    let (t', at', (off, pending, roused)) =
      choose-keeps (IsAlarmed t.state) (λ u h. h) fuel
        (each_task (check_task k.jiffies) last_slot k.task) k'.task next i (check_task k.jiffies t)
        p l run
        (each_task_inside (check_task k.jiffies) last_slot k.task i p l
          ∙ ap (on_task (check_task k.jiffies)) at)
        (check_task-IsAlarmed k.jiffies t set due) in
    (t', at', off, pending, roused)
