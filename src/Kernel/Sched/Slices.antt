-- ===== src/Kernel/Sched/Slices.antt =====
-- The timer tick, `nice` and `signal`.
use linux.Prelude.{
  ℕ, ◌-◌, ◌≤◌, ◌<◌, ◌^◌, ◌≡◌, ◌≢◌, ◌⊎◌, inl, inr, refl, sym, ap, ◌&&◌, ◌∙◌, arith, some, true,
  false, Bool-cases, slt, update, add32, update_ne, ret, fail, ◌==◌, if◌then◌else◌, not,
}
use mathlib.Core.Path.{subst}
use linux.Kernel.Task.{Task, Kernel, EveryTask}
use linux.Kernel.Sched.{
  spend_tick, count_tick, tick_task, do_timer, sys_nice, sys_signal, can_handle,
}
use linux.Kernel.Sched.Schedule.{IsTimed, IsChosen, IsPassedOver, schedule_total}

-- In kernel mode, or with more than one tick left, the current task keeps the processor whatever
-- the fuel: its counter goes down by one and stops at 0, and the tick is counted in `utime` or
-- `stime` by the privilege level. The counter must not be negative.
pub do_timer-keeps :
    (fuel cpl : ℕ) (k : Kernel) (t : Task)
    → k.task k.current ≡ some t
    → t.counter < 2 ^ 31
    → ((cpl ≡ 0) ⊎ (1 < t.counter))
    → (t' : Task) × (do_timer fuel cpl k
        ≡ some (record k { task = update k.task k.current (some t') }))
      × (t'.counter ≡ t.counter - 1)
      × (t'.utime ≡ (if cpl == 0 then t.utime else add32 t.utime 1))
      × (t'.stime ≡ (if cpl == 0 then add32 t.stime 1 else t.stime))
unfolding do_timer spend_tick tick_task count_tick
do_timer-keeps fuel cpl k t at pos mode =
    ((spend_tick cpl t).0, rw at (rw stop refl), ground arith, ground arith, ground arith)
  where
    stop : ((spend_tick cpl t).1 && not (cpl == 0)) ≡ false
    stop = ground arith

-- In user mode, at the last tick of its slice, the current task's counter becomes 0 and `schedule`
-- runs; so two rounds of its loop are enough where every task has a priority and a counter in
-- range; every task is then the one it was, the current one with counter 0 and the tick in `utime`,
-- but for what `IsPassed` names, and it switches to the runnable task with the most time left, or
-- to slot 0.
pub do_timer-switches :
    (cpl : ℕ) (k : Kernel) (t : Task)
    → k.task k.current ≡ some t
    → EveryTask IsTimed k.task
    → t.counter ≤ 1
    → cpl ≢ 0
    → (k' : Kernel) × (do_timer 2 cpl k ≡ some k')
      × IsChosen k'.task k'.current
      × EveryTask IsTimed k'.task
      × IsPassedOver k.jiffies
          (update k.task k.current (some (record t { counter = 0; utime = add32 t.utime 1 })))
          k'.task
unfolding do_timer spend_tick tick_task count_tick
do_timer-switches cpl k t at timed last user =
    let (k'', e, chosen, timed'', passed) = schedule_total k' timed' in
    (
      k'',
      rw at (rw (go, e) refl),
      chosen,
      timed'',
      subst (λ (u : Task). IsPassedOver k.jiffies (update k.task k.current (some u)) k''.task)
          spent_is passed,
    )
  where
    spent_is : (spend_tick cpl t).0 ≡ record t { counter = 0; utime = add32 t.utime 1 }
    spent_is = ground arith

    go : ((spend_tick cpl t).1 && not (cpl == 0)) ≡ true
    go = ground arith

    k' : Kernel
    k' = record k { task = update k.task k.current (some (spend_tick cpl t).0) }

    spent : IsTimed t → IsTimed (spend_tick cpl t).0
    spent h = ground arith

    at_slot :
        (i : ℕ) (u : Task)
        → k'.task i ≡ some u
        → (k.task i ≡ some u) ⊎ ((i ≡ k.current) × (u ≡ (spend_tick cpl t).0))
    at_slot i u e = ground arith

    timed' : EveryTask IsTimed k'.task
    timed' i u p l e = keep (at_slot i u e)
      where
        keep : (k.task i ≡ some u) ⊎ ((i ≡ k.current) × (u ≡ (spend_tick cpl t).0)) → IsTimed u
        keep (inl old) = timed i u p l old
        keep (inr (same, new)) =
            subst IsTimed (sym new) (spent (timed i t p l (ap k.task same ∙ at)))

-- `nice` leaves a positive priority positive, whatever the increment.
pub sys_nice-positive :
    (increment : ℕ) (t : Task)
    → slt 0 t.priority ≡ true
    → slt 0 (sys_nice increment t).0.priority ≡ true
unfolding sys_nice
sys_nice-positive increment t h = ground arith

-- `signal` installs a handler that the next call for the same signal returns, and changes the
-- handler of no other signal; SIGKILL, SIGTERM and the rest that it does not take are refused,
-- with the task unchanged.
pub sys_signal_lem :
    (s addr r : ℕ) (t : Task)
    → ((can_handle s ≡ true)
        × ((b r' : ℕ) → (sys_signal s b r' (sys_signal s addr r t).0).1 ≡ ret addr)
        × ((j : ℕ) → j ≢ s - 1 → (sys_signal s addr r t).0.sig_fn j ≡ t.sig_fn j))
      ⊎ ((can_handle s ≡ false) × (sys_signal s addr r t ≡ (t, fail 1)))
unfolding sys_signal
sys_signal_lem s addr r t = elim (Bool-cases (can_handle s)) [
  | inl y ↦
      inl (y, (λ b r'. again y b r'), λ j ne. rw y (update_ne t.sig_fn addr (λ e. ne (sym e))))
  | inr n ↦ inr (n, rw n refl)
]
  where
    again :
        can_handle s ≡ true
        → (b r' : ℕ) → (sys_signal s b r' (sys_signal s addr r t).0).1 ≡ ret addr
    again y b r' = ground (arith, y)
