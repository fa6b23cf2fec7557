-- ===== src/Kernel/Tests/Sched.antt =====
-- The scheduler, the tick and the wait queues on samples.
use linux.Prelude.{
  ℕ, ◌≡◌, refl, arith, Option, none, some, true, update, add32, test_bit, set_bit, ret, fail,
}
use linux.Kernel.Task.{Task, Kernel, EveryTask, is_running, running, uninterruptible}
use linux.Kernel.Sched.{schedule, do_timer, sys_nice, sys_signal}
use linux.Kernel.Sched.Schedule.{IsTimed, IsChosen, IsPassedOver, schedule_total}
use linux.Kernel.Sched.Signals.{IsRoused, schedule-rings}
use linux.Kernel.Sched.Slices.{do_timer-switches}
use linux.Kernel.Sleep.{Queue, empty, sleep_on, Reach, here, later, sleeps}
use linux.Kernel.Sleep.Progress.{Drain, sleeper_wakes}
use linux.Kernel.Tests.Samples.{worker, waiter, kernel, table-IsTimed}

-- One round of recharging: the waiter, woken by its alarm, has saved 7 of its 15 ticks.
after : Option ℕ
unfolding schedule
after = elim (schedule 2 kernel) [ none ↦ none | some k ↦ some k.current ]

schedule_runs : after ≡ some 2
unfolding after set_bit
schedule_runs = refl

schedule_total_example :
    (k' : Kernel) × (schedule 2 kernel ≡ some k')
    × IsChosen k'.task k'.current
    × EveryTask IsTimed k'.task
    × IsPassedOver kernel.jiffies kernel.task k'.task
schedule_total_example = schedule_total kernel table-IsTimed

-- The kernel that `schedule` leaves.
abbrev scheduled : Kernel
scheduled = (schedule_total kernel table-IsTimed).0

schedule-rings_example :
    (t' : Task) × (scheduled.task 2 ≡ some t')
    × (t'.alarm ≡ 0)
    × (test_bit 13 t'.signal ≡ true)
    × IsRoused waiter.state t'.state
schedule-rings_example =
    schedule-rings 2 kernel scheduled 2 waiter (schedule_total kernel table-IsTimed).1 (omega arith)
      (omega arith) refl (omega arith) refl

do_timer-switches_example :
    (k' : Kernel) × (do_timer 2 3 kernel ≡ some k')
    × IsChosen k'.task k'.current
    × EveryTask IsTimed k'.task
    × IsPassedOver kernel.jiffies
        (update kernel.task kernel.current
          (some (record worker { counter = 0; utime = add32 worker.utime 1 })))
        k'.task
do_timer-switches_example =
    do_timer-switches 3 kernel worker refl table-IsTimed (omega arith) (omega arith)

nice_too_much : sys_nice 15 worker ≡ (worker, ret 0)
unfolding sys_nice
nice_too_much = refl

kill_has_no_handler : sys_signal 9 0x1000 0 worker ≡ (worker, fail 1)
unfolding sys_signal
kill_has_no_handler = refl

-- Tasks 1 and 2 sleep, one behind the other.
abbrev one_asleep : Queue
one_asleep = record {
  head = some 1;
  frame = update (λ _. none) 1 (some none);
  state = update (λ _. running) 1 uninterruptible;
}

abbrev two_asleep : Queue
two_asleep = record {
  head = some 2;
  frame = update one_asleep.frame 2 (some (some 1));
  state = update one_asleep.state 2 uninterruptible;
}

two_asleep_reached : Reach empty two_asleep
unfolding sleep_on
two_asleep_reached =
    later (later here (sleeps 1 {r = one_asleep} refl refl refl))
      (sleeps 2 {r = two_asleep} refl refl refl)

sleeper_wakes_example :
    (r : Queue) × Drain two_asleep r × (is_running (r.state 1) ≡ true) × (r.frame 1 ≡ some none)
sleeper_wakes_example = sleeper_wakes 1 none two_asleep_reached refl
