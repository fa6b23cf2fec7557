-- ===== src/Kernel/Sched.antt =====
-- kernel/sched.c: the scheduler, the timer tick, and the system calls beside them. The loops over
-- `task[]` go down from LAST_TASK to slot 1, as in the source: each recurs on the slot.
pub mod Loops
pub mod Pick
pub mod Schedule
pub mod Signals
pub mod Slices
use linux.Prelude.{
  ℕ, zero, suc, ◌-◌, ◌*◌, Bool, true, false, not, ◌&&◌, ◌||◌, Option, none, some, ◌==◌, ltb,
  if◌then◌else◌, add32, sub32, slt, sar1, minus, set_bit, update, Ret, ret, fail,
}
use linux.Kernel.Task.{
  Task, Table, Kernel, running, interruptible, is_running, is_interruptible, last_slot, on_task,
  on_current,
}

-- The first `if` of the first loop of `schedule`: an alarm that has passed raises SIGALRM (14).
pub ring_alarm : ℕ → Task → Task
ring_alarm jiffies t =
    if not (t.alarm == 0) && slt t.alarm jiffies
    then record t { signal = set_bit 13 t.signal; alarm = 0 }
    else t

-- The second: a signal makes an interruptible task runnable.
pub wake_signalled : Task → Task
wake_signalled t =
    if not (t.signal == 0) && is_interruptible t.state then record t { state = running } else t

pub check_task : ℕ → Task → Task
unfolding ring_alarm wake_signalled
check_task jiffies t = wake_signalled (ring_alarm jiffies t)

-- `for (p = &LAST_TASK; p > &FIRST_TASK; --p) if (*p) ...`, for the slots n to 1.
unfoldable pub each_task : (Task → Task) → ℕ → Table → Table
each_task f zero tab = tab
each_task f (suc n) tab = each_task f n (update tab (suc n) (on_task f (tab (suc n))))

-- The local variables `c` and `next`.
pub record Choice : Type 0 where
  pub c : ℕ
  pub next : ℕ

-- The body of `while (--i)`.
pub consider : Option Task → ℕ → Choice → Choice
consider none i ch = ch
consider (some t) i ch =
    if is_running t.state && slt ch.c t.counter then record { c = t.counter; next = i } else ch

pub pick : ℕ → Table → Choice → Choice
unfolding consider
pick zero tab ch = ch
pick (suc n) tab ch = pick n tab (consider (tab (suc n)) (suc n) ch)

abbrev pub no_choice : Choice
no_choice = record { c = minus 1; next = 0 }

-- `counter = (counter >> 1) + priority`
pub recharge : Task → Task
recharge t = record t { counter = add32 (sar1 t.counter) t.priority }

-- `while (1)`, with fuel; the result is the table and `next`.
pub choose : ℕ → Table → Option (Table × ℕ)
unfolding pick each_task recharge
choose zero tab = none
choose (suc fuel) tab =
    let rest = choose fuel (each_task recharge last_slot tab) in
    let ch = pick last_slot tab no_choice in if ch.c == 0 then rest else some (tab, ch.next)

-- `switch_to(next)`
abbrev pub switch_to : Kernel → Table × ℕ → Kernel
switch_to k (tab, next) = record k { task = tab; current = next }

abbrev pub switch_if_chosen : Kernel → Option (Table × ℕ) → Option Kernel
switch_if_chosen k none = none
switch_if_chosen k (some r) = some (switch_to k r)

-- `none`: the fuel of the loop ran out.
unfoldable pub schedule : ℕ → Kernel → Option Kernel
unfolding check_task each_task choose
schedule fuel k =
    switch_if_chosen k (choose fuel (each_task (check_task k.jiffies) last_slot k.task))

unfoldable pub sys_pause : ℕ → Kernel → Option Kernel
unfolding schedule
sys_pause fuel k = schedule fuel (on_current (λ t. record t { state = interruptible }) k)

-- `if (cpl) utime++ else stime++`
pub count_tick : ℕ → Task → Task
count_tick cpl t =
    if cpl == 0 then record t { stime = add32 t.stime 1 } else record t { utime = add32 t.utime 1 }

-- The tick on the current task: the new task, and whether its slice is over.
pub spend_tick : ℕ → Task → Task × Bool
unfolding count_tick
spend_tick cpl t =
    let t' = count_tick cpl t in
    let left : ℕ = sub32 t.counter 1 in
    if slt 0 left then (record t' { counter = left }, false) else (record t' { counter = 0 }, true)

pub tick_task : ℕ → ℕ → Option Task → Kernel → Option Kernel
unfolding spend_tick schedule
tick_task fuel cpl none k = none
tick_task fuel cpl (some t) k =
    let (t', over) = spend_tick cpl t in
    let k' : Kernel = record k { task = update k.task k.current (some t') } in
    if over && not (cpl == 0) then schedule fuel k' else some k'

-- `none`: there is no current task, or the fuel ran out.
pub do_timer : ℕ → ℕ → Kernel → Option Kernel
unfolding tick_task
do_timer fuel cpl k = tick_task fuel cpl (k.task k.current) k

-- The system calls that touch the current task alone. HZ is 100.
pub sys_alarm : ℕ → ℕ → Task → Task × Ret
sys_alarm jiffies seconds t =
    (record t { alarm = if slt 0 seconds then add32 jiffies (100 * seconds) else 0 }, ret seconds)

unfoldable pub sys_nice : ℕ → Task → Task × Ret
sys_nice increment t =
    if slt 0 (sub32 t.priority increment)
    then (record t { priority = sub32 t.priority increment }, ret 0)
    else (t, ret 0)

-- The labels of the `switch`: 1 to 6, SIGFPE, SIGUSR1, SIGSEGV, SIGUSR2, SIGPIPE, SIGALRM, SIGCHLD.
pub can_handle : ℕ → Bool
can_handle s = (ltb 0 s && ltb s 7) || s == 8 || (ltb 9 s && ltb s 15) || s == 17

unfoldable pub sys_signal : ℕ → ℕ → ℕ → Task → Task × Ret
unfolding can_handle
sys_signal signal addr restorer t =
    if can_handle signal
    then (
      record t { sig_fn = update t.sig_fn (signal - 1) addr; sig_restorer = restorer },
      ret (t.sig_fn (signal - 1)),
    )
    else (t, fail 1)
