-- ===== src/Kernel/Sched/Schedule.antt =====
-- kernel/sched.c: the choice of schedule.
use linux.Prelude.{
  ℕ, ◌+◌, ◌/◌, slt, set_bit, ◌^◌, ◌≤◌, ◌<◌, ◌≡◌, ◌≢◌, ◌⊎◌, inl, inr, refl, ap, sym, ◌∙◌, arith,
  Option, none, some, true, false, Bool-cases, ◌==◌, bias,
}
use mathlib.Core.Path.{subst}
use linux.Kernel.Task.{
  Task, Table, Kernel, EveryTask, running, interruptible, is_running, last_slot, on_task,
}
use linux.Kernel.Sched.{
  Choice, each_task, pick, no_choice, recharge, choose, check_task, ring_alarm, wake_signalled,
  schedule,
}
use linux.Kernel.Sched.Loops.{each_task_inside, each_task_first}
use linux.Kernel.Sched.Pick.{IsFrom, pick-covers, pick-IsFrom}

-- What `fork` and `nice` keep: a positive priority, and a counter that is no negative number.
pub record IsTimed (t : Task) : Type 0 where
  pub some_priority : 0 < t.priority
  pub small_priority : t.priority ≤ 2 ^ 30
  pub counter_nonneg : t.counter < 2 ^ 31

-- Nothing but the idle task can run.
abbrev pub AllAsleep : Table → Type 0
AllAsleep tab = EveryTask (λ t. is_running t.state ≡ false) tab

-- Slot `next` holds a runnable task with time left, and no runnable task has more.
abbrev pub IsLongest : Table → ℕ → Type 0
IsLongest tab next =
    (t : Task) × (tab next ≡ some t)
    × (is_running t.state ≡ true)
    × (0 < t.counter)
    × (0 < next)
    × (next ≤ last_slot)
    × EveryTask (λ u. is_running u.state ≡ true → u.counter ≤ t.counter) tab

abbrev pub IsChosen : Table → ℕ → Type 0
IsChosen tab next = ((next ≡ 0) × AllAsleep tab) ⊎ IsLongest tab next

module _ (tab : Table) (timed : EveryTask IsTimed tab) where
  covers :
      (i : ℕ) (t : Task)
      → 0 < i
      → i ≤ last_slot
      → tab i ≡ some t
      → is_running t.state ≡ true
      → bias t.counter ≤ bias (pick last_slot tab no_choice).c
  covers = pick-covers last_slot tab no_choice

  settled :
      (r : Choice)
      → ((i : ℕ) (t : Task)
          → 0 < i
          → i ≤ last_slot
          → tab i ≡ some t
          → is_running t.state ≡ true
          → bias t.counter ≤ bias r.c)
      → IsFrom last_slot tab no_choice r
      → r.c ≢ 0
      → IsChosen tab r.next
  settled r cov (inl e) ne = inl (ap (λ (x : Choice). x.next) e, asleep)
    where
      c_eq : r.c ≡ 4294967295
      c_eq = ap (λ (x : Choice). x.c) e

      asleep : AllAsleep tab
      asleep i t p l at = elim (Bool-cases (is_running t.state)) [
        | inr n ↦ n
        | inl y ↦ absurd (omega (arith, cov i t p l at y, timed i t p l at, c_eq))
      ]
  settled r cov (inr (t, at, run, e, p, l, g)) ne = inr (
    t,
    at,
    run,
    omega (arith, timed r.next t p l at),
    p,
    l,
    λ i u q m a y. omega (arith, cov i u q m a y, timed r.next t p l at, timed i u q m a),
  )

  -- A choice with time left is right.
  pub pick-IsChosen :
      (pick last_slot tab no_choice).c ≢ 0 → IsChosen tab (pick last_slot tab no_choice).next
  pick-IsChosen =
      settled (pick last_slot tab no_choice) covers (pick-IsFrom last_slot tab no_choice)

  -- If the choice has no time left, some runnable task has none.
  idle_slot :
      (r : Choice)
      → IsFrom last_slot tab no_choice r
      → r.c ≡ 0
      → (i : ℕ) × (t : Task) × (0 < i)
        × (i ≤ last_slot)
        × (tab i ≡ some t)
        × (is_running t.state ≡ true)
        × (t.counter ≡ 0)
  idle_slot r (inl e) z = absurd (omega (arith, ap (λ (x : Choice). x.c) e))
  idle_slot r (inr (t, at, run, e, p, l, g)) z = (r.next, t, p, l, at, run, e ∙ z)

recharge-IsTimed : (t : Task) → IsTimed t → IsTimed (recharge t)
unfolding recharge
recharge-IsTimed t h = ground arith

recharge_idle : (t : Task) → IsTimed t → t.counter ≡ 0 → bias 0 < bias (recharge t).counter
unfolding recharge
recharge_idle t h e = ground arith

recharge_state : (t : Task) → is_running (recharge t).state ≡ is_running t.state
unfolding recharge
recharge_state t = refl

-- What a function of tasks keeps, a pass over the table keeps.
pub each_task-EveryTask :
    (P Q : Task → Type 0) (f : Task → Task) (tab : Table)
    → ((t : Task) → P t → Q (f t))
    → EveryTask P tab
    → EveryTask Q (each_task f last_slot tab)
each_task-EveryTask P Q f tab keep h i u p l at =
    go (tab i) refl (sym (each_task_inside f last_slot tab i p l) ∙ at)
  where
    go : (o : Option Task) → tab i ≡ o → on_task f o ≡ some u → Q u
    go none e q = absurd (cc)
    go (some t) e q = subst Q (cc) (keep t (h i t p l e))

module _ (tab : Table) (timed : EveryTask IsTimed tab) where
  pub again : Table
  again = each_task recharge last_slot tab

  pub again-IsTimed : EveryTask IsTimed again
  unfolding again
  again-IsTimed = each_task-EveryTask IsTimed IsTimed recharge tab recharge-IsTimed timed

  -- After one recharge the choice has time left.
  again_nonzero : (pick last_slot tab no_choice).c ≡ 0 → (pick last_slot again no_choice).c ≢ 0
  unfolding again
  again_nonzero z =
      let (i, t, p, l, at, run, e) =
        idle_slot tab timed (pick last_slot tab no_choice) (pick-IsFrom last_slot tab no_choice)
          z in
      omega (
        arith,
        recharge_idle t (timed i t p l at) e,
        covers again again-IsTimed i (recharge t) p l
            (each_task_inside recharge last_slot tab i p l ∙ ap (on_task recharge) at)
            (recharge_state t ∙ run),
      )

-- What `schedule` may do to a task: an alarm that has passed is turned off and raises SIGALRM (14),
-- a task that sleeps interruptibly with a signal pending becomes runnable, the counter may be set
-- to half of itself and the priority, and nothing else changes.
pub record IsPassed (jiffies : ℕ) (t t' : Task) : Type 0 where
  pub rest :
      t' ≡ record t { signal = t'.signal; alarm = t'.alarm; state = t'.state; counter = t'.counter }
  pub rung :
      ((t.alarm ≢ 0)
        × (slt t.alarm jiffies ≡ true)
        × (t'.alarm ≡ 0)
        × (t'.signal ≡ set_bit 13 t.signal))
      ⊎ (((t.alarm ≡ 0) ⊎ (slt t.alarm jiffies ≡ false))
          × (t'.alarm ≡ t.alarm)
          × (t'.signal ≡ t.signal))
  pub woken :
      ((t.state ≡ interruptible) × (t'.signal ≢ 0) × (t'.state ≡ running))
      ⊎ (((t.state ≢ interruptible) ⊎ (t'.signal ≡ 0)) × (t'.state ≡ t.state))
  pub counted : (t'.counter ≡ t.counter) ⊎ (t'.counter ≡ t.counter / 2 + t.priority)

-- The task of every slot from 1 on is one that passed; empty slots stay empty, and slot 0 is left
-- alone.
pub record IsPassedOver (jiffies : ℕ) (tab tab' : Table) : Type 0 where
  pub tasks :
      (i : ℕ) (t : Task)
      → 0 < i
      → i ≤ last_slot
      → tab i ≡ some t
      → (t' : Task) × (tab' i ≡ some t') × IsPassed jiffies t t'
  pub empties : (i : ℕ) → 0 < i → i ≤ last_slot → tab i ≡ none → tab' i ≡ none
  pub first : tab' 0 ≡ tab 0

check_task-IsPassed : (j : ℕ) (t : Task) → IsPassed j t (check_task j t)
unfolding check_task ring_alarm wake_signalled
check_task-IsPassed j t = record {
  rest = ground arith;
  rung = ground arith;
  woken = ground arith;
  counted = inl (ground arith);
}

recharge-IsPassed : (j : ℕ) (t : Task) → IsTimed t → IsPassed j t (recharge (check_task j t))
unfolding check_task ring_alarm wake_signalled recharge
recharge-IsPassed j t h = record {
  rest = ground arith;
  rung = ground arith;
  woken = ground arith;
  counted = inr (ground (arith, h));
}

checked-IsPassedOver :
    (j : ℕ) (tab : Table) → IsPassedOver j tab (each_task (check_task j) last_slot tab)
checked-IsPassedOver j tab = record {
  tasks = λ i t p l at. (
    check_task j t,
    each_task_inside (check_task j) last_slot tab i p l ∙ ap (on_task (check_task j)) at,
    check_task-IsPassed j t,
  );
  empties = λ i p l at.
      each_task_inside (check_task j) last_slot tab i p l ∙ ap (on_task (check_task j)) at;
  first = each_task_first (check_task j) last_slot tab;
}

recharged-IsPassedOver :
    (j : ℕ) (tab : Table)
    → EveryTask IsTimed tab
    → IsPassedOver j tab (each_task recharge last_slot (each_task (check_task j) last_slot tab))
recharged-IsPassedOver j tab timed = record {
  tasks = λ i t p l at. (
    recharge (check_task j t),
    twice i p l ∙ ap (both) at,
    recharge-IsPassed j t (timed i t p l at),
  );
  empties = λ i p l at. twice i p l ∙ ap both at;
  first =
      each_task_first recharge last_slot (each_task (check_task j) last_slot tab)
      ∙ each_task_first (check_task j) last_slot tab;
}
  where
    both : Option Task → Option Task
    both o = on_task recharge (on_task (check_task j) o)

    twice :
        (i : ℕ)
        → 0 < i
        → i ≤ last_slot
        → each_task recharge last_slot (each_task (check_task j) last_slot tab) i ≡ both (tab i)
    twice i p l =
        each_task_inside recharge last_slot (each_task (check_task j) last_slot tab) i p l
        ∙ ap (on_task recharge) (each_task_inside (check_task j) last_slot tab i p l)

-- Two rounds of the loop are enough.
choose_two :
    (tab : Table)
    → EveryTask IsTimed tab
    → (tab' : Table) × (next : ℕ) × (choose 2 tab ≡ some (tab', next))
      × IsChosen tab' next
      × EveryTask IsTimed tab'
      × ((tab' ≡ tab) ⊎ (tab' ≡ each_task recharge last_slot tab))
unfolding choose again
choose_two tab timed = elim (Bool-cases ((pick last_slot tab no_choice).c == 0)) [
  | inr no_zero ↦ (
    tab,
    (pick last_slot tab no_choice).next,
    rw no_zero refl,
    pick-IsChosen tab timed (ground arith),
    timed,
    inl refl,
  )
  | inl zero_left ↦
      let ne = again_nonzero tab timed (ground arith) in
      (
        again tab timed,
        (pick last_slot (again tab timed) no_choice).next,
        rw (zero_left, is_zero _ ne) refl,
        pick-IsChosen (again tab timed) (again-IsTimed tab timed) ne,
        again-IsTimed tab timed,
        inr refl,
      )
]
  where
    is_zero : (n : ℕ) → n ≢ 0 → (n == 0) ≡ false
    is_zero n h = ground arith

check_task-IsTimed : (j : ℕ) (t : Task) → IsTimed t → IsTimed (check_task j t)
unfolding check_task ring_alarm wake_signalled
check_task-IsTimed j t h = ground arith

-- If every task in the slots 1 to NR_TASKS - 1 has a positive priority of at most 2 ^ 30 and a
-- counter that is not negative, then `schedule` ends within two rounds of its loop, its result
-- keeps these bounds, every task is the one it was but for what `IsPassed` names, and the slot it
-- switches to either holds a runnable task whose counter is positive and at least that of every
-- runnable task, or it is slot 0 and no task is runnable.
pub schedule_total :
    (k : Kernel)
    → EveryTask IsTimed k.task
    → (k' : Kernel) × (schedule 2 k ≡ some k')
      × IsChosen k'.task k'.current
      × EveryTask IsTimed k'.task
      × IsPassedOver k.jiffies k.task k'.task
unfolding schedule
schedule_total k timed =
    let (tab', next, e, chosen, timed', came) =
      choose_two (each_task (check_task k.jiffies) last_slot k.task) (
        each_task-EveryTask IsTimed IsTimed (check_task k.jiffies) k.task
          (check_task-IsTimed k.jiffies) timed) in
    (record k { task = tab'; current = next }, rw e refl, chosen, timed', passed tab' came)
  where
    passed :
        (tab' : Table)
        → (tab' ≡ each_task (check_task k.jiffies) last_slot k.task)
          ⊎ (tab'
              ≡ each_task recharge last_slot (each_task (check_task k.jiffies) last_slot k.task))
        → IsPassedOver k.jiffies k.task tab'
    passed tab' (inl e) =
        subst (IsPassedOver k.jiffies k.task) (sym e) (checked-IsPassedOver k.jiffies k.task)
    passed tab' (inr e) =
        subst (IsPassedOver k.jiffies k.task) (sym e)
          (recharged-IsPassedOver k.jiffies k.task timed)
