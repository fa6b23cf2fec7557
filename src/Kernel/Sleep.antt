-- ===== src/Kernel/Sleep.antt =====
-- kernel/sched.c: `sleep_on` and `wake_up` on one wait queue, with the tasks interleaved.
-- `schedule()` splits `sleep_on` in two: what a task does before it gives up the processor, and
-- what it does when it is chosen again. Between the two its local variable `tmp` lives in the
-- task's own kernel stack: `frame`. A task is the index of its slot.
pub mod Liveness
pub mod Progress
use linux.Prelude.{
  ℕ, Bool, true, Option, none, some, ◌==◌, if◌then◌else◌, ◌≡◌, update, Result, ok, panic,
}
use linux.Kernel.Task.{TaskState, running, uninterruptible, is_running}

pub record Queue : Type 0 where
  pub head : Option ℕ
  pub frame : ℕ → Option (Option ℕ)
  pub state : ℕ → TaskState

-- `if (tmp) tmp->state = 0`
abbrev pub rouse : Option ℕ → (ℕ → TaskState) → ℕ → TaskState
rouse none st = st
rouse (some j) st = update st j running

-- `sleep_on` up to its call of `schedule`; task 0 must not sleep.
unfoldable pub sleep_on : ℕ → Queue → Result Queue
sleep_on i q =
    if i == 0
    then panic
    else ok (record {
      head = some i;
      frame = update q.frame i (some q.head);
      state = update q.state i uninterruptible;
    })

-- The rest of `sleep_on`, with `tmp`.
pub resume : ℕ → Option ℕ → Queue → Queue
resume i tmp q = record q { frame = update q.frame i none; state = rouse tmp q.state }

pub wake_up : Queue → Queue
wake_up q = record q { head = none; state = rouse q.head q.state }

abbrev pub empty : Queue
empty = record { head = none; frame = λ _. none; state = λ _. running }

-- A runnable task may call `sleep_on`, or go on after it; anybody may call `wake_up`.
pub data Step (q : Queue) : Queue → Type 0 where
  sleeps :
      (i : ℕ) {r : Queue}
      → is_running (q.state i) ≡ true
      → q.frame i ≡ none
      → sleep_on i q ≡ ok r
      → Step q r
  resumes :
      (i : ℕ) (tmp : Option ℕ)
      → is_running (q.state i) ≡ true
      → q.frame i ≡ some tmp
      → Step q (resume i tmp q)
  wakes : Step q (wake_up q)

pub data Reach (q : Queue) : Queue → Type 0 where
  here : Reach q q
  later : {r s : Queue} → Reach q r → Step r s → Reach q s
