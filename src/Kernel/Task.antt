-- ===== src/Kernel/Task.antt =====
-- include/linux/sched.h: the task structure and the table of tasks. A `struct task_struct *` is
-- the index of the task's slot in `task[]`, and NULL is `none`; a `struct file *` is an index of
-- `file_table[]`. The registers (`tss`), the descriptors (`ldt`) and `end_data` are left out.
use linux.Prelude.{ℕ, ◌<◌, ◌≤◌, ◌≡◌, Bool, true, false, Option, none, some, update}

-- TASK_RUNNING, TASK_INTERRUPTIBLE, TASK_UNINTERRUPTIBLE, TASK_ZOMBIE, TASK_STOPPED
pub data TaskState : Type 0 where
  running interruptible uninterruptible zombie stopped : TaskState

abbrev pub is_running : TaskState → Bool
is_running running = true
is_running _ = false

abbrev pub is_interruptible : TaskState → Bool
is_interruptible interruptible = true
is_interruptible _ = false

abbrev pub is_zombie : TaskState → Bool
is_zombie zombie = true
is_zombie _ = false

-- Each number is the bit pattern of the C field.
pub record Task : Type 0 where
  pub state : TaskState
  pub counter : ℕ
  pub priority : ℕ
  pub signal : ℕ
  pub sig_restorer : ℕ
  pub sig_fn : ℕ → ℕ
  pub exit_code : ℕ
  pub end_code : ℕ
  pub brk : ℕ
  pub start_stack : ℕ
  pub pid : ℕ
  pub father : ℕ
  pub pgrp : ℕ
  pub session : ℕ
  pub leader : ℕ
  pub uid : ℕ
  pub euid : ℕ
  pub suid : ℕ
  pub gid : ℕ
  pub egid : ℕ
  pub sgid : ℕ
  pub alarm : ℕ
  pub utime : ℕ
  pub stime : ℕ
  pub cutime : ℕ
  pub cstime : ℕ
  pub start_time : ℕ
  pub used_math : ℕ
  pub tty : ℕ
  pub umask : ℕ
  pub close_on_exec : ℕ
  pub filp : ℕ → Option ℕ
  pub pwd : Option ℕ
  pub root : Option ℕ

-- NR_TASKS, and the slot of LAST_TASK.
abbrev pub nr_tasks : ℕ
nr_tasks = 64

abbrev pub last_slot : ℕ
last_slot = 63

-- `task[]`; the code reads the slots below NR_TASKS.
abbrev pub Table : Type 0
Table = ℕ → Option Task

-- `if (*p) *p = f(*p)`
abbrev pub on_task : (Task → Task) → Option Task → Option Task
on_task f none = none
on_task f (some t) = some (f t)

-- The global variables of kernel/sched.c and kernel/fork.c.
pub record Kernel : Type 0 where
  pub jiffies : ℕ
  pub startup_time : ℕ
  pub current : ℕ
  pub task : Table
  pub last_pid : ℕ
  pub last_task_used_math : Option ℕ

-- A statement about every task in the slots 1 to NR_TASKS - 1.
abbrev pub EveryTask : (Task → Type 0) → Table → Type 0
EveryTask P tab = (i : ℕ) (t : Task) → 0 < i → i ≤ last_slot → tab i ≡ some t → P t

-- `current->... = ...`
abbrev pub on_current : (Task → Task) → Kernel → Kernel
on_current f k = record k { task = update k.task k.current (on_task f (k.task k.current)) }
