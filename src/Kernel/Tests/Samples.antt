-- ===== src/Kernel/Tests/Samples.antt =====
-- Tasks and tables for the tests.
use linux.Prelude.{arith, none, some, ◌==◌, if◌then◌else◌, minus}
use linux.Kernel.Task.{Task, running, interruptible, zombie, Table, Kernel, EveryTask}
use linux.Kernel.Sched.Schedule.{IsTimed}

-- INIT_TASK of include/linux/sched.h.
abbrev pub init_task : Task
init_task = record {
  state = running;
  counter = 15;
  priority = 15;
  signal = 0;
  sig_restorer = 0;
  sig_fn = λ _. 0;
  exit_code = 0;
  end_code = 0;
  brk = 0;
  start_stack = 0;
  pid = 0;
  father = minus 1;
  pgrp = 0;
  session = 0;
  leader = 0;
  uid = 0;
  euid = 0;
  suid = 0;
  gid = 0;
  egid = 0;
  sgid = 0;
  alarm = 0;
  utime = 0;
  stime = 0;
  cutime = 0;
  cstime = 0;
  start_time = 0;
  used_math = 0;
  tty = minus 1;
  umask = 91;
  close_on_exec = 0;
  filp = λ _. none;
  pwd = none;
  root = none;
}

-- Runnable, with its slice used up.
abbrev pub worker : Task
worker = record init_task {
  pid = 1;
  counter = 0;
  uid = 5;
  euid = 5;
  suid = 5;
  gid = 7;
  sgid = 8;
  leader = 1;
  session = 1;
  pgrp = 1;
}

-- Asleep until its alarm at tick 90; a child of the worker.
abbrev pub waiter : Task
waiter = record init_task {
  state = interruptible;
  pid = 2;
  father = 1;
  alarm = 90;
  uid = 5;
  euid = 6;
  session = 1;
  pgrp = 1;
}

-- A dead child of the worker.
abbrev pub dead : Task
dead = record init_task {
  state = zombie;
  pid = 3;
  father = 1;
  exit_code = 256;
  utime = 40;
  stime = 2;
  session = 1;
  pgrp = 3;
}

abbrev pub table : Table
table i =
    if i == 0
    then some init_task
    else (if i == 1
        then some worker
        else (if i == 2 then some waiter else (if i == 5 then some dead else none)))

abbrev pub kernel : Kernel
kernel = record {
  jiffies = 100;
  startup_time = 0;
  current = 1;
  task = table;
  last_pid = 3;
  last_task_used_math = none;
}

pub table-IsTimed : EveryTask IsTimed table
table-IsTimed i t p l e = ground arith
