-- ===== src/Kernel/Tests/Calls.antt =====
-- The system calls on processes on samples.
use linux.Prelude.{
  ℕ, ◌+◌, ◌≤◌, ◌<◌, ◌≡◌, ◌≢◌, refl, ◌⊎◌, arith, none, some, false, minus, Ret, ret, fail, eagain,
}
use linux.Kernel.Task.{Task, last_slot}
use linux.Kernel.Sys.{sys_brk, sys_setpgid}
use linux.Kernel.Sys.Identity.{sys_brk_bounds}
use linux.Kernel.Sys.Groups.{IsOutcome, sys_setpgid_lem}
use linux.Kernel.Kill.{sys_kill}
use linux.Kernel.Kill.Targets.{IsReceiver, IsSignalled, sys_kill_lem}
use linux.Kernel.Wait.{waitpid_pass, reaped}
use linux.Kernel.Wait.Children.{Means, waitpid_pass_lem}
use linux.Kernel.Fork.{find_empty_process}
use linux.Kernel.Fork.Fresh.{nth_after, IsTaken, IsFresh, find_empty_process_total}
use linux.Kernel.Tests.Samples.{worker, table}

-- A process with 4 kB of code and its stack at 64 MB.
abbrev loaded : Task
loaded = record worker { end_code = 4096; brk = 8192; start_stack = 0x4000000 }

sys_brk_bounds_example :
    let (t', r) = sys_brk 65536 loaded in
    (r ≡ ret t'.brk)
    × (t'.end_code ≤ t'.brk)
    × (t'.brk + 16384 < t'.start_stack)
    × ((t'.brk ≡ 65536) ⊎ (t' ≡ loaded))
sys_brk_bounds_example = sys_brk_bounds 65536 loaded (omega arith) (omega arith) (omega arith)

sys_setpgid_lem_example : IsOutcome worker 2 2 table (sys_setpgid 2 0 worker table)
sys_setpgid_lem_example = sys_setpgid_lem 2 0 worker table

sys_kill_lem_example :
    ((sys_kill worker 2 15 table).0 0 ≡ table 0)
    × ((i : ℕ) (t : Task)
        → 0 < i
        → i ≤ last_slot
        → table i ≡ some t
        → (t' : Task) × ((sys_kill worker 2 15 table).0 i ≡ some t')
          × ((IsReceiver worker 2 15 t × IsSignalled 15 t t')
              ⊎ ((¬ (IsReceiver worker 2 15 t)) × (t' ≡ t))))
sys_kill_lem_example = sys_kill_lem worker 2 15 table (omega arith)

waitpid_finds : (waitpid_pass (minus 1) false 1 worker table).1 ≡ reaped 5 3 256
unfolding waitpid_pass
waitpid_finds = refl

waitpid_pass_lem_example :
    Means
      (minus 1)
      false
      1
      worker
      table
      (waitpid_pass (minus 1) false 1 worker table).0
      (waitpid_pass (minus 1) false 1 worker table).1
waitpid_pass_lem_example = waitpid_pass_lem (minus 1) false 1 worker table (omega arith)

find_empty_process_total_example :
    (n : ℕ) × (r : Ret) × (find_empty_process 65 table 0x7fffffff
      ≡ some (nth_after 0x7fffffff n, r))
    × IsFresh table (nth_after 0x7fffffff n)
    × (0 < n)
    × (n ≤ 65)
    × ((m : ℕ) → 0 < m → m < n → IsTaken table 0x7fffffff m)
    × (((i : ℕ) × (r ≡ ret i) × (0 < i) × (i ≤ last_slot) × (table i ≡ none))
        ⊎ ((r ≡ fail eagain) × ((i : ℕ) → 0 < i → i ≤ last_slot → table i ≢ none)))
find_empty_process_total_example = find_empty_process_total table 0x7fffffff (omega arith)
