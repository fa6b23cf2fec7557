-- ===== src/Kernel/Sched/Loops.antt =====
-- The loops of kernel/sched.c over the slots of `task[]`.
use linux.Prelude.{ℕ, zero, suc, ◌≤◌, ◌<◌, ◌≡◌, refl, ◌∙◌, ap, arith, update, update_ne, ℕ_discrete}
use linux.Kernel.Task.{Task, Table, on_task}
use linux.Kernel.Sched.{each_task}

-- A slot above the loop's first slot, and slot 0, are left alone.
pub each_task_outside :
    (f : Task → Task) (n : ℕ) (tab : Table) (i : ℕ) → (n < i) → each_task f n tab i ≡ tab i
unfolding each_task
each_task_outside f zero tab i h = refl
each_task_outside f (suc n) tab i h =
    each_task_outside f n (update tab (suc n) (on_task f (tab (suc n)))) i (omega arith)
    ∙ update_ne tab (on_task f (tab (suc n))) {i = suc n} {j = i} (omega arith)

pub each_task_first : (f : Task → Task) (n : ℕ) (tab : Table) → each_task f n tab 0 ≡ tab 0
unfolding each_task
each_task_first f zero tab = refl
each_task_first f (suc n) tab =
    each_task_first f n (update tab (suc n) (on_task f (tab (suc n))))
    ∙ update_ne tab (on_task f (tab (suc n))) {i = suc n} {j = 0} (omega arith)

-- Every slot from 1 to the loop's first slot is visited once.
pub each_task_inside :
    (f : Task → Task) (n : ℕ) (tab : Table) (i : ℕ)
    → 0 < i
    → i ≤ n
    → each_task f n tab i ≡ on_task f (tab i)
unfolding each_task
each_task_inside f zero tab i p h = absurd (omega arith)
each_task_inside f (suc n) tab i p h = elim (ℕ_discrete i (suc n)) [
  | yes e ↦
      each_task_outside f n (update tab (suc n) (on_task f (tab (suc n)))) i (omega arith)
      ∙ ground arith
  | no ne ↦
      each_task_inside f n (update tab (suc n) (on_task f (tab (suc n)))) i p (omega arith)
      ∙ ap (on_task f) (update_ne tab (on_task f (tab (suc n))) {i = suc n} {j = i} (omega arith))
]
