-- ===== src/Kernel/Fork.antt =====
-- kernel/fork.c: the search for a free number and a free slot.
pub mod Fresh
use linux.Prelude.{
  ℕ, zero, suc, ◌+◌, ◌^◌, Bool, true, false, Option, none, some, ◌==◌, if◌then◌else◌, ltb, add32,
  find_first, Ret, ret, fail, eagain,
}
use linux.Kernel.Task.{Task, Table, nr_tasks, last_slot}
use linux.Kernel.Sys.{has_pid}

-- `if ((++last_pid) < 0) last_pid = 1`
pub next_pid : ℕ → ℕ
next_pid last = if ltb (add32 last 1) (2 ^ 31) then add32 last 1 else 1

pub is_free : Option Task → Bool
is_free none = true
is_free (some t) = false

-- `repeat:`, with fuel: the new `last_pid`.
pub fresh_pid : ℕ → Table → ℕ → Option ℕ
fresh_pid zero tab last = none
fresh_pid (suc fuel) tab last =
    let rest = fresh_pid fuel tab (next_pid last) in
    elim (find_first (λ i. has_pid (next_pid last) (tab i)) nr_tasks 0) [
      | none ↦ some (next_pid last)
      | some i ↦ rest
    ]

pub free_slot : Table → Ret
unfolding is_free
free_slot tab = elim (find_first (λ i. is_free (tab i)) last_slot 1) [
  | none ↦ fail eagain
  | some i ↦ ret i
]

-- The new `last_pid`, and the slot. `none`: the fuel ran out.
pub find_empty_process : ℕ → Table → ℕ → Option (ℕ × Ret)
find_empty_process fuel tab last = elim (fresh_pid fuel tab last) [
  | none ↦ none
  | some p ↦ some (p, free_slot tab)
]
