-- ===== src/Kernel/Sys/Groups.antt =====
-- What `setpgid` does to the task table.
use linux.Prelude.{
  ℕ, ◌<◌, ◌≡◌, ◌≢◌, ◌⊎◌, inl, inr, refl, ap, sym, ◌∙◌, arith, true, false, Bool-cases, Option, none,
  some, update, Ret, ret, fail, esrch, eperm, not, ◌||◌, ◌==◌, find_first, find_first-some,
  find_first-none,
}
use linux.Kernel.Task.{Task, Table, nr_tasks}
use linux.Kernel.Sys.{sys_setpgid, join_slot, join_found, join_group, has_pid, default_to}

module _ (me : Task) (pgid : ℕ) (tab : Table) where
  -- One task has moved to group `pgid`: slot `i`, which the caller may move.
  abbrev pub IsMoved : ℕ → Table → Type 0
  IsMoved i tab' =
      (t : Task) × (tab i ≡ some t)
      × (t.leader ≡ 0)
      × (t.session ≡ me.session)
      × (tab' ≡ update tab i (some (record t { pgrp = pgid })))

  join_group_lem :
      (i : ℕ) (t : Task)
      → tab i ≡ some t
      → (IsMoved i (join_group me pgid i tab t).0 × ((join_group me pgid i tab t).1 ≡ ret 0))
        ⊎ (((t.leader ≢ 0) ⊎ (t.session ≢ me.session))
            × (join_group me pgid i tab t ≡ (tab, fail eperm)))
  unfolding join_group
  join_group_lem i t at = elim (Bool-cases (not (t.leader == 0) || not (t.session == me.session))) [
    | inl y ↦ inr (ground arith, ground arith)
    | inr n ↦ inl ((t, at, ground arith, ground arith, ground arith), ground arith)
  ]

-- No task has the number.
abbrev pub IsMissing : ℕ → Table → Table × Ret → Type 0
IsMissing p tab (tab', r) =
    ((j : ℕ) → j < nr_tasks → has_pid p (tab j) ≡ false) × (r ≡ fail esrch) × (tab' ≡ tab)

-- The first task with the number may not be moved.
abbrev pub IsRefused : Task → ℕ → Table → Table × Ret → Type 0
IsRefused me i tab (tab', r) =
    (t : Task) × (tab i ≡ some t)
    × ((t.leader ≢ 0) ⊎ (t.session ≢ me.session))
    × (r ≡ fail eperm)
    × (tab' ≡ tab)

abbrev pub IsFirst : ℕ → ℕ → Table → Type 0
IsFirst p i tab =
    (i < nr_tasks) × (has_pid p (tab i) ≡ true) × ((j : ℕ) → j < i → has_pid p (tab j) ≡ false)

abbrev pub IsOutcome : Task → ℕ → ℕ → Table → Table × Ret → Type 0
IsOutcome me p g tab out =
    IsMissing p tab out
    ⊎ ((i : ℕ) × IsFirst p i tab
        × ((IsMoved me g tab i out.0 × (out.1 ≡ ret 0)) ⊎ IsRefused me i tab out))

module _ (me : Task) (p g : ℕ) (tab : Table) where
  searched : Option ℕ
  searched = find_first (λ i. has_pid p (tab i)) nr_tasks 0

  joined :
      (i : ℕ) (o : Option Task)
      → IsFirst p i tab
      → tab i ≡ o
      → IsOutcome me p g tab (join_found me g i tab o)
  unfolding join_found
  joined i none f at = absurd (absent (sym f.1 ∙ ap (has_pid p) at))
    where
      absent : true ≡ false → ⊥
      absent q = cc
  joined i (some t) f at = inr (i, f, go (join_group_lem me g tab i t at))
    where
      go :
          (IsMoved me g tab i (join_group me g i tab t).0 × ((join_group me g i tab t).1 ≡ ret 0))
            ⊎ (((t.leader ≢ 0) ⊎ (t.session ≢ me.session))
                × (join_group me g i tab t ≡ (tab, fail eperm)))
          → (IsMoved me g tab i (join_group me g i tab t).0 × ((join_group me g i tab t).1 ≡ ret 0))
            ⊎ IsRefused me i tab (join_group me g i tab t)
      go (inl m) = inl m
      go (inr (why, e)) =
          inr (t, at, why, ap (λ (x : Table × Ret). x.1) e, ap (λ (x : Table × Ret). x.0) e)

  outcome : (o : Option ℕ) → searched ≡ o → IsOutcome me p g tab (join_slot me g tab o)
  unfolding join_slot searched
  outcome none e =
      inl
        (λ j h. find_first-none (λ i. has_pid p (tab i)) nr_tasks 0 e j (omega arith) h, refl, refl)
  outcome (some i) e =
      let (a, b, c, d) = find_first-some (λ j. has_pid p (tab j)) nr_tasks 0 i e in
      joined i (tab i) (b, c, λ j h. d j (omega arith) h) refl

-- `setpgid` looks for the first task with the number `pid` (0 is the caller's own). Without one it
-- returns -ESRCH; if that task leads a session or is of another session than the caller, it
-- returns -EPERM; in both cases the table is unchanged. Otherwise it returns 0 and has changed the
-- group of that task to `pgid` (0 is `pid`), and nothing else.
pub sys_setpgid_lem :
    (pid pgid : ℕ) (me : Task) (tab : Table)
    → IsOutcome me
        (default_to pid me.pid)
        (default_to pgid (default_to pid me.pid))
        tab
        (sys_setpgid pid pgid me tab)
unfolding sys_setpgid searched
sys_setpgid_lem pid pgid me tab =
    let p = default_to pid me.pid in
    outcome me p (default_to pgid p) tab (searched me p (default_to pgid p) tab) refl
