-- ===== src/Kernel/Wait/Children.antt =====
-- Which child `waitpid` answers with.
use linux.Prelude.{
  ℕ, zero, suc, ◌+◌, ◌-◌, ◌^◌, ◌≤◌, ◌<◌, ◌≡◌, ◌≢◌, ap, ◌∙◌, ◌⊎◌, inl, inr, refl, arith, Bool, true,
  false, Bool-cases, Option, none, some, ◌&&◌, ◌||◌, if◌then◌else◌, ℕ_discrete, add32,
}
use linux.Kernel.Task.{Task, Table, last_slot, zombie}
use linux.Kernel.Wait.{
  is_child, is_wanted, is_dead, Pass, found, flag, wait_pass, Answer, reaped, nothing_yet, no_child,
  pauses, reap, answer, waitpid_pass, take_times,
}

module _ (pid here : ℕ) (me : Task) (tab : Table) where
  abbrev pub child_at : ℕ → Bool
  child_at i = is_child pid here me i (tab i)

  -- What a pass over the slots n to 1 says, that began with `fl` in `flag`.
  abbrev pub Says : ℕ → Bool → Pass → Type 0
  Says n fl (found i) =
      (0 < i)
      × (i ≤ n)
      × (child_at i ≡ true)
      × (is_dead (tab i) ≡ true)
      × ((j : ℕ) → i < j → j ≤ n → child_at j ≡ true → is_dead (tab j) ≡ false)
  Says n fl (flag b) =
      ((j : ℕ) → 0 < j → j ≤ n → child_at j ≡ true → is_dead (tab j) ≡ false)
      × ((b ≡ false) → (fl ≡ false) × ((j : ℕ) → 0 < j → j ≤ n → child_at j ≡ false))
      × ((b ≡ true) → (fl ≡ true) ⊎ ((j : ℕ) × (0 < j) × (j ≤ n) × (child_at j ≡ true)))

  grows :
      (n : ℕ) (fl : Bool) (r : Pass)
      → (child_at (suc n) && is_dead (tab (suc n))) ≡ false
      → Says n (fl || child_at (suc n)) r
      → Says (suc n) fl r
  grows n fl (found i) none_dead (p, l, c, d, first) = (p, omega arith, c, d, above)
    where
      above : (j : ℕ) → i < j → j ≤ suc n → child_at j ≡ true → is_dead (tab j) ≡ false
      above j a b e = elim (ℕ_discrete j (suc n)) [
        | yes q ↦ ground arith
        | no ne ↦ first j a (omega arith) e
      ]
  grows n fl (flag b) none_dead (quiet, off, on) = (quiet', off', on')
    where
      quiet' : (j : ℕ) → 0 < j → j ≤ suc n → child_at j ≡ true → is_dead (tab j) ≡ false
      quiet' j a l e = elim (ℕ_discrete j (suc n)) [
        | yes q ↦ ground arith
        | no ne ↦ quiet j a (omega arith) e
      ]

      off' : (b ≡ false) → (fl ≡ false) × ((j : ℕ) → 0 < j → j ≤ suc n → child_at j ≡ false)
      off' e = (ground (arith, off e), each)
        where
          each : (j : ℕ) → 0 < j → j ≤ suc n → child_at j ≡ false
          each j a l = elim (ℕ_discrete j (suc n)) [
            | yes q ↦ rw q (ground (arith, off e))
            | no ne ↦ (off e).1 j a (omega arith)
          ]

      on' : (b ≡ true) → (fl ≡ true) ⊎ ((j : ℕ) × (0 < j) × (j ≤ suc n) × (child_at j ≡ true))
      on' e = go (on e)
        where
          go :
              ((fl || child_at (suc n)) ≡ true)
                ⊎ ((j : ℕ) × (0 < j) × (j ≤ n) × (child_at j ≡ true))
              → (fl ≡ true) ⊎ ((j : ℕ) × (0 < j) × (j ≤ suc n) × (child_at j ≡ true))
          go (inr (j, a, l, c)) = inr (j, a, omega arith, c)
          go (inl t) = elim (Bool-cases fl) [
            | inl y ↦ inl y
            | inr n' ↦ inr (suc n, omega arith, omega arith, ground arith)
          ]

  wait_pass-Says : (n : ℕ) (fl : Bool) → Says n fl (wait_pass pid here me n fl tab)
  unfolding wait_pass
  wait_pass-Says zero fl =
      ((λ j a l. absurd (omega arith)), (λ e. (e, λ j a l. absurd (omega arith))), λ e. inl e)
  wait_pass-Says (suc n) fl = elim (Bool-cases (child_at (suc n) && is_dead (tab (suc n)))) [
    | inl y ↦
        rw y (omega arith, omega arith, ground arith, ground arith, λ j a l. absurd (omega arith))
    | inr none_dead ↦ rw none_dead (
        grows n fl (wait_pass pid here me n (fl || child_at (suc n)) tab) none_dead
          (wait_pass-Says n (fl || child_at (suc n))))
  ]

-- A child of the caller that `pid` selects, in a slot that the loop visits.
abbrev pub IsWanted : ℕ → Task → Task → Type 0
IsWanted pid me p =
    (pid ≡ 2 ^ 32 - 1)
    ⊎ (p.pid ≡ pid)
    ⊎ ((pid ≡ 0) × (p.pgrp ≡ me.pgrp))
    ⊎ ((2 ^ 31 ≤ pid) × (p.pgrp + pid ≡ 2 ^ 32))

abbrev pub IsChildAt : ℕ → ℕ → Task → Table → ℕ → Type 0
IsChildAt pid here me tab i =
    (0 < i)
    × (i ≤ last_slot)
    × ((p : Task) × (tab i ≡ some p) × (i ≢ here) × (p.father ≡ me.pid) × IsWanted pid me p)

module _ (pid here : ℕ) (me : Task) (tab : Table) (word : pid < 2 ^ 32) where
  wanted :
      (i : ℕ) (p : Task)
      → is_child pid here me i (some p) ≡ true
      → (i ≢ here) × (p.father ≡ me.pid) × IsWanted pid me p
  unfolding is_child is_wanted
  wanted i p c = ground arith

  selected_by :
      (i : ℕ) (p : Task)
      → i ≢ here
      → p.father ≡ me.pid
      → IsWanted pid me p
      → is_child pid here me i (some p) ≡ true
  unfolding is_child is_wanted
  selected_by i p a b c = ground arith

  child_of_is_child :
      (i : ℕ)
      → 0 < i
      → i ≤ last_slot
      → is_child pid here me i (tab i) ≡ true
      → IsChildAt pid here me tab i
  unfolding is_child
  child_of_is_child i p l c = (p, l, go (tab i) refl c)
    where
      go :
          (o : Option Task)
          → tab i ≡ o
          → is_child pid here me i o ≡ true
          → (p : Task) × (tab i ≡ some p) × (i ≢ here) × (p.father ≡ me.pid) × IsWanted pid me p
      go none at c = absurd (cc)
      go (some p) at c = let (a, b, w) = wanted i p c in (p, at, a, b, w)

  is_child_of_child : (i : ℕ) → IsChildAt pid here me tab i → is_child pid here me i (tab i) ≡ true
  is_child_of_child i (p, l, (t, at, a, b, w)) =
      ap (is_child pid here me i) at ∙ selected_by i t a b w

-- What each answer of `waitpid` means.
abbrev pub Means : ℕ → Bool → ℕ → Task → Table → Task → Answer → Type 0
Means pid nohang here me tab me' (reaped i n code) =
    IsChildAt pid here me tab i
    × ((p : Task) × (tab i ≡ some p)
        × (p.state ≡ zombie)
        × (n ≡ p.pid)
        × (code ≡ p.exit_code)
        × (me' ≡ record me { cutime = add32 me.cutime p.utime; cstime = add32 me.cstime p.stime }))
Means pid nohang here me tab me' nothing_yet =
    (nohang ≡ true)
    × (me' ≡ me)
    × ((i : ℕ) × IsChildAt pid here me tab i)
    × ((i : ℕ) → IsChildAt pid here me tab i → is_dead (tab i) ≡ false)
Means pid nohang here me tab me' pauses =
    (nohang ≡ false)
    × (me' ≡ me)
    × ((i : ℕ) × IsChildAt pid here me tab i)
    × ((i : ℕ) → IsChildAt pid here me tab i → is_dead (tab i) ≡ false)
Means pid nohang here me tab me' no_child = (me' ≡ me) × ((i : ℕ) → ¬ (IsChildAt pid here me tab i))

module _ (pid : ℕ) (nohang : Bool) (here : ℕ) (me : Task) (tab : Table) (word : pid < 2 ^ 32) where
  reap-Means :
      (i : ℕ) (o : Option Task)
      → tab i ≡ o
      → IsChildAt pid here me tab i
      → is_dead o ≡ true
      → Means pid nohang here me tab (reap i me o).0 (reap i me o).1
  unfolding reap take_times
  reap-Means i none at c d = absurd (false_ne d)
    where
      false_ne : false ≡ true → ⊥
      false_ne q = cc
  reap-Means i (some p) at c d = (c, (p, at, ground arith, refl, refl, refl))

  answer-Means :
      (r : Pass)
      → Says pid here me tab last_slot false r
      → Means pid nohang here me tab (answer nohang me tab r).0 (answer nohang me tab r).1
  unfolding answer
  answer-Means (found i) (p, l, c, d, first) =
      reap-Means i (tab i) refl (child_of_is_child pid here me tab word i p l c) d
  answer-Means (flag false) (quiet, off, on) =
      (refl, λ i x. absurd (contra i x.0 x.1 (is_child_of_child pid here me tab word i x)))
    where
      contra : (i : ℕ) → 0 < i → i ≤ last_slot → is_child pid here me i (tab i) ≡ true → ⊥
      contra i p l c = cc ((off refl).1 i p l)
  answer-Means (flag true) (quiet, off, on) = by_option nohang refl (some_child (on refl))
    where
      some_child :
          (false ≡ true)
            ⊎ ((j : ℕ) × (0 < j) × (j ≤ last_slot) × (is_child pid here me j (tab j) ≡ true))
          → (i : ℕ) × IsChildAt pid here me tab i
      some_child (inl q) = absurd (cc)
      some_child (inr (j, a, l, c)) = (j, child_of_is_child pid here me tab word j a l c)

      by_option :
          (b : Bool)
          → nohang ≡ b
          → ((i : ℕ) × IsChildAt pid here me tab i)
          → Means pid nohang here me tab me (if b then nothing_yet else pauses)
      by_option true e child =
          (e, refl, child, λ i c. quiet i c.0 c.1 (is_child_of_child pid here me tab word i c))
      by_option false e child =
          (e, refl, child, λ i c. quiet i c.0 c.1 (is_child_of_child pid here me tab word i c))

-- For a word `pid`, one pass of `waitpid` answers as it should: with a zombie whose father is the
-- caller and that `pid` selects, its number and exit code, and its times added to the caller's;
-- with 0 under WNOHANG or by sleeping, if there are such children and none is a zombie; and with
-- -ECHILD exactly if there is none.
pub waitpid_pass_lem :
    (pid : ℕ) (nohang : Bool) (here : ℕ) (me : Task) (tab : Table)
    → pid < 2 ^ 32
    → Means pid nohang here me tab
        (waitpid_pass pid nohang here me tab).0
        (waitpid_pass pid nohang here me tab).1
unfolding waitpid_pass
waitpid_pass_lem pid nohang here me tab word =
    answer-Means pid nohang here me tab word (wait_pass pid here me last_slot false tab)
      (wait_pass-Says pid here me tab last_slot false)
