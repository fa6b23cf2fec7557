-- ===== src/Kernel/Fork/Fresh.antt =====
-- The number and the slot that `find_empty_process` finds.
use linux.Prelude.{
  ℕ, zero, suc, ltb, ◌-◌, ◌+◌, ◌≤◌, ◌<◌, ◌^◌, ◌≡◌, ◌≢◌, ◌⊎◌, inl, inr, refl, sym, ap, ◌∙◌, arith,
  true, false, Option, none, some, leb, if◌then◌else◌, ℕ_discrete, find_first, find_first-some,
  find_first-none, Ret, ret, fail, eagain,
}
use mathlib.Core.Path.{subst}
use linux.Kernel.Task.{Task, Table, nr_tasks, last_slot}
use linux.Kernel.Sys.{has_pid}
use linux.Kernel.Fork.{next_pid, is_free, fresh_pid, free_slot, find_empty_process}

-- The number that `n` further tries give: they go from 2 ^ 31 - 1 on to 1.
abbrev pub nth_after : (last n : ℕ) → ℕ
nth_after last n = if ltb (last + n) (2 ^ 31) then last + n else last + n + 1 - 2 ^ 31

-- How many tries a number is behind `last`.
abbrev rank : (last p : ℕ) → ℕ
rank last p = if ltb last p then p - last else p + 2 ^ 31 - 1 - last

-- 1 if the slot holds a task whose number comes at try `n` or later.
abbrev at_least : (last n : ℕ) → Option Task → ℕ
at_least last n none = 0
at_least last n (some t) = if leb n (rank last t.pid) then 1 else 0

-- How many of the first `m` slots do.
count_from : (last n m : ℕ) → Table → ℕ
count_from last n zero tab = 0
count_from last n (suc m) tab = count_from last n m tab + at_least last n (tab m)

at_least-suc : (last n : ℕ) (o : Option Task) → at_least last (suc n) o ≤ at_least last n o
at_least-suc last n none = omega arith
at_least-suc last n (some t) = ground arith

at_least_hit :
    (last n : ℕ) (o : Option Task)
    → last < 2 ^ 31
    → 0 < n
    → n ≤ 65
    → has_pid (nth_after last n) o ≡ true
    → at_least last (suc n) o + 1 ≤ at_least last n o
at_least_hit last n none l p q h = absurd (cc)
at_least_hit last n (some t) l p q h = ground arith

at_least-le : (last n : ℕ) (o : Option Task) → at_least last n o ≤ 1
at_least-le last n none = omega arith
at_least-le last n (some t) = ground arith

count_from-suc :
    (last n m : ℕ) (tab : Table) → count_from last (suc n) m tab ≤ count_from last n m tab
unfolding count_from
count_from-suc last n zero tab = omega arith
count_from-suc last n (suc m) tab =
    omega (arith, count_from-suc last n m tab, at_least-suc last n (tab m))

-- A number in use leaves fewer slots with a later one.
count_from_hit :
    (last n m j : ℕ) (tab : Table)
    → last < 2 ^ 31
    → 0 < n
    → n ≤ 65
    → j < m
    → has_pid (nth_after last n) (tab j) ≡ true
    → count_from last (suc n) m tab + 1 ≤ count_from last n m tab
unfolding count_from
count_from_hit last n zero j tab w p q l h = absurd (omega arith)
count_from_hit last n (suc m) j tab w p q l h = elim (ℕ_discrete j m) [
  | yes e ↦ omega (
    arith,
    count_from-suc last n m tab,
    at_least_hit last n (tab m) w p q
        (ap (λ (i : ℕ). has_pid (nth_after last n) (tab i)) (sym e) ∙ h),
  )
  | no ne ↦
      omega
        (arith, count_from_hit last n m j tab w p q (omega arith) h, at_least-suc last n (tab m))
]

count_from-le : (last n m : ℕ) (tab : Table) → count_from last n m tab ≤ m
unfolding count_from
count_from-le last n zero tab = omega arith
count_from-le last n (suc m) tab =
    omega (arith, count_from-le last n m tab, at_least-le last n (tab m))

next_pid-nth :
    (last n : ℕ) → last < 2 ^ 31 → n < 65 → next_pid (nth_after last n) ≡ nth_after last (suc n)
unfolding next_pid
next_pid-nth last n w l = ground arith

-- No task of the table has the number.
abbrev pub IsFresh : Table → ℕ → Type 0
IsFresh tab p = (i : ℕ) → i < nr_tasks → has_pid p (tab i) ≡ false

-- Task `i` has the number of try `n`.
abbrev pub IsTaken : Table → ℕ → ℕ → Type 0
IsTaken tab last n = (i : ℕ) × (i < nr_tasks) × (has_pid (nth_after last n) (tab i) ≡ true)

fresh_pid_total :
    (fuel k : ℕ) (tab : Table) (last : ℕ)
    → last < 2 ^ 31
    → k + fuel ≤ 65
    → count_from last (suc k) nr_tasks tab < fuel
    → (n : ℕ) × (fresh_pid fuel tab (nth_after last k) ≡ some (nth_after last n))
      × IsFresh tab (nth_after last n)
      × (k < n)
      × (n ≤ k + fuel)
      × ((m : ℕ) → k < m → m < n → IsTaken tab last m)
unfolding fresh_pid
fresh_pid_total zero k tab last w h c = absurd (omega arith)
fresh_pid_total (suc fuel) k tab last w h c =
    go (fresh_pid_total fuel (suc k) tab last w (omega arith))
      (find_first (λ i. has_pid p (tab i)) nr_tasks 0) refl
  where
    p : ℕ
    p = next_pid (nth_after last k)

    p_eq : p ≡ nth_after last (suc k)
    p_eq = next_pid-nth last k w (omega arith)

    go :
        (count_from last (suc (suc k)) nr_tasks tab < fuel
          → (n : ℕ) × (fresh_pid fuel tab (nth_after last (suc k)) ≡ some (nth_after last n))
            × IsFresh tab (nth_after last n)
            × (suc k < n)
            × (n ≤ suc k + fuel)
            × ((m : ℕ) → suc k < m → m < n → IsTaken tab last m))
        → (o : Option ℕ) → find_first (λ i. has_pid p (tab i)) nr_tasks 0 ≡ o
        → (n : ℕ) × ((let rest = fresh_pid fuel tab p in
              elim o as (λ _. Option ℕ) [ none ↦ some p | some i ↦ rest ])
            ≡ some (nth_after last n))
          × IsFresh tab (nth_after last n)
          × (k < n)
          × (n ≤ k + suc fuel)
          × ((m : ℕ) → k < m → m < n → IsTaken tab last m)
    go ih none e = (
      suc k,
      ap (λ (q : ℕ). some q) p_eq,
      subst (IsFresh tab) p_eq
          (λ i l. find_first-none (λ j. has_pid p (tab j)) nr_tasks 0 e i (omega arith) l),
      omega arith,
      omega arith,
      λ m a b. absurd (between m a b),
    )
      where
        between : (m : ℕ) → k < m → m < suc k → ⊥
        between m a b = omega arith
    go ih (some j) e =
        let (a, b, hit, d) = find_first-some (λ i. has_pid p (tab i)) nr_tasks 0 j e in
        let here : has_pid (nth_after last (suc k)) (tab j) ≡ true =
          ap (λ (q : ℕ). has_pid q (tab j)) (sym p_eq) ∙ hit in
        let (n, found, fresh, lo, hi, first) = ih (
          omega (
            arith,
            c,
            count_from_hit last (suc k) nr_tasks j tab w (omega arith) (omega arith) b here,
          )) in
        (
          n,
          ap (fresh_pid fuel tab) p_eq ∙ found,
          fresh,
          omega arith,
          omega arith,
          λ m l r. elim (ℕ_discrete m (suc k)) [
            | yes q ↦ (j, b, ap (λ (x : ℕ). has_pid (nth_after last x) (tab j)) q ∙ here)
            | no ne ↦ first m (omega arith) r
          ],
        )

free_slot_lem :
    (tab : Table)
    → ((i : ℕ) × (free_slot tab ≡ ret i) × (0 < i) × (i ≤ last_slot) × (tab i ≡ none))
      ⊎ ((free_slot tab ≡ fail eagain) × ((i : ℕ) → 0 < i → i ≤ last_slot → tab i ≢ none))
unfolding free_slot
free_slot_lem tab = go (find_first (λ i. is_free (tab i)) last_slot 1) refl
  where
    empty : (o : Option Task) → is_free o ≡ true → o ≡ none
    empty none h = refl
    empty (some t) h = cc

    go :
        (o : Option ℕ)
        → find_first (λ i. is_free (tab i)) last_slot 1 ≡ o
        → ((i : ℕ) × (elim o as (λ _. Ret) [ none ↦ fail eagain | some j ↦ ret j ] ≡ ret i)
            × (0 < i)
            × (i ≤ last_slot)
            × (tab i ≡ none))
          ⊎ ((elim o as (λ _. Ret) [ none ↦ fail eagain | some j ↦ ret j ] ≡ fail eagain)
              × ((i : ℕ) → 0 < i → i ≤ last_slot → tab i ≢ none))
    go none e = inr (
      refl,
      λ i p l at.
          cc
            (find_first-none (λ j. is_free (tab j)) last_slot 1 e i p (omega arith), ap is_free at),
    )
    go (some j) e =
        let (a, b, hit, d) = find_first-some (λ i. is_free (tab i)) last_slot 1 j e in
        inl (j, refl, a, omega arith, empty (tab j) hit)

-- With 65 rounds `find_empty_process` always ends, for a `last_pid` below 2 ^ 31. It sets
-- `last_pid` to the first of the numbers after it, 1 following on 2 ^ 31 - 1, that no task has, at
-- most 65 further, and returns an empty slot from 1 to NR_TASKS - 1, or -EAGAIN if none of these is
-- empty.
pub find_empty_process_total :
    (tab : Table) (last : ℕ)
    → last < 2 ^ 31
    → (n : ℕ) × (r : Ret) × (find_empty_process 65 tab last ≡ some (nth_after last n, r))
      × IsFresh tab (nth_after last n)
      × (0 < n)
      × (n ≤ 65)
      × ((m : ℕ) → 0 < m → m < n → IsTaken tab last m)
      × (((i : ℕ) × (r ≡ ret i) × (0 < i) × (i ≤ last_slot) × (tab i ≡ none))
          ⊎ ((r ≡ fail eagain) × ((i : ℕ) → 0 < i → i ≤ last_slot → tab i ≢ none)))
unfolding find_empty_process
find_empty_process_total tab last w =
    let (n, e, fresh, lo, hi, first) = fresh_pid_total 65 0 tab last w (omega arith) few in
    (
      n,
      free_slot tab,
      rw (ap (fresh_pid 65 tab) (sym (at_start last w)) ∙ e, find_empty_process) refl,
      fresh,
      lo,
      hi,
      first,
      free_slot_lem tab,
    )
  where
    few : count_from last 1 nr_tasks tab < 65
    few = omega (arith, count_from-le last 1 nr_tasks tab)

    at_start : (last : ℕ) → last < 2 ^ 31 → nth_after last 0 ≡ last
    at_start last w = ground arith
