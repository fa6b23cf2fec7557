-- ===== src/Kernel/Sched/Pick.antt =====
-- The loop of `schedule` that looks for the runnable task with the most time left.
use linux.Prelude.{
  ℕ, zero, suc, ◌≤◌, ◌<◌, ◌≡◌, refl, ◌⊎◌, inl, inr, true, arith, none, some, Option, Bool-cases,
  ◌&&◌, slt, sym, ℕ_discrete, bias,
}
use mathlib.Core.Path.{subst}
use linux.Kernel.Task.{Task, Table, is_running}
use linux.Kernel.Sched.{Choice, consider, pick}

-- The choice only grows.
pub consider-le : (o : Option Task) (i : ℕ) (ch : Choice) → bias ch.c ≤ bias (consider o i ch).c
unfolding consider
consider-le none i ch = omega arith
consider-le (some t) i ch = ground arith

pub pick-le : (n : ℕ) (tab : Table) (ch : Choice) → bias ch.c ≤ bias (pick n tab ch).c
unfolding pick
pick-le zero tab ch = omega arith
pick-le (suc n) tab ch =
    omega (
      arith,
      consider-le (tab (suc n)) (suc n) ch,
      pick-le n tab (consider (tab (suc n)) (suc n) ch),
    )

consider-covers :
    (o : Option Task) (i : ℕ) (ch : Choice) (t : Task)
    → o ≡ some t
    → is_running t.state ≡ true
    → bias t.counter ≤ bias (consider o i ch).c
unfolding consider
consider-covers o i ch t e r = ground arith

-- No runnable task among those visited has more time left than the choice.
pub pick-covers :
    (n : ℕ) (tab : Table) (ch : Choice) (i : ℕ) (t : Task)
    → 0 < i
    → i ≤ n
    → tab i ≡ some t
    → is_running t.state ≡ true
    → bias t.counter ≤ bias (pick n tab ch).c
unfolding pick
pick-covers zero tab ch i t p h e r = absurd (omega arith)
pick-covers (suc n) tab ch i t p h e r = elim (ℕ_discrete i (suc n)) [
  | yes same ↦ ground (
    arith,
    consider-covers (tab (suc n)) (suc n) ch t,
    pick-le n tab (consider (tab (suc n)) (suc n) ch),
  )
  | no ne ↦ pick-covers n tab (consider (tab (suc n)) (suc n) ch) i t p (omega arith) e r
]

-- The choice is the initial one, or a runnable task that was visited.
abbrev pub IsFrom : ℕ → Table → Choice → Choice → Type 0
IsFrom n tab ch r =
    (r ≡ ch)
    ⊎ ((t : Task) × (tab r.next ≡ some t)
        × (is_running t.state ≡ true)
        × (t.counter ≡ r.c)
        × (0 < r.next)
        × (r.next ≤ n)
        × (bias ch.c < bias r.c))

consider-IsFrom :
    (tab : Table) (i : ℕ) (ch : Choice) (o : Option Task)
    → 0 < i
    → tab i ≡ o
    → IsFrom i tab ch (consider o i ch)
unfolding consider
consider-IsFrom tab i ch none p e = inl refl
consider-IsFrom tab i ch (some t) p e =
    elim (Bool-cases (is_running t.state && slt ch.c t.counter)) [
      | inl y ↦ rw y (inr (t, e, ground arith, refl, p, omega arith, ground arith))
      | inr n ↦ rw n (inl refl)
    ]

IsFrom-join :
    (n : ℕ) (tab : Table) (a b c : Choice)
    → IsFrom (suc n) tab a b
    → IsFrom n tab b c
    → IsFrom (suc n) tab a c
IsFrom-join n tab a b c h (inl e) = subst (IsFrom (suc n) tab a) (sym e) h
IsFrom-join n tab a b c (inl e) (inr (t, x, r, k, p, l, g)) =
    inr (t, x, r, k, p, omega arith, ground arith)
IsFrom-join n tab a b c (inr u) (inr (t, x, r, k, p, l, g)) =
    inr (t, x, r, k, p, omega arith, omega arith)

pub pick-IsFrom : (n : ℕ) (tab : Table) (ch : Choice) → IsFrom n tab ch (pick n tab ch)
unfolding pick
pick-IsFrom zero tab ch = inl refl
pick-IsFrom (suc n) tab ch =
    let ch' = consider (tab (suc n)) (suc n) ch in
    IsFrom-join n tab ch ch' (pick n tab ch')
      (consider-IsFrom tab (suc n) ch (tab (suc n)) (omega arith) refl) (pick-IsFrom n tab ch')
