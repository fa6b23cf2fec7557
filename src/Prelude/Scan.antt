-- ===== src/Prelude/Scan.antt =====
-- `for (i = lo; i < hi; i++) if (test(i)) break;`: the search that the kernel makes in its tables.
use Prim.Native.Nat.{ℕ, zero, suc, ◌+◌, ◌≤◌, ◌<◌}
use mathlib.Core.Path.{◌≡◌}
use mathlib.Core.Logic.{inl, inr}
use mathlib.Core.Bool.{Bool, true, false}
use mathlib.Core.Option.{Option, none, some}
use native.Mathlib.Omega.{arith}
use native.Mathlib.Decide.{ℕ_discrete}
use linux.Prelude.Tests.{if◌then◌else◌, Bool-cases}

-- From slot `i` on, with `n` slots to look at; `none` if no slot passes.
unfoldable pub find_first : (ℕ → Bool) → ℕ → ℕ → Option ℕ
find_first test zero i = none
find_first test (suc n) i = let rest = find_first test n (suc i) in if test i then some i else rest

module _ (test : ℕ → Bool) where
  -- The slot found is in the range, passes, and is the first to pass.
  pub find_first-some :
      (n i j : ℕ)
      → find_first test n i ≡ some j
      → (i ≤ j) × (j < i + n) × (test j ≡ true) × ((k : ℕ) → i ≤ k → k < j → test k ≡ false)
  unfolding find_first
  find_first-some zero i j e = absurd (cc)
  find_first-some (suc n) i j e = elim (Bool-cases (test i)) [
    | inl y ↦ at_once y (rw y at e)
    | inr no_i ↦ later no_i (find_first-some n (suc i) j (rw no_i at e))
  ]
    where
      at_once :
          test i ≡ true
          → some i ≡ some j
          → (i ≤ j) × (j < i + suc n) × (test j ≡ true) × ((k : ℕ) → i ≤ k → k < j → test k ≡ false)
      at_once y q = (ground arith, ground arith, ground arith, λ k l h. absurd (ground arith))

      later :
          test i ≡ false
          → ((suc i ≤ j)
              × (j < suc i + n)
              × (test j ≡ true)
              × ((k : ℕ) → suc i ≤ k → k < j → test k ≡ false))
          → (i ≤ j) × (j < i + suc n) × (test j ≡ true) × ((k : ℕ) → i ≤ k → k < j → test k ≡ false)
      later no_i (a, b, c, d) = (omega arith, omega arith, c, before)
        where
          before : (k : ℕ) → i ≤ k → k < j → test k ≡ false
          before k l h = elim (ℕ_discrete i k) [
            | yes e' ↦ rw (← e') no_i
            | no ne ↦ d k (omega arith) h
          ]

  pub find_first-none :
      (n i : ℕ) → find_first test n i ≡ none → (j : ℕ) → i ≤ j → j < i + n → test j ≡ false
  unfolding find_first
  find_first-none zero i e j l h = absurd (omega arith)
  find_first-none (suc n) i e j l h = elim (Bool-cases (test i)) [
    | inl y ↦ absurd (found (rw y at e))
    | inr no_i ↦ elim (ℕ_discrete i j) [
      | yes e' ↦ rw (← e') no_i
      | no ne ↦ find_first-none n (suc i) (rw no_i at e) j (omega arith) (omega arith)
    ]
  ]
    where
      found : some i ≡ none → ⊥
      found q = cc
