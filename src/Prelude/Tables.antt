-- ===== src/Prelude/Tables.antt =====
-- A C array as a function of the index; the model bounds the indices where the source does.
use Prim.Native.Nat.{ℕ}
use mathlib.Core.Path.{◌≡◌}
use mathlib.Core.Logic.{◌≢◌}
use native.Mathlib.Omega.{arith}
use linux.Prelude.Tests.{◌==◌, if◌then◌else◌}

-- `f[i] = a`
abbrev pub update {ℓ} : {A : Type ℓ} → (ℕ → A) → ℕ → A → ℕ → A
update f i a j = if i == j then a else f j

module _ {ℓ} {A : Type ℓ} (f : ℕ → A) (a : A) where
  pub update_self : (i : ℕ) → update f i a i ≡ a
  update_self i = ground arith

  pub update_ne : {i j : ℕ} → i ≢ j → update f i a j ≡ f j
  update_ne h = ground arith
