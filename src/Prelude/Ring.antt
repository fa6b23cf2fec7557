-- ===== src/Prelude/Ring.antt =====
-- A ring: an array of which `n` cells from `t` on are in use, `step` going from each to the next.
use Prim.Native.Nat.{ℕ, zero, suc, ◌<◌}
use mathlib.Core.Path.{◌≡◌, refl, sym, ap, ◌∙◌}
use mathlib.Core.Logic.{◌≢◌}
use mathlib.Core.List.{List, [], ◌∷◌, ◌++◌}
use mathlib.Core.Path.{ap₂}
use native.Mathlib.Omega.{arith}
use linux.Prelude.Lists.{length}
use linux.Prelude.Tables.{update, update_ne}

-- The contents, in order.
abbrev pub ring : (step : ℕ → ℕ) → (page : ℕ → ℕ) → (t : ℕ) → (n : ℕ) → List ℕ
ring step page t zero = []
ring step page t (suc n) = page t ∷ ring step page (step t) n

pub length-ring : (step page : ℕ → ℕ) (t n : ℕ) → length (ring step page t n) ≡ n
length-ring step page t zero = refl
length-ring step page t (suc n) = ap suc (length-ring step page (step t) n)

-- `nth t n` is `n` steps from `t`.
pub record IsRing (size : ℕ) (step : ℕ → ℕ) (nth : ℕ → ℕ → ℕ) : Type 0 where
  pub step_in : (t : ℕ) → t < size → step t < size
  pub nth_zero : (t : ℕ) → t < size → nth t 0 ≡ t
  pub nth_suc : (t n : ℕ) → t < size → nth t (suc n) ≡ nth (step t) n

module _ (size : ℕ) (step : ℕ → ℕ) (nth : ℕ → ℕ → ℕ) (r : IsRing size step nth) where
  pub ring-snoc :
      (page : ℕ → ℕ) (t n : ℕ)
      → t < size
      → ring step page t (suc n) ≡ ring step page t n ++ page (nth t n) ∷ []
  ring-snoc page t zero h = ap (λ (i : ℕ). page i ∷ []) (sym (r.nth_zero t h))
  ring-snoc page t (suc n) h = ap (◌∷◌ (page t)) (
      ring-snoc page (step t) n (r.step_in t h)
      ∙ ap (λ (i : ℕ). ring step page (step t) n ++ page i ∷ []) (sym (r.nth_suc t n h)))

  -- A cell written behind the contents is not in them.
  pub ring-update :
      (page : ℕ → ℕ) (b t n i : ℕ)
      → t < size
      → ((k : ℕ) → k < n → i ≢ nth t k)
      → ring step (update page i b) t n ≡ ring step page t n
  ring-update page b t zero i h apart = refl
  ring-update page b t (suc n) i h apart =
      ap₂ ◌∷◌
        (update_ne page b {i = i} {j = t} (λ e. apart 0 (omega arith) (e ∙ sym (r.nth_zero t h))))
        (ring-update page b (step t) n i (r.step_in t h)
          (λ k l e. apart (suc k) (omega arith) (e ∙ sym (r.nth_suc t k h))))
