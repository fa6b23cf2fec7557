-- ===== src/Fs/Truncate/Freer.antt =====
-- fs/truncate.c: the loop over block numbers.
use linux.Prelude.{
  ℕ, zero, suc, ◌≡◌, ◌≢◌, refl, sym, ap, ◌∙◌, arith, inl, inr, Bool, true, false, ◌||◌, ◌==◌,
  if◌then◌else◌, List, [], ◌∷◌, ◌++◌, Bool-cases, Result, ok,
}
use mathlib.Core.Path.{ap₂, subst}
use linux.Fs.Volume.{Volume, free_block}
use linux.Fs.Volume.Zones.{IsVolume}
use linux.Fs.Volume.Free.{free_block_lem}
use linux.Fs.Truncate.{free_each}
use linux.Fs.Truncate.Owned.{
  member, member-append, distinct_apart, IsOwned, Frees, no-Frees, then-Frees, freed-Frees,
  left-IsOwned, right-IsOwned,
}

-- The blocks that `n` numbers name, from number `i` on, where one names the sequence `named`.
abbrev pub gather : (named : Volume → ℕ → List ℕ) → (n i : ℕ) → (ℕ → ℕ) → Volume → List ℕ
gather named zero i shorts v = []
gather named (suc n) i shorts v =
    (if shorts i == 0 then [] else named v (shorts i)) ++ gather named n (suc i) shorts v

abbrev pub single : Volume → ℕ → List ℕ
single v block = block ∷ []

-- A routine that frees the sequence a number names, which depends on the contents of those blocks
-- only.
pub record IsFreer (free : ℕ → Volume → Result Volume) (named : Volume → ℕ → List ℕ) : Type 0 where
  pub frees :
      (b : ℕ) (v : Volume)
      → b ≢ 0
      → IsVolume v
      → IsOwned v (named v b)
      → (v' : Volume) × (free b v ≡ ok v') × Frees (named v b) v v'
  pub stable :
      (b : ℕ) (v v' : Volume)
      → b ≢ 0
      → ((c : ℕ) → member c (named v b) ≡ true → v'.shorts c ≡ v.shorts c)
      → named v' b ≡ named v b

nonzero : (m : ℕ) → (m == 0) ≡ false → m ≢ 0
nonzero m e = ground arith

pub or_left : (p q : Bool) → p ≡ true → (p || q) ≡ true
or_left p q e = ground arith

pub or_right : (p q : Bool) → q ≡ true → (p || q) ≡ true
or_right p q e = ground arith

pub free_block-IsFreer : IsFreer free_block single
free_block-IsFreer = record {
  frees = λ b v d w o.
      let (z, u, n) = o.held b (itself b) in
      let (v', e, f) = free_block_lem v w b z u n in (v', e, freed-Frees b v v' f);
  stable = λ b v v' d s. refl;
}
  where
    itself : (b : ℕ) → (b == b || false) ≡ true
    itself b = ground arith

module _ (free : ℕ → Volume → Result Volume) (named : Volume → ℕ → List ℕ)
    (r : IsFreer free named) where
  pub gather-stable :
      (n i : ℕ) (shorts : ℕ → ℕ) (v v' : Volume)
      → ((c : ℕ) → member c (gather named n i shorts v) ≡ true → v'.shorts c ≡ v.shorts c)
      → gather named n i shorts v' ≡ gather named n i shorts v
  gather-stable zero i shorts v v' s = refl
  gather-stable (suc n) i shorts v v' s = elim (Bool-cases (shorts i == 0)) [
    | inl missing ↦ rw missing (
        gather-stable n (suc i) shorts v v' (λ c m. s c (
          ap
            (λ (t : Bool).
              member c ((if t then [] else named v (shorts i)) ++ gather named n (suc i) shorts v))
            missing
          ∙ m)))
    | inr there ↦ rw there (
        ap₂ (λ (xs ys : List ℕ). xs ++ ys)
          (r.stable (shorts i) v v' (nonzero (shorts i) there) (λ c m. here there c (
            or_left (member c (named v (shorts i))) (member c (gather named n (suc i) shorts v))
              m)))
          (gather-stable n (suc i) shorts v v' (λ c m. here there c (
            or_right (member c (named v (shorts i))) (member c (gather named n (suc i) shorts v))
              m))))
  ]
    where
      here :
          (shorts i == 0) ≡ false
          → (c : ℕ)
          → (member c (named v (shorts i)) || member c (gather named n (suc i) shorts v)) ≡ true
          → v'.shorts c ≡ v.shorts c
      here there c m = s c (
          ap
            (λ (t : Bool).
              member c ((if t then [] else named v (shorts i)) ++ gather named n (suc i) shorts v))
            there
          ∙ member-append c (named v (shorts i)) (gather named n (suc i) shorts v)
          ∙ m)

  goes_on :
      (n i : ℕ) (shorts : ℕ → ℕ) (v v₁ v₂ : Volume)
      → (shorts i == 0) ≡ false
      → free (shorts i) v ≡ ok v₁
      → free_each n (suc i) free shorts v₁ ≡ ok v₂
      → free_each (suc n) i free shorts v ≡ ok v₂
  unfolding free_each
  goes_on n i shorts v v₁ v₂ there e e₂ = rw (there, e, free_each) e₂

  first_freed :
      (n i : ℕ) (shorts : ℕ → ℕ) (v v' : Volume)
      → (shorts i == 0) ≡ false
      → Frees (named v (shorts i) ++ gather named n (suc i) shorts v) v v'
      → Frees (gather named (suc n) i shorts v) v v'
  first_freed n i shorts v v' there d = rw there d

  -- The loop.
  pub free_each-Frees :
      (n i : ℕ) (shorts : ℕ → ℕ) (v : Volume)
      → IsVolume v
      → IsOwned v (gather named n i shorts v)
      → (v' : Volume) × (free_each n i free shorts v ≡ ok v')
        × Frees (gather named n i shorts v) v v'
  unfolding free_each
  free_each-Frees zero i shorts v w o = (v, refl, no-Frees v w)
  free_each-Frees (suc n) i shorts v w o = elim (Bool-cases (shorts i == 0)) [
    | inl missing ↦
        let o' : IsOwned v (gather named n (suc i) shorts v) =
          subst
            (λ (t : Bool).
              IsOwned v ((if t then [] else named v (shorts i)) ++ gather named n (suc i) shorts v))
            missing o in
        let (v', e, d) = free_each-Frees n (suc i) shorts v w o' in
        (v', rw (missing, free_each) e, rw missing d)
    | inr there ↦
        let o' : IsOwned v (named v (shorts i) ++ gather named n (suc i) shorts v) =
          subst
            (λ (t : Bool).
              IsOwned v ((if t then [] else named v (shorts i)) ++ gather named n (suc i) shorts v))
            there o in
        let (v₁, e, d) =
          r.frees (shorts i) v (nonzero (shorts i) there) w
            (left-IsOwned (named v (shorts i)) (gather named n (suc i) shorts v) o') in
        let kept : gather named n (suc i) shorts v₁ ≡ gather named n (suc i) shorts v =
          gather-stable n (suc i) shorts v v₁ (λ c m.
            d.shorts_kept c (
              distinct_apart (named v (shorts i)) (gather named n (suc i) shorts v) o'.apart c
                m)) in
        let (v₂, e₂, d₂) = free_each-Frees n (suc i) shorts v₁ d.valid (
          subst (IsOwned v₁) (sym kept)
            (right-IsOwned (named v (shorts i)) (gather named n (suc i) shorts v) o' d)) in
        (
          v₂,
          goes_on n i shorts v v₁ v₂ there e e₂,
          first_freed n i shorts v v₂ there (
              then-Frees (named v (shorts i)) (gather named n (suc i) shorts v) d
                (subst (λ (bs : List ℕ). Frees bs v₁ v₂) kept d₂)),
        )
  ]
