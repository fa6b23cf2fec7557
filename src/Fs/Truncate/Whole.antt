-- ===== src/Fs/Truncate/Whole.antt =====
-- fs/truncate.c: truncate as a whole.
use linux.Prelude.{
  ◌<◌, ℕ, ◌≡◌, ◌≢◌, refl, sym, ◌∙◌, arith, inl, inr, true, false, ◌||◌, ◌==◌, List, ◌++◌,
  Bool-cases, Result, ok,
}
use mathlib.Core.Path.{subst}
use linux.Fs.Volume.{Volume, free_block}
use linux.Fs.Volume.Zones.{IsVolume}
use linux.Fs.Inode.{Inode}
use linux.Fs.Truncate.{free_each, free_through, free_ind, free_dind, has_blocks, emptied, truncate}
use linux.Fs.Truncate.Owned.{
  member, member-append, distinct_apart, IsOwned, Frees, no-Frees, then-Frees, left-IsOwned,
  right-IsOwned,
}
use linux.Fs.Truncate.Freer.{
  gather, single, IsFreer, free_block-IsFreer, free_each-Frees, or_left, or_right,
}
use linux.Fs.Truncate.Through.{through, free_through-IsFreer}

-- The blocks of a file, its indirect blocks included, in the order in which they are freed.
abbrev pub single_blocks : Volume → ℕ → List ℕ
single_blocks = through single

abbrev pub double_blocks : Volume → ℕ → List ℕ
double_blocks = through single_blocks

abbrev pub blocks : Inode → Volume → List ℕ
blocks ino v =
    gather single 7 0 ino.zone v ++ (single_blocks v (ino.zone 7) ++ double_blocks v (ino.zone 8))

single-IsFreer : IsFreer free_ind single_blocks
single-IsFreer = free_through-IsFreer free_block single free_block-IsFreer

double-IsFreer : IsFreer free_dind double_blocks
double-IsFreer = free_through-IsFreer free_ind single_blocks single-IsFreer

-- Both routines do nothing with block 0.
module _ (free : ℕ → Volume → Result Volume) (named : Volume → ℕ → List ℕ)
    (r : IsFreer (free_through free) (through named)) where
  through-Frees :
      (b : ℕ) (v : Volume)
      → IsVolume v
      → IsOwned v (through named v b)
      → (v' : Volume) × (free_through free b v ≡ ok v') × Frees (through named v b) v v'
  unfolding free_through
  through-Frees b v w o = elim (Bool-cases (b == 0)) [
    | inl nought ↦ (v, rw (nought, free_through) refl, rw nought (no-Frees v w))
    | inr there ↦ r.frees b v (nonzero there) w o
  ]
    where
      nonzero : (b == 0) ≡ false → b ≢ 0
      nonzero e = ground arith

  through-stable :
      (b : ℕ) (v v' : Volume)
      → ((c : ℕ) → member c (through named v b) ≡ true → v'.shorts c ≡ v.shorts c)
      → through named v' b ≡ through named v b
  through-stable b v v' s = elim (Bool-cases (b == 0)) [
    | inl nought ↦ rw nought refl
    | inr there ↦ r.stable b v v' (nonzero there) s
  ]
    where
      nonzero : (b == 0) ≡ false → b ≢ 0
      nonzero e = ground arith

all_freed :
    (now : ℕ) (ino : Inode) (v v₁ v₂ v₃ : Volume)
    → has_blocks ino.mode ≡ true
    → free_each 7 0 free_block ino.zone v ≡ ok v₁
    → free_ind (ino.zone 7) v₁ ≡ ok v₂
    → free_dind (ino.zone 8) v₂ ≡ ok v₃
    → truncate now ino v ≡ ok (emptied now ino, v₃)
unfolding truncate
all_freed now ino v v₁ v₂ v₃ kind e₁ e₂ e₃ = rw (kind, e₁, e₂, e₃, truncate) refl

-- The run of `truncate`.
pub truncate-Frees :
    (now : ℕ) (ino : Inode) (v : Volume)
    → IsVolume v
    → has_blocks ino.mode ≡ true
    → IsOwned v (blocks ino v)
    → (v' : Volume) × (truncate now ino v ≡ ok (emptied now ino, v')) × Frees (blocks ino v) v v'
truncate-Frees now ino v w kind o =
    let (v₁, e₁, d₁) =
      free_each-Frees free_block single free_block-IsFreer 7 0 ino.zone v w
        (left-IsOwned xs (ys ++ zs) o) in
    let o₁ : IsOwned v₁ (ys ++ zs) = right-IsOwned xs (ys ++ zs) o d₁ in
    let apart₁ : (c : ℕ) → (member c ys || member c zs) ≡ true → v₁.shorts c ≡ v.shorts c = (λ c m.
      d₁.shorts_kept c (distinct_apart xs (ys ++ zs) o.apart c (member-append c ys zs ∙ m))) in
    let kept : single_blocks v₁ (ino.zone 7) ≡ ys =
      through-stable free_block single single-IsFreer (ino.zone 7) v v₁
        (λ c m. apart₁ c (or_left (member c ys) (member c zs) m)) in
    let (v₂, e₂, f₂) =
      through-Frees free_block single single-IsFreer (ino.zone 7) v₁ d₁.valid
        (subst (IsOwned v₁) (sym kept) (left-IsOwned ys zs o₁)) in
    let d₂ : Frees ys v₁ v₂ = subst (λ (bs : List ℕ). Frees bs v₁ v₂) kept f₂ in
    let kept₂ : double_blocks v₂ (ino.zone 8) ≡ zs =
      through-stable free_ind single_blocks double-IsFreer (ino.zone 8) v v₂ (λ c m.
        d₂.shorts_kept c (distinct_apart ys zs o₁.apart c m)
        ∙ apart₁ c (or_right (member c ys) (member c zs) m)) in
    let (v₃, e₃, f₃) =
      through-Frees free_ind single_blocks double-IsFreer (ino.zone 8) v₂ d₂.valid
        (subst (IsOwned v₂) (sym kept₂) (right-IsOwned ys zs o₁ d₂)) in
    let d₃ : Frees zs v₂ v₃ = subst (λ (bs : List ℕ). Frees bs v₂ v₃) kept₂ f₃ in
    (
      v₃,
      all_freed now ino v v₁ v₂ v₃ kind e₁ e₂ e₃,
      then-Frees xs (ys ++ zs) d₁ (then-Frees ys zs d₂ d₃),
    )
  where
    xs : List ℕ
    xs = gather single 7 0 ino.zone v

    ys : List ℕ
    ys = single_blocks v (ino.zone 7)

    zs : List ℕ
    zs = double_blocks v (ino.zone 8)

-- The inode has no blocks, size 0 and the new times, is to be written, and keeps the rest.
pub record IsEmpty (now : ℕ) (ino ino' : Inode) : Type 0 where
  pub no_zone : (k : ℕ) → k < 9 → ino'.zone k ≡ 0
  pub no_size : ino'.size ≡ 0
  pub modified : ino'.mtime ≡ now
  pub changed : ino'.ctime ≡ now
  pub to_write : ino'.dirt ≡ true
  pub mode_kept : ino'.mode ≡ ino.mode
