-- ===== src/Fs/Truncate/Through.antt =====
-- fs/truncate.c: free_ind and free_dind.
use linux.Prelude.{
  ℕ, ◌+◌, ◌-◌, ◌≡◌, ◌≢◌, refl, sym, ap, ◌∙◌, arith, inl, inr, Bool, true, false, ◌||◌, ◌==◌,
  if◌then◌else◌, Option, none, some, List, [], ◌∷◌, ◌++◌, Option-cases, update, update_ne, Result,
  ok,
}
use mathlib.Core.Path.{subst}
use linux.Fs.Volume.{Volume, free_block}
use linux.Fs.Volume.Zones.{IsVolume}
use linux.Fs.Volume.Alloc.{true_not_false}
use linux.Fs.Inode.{hold, release}
use linux.Fs.Inode.Grow.{hold-IsVolume, release-IsVolume, release-hold}
use linux.Fs.Truncate.{free_each, free_named, free_through}
use linux.Fs.Truncate.Owned.{
  member, member-append, distinct_apart, IsOwned, Frees, no-Frees, then-Frees, left-IsOwned,
  right-IsOwned,
}
use linux.Fs.Truncate.Freer.{
  gather, IsFreer, or_left, or_right, free_block-IsFreer, gather-stable, free_each-Frees,
}

-- Those that an indirect block names.
abbrev pub through_named : (named : Volume → ℕ → List ℕ) → Volume → (block : ℕ) → List ℕ
through_named named v block = elim (v.shorts block) as (λ _. List ℕ) [
  | none ↦ []
  | some shorts ↦ gather named 512 0 shorts v
]

-- And itself.
abbrev pub through : (named : Volume → ℕ → List ℕ) → Volume → (block : ℕ) → List ℕ
through named v block = if block == 0 then [] else through_named named v block ++ (block ∷ [])

module _ (free : ℕ → Volume → Result Volume) (named : Volume → ℕ → List ℕ)
    (r : IsFreer free named) where
  -- The loop under an indirect block, which is held and then released.
  free_named-Frees :
      (b : ℕ) (v : Volume)
      → IsVolume v
      → IsOwned v (through_named named v b ++ (b ∷ []))
      → (v' : Volume) × (free_named free b v ≡ ok v') × Frees (through_named named v b) v v'
  unfolding free_named
  free_named-Frees b v w o = elim (Option-cases (v.shorts b)) [
    | inl unread ↦ (v, rw (unread, free_named) refl, rw (unread, through_named) (no-Frees v w))
    | inr (f, read) ↦
        let xs : List ℕ = gather named 512 0 f v in
        let o' : IsOwned v (xs ++ (b ∷ [])) =
          subst
            (λ (u : Option (ℕ → ℕ)).
              IsOwned v (
                elim u as (λ _. List ℕ) [ none ↦ [] | some g ↦ gather named 512 0 g v ]
                ++ (b ∷ [])))
            read o in
        let (z, u, n) = o'.held b (member-append b xs (b ∷ []) ∙ last (member b xs)) in
        let same : gather named 512 0 f (hold b v) ≡ xs =
          gather-stable free named r 512 0 f v (hold b v) (λ c m. refl) in
        let (v₁, e, d) =
          free_each-Frees free named r 512 0 f (hold b v) (hold-IsVolume b v w u)
            (subst (IsOwned (hold b v)) (sym same) (under_hold xs o')) in
        (
          release b v₁,
          held_loop f v₁ read e,
          named_freed f (release b v₁) read
              (released f xs v₁ (subst (λ (bs : List ℕ). Frees bs (hold b v) v₁) same d)),
        )
  ]
    where
      last : (p : Bool) → (p || (b == b || false)) ≡ true
      last p = ground arith

      held_loop :
          (f : ℕ → ℕ) (v₁ : Volume)
          → v.shorts b ≡ some f
          → free_each 512 0 free f (hold b v) ≡ ok v₁
          → free_named free b v ≡ ok (release b v₁)
      held_loop f v₁ read e = rw (read, e, free_named) refl

      named_freed :
          (f : ℕ → ℕ) (v' : Volume)
          → v.shorts b ≡ some f
          → Frees (gather named 512 0 f v) v v'
          → Frees (through_named named v b) v v'
      named_freed f v' read d = rw (read, through_named) d

      under_hold : (xs : List ℕ) → IsOwned v (xs ++ (b ∷ [])) → IsOwned (hold b v) xs
      under_hold xs o = record {
        held = λ c m.
            let (z, u, n) = (left-IsOwned xs (b ∷ []) o).held c m in
            (z, u, update_ne v.users (v.users b + 1) (λ q. other c m q) ∙ n);
        apart = (left-IsOwned xs (b ∷ []) o).apart;
      }
        where
          here : (b == b || false) ≡ true
          here = ground arith

          other : (c : ℕ) → member c xs ≡ true → b ≢ c
          other c m q = true_not_false (
              sym m
              ∙ ap (λ (a : ℕ). member a xs) (sym q)
              ∙ distinct_apart xs (b ∷ []) o.apart b here)

      released :
          (f : ℕ → ℕ) (xs : List ℕ) (v₁ : Volume)
          → Frees xs (hold b v) v₁
          → Frees xs v (release b v₁)
      released f xs v₁ d = record {
        unused = d.unused;
        shorts_kept = d.shorts_kept;
        users_kept = ap (λ (u : ℕ → ℕ). update u b (u b - 1)) d.users_kept ∙ release-hold b v.users;
        first_kept = d.first_kept;
        last_kept = d.last_kept;
        numbers_kept = d.numbers_kept;
        imap_kept = d.imap_kept;
        valid = release-IsVolume b v₁ v₁.shorts d.valid;
      }

  through_is :
      (b : ℕ) (v : Volume) → b ≢ 0 → through named v b ≡ through_named named v b ++ (b ∷ [])
  through_is b v d =
      ap (λ (t : Bool). if t then [] else through_named named v b ++ (b ∷ [])) (not_zero d)
    where
      not_zero : b ≢ 0 → (b == 0) ≡ false
      not_zero d = ground arith

  free_both :
      (b : ℕ) (v v₁ v₂ : Volume)
      → b ≢ 0
      → free_named free b v ≡ ok v₁
      → free_block b v₁ ≡ ok v₂
      → free_through free b v ≡ ok v₂
  unfolding free_through
  free_both b v v₁ v₂ d e e₂ = rw (not_zero d, e, free_through) e₂
    where
      not_zero : b ≢ 0 → (b == 0) ≡ false
      not_zero d = ground arith

  through_named-stable :
      (b : ℕ) (v v' : Volume)
      → v'.shorts b ≡ v.shorts b
      → ((c : ℕ) → member c (through_named named v b) ≡ true → v'.shorts c ≡ v.shorts c)
      → through_named named v' b ≡ through_named named v b
  through_named-stable b v v' e s =
      ap (λ (u : Option (ℕ → ℕ)). names v' u) e ∙ by_contents (v.shorts b) s
    where
      names : Volume → Option (ℕ → ℕ) → List ℕ
      names v o = elim o as (λ _. List ℕ) [ none ↦ [] | some f ↦ gather named 512 0 f v ]

      by_contents :
          (o : Option (ℕ → ℕ))
          → ((c : ℕ) → member c (names v o) ≡ true → v'.shorts c ≡ v.shorts c)
          → names v' o ≡ names v o
      by_contents none s = refl
      by_contents (some f) s = gather-stable free named r 512 0 f v v' s

  pub free_through-IsFreer : IsFreer (free_through free) (through named)
  free_through-IsFreer = record {
    frees = λ b v d w o.
        let o' : IsOwned v (through_named named v b ++ (b ∷ [])) =
          subst (IsOwned v) (through_is b v d) o in
        let (v₁, e, f) = free_named-Frees b v w o' in
        let (v₂, e₂, f₂) =
          free_block-IsFreer.frees b v₁ d f.valid
            (right-IsOwned (through_named named v b) (b ∷ []) o' f) in
        (
          v₂,
          free_both b v v₁ v₂ d e e₂,
          subst (λ (bs : List ℕ). Frees bs v v₂) (sym (through_is b v d))
              (then-Frees (through_named named v b) (b ∷ []) f f₂),
        );
    stable = λ b v v' d s.
        let s' : (c : ℕ)
            → (member c (through_named named v b) || member c (b ∷ [])) ≡ true
            → v'.shorts c ≡ v.shorts c =
          (λ c m. s c (
            ap (member c) (through_is b v d)
            ∙ member-append c (through_named named v b) (b ∷ [])
            ∙ m)) in
        through_is b v' d
        ∙ ap (λ (bs : List ℕ). bs ++ (b ∷ []))
            (through_named-stable b v v'
              (s' b (or_right (member b (through_named named v b)) (member b (b ∷ [])) (itself b)))
              (λ c m. s' c (or_left (member c (through_named named v b)) (member c (b ∷ [])) m)))
        ∙ sym (through_is b v d);
  }
    where
      itself : (b : ℕ) → (b == b || false) ≡ true
      itself b = ground arith
