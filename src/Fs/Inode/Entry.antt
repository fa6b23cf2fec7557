-- ===== src/Fs/Inode/Entry.antt =====
-- The other levels of `create_block`: an entry of an indirect block.
use linux.Prelude.{
  ℕ, ◌+◌, ◌-◌, ◌%◌, ◌^◌, ◌<◌, ◌≡◌, ◌≢◌, refl, sym, ap, ◌∙◌, arith, ◌⊎◌, inl, inr, true, false, ◌==◌,
  ◌&&◌, if◌then◌else◌, Bool-cases, Option-cases, Option, none, some, update, update_self, update_ne,
  ok,
}
use mathlib.Core.Path.{ap₂, subst, fun_ext}
use native.Mathlib.Decide.{ℕ_discrete}
use linux.Fs.Volume.{Volume}
use linux.Fs.Volume.Zones.{IsZone, is_used, IsVolume}
use linux.Fs.Volume.Alloc.{IsSame, IsTaken, new_block_lem}
use linux.Fs.Inode.{Inode, hold, release, put_short, get_entry, get_indirect}
use linux.Fs.Inode.Slots.{
  peek, indirect, lookup, some_indirect, cleared, put, indirect-put, lookup-put, is_slot,
  lookup_at_slot,
}
use linux.Fs.Inode.Grow.{
  indirect_of, block_of, IsTree, IsStep, IsFull, same-IsStep, grown-IsStep, new-nonzero,
  not_indirect, release-hold, hold-IsVolume, release-IsVolume,
}
use linux.Fs.Inode.Zone.{peek-taken, weaken-IsStep, refl-IsStep}

-- What an entry set does to the entries.
peek-put :
    (s : ℕ → Option (ℕ → ℕ)) (b i n : ℕ) (f : ℕ → ℕ)
    → b ≢ 0
    → s b ≡ some f
    → peek (update s b (some (update f i n))) ≡ put b i n (peek s)
peek-put s b i n f nonzero e = fun_ext (λ c. fun_ext (λ j. elim (ℕ_discrete b c) [
  | yes q ↦
      ap (λ (a : ℕ). peek (update s b (some (update f i n))) a j) (sym q)
      ∙ ap (read_in b j) (update_self s (some (update f i n)) b)
      ∙ set_here c j q (ap (read_in b j) e)
      ∙ ap (λ (a : ℕ). if c == b && j == i then n else peek s a j) q
  | no d ↦ ap (read_in c j) (update_ne s (some (update f i n)) d) ∙ elsewhere c j d
]))
  where
    read_in : (b i : ℕ) → Option (ℕ → ℕ) → ℕ
    read_in b i o = if b == 0 then 0 else elim o as (λ _. ℕ) [ none ↦ 0 | some shorts ↦ shorts i ]

    set_here :
        (c j : ℕ)
        → b ≡ c
        → {x : ℕ} → x ≡ (if b == 0 then 0 else f j)
        → (if b == 0 then 0 else (if i == j then n else f j)) ≡ (if c == b && j == i then n else x)
    set_here c j q p = ground arith

    elsewhere : (c j : ℕ) → b ≢ c → {x : ℕ} → x ≡ (if c == b && j == i then n else x)
    elsewhere c j d = ground arith

module _ (ino : Inode) (v : Volume) (t : IsTree ino v) (x i : ℕ) (in_x : x < some_indirect)
    (in_i : i < 512) (f : ℕ → ℕ) where
  abbrev here : ℕ
  here = indirect_of ino v x

  module _ (some_block : here ≢ 0) (read : v.shorts here ≡ some f) (missing : f i ≡ 0) where
    entry_here : peek v.shorts here i ≡ f i
    entry_here = rw (not_zero here some_block, read, peek) refl
      where
        not_zero : (b : ℕ) → b ≢ 0 → (b == 0) ≡ false
        not_zero b d = ground arith

    -- A new block in the entry.
    module _ (n : ℕ) (v₁ : Volume) (d : IsTaken n (hold here v) v₁) where
      abbrev filled : Volume
      filled =
          release here
            (record v₁ { shorts = update v₁.shorts here (some (update f i (n % 2 ^ 16))) })

      nonzero : n ≢ 0
      nonzero = new-nonzero ino v n t d.zone d.was_free

      new : (y : ℕ) → y < some_indirect → indirect_of ino v y ≢ n
      new = not_indirect ino v n t d.zone d.was_free

      short : n % 2 ^ 16 ≡ n
      short = fits d.zone t.volume.small
        where
          fits : IsZone v n → v.nzones < 2 ^ 16 → n % 2 ^ 16 ≡ n
          fits z h = omega arith

      shorts₁ : v₁.shorts ≡ update v.shorts n (some (λ i. 0))
      shorts₁ = ap (λ (u : Volume). u.shorts) d.rest

      entries : peek filled.shorts ≡ put here i n (cleared n (peek v.shorts))
      entries =
          ap₂ (λ (s : ℕ → Option (ℕ → ℕ)) (m : ℕ). peek (update s here (some (update f i m))))
            shorts₁ short
          ∙ peek-put (update v.shorts n (some (λ i. 0))) here i n f some_block
              (update_ne v.shorts (some (λ i. 0)) (λ q. new x in_x (sym q)) ∙ read)
          ∙ ap (put here i n) (peek-taken v.shorts n)

      filled-IsStep : IsStep (is_slot x i) ino v ino filled
      filled-IsStep =
          grown-IsStep ino v n t d.zone d.was_free (is_slot x i) ino filled
            (release-IsVolume here v₁ (update v₁.shorts here (some (update f i (n % 2 ^ 16))))
              d.valid)
            (ap (λ (u : ℕ → ℕ). update u here (u here - 1)) (ap (λ (u : Volume). u.users) d.rest)
              ∙ release-hold here v.users)
            (ap (λ (u : Volume). u.firstdatazone) d.rest) (ap (λ (u : Volume). u.nzones) d.rest)
            d.used (λ y. x == 1 && y == 2 + i) (λ y z p q. one y z p q)
            (λ y l.
              ap (λ (s : ℕ → ℕ → ℕ). indirect ino.zone s y) entries
              ∙ indirect-put ino.zone (peek v.shorts) n (λ i. refl) nonzero new x i in_x some_block
                  t.apart y l)
            (λ j l. looked j (
              ap (λ (s : ℕ → ℕ → ℕ). lookup ino.zone s j) entries
              ∙ lookup-put ino.zone (peek v.shorts) n (λ i. refl) nonzero new x i in_x some_block
                  t.apart j l in_i (entry_here ∙ missing)))
            (λ b d' apart.
              update_ne v₁.shorts (some (update f i (n % 2 ^ 16))) (apart x in_x)
              ∙ ap (λ (s : ℕ → Option (ℕ → ℕ)). s b) shorts₁
              ∙ update_ne v.shorts (some (λ i. 0)) (λ q. d' (sym q)))
        where
          one : (y z : ℕ) → (x == 1 && y == 2 + i) ≡ true → (x == 1 && z == 2 + i) ≡ true → y ≡ z
          one y z p q = ground arith

          looked :
              (j : ℕ)
              → block_of ino filled j ≡ (if is_slot x i j then n else block_of ino v j)
              → (block_of ino filled j ≡ block_of ino v j)
                ⊎ ((is_slot x i j ≡ true) × (block_of ino v j ≡ 0))
          looked j q = elim (Bool-cases (is_slot x i j)) [
            | inl y ↦
                inr (y, lookup_at_slot ino.zone (peek v.shorts) x i j in_i y ∙ entry_here ∙ missing)
            | inr m ↦ inl (q ∙ rw m refl)
          ]

      filled-peek : n ≡ peek filled.shorts here i
      filled-peek = sym (ap (λ (s : ℕ → ℕ → ℕ). s here i) entries ∙ itself here i _)
        where
          itself : (b i m : ℕ) → (if b == b && i == i then n else m) ≡ n
          itself b i m = ground arith

      filled-kept : x ≢ 1 → indirect_of ino filled x ≡ indirect_of ino v x
      filled-kept d =
          ap (λ (s : ℕ → ℕ → ℕ). indirect ino.zone s x) entries
          ∙ indirect-put ino.zone (peek v.shorts) n (λ i. refl) nonzero new x i in_x some_block
              t.apart x in_x
          ∙ not_double x (indirect_of ino v x) d
        where
          not_double : (x b : ℕ) → x ≢ 1 → (if x == 1 && x == 2 + i then n else b) ≡ b
          not_double x b d = ground arith

    -- No block is left.
    full-IsStep :
        (v₁ : Volume) → IsSame (hold here v) v₁ → IsStep (is_slot x i) ino v ino (release here v₁)
    full-IsStep v₁ d = weaken-IsStep (is_slot x i) (
        same-IsStep ino v (release here v₁) t (release-IsVolume here v₁ v₁.shorts d.valid_same)
          (ap (λ (u : ℕ → ℕ). update u here (u here - 1)) (ap (λ (u : Volume). u.users) d.rest_same)
            ∙ release-hold here v.users)
          (ap (λ (u : Volume). u.firstdatazone) d.rest_same)
          (ap (λ (u : Volume). u.nzones) d.rest_same) (ap (λ (u : Volume). u.shorts) d.rest_same)
          d.used_same)

    -- What comes back, and the step.
    abbrev Entered : ℕ × Volume → Type 0
    Entered r =
        IsStep (is_slot x i) ino v ino r.1
        × (r.0 ≡ peek r.1.shorts here i)
        × (x ≢ 1 → indirect_of ino r.1 x ≡ indirect_of ino v x)
        × ((r.0 ≢ 0) ⊎ IsFull r.1)

    same_zones : {v₁ : Volume} (b : ℕ) → IsSame (hold here v) v₁ → IsZone v₁ b → IsZone v b
    same_zones b d z = omega (
      arith,
      z,
      ap (λ (u : Volume). u.firstdatazone) d.rest_same,
      ap (λ (u : Volume). u.nzones) d.rest_same,
    )

    entered :
        (n : ℕ) (v₁ : Volume)
        → (((n ≡ 0) × IsSame (hold here v) v₁ × ((b : ℕ) → IsZone v b → is_used v b ≡ true))
            ⊎ (IsTaken n (hold here v) v₁ × ((b : ℕ) → IsZone v b → b < n → is_used v b ≡ true)))
        → Entered (n, release here (put_short here i n f v₁))
    entered n v₁ (inl (nought, d, full)) =
        subst (λ (m : ℕ). Entered (m, release here (put_short here i m f v₁))) (sym nought)
          (
            full-IsStep v₁ d,
            sym (ap (λ (u : Volume). peek u.shorts here i) d.rest_same ∙ entry_here ∙ missing),
            λ _. ap (λ (u : Volume). indirect_of ino u x) d.rest_same,
            inr (λ b z. let z' : IsZone v b = same_zones b d z in d.used_same b z' ∙ full b z'),
          )
    entered n v₁ (inr (d, before)) =
        rw (not_zero n (nonzero n v₁ d))
          (filled-IsStep n v₁ d, filled-peek n v₁ d, filled-kept n v₁ d, inl (nonzero n v₁ d))
      where
        not_zero : (b : ℕ) → b ≢ 0 → (b == 0) ≡ false
        not_zero b d = ground arith

-- There is such an entry now, or the disk is full, or the block cannot be read, or there is no
-- block.
abbrev pub WhyNone : (b : ℕ) → Volume → ℕ → Volume → Type 0
WhyNone b v m v' = (m ≢ 0) ⊎ IsFull v' ⊎ ((b ≢ 0) × (v'.shorts b ≡ none)) ⊎ ((b ≡ 0) × (v' ≡ v))

-- An entry of an indirect block of a file, created if it is missing: the step, what comes back, and
-- no panic.
pub get_indirect-IsStep :
    (ino : Inode) (v : Volume) (x i : ℕ)
    → IsTree ino v
    → x < some_indirect
    → i < 512
    → (m : ℕ) × (v' : Volume) × (get_indirect true i (indirect_of ino v x) v ≡ ok (m, v'))
      × IsStep (is_slot x i) ino v ino v'
      × (m ≡ peek v'.shorts (indirect_of ino v x) i)
      × (x ≢ 1 → indirect_of ino v' x ≡ indirect_of ino v x)
      × WhyNone (indirect_of ino v x) v m v'
unfolding get_indirect get_entry
get_indirect-IsStep ino v x i t in_x in_i = elim (Bool-cases (b == 0)) [
  | inl none_there ↦ (
    0,
    v,
    rw (none_there, get_indirect) refl,
    refl-IsStep (is_slot x i) ino v t,
    rw (none_there, peek) refl,
    λ _. refl,
    inr (inr (inr (is_zero b none_there, refl))),
  )
  | inr there ↦ elim (Option-cases (v.shorts b)) [
    | inl unread ↦ (
      0,
      v,
      rw (there, unread, get_indirect, get_entry) refl,
      refl-IsStep (is_slot x i) ino v t,
      rw (there, unread, peek) refl,
      λ _. refl,
      inr (inr (inl (nonzero there, unread))),
    )
    | inr (f, read) ↦ elim (Bool-cases (f i == 0)) [
      | inl missing ↦
          let w : IsVolume (hold b v) =
            hold-IsVolume b v t.volume (t.owned x in_x (nonzero there)).1 in
          let (n, v₁, e, r) = new_block_lem (hold b v) w in
          let (step, value, kept, why) =
            entered ino v t x i in_x in_i f (nonzero there) read (is_zero (f i) missing) n v₁ r in
          (
            n,
            release b (put_short b i n f v₁),
            rw (there, read, missing, e, get_indirect, get_entry) refl,
            step,
            value,
            kept,
            widen why,
          )
      | inr present ↦ (
        f i,
        v,
        rw (there, read, present, get_indirect, get_entry)
            (ap (λ (u : ℕ → ℕ). ok (f i, record v { users = u })) (release-hold b v.users)),
        refl-IsStep (is_slot x i) ino v t,
        rw (there, read, peek) refl,
        λ _. refl,
        inl (not_zero (f i) present),
      )
    ]
  ]
]
  where
    b : ℕ
    b = indirect_of ino v x

    widen : {m : ℕ} {v' : Volume} → (m ≢ 0) ⊎ IsFull v' → WhyNone b v m v'
    widen (inl d) = inl d
    widen (inr full) = inr (inl full)

    not_zero : (m : ℕ) → (m == 0) ≡ false → m ≢ 0
    not_zero m e = ground arith

    nonzero : (b == 0) ≡ false → b ≢ 0
    nonzero e = ground arith

    is_zero : (m : ℕ) → (m == 0) ≡ true → m ≡ 0
    is_zero m e = ground arith
