-- ===== src/Fs/Inode/Zone.antt =====
-- The first level of `create_block`: a block in the inode.
use linux.Prelude.{
  ◌≤◌, ℕ, ◌+◌, ◌%◌, ◌^◌, ◌<◌, ◌≡◌, ◌≢◌, refl, sym, ap, ◌∙◌, arith, ◌⊎◌, inl, inr, Bool, true, false,
  ◌==◌, ◌&&◌, ltb, if◌then◌else◌, Bool-cases, Option, none, some, update, update_self, update_ne,
  ok,
}
use mathlib.Core.Path.{Path, ap₂, subst, fun_ext}
use native.Mathlib.Decide.{ℕ_discrete}
use linux.Fs.Volume.{Volume}
use linux.Fs.Volume.Zones.{IsZone, is_used}
use linux.Fs.Volume.Alloc.{IsSame, IsTaken, new_block_lem, true_not_false}
use linux.Fs.Inode.{Inode, set_zone, get_zone}
use linux.Fs.Inode.Slots.{
  peek, indirect, lookup, some_indirect, cleared, set, indirect-zone, lookup-zone,
}
use linux.Fs.Inode.Grow.{
  indirect_of, block_of, IsTree, IsStep, IsFull, no_slot, same-IsStep, grown-IsStep, new-nonzero,
  not_indirect,
}

-- What a new block does to the entries.
pub peek-taken :
    (s : ℕ → Option (ℕ → ℕ)) (n : ℕ) → peek (update s n (some (λ i. 0))) ≡ cleared n (peek s)
peek-taken s n = fun_ext (λ b. fun_ext (λ i. elim (ℕ_discrete n b) [
  | yes e ↦ here b i e ∙ sym (zero_there b i e)
  | no d ↦ there b i d
]))
  where
    zero_there : (b i : ℕ) → n ≡ b → cleared n (peek s) b i ≡ 0
    zero_there b i e = ground arith

    read_in : (b i : ℕ) → Option (ℕ → ℕ) → ℕ
    read_in b i o = if b == 0 then 0 else elim o as (λ _. ℕ) [ none ↦ 0 | some shorts ↦ shorts i ]

    here : (b i : ℕ) → n ≡ b → peek (update s n (some (λ i. 0))) b i ≡ 0
    here b i e =
        ap (read_in b i) (ap (update s n (some (λ i. 0))) (sym e) ∙ update_self s (some (λ i. 0)) n)
        ∙ all_zero (b == 0)
      where
        all_zero : (c : Bool) → Path ℕ (if c then 0 else 0) 0
        all_zero true = refl
        all_zero false = refl

    there : (b i : ℕ) → n ≢ b → peek (update s n (some (λ i. 0))) b i ≡ cleared n (peek s) b i
    there b i d = ap (read_in b i) (update_ne s (some (λ i. 0)) d) ∙ not_new b d
      where
        not_new : (b : ℕ) → n ≢ b → {x : ℕ} → x ≡ (if b == n then 0 else x)
        not_new b d = ground arith

pub weaken-IsStep :
    (slot : ℕ → Bool) {ino ino' : Inode} {v v' : Volume}
    → IsStep no_slot ino v ino' v'
    → IsStep slot ino v ino' v'
weaken-IsStep slot d = record {
  tree = d.tree;
  looked = λ j l. elim (d.looked j l) [
    | inl same ↦ inl same
    | inr (f, e) ↦ absurd (true_not_false (sym f))
  ];
  users_kept = d.users_kept;
  first_kept = d.first_kept;
  last_kept = d.last_kept;
  used_kept = d.used_kept;
  others = d.others;
}

pub refl-IsStep :
    (slot : ℕ → Bool) (ino : Inode) (v : Volume) → IsTree ino v → IsStep slot ino v ino v
refl-IsStep slot ino v t =
    weaken-IsStep slot (same-IsStep ino v v t t.volume refl refl refl refl (λ b z. refl))

-- A step with no slot first.
pub after-IsStep :
    (slot : ℕ → Bool) {ino ino₁ ino₂ : Inode} {v v₁ v₂ : Volume}
    → IsStep no_slot ino v ino₁ v₁
    → IsStep slot ino₁ v₁ ino₂ v₂
    → IsStep slot ino v ino₂ v₂
after-IsStep slot c d = record {
  tree = d.tree;
  looked = λ j l. elim (c.looked j l) [
    | inl same ↦ elim (d.looked j l) [
      | inl also ↦ inl (also ∙ same)
      | inr (f, e) ↦ inr (f, sym same ∙ e)
    ]
    | inr (f, e) ↦ absurd (true_not_false (sym f))
  ];
  users_kept = d.users_kept ∙ c.users_kept;
  first_kept = d.first_kept ∙ c.first_kept;
  last_kept = d.last_kept ∙ c.last_kept;
  used_kept =
      λ b z u. d.used_kept b (omega (arith, z, c.first_kept, c.last_kept)) (c.used_kept b z u);
  others = λ b z u apart.
      let (s₁, u₁, a₁) = c.others b z u apart in
      let (s₂, u₂, a₂) = d.others b (omega (arith, z, c.first_kept, c.last_kept)) u₁ a₁ in
      (s₂ ∙ s₁, u₂, a₂);
}

abbrev pub zone_slot : ℕ → ℕ → Bool
zone_slot k j = j == k && ltb k 7

set_zone-zone :
    (now k n : ℕ) (ino : Inode) → (set_zone now k n ino).zone ≡ update ino.zone k (n % 2 ^ 16)
set_zone-zone now k n ino = either (n % 2 ^ 16 == 0)
  where
    ino₀ : Inode
    ino₀ = record ino { zone = update ino.zone k (n % 2 ^ 16) }

    either :
        (c : Bool)
        → (if c then ino₀ else record ino₀ { dirt = true; ctime = now }).zone
          ≡ update ino.zone k (n % 2 ^ 16)
    either true = refl
    either false = refl

-- The step depends on the zones of the new inode only.
zone-IsStep :
    (slot : ℕ → Bool) (ino ino₁ ino₂ : Inode) (v v' : Volume)
    → ino₂.zone ≡ ino₁.zone
    → IsStep slot ino v ino₁ v'
    → IsStep slot ino v ino₂ v'
zone-IsStep slot ino ino₁ ino₂ v v' e d = record {
  tree = record { volume = d.tree.volume; owned = s.tree.owned; apart = s.tree.apart };
  looked = s.looked;
  users_kept = d.users_kept;
  first_kept = d.first_kept;
  last_kept = d.last_kept;
  used_kept = d.used_kept;
  others = s.others;
}
  where
    s : IsStep slot ino v (record ino₁ { zone = ino₂.zone }) v'
    s = subst (λ (z : ℕ → ℕ). IsStep slot ino v (record ino₁ { zone = z }) v') (sym e) d

module _ (now k : ℕ) (small : k < 9) (ino : Inode) (v : Volume) (t : IsTree ino v) where
  zero_zone : ino.zone k ≡ 0 → update ino.zone k 0 ≡ ino.zone
  zero_zone e = fun_ext (λ j. go j)
    where
      go : (j : ℕ) → (if k == j then 0 else ino.zone j) ≡ ino.zone j
      go j = elim (ℕ_discrete k j) [
        | yes q ↦ sym (either (ino.zone j) q (ap ino.zone (sym q) ∙ e))
        | no d ↦ other d
      ]
        where
          either : (m : ℕ) → k ≡ j → m ≡ 0 → m ≡ (if k == j then 0 else m)
          either m q e = ground arith

          other : k ≢ j → (if k == j then 0 else ino.zone j) ≡ ino.zone j
          other d = ground arith

  taken-IsStep :
      (n : ℕ) (v' : Volume)
      → ino.zone k ≡ 0
      → IsTaken n v v'
      → IsStep (zone_slot k) ino v (set_zone now k n ino) v'
  taken-IsStep n v' e d =
      grown-IsStep ino v n t d.zone d.was_free (zone_slot k) (set_zone now k n ino) v' d.valid
        (ap (λ (u : Volume). u.users) d.rest) (ap (λ (u : Volume). u.firstdatazone) d.rest)
        (ap (λ (u : Volume). u.nzones) d.rest) d.used (λ x. k == 7 + x && ltb x 2)
        (λ x y p q. one x y p q)
        (λ x l.
          formed (λ z s. indirect z s x)
          ∙ indirect-zone ino.zone (peek v.shorts) n (λ i. refl) nonzero new k small e x l)
        (λ j l. looked j (
          formed (λ z s. lookup z s j)
          ∙ lookup-zone ino.zone (peek v.shorts) n (λ i. refl) nonzero new k small e j l))
        (λ b d' apart.
          ap (λ (u : Volume). u.shorts b) d.rest
          ∙ update_ne v.shorts (some (λ i. 0)) (λ q. d' (sym q)))
    where
      nonzero : n ≢ 0
      nonzero = new-nonzero ino v n t d.zone d.was_free

      new : (x : ℕ) → x < some_indirect → indirect_of ino v x ≢ n
      new = not_indirect ino v n t d.zone d.was_free

      one : (x y : ℕ) → (k == 7 + x && ltb x 2) ≡ true → (k == 7 + y && ltb y 2) ≡ true → x ≡ y
      one x y p q = ground arith

      short : n % 2 ^ 16 ≡ n
      short = fits d.zone t.volume.small
        where
          fits : IsZone v n → v.nzones < 2 ^ 16 → n % 2 ^ 16 ≡ n
          fits z h = omega arith

      formed :
          (f : (ℕ → ℕ) → (ℕ → ℕ → ℕ) → ℕ)
          → f (set_zone now k n ino).zone (peek v'.shorts)
            ≡ f (set k n ino.zone) (cleared n (peek v.shorts))
      formed f =
          ap₂ f (set_zone-zone now k n ino ∙ ap (update ino.zone k) short)
            (ap (λ (u : Volume). peek u.shorts) d.rest ∙ peek-taken v.shorts n)

      looked :
          (j : ℕ)
          → block_of (set_zone now k n ino) v' j
            ≡ (if j == k && ltb k 7 then n else block_of ino v j)
          → (block_of (set_zone now k n ino) v' j ≡ block_of ino v j)
            ⊎ ((zone_slot k j ≡ true) × (block_of ino v j ≡ 0))
      looked j q = elim (Bool-cases (j == k && ltb k 7)) [
        | inl y ↦ inr (y, was_zero y)
        | inr m ↦ inl (q ∙ rw m refl)
      ]
        where
          was_zero : (j == k && ltb k 7) ≡ true → block_of ino v j ≡ 0
          was_zero y = ground (arith, e, ap ino.zone (same y))
            where
              same : (j == k && ltb k 7) ≡ true → j ≡ k
              same y = ground arith

  -- The first level: the step, and no panic.
  pub get_zone-IsStep :
      (ino' : Inode) × (v' : Volume) × (get_zone now true k ino v ≡ ok (ino', v'))
      × IsStep (zone_slot k) ino v ino' v'
      × ((ino'.zone k ≢ 0) ⊎ IsFull v')
  unfolding get_zone
  get_zone-IsStep = elim (Bool-cases (ino.zone k == 0)) [
    | inr there ↦
        (ino, v, rw (there, get_zone) refl, refl-IsStep (zone_slot k) ino v t, inl (not_zero there))
    | inl missing ↦
        let (n, v', e, r) = new_block_lem v t.volume in
        (
          set_zone now k n ino,
          v',
          rw (missing, e, get_zone) refl,
          outcome n v' (is_zero missing) r,
          got n v' r,
        )
  ]
    where
      is_zero : (ino.zone k == 0) ≡ true → ino.zone k ≡ 0
      is_zero e = ground arith

      not_zero : (ino.zone k == 0) ≡ false → ino.zone k ≢ 0
      not_zero e = ground arith

      fits : (n : ℕ) → IsZone v n → v.nzones < 2 ^ 16 → 1 ≤ v.firstdatazone → n % 2 ^ 16 ≢ 0
      fits n z h p = omega arith

      got :
          (n : ℕ) (v' : Volume)
          → (((n ≡ 0) × IsSame v v' × ((b : ℕ) → IsZone v b → is_used v b ≡ true))
              ⊎ (IsTaken n v v' × ((b : ℕ) → IsZone v b → b < n → is_used v b ≡ true)))
          → ((set_zone now k n ino).zone k ≢ 0) ⊎ IsFull v'
      got n v' (inr (d, before)) = inl (λ z. fits n d.zone t.volume.small t.volume.some_boot (
          sym (
            ap (λ (f : ℕ → ℕ). f k) (set_zone-zone now k n ino)
            ∙ update_self ino.zone (n % 2 ^ 16) k)
          ∙ z))
      got n v' (inl (nought, d, full)) =
          inr (λ b z. let z' : IsZone v b = same_zones b d z in d.used_same b z' ∙ full b z')
        where
          same_zones : (b : ℕ) → IsSame v v' → IsZone v' b → IsZone v b
          same_zones b d z = omega (
            arith,
            z,
            ap (λ (u : Volume). u.firstdatazone) d.rest_same,
            ap (λ (u : Volume). u.nzones) d.rest_same,
          )

      outcome :
          (n : ℕ) (v' : Volume)
          → ino.zone k ≡ 0
          → (((n ≡ 0) × IsSame v v' × ((b : ℕ) → IsZone v b → is_used v b ≡ true))
              ⊎ (IsTaken n v v' × ((b : ℕ) → IsZone v b → b < n → is_used v b ≡ true)))
          → IsStep (zone_slot k) ino v (set_zone now k n ino) v'
      outcome n v' e (inr (d, before)) = taken-IsStep n v' e d
      outcome n v' e (inl (nought, d, full)) =
          zone-IsStep (zone_slot k) ino ino (set_zone now k n ino) v v'
            (set_zone-zone now k n ino
              ∙ ap (λ (m : ℕ). update ino.zone k (m % 2 ^ 16)) nought
              ∙ zero_zone e)
            (weaken-IsStep (zone_slot k) (
              same-IsStep ino v v' t d.valid_same (ap (λ (u : Volume). u.users) d.rest_same)
                (ap (λ (u : Volume). u.firstdatazone) d.rest_same)
                (ap (λ (u : Volume). u.nzones) d.rest_same)
                (ap (λ (u : Volume). u.shorts) d.rest_same) d.used_same))
