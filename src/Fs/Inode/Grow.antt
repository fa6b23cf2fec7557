-- ===== src/Fs/Inode/Grow.antt =====
-- The two ways in which `create_block` adds a block to a file.
use linux.Prelude.{
  ℕ, ◌+◌, ◌-◌, ◌<◌, ◌≤◌, ◌≡◌, ◌≢◌, refl, sym, ap, ◌∙◌, arith, ◌⊎◌, inl, inr, Bool, true, false,
  ◌==◌, if◌then◌else◌, Bool-cases, Option, update, update_self, update_ne,
}
use mathlib.Core.Path.{subst, fun_ext}
use native.Mathlib.Decide.{ℕ_discrete}
use linux.Fs.Volume.{Volume}
use linux.Fs.Volume.Zones.{IsZone, is_used, IsVolume}
use linux.Fs.Volume.Alloc.{true_not_false}
use linux.Fs.Inode.{Inode, hold, release}
use linux.Fs.Inode.Slots.{peek, indirect, lookup, file_blocks, some_indirect, IsApart}

-- The indirect blocks and the blocks of an inode on a volume.
abbrev pub indirect_of : Inode → Volume → ℕ → ℕ
indirect_of ino v = indirect ino.zone (peek v.shorts)

abbrev pub block_of : Inode → Volume → ℕ → ℕ
block_of ino v = lookup ino.zone (peek v.shorts)

-- The volume is well formed, and the indirect blocks of the inode are used and differ.
pub record IsTree (ino : Inode) (v : Volume) : Type 0 where
  pub volume : IsVolume v
  pub owned :
      (x : ℕ)
      → x < some_indirect
      → indirect_of ino v x ≢ 0
      → IsZone v (indirect_of ino v x) × (is_used v (indirect_of ino v x) ≡ true)
  pub apart : IsApart ino.zone (peek v.shorts)

-- A step of `create_block`: only a block of the file at a slot may change, and only from 0; the
-- users of the buffers are as before, and so are the used blocks that are no indirect blocks of the
-- file.
pub record IsStep (slot : ℕ → Bool) (ino : Inode) (v : Volume) (ino' : Inode) (v' : Volume)
    : Type 0 where
  pub tree : IsTree ino' v'
  pub looked :
      (j : ℕ)
      → j < file_blocks
      → (block_of ino' v' j ≡ block_of ino v j) ⊎ ((slot j ≡ true) × (block_of ino v j ≡ 0))
  pub users_kept : v'.users ≡ v.users
  pub first_kept : v'.firstdatazone ≡ v.firstdatazone
  pub last_kept : v'.nzones ≡ v.nzones
  pub used_kept : (b : ℕ) → IsZone v b → is_used v b ≡ true → is_used v' b ≡ true
  pub others :
      (b : ℕ)
      → IsZone v b
      → is_used v b ≡ true
      → ((x : ℕ) → x < some_indirect → indirect_of ino v x ≢ b)
      → (v'.shorts b ≡ v.shorts b)
        × (is_used v' b ≡ true)
        × ((x : ℕ) → x < some_indirect → indirect_of ino' v' x ≢ b)

-- Every block is used.
abbrev pub IsFull : Volume → Type 0
IsFull v = (b : ℕ) → IsZone v b → is_used v b ≡ true

abbrev pub no_slot : ℕ → Bool
no_slot j = false

-- Other users and other blocks.
users-IsVolume :
    (v : Volume) (u : ℕ → ℕ) (s : ℕ → Option (ℕ → ℕ))
    → IsVolume v
    → ((c : ℕ) → IsZone v c → is_used v c ≡ false → u c ≡ 0)
    → IsVolume (record v { users = u; shorts = s })
users-IsVolume v u s w h = record {
  some_boot = w.some_boot;
  covered = w.covered;
  small = w.small;
  mapped = w.mapped;
  first_set = w.first_set;
  idle = h;
}

pub hold-IsVolume : (b : ℕ) (v : Volume) → IsVolume v → is_used v b ≡ true → IsVolume (hold b v)
hold-IsVolume b v w used = users-IsVolume v _ v.shorts w (λ c z free. elim (ℕ_discrete b c) [
  | yes e ↦ absurd (true_not_false (sym used ∙ ap (is_used v) e ∙ free))
  | no n ↦ update_ne v.users (v.users b + 1) n ∙ w.idle c z free
])

pub release-IsVolume :
    (b : ℕ) (v : Volume) (s : ℕ → Option (ℕ → ℕ))
    → IsVolume v
    → IsVolume (release b (record v { shorts = s }))
release-IsVolume b v s w = users-IsVolume v _ s w (λ c z free. elim (ℕ_discrete b c) [
  | yes e ↦
      ap (λ (i : ℕ). update v.users b (v.users b - 1) i) (sym e)
      ∙ update_self v.users (v.users b - 1) b
      ∙ ap (λ (i : ℕ). v.users i - 1) e
      ∙ ap (λ (m : ℕ). m - 1) (w.idle c z free)
  | no n ↦ update_ne v.users (v.users b - 1) n ∙ w.idle c z free
])

pub release-hold :
    (b : ℕ) (users : ℕ → ℕ)
    → update (update users b (users b + 1)) b (update users b (users b + 1) b - 1) ≡ users
release-hold b users = fun_ext (λ c. elim (ℕ_discrete b c) [
  | yes e ↦
      ap (λ (i : ℕ). update (update users b (users b + 1)) b (update users b (users b + 1) b - 1) i)
        (sym e)
      ∙ update_self (update users b (users b + 1)) (update users b (users b + 1) b - 1) b
      ∙ ap (λ (m : ℕ). m - 1) (update_self users (users b + 1) b)
      ∙ less (users b)
      ∙ ap users e
  | no n ↦ update_ne (update users b (users b + 1)) _ n ∙ update_ne users (users b + 1) n
])
  where
    less : (m : ℕ) → m + 1 - 1 ≡ m
    less m = omega arith

-- Nothing but the bitmap has changed, and it only outside the zones.
pub same-IsStep :
    (ino : Inode) (v v' : Volume)
    → IsTree ino v
    → IsVolume v'
    → v'.users ≡ v.users
    → v'.firstdatazone ≡ v.firstdatazone
    → v'.nzones ≡ v.nzones
    → v'.shorts ≡ v.shorts
    → ((b : ℕ) → IsZone v b → is_used v' b ≡ is_used v b)
    → IsStep no_slot ino v ino v'
same-IsStep ino v v' t w users first last shorts used = record {
  tree = record {
    volume = w;
    owned = λ x l n.
        let (z, u) = t.owned x l (λ e. n (still x ∙ e)) in
        subst (λ (b : ℕ). IsZone v' b × (is_used v' b ≡ true)) (sym (still x))
          (omega (arith, z, first, last), used (indirect_of ino v x) z ∙ u);
    apart = subst (λ (s : ℕ → Option (ℕ → ℕ)). IsApart ino.zone (peek s)) (sym shorts) t.apart;
  };
  looked = λ j l. inl (ap (λ (s : ℕ → Option (ℕ → ℕ)). lookup ino.zone (peek s) j) shorts);
  users_kept = users;
  first_kept = first;
  last_kept = last;
  used_kept = λ b z u. used b z ∙ u;
  others = λ b z u n. (
    ap (λ (s : ℕ → Option (ℕ → ℕ)). s b) shorts,
    used b z ∙ u,
    λ x l e. n x l (sym (still x) ∙ e),
  );
}
  where
    still : (x : ℕ) → indirect_of ino v' x ≡ indirect_of ino v x
    still x = ap (λ (s : ℕ → Option (ℕ → ℕ)). indirect ino.zone (peek s) x) shorts

-- A new block is no indirect block of the file, and not 0.
module _ (ino : Inode) (v : Volume) (n : ℕ) (t : IsTree ino v) (zone : IsZone v n)
    (free : is_used v n ≡ false) where
  pub new-nonzero : n ≢ 0
  new-nonzero = positive t.volume.some_boot zone
    where
      positive : 1 ≤ v.firstdatazone → IsZone v n → n ≢ 0
      positive p z = omega arith

  pub not_indirect : (x : ℕ) → x < some_indirect → indirect_of ino v x ≢ n
  not_indirect x l e =
      true_not_false (sym (t.owned x l (λ q. new-nonzero (sym e ∙ q))).1 ∙ ap (is_used v) e ∙ free)

  -- The block becomes used; it becomes one of the indirect blocks, or none.
  module _ (slot : ℕ → Bool) (ino' : Inode) (v' : Volume) (volume : IsVolume v')
      (users : v'.users ≡ v.users) (first : v'.firstdatazone ≡ v.firstdatazone)
      (last : v'.nzones ≡ v.nzones)
      (used : (b : ℕ) → IsZone v b → is_used v' b ≡ (if b == n then true else is_used v b))
      (place : ℕ → Bool) (one_place : (x y : ℕ) → place x ≡ true → place y ≡ true → x ≡ y)
      (grown : (x : ℕ)
        → x < some_indirect
        → indirect_of ino' v' x ≡ (if place x then n else indirect_of ino v x)) where
    still_used : (b : ℕ) → IsZone v b → is_used v b ≡ true → is_used v' b ≡ true
    still_used b z u = used b z ∙ either _ u
      where
        either : (c : Bool) {d : Bool} → d ≡ true → (if c then true else d) ≡ true
        either c e = ground arith

    now_used : is_used v' n ≡ true
    now_used = used n zone ∙ itself n _
      where
        itself : (n : ℕ) (d : Bool) → (if n == n then true else d) ≡ true
        itself n d = ground arith

    same_zones : (b : ℕ) → IsZone v b → IsZone v' b
    same_zones b z = omega (arith, z, first, last)

    grown-owned :
        (x : ℕ)
        → x < some_indirect
        → indirect_of ino' v' x ≢ 0
        → IsZone v' (indirect_of ino' v' x) × (is_used v' (indirect_of ino' v' x) ≡ true)
    grown-owned x l d =
        subst (λ (b : ℕ). IsZone v' b × (is_used v' b ≡ true)) (sym (grown x l))
          (go (Bool-cases (place x)))
      where
        go :
            ((place x ≡ true) ⊎ (place x ≡ false))
            → IsZone v' (if place x then n else indirect_of ino v x)
              × (is_used v' (if place x then n else indirect_of ino v x) ≡ true)
        go (inl y) = rw y (same_zones n zone, now_used)
        go (inr m) =
            let (z, u) = t.owned x l (λ q. d (grown x l ∙ rw m q)) in
            rw m (same_zones _ z, still_used _ z u)

    grown-IsApart : IsApart ino'.zone (peek v'.shorts)
    grown-IsApart x y l k d e = elim (Bool-cases (place x)) [
      | inl a ↦ elim (Bool-cases (place y)) [
        | inl b ↦ one_place x y a b
        | inr b ↦ absurd (not_indirect y k (sym (value x l a ∙ e ∙ other y k b) ∙ refl))
      ]
      | inr a ↦ elim (Bool-cases (place y)) [
        | inl b ↦ absurd (not_indirect x l (sym (other' x l a) ∙ e ∙ value' y k b))
        | inr b ↦
            t.apart x y l k (λ q. d (other' x l a ∙ q)) (sym (other' x l a) ∙ e ∙ other' y k b)
      ]
    ]
      where
        value' : (x : ℕ) → x < some_indirect → place x ≡ true → indirect_of ino' v' x ≡ n
        value' x l a = grown x l ∙ rw a refl

        other' :
            (x : ℕ)
            → x < some_indirect
            → place x ≡ false
            → indirect_of ino' v' x ≡ indirect_of ino v x
        other' x l a = grown x l ∙ rw a refl

        value : (x : ℕ) → x < some_indirect → place x ≡ true → n ≡ indirect_of ino' v' x
        value x l a = sym (value' x l a)

        other :
            (x : ℕ)
            → x < some_indirect
            → place x ≡ false
            → indirect_of ino' v' x ≡ indirect_of ino v x
        other = other'

    pub grown-IsStep :
        ((j : ℕ)
          → j < file_blocks
          → (block_of ino' v' j ≡ block_of ino v j) ⊎ ((slot j ≡ true) × (block_of ino v j ≡ 0)))
        → ((b : ℕ)
            → b ≢ n
            → ((x : ℕ) → x < some_indirect → indirect_of ino v x ≢ b)
            → v'.shorts b ≡ v.shorts b)
        → IsStep slot ino v ino' v'
    grown-IsStep looked shorts = record {
      tree = record { volume = volume; owned = grown-owned; apart = grown-IsApart };
      looked = looked;
      users_kept = users;
      first_kept = first;
      last_kept = last;
      used_kept = still_used;
      others = λ b z u apart. (
        shorts b (λ e. true_not_false (sym u ∙ ap (is_used v) e ∙ free)) apart,
        still_used b z u,
        λ x l. no_clash b u apart x l (Bool-cases (place x)),
      );
    }
      where
        no_clash :
            (b : ℕ)
            → is_used v b ≡ true
            → ((x : ℕ) → x < some_indirect → indirect_of ino v x ≢ b)
            → (x : ℕ) → x < some_indirect
            → ((place x ≡ true) ⊎ (place x ≡ false))
            → indirect_of ino' v' x ≢ b
        no_clash b u apart x l (inl a) e =
            true_not_false (sym u ∙ ap (is_used v) (sym e ∙ grown x l ∙ rw a refl) ∙ free)
        no_clash b u apart x l (inr a) e = apart x l (sym (grown x l ∙ rw a refl) ∙ e)
