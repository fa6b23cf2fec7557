-- ===== src/Fs/Inode/Create.antt =====
-- fs/inode.c: bmap and create_block on a whole file.
use linux.Prelude.{
  none, ◌⊎◌, ℕ, suc, ◌+◌, ◌-◌, ◌/◌, ◌%◌, ◌<◌, ◌≡◌, ◌≢◌, refl, sym, ap, arith, inl, inr, false, ◌==◌,
  ltb, lt→ltb, Bool-cases, Option-cases, ok,
}
use linux.Fs.Volume.{Volume}
use linux.Fs.Inode.{Inode, get_zone, get_entry, get_indirect, map_block, bmap}
use linux.Fs.Inode.Slots.{some_indirect, peek, file_blocks}
use linux.Fs.Inode.Grow.{indirect_of, block_of, IsStep, IsFull, release-hold}

-- `get_indirect` without `create` reads the entry.
get_indirect-reads : (i b : ℕ) (v : Volume) → get_indirect false i b v ≡ ok (peek v.shorts b i, v)
unfolding get_indirect get_entry
get_indirect-reads i b v = elim (Bool-cases (b == 0)) [
  | inl none_there ↦ rw (none_there, get_indirect, peek) refl
  | inr there ↦ elim (Option-cases (v.shorts b)) [
    | inl unread ↦ rw (there, unread, get_indirect, get_entry, peek) refl
    | inr (f, read) ↦
        rw (there, read, get_indirect, get_entry, peek)
          (ap (λ (u : ℕ → ℕ). ok (f i, record v { users = u })) (release-hold b v.users))
  ]
]

-- The double indirect block names the indirect blocks from 2 on.
named :
    (ino : Inode) (v : Volume) (a : ℕ) → indirect_of ino v (2 + a) ≡ peek v.shorts (ino.zone 8) a
named ino v a = ap (indirect_of ino v) (add_two a)
  where
    add_two : (a : ℕ) → 2 + a ≡ suc (suc a)
    add_two a = omega arith

-- `bmap` reads the map from the blocks of a file to those of the device, and changes nothing.
pub bmap_lem :
    (now k : ℕ) (ino : Inode) (v : Volume)
    → k < file_blocks
    → bmap now k ino v ≡ ok (block_of ino v k, ino, v)
unfolding map_block get_zone
bmap_lem now k ino v l = elim (Bool-cases (ltb k 7)) [
  | inl direct ↦ rw (lt→ltb k file_blocks l, direct, map_block) refl
  | inr beyond ↦ elim (Bool-cases (ltb (k - 7) 512)) [
    | inl single ↦
        rw (lt→ltb k file_blocks l, beyond, single, map_block)
          (rw (get_indirect-reads (k - 7) (ino.zone 7) v) refl)
    | inr double ↦
        rw (lt→ltb k file_blocks l, beyond, double, map_block)
          (rw (get_indirect-reads a (ino.zone 8) v) (
            rw (get_indirect-reads ((k - 519) % 512) (peek v.shorts (ino.zone 8) a) v) (
              ap (λ (b : ℕ). ok (peek v.shorts b ((k - 519) % 512), ino, v))
                (sym (named ino v a)))))
  ]
]
  where
    a : ℕ
    a = (k - 519) / 512

-- One of the indirect blocks cannot be read.
abbrev pub IsUnreadable : Inode → Volume → Type 0
IsUnreadable ino v =
    (x : ℕ) × (x < some_indirect)
    × (indirect_of ino v x ≢ 0)
    × (v.shorts (indirect_of ino v x) ≡ none)

-- What `create_block` gives: the block that then stands at `k`, and a step there.
abbrev pub IsCreated : (k : ℕ) → Inode → Volume → ℕ → Inode → Volume → Type 0
IsCreated k ino v n ino' v' =
    IsStep (λ j. j == k) ino v ino' v'
    × (n ≡ block_of ino' v' k)
    × ((n ≢ 0) ⊎ IsFull v' ⊎ IsUnreadable ino' v')
