-- ===== src/Fs/Table/Last.antt =====
-- fs/inode.c: iput of the last reference to a file that has no name left.
use linux.Prelude.{
  ℕ, suc, ◌+◌, ◌*◌, ◌/◌, ◌%◌, ◌<◌, ◌≤◌, ◌≡◌, ◌≢◌, refl, sym, ap, ◌∙◌, arith, true, false, ◌||◌,
  ◌==◌, ltb, if◌then◌else◌, Option, some, List, ok, update, update_self,
}
use linux.Fs.Buffer.{done}
use linux.Fs.Volume.{MapBlock, Volume, map_bit, unmark, drop_inode}
use linux.Fs.Volume.Zones.{map_used, IsZone, is_used, IsVolume, map_used-unmark}
use linux.Fs.Volume.Alloc.{bit-map_used}
use linux.Fs.Truncate.{truncate, has_blocks, emptied}
use linux.Fs.Truncate.Owned.{member, IsOwned}
use linux.Fs.Truncate.Whole.{blocks, truncate-Frees}
use linux.Fs.Table.{
  Entry, Inodes, Waiting, blank_entry, set_entry, free_inode, truncate_entry, put_last, put_ready,
  iput,
}

-- The bit of the inode is cleared, and no other.
pub drop_inode_lem :
    (num : ℕ) (v : Volume) (m : MapBlock)
    → 1 ≤ num
    → num ≤ v.ninodes
    → v.imap (num / 8192) ≡ some m
    → map_used v.imap num ≡ true
    → (maps : ℕ → Option MapBlock) × (drop_inode num v ≡ ok (record v { imap = maps }))
      × ((z : ℕ) → map_used maps z ≡ (if num == z then false else map_used v.imap z))
unfolding drop_inode
drop_inode_lem num v m low high there used = (
  unmark (num / 8192) (num % 8192) m v.imap,
  rw (in_range low high, there, bit, drop_inode) refl,
  λ z.
      map_used-unmark v.imap (num / 8192) (num % 8192) m there (in_map num) z
      ∙ ap (λ (n : ℕ). if n == z then false else map_used v.imap z) (split num),
)
  where
    in_range : 1 ≤ num → num ≤ v.ninodes → (ltb num 1 || ltb v.ninodes num) ≡ false
    in_range l h = ground arith

    bit : map_bit m.words (num % 8192) ≡ true
    bit = sym (bit-map_used v.imap num (num / 8192) (num % 8192) m there refl refl) ∙ used

    in_map : (k : ℕ) → k % 8192 < 8192
    in_map k = omega arith

    split : (k : ℕ) → k % 8192 + k / 8192 * 8192 ≡ k
    split k = omega arith

-- An inode with one reference, no name, its blocks and its number in use.
pub record IsUnlinked (e : Entry) (v : Volume) : Type 0 where
  pub volume : IsVolume v
  pub one : e.count ≡ 1
  pub no_pipe : e.pipe ≡ false
  pub some_dev : e.dev ≢ 0
  pub no_name : e.nlinks ≡ 0
  pub kind : has_blocks e.core.mode ≡ true
  pub owned : IsOwned v (blocks e.core v)
  pub low : 1 ≤ e.num
  pub high : e.num ≤ v.ninodes
  pub mapped : (m : MapBlock) × (v.imap (e.num / 8192) ≡ some m)
  pub numbered : map_used v.imap e.num ≡ true

free_inode_lem :
    (i : ℕ) (s : Inodes) (v v' : Volume)
    → (s.table i).dev ≢ 0
    → (s.table i).count ≡ 1
    → (s.table i).nlinks ≡ 0
    → s.volumes (s.table i).dev ≡ some v
    → drop_inode (s.table i).num v ≡ ok v'
    → free_inode i s
      ≡ done (
          set_entry i blank_entry
            (record s { volumes = update s.volumes (s.table i).dev (some v') }))
unfolding free_inode
free_inode_lem i s v v' d one no_name there q =
    rw (not_zero d, one, no_name, there, q, free_inode) refl
  where
    not_zero : {m : ℕ} → m ≢ 0 → (m == 0) ≡ false
    not_zero d = ground arith

module _ (now i : ℕ) (s : Inodes) (v v₁ v₂ : Volume)
    (there : s.volumes (s.table i).dev ≡ some v) where
  abbrev e : Entry
  e = s.table i

  abbrev cut : Inodes
  cut =
      set_entry i (record e { core = emptied now e.core })
        (record s { volumes = update s.volumes e.dev (some v₁) })

  abbrev gone : Inodes
  gone =
      set_entry i blank_entry
        (record cut { volumes = update cut.volumes (cut.table i).dev (some v₂) })

  truncated :
      truncate now e.core v ≡ ok (emptied now e.core, v₁) → truncate_entry now i s ≡ done cut
  unfolding truncate_entry
  truncated t = rw (there, t, truncate_entry) refl

  field {ℓ} :
      {A : Type ℓ} (f : Entry → A) → f (cut.table i) ≡ f (record e { core = emptied now e.core })
  field f = ap f (update_self s.table (record e { core = emptied now e.core }) i)

  freed :
      e.count ≡ 1
      → e.dev ≢ 0
      → e.nlinks ≡ 0
      → drop_inode e.num v₁ ≡ ok v₂
      → free_inode i cut ≡ done gone
  freed one d no_name q =
      free_inode_lem i cut v₁ v₂ (λ z. d (sym (field (λ x. x.dev)) ∙ z))
        (field (λ x. x.count) ∙ one) (field (λ x. x.nlinks) ∙ no_name)
        (ap cut.volumes (field (λ x. x.dev)) ∙ update_self s.volumes (some v₁) e.dev)
        (ap (λ (n : ℕ). drop_inode n v₁) (field (λ x. x.num)) ∙ q)

  gone-blank : gone.table i ≡ blank_entry
  gone-blank = update_self cut.table blank_entry i

  gone-volume : gone.volumes e.dev ≡ some v₂
  gone-volume =
      ap (update cut.volumes (cut.table i).dev (some v₂)) (sym (field (λ x. x.dev)))
      ∙ update_self cut.volumes (some v₂) (cut.table i).dev

-- `iput` of the last reference to an inode of an ordinary file or a directory without a name, whose
-- blocks and number are in use, when the wait for it is over: it does not panic, the entry is
-- cleared, on the device exactly the blocks of the file (the indirect ones included) and the number
-- of the inode become free, and no user of a buffer comes or goes.
pub iput-unlinked :
    (wait : Waiting) (n : ℕ) (held : List ℕ) (now i : ℕ) (s w : Inodes) (v : Volume)
    → wait held i s ≡ w
    → w.volumes (w.table i).dev ≡ some v
    → IsUnlinked (w.table i) v
    → (s' : Inodes) × (v' : Volume) × (iput wait (suc n) held now i s ≡ done s')
      × (s'.table i ≡ blank_entry)
      × (s'.volumes (w.table i).dev ≡ some v')
      × ((b : ℕ)
          → IsZone v b
          → is_used v' b ≡ (if member b (blocks (w.table i).core v) then false else is_used v b))
      × ((z : ℕ) → map_used v'.imap z ≡ (if (w.table i).num == z then false else map_used v.imap z))
      × (v'.users ≡ v.users)
unfolding put_last
iput-unlinked wait n held now i s w v waited there u =
    let (v₁, t, d) = truncate-Frees now (w.table i).core v u.volume u.kind u.owned in
    let (m, mapped) = u.mapped in
    let (maps, q, numbers) =
      drop_inode_lem (w.table i).num v₁ m u.low (omega (arith, u.high, d.numbers_kept))
        (ap (λ (f : ℕ → Option MapBlock). f ((w.table i).num / 8192)) d.imap_kept ∙ mapped)
        (ap (λ (f : ℕ → Option MapBlock). map_used f (w.table i).num) d.imap_kept ∙ u.numbered) in
    (
      gone now i w v v₁ (record v₁ { imap = maps }) there,
      record v₁ { imap = maps },
      ap (put_ready wait (suc n) held now i) waited
          ∙ ready (truncated now i w v v₁ (record v₁ { imap = maps }) there t)
              (freed now i w v v₁ (record v₁ { imap = maps }) there u.one u.some_dev u.no_name q),
      gone-blank now i w v v₁ (record v₁ { imap = maps }) there,
      gone-volume now i w v v₁ (record v₁ { imap = maps }) there,
      d.unused,
      λ z.
          numbers z
          ∙ ap (λ (f : ℕ → Option MapBlock). if (w.table i).num == z then false else map_used f z)
              d.imap_kept,
      d.users_kept,
    )
  where
    not_zero :
        (w.table i).dev ≢ 0
        → (w.table i).count ≡ 1
        → ((w.table i).dev == 0 || ltb 1 (w.table i).count) ≡ false
    not_zero d e = ground arith

    ready :
        {cut gone : Inodes}
        → truncate_entry now i w ≡ done cut
        → free_inode i cut ≡ done gone
        → put_ready wait (suc n) held now i w ≡ done gone
    ready p q =
        rw
          (
            not_zero u.some_dev u.one,
            some_count u.one,
            u.no_pipe,
            u.no_name,
            p,
            put_ready,
            put_last,
          )
          q
      where
        some_count : (w.table i).count ≡ 1 → ((w.table i).count == 0) ≡ false
        some_count e = ground arith
