-- ===== src/Fs/Table/Quiet.antt =====
-- fs/inode.c: iget, when no other task runs.
use linux.Prelude.{
  ◌^◌, ℕ, zero, suc, ◌+◌, ◌-◌, ◌<◌, ◌≡◌, ◌≢◌, refl, sym, ap, ◌∙◌, arith, inl, inr, true, false,
  ◌&&◌, ◌==◌, leb, if◌then◌else◌, Bool-cases, Option, none, some, List, ◌∷◌, update_self, update_ne,
}
use mathlib.Core.Path.{Path, ap₂, subst}
use linux.Fs.Buffer.{Run, done, panics}
use linux.Fs.Table.{
  Entry, Saved, Inodes, Waiting, nr_inode, set_entry, blank_entry, from_disk, read_inode,
  count_down, put_ready, iput,
}
use linux.Fs.Table.Unique.{plainly_named, named_entry-short}
use linux.Fs.Table.Calls.{
  clean, next_free, empty_entry, get_empty_inode, is_inode, find_inode, count_up, iget,
}

-- Nobody else runs.
abbrev pub IsAlone : Waiting → Type 0
IsAlone wait = (held : List ℕ) (i : ℕ) (s : Inodes) → wait held i s ≡ s

-- A free entry is found in a round of the table.
next_free_total :
    (k : ℕ) (s : Inodes) (n start : ℕ)
    → k < nr_inode
    → (s.table k).count ≡ 0
    → start < nr_inode
    → (if leb start k then k - start else k + 32 - start) < n
    → (i : ℕ) × (next_free n start s ≡ some i) × ((s.table i).count ≡ 0)
unfolding next_free
next_free_total k s zero start h free l d = absurd (none_below d)
  where
    none_below : {m : ℕ} → m < 0 → ⊥
    none_below l = omega arith
next_free_total k s (suc n) start h free l d = elim (Bool-cases ((s.table start).count == 0)) [
  | inl unused ↦ (start, rw (unused, next_free) refl, is_zero (s.table start).count unused)
  | inr busy ↦
      let (i, e, c) =
        next_free_total k s n (if leb nr_inode (suc start) then 0 else suc start) h free (round l) (
          nearer (λ q. used (s.table start).count busy (ap (λ (j : ℕ). (s.table j).count) q ∙ free))
            h l d) in
      (i, rw (busy, next_free) e, c)
]
  where
    is_zero : (m : ℕ) → (m == 0) ≡ true → m ≡ 0
    is_zero m e = ground arith

    used : (m : ℕ) → (m == 0) ≡ false → m ≢ 0
    used m e = ground arith

    round : start < 32 → (if leb 32 (suc start) then 0 else suc start) < 32
    round l = ground arith

    nearer :
        start ≢ k
        → k < 32
        → start < 32
        → (if leb start k then k - start else k + 32 - start) < suc n
        → (if leb (if leb 32 (suc start) then 0 else suc start) k
            then k - (if leb 32 (suc start) then 0 else suc start)
            else k + 32 - (if leb 32 (suc start) then 0 else suc start))
          < n
    nearer d h l r = ground arith

module _ (wait : Waiting) (alone : IsAlone wait) where
  get_empty_inode_total :
      (n k : ℕ) (held : List ℕ) (s : Inodes)
      → s.last < nr_inode
      → k < nr_inode
      → (s.table k).count ≡ 0
      → ((i : ℕ) → (s.table i).count ≡ 0 → (s.table i).core.dirt ≡ false)
      → (i : ℕ) × (get_empty_inode wait (2 + n) held s
          ≡ done (i, empty_entry i (record s { last = i })))
  unfolding get_empty_inode clean
  get_empty_inode_total n k held s l h free tidy =
      let (i, e, c) = next_free_total k s nr_inode s.last h free l (near h l) in
      (
        i,
        rw (two n, e, alone held i (record s { last = i }), tidy i c, c, get_empty_inode, clean)
            refl,
      )
    where
      near : k < 32 → s.last < 32 → (if leb s.last k then k - s.last else k + 32 - s.last) < 32
      near h l = ground arith

      two : (n : ℕ) → 2 + n ≡ suc (suc n)
      two n = omega arith

  find_inode_total :
      (held : List ℕ) (dev nr : ℕ) (s : Inodes) (n i : ℕ)
      → 32 - i < n
      → (found : Option ℕ) × (find_inode wait n held dev nr i s ≡ done (found, s))
        × ((j : ℕ) → found ≡ some j → is_inode dev nr (s.table j) ≡ true)
  unfolding find_inode
  find_inode_total held dev nr s zero i l = absurd (none_below l)
    where
      none_below : {m : ℕ} → m < 0 → ⊥
      none_below l = omega arith
  find_inode_total held dev nr s (suc n) i l = elim (Bool-cases (leb nr_inode i)) [
    | inl over ↦ (none, rw (over, find_inode) refl, λ j e. cc)
    | inr inside ↦ elim (Bool-cases (is_inode dev nr (s.table i))) [
      | inl same ↦ (
        some i,
        rw (inside, same, alone held i s, same, find_inode) refl,
        λ j e. subst (λ (k : ℕ). is_inode dev nr (s.table k) ≡ true) (the_one j e) same,
      )
      | inr other ↦
          let (found, e, f) = find_inode_total held dev nr s n (suc i) (less inside l) in
          (found, rw (inside, other, find_inode) e, f)
    ]
  ]
    where
      less : leb 32 i ≡ false → 32 - i < suc n → 32 - suc i < n
      less e l = ground arith

      the_one : (j : ℕ) → Path (Option ℕ) (some i) (some j) → i ≡ j
      the_one j q = cc

  put_reserved_total :
      (n : ℕ) (held : List ℕ) (now e : ℕ) (s : Inodes)
      → s.table e ≡ record blank_entry { count = 1 }
      → put_ready wait n held now e s ≡ done (count_down e s)
  put_reserved_total n held now e s q = rw (q, put_ready) refl

  found_total :
      (n : ℕ) (held : List ℕ) (now dev nr empty i : ℕ) (s : Inodes)
      → dev ≢ 0
      → s.table empty ≡ record blank_entry { count = 1 }
      → is_inode dev nr (s.table i) ≡ true
      → iput wait n held now empty (count_up i s) ≡ done (count_down empty (count_up i s))
  found_total n held now dev nr empty i s d q same =
      ap (put_ready wait n held now empty) (alone held empty (count_up i s))
      ∙ put_reserved_total n held now empty (count_up i s) (update_ne s.table _ apart ∙ q)
    where
      of_dev : (x y : ℕ) → (x == dev && y == nr) ≡ true → x ≡ dev
      of_dev x y e = ground arith

      apart : i ≢ empty
      apart p = d (
          sym (of_dev (s.table i).dev (s.table i).num same)
          ∙ ap (λ (j : ℕ). (s.table j).dev) p
          ∙ ap (λ (y : Entry). y.dev) q)

  missing_total :
      (held : List ℕ) (dev nr empty : ℕ) (s : Inodes) (d : Saved)
      → s.disk dev nr ≡ some d
      → (s' : Inodes) × (read_inode wait held empty (plainly_named dev nr empty s) ≡ done s')
  unfolding read_inode
  missing_total held dev nr empty s d e = (
    set_entry empty (from_disk d (u.table empty)) u,
    ap next (alone held empty u) ∙ ap (given u) there,
  )
    where
      u : Inodes
      u = plainly_named dev nr empty s

      itself : u.table empty ≡ record (s.table empty) { dev = dev; num = nr }
      itself = update_self s.table (record (s.table empty) { dev = dev; num = nr }) empty

      given : Inodes → Option Saved → Run Inodes
      given w o = elim o as (λ _. Run Inodes) [
        | none ↦ panics
        | some d ↦ done (set_entry empty (from_disk d (w.table empty)) w)
      ]

      next : Inodes → Run Inodes
      next w = given w (w.disk (w.table empty).dev (w.table empty).num)

      there : u.disk (u.table empty).dev (u.table empty).num ≡ some d
      there = ap₂ s.disk (ap (λ (y : Entry). y.dev) itself) (ap (λ (y : Entry). y.num) itself) ∙ e

-- For a device and a number below 2 ^ 16: when no other task runs, an entry is free, none of the
-- free ones is dirty, and the inode can be read, `iget` comes back after 33 rounds at most, without
-- panic.
pub iget_total :
    (wait : Waiting) (n k : ℕ) (held : List ℕ) (now dev nr : ℕ) (s : Inodes) (d : Saved)
    → IsAlone wait
    → dev ≢ 0
    → dev < 2 ^ 16
    → nr < 2 ^ 16
    → s.last < nr_inode
    → k < nr_inode
    → (s.table k).count ≡ 0
    → ((i : ℕ) → (s.table i).count ≡ 0 → (s.table i).core.dirt ≡ false)
    → s.disk dev nr ≡ some d
    → (r : ℕ × Inodes) × (iget wait (33 + n) held now dev nr s ≡ done r)
unfolding iget
iget_total wait n k held now dev nr s d alone nonzero dev_fits nr_fits l h free tidy readable =
    let (empty, e) = get_empty_inode_total wait alone (31 + n) k held s l h free tidy in
    let (found, f, same) =
      find_inode_total wait alone (empty ∷ held) dev nr (at empty) (33 + n) 0 (enough n) in
    outcome empty e found f same
  where
    at : ℕ → Inodes
    at i = empty_entry i (record s { last = i })

    enough : (n : ℕ) → 32 - 0 < 33 + n
    enough n = omega arith

    rounds : 2 + (31 + n) ≡ 33 + n
    rounds = omega arith

    not_zero : (dev == 0) ≡ false
    not_zero = ground (arith, nonzero)

    reserved : (i : ℕ) → (at i).table i ≡ record blank_entry { count = 1 }
    reserved i = update_self s.table (record blank_entry { count = 1 }) i

    outcome :
        (empty : ℕ)
        → get_empty_inode wait (2 + (31 + n)) held s ≡ done (empty, at empty)
        → (found : Option ℕ)
        → find_inode wait (33 + n) (empty ∷ held) dev nr 0 (at empty) ≡ done (found, at empty)
        → ((j : ℕ) → found ≡ some j → is_inode dev nr ((at empty).table j) ≡ true)
        → (r : ℕ × Inodes) × (iget wait (33 + n) held now dev nr s ≡ done r)
    outcome empty e (some i) f same = (
      (i, count_down empty (count_up i (at empty))),
      rw
          (
            not_zero,
            sym (ap (λ (m : ℕ). get_empty_inode wait m held s) rounds) ∙ e,
            f,
            found_total wait alone (33 + n) (i ∷ empty ∷ held) now dev nr empty i (at empty) nonzero
                (reserved empty) (same i refl),
            iget,
          )
          refl,
    )
    outcome empty e none f same =
        let (s', m) = missing_total wait alone (empty ∷ held) dev nr empty (at empty) d readable in
        (
          (empty, s'),
          rw
              (
                not_zero,
                sym (ap (λ (m : ℕ). get_empty_inode wait m held s) rounds) ∙ e,
                f,
                ap (read_inode wait (empty ∷ held) empty)
                      (named_entry-short dev nr empty (at empty) dev_fits nr_fits)
                    ∙ m,
                iget,
              )
              refl,
        )
