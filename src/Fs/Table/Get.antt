-- ===== src/Fs/Table/Get.antt =====
-- fs/inode.c: iget, among other tasks.
use linux.Prelude.{
  ◌^◌, ℕ, ◌<◌, ◌≡◌, ◌≢◌, refl, sym, ap, ◌∙◌, arith, Bool, true, false, ◌&&◌, ◌||◌, ◌==◌, ltb,
  if◌then◌else◌, Option, none, some, List, ◌∷◌, update, update_self, update_ne,
}
use mathlib.Core.Path.{Path, subst}
use native.Mathlib.Decide.{ℕ_discrete}
use linux.Fs.Buffer.{Run, done, panics, after}
use linux.Fs.Truncate.Owned.{member}
use linux.Fs.Table.{
  Entry, Saved, Inodes, Waiting, nr_inode, set_entry, from_disk, read_inode, count_down, put_pipe,
  put_ready, iput,
}
use linux.Fs.Table.Calls.{get_empty_inode, is_inode, find_inode, count_up, named_entry, iget}
use linux.Fs.Table.Unique.{
  plainly_named, named_entry-short, IsTable, IsReserved, IsFair, Ends, after-Ends, if-Ends,
  set_entry-IsTable, same-IsTable, IsGot,
}
use linux.Fs.Table.Empty.{IsEmptied, get_empty_inode-Ends}
use linux.Fs.Table.Search.{IsMissing, IsSearched, find_inode-Ends}

module _ (wait : Waiting) (fair : IsFair wait) where
  module _ (dev nr : ℕ) where
    set_other-IsGot :
        (i e : ℕ) (x : Entry) (s : Inodes)
        → e < nr_inode
        → e ≢ i
        → x.dev ≡ (s.table e).dev
        → x.num ≡ (s.table e).num
        → IsGot dev nr (i, s)
        → IsGot dev nr (i, set_entry e x s)
    set_other-IsGot i e x s l d p q (in_i, t, f, g) = (
      in_i,
      same-IsTable e x s l t p q,
      ap (λ (y : Entry). y.dev) (update_ne s.table x d) ∙ f,
      ap (λ (y : Entry). y.num) (update_ne s.table x d) ∙ g,
    )

    -- The reserved entry is given back.
    put_reserved-Ends :
        (n : ℕ) (held : List ℕ) (now i e : ℕ) (s : Inodes)
        → e < nr_inode
        → e ≢ i
        → IsReserved e s
        → IsGot dev nr (i, s)
        → Ends (λ s'. IsGot dev nr (i, s')) (put_ready wait n held now e s)
    put_reserved-Ends n held now i e s l d (no_dev, one) g =
        if-Ends P ((s.table e).count == 0) panics _ (λ _. refl)
          (λ _.
            if-Ends P (s.table e).pipe (done (put_pipe e s)) _ (λ _. piped ((s.table e).count == 1))
              (λ _.
                if-Ends P ((s.table e).dev == 0 || ltb 1 (s.table e).count) (done (count_down e s))
                  _ (λ _. down) (λ f. absurd (true_not_false (sym (reserved _ _ no_dev) ∙ f)))))
      where
        P : Inodes → Type 0
        P s' = IsGot dev nr (i, s')

        true_not_false : true ≢ false
        true_not_false e = cc

        reserved : (a b : ℕ) → a ≡ 0 → (a == 0 || ltb 1 b) ≡ true
        reserved a b e = ground arith

        down : IsGot dev nr (i, count_down e s)
        down = set_other-IsGot i e _ s l d refl refl g

        ended : Entry
        ended = record (s.table e) {
          core = record (s.table e).core { dirt = false };
          count = 0;
          pipe = false;
        }

        closed : IsGot dev nr (i, set_entry e ended s)
        closed = set_other-IsGot i e ended s l d refl refl g

        piped :
            (c : Bool)
            → IsGot dev nr (
              i,
              if c
                  then record s {
                    table = update s.table e ended;
                    freed_pages = (s.table e).core.size ∷ s.freed_pages;
                  }
                  else count_down e s,
            )
        piped true = (
          closed.0,
          record { unique = closed.1.unique; last_in = closed.1.last_in },
          closed.2,
          closed.3,
        )
        piped false = down

    module _ (nonzero : dev ≢ 0) where
      -- An entry of the inode was there.
      found-Ends :
          (n : ℕ) (held : List ℕ) (now empty i : ℕ) (s : Inodes)
          → empty < nr_inode
          → i < nr_inode
          → IsTable s
          → IsReserved empty s
          → is_inode dev nr (s.table i) ≡ true
          → Ends
              (λ s'. IsGot dev nr (i, s'))
              (iput wait n (i ∷ empty ∷ held) now empty (count_up i s))
      found-Ends n held now empty i s in_empty in_i t a same =
          put_reserved-Ends n (i ∷ empty ∷ held) now i empty w in_empty apart a' got
        where
          u : Inodes
          u = count_up i s

          w : Inodes
          w = wait (i ∷ empty ∷ held) empty u

          of_dev : (x y : ℕ) → (x == dev && y == nr) ≡ true → x ≡ dev
          of_dev x y e = ground arith

          of_num : (x y : ℕ) → (x == dev && y == nr) ≡ true → y ≡ nr
          of_num x y e = ground arith

          apart : empty ≢ i
          apart q = nonzero (
              sym (of_dev (s.table i).dev (s.table i).num same)
              ∙ ap (λ (j : ℕ). (s.table j).dev) (sym q)
              ∙ a.0)

          first : (p : Bool) → (i == i || p) ≡ true
          first p = ground arith

          second : (p : Bool) → (empty == i || (empty == empty || p)) ≡ true
          second p = ground arith

          counted : IsTable u
          counted = same-IsTable i _ s in_i t refl refl

          reserved : IsReserved empty u
          reserved = (
            ap (λ (y : Entry). y.dev) (update_ne s.table _ (λ q. apart (sym q))) ∙ a.0,
            ap (λ (y : Entry). y.count) (update_ne s.table _ (λ q. apart (sym q))) ∙ a.1,
          )

          a' : IsReserved empty w
          a' = fair.alone (i ∷ empty ∷ held) empty u empty (second (member empty held)) reserved

          there : ((w.table i).dev ≡ (u.table i).dev) × ((w.table i).num ≡ (u.table i).num)
          there = fair.kept (i ∷ empty ∷ held) empty u i (first (member i (empty ∷ held)))

          got : IsGot dev nr (i, w)
          got = (
            in_i,
            fair.sound (i ∷ empty ∷ held) empty u counted,
            there.0
                ∙ ap (λ (y : Entry). y.dev) (update_self s.table _ i)
                ∙ of_dev (s.table i).dev (s.table i).num same,
            there.1
                ∙ ap (λ (y : Entry). y.num) (update_self s.table _ i)
                ∙ of_num (s.table i).dev (s.table i).num same,
          )

      -- There was none, and the reserved entry is read from the disk.
      missing-Ends :
          (held : List ℕ) (empty : ℕ) (s : Inodes)
          → empty < nr_inode
          → IsTable s
          → IsMissing dev nr s
          → Ends
              (λ s'. IsGot dev nr (empty, s'))
              (read_inode wait (empty ∷ held) empty (plainly_named dev nr empty s))
      unfolding read_inode
      missing-Ends held empty s in_empty t missing =
          go (w.disk (w.table empty).dev (w.table empty).num)
        where
          u : Inodes
          u = plainly_named dev nr empty s

          w : Inodes
          w = wait (empty ∷ held) empty u

          clash : (x y : ℕ) → (x == dev && y == nr) ≡ false → dev ≡ x → nr ≢ y
          clash x y e p q = ground arith

          named : IsTable u
          named =
              set_entry-IsTable empty _ s t
                (λ j l d z p. clash (s.table j).dev (s.table j).num (missing j l) p)

          sound : IsTable w
          sound = fair.sound (empty ∷ held) empty u named

          first : (p : Bool) → (empty == empty || p) ≡ true
          first p = ground arith

          there :
              ((w.table empty).dev ≡ (u.table empty).dev)
              × ((w.table empty).num ≡ (u.table empty).num)
          there = fair.kept (empty ∷ held) empty u empty (first (member empty held))

          go :
              (o : Option Saved)
              → Ends
                  (λ s'. IsGot dev nr (empty, s'))
                  (elim o as (λ _. Run Inodes) [
                    | none ↦ panics
                    | some d ↦ done (set_entry empty (from_disk d (w.table empty)) w)
                  ])
          go none = refl
          go (some d) = (
            in_empty,
            same-IsTable empty _ w in_empty sound refl refl,
            ap (λ (y : Entry). y.dev) (update_self w.table _ empty)
                ∙ there.0
                ∙ ap (λ (y : Entry). y.dev) (update_self s.table _ empty),
            ap (λ (y : Entry). y.num) (update_self w.table _ empty)
                ∙ there.1
                ∙ ap (λ (y : Entry). y.num) (update_self s.table _ empty),
          )

      iget-Ends :
          (n : ℕ) (held : List ℕ) (now : ℕ) (s : Inodes)
          → dev < 2 ^ 16
          → nr < 2 ^ 16
          → IsTable s
          → Ends (IsGot dev nr) (iget wait n held now dev nr s)
      unfolding iget
      iget-Ends n held now s dev_fits nr_fits t =
          if-Ends (IsGot dev nr) (dev == 0) panics _ (λ _. refl)
            (λ _.
              after-Ends IsEmptied (IsGot dev nr) (get_empty_inode wait n held s) _
                (get_empty_inode-Ends wait fair n held s t)
                (λ r p.
                  after-Ends (IsSearched dev nr r.0) (IsGot dev nr)
                    (find_inode wait n (r.0 ∷ held) dev nr 0 r.1) _
                    (find_inode-Ends wait fair dev nr n r.0 held 0 r.1 p.1 p.2
                      (λ j l. absurd (none_below j l)))
                    (λ found q. outcome r.0 p.0 found.0 found.1 q)))
        where
          none_below : (j : ℕ) → j < 0 → ⊥
          none_below j l = omega arith

          outcome :
              (empty : ℕ)
              → empty < nr_inode
              → (found : Option ℕ) (s : Inodes) → IsSearched dev nr empty (found, s)
              → Ends (IsGot dev nr) (elim found as (λ _. Run (ℕ × Inodes)) [
                | some i ↦
                    after
                      (iput wait n (i ∷ empty ∷ held) now empty (count_up i s))
                      (λ s₃. done (i, s₃))
                | none ↦
                    after
                      (read_inode wait (empty ∷ held) empty (named_entry dev nr empty s))
                      (λ s₃. done (empty, s₃))
              ])
          outcome empty l (some i) s (t, a, f, m) =
              after-Ends (λ s'. IsGot dev nr (i, s')) (IsGot dev nr)
                (iput wait n (i ∷ empty ∷ held) now empty (count_up i s)) _
                (found-Ends n held now empty i s l (f i refl).0 t a (f i refl).1) (λ s' g. g)
          outcome empty l none s (t, a, f, m) =
              after-Ends (λ s'. IsGot dev nr (empty, s')) (IsGot dev nr)
                (read_inode wait (empty ∷ held) empty (named_entry dev nr empty s)) _
                (subst
                  (λ (u : Inodes).
                    Ends (λ s'. IsGot dev nr (empty, s')) (read_inode wait (empty ∷ held) empty u))
                  (sym (named_entry-short dev nr empty s dev_fits nr_fits))
                  (missing-Ends held empty s l t (m refl)))
                (λ s' g. g)

-- For a device and a number below 2 ^ 16: when `iget` comes back, after however many rounds and
-- whatever other tasks did to the table while it waited, short of putting an inode there twice or
-- changing which inodes its own references stand for: the entry it gives stands for the inode asked
-- for, and no inode is twice in the table.
pub iget-IsGot :
    (wait : Waiting) (n : ℕ) (held : List ℕ) (now dev nr : ℕ) (s : Inodes) (r : ℕ × Inodes)
    → IsFair wait
    → dev < 2 ^ 16
    → nr < 2 ^ 16
    → IsTable s
    → iget wait n held now dev nr s ≡ done r
    → IsGot dev nr r
unfolding iget
iget-IsGot wait n held now dev nr s r fair dev_fits nr_fits t e = elim (ℕ_discrete dev 0) [
  | yes z ↦ absurd (stopped (rw (nothing z, iget) refl))
  | no d ↦
      subst (λ (x : Run (ℕ × Inodes)). Ends (IsGot dev nr) x) e
        (iget-Ends wait fair dev nr d n held now s dev_fits nr_fits t)
]
  where
    nothing : dev ≡ 0 → (dev == 0) ≡ true
    nothing z = ground arith

    stopped : iget wait n held now dev nr s ≡ panics → ⊥
    stopped q = clash (sym q ∙ e)
      where
        clash : Path (Run (ℕ × Inodes)) panics (done r) → ⊥
        clash p = cc
