-- ===== src/Fs/Table/Search.antt =====
-- fs/inode.c: the loop of iget over the table.
use linux.Prelude.{
  ℕ, zero, suc, ◌<◌, ◌≡◌, refl, ap, ◌∙◌, arith, Bool, true, false, not, ◌||◌, ◌==◌, leb, Option,
  none, some, List, ◌∷◌,
}
use mathlib.Core.Path.{Path, subst}
use native.Mathlib.Decide.{ℕ_discrete}
use linux.Fs.Buffer.{done}
use linux.Fs.Truncate.Owned.{member}
use linux.Fs.Table.{Inodes, Waiting, nr_inode}
use linux.Fs.Table.Calls.{is_inode, find_inode}
use linux.Fs.Table.Unique.{IsTable, IsReserved, IsFair, Ends, if-Ends}

-- What the loop of `iget` gives: an entry of that inode, or that there is none.
abbrev pub IsMissing : (dev nr : ℕ) → Inodes → Type 0
IsMissing dev nr s = (j : ℕ) → j < nr_inode → is_inode dev nr (s.table j) ≡ false

abbrev pub IsSearched : (dev nr : ℕ) → (empty : ℕ) → Option ℕ × Inodes → Type 0
IsSearched dev nr empty r =
    IsTable r.1
    × IsReserved empty r.1
    × ((i : ℕ) → r.0 ≡ some i → (i < nr_inode) × (is_inode dev nr (r.1.table i) ≡ true))
    × (r.0 ≡ none → IsMissing dev nr r.1)

module _ (wait : Waiting) (fair : IsFair wait) (dev nr : ℕ) where
  pub find_inode-Ends :
      (n empty : ℕ) (held : List ℕ) (i : ℕ) (s : Inodes)
      → IsTable s
      → IsReserved empty s
      → ((j : ℕ) → j < i → is_inode dev nr (s.table j) ≡ false)
      → Ends (IsSearched dev nr empty) (find_inode wait n (empty ∷ held) dev nr i s)
  unfolding find_inode
  find_inode-Ends zero empty held i s t a passed = refl
  find_inode-Ends (suc n) empty held i s t a passed =
      if-Ends (IsSearched dev nr empty) (leb nr_inode i) (done (none, s)) _
        (λ over. (t, a, (λ j e. cc), λ _ j l. passed j (within over j l)))
        (λ inside.
          if-Ends (IsSearched dev nr empty) (not (is_inode dev nr (s.table i))) _ _
            (λ other.
              find_inode-Ends n empty held (suc i) s t a (λ j l. one_more (opposite _ other) j l))
            (λ same.
              if-Ends (IsSearched dev nr empty) (not (is_inode dev nr (s'.table i))) _ _
                (λ gone. find_inode-Ends n empty held 0 s' t' a' (λ j l. absurd (none_below j l)))
                (λ still. (t', a', (λ j e. (found inside still j e)), λ e. cc))))
    where
      s' : Inodes
      s' = wait (empty ∷ held) i s

      t' : IsTable s'
      t' = fair.sound (empty ∷ held) i s t

      itself : (b : ℕ) (p : Bool) → (b == b || p) ≡ true
      itself b p = ground arith

      a' : IsReserved empty s'
      a' = fair.alone (empty ∷ held) i s empty (itself empty (member empty held)) a

      within : leb nr_inode i ≡ true → (j : ℕ) → j < nr_inode → j < i
      within e j l = ground arith

      none_below : (j : ℕ) → j < 0 → ⊥
      none_below j l = omega arith

      opposite : (b : Bool) → not b ≡ true → b ≡ false
      opposite b e = ground arith

      opposite' : (b : Bool) → not b ≡ false → b ≡ true
      opposite' b e = ground arith

      one_more :
          is_inode dev nr (s.table i) ≡ false
          → (j : ℕ) → j < suc i
          → is_inode dev nr (s.table j) ≡ false
      one_more e j l = elim (ℕ_discrete j i) [
        | yes q ↦ ap (λ (k : ℕ). is_inode dev nr (s.table k)) q ∙ e
        | no d ↦ passed j (omega arith)
      ]

      in_range : leb nr_inode i ≡ false → i < nr_inode
      in_range e = ground arith

      the_one : (j : ℕ) → Path (Option ℕ) (some i) (some j) → i ≡ j
      the_one j q = cc

      found :
          leb nr_inode i ≡ false
          → not (is_inode dev nr (s'.table i)) ≡ false
          → (j : ℕ) → Path (Option ℕ) (some i) (some j)
          → (j < nr_inode) × (is_inode dev nr (s'.table j) ≡ true)
      found inside still j q =
          subst (λ (k : ℕ). (k < nr_inode) × (is_inode dev nr (s'.table k) ≡ true)) (the_one j q)
            (in_range inside, opposite' _ still)
