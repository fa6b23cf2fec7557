-- ===== src/Fs/Table/Empty.antt =====
-- fs/inode.c: get_empty_inode and sync_inodes, among other tasks.
use linux.Prelude.{
  ◌+◌, ◌≤◌, ℕ, zero, suc, ◌<◌, refl, ap, arith, inl, inr, not, ◌&&◌, ◌==◌, if◌then◌else◌,
  Option-cases, Option, none, some, List, update_self,
}
use linux.Fs.Buffer.{Run, done, panics, after}
use linux.Fs.Table.{Entry, Saved, Inodes, Waiting, nr_inode, saved_entry, write_inode}
use linux.Fs.Table.Calls.{clean, next_free, empty_entry, get_empty_inode, sync_inodes}
use linux.Fs.Table.Unique.{
  IsTable, IsReserved, IsFair, Ends, after-Ends, if-Ends, same-IsTable, none-IsTable, next_free-in,
}

-- What `get_empty_inode` gives.
abbrev pub IsEmptied : ℕ × Inodes → Type 0
IsEmptied r = (r.0 < nr_inode) × IsTable r.1 × IsReserved r.0 r.1

module _ (wait : Waiting) (fair : IsFair wait) where
  write_inode-Ends :
      (held : List ℕ) (i : ℕ) (s : Inodes)
      → i < nr_inode
      → IsTable s
      → Ends IsTable (write_inode wait held i s)
  unfolding write_inode
  write_inode-Ends held i s l t =
      go ((wait held i s).disk ((wait held i s).table i).dev ((wait held i s).table i).num)
    where
      kept : IsTable (saved_entry i (wait held i s))
      kept = record {
        unique = (same-IsTable i _ (wait held i s) l (fair.sound held i s t) refl refl).unique;
        last_in = (fair.sound held i s t).last_in;
      }

      go :
          (o : Option Saved)
          → Ends IsTable (elim o as (λ _. Run Inodes) [
            | none ↦ panics
            | some d ↦ done (saved_entry i (wait held i s))
          ])
      go none = refl
      go (some d) = kept

  clean-Ends :
      (n : ℕ) (held : List ℕ) (i : ℕ) (s : Inodes)
      → i < nr_inode
      → IsTable s
      → Ends IsTable (clean wait n held i s)
  unfolding clean
  clean-Ends zero held i s l t = refl
  clean-Ends (suc n) held i s l t =
      if-Ends IsTable ((s.table i).core.dirt) _ (done s)
        (λ _.
          after-Ends IsTable IsTable (write_inode wait held i s) _ (write_inode-Ends held i s l t)
            (λ s' t'. clean-Ends n held i (wait held i s') l (fair.sound held i s' t')))
        (λ _. t)

  -- The entry that `get_empty_inode` gives is reserved.
  pub get_empty_inode-Ends :
      (n : ℕ) (held : List ℕ) (s : Inodes)
      → IsTable s
      → Ends IsEmptied (get_empty_inode wait n held s)
  unfolding get_empty_inode
  get_empty_inode-Ends zero held s t = refl
  get_empty_inode-Ends (suc n) held s t = elim (Option-cases (next_free nr_inode s.last s)) [
    | inl full ↦ rw (full, get_empty_inode) refl
    | inr (i, e) ↦
        rw (e, get_empty_inode)
          (one (λ s' t'. get_empty_inode-Ends n held s' t') i
            (next_free-in nr_inode s.last s i t.last_in e))
  ]
    where
      one :
          ((s' : Inodes) → IsTable s' → Ends IsEmptied (get_empty_inode wait n held s'))
          → (i : ℕ) → i < nr_inode
          → Ends IsEmptied (
              after (clean wait n held i (wait held i (record s { last = i }))) (λ s'.
                let again : Run (ℕ × Inodes) = get_empty_inode wait n held s' in
                if (s'.table i).count == 0 then done (i, empty_entry i s') else again))
      one rest i l =
          after-Ends IsTable IsEmptied (clean wait n held i (wait held i (record s { last = i }))) _
            (clean-Ends n held i _ l (
              fair.sound held i (record s { last = i })
                (record { unique = t.unique; last_in = l })))
            (λ s' t'.
              if-Ends IsEmptied ((s'.table i).count == 0) (done (i, empty_entry i s'))
                (get_empty_inode wait n held s')
                (λ _. (
                  l,
                  none-IsTable i _ s' t' refl,
                  (
                    ap (λ (e : Entry). e.dev) (update_self s'.table _ i),
                    ap (λ (e : Entry). e.count) (update_self s'.table _ i),
                  ),
                ))
                (λ _. rest s' t'))

  -- `sync_inodes` keeps the table.
  sync_inodes-Ends :
      (n : ℕ) (held : List ℕ) (i : ℕ) (s : Inodes)
      → n + i ≤ nr_inode
      → IsTable s
      → Ends IsTable (sync_inodes wait n held i s)
  unfolding sync_inodes
  sync_inodes-Ends zero held i s l t = t
  sync_inodes-Ends (suc n) held i s l t =
      let s' : Inodes = wait held i s in
      let t' : IsTable s' = fair.sound held i s t in
      after-Ends IsTable IsTable
        (if (s'.table i).core.dirt && not (s'.table i).pipe
          then write_inode wait held i s'
          else done s')
        _
        (if-Ends IsTable ((s'.table i).core.dirt && not (s'.table i).pipe)
          (write_inode wait held i s') (done s') (λ _. write_inode-Ends held i s' (omega arith) t')
          (λ _. t'))
        (λ w v. sync_inodes-Ends n held (suc i) w (omega arith) v)
