-- ===== src/Fs/Table/Calls.antt =====
-- fs/inode.c: get_empty_inode, get_pipe_inode, iget and sync_inodes; fs/bitmap.c: new_inode.
use linux.Prelude.{
  ℕ, zero, suc, ◌+◌, ◌%◌, ◌^◌, Bool, true, not, ◌&&◌, ◌==◌, ltb, leb, if◌then◌else◌, update, Option,
  none, some, List, ◌∷◌,
}
use linux.Fs.Buffer.{Run, done, panics, unfinished, after}
use linux.Fs.Volume.{take_inode}
use linux.Fs.Table.{
  Entry, Inodes, Waiting, blank_entry, from_result, iput, nr_inode, read_inode, set_entry,
  write_inode,
}

-- The inner loop of `get_empty_inode`, over at most `n` entries round the table from `inr` on.
unfoldable pub next_free : (n : ℕ) → (inr : ℕ) → Inodes → Option ℕ
next_free zero inr s = none
next_free (suc n) inr s =
    let rest = next_free n (if leb nr_inode (suc inr) then 0 else suc inr) s in
    if (s.table inr).count == 0 then some inr else rest

-- `while (inode->i_dirt)`
unfoldable pub clean : Waiting → (n : ℕ) → (held : List ℕ) → (i : ℕ) → Inodes → Run Inodes
clean wait zero held i s = unfinished
clean wait (suc n) held i s =
    let again : Run Inodes =
      after (write_inode wait held i s) (λ s'. clean wait n held i (wait held i s')) in
    if (s.table i).core.dirt then again else done s

-- The entry cleared, with one reference.
abbrev pub empty_entry : (i : ℕ) → Inodes → Inodes
empty_entry i s = set_entry i (record blank_entry { count = 1 }) s

unfoldable pub get_empty_inode : Waiting → (n : ℕ) → (held : List ℕ) → Inodes → Run (ℕ × Inodes)
get_empty_inode wait zero held s = unfinished
get_empty_inode wait (suc n) held s = elim (next_free nr_inode s.last s) [
  | none ↦ panics
  | some inr ↦ after (clean wait n held inr (wait held inr (record s { last = inr }))) (λ s'.
      let again : Run (ℕ × Inodes) = get_empty_inode wait n held s' in
      if (s'.table inr).count == 0 then done (inr, empty_entry inr s') else again)
]

abbrev pub is_inode : (dev nr : ℕ) → Entry → Bool
is_inode dev nr e = e.dev == dev && e.num == nr

abbrev pub count_up : (i : ℕ) → Inodes → Inodes
count_up i s = set_entry i (record (s.table i) { count = ((s.table i).count + 1) % 2 ^ 16 }) s

-- The loop of `iget`, from entry `i` on: the entry found, or nothing.
unfoldable pub find_inode :
    Waiting → (n : ℕ) → (held : List ℕ) → (dev nr : ℕ) → (i : ℕ) → Inodes → Run (Option ℕ × Inodes)
find_inode wait zero held dev nr i s = unfinished
find_inode wait (suc n) held dev nr i s =
    let s' : Inodes = wait held i s in
    let next : Run (Option ℕ × Inodes) = find_inode wait n held dev nr (suc i) s in
    let restart : Run (Option ℕ × Inodes) = find_inode wait n held dev nr 0 s' in
    if leb nr_inode i
    then done (none, s)
    else if not (is_inode dev nr (s.table i))
    then next
    else if not (is_inode dev nr (s'.table i))
    then restart
    else done (some i, s')

-- `inode=empty` and the lines after it; the two fields are unsigned shorts.
abbrev pub named_entry : (dev nr : ℕ) → (i : ℕ) → Inodes → Inodes
named_entry dev nr i s =
    set_entry i (record (s.table i) { dev = dev % 2 ^ 16; num = nr % 2 ^ 16 }) s

unfoldable pub iget :
    Waiting → (n : ℕ) → (held : List ℕ) → (now : ℕ) → (dev nr : ℕ) → Inodes → Run (ℕ × Inodes)
iget wait n held now dev nr s =
    if dev == 0
    then panics
    else after (get_empty_inode wait n held s) (λ (empty, s₁).
      after (find_inode wait n (empty ∷ held) dev nr 0 s₁) (λ (found, s₂). elim found [
        | some i ↦
            after (iput wait n (i ∷ empty ∷ held) now empty (count_up i s₂)) (λ s₃. done (i, s₃))
        | none ↦
            after (read_inode wait (empty ∷ held) empty (named_entry dev nr empty s₂))
              (λ s₃. done (empty, s₃))
      ]))

abbrev pub pipe_entry : (page : ℕ) → Entry → Entry
pipe_entry page e = record e {
  core = record e.core { size = page; zone = λ k. if ltb k 4 then 0 else e.core.zone k };
  count = 2;
  pipe = true;
}

-- `page` is what `get_free_page` gives. The two words of the head and the tail are zones 0 to 3.
unfoldable pub get_pipe_inode :
    Waiting → (n : ℕ) → (held : List ℕ) → (page : ℕ) → Inodes → Run (Option ℕ × Inodes)
get_pipe_inode wait n held page s = after (get_empty_inode wait n held s) (λ (i, s').
    if page == 0
    then done (
      none,
      set_entry i (record (s'.table i) { core = record (s'.table i).core { size = 0 }; count = 0 })
          s',
    )
    else done (some i, set_entry i (pipe_entry page (s'.table i)) s'))

-- `new_inode` with the number it has found.
abbrev pub new_entry : (now : ℕ) → (dev num : ℕ) → Entry → Entry
new_entry now dev num e = record e {
  count = 1;
  nlinks = 1;
  dev = dev;
  num = num;
  atime = now;
  core = record e.core { dirt = true; mtime = now; ctime = now };
}

unfoldable pub new_inode :
    Waiting → (n : ℕ) → (held : List ℕ) → (now : ℕ) → (dev : ℕ) → Inodes → Run (Option ℕ × Inodes)
new_inode wait n held now dev s = after (get_empty_inode wait n held s) (λ (i, s₁).
    elim (s₁.volumes dev) [
      | none ↦ panics
      | some v ↦ after (from_result (take_inode v)) (λ (found, v'). elim found [
        | none ↦ after (iput wait n held now i s₁) (λ s₂. done (none, s₂))
        | some num ↦ done (
          some i,
          set_entry i (new_entry now dev num (s₁.table i))
              (record s₁ { volumes = update s₁.volumes dev (some v') }),
        )
      ])
    ])

-- The loop of `sync_inodes`, over `n` entries from number `i` on.
unfoldable pub sync_inodes : Waiting → (n : ℕ) → (held : List ℕ) → (i : ℕ) → Inodes → Run Inodes
sync_inodes wait zero held i s = done s
sync_inodes wait (suc n) held i s =
    let s' : Inodes = wait held i s in
    after
      (if (s'.table i).core.dirt && not (s'.table i).pipe
        then write_inode wait held i s'
        else done s')
      (sync_inodes wait n held (suc i))
