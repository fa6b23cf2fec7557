-- ===== src/Fs/Table.antt =====
-- fs/inode.c: the table of inodes, iput, read_inode and write_inode; fs/bitmap.c: free_inode.
pub mod Calls
pub mod Unique
pub mod Empty
pub mod Search
pub mod Get
pub mod Quiet
pub mod Last
mod Tests
use linux.Prelude.{
  ℕ, zero, suc, ◌+◌, ◌-◌, ◌/◌, ◌%◌, ◌^◌, Bool, true, false, not, ◌&&◌, ◌||◌, ◌==◌, ltb, leb,
  if◌then◌else◌, update, Option, none, some, List, [], ◌∷◌, Result, ok, panic,
}
use linux.Fs.Buffer.{Run, done, panics, unfinished, after}
use linux.Fs.Volume.{Volume, take_inode, drop_inode}
use linux.Fs.Inode.{Inode}
use linux.Fs.Truncate.{truncate}

abbrev pub from_result : {A : Type 0} → Result A → Run A
from_result (ok value) = done value
from_result panic = panics

-- An entry of the table; `core` has the fields that the map of blocks is about. `i_lock` and
-- `i_wait` are left to `Waiting`.
pub record Entry : Type 0 where
  pub core : Inode
  pub uid : ℕ
  pub gid : ℕ
  pub nlinks : ℕ
  pub atime : ℕ
  pub dev : ℕ
  pub num : ℕ
  pub count : ℕ
  pub pipe : Bool

-- `memset(inode,0,sizeof(*inode))`
abbrev pub blank_entry : Entry
blank_entry = record {
  core = record { mode = 0; size = 0; mtime = 0; ctime = 0; zone = λ k. 0; dirt = false };
  uid = 0;
  gid = 0;
  nlinks = 0;
  atime = 0;
  dev = 0;
  num = 0;
  count = 0;
  pipe = false;
}

-- `d_inode`
pub record Saved : Type 0 where
  pub mode : ℕ
  pub uid : ℕ
  pub size : ℕ
  pub time : ℕ
  pub gid : ℕ
  pub nlinks : ℕ
  pub zone : ℕ → ℕ

-- `disk` is what `bread` gives of an inode of a device, nothing when its block cannot be read.
-- `volumes` are the mounted devices, `freed_pages` the arguments of `free_page`.
pub record Inodes : Type 0 where
  pub table : ℕ → Entry
  pub last : ℕ
  pub disk : ℕ → ℕ → Option Saved
  pub volumes : ℕ → Option Volume
  pub freed_pages : List ℕ

abbrev pub nr_inode : ℕ
nr_inode = 32

abbrev pub set_entry : (i : ℕ) → Entry → Inodes → Inodes
set_entry i e s = record s { table = update s.table i e }

-- What becomes of the table while a task waits for an entry, in `wait_on_inode`, `lock_inode` and
-- `bread`; `held` are the entries that the task itself has references to.
abbrev pub Waiting : Type 0
Waiting = (held : List ℕ) → (i : ℕ) → Inodes → Inodes

abbrev pub saved_of : Entry → Saved
saved_of e = record {
  mode = e.core.mode;
  uid = e.uid;
  size = e.core.size;
  time = e.core.mtime;
  gid = e.gid;
  nlinks = e.nlinks;
  zone = e.core.zone;
}

abbrev pub from_disk : Saved → Entry → Entry
from_disk d e = record e {
  core = record e.core { mode = d.mode; size = d.size; mtime = d.time; zone = d.zone };
  uid = d.uid;
  gid = d.gid;
  nlinks = d.nlinks;
}

unfoldable pub read_inode : Waiting → (held : List ℕ) → (i : ℕ) → Inodes → Run Inodes
read_inode wait held i s =
    let s' : Inodes = wait held i s in
    elim (s'.disk (s'.table i).dev (s'.table i).num) [
      | none ↦ panics
      | some d ↦ done (set_entry i (from_disk d (s'.table i)) s')
    ]

-- The entry, once it is on the disk.
abbrev pub saved_entry : (i : ℕ) → Inodes → Inodes
saved_entry i s =
    let e : Entry = s.table i in
    record s {
      table = update s.table i (record e { core = record e.core { dirt = false } });
      disk = update s.disk e.dev (update (s.disk e.dev) e.num (some (saved_of e)));
    }

unfoldable pub write_inode : Waiting → (held : List ℕ) → (i : ℕ) → Inodes → Run Inodes
write_inode wait held i s =
    let s' : Inodes = wait held i s in
    elim (s'.disk (s'.table i).dev (s'.table i).num) [
      | none ↦ panics
      | some d ↦ done (saved_entry i s')
    ]

unfoldable pub free_inode : (i : ℕ) → Inodes → Run Inodes
free_inode i s =
    let e : Entry = s.table i in
    if e.dev == 0
    then done (set_entry i blank_entry s)
    else if ltb 1 e.count
    then panics
    else if not (e.nlinks == 0)
    then panics
    else (elim (s.volumes e.dev) [
      | none ↦ panics
      | some v ↦ after (from_result (drop_inode e.num v)) (λ v'.
          done (set_entry i blank_entry (record s { volumes = update s.volumes e.dev (some v') })))
    ])

-- `truncate` on the device of the entry.
unfoldable pub truncate_entry : (now : ℕ) → (i : ℕ) → Inodes → Run Inodes
truncate_entry now i s =
    let e : Entry = s.table i in
    elim (s.volumes e.dev) [
      | none ↦ panics
      | some v ↦ after (from_result (truncate now e.core v)) (λ (ino, v'). done (
          set_entry i (record e { core = ino })
            (record s { volumes = update s.volumes e.dev (some v') })))
    ]

abbrev pub count_down : (i : ℕ) → Inodes → Inodes
count_down i s = set_entry i (record (s.table i) { count = (s.table i).count - 1 }) s

-- From `repeat` on.
unfoldable pub put_last :
    Waiting → (n : ℕ) → (held : List ℕ) → (now : ℕ) → (i : ℕ) → Inodes → Run Inodes
put_last wait zero held now i s = unfinished
put_last wait (suc n) held now i s =
    let again : Run Inodes =
      after (write_inode wait held i s) (λ s'. put_last wait n held now i (wait held i s')) in
    if (s.table i).nlinks == 0
    then after (truncate_entry now i s) (free_inode i)
    else if (s.table i).core.dirt
    then again
    else done (count_down i s)

-- The last end of a pipe.
abbrev pub put_pipe : (i : ℕ) → Inodes → Inodes
put_pipe i s =
    let e : Entry = s.table i in
    if e.count == 1
    then record s {
      table =
          update s.table i
            (record e { core = record e.core { dirt = false }; count = 0; pipe = false });
      freed_pages = e.core.size ∷ s.freed_pages;
    }
    else count_down i s

abbrev pub put_ready :
    Waiting → (n : ℕ) → (held : List ℕ) → (now : ℕ) → (i : ℕ) → Inodes → Run Inodes
put_ready wait n held now i s =
    let e : Entry = s.table i in
    if e.count == 0
    then panics
    else if e.pipe
    then done (put_pipe i s)
    else if e.dev == 0 || ltb 1 e.count
    then done (count_down i s)
    else put_last wait n held now i s

abbrev pub iput : Waiting → (n : ℕ) → (held : List ℕ) → (now : ℕ) → (i : ℕ) → Inodes → Run Inodes
iput wait n held now i s = put_ready wait n held now i (wait held i s)
