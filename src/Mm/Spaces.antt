-- ===== src/Mm/Spaces.antt =====
-- mm/memory.c: the page tables of whole address spaces, in blocks of 4 MB.
pub mod Free
pub mod Copy
use linux.Prelude.{
  ℕ, zero, suc, ◌+◌, ◌-◌, ◌*◌, ◌/◌, ◌%◌, ◌^◌, Bool, true, false, not, ◌&&◌, ◌||◌, ◌==◌, ltb, leb,
  if◌then◌else◌, update, clear_bit, add32, Result, ok, panic, ◌>>=◌, ◌>>◌, require, Ret, ret, fail,
}
use linux.Mm.Frames.{Mm, low_mem, get_free_page, free_page, map_nr}
use linux.Mm.Pages.{page_of, is_present, or7, write}

-- `(from >> 20) & 0xffc`
abbrev pub dir_of : ℕ → ℕ
dir_of from = from / 2 ^ 22 % 1024 * 4

-- `(size + 0x3fffff) >> 22`, unsigned.
abbrev pub blocks : ℕ → ℕ
blocks size = add32 size 0x3fffff / 2 ^ 22

-- `from & 0x3fffff`
abbrev pub is_aligned : ℕ → Bool
is_aligned from = from % 2 ^ 22 == 0

pub free_entry : ℕ → Mm → Result Mm
free_entry pg_table mm = do
  mm' ← if is_present (mm.mem pg_table) then free_page (page_of (mm.mem pg_table)) mm else ok mm
  ok (write pg_table 0 mm')

unfoldable pub free_entries : ℕ → ℕ → Mm → Result Mm
unfolding free_entry
free_entries zero pg_table mm = ok mm
free_entries (suc nr) pg_table mm = do
  mm' ← free_entry pg_table mm
  free_entries nr (pg_table + 4) mm'

pub free_dir : ℕ → Mm → Result Mm
free_dir dir mm =
    if is_present (mm.mem dir)
    then (do
      mm1 ← free_entries 1024 (page_of (mm.mem dir)) mm
      mm2 ← free_page (page_of (mm1.mem dir)) mm1
      ok (write dir 0 mm2))
    else ok mm

unfoldable pub free_dirs : ℕ → ℕ → Mm → Result Mm
unfolding free_dir
free_dirs zero dir mm = ok mm
free_dirs (suc size) dir mm = do mm' ← free_dir dir mm; free_dirs size (dir + 4) mm'

unfoldable pub free_page_tables : ℕ → ℕ → Mm → Result Mm
unfolding free_dirs
free_page_tables from size mm = do
  require (is_aligned from)
  require (not (from == 0))
  free_dirs (blocks size) (dir_of from) mm

-- `mem_map[...]++` on an unsigned short.
pub share_frame : ℕ → Mm → Mm
share_frame this_page mm = record mm {
  mem_map = update mm.mem_map (map_nr this_page) ((mm.mem_map (map_nr this_page) + 1) % 2 ^ 16);
}

-- One round of the inner loop of `copy_page_tables`.
pub copy_entry : ℕ → ℕ → Mm → Mm
unfolding share_frame
copy_entry from_entry to_entry mm =
    if is_present (mm.mem from_entry)
    then (let this_page = clear_bit 1 (mm.mem from_entry) in
        let mm1 = write to_entry this_page mm in
        if ltb low_mem this_page
        then share_frame this_page (write from_entry this_page mm1)
        else mm1)
    else mm

pub copy_entries : ℕ → ℕ → ℕ → Mm → Mm
unfolding copy_entry
copy_entries zero from_table to_table mm = mm
copy_entries (suc nr) from_table to_table mm =
    copy_entries nr (from_table + 4) (to_table + 4) (copy_entry from_table to_table mm)

-- The directory's entry after `get_free_page`; the Boolean says that the loop goes on.
pub copy_table : Bool → ℕ → ℕ → Mm × ℕ → Mm × Bool
copy_table first from_table to_dir (mm, to_table) = if to_table == 0 then (mm, false) else (
  copy_entries (if first then 0xA0 else 1024) from_table to_table (write to_dir (or7 to_table) mm),
  true,
)

pub copy_dir : Bool → ℕ → ℕ → Mm → Result (Mm × Bool)
unfolding copy_table
copy_dir first from_dir to_dir mm = do
  require (not (is_present (mm.mem to_dir)))
  ok (
      if is_present (mm.mem from_dir)
      then copy_table first (page_of (mm.mem from_dir)) to_dir (get_free_page mm)
      else (mm, true))

pub copy_dirs : Bool → ℕ → ℕ → ℕ → Mm → Result (Mm × Bool)
unfolding copy_dir
copy_dirs first zero from_dir to_dir mm = ok (mm, true)
copy_dirs first (suc size) from_dir to_dir mm = do
  (mm', on) ← copy_dir first from_dir to_dir mm
  if on then copy_dirs first size (from_dir + 4) (to_dir + 4) mm' else ok (mm', false)

pub copy_page_tables : ℕ → ℕ → ℕ → Mm → Result (Mm × Ret)
unfolding copy_dirs
copy_page_tables from to size mm = do
  require (is_aligned from && is_aligned to)
  (mm', done) ← copy_dirs (from == 0) (blocks size) (dir_of from) (dir_of to) mm
  ok (mm', if done then ret 0 else fail 1)
