-- ===== src/Mm/Frames.antt =====
-- mm/memory.c: the page frames above LOW_MEM and their use counts.
pub mod Laws
use linux.Prelude.{
  ℕ, zero, suc, ◌+◌, ◌-◌, ◌*◌, ◌/◌, ◌%◌, ◌^◌, Bool, true, false, ◌&&◌, Option, none, some, ◌==◌,
  ltb, leb, if◌then◌else◌, update, Result, ok, panic,
}

abbrev pub high_memory : ℕ
high_memory = 0x800000

-- BUFFER_END is not below 1 MB here.
abbrev pub low_mem : ℕ
low_mem = 0x200000

-- PAGING_PAGES
abbrev pub paging_pages : ℕ
paging_pages = 1536

-- `mem_map`, and physical memory as long words by their byte address; the kernel reads and writes
-- multiples of 4.
pub record Mm : Type 0 where
  pub mem_map : ℕ → ℕ
  pub mem : ℕ → ℕ

-- `std; repne; scasw`: the last of the first `n` entries that is 0.
unfoldable pub last_free : ℕ → (ℕ → ℕ) → Option ℕ
last_free zero mem_map = none
last_free (suc n) mem_map =
    let rest = last_free n mem_map in if mem_map n == 0 then some n else rest

-- Is the long at `a` in the page at `page`?
abbrev pub in_page : ℕ → ℕ → Bool
in_page page a = leb page a && ltb a (page + 4096)

-- `rep; stosl` of 1024 zeros.
unfoldable pub clear_page : ℕ → (ℕ → ℕ) → ℕ → ℕ
clear_page page mem a = if in_page page a then 0 else mem a

pub take_frame : Mm → Option ℕ → Mm × ℕ
unfolding clear_page
take_frame mm none = (mm, 0)
take_frame mm (some i) = (
  record { mem_map = update mm.mem_map i 1; mem = clear_page (low_mem + i * 4096) mm.mem },
  low_mem + i * 4096,
)

-- The address of the page, or 0.
unfoldable pub get_free_page : Mm → Mm × ℕ
unfolding take_frame
get_free_page mm = take_frame mm (last_free paging_pages mm.mem_map)

-- MAP_NR
abbrev pub map_nr : ℕ → ℕ
map_nr addr = (addr - low_mem) / 4096

unfoldable pub free_page : ℕ → Mm → Result Mm
free_page addr mm =
    if ltb addr low_mem
    then ok mm
    else (if ltb high_memory addr
        then panic
        else (if mm.mem_map (map_nr addr) == 0
            then panic
            else ok (record mm {
              mem_map = update mm.mem_map (map_nr addr) (mm.mem_map (map_nr addr) - 1);
            })))
