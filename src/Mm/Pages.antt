-- ===== src/Mm/Pages.antt =====
-- mm/memory.c: one page of one address space. The page directory is at address 0; an entry of it
-- or of a page table is a long: the page's address, with bit 0 for present and bit 1 for writable.
pub mod Walk
pub mod Put
pub mod Share
use linux.Prelude.{
  ℕ, zero, suc, ◌+◌, ◌-◌, ◌*◌, ◌/◌, ◌%◌, ◌^◌, Bool, true, false, not, ◌&&◌, Option, none, some,
  ◌==◌, ltb, leb, if◌then◌else◌, update, set_bit,
}
use linux.Mm.Frames.{Mm, low_mem, high_memory, get_free_page, map_nr, in_page}

-- `0xfffff000 & x`
abbrev pub page_of : ℕ → ℕ
page_of x = x - x % 4096

-- `1 & x`
abbrev pub is_present : ℕ → Bool
is_present x = x % 2 == 1

-- `x | 7`
abbrev pub or7 : ℕ → ℕ
or7 x = x - x % 8 + 7

-- `(address >> 20) & 0xffc`, and `(address >> 10) & 0xffc`, which is 4 times
-- `(address >> 12) & 0x3ff`.
abbrev pub dir_slot : ℕ → ℕ
dir_slot address = address / 2 ^ 22 % 1024 * 4

abbrev pub table_slot : ℕ → ℕ
table_slot address = address / 2 ^ 12 % 1024 * 4

abbrev pub write : ℕ → ℕ → Mm → Mm
write a v mm = record mm { mem = update mm.mem a v }

-- The end of `put_page`; `page_table` is a page table's address.
pub put_entry : ℕ → ℕ → ℕ → Mm → Mm
put_entry page address page_table mm = write (page_table + table_slot address) (or7 page) mm

-- A new page table.
pub put_table : ℕ → ℕ → Mm × ℕ → Mm × ℕ
unfolding put_entry
put_table page address (mm, tmp) =
    if tmp == 0
    then (mm, 0)
    else (put_entry page address tmp (write (dir_slot address) (or7 tmp) mm), page)

-- The two tests that only print a line are left out.
unfoldable pub put_page : ℕ → ℕ → Mm → Mm × ℕ
unfolding put_entry put_table
put_page page address mm =
    if is_present (mm.mem (dir_slot address))
    then (put_entry page address (page_of (mm.mem (dir_slot address))) mm, page)
    else put_table page address (get_free_page mm)

-- What the fault handlers come to: they return, or they call `do_exit(SIGSEGV)`.
pub data Handled : Type 0 where
  returns : Mm → Handled
  exits : Mm → Handled

-- `rep; movsl` of 1024 longs to another page.
pub copy_page : ℕ → ℕ → (ℕ → ℕ) → ℕ → ℕ
copy_page from to mem a = if in_page to a then mem (a - to + from) else mem a

-- `if (old_page >= LOW_MEM) mem_map[MAP_NR(old_page)]--`, on an unsigned short.
pub drop_share : ℕ → Mm → Mm
drop_share old_page mm =
    if leb low_mem old_page
    then record mm {
      mem_map =
          update mm.mem_map (map_nr old_page)
            ((mm.mem_map (map_nr old_page) + 2 ^ 16 - 1) % 2 ^ 16);
    }
    else mm

-- The end of `un_wp_page`.
pub copy_share : ℕ → ℕ → Mm × ℕ → Handled
unfolding drop_share copy_page
copy_share entry old_page (mm, new_page) =
    if new_page == 0
    then exits mm
    else returns (
        let mm' = write entry (or7 new_page) (drop_share old_page mm) in
        record mm' { mem = copy_page old_page new_page mm'.mem })

-- `entry` is the address of the page table's entry.
unfoldable pub un_wp_page : ℕ → Mm → Handled
unfolding copy_share
un_wp_page entry mm =
    let old_page = page_of (mm.mem entry) in
    if leb low_mem old_page && mm.mem_map (map_nr old_page) == 1
    then returns (write entry (set_bit 1 (mm.mem entry)) mm)
    else copy_share entry old_page (get_free_page mm)

-- The address of the entry for `address`.
abbrev pub entry_of : ℕ → Mm → ℕ
entry_of address mm = table_slot address + page_of (mm.mem (dir_slot address))

pub do_wp_page : ℕ → Mm → Handled
unfolding un_wp_page
do_wp_page address mm = un_wp_page (entry_of address mm) mm

pub write_verify : ℕ → Mm → Handled
unfolding un_wp_page
write_verify address mm =
    if is_present (mm.mem (dir_slot address))
    then (if mm.mem (entry_of address mm) % 4 == 1
        then un_wp_page (entry_of address mm) mm
        else returns mm)
    else returns mm

pub put_fresh : ℕ → Mm × ℕ → Handled
unfolding put_page
put_fresh address (mm, tmp) =
    if tmp == 0
    then exits mm
    else (let (mm', page) = put_page tmp address mm in if page == 0 then exits mm' else returns mm')

pub do_no_page : ℕ → Mm → Handled
unfolding put_fresh get_free_page
do_no_page address mm = put_fresh address (get_free_page mm)
