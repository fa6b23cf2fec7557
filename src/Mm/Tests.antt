-- ===== src/Mm/Tests.antt =====
-- Runs of the memory manager on small memories.
use linux.Prelude.{
  ℕ, ◌+◌, ◌*◌, ◌%◌, ◌^◌, ◌≤◌, ◌<◌, ◌≡◌, ◌≢◌, ◌⊎◌, refl, arith, none, some, ◌==◌, if◌then◌else◌,
  Result, ok, panic,
}
use linux.Mm.Frames.{
  Mm, low_mem, high_memory, paging_pages, last_free, get_free_page, free_page, map_nr,
}
use linux.Mm.Frames.Laws.{IsFreshPage, get_free_page_lem, free_page-get_free_page}
use linux.Mm.Pages.{do_no_page, returns, exits}
use linux.Mm.Pages.Walk.{walk}
use linux.Mm.Pages.Put.{IsSound, do_no_page_lem}
use linux.Mm.Spaces.{free_page_tables, free_dirs, free_entries, copy_entries}
use linux.Mm.Spaces.Free.{IsZeroing, free_page_tables_lem}
use linux.Mm.Spaces.Copy.{parent_entry, child_entry, users, copy_entries_lem}

-- Frame 0 is a page table, frame 1 a page that two entries share; all other frames are free.
-- The directory's entry 16 (64 MB) is present, and the first two entries of its page table.
abbrev mm : Mm
mm = record {
  mem_map = λ i. if i == 0 then 1 else (if i == 1 then 2 else 0);
  mem = λ a.
      if a == 64
      then 0x200007
      else (if a == 0x200000 then 0x201005 else (if a == 0x200004 then 0x201005 else 0));
}

last_frame_first : (get_free_page mm).1 ≡ 0x7ff000
unfolding get_free_page last_free
last_frame_first = refl

get_free_page_lem_example :
    IsFreshPage mm (get_free_page mm).0 (get_free_page mm).1
    ⊎ ((get_free_page mm ≡ (mm, 0)) × ((i : ℕ) → i < paging_pages → mm.mem_map i ≢ 0))
get_free_page_lem_example = get_free_page_lem mm

free_page-get_free_page_example :
    (mm' : Mm) × (free_page (get_free_page mm).1 (get_free_page mm).0 ≡ ok mm')
    × (mm'.mem_map ≡ mm.mem_map)
free_page-get_free_page_example = free_page-get_free_page mm (omega (arith, last_frame_first))

mm-IsSound : IsSound 0x4000000 mm
mm-IsSound e = ((omega arith), λ l. omega arith)

do_no_page_lem_example :
    ((mm' : Mm) × (page : ℕ) × (do_no_page 0x4000000 mm ≡ returns mm')
      × (walk 0x4000000 mm' ≡ some (page + 7))
      × (page % 4096 ≡ 0)
      × (low_mem ≤ page)
      × (page + 4096 ≤ high_memory)
      × (mm.mem_map (map_nr page) ≡ 0))
    ⊎ ((mm' : Mm) × (do_no_page 0x4000000 mm ≡ exits mm')
        × ((i : ℕ) → i < paging_pages → mm'.mem_map i ≢ 0))
do_no_page_lem_example = do_no_page_lem 0x4000000 mm mm-IsSound

-- The memory after the block at 64 MB is freed.
abbrev or_mm : Result Mm → Mm
or_mm (ok m) = m
or_mm panic = mm

abbrev freed : Mm
freed = or_mm (free_page_tables 0x4000000 4096 mm)

freed_runs : free_page_tables 0x4000000 4096 mm ≡ ok freed
unfolding free_page_tables free_dirs free_entries free_page
freed_runs = refl

free_page_tables_lem_example :
    (◌≡◌ {A = ℕ} (0x4000000 % 2 ^ 22) 0)
    × (◌≢◌ {A = ℕ} 0x4000000 0)
    × IsZeroing mm freed
    × ((address : ℕ) → 0x4000000 ≤ address → address < 0x4001000 → walk address freed ≡ none)
free_page_tables_lem_example = free_page_tables_lem 0x4000000 4096 mm freed freed_runs (omega arith)

copy_entries_lem_example :
    let mm' = copy_entries 2 0x200000 0x300000 mm in
    ((k : ℕ)
      → k < 2
      → (mm'.mem (0x200000 + k * 4) ≡ parent_entry (mm.mem (0x200000 + k * 4)))
        × (mm'.mem (0x300000 + k * 4)
            ≡ child_entry (mm.mem (0x200000 + k * 4)) (mm.mem (0x300000 + k * 4))))
    × ((a : ℕ)
        → ((a < 0x200000) ⊎ (0x200008 ≤ a))
        → ((a < 0x300000) ⊎ (0x300008 ≤ a))
        → mm'.mem a ≡ mm.mem a)
    × ((frame : ℕ) → mm'.mem_map frame ≡ mm.mem_map frame + users frame 2 0x200000 mm.mem)
copy_entries_lem_example =
    copy_entries_lem 2 0x200000 0x300000 mm (omega arith) (λ frame. few frame)
  where
    few : (frame : ℕ) → mm.mem_map frame + 2 < 2 ^ 16
    few frame = ground arith
