-- ===== src/Mm/Pages/Walk.antt =====
-- How the processor reads the page tables: the specification that the handlers serve.
use linux.Prelude.{ℕ, ◌/◌, ◌%◌, Bool, Option, none, some, ◌&&◌, if◌then◌else◌, ◌==◌}
use linux.Mm.Frames.{Mm}
use linux.Mm.Pages.{is_present, dir_slot, entry_of}

-- The entry that maps an address, if it and its page table are present.
unfoldable pub walk : ℕ → Mm → Option ℕ
walk address mm =
    if is_present (mm.mem (dir_slot address)) && is_present (mm.mem (entry_of address mm))
    then some (mm.mem (entry_of address mm))
    else none

-- The page of an entry, and whether a program may write to it.
abbrev pub is_writable : ℕ → Bool
is_writable entry = entry / 2 % 2 == 1
