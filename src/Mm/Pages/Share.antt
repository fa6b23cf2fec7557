-- ===== src/Mm/Pages/Share.antt =====
-- Writing to a shared page: copy on write.
use linux.Prelude.{ℕ, ◌+◌, ◌^◌, ◌≤◌, ◌<◌, ◌≡◌, ◌≢◌, ◌⊎◌, true}
use linux.Mm.Frames.{Mm, low_mem, map_nr}
use linux.Mm.Frames.Laws.{IsFreshPage}
use linux.Mm.Pages.{page_of, or7, write, drop_share, copy_page}
use linux.Mm.Pages.Walk.{is_writable}

-- The program sees the same longs through the new entry as through the old one.
abbrev pub SameContents : ℕ → Mm → Mm → Type 0
SameContents entry mm mm' =
    (k : ℕ) → k < 4096 → mm'.mem (page_of (mm'.mem entry) + k) ≡ mm.mem (page_of (mm.mem entry) + k)

-- The page had one user: the entry alone has changed, to a writable one.
abbrev pub IsKept : ℕ → Mm → Mm → Type 0
IsKept entry mm mm' =
    (low_mem ≤ page_of (mm.mem entry))
    × (mm.mem_map (map_nr (page_of (mm.mem entry))) ≡ 1)
    × (mm'.mem_map ≡ mm.mem_map)
    × (page_of (mm'.mem entry) ≡ page_of (mm.mem entry))
    × ((a : ℕ) → a ≢ entry → mm'.mem a ≡ mm.mem a)

-- The page was shared: the entry has a fresh frame with one user, and the old one has a user less.
abbrev pub IsCopied : ℕ → Mm → Mm → Type 0
IsCopied entry mm mm' =
    ((page_of (mm.mem entry) < low_mem) ⊎ (mm.mem_map (map_nr (page_of (mm.mem entry))) ≢ 1))
    × (low_mem ≤ page_of (mm'.mem entry))
    × (mm.mem_map (map_nr (page_of (mm'.mem entry))) ≡ 0)
    × (mm'.mem_map (map_nr (page_of (mm'.mem entry))) ≡ 1)
    × (low_mem ≤ page_of (mm.mem entry)
        → mm'.mem_map (map_nr (page_of (mm.mem entry))) + 1
          ≡ mm.mem_map (map_nr (page_of (mm.mem entry))))

-- The entry lies outside the page that it maps and outside every free frame; the page is in use.
pub record IsEntry (entry : ℕ) (mm : Mm) : Type 0 where
  pub apart : (entry < page_of (mm.mem entry)) ⊎ (page_of (mm.mem entry) + 4096 ≤ entry)
  pub in_use : low_mem ≤ entry → mm.mem_map (map_nr entry) ≢ 0
  pub used : low_mem ≤ page_of (mm.mem entry) → mm.mem_map (map_nr (page_of (mm.mem entry))) ≢ 0
  pub small : mm.mem_map (map_nr (page_of (mm.mem entry))) < 2 ^ 16

-- What `un_wp_page` does to the entry and the page.
abbrev pub IsUnshared : ℕ → Mm → Mm → Type 0
IsUnshared entry mm mm' =
    (is_writable (mm'.mem entry) ≡ true)
    × SameContents entry mm mm'
    × (IsKept entry mm mm' ⊎ IsCopied entry mm mm')

module _ (entry : ℕ) (mm : Mm) (sound : IsEntry entry mm) where
  module _ (mm1 : Mm) (page : ℕ) (fresh : IsFreshPage mm mm1 page) where
    old : ℕ
    old = page_of (mm.mem entry)

    before_copy : Mm
    before_copy = write entry (or7 page) (drop_share old mm1)

    after_copy : Mm
    after_copy = record before_copy { mem = copy_page old page before_copy.mem }
