-- ===== src/Mm/Pages/Put.antt =====
-- Putting a page at an address.
use linux.Prelude.{
  ℕ, ◌+◌, ◌%◌, ◌≤◌, ◌<◌, ◌≡◌, ◌≢◌, ◌⊎◌, inl, inr, refl, sym, ap, ◌∙◌, arith, true, false,
  Bool-cases, some, ◌==◌, if◌then◌else◌, update,
}
use mathlib.Core.Path.{subst}
use linux.Mm.Frames.{Mm, low_mem, high_memory, paging_pages, get_free_page, map_nr}
use linux.Mm.Frames.Laws.{IsFreshPage, get_free_page_lem}
use linux.Mm.Pages.{
  page_of, is_present, or7, dir_slot, table_slot, write, put_entry, put_table, put_page, Handled,
  returns, exits, put_fresh, do_no_page,
}
use linux.Mm.Pages.Walk.{walk}

-- The page table for the address, if there is one, is neither the directory nor a free frame.
abbrev pub IsSound : ℕ → Mm → Type 0
IsSound address mm =
    is_present (mm.mem (dir_slot address)) ≡ true
    → (4096 ≤ page_of (mm.mem (dir_slot address)))
      × (low_mem ≤ page_of (mm.mem (dir_slot address))
          → mm.mem_map (map_nr (page_of (mm.mem (dir_slot address)))) ≢ 0)

put_entry-walk :
    (page address table : ℕ) (mm : Mm)
    → page % 4096 ≡ 0
    → is_present (mm.mem (dir_slot address)) ≡ true
    → page_of (mm.mem (dir_slot address)) ≡ table
    → 4096 ≤ table
    → walk address (put_entry page address table mm) ≡ some (page + 7)
unfolding walk put_entry
put_entry-walk page address table mm al here at lo =
    rw dir_same (rw (here, entry_same) (rw present refl))
  where
    mem' : ℕ → ℕ
    mem' = update mm.mem (table + table_slot address) (or7 page)

    dir_same : mem' (dir_slot address) ≡ mm.mem (dir_slot address)
    dir_same = ground arith

    entry_same : mem' (table_slot address + page_of (mm.mem (dir_slot address))) ≡ page + 7
    entry_same = ground arith

    present : is_present (page + 7) ≡ true
    present = ground arith

-- If the page table for the address is neither the directory nor a free frame, `put_page` of an
-- aligned page that is not 0 either makes the processor map the address to that page, writable,
-- and returns the page; or it returns 0 and changes nothing, and then no frame is free.
pub put_page_lem :
    (page address : ℕ) (mm : Mm)
    → page % 4096 ≡ 0
    → page ≢ 0
    → IsSound address mm
    → (((put_page page address mm).1 ≡ page)
        × (walk address (put_page page address mm).0 ≡ some (page + 7)))
      ⊎ ((put_page page address mm ≡ (mm, 0)) × ((i : ℕ) → i < paging_pages → mm.mem_map i ≢ 0))
unfolding put_page
put_page_lem page address mm al ne sound =
    elim (Bool-cases (is_present (mm.mem (dir_slot address)))) [
      | inl here ↦ rw here (
          inl (
            refl,
            put_entry-walk page address (page_of (mm.mem (dir_slot address))) mm al here refl
                (sound here).0,
          ))
      | inr absent ↦ rw absent (fresh_table (get_free_page_lem mm))
    ]
  where
    fresh_table :
        IsFreshPage mm (get_free_page mm).0 (get_free_page mm).1
          ⊎ ((get_free_page mm ≡ (mm, 0)) × ((i : ℕ) → i < paging_pages → mm.mem_map i ≢ 0))
        → (((put_table page address (get_free_page mm)).1 ≡ page)
            × (walk address (put_table page address (get_free_page mm)).0 ≡ some (page + 7)))
          ⊎ ((put_table page address (get_free_page mm) ≡ (mm, 0))
              × ((i : ℕ) → i < paging_pages → mm.mem_map i ≢ 0))
    fresh_table (inr (e, used)) = inr (rw e refl, used)
    fresh_table (inl (tal, lo, hi, z, m, cleared, rest)) =
        let tmp = (get_free_page mm).1 in
        let mm1 = (get_free_page mm).0 in
        let mm2 : Mm = write (dir_slot address) (or7 tmp) mm1 in
        let nz : (tmp == 0) ≡ false = ground arith in
        let dir : mm2.mem (dir_slot address) ≡ tmp + 7 = ground arith in
        rw nz (
          inl (
            refl,
            put_entry-walk page address tmp mm2 al (ground (arith, dir)) (ground (arith, dir))
                (omega arith),
          ))

module _ (address : ℕ) (mm mm1 : Mm) (page : ℕ) (fresh : IsFreshPage mm mm1 page)
    (sound : IsSound address mm) where
  table : ℕ
  table = page_of (mm.mem (dir_slot address))

  same_dir : mm1.mem (dir_slot address) ≡ mm.mem (dir_slot address)
  same_dir =
      let (al, lo, hi, z, m, cleared, rest) = fresh in rest (dir_slot address) (inl (omega arith))

  -- A fresh page is no page table of a sound address.
  apart :
      is_present (mm.mem (dir_slot address)) ≡ true
      → (4096 ≤ table) × (table ≢ page) × (low_mem ≤ table → mm1.mem_map (map_nr table) ≢ 0)
  unfolding table
  apart here =
      let (al, lo, hi, z, m, cleared, rest) = fresh in
      let (a, b) = sound here in
      (
        a,
        (λ e. b (omega arith) (ap (λ (x : ℕ). mm.mem_map (map_nr x)) e ∙ z)),
        λ above. λ zero_count.
            absurd (kept (b above) (sym (ap (λ (f : ℕ → ℕ). f (map_nr table)) m) ∙ zero_count)),
      )
    where
      kept :
          mm.mem_map (map_nr (page_of (mm.mem (dir_slot address)))) ≢ 0
          → update mm.mem_map (map_nr page) 1 (map_nr (page_of (mm.mem (dir_slot address)))) ≡ 0
          → ⊥
      kept u e = ground arith

  IsSound-fresh : IsSound address mm1
  unfolding table
  IsSound-fresh here =
      let (a, b, c) = apart (ap is_present (sym same_dir) ∙ here) in
      (
        subst (λ e. 4096 ≤ page_of e) (sym same_dir) a,
        subst (λ e. low_mem ≤ page_of e → mm1.mem_map (map_nr (page_of e)) ≢ 0) (sym same_dir) c,
      )

-- If the page table for the address is neither the directory nor a free frame, then after a
-- missing page the handler either exits, or the processor maps the address to a frame between
-- LOW_MEM and HIGH_MEMORY that was free, and a program may write to it.
pub do_no_page_lem :
    (address : ℕ) (mm : Mm)
    → IsSound address mm
    → ((mm' : Mm) × (page : ℕ) × (do_no_page address mm ≡ returns mm')
        × (walk address mm' ≡ some (page + 7))
        × (page % 4096 ≡ 0)
        × (low_mem ≤ page)
        × (page + 4096 ≤ high_memory)
        × (mm.mem_map (map_nr page) ≡ 0))
      ⊎ ((mm' : Mm) × (do_no_page address mm ≡ exits mm')
          × ((i : ℕ) → i < paging_pages → mm'.mem_map i ≢ 0))
unfolding do_no_page put_fresh
do_no_page_lem address mm sound = go (get_free_page_lem mm)
  where
    go :
        IsFreshPage mm (get_free_page mm).0 (get_free_page mm).1
          ⊎ ((get_free_page mm ≡ (mm, 0)) × ((i : ℕ) → i < paging_pages → mm.mem_map i ≢ 0))
        → ((mm' : Mm) × (page : ℕ) × (put_fresh address (get_free_page mm) ≡ returns mm')
            × (walk address mm' ≡ some (page + 7))
            × (page % 4096 ≡ 0)
            × (low_mem ≤ page)
            × (page + 4096 ≤ high_memory)
            × (mm.mem_map (map_nr page) ≡ 0))
          ⊎ ((mm' : Mm) × (put_fresh address (get_free_page mm) ≡ exits mm')
              × ((i : ℕ) → i < paging_pages → mm'.mem_map i ≢ 0))
    go (inr (e, used)) = inr (mm, rw e refl, used)
    go (inl fresh) =
        let (al, lo, hi, z, m, cleared, rest) = fresh in
        let page = (get_free_page mm).1 in
        let mm1 = (get_free_page mm).0 in
        let nz : (page == 0) ≡ false = ground arith in
        rw nz (
          put
            (put_page_lem page address mm1 al (omega arith)
              (IsSound-fresh address mm mm1 page fresh sound))
            al lo hi z nz)
      where
        page : ℕ
        page = (get_free_page mm).1

        mm1 : Mm
        mm1 = (get_free_page mm).0

        out : Handled
        out = let (mm', p) = put_page page address mm1 in if p == 0 then exits mm' else returns mm'

        put :
            (((put_page page address mm1).1 ≡ page)
                × (walk address (put_page page address mm1).0 ≡ some (page + 7)))
              ⊎ ((put_page page address mm1 ≡ (mm1, 0))
                  × ((i : ℕ) → i < paging_pages → mm1.mem_map i ≢ 0))
            → page % 4096 ≡ 0
            → low_mem ≤ page
            → page + 4096 ≤ high_memory
            → mm.mem_map (map_nr page) ≡ 0
            → (page == 0) ≡ false
            → ((mm' : Mm) × (page : ℕ) × (out ≡ returns mm')
                × (walk address mm' ≡ some (page + 7))
                × (page % 4096 ≡ 0)
                × (low_mem ≤ page)
                × (page + 4096 ≤ high_memory)
                × (mm.mem_map (map_nr page) ≡ 0))
              ⊎ ((mm' : Mm) × (out ≡ exits mm') × ((i : ℕ) → i < paging_pages → mm'.mem_map i ≢ 0))
        put (inl (e, w)) al lo hi z nz =
            inl ((put_page page address mm1).0, page, rw e (rw nz refl), w, al, lo, hi, z)
        put (inr (e, used)) al lo hi z nz = inr (mm1, rw e refl, used)
