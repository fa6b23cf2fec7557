-- ===== src/Mm/Frames/Laws.antt =====
-- mm/memory.c: get_free_page and free_page.
use linux.Prelude.{
  ℕ, zero, suc, ◌+◌, ◌-◌, ◌*◌, ◌%◌, ◌≤◌, ◌<◌, ◌≡◌, ◌≢◌, ◌⊎◌, inl, inr, refl, ap, arith, Bool-cases,
  Option, none, some, ◌==◌, update, ok, ℕ_discrete,
}
use mathlib.Core.Path.{fun_ext}
use linux.Mm.Frames.{
  Mm, low_mem, high_memory, paging_pages, last_free, take_frame, get_free_page, free_page, map_nr,
}

last_free-some :
    (n : ℕ) (f : ℕ → ℕ) (i : ℕ)
    → last_free n f ≡ some i
    → (i < n) × (f i ≡ 0) × ((j : ℕ) → i < j → j < n → f j ≢ 0)
unfolding last_free
last_free-some zero f i e = absurd (cc)
last_free-some (suc n) f i e = elim (Bool-cases (f n == 0)) [
  | inl y ↦ here (rw y at e) (ground arith)
  | inr used ↦ below (ground arith) (last_free-some n f i (rw used at e))
]
  where
    here :
        some n ≡ some i
        → f n ≡ 0
        → (i < suc n) × (f i ≡ 0) × ((j : ℕ) → i < j → j < suc n → f j ≢ 0)
    here q z = (ground arith, ground arith, λ j a b. absurd (ground arith))

    below :
        f n ≢ 0
        → (i < n) × (f i ≡ 0) × ((j : ℕ) → i < j → j < n → f j ≢ 0)
        → (i < suc n) × (f i ≡ 0) × ((j : ℕ) → i < j → j < suc n → f j ≢ 0)
    below u (a, b, c) = (omega arith, b, above)
      where
        above : (j : ℕ) → i < j → j < suc n → f j ≢ 0
        above j p q = elim (ℕ_discrete j n) [ yes same ↦ rw same u | no ne ↦ c j p (omega arith) ]

last_free-none : (n : ℕ) (f : ℕ → ℕ) → last_free n f ≡ none → (j : ℕ) → j < n → f j ≢ 0
unfolding last_free
last_free-none zero f e j l = absurd (omega arith)
last_free-none (suc n) f e j l = elim (Bool-cases (f n == 0)) [
  | inl y ↦ absurd (impossible (rw y at e))
  | inr used ↦ elim (ℕ_discrete j n) [
    | yes same ↦ rw same (ground arith)
    | no ne ↦ last_free-none n f (rw used at e) j (omega arith)
  ]
]
  where
    impossible : some n ≡ none → ⊥
    impossible q = cc

-- The page is aligned and between LOW_MEM and HIGH_MEMORY; it was free and now has one user; all
-- its longs are 0; no other count and no long outside it has changed.
abbrev pub IsFreshPage : Mm → Mm → ℕ → Type 0
IsFreshPage mm mm' page =
    (page % 4096 ≡ 0)
    × (low_mem ≤ page)
    × (page + 4096 ≤ high_memory)
    × (mm.mem_map (map_nr page) ≡ 0)
    × (mm'.mem_map ≡ update mm.mem_map (map_nr page) 1)
    × ((a : ℕ) → page ≤ a → a < page + 4096 → mm'.mem a ≡ 0)
    × ((a : ℕ) → ((a < page) ⊎ (page + 4096 ≤ a)) → mm'.mem a ≡ mm.mem a)

-- `get_free_page` returns a fresh page, or it returns 0, changes nothing, and every frame is in
-- use.
pub get_free_page_lem :
    (mm : Mm)
    → IsFreshPage mm (get_free_page mm).0 (get_free_page mm).1
      ⊎ ((get_free_page mm ≡ (mm, 0)) × ((i : ℕ) → i < paging_pages → mm.mem_map i ≢ 0))
unfolding get_free_page
get_free_page_lem mm = go (last_free paging_pages mm.mem_map) refl
  where
    fresh :
        (i : ℕ)
        → i < paging_pages
        → mm.mem_map i ≡ 0
        → IsFreshPage mm (take_frame mm (some i)).0 (take_frame mm (some i)).1
    fresh i l z = (
      omega arith,
      omega arith,
      omega arith,
      rw nr z,
      rw nr refl,
      (λ a p q. ground arith),
      λ a out. ground arith,
    )
      where
        nr : map_nr (low_mem + i * 4096) ≡ i
        nr = omega arith

    go :
        (o : Option ℕ)
        → last_free paging_pages mm.mem_map ≡ o
        → IsFreshPage mm (take_frame mm o).0 (take_frame mm o).1
          ⊎ ((take_frame mm o ≡ (mm, 0)) × ((i : ℕ) → i < paging_pages → mm.mem_map i ≢ 0))
    go none e = inr (refl, last_free-none paging_pages mm.mem_map e)
    go (some i) e = let (l, z, _) = last_free-some paging_pages mm.mem_map i e in inl (fresh i l z)

-- Freeing the page that `get_free_page` has returned succeeds and restores every use count.
pub free_page-get_free_page :
    (mm : Mm)
    → (get_free_page mm).1 ≢ 0
    → (mm' : Mm) × (free_page (get_free_page mm).1 (get_free_page mm).0 ≡ ok mm')
      × (mm'.mem_map ≡ mm.mem_map)
unfolding free_page
free_page-get_free_page mm ne = go (get_free_page_lem mm)
  where
    page : ℕ
    page = (get_free_page mm).1

    mm1 : Mm
    mm1 = (get_free_page mm).0

    go :
        IsFreshPage mm mm1 page
          ⊎ ((get_free_page mm ≡ (mm, 0)) × ((i : ℕ) → i < paging_pages → mm.mem_map i ≢ 0))
        → (mm' : Mm) × (free_page page mm1 ≡ ok mm') × (mm'.mem_map ≡ mm.mem_map)
    go (inr (e, used)) = absurd (ne (ap (λ (x : Mm × ℕ). x.1) e))
    go (inl (al, lo, hi, z, e, cleared, rest)) = (
      record mm1 { mem_map = update mm1.mem_map (map_nr page) (mm1.mem_map (map_nr page) - 1) },
      ground (arith, one),
      fun_ext λ i. back i,
    )
      where
        one : mm1.mem_map (map_nr page) ≡ 1
        one = rw e (ground arith)

        at : (i : ℕ) → mm1.mem_map i ≡ update mm.mem_map (map_nr page) 1 i
        at i = ap (λ (f : ℕ → ℕ). f i) e

        back :
            (i : ℕ)
            → update mm1.mem_map (map_nr page) (mm1.mem_map (map_nr page) - 1) i ≡ mm.mem_map i
        back i = ground (arith, one, z, at i)
