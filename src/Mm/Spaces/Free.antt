-- ===== src/Mm/Spaces/Free.antt =====
-- mm/memory.c: free_page_tables.
use linux.Prelude.{
  ℕ, zero, suc, ◌+◌, ◌-◌, ◌*◌, ◌/◌, ◌%◌, ◌^◌, ◌≤◌, ◌<◌, ◌≡◌, ◌≢◌, ◌⊎◌, inl, inr, refl, ap, ◌∙◌,
  arith, Bool, true, false, Bool-cases, none, ◌==◌, not, if◌then◌else◌, ℕ_discrete, ok, ◌>>=◌,
  >>=-eq-ok, ok-injective, require, require-eq-ok, ◌>>◌,
}
use mathlib.Core.Path.{subst}
use linux.Mm.Frames.{Mm, free_page}
use linux.Mm.Pages.{page_of, is_present, dir_slot, write}
use linux.Mm.Pages.Walk.{walk}
use linux.Mm.Spaces.{
  dir_of, blocks, is_aligned, free_entry, free_entries, free_dir, free_dirs, free_page_tables,
}

-- Longs are left alone or set to 0.
abbrev pub IsZeroing : Mm → Mm → Type 0
IsZeroing mm mm' = (a : ℕ) → (mm'.mem a ≡ mm.mem a) ⊎ (mm'.mem a ≡ 0)

IsZeroing-trans : (x y z : Mm) → IsZeroing x y → IsZeroing y z → IsZeroing x z
IsZeroing-trans x y z p q a = go (p a) (q a)
  where
    go :
        (y.mem a ≡ x.mem a) ⊎ (y.mem a ≡ 0)
        → (z.mem a ≡ y.mem a) ⊎ (z.mem a ≡ 0)
        → (z.mem a ≡ x.mem a) ⊎ (z.mem a ≡ 0)
    go _ (inr e) = inr e
    go (inl d) (inl e) = inl (e ∙ d)
    go (inr d) (inl e) = inr (e ∙ d)

free_page-mem : (page : ℕ) (mm mm' : Mm) → free_page page mm ≡ ok mm' → mm'.mem ≡ mm.mem
unfolding free_page
free_page-mem page mm mm' e = ground arith

write-IsZeroing : (a : ℕ) (mm mm' : Mm) → mm'.mem ≡ mm.mem → IsZeroing mm (write a 0 mm')
write-IsZeroing a mm mm' e b = elim (ℕ_discrete a b) [
  | yes same ↦ inr (ground arith)
  | no ne ↦ inl (let at = ap (λ (f : ℕ → ℕ). f b) e in ground (arith, at))
]

free_entry-IsZeroing : (t : ℕ) (mm mm' : Mm) → free_entry t mm ≡ ok mm' → IsZeroing mm mm'
unfolding free_entry
free_entry-IsZeroing t mm mm' e = go (is_present (mm.mem t)) refl e
  where
    go :
        (b : Bool)
        → is_present (mm.mem t) ≡ b
        → ((if b then free_page (page_of (mm.mem t)) mm else ok mm) >>= λ mm1. ok (write t 0 mm1))
          ≡ ok mm'
        → IsZeroing mm mm'
    go true p q =
        let (mm1, f, w) = >>=-eq-ok (free_page (page_of (mm.mem t)) mm) (λ m. ok (write t 0 m)) q in
        subst (IsZeroing mm) (ok-injective w)
          (write-IsZeroing t mm mm1 (free_page-mem (page_of (mm.mem t)) mm mm1 f))
    go false p q = subst (IsZeroing mm) (ok-injective q) (write-IsZeroing t mm mm refl)

free_entries-IsZeroing : (n t : ℕ) (mm mm' : Mm) → free_entries n t mm ≡ ok mm' → IsZeroing mm mm'
unfolding free_entries
free_entries-IsZeroing zero t mm mm' e = subst (IsZeroing mm) (ok-injective e) (λ a. inl refl)
free_entries-IsZeroing (suc n) t mm mm' e =
    let (mm1, f, g) = >>=-eq-ok (free_entry t mm) (free_entries n (t + 4)) e in
    IsZeroing-trans mm mm1 mm' (free_entry-IsZeroing t mm mm1 f)
      (free_entries-IsZeroing n (t + 4) mm1 mm' g)

absent_of_zeroing :
    (mm mm' : Mm) (a : ℕ)
    → IsZeroing mm mm'
    → is_present (mm.mem a) ≡ false
    → is_present (mm'.mem a) ≡ false
absent_of_zeroing mm mm' a z h = ground (arith, z a)

write_absent : (a : ℕ) (mm : Mm) → is_present ((write a 0 mm).mem a) ≡ false
write_absent a mm = ground arith

free_dir_lem :
    (dir : ℕ) (mm mm' : Mm)
    → free_dir dir mm ≡ ok mm'
    → IsZeroing mm mm' × (is_present (mm'.mem dir) ≡ false)
unfolding free_dir
free_dir_lem dir mm mm' e = elim (Bool-cases (is_present (mm.mem dir))) [
  | inr absent ↦ skipped absent (rw absent at e)
  | inl here ↦ freed (rw here at e)
]
  where
    skipped :
        is_present (mm.mem dir) ≡ false
        → ok mm ≡ ok mm'
        → IsZeroing mm mm' × (is_present (mm'.mem dir) ≡ false)
    skipped absent q =
        subst (λ m. IsZeroing mm m × (is_present (m.mem dir) ≡ false)) (ok-injective q)
          ((λ a. inl refl), absent)

    freed :
        (free_entries 1024 (page_of (mm.mem dir)) mm >>= λ mm1.
        free_page (page_of (mm1.mem dir)) mm1 >>= λ mm2. ok (write dir 0 mm2))
          ≡ ok mm'
        → IsZeroing mm mm' × (is_present (mm'.mem dir) ≡ false)
    freed q =
        let (mm1, f, g) =
          >>=-eq-ok (free_entries 1024 (page_of (mm.mem dir)) mm)
            (λ mm1. free_page (page_of (mm1.mem dir)) mm1 >>= λ mm2. ok (write dir 0 mm2)) q in
        let (mm2, h, w) =
          >>=-eq-ok (free_page (page_of (mm1.mem dir)) mm1) (λ m. ok (write dir 0 m)) g in
        subst (λ m. IsZeroing mm m × (is_present (m.mem dir) ≡ false)) (ok-injective w)
          (
            IsZeroing-trans mm mm1 (write dir 0 mm2)
                (free_entries-IsZeroing 1024 (page_of (mm.mem dir)) mm mm1 f)
                (write-IsZeroing dir mm1 mm2 (free_page-mem (page_of (mm1.mem dir)) mm1 mm2 h)),
            write_absent dir mm2,
          )

free_dirs_lem :
    (n dir : ℕ) (mm mm' : Mm)
    → free_dirs n dir mm ≡ ok mm'
    → IsZeroing mm mm' × ((k : ℕ) → k < n → is_present (mm'.mem (dir + k * 4)) ≡ false)
unfolding free_dirs
free_dirs_lem zero dir mm mm' e =
    (subst (IsZeroing mm) (ok-injective e) (λ a. inl refl), λ k l. absurd (omega arith))
free_dirs_lem (suc n) dir mm mm' e =
    let (mm1, f, g) = >>=-eq-ok (free_dir dir mm) (free_dirs n (dir + 4)) e in
    let (z, off) = free_dir_lem dir mm mm1 f in
    let (z', offs) = free_dirs_lem n (dir + 4) mm1 mm' g in
    (IsZeroing-trans mm mm1 mm' z z', λ k l. each mm1 off z' offs k l)
  where
    each :
        (mm1 : Mm)
        → is_present (mm1.mem dir) ≡ false
        → IsZeroing mm1 mm'
        → ((k : ℕ) → k < n → is_present (mm'.mem (dir + 4 + k * 4)) ≡ false)
        → (k : ℕ) → k < suc n
        → is_present (mm'.mem (dir + k * 4)) ≡ false
    each mm1 off z' offs zero l =
        let here : dir + 0 * 4 ≡ dir = omega arith in rw here (absent_of_zeroing mm1 mm' dir z' off)
    each mm1 off z' offs (suc k) l =
        let next : dir + suc k * 4 ≡ dir + 4 + k * 4 = omega arith in rw next (offs k (omega arith))

-- If `free_page_tables` comes back, then `from` is a multiple of 4 MB and not 0, no long of memory
-- has changed but to 0, and no address from `from` on is mapped that lies below `from + size`, as
-- long as this is at most 2 ^ 32.
pub free_page_tables_lem :
    (from size : ℕ) (mm mm' : Mm)
    → free_page_tables from size mm ≡ ok mm'
    → from + size ≤ 2 ^ 32
    → (from % 2 ^ 22 ≡ 0)
      × (from ≢ 0)
      × IsZeroing mm mm'
      × ((address : ℕ) → from ≤ address → address < from + size → walk address mm' ≡ none)
unfolding free_page_tables walk
free_page_tables_lem from size mm mm' e fits =
    let rest = require (not (from == 0)) >> free_dirs (blocks size) (dir_of from) mm in
    let (al, e1) = require-eq-ok (is_aligned from) rest e in
    let (nz, e2) = require-eq-ok (not (from == 0)) (free_dirs (blocks size) (dir_of from) mm) e1 in
    let (z, off) = free_dirs_lem (blocks size) (dir_of from) mm mm' e2 in
    (
      ground arith,
      ground arith,
      z,
      λ address lo hi. rw (slot_off (ground arith) (ground arith) off address lo hi) refl,
    )
  where
    slot_off :
        from % 2 ^ 22 ≡ 0
        → from ≢ 0
        → ((k : ℕ) → k < blocks size → is_present (mm'.mem (dir_of from + k * 4)) ≡ false)
        → (address : ℕ) → from ≤ address
        → address < from + size
        → is_present (mm'.mem (dir_slot address)) ≡ false
    slot_off al nz off address lo hi =
        let slot : dir_slot address ≡ dir_of from + (address / 2 ^ 22 - from / 2 ^ 22) * 4 =
          omega arith in
        rw slot (off (address / 2 ^ 22 - from / 2 ^ 22) (omega arith))
