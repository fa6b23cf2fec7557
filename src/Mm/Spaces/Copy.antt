-- ===== src/Mm/Spaces/Copy.antt =====
-- mm/memory.c: the inner loop of copy_page_tables.
use linux.Prelude.{
  ℕ, zero, suc, ◌+◌, ◌*◌, ◌^◌, ◌≤◌, ◌<◌, ◌≡◌, ◌≢◌, ◌⊎◌, refl, ap, ◌∙◌, arith, ◌==◌, ltb, ◌&&◌,
  if◌then◌else◌, clear_bit,
}
use mathlib.Core.Path.{ap₂}
use linux.Mm.Frames.{Mm, low_mem, map_nr}
use linux.Mm.Pages.{is_present}
use linux.Mm.Spaces.{share_frame, copy_entry, copy_entries}

-- What becomes of an entry of the parent's and of the child's table.
abbrev pub parent_entry : ℕ → ℕ
parent_entry e = if is_present e && ltb low_mem (clear_bit 1 e) then clear_bit 1 e else e

abbrev pub child_entry : ℕ → ℕ → ℕ
child_entry e old = if is_present e then clear_bit 1 e else old

-- 1 if copying the entry adds a user to the frame.
abbrev pub shares : ℕ → ℕ → ℕ
shares frame e =
    if is_present e && ltb low_mem (clear_bit 1 e) && map_nr (clear_bit 1 e) == frame then 1 else 0

shares-le : (frame e : ℕ) → shares frame e ≤ 1
shares-le frame e = ground arith

-- How many of the `n` entries from `table` on do.
pub users : ℕ → ℕ → ℕ → (ℕ → ℕ) → ℕ
users frame zero table mem = 0
users frame (suc n) table mem = shares frame (mem table) + users frame n (table + 4) mem

copy_entry-from : (s d : ℕ) (mm : Mm) → s ≢ d → (copy_entry s d mm).mem s ≡ parent_entry (mm.mem s)
unfolding copy_entry share_frame
copy_entry-from s d mm ne = ground arith

copy_entry-to :
    (s d : ℕ) (mm : Mm) → s ≢ d → (copy_entry s d mm).mem d ≡ child_entry (mm.mem s) (mm.mem d)
unfolding copy_entry share_frame
copy_entry-to s d mm ne = ground arith

copy_entry_outside : (s d a : ℕ) (mm : Mm) → a ≢ s → a ≢ d → (copy_entry s d mm).mem a ≡ mm.mem a
unfolding copy_entry share_frame
copy_entry_outside s d a mm p q = ground arith

copy_entry_users :
    (s d frame : ℕ) (mm : Mm)
    → mm.mem_map frame + 1 < 2 ^ 16
    → (copy_entry s d mm).mem_map frame ≡ mm.mem_map frame + shares frame (mm.mem s)
unfolding copy_entry share_frame
copy_entry_users s d frame mm h = ground arith

copy_entries_outside :
    (n s d a : ℕ) (mm : Mm)
    → ((a < s) ⊎ (s + n * 4 ≤ a))
    → ((a < d) ⊎ (d + n * 4 ≤ a))
    → (copy_entries n s d mm).mem a ≡ mm.mem a
unfolding copy_entries
copy_entries_outside zero s d a mm p q = refl
copy_entries_outside (suc n) s d a mm p q =
    copy_entries_outside n (s + 4) (d + 4) a (copy_entry s d mm) (omega arith) (omega arith)
    ∙ copy_entry_outside s d a mm (omega arith) (omega arith)

-- The two tables lie apart.
abbrev pub IsApart : ℕ → ℕ → ℕ → Type 0
IsApart n s d = (s + n * 4 ≤ d) ⊎ (d + n * 4 ≤ s)

module _ (n s d : ℕ) (mm : Mm) where
  -- Copying the first entry changes none of the others.
  others_kept :
      (k : ℕ)
      → k < n
      → IsApart (suc n) s d
      → ((copy_entry s d mm).mem (s + 4 + k * 4) ≡ mm.mem (s + 4 + k * 4))
        × ((copy_entry s d mm).mem (d + 4 + k * 4) ≡ mm.mem (d + 4 + k * 4))
  others_kept k l apart = (
    copy_entry_outside s d (s + 4 + k * 4) mm (omega arith) (omega arith),
    copy_entry_outside s d (d + 4 + k * 4) mm (omega arith) (omega arith),
  )

copy_entries_at :
    (n s d : ℕ) (mm : Mm)
    → IsApart n s d
    → (k : ℕ) → k < n
    → ((copy_entries n s d mm).mem (s + k * 4) ≡ parent_entry (mm.mem (s + k * 4)))
      × ((copy_entries n s d mm).mem (d + k * 4)
          ≡ child_entry (mm.mem (s + k * 4)) (mm.mem (d + k * 4)))
unfolding copy_entries
copy_entries_at zero s d mm apart k l = absurd (omega arith)
copy_entries_at (suc n) s d mm apart zero l =
    let s0 : s + 0 * 4 ≡ s = omega arith in
    let d0 : d + 0 * 4 ≡ d = omega arith in
    rw (s0, d0)
      (
        copy_entries_outside n (s + 4) (d + 4) s (copy_entry s d mm) (omega arith) (omega arith)
            ∙ copy_entry-from s d mm (omega arith),
        copy_entries_outside n (s + 4) (d + 4) d (copy_entry s d mm) (omega arith) (omega arith)
            ∙ copy_entry-to s d mm (omega arith),
      )
copy_entries_at (suc n) s d mm apart (suc k) l =
    let sk : s + suc k * 4 ≡ s + 4 + k * 4 = omega arith in
    let dk : d + suc k * 4 ≡ d + 4 + k * 4 = omega arith in
    let (a, b) =
      copy_entries_at n (s + 4) (d + 4) (copy_entry s d mm) (omega arith) k (omega arith) in
    let (p, q) = others_kept n s d mm k (omega arith) apart in
    rw (sk, dk) (a ∙ ap parent_entry p, b ∙ ap₂ child_entry p q)

users-copy_entry :
    (frame n s d : ℕ) (mm : Mm) (t : ℕ)
    → ((s + 4 ≤ t) ⊎ (t + n * 4 ≤ s))
    → ((d + 4 ≤ t) ⊎ (t + n * 4 ≤ d))
    → users frame n t (copy_entry s d mm).mem ≡ users frame n t mm.mem
unfolding users
users-copy_entry frame zero s d mm t p q = refl
users-copy_entry frame (suc n) s d mm t p q =
    ap₂ ◌+◌ (ap (shares frame) (copy_entry_outside s d t mm (omega arith) (omega arith)))
      (users-copy_entry frame n s d mm (t + 4) (omega arith) (omega arith))

copy_entries-users :
    (frame n s d : ℕ) (mm : Mm)
    → IsApart n s d
    → mm.mem_map frame + n < 2 ^ 16
    → (copy_entries n s d mm).mem_map frame ≡ mm.mem_map frame + users frame n s mm.mem
unfolding copy_entries users
copy_entries-users frame zero s d mm apart h = omega arith
copy_entries-users frame (suc n) s d mm apart h =
    let first = copy_entry_users s d frame mm (omega arith) in
    let rest =
      copy_entries-users frame n (s + 4) (d + 4) (copy_entry s d mm) (omega arith)
        (omega (arith, first, shares-le frame (mm.mem s))) in
    omega (arith, first, rest, users-copy_entry frame n s d mm (s + 4) (omega arith) (omega arith))

-- The loop over `n` entries of a parent's table at `s` and a child's table at `d` that do not
-- overlap: every present entry is copied to the child without its write bit; the parent's own entry
-- loses its write bit exactly if the page lies above LOW_MEM; absent entries change neither table;
-- nothing outside the two tables changes; and each frame gains as many users as entries above
-- LOW_MEM refer to it, if the counts stay below 2 ^ 16.
pub copy_entries_lem :
    (n s d : ℕ) (mm : Mm)
    → IsApart n s d
    → ((frame : ℕ) → mm.mem_map frame + n < 2 ^ 16)
    → let mm' = copy_entries n s d mm in
      ((k : ℕ)
        → k < n
        → (mm'.mem (s + k * 4) ≡ parent_entry (mm.mem (s + k * 4)))
          × (mm'.mem (d + k * 4) ≡ child_entry (mm.mem (s + k * 4)) (mm.mem (d + k * 4))))
      × ((a : ℕ) → ((a < s) ⊎ (s + n * 4 ≤ a)) → ((a < d) ⊎ (d + n * 4 ≤ a)) → mm'.mem a ≡ mm.mem a)
      × ((frame : ℕ) → mm'.mem_map frame ≡ mm.mem_map frame + users frame n s mm.mem)
copy_entries_lem n s d mm apart few = (
  copy_entries_at n s d mm apart,
  (λ a p q. copy_entries_outside n s d a mm p q),
  λ frame. copy_entries-users frame n s d mm apart (few frame),
)
