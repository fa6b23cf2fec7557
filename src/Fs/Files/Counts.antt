-- ===== src/Fs/Files/Counts.antt =====
-- The counts of the open files against the descriptors that refer to them.
use linux.Prelude.{
  ℕ, zero, suc, ◌+◌, ◌-◌, ◌%◌, ◌^◌, ◌<◌, ◌≤◌, ◌≡◌, refl, sym, ap, ◌∙◌, arith, ◌⊎◌, inl, inr, false,
  Bool-cases, Option-cases, ◌==◌, leb, if◌then◌else◌, Option, none, some, update, update_ne,
  update_self, ℕ_discrete, Ret, ret, fail, einval, ok, ◌∷◌, clear_bit,
}
use linux.Fs.Files.{Files, nr_open, share_file, sys_close, drop_file}

abbrev pub is_file : (f : ℕ) → Option ℕ → ℕ
is_file f none = 0
is_file f (some g) = if f == g then 1 else 0

-- The descriptors among the first `n` that refer to the file.
unfoldable pub refs : (ℕ → Option ℕ) → (f : ℕ) → (n : ℕ) → ℕ
refs filp f zero = 0
refs filp f (suc n) = refs filp f n + is_file f (filp n)

-- `other f` descriptors of other tasks refer to the file `f`; there are too few tasks for the
-- count to wrap round.
pub record IsCounted (other : ℕ → ℕ) (s : Files) : Type 0 where
  pub counts : (f : ℕ) → s.f_count f ≡ other f + refs s.filp f nr_open
  pub bound : (f : ℕ) → other f + nr_open < 2 ^ 16

refs-update_above :
    (filp : ℕ → Option ℕ) (o : Option ℕ) (f i n : ℕ)
    → n ≤ i
    → refs (update filp i o) f n ≡ refs filp f n
unfolding refs
refs-update_above filp o f i zero h = refl
refs-update_above filp o f i (suc n) h =
    rw
      (
        refs-update_above filp o f i n (omega arith),
        update_ne filp o {i = i} {j = n} (λ e. omega arith),
      )
      refl

pub refs-update :
    (filp : ℕ → Option ℕ) (o : Option ℕ) (f i n : ℕ)
    → i < n
    → refs (update filp i o) f n + is_file f (filp i) ≡ refs filp f n + is_file f o
unfolding refs
refs-update filp o f i zero h = absurd (omega arith)
refs-update filp o f i (suc n) h = elim (ℕ_discrete i n) [
  | yes e ↦ omega (
    arith,
    refs-update_above filp o f i n (omega arith),
    ap (λ k. is_file f (update filp k o n)) e ∙ ap (is_file f) (update_self filp o n),
    ap (λ k. is_file f (filp k)) e,
  )
  | no ne ↦
      omega (arith, refs-update filp o f i n (omega arith), ap (is_file f) (update_ne filp o ne))
]

pub refs_le : (filp : ℕ → Option ℕ) (f n : ℕ) → refs filp f n ≤ n
unfolding refs
refs_le filp f zero = omega arith
refs_le filp f (suc n) = omega (arith, refs_le filp f n, is_file_le (filp n))
  where
    is_file_le : (o : Option ℕ) → is_file f o ≤ 1
    is_file_le none = omega arith
    is_file_le (some g) = ground arith

one_more :
    (f g a b r r' o : ℕ)
    → b ≡ o + r
    → (f ≡ g → a ≡ b)
    → o + nr_open < 2 ^ 16
    → r' ≤ nr_open
    → r + is_file g (some f) ≡ r' + 0
    → (if f == g then (a + 1) % 2 ^ 16 else b) ≡ o + r'
one_more f g a b r r' o e same small le step = ground arith

-- A free slot takes a file.
pub share_file-IsCounted :
    (other : ℕ → ℕ) (s : Files) (f slot : ℕ)
    → IsCounted other s
    → slot < nr_open
    → s.filp slot ≡ none
    → IsCounted other (share_file f slot s)
share_file-IsCounted other s f slot v h free = record { counts = counted; bound = v.bound }
  where
    counted :
        (g : ℕ)
        → update s.f_count f ((s.f_count f + 1) % 2 ^ 16) g
          ≡ other g + refs (update s.filp slot (some f)) g nr_open
    counted g =
        one_more f g (s.f_count f) (s.f_count g) (refs s.filp g nr_open)
          (refs (update s.filp slot (some f)) g nr_open) (other g) (v.counts g) (ap s.f_count)
          (v.bound g) (refs_le (update s.filp slot (some f)) g nr_open)
          (sym (rw free at (refs-update s.filp (some f) g slot nr_open h)))

one_less :
    (f g a b r r' o : ℕ)
    → b ≡ o + r
    → (f ≡ g → a ≡ b)
    → r + 0 ≡ r' + is_file g (some f)
    → (if f == g then a - 1 else b) ≡ o + r'
one_less f g a b r r' o e same step = ground arith

-- A descriptor gives its file up.
pub drop_file-IsCounted :
    (other : ℕ → ℕ) (s : Files) (f fd c : ℕ)
    → IsCounted other s
    → fd < nr_open
    → s.filp fd ≡ some f
    → IsCounted other (drop_file f (record s { close_on_exec = c; filp = update s.filp fd none }))
drop_file-IsCounted other s f fd c v h held = record { counts = counted; bound = v.bound }
  where
    counted :
        (g : ℕ)
        → update s.f_count f (s.f_count f - 1) g ≡ other g + refs (update s.filp fd none) g nr_open
    counted g =
        one_less f g (s.f_count f) (s.f_count g) (refs s.filp g nr_open)
          (refs (update s.filp fd none) g nr_open) (other g) (v.counts g) (ap s.f_count)
          (sym (rw held at (refs-update s.filp none g fd nr_open h)))

at_least_one : (f b r r' o : ℕ) → b ≡ o + r → r' + is_file f (some f) ≡ r + 0 → 0 < b
at_least_one f b r r' o e step = ground arith

-- An open descriptor's file has a count.
counted_pos :
    (other : ℕ → ℕ) (s : Files) (f fd : ℕ)
    → IsCounted other s
    → fd < nr_open
    → s.filp fd ≡ some f
    → 0 < s.f_count f
counted_pos other s f fd v h held =
    at_least_one f (s.f_count f) (refs s.filp f nr_open) (refs (update s.filp fd none) f nr_open)
      (other f) (v.counts f) (rw held at (refs-update s.filp none f fd nr_open h))

not_zero : (n : ℕ) → 0 < n → (n == 0) ≡ false
not_zero n h = ground arith

-- The files when `sys_close` has emptied the descriptor.
abbrev gone_from : Files → (fd : ℕ) → Files
gone_from s fd = record s {
  close_on_exec = clear_bit fd s.close_on_exec;
  filp = update s.filp fd none;
}

left_over :
    (other : ℕ → ℕ) (s : Files) (f fd : ℕ)
    → IsCounted other s
    → fd < nr_open
    → s.filp fd ≡ some f
    → s.f_count f - 1 ≡ other f + refs (update s.filp fd none) f nr_open
left_over other s f fd v h held =
    sym (update_self s.f_count (s.f_count f - 1) f)
    ∙ (drop_file-IsCounted other s f fd 0 v h held).counts f

-- How `sys_close` ends: with EINVAL and the same files, or with the descriptor closed; then the
-- inode of the file is released if no descriptor of any task refers to the file any more.
abbrev pub IsClosed : (other : ℕ → ℕ) → (fd : ℕ) → Files → Files → Ret → Type 0
IsClosed other fd s s' r =
    (((nr_open ≤ fd) ⊎ (s.filp fd ≡ none))
      × (r ≡ fail einval)
      × (s' ≡ record s { close_on_exec = s'.close_on_exec }))
    ⊎ ((f : ℕ) × (fd < nr_open)
        × (s.filp fd ≡ some f)
        × (r ≡ ret 0)
        × (s'.filp ≡ update s.filp fd none)
        × (s'.iputs
            ≡ (if other f + refs s'.filp f nr_open == 0 then s.f_inode f ∷ s.iputs else s.iputs)))

-- When the counts of the open files are right, `sys_close` does not panic, and they stay right. It
-- closes the descriptor if it is open, and calls `iput` exactly if no descriptor is left; if the
-- descriptor is not open it returns EINVAL and changes at most the close-on-exec bits.
pub sys_close_lem :
    (other : ℕ → ℕ) (fd : ℕ) (s : Files)
    → IsCounted other s
    → (s' : Files) × (r : Ret) × (sys_close fd s ≡ ok (s', r))
      × IsCounted other s'
      × IsClosed other fd s s' r
unfolding sys_close
sys_close_lem other fd s v = elim (Bool-cases (leb nr_open fd)) [
  | inl beyond ↦ (s, fail einval, rw beyond refl, v, inl (inl (ground arith), refl, refl))
  | inr within ↦ elim (Option-cases (s.filp fd)) [
    | inl closed ↦ (
      record s { close_on_exec = clear_bit fd s.close_on_exec },
      fail einval,
      rw (within, closed) refl,
      record { counts = v.counts; bound = v.bound },
      inl (inr closed, refl, refl),
    )
    | inr (f, held) ↦ (
      drop_file f (gone_from s fd),
      ret 0,
      rw (within, held, not_zero (s.f_count f) (counted_pos other s f fd v (ground arith) held))
          refl,
      drop_file-IsCounted other s f fd (clear_bit fd s.close_on_exec) v (ground arith) held,
      inr (
        f,
        ground arith,
        held,
        refl,
        refl,
        ap (λ (n : ℕ). if n == 0 then s.f_inode f ∷ s.iputs else s.iputs)
            (left_over other s f fd v (ground arith) held),
      ),
    )
  ]
]
