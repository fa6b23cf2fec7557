-- ===== src/Fs/Files/Duplicates.antt =====
-- Duplicates of a descriptor: `dupfd`, `sys_dup2` and `sys_fcntl`.
use linux.Prelude.{
  ℕ, suc, ◌-◌, ◌<◌, ◌≤◌, ◌≡◌, ◌≢◌, refl, sym, ap, ◌∙◌, arith, ◌⊎◌, inl, inr, Bool, true, false, not,
  Bool-cases, Option-cases, ◌==◌, leb, ltb, if◌then◌else◌, Option, none, some, update, update_ne,
  update_self, ℕ_discrete, Ret, ret, fail, einval, ebadf, emfile, ok, find_first, find_first-some,
  find_first-none, test_bit, test_bit-clear_bit_self,
}
use linux.Fs.Files.{Files, nr_open, dupfd, slot_from, sys_close, sys_dup2, file_of, is_open}
use linux.Fs.Files.Counts.{IsCounted, IsClosed, sys_close_lem, share_file-IsCounted}

-- How `dupfd` ends: with EBADF, EINVAL or EMFILE and nothing changed; or the first free descriptor
-- from `arg` on refers to the same open file and stays open over exec.
abbrev pub IsDuplicated : (fd arg : ℕ) → Files → Files → Ret → Type 0
IsDuplicated fd arg s s' r =
    ((file_of fd s ≡ none) × (r ≡ fail ebadf) × (s' ≡ s))
    ⊎ ((file_of fd s ≢ none) × (nr_open ≤ arg) × (r ≡ fail einval) × (s' ≡ s))
    ⊎ ((file_of fd s ≢ none)
        × (arg < nr_open)
        × ((i : ℕ) → arg ≤ i → i < nr_open → is_open (s.filp i) ≡ true)
        × (r ≡ fail emfile)
        × (s' ≡ s))
    ⊎ ((f : ℕ) × (slot : ℕ) × (file_of fd s ≡ some f)
        × (arg ≤ slot)
        × (slot < nr_open)
        × (s.filp slot ≡ none)
        × ((i : ℕ) → arg ≤ i → i < slot → is_open (s.filp i) ≡ true)
        × (r ≡ ret slot)
        × (s'.filp ≡ update s.filp slot (some f))
        × (test_bit slot s'.close_on_exec ≡ false))

not_open : (o : Option ℕ) → not (is_open o) ≡ true → o ≡ none
not_open none e = refl
not_open (some f) e = absurd (cc e)

still_open : (b : Bool) → not b ≡ false → b ≡ true
still_open true e = refl
still_open false e = sym e

some_file : (o : Option ℕ) (f : ℕ) → o ≡ some f → o ≢ none
some_file o f e n = cc (e, n)

slot_from-some :
    (filp : ℕ → Option ℕ) (arg slot : ℕ)
    → arg < nr_open
    → slot_from arg filp ≡ some slot
    → (arg ≤ slot)
      × (slot < nr_open)
      × (filp slot ≡ none)
      × ((i : ℕ) → arg ≤ i → i < slot → is_open (filp i) ≡ true)
unfolding slot_from
slot_from-some filp arg slot h e =
    let (lo, hi, free, before) =
      find_first-some (λ j. not (is_open (filp j))) (nr_open - arg) arg slot e in
    (
      lo,
      omega arith,
      not_open (filp slot) free,
      λ i l k. still_open (is_open (filp i)) (before i l k),
    )

-- When the counts of the open files are right, they stay right over `dupfd`, which ends in one of
-- the four ways.
pub dupfd_lem :
    (other : ℕ → ℕ) (fd arg : ℕ) (s : Files)
    → IsCounted other s
    → let (s', r) = dupfd fd arg s in IsCounted other s' × IsDuplicated fd arg s s' r
unfolding dupfd slot_from
dupfd_lem other fd arg s v = elim (Option-cases (file_of fd s)) [
  | inl closed ↦ rw (closed, dupfd) (v, inl (refl, refl, refl))
  | inr (f, opened) ↦ elim (Bool-cases (leb nr_open arg)) [
    | inl beyond ↦
        rw (opened, beyond, dupfd) (v, inr (inl (some_file _ f refl, ground arith, refl, refl)))
    | inr within ↦ elim (Option-cases (slot_from arg s.filp)) [
      | inl full ↦
          rw (opened, within, full, dupfd)
            (v, inr (inr (inl (some_file _ f refl, ground arith, all_open full, refl, refl))))
      | inr (slot, found) ↦
          rw (opened, within, found, dupfd)
            (let (lo, hi, free, before) = slot_from-some s.filp arg slot (ground arith) found in
              (
                share_file-IsCounted other s f slot v hi free,
                inr (
                    inr (
                      inr (
                        f,
                        slot,
                        refl,
                        lo,
                        hi,
                        free,
                        before,
                        refl,
                        refl,
                        test_bit-clear_bit_self slot s.close_on_exec,
                      ))),
              ))
    ]
  ]
]
  where
    all_open :
        slot_from arg s.filp ≡ none → (i : ℕ) → arg ≤ i → i < nr_open → is_open (s.filp i) ≡ true
    all_open full i lo hi = still_open (is_open (s.filp i)) (
        find_first-none (λ j. not (is_open (s.filp j))) (nr_open - arg) arg full i lo (omega arith))

slot_from-free :
    (filp : ℕ → Option ℕ) (arg : ℕ)
    → arg < nr_open
    → filp arg ≡ none
    → slot_from arg filp ≡ some arg
unfolding slot_from find_first
slot_from-free filp arg h free = rw (room, free) refl
  where
    room : nr_open - arg ≡ suc (nr_open - suc arg)
    room = omega arith

-- After `sys_close`, however it ends, the descriptor is empty and the others are as they were.
IsClosed-filp :
    (other : ℕ → ℕ) (fd : ℕ) (s s' : Files) (r : Ret)
    → fd < nr_open
    → IsClosed other fd s s' r
    → (i : ℕ) → s'.filp i ≡ update s.filp fd none i
IsClosed-filp other fd s s' r h (inr (f, fd_in, held, e, same, put)) i = ap (λ g. g i) same
IsClosed-filp other fd s s' r h (inl (inl beyond, e, same)) i = absurd (omega arith)
IsClosed-filp other fd s s' r h (inl (inr empty, e, same)) i = elim (ℕ_discrete fd i) [
  | yes at ↦
      ap (λ g. g.filp i) same
      ∙ ap s.filp (sym at)
      ∙ empty
      ∙ sym (update_self s.filp none fd)
      ∙ ap (update s.filp fd none) at
  | no ne ↦ ap (λ g. g.filp i) same ∙ sym (update_ne s.filp none ne)
]

-- How `sys_dup2` ends: both descriptors refer to the old one's file; or, if the old one is not open
-- or is the new one, EBADF. The new one has been closed then.
abbrev pub IsDup2 : (oldfd newfd : ℕ) → Files → Files → Ret → Type 0
IsDup2 oldfd newfd s s' r =
    ((f : ℕ) × (oldfd ≢ newfd)
      × (file_of oldfd s ≡ some f)
      × (r ≡ ret newfd)
      × ((i : ℕ) → s'.filp i ≡ update s.filp newfd (some f) i))
    ⊎ (((oldfd ≡ newfd) ⊎ (file_of oldfd s ≡ none))
        × (r ≡ fail ebadf)
        × ((i : ℕ) → s'.filp i ≡ update s.filp newfd none i))

file_of-filp : (fd : ℕ) (s s' : Files) → s'.filp fd ≡ s.filp fd → file_of fd s' ≡ file_of fd s
unfolding file_of
file_of-filp fd s s' e = ap (λ (o : Option ℕ). if ltb fd nr_open then o else none) e

file_of-none : (fd : ℕ) (s : Files) → s.filp fd ≡ none → file_of fd s ≡ none
unfolding file_of
file_of-none fd s e = elim (Bool-cases (ltb fd nr_open)) [
  | inl in_range ↦ rw in_range e
  | inr beyond ↦ rw beyond refl
]

update_twice :
    (g filp : ℕ → Option ℕ) (o : Option ℕ) (k i : ℕ)
    → g i ≡ update filp k none i
    → update g k o i ≡ update filp k o i
update_twice g filp o k i e = elim (Bool-cases (k == i)) [
  | inl at ↦ rw at refl
  | inr ne ↦ rw ne (rw ne at e)
]

-- `dupfd` when the new descriptor has just been emptied.
dupfd-IsDup2 :
    (oldfd newfd : ℕ) (s s₁ : Files)
    → newfd < nr_open
    → ((i : ℕ) → s₁.filp i ≡ update s.filp newfd none i)
    → IsDup2 oldfd newfd s (dupfd oldfd newfd s₁).0 (dupfd oldfd newfd s₁).1
unfolding dupfd
dupfd-IsDup2 oldfd newfd s s₁ h gone = elim (Option-cases (file_of oldfd s₁)) [
  | inl closed ↦ rw (closed, dupfd) (inr (why closed, refl, gone))
  | inr (f, opened) ↦
      rw (opened, within, slot_from-free s₁.filp newfd h empty, dupfd)
        (inl (
          f,
          apart f opened,
          sym (kept (apart f opened)) ∙ opened,
          refl,
          λ i. update_twice s₁.filp s.filp (some f) newfd i (gone i),
        ))
]
  where
    within : leb nr_open newfd ≡ false
    within = ground arith

    empty : s₁.filp newfd ≡ none
    empty = gone newfd ∙ update_self s.filp none newfd

    kept : oldfd ≢ newfd → file_of oldfd s₁ ≡ file_of oldfd s
    kept ne = file_of-filp oldfd s s₁ (gone oldfd ∙ update_ne s.filp none (λ e. ne (sym e)))

    apart : (f : ℕ) → file_of oldfd s₁ ≡ some f → oldfd ≢ newfd
    apart f opened e =
        some_file (file_of oldfd s₁) f opened (file_of-none oldfd s₁ (ap s₁.filp e ∙ empty))

    why : file_of oldfd s₁ ≡ none → (oldfd ≡ newfd) ⊎ (file_of oldfd s ≡ none)
    why closed = elim (ℕ_discrete oldfd newfd) [
      | yes e ↦ inl e
      | no ne ↦ inr (sym (kept ne) ∙ closed)
    ]

-- When the counts of the open files are right and the new descriptor is below NR_OPEN, `sys_dup2`
-- does not panic and they stay right; it ends in one of the two ways.
pub sys_dup2_lem :
    (other : ℕ → ℕ) (oldfd newfd : ℕ) (s : Files)
    → IsCounted other s
    → newfd < nr_open
    → (s' : Files) × (r : Ret) × (sys_dup2 oldfd newfd s ≡ ok (s', r))
      × IsCounted other s'
      × IsDup2 oldfd newfd s s' r
unfolding sys_dup2
sys_dup2_lem other oldfd newfd s v h = closed_first (sys_close_lem other newfd s v)
  where
    closed_first :
        (s₁ : Files) × (r₁ : Ret) × (sys_close newfd s ≡ ok (s₁, r₁))
          × IsCounted other s₁
          × IsClosed other newfd s s₁ r₁
        → (s' : Files) × (r : Ret) × (sys_dup2 oldfd newfd s ≡ ok (s', r))
          × IsCounted other s'
          × IsDup2 oldfd newfd s s' r
    closed_first (s₁, r₁, e, v₁, c) = (
      (dupfd oldfd newfd s₁).0,
      (dupfd oldfd newfd s₁).1,
      rw e refl,
      (dupfd_lem other oldfd newfd s₁ v₁).0,
      dupfd-IsDup2 oldfd newfd s s₁ h (IsClosed-filp other newfd s s₁ r₁ h c),
    )
