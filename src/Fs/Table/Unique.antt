-- ===== src/Fs/Table/Unique.antt =====
-- fs/inode.c: when a table of inodes is well formed, and what other tasks may do to it.
use linux.Prelude.{
  ◌%◌, ◌^◌, ℕ, zero, suc, ◌<◌, ◌≡◌, ◌≢◌, refl, sym, ap, ◌∙◌, arith, inl, inr, Bool, true, false,
  ◌==◌, leb, if◌then◌else◌, Bool-cases, Option, some, List, update, update_self, update_ne,
}
use mathlib.Core.Path.{ap₂, Path, subst}
use native.Mathlib.Decide.{ℕ_discrete}
use linux.Fs.Buffer.{Run, done, panics, unfinished, after}
use linux.Fs.Truncate.Owned.{member}
use linux.Fs.Table.{Entry, Inodes, Waiting, nr_inode, set_entry}
use linux.Fs.Table.Calls.{named_entry, next_free}

-- Two entries in use stand for two inodes, and the last entry given is one of the table.
pub record IsTable (s : Inodes) : Type 0 where
  pub unique :
      (i j : ℕ)
      → i < nr_inode
      → j < nr_inode
      → (s.table i).dev ≢ 0
      → (s.table i).dev ≡ (s.table j).dev
      → (s.table i).num ≡ (s.table j).num
      → i ≡ j
  pub last_in : s.last < nr_inode

-- An entry that stands for no inode, with one reference.
abbrev pub IsReserved : ℕ → Inodes → Type 0
IsReserved e s = ((s.table e).dev ≡ 0) × ((s.table e).count ≡ 1)

-- While a task waits the others keep no inode twice, an entry that the task has a reference to
-- stands for the same inode, and one that it has reserved stays as it is.
pub record IsFair (wait : Waiting) : Type 0 where
  pub sound : (held : List ℕ) (i : ℕ) (s : Inodes) → IsTable s → IsTable (wait held i s)
  pub kept :
      (held : List ℕ) (i : ℕ) (s : Inodes) (e : ℕ)
      → member e held ≡ true
      → (((wait held i s).table e).dev ≡ (s.table e).dev)
        × (((wait held i s).table e).num ≡ (s.table e).num)
  pub alone :
      (held : List ℕ) (i : ℕ) (s : Inodes) (e : ℕ)
      → member e held ≡ true
      → IsReserved e s
      → IsReserved e (wait held i s)

-- What `iget` gives: an entry of that inode, in a table that has no inode twice.
abbrev pub IsGot : (dev nr : ℕ) → ℕ × Inodes → Type 0
IsGot dev nr r =
    (r.0 < nr_inode) × IsTable r.1 × ((r.1.table r.0).dev ≡ dev) × ((r.1.table r.0).num ≡ nr)

-- `named_entry` without the cut to unsigned shorts.
abbrev pub plainly_named : (dev nr : ℕ) → (i : ℕ) → Inodes → Inodes
plainly_named dev nr i s = set_entry i (record (s.table i) { dev = dev; num = nr }) s

pub named_entry-short :
    (dev nr i : ℕ) (s : Inodes)
    → dev < 2 ^ 16
    → nr < 2 ^ 16
    → named_entry dev nr i s ≡ plainly_named dev nr i s
named_entry-short dev nr i s p q =
    ap₂ (λ (a b : ℕ). set_entry i (record (s.table i) { dev = a; num = b }) s) (same dev p)
      (same nr q)
  where
    same : (m : ℕ) → m < 2 ^ 16 → m % 2 ^ 16 ≡ m
    same m h = omega arith

-- When a routine comes back, this holds of what it gives.
abbrev pub Ends : {A : Type 0} → (A → Type 0) → Run A → Type 0
Ends P (done value) = P value
Ends P panics = true ≡ true
Ends P unfinished = true ≡ true

pub after-Ends :
    {A B : Type 0} (P : A → Type 0) (Q : B → Type 0) (first : Run A) (next : A → Run B)
    → Ends P first
    → ((value : A) → P value → Ends Q (next value))
    → Ends Q (after first next)
after-Ends P Q (done value) next p f = f value p
after-Ends P Q panics next p f = refl
after-Ends P Q unfinished next p f = refl

pub if-Ends :
    {A : Type 0} (P : A → Type 0) (c : Bool) (r r' : Run A)
    → (c ≡ true → Ends P r)
    → (c ≡ false → Ends P r')
    → Ends P (if c then r else r')
if-Ends P true r r' f g = f refl
if-Ends P false r r' f g = g refl

-- An entry is set to one that stands for no other's inode.
pub set_entry-IsTable :
    (i : ℕ) (e : Entry) (s : Inodes)
    → IsTable s
    → ((j : ℕ)
        → j < nr_inode
        → i ≢ j
        → e.dev ≢ 0
        → e.dev ≡ (s.table j).dev
        → e.num ≢ (s.table j).num)
    → IsTable (set_entry i e s)
set_entry-IsTable i e s t new = record { unique = single; last_in = t.last_in }
  where
    here : (j : ℕ) → i ≡ j → update s.table i e j ≡ e
    here j q = ap (update s.table i e) (sym q) ∙ update_self s.table e i

    dev : Entry → ℕ
    dev e = e.dev

    num : Entry → ℕ
    num e = e.num

    there : (j : ℕ) → i ≢ j → update s.table i e j ≡ s.table j
    there j d = update_ne s.table e d

    single :
        (j k : ℕ)
        → j < nr_inode
        → k < nr_inode
        → (update s.table i e j).dev ≢ 0
        → (update s.table i e j).dev ≡ (update s.table i e k).dev
        → (update s.table i e j).num ≡ (update s.table i e k).num
        → j ≡ k
    single j k l m d p q = elim (ℕ_discrete i j) [
      | yes a ↦ elim (ℕ_discrete i k) [
        | yes b ↦ sym a ∙ b
        | no b ↦ absurd (
            new k m b (λ z. d (ap dev (here j a) ∙ z))
              (sym (ap dev (here j a)) ∙ p ∙ ap dev (there k b))
              (sym (ap num (here j a)) ∙ q ∙ ap num (there k b)))
      ]
      | no a ↦ elim (ℕ_discrete i k) [
        | yes b ↦ absurd (
            new j l a (λ z. d (p ∙ ap dev (here k b) ∙ z))
              (sym (ap dev (here k b)) ∙ sym p ∙ ap dev (there j a))
              (sym (ap num (here k b)) ∙ sym q ∙ ap num (there j a)))
        | no b ↦
            t.unique j k l m (λ z. d (ap dev (there j a) ∙ z))
              (sym (ap dev (there j a)) ∙ p ∙ ap dev (there k b))
              (sym (ap num (there j a)) ∙ q ∙ ap num (there k b))
      ]
    ]

-- It stands for the same inode as before.
pub same-IsTable :
    (i : ℕ) (e : Entry) (s : Inodes)
    → i < nr_inode
    → IsTable s
    → e.dev ≡ (s.table i).dev
    → e.num ≡ (s.table i).num
    → IsTable (set_entry i e s)
same-IsTable i e s l t p q =
    set_entry-IsTable i e s t
      (λ j m d nonzero a b. d (t.unique i j l m (λ z. nonzero (p ∙ z)) (sym p ∙ a) (sym q ∙ b)))

-- It stands for none.
pub none-IsTable :
    (i : ℕ) (e : Entry) (s : Inodes) → IsTable s → e.dev ≡ 0 → IsTable (set_entry i e s)
none-IsTable i e s t z = set_entry-IsTable i e s t (λ j m d nonzero. absurd (nonzero z))

-- The free entry is one of the table.
pub next_free-in :
    (n from : ℕ) (s : Inodes) (i : ℕ) → from < nr_inode → next_free n from s ≡ some i → i < nr_inode
unfolding next_free
next_free-in zero from s i l e = cc
next_free-in (suc n) from s i l e = elim (Bool-cases ((s.table from).count == 0)) [
  | inl free ↦ subst (λ (j : ℕ). j < nr_inode) (the_one (sym (ap pick free) ∙ e)) l
  | inr used ↦
      next_free-in n (if leb nr_inode (suc from) then 0 else suc from) s i (round from)
        (sym (ap pick used) ∙ e)
]
  where
    pick : Bool → Option ℕ
    pick c =
        if c then some from else next_free n (if leb nr_inode (suc from) then 0 else suc from) s

    the_one : Path (Option ℕ) (some from) (some i) → from ≡ i
    the_one q = cc

    round : (from : ℕ) → (if leb 32 (suc from) then 0 else suc from) < 32
    round from = ground arith
