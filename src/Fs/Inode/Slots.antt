-- ===== src/Fs/Inode/Slots.antt =====
-- fs/inode.c: the blocks of a file as a map from their numbers, and the indirect blocks on the way.
use linux.Prelude.{
  ℕ, zero, suc, ◌+◌, ◌-◌, ◌*◌, ◌/◌, ◌%◌, ◌<◌, ◌≡◌, ◌≢◌, refl, sym, ap, ◌∙◌, arith, inl, inr, Bool,
  true, false, ◌==◌, ◌&&◌, ◌||◌, ltb, leb, if◌then◌else◌, Bool-cases, Option, none, some,
}
use mathlib.Core.Path.{ap₂}
use native.Mathlib.Decide.{ℕ_discrete}

-- Entry `i` of a block, 0 when there is no such block or it cannot be read.
abbrev pub peek : (ℕ → Option (ℕ → ℕ)) → (block : ℕ) → (i : ℕ) → ℕ
peek blocks block i =
    if block == 0 then 0 else elim (blocks block) as (λ _. ℕ) [ none ↦ 0 | some shorts ↦ shorts i ]

-- Indirect block number `x` of a file: that of the inode (0), the double one (1), and those that the
-- double one names (from 2 on). `entries` is `peek`.
abbrev pub indirect : (zone : ℕ → ℕ) → (entries : ℕ → ℕ → ℕ) → (x : ℕ) → ℕ
indirect zone entries zero = zone 7
indirect zone entries (suc zero) = zone 8
indirect zone entries (suc (suc a)) = entries (zone 8) a

-- Where block `k` of a file stands: in the inode, or in which indirect block, and at what place.
abbrev pub lookup : (zone : ℕ → ℕ) → (entries : ℕ → ℕ → ℕ) → (k : ℕ) → ℕ
lookup zone entries k =
    if ltb k 7
    then zone k
    else (if ltb (k - 7) 512
        then entries (indirect zone entries 0) (k - 7)
        else entries (indirect zone entries (2 + (k - 519) / 512)) ((k - 519) % 512))

abbrev pub file_blocks : ℕ
file_blocks = 7 + 512 + 512 * 512

abbrev pub some_indirect : ℕ
some_indirect = 514

-- The indirect blocks of a file are different from one another.
abbrev pub IsApart : (zone : ℕ → ℕ) → (entries : ℕ → ℕ → ℕ) → Type 0
IsApart zone entries =
    (x y : ℕ)
    → x < some_indirect
    → y < some_indirect
    → indirect zone entries x ≢ 0
    → indirect zone entries x ≡ indirect zone entries y
    → x ≡ y

-- The entries after block `n`, which is new, has been cleared.
abbrev pub cleared : (n : ℕ) → (ℕ → ℕ → ℕ) → ℕ → ℕ → ℕ
cleared n entries b i = if b == n then 0 else entries b i

-- And after entry `i` of block `c` has been set to it.
abbrev pub put : (c i n : ℕ) → (ℕ → ℕ → ℕ) → ℕ → ℕ → ℕ
put c i n entries b j = if b == c && j == i then n else entries b j

abbrev pub set : (k n : ℕ) → (ℕ → ℕ) → ℕ → ℕ
set k n zone j = if k == j then n else zone j

-- Is block `j` of the file entry `i` of indirect block number `x`?
abbrev pub is_slot : (x : ℕ) → (i : ℕ) → (j : ℕ) → Bool
is_slot x i j = (x == 0 && j == 7 + i) || (leb 2 x && j == 519 + (x - 2) * 512 + i)

module _ (zone : ℕ → ℕ) (entries : ℕ → ℕ → ℕ) (n : ℕ) (null : (i : ℕ) → entries 0 i ≡ 0)
    (nonzero : n ≢ 0) (new : (x : ℕ) → x < some_indirect → indirect zone entries x ≢ n) where
  -- A new block in the inode.
  pub indirect-zone :
      (k : ℕ)
      → k < 9
      → zone k ≡ 0
      → (x : ℕ) → x < some_indirect
      → indirect (set k n zone) (cleared n entries) x
        ≡ (if k == 7 + x && ltb x 2 then n else indirect zone entries x)
  indirect-zone k h e zero l = ground (arith, new 0 (omega arith))
  indirect-zone k h e (suc zero) l = ground (arith, new 1 (omega arith))
  indirect-zone k h e (suc (suc a)) l = ground (arith, new 1 (omega arith), null a, e)

  pub lookup-zone :
      (k : ℕ)
      → k < 9
      → zone k ≡ 0
      → (j : ℕ) → j < file_blocks
      → lookup (set k n zone) (cleared n entries) j
        ≡ (if j == k && ltb k 7 then n else lookup zone entries j)
  lookup-zone k h e j l = elim (Bool-cases (ltb j 7)) [
    | inl direct ↦ rw direct (ground arith)
    | inr beyond ↦ elim (Bool-cases (ltb (j - 7) 512)) [
      | inl single ↦ rw (beyond, single) (ground (arith, new 0 (omega arith), null (j - 7), e))
      | inr double ↦
          rw (beyond, double)
            (ap (λ (b : ℕ). cleared n entries b ((j - 519) % 512))
                (indirect-zone k h e (2 + (j - 519) / 512) (in_double j l))
              ∙ kept ((j - 519) % 512) beyond (new (2 + (j - 519) / 512) (in_double j l)))
    ]
  ]
    where
      in_double : (j : ℕ) → j < file_blocks → 2 + (j - 519) / 512 < some_indirect
      in_double j l = omega arith

      kept :
          (i : ℕ) {b : ℕ}
          → ltb j 7 ≡ false
          → b ≢ n
          → cleared n entries
              (if k == 7 + (2 + (j - 519) / 512) && ltb (2 + (j - 519) / 512) 2 then n else b)
              i
            ≡ (if j == k && ltb k 7 then n else entries b i)
      kept i p q = ground arith

  -- A new block in an indirect block.
  module _ (x i : ℕ) (in_x : x < some_indirect) (there : indirect zone entries x ≢ 0)
      (apart : IsApart zone entries) where
    abbrev after_put : ℕ → ℕ → ℕ
    after_put = put (indirect zone entries x) i n (cleared n entries)

    same_indirect :
        (y : ℕ)
        → y < some_indirect
        → (indirect zone entries y == indirect zone entries x) ≡ (y == x)
    same_indirect y l = elim (ℕ_discrete y x) [
      | yes e ↦ both _ _ (ap (indirect zone entries) e) e
      | no d ↦ neither _ _ (λ e. d (apart y x l in_x (λ q. there (sym e ∙ q)) e)) d
    ]
      where
        both : (a b : ℕ) → a ≡ b → y ≡ x → (a == b) ≡ (y == x)
        both a b p q = ground arith

        neither : (a b : ℕ) → a ≢ b → y ≢ x → (a == b) ≡ (y == x)
        neither a b p q = ground arith

    at_indirect :
        (y j : ℕ)
        → y < some_indirect
        → after_put (indirect zone entries y) j
          ≡ (if y == x && j == i then n else entries (indirect zone entries y) j)
    at_indirect y j l =
        ap (λ (c : Bool). if c && j == i then n else cleared n entries (indirect zone entries y) j)
          (same_indirect y l)
        ∙ old (indirect zone entries y) (new y l)
      where
        old :
            (b : ℕ)
            → b ≢ n
            → (if y == x && j == i then n else cleared n entries b j)
              ≡ (if y == x && j == i then n else entries b j)
        old b d = ground arith

    pub indirect-put :
        (y : ℕ)
        → y < some_indirect
        → indirect zone after_put y ≡ (if x == 1 && y == 2 + i then n else indirect zone entries y)
    indirect-put zero l = ground arith
    indirect-put (suc zero) l = ground arith
    indirect-put (suc (suc a)) l = at_indirect 1 a (omega arith) ∙ shift (entries (zone 8) a)
      where
        shift :
            (b : ℕ)
            → (if 1 == x && a == i then n else b)
              ≡ (if x == 1 && suc (suc a) == 2 + i then n else b)
        shift b = ground arith

    pub lookup-put :
        (j : ℕ)
        → j < file_blocks
        → i < 512
        → entries (indirect zone entries x) i ≡ 0
        → lookup zone after_put j ≡ (if is_slot x i j then n else lookup zone entries j)
    lookup-put j l h was = elim (Bool-cases (ltb j 7)) [
      | inl direct ↦ rw direct (in_inode (zone j) direct)
      | inr beyond ↦ elim (Bool-cases (ltb (j - 7) 512)) [
        | inl single ↦
            rw (beyond, single) (at_indirect 0 (j - 7) (omega arith) ∙ in_single _ beyond single)
        | inr double ↦ rw (beyond, double) (doubly beyond double)
      ]
    ]
      where
        in_inode : (b : ℕ) → ltb j 7 ≡ true → b ≡ (if is_slot x i j then n else b)
        in_inode b e = ground arith

        in_single :
            (b : ℕ)
            → ltb j 7 ≡ false
            → ltb (j - 7) 512 ≡ true
            → (if 0 == x && j - 7 == i then n else b) ≡ (if is_slot x i j then n else b)
        in_single b p q = ground arith

        a : ℕ
        a = (j - 519) / 512

        r : ℕ
        r = (j - 519) % 512

        in_double : 2 + (j - 519) / 512 < some_indirect
        in_double = omega arith

        two_on : (m : ℕ) → indirect zone entries (2 + m) ≡ entries (zone 8) m
        two_on m = ap (indirect zone entries) (add_two m)
          where
            add_two : (m : ℕ) → 2 + m ≡ suc (suc m)
            add_two m = omega arith

        first : (x == 1 && 2 + a == 2 + i) ≡ true → x ≡ 1
        first e = ground arith

        second : (x == 1 && 2 + a == 2 + i) ≡ true → 2 + a ≡ 2 + i
        second e = ground arith

        not_slot : x ≡ 1 → is_slot x i j ≡ false
        not_slot e = ground arith

        fresh : (b : ℕ) → b ≢ n → (if n == b && r == i then n else cleared n entries n r) ≡ 0
        fresh b d = ground arith

        same_slot :
            ltb j 7 ≡ false → ltb (j - 7) 512 ≡ false → (2 + a == x && r == i) ≡ is_slot x i j
        same_slot p q = ground arith

        doubly :
            ltb j 7 ≡ false
            → ltb (j - 7) 512 ≡ false
            → after_put (indirect zone after_put (2 + a)) r
              ≡ (if is_slot x i j then n else entries (indirect zone entries (2 + a)) r)
        doubly p q = elim (Bool-cases (x == 1 && 2 + a == 2 + i)) [
          | inl created ↦
              let one : x ≡ 1 = first created in
              let here : 2 + a ≡ 2 + i = second created in
              ap (λ (b : ℕ). after_put b r) (indirect-put (2 + a) in_double ∙ rw created refl)
              ∙ fresh (indirect zone entries x) (new x in_x)
              ∙ sym (
                  ap (λ (c : Bool). if c then n else entries (indirect zone entries (2 + a)) r)
                    (not_slot one)
                  ∙ ap (λ (b : ℕ). entries b r)
                      (ap (indirect zone entries) here
                        ∙ two_on i
                        ∙ ap (λ (y : ℕ). entries (indirect zone entries y) i) (sym one)
                        ∙ was)
                  ∙ null r)
          | inr old ↦
              ap (λ (b : ℕ). after_put b r) (indirect-put (2 + a) in_double ∙ rw old refl)
              ∙ at_indirect (2 + a) r in_double
              ∙ ap (λ (c : Bool). if c then n else entries (indirect zone entries (2 + a)) r)
                  (same_slot p q)
        ]

-- The block at a slot is that entry.
pub lookup_at_slot :
    (zone : ℕ → ℕ) (entries : ℕ → ℕ → ℕ) (x i j : ℕ)
    → i < 512
    → is_slot x i j ≡ true
    → lookup zone entries j ≡ entries (indirect zone entries x) i
lookup_at_slot zone entries zero i j h e = rw (ge_7 e, single e) (ap (entries (zone 7)) (place e))
  where
    ge_7 : is_slot 0 i j ≡ true → ltb j 7 ≡ false
    ge_7 e = ground arith

    single : is_slot 0 i j ≡ true → ltb (j - 7) 512 ≡ true
    single e = ground arith

    place : is_slot 0 i j ≡ true → j - 7 ≡ i
    place e = ground arith
lookup_at_slot zone entries (suc zero) i j h e = absurd (no_slot e)
  where
    no_slot : is_slot 1 i j ≡ true → ⊥
    no_slot e = ground arith
lookup_at_slot zone entries (suc (suc a)) i j h e =
    rw (ge_7 e, double e)
      (ap₂ (λ (y r : ℕ). entries (indirect zone entries y) r) (which e) (place e))
  where
    ge_7 : is_slot (suc (suc a)) i j ≡ true → ltb j 7 ≡ false
    ge_7 e = ground arith

    double : is_slot (suc (suc a)) i j ≡ true → ltb (j - 7) 512 ≡ false
    double e = ground arith

    which : is_slot (suc (suc a)) i j ≡ true → 2 + (j - 519) / 512 ≡ suc (suc a)
    which e = ground arith

    place : is_slot (suc (suc a)) i j ≡ true → (j - 519) % 512 ≡ i
    place e = ground arith
