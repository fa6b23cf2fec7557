-- ===== src/Fs/Volume/Words.antt =====
-- fs/bitmap.c: the bits of a bitmap, and the search for the first that is 0.
use linux.Prelude.{
  ℕ, zero, suc, ◌+◌, ◌-◌, ◌*◌, ◌/◌, ◌%◌, ◌<◌, ◌≤◌, ◌≡◌, ◌≢◌, sym, ap, ◌∙◌, arith, ◌⊎◌, inl, inr,
  Bool, true, false, not, ◌==◌, ltb, ltb→lt, if◌then◌else◌, Bool-cases, Option-cases, update,
  update_self, update_ne, Option, none, some, test_bit, set_bit, clear_bit, find_first,
  find_first-some, find_first-none, test_bit-set_bit_self, test_bit-set_bit_ne,
  test_bit-clear_bit_self, test_bit-clear_bit_ne,
}
use mathlib.Core.Path.{ap₂, subst}
use native.Mathlib.Decide.{ℕ_discrete}
use linux.Fs.Volume.{
  MapBlock, map_bit, set_map_bit, clear_map_bit, scan_words, find_first_zero, search,
}

pub eq_of : (i j : ℕ) → (i == j) ≡ true → i ≡ j
eq_of i j e = ground arith

pub ne_of : (i j : ℕ) → (i == j) ≡ false → i ≢ j
ne_of i j e = ground arith

-- A long changed at one bit.
module _ (b : Bool) (change : ℕ → ℕ → ℕ) (self : (k w : ℕ) → test_bit k (change k w) ≡ b)
    (other : (j k w : ℕ) → j ≢ k → test_bit j (change k w) ≡ test_bit j w) where
  abbrev change_map : ℕ → (ℕ → ℕ) → ℕ → ℕ
  change_map nr words = update words (nr / 32) (change (nr % 32) (words (nr / 32)))

  same_long :
      (nr : ℕ) (words : ℕ → ℕ) (k : ℕ)
      → nr / 32 ≡ k / 32
      → change_map nr words (k / 32) ≡ change (nr % 32) (words (k / 32))
  same_long nr words k e =
      ap (λ (i : ℕ). update words i (change (nr % 32) (words i)) (k / 32)) e
      ∙ update_self words (change (nr % 32) (words (k / 32))) (k / 32)

  map_bit-change :
      (nr : ℕ) (words : ℕ → ℕ) (k : ℕ)
      → map_bit (change_map nr words) k ≡ (if nr == k then b else map_bit words k)
  map_bit-change nr words k = elim (Bool-cases (nr == k)) [
    | inl y ↦ rw y (
        ap (test_bit (k % 32)) (same_long nr words k (ap (λ (i : ℕ). i / 32) (eq_of nr k y)))
        ∙ ap (λ (i : ℕ). test_bit (k % 32) (change (i % 32) (words (k / 32)))) (eq_of nr k y)
        ∙ self (k % 32) (words (k / 32)))
    | inr n ↦ rw n (elsewhere (ne_of nr k n))
  ]
    where
      elsewhere : nr ≢ k → map_bit (change_map nr words) k ≡ map_bit words k
      elsewhere n = elim (ℕ_discrete (nr / 32) (k / 32)) [
        | yes e ↦
            ap (test_bit (k % 32)) (same_long nr words k e)
            ∙ other (k % 32) (nr % 32) (words (k / 32)) (λ q. n (omega (arith, e, q)))
        | no m ↦ ap (test_bit (k % 32)) (update_ne words (change (nr % 32) (words (nr / 32))) m)
      ]

pub map_bit-set :
    (nr : ℕ) (words : ℕ → ℕ) (k : ℕ)
    → map_bit (set_map_bit nr words) k ≡ (if nr == k then true else map_bit words k)
map_bit-set = map_bit-change true set_bit test_bit-set_bit_self test_bit-set_bit_ne

pub map_bit-clear :
    (nr : ℕ) (words : ℕ → ℕ) (k : ℕ)
    → map_bit (clear_map_bit nr words) k ≡ (if nr == k then false else map_bit words k)
map_bit-clear = map_bit-change false clear_bit test_bit-clear_bit_self test_bit-clear_bit_ne

-- Bit `j` is the first of those from `from` to `to` that is 0, or there is none and `j` is `to`.
pub record IsFirstZero (words : ℕ → ℕ) (from : ℕ) (to : ℕ) (j : ℕ) : Type 0 where
  pub from_le : from ≤ j
  pub le_to : j ≤ to
  pub ones : (k : ℕ) → from ≤ k → k < j → map_bit words k ≡ true
  pub is_zero : j < to → map_bit words j ≡ false

opposite_true : (b : Bool) → not b ≡ true → b ≡ false
opposite_true b e = ground arith

opposite_false : (b : Bool) → not b ≡ false → b ≡ true
opposite_false b e = ground arith

in_long :
    (words : ℕ → ℕ) (i k : ℕ)
    → 32 * i ≤ k
    → k < 32 * i + 32
    → map_bit words k ≡ test_bit (k - 32 * i) (words i)
in_long words i k l h = ap₂ (λ (a b : ℕ). test_bit a (words b)) (rest i k l h) (long i k l h)
  where
    rest : (i k : ℕ) → 32 * i ≤ k → k < 32 * i + 32 → k % 32 ≡ k - 32 * i
    rest i k l h = omega arith

    long : (i k : ℕ) → 32 * i ≤ k → k < 32 * i + 32 → k / 32 ≡ i
    long i k l h = omega arith

scan_words-IsFirstZero :
    (n i : ℕ) (words : ℕ → ℕ) → IsFirstZero words (32 * i) (32 * (i + n)) (scan_words n i words)
unfolding scan_words
scan_words-IsFirstZero zero i words = record {
  from_le = omega arith;
  le_to = omega arith;
  ones = λ k l h. absurd (omega arith);
  is_zero = λ h. absurd (omega arith);
}
scan_words-IsFirstZero (suc n) i words =
    go (Option-cases (find_first zero_bit 32 0)) (scan_words-IsFirstZero n (suc i) words)
  where
    zero_bit : ℕ → Bool
    zero_bit k = not (test_bit k (words i))

    go :
        ((find_first zero_bit 32 0 ≡ none) ⊎ ((k : ℕ) × (find_first zero_bit 32 0 ≡ some k)))
        → IsFirstZero words (32 * suc i) (32 * (suc i + n)) (scan_words n (suc i) words)
        → IsFirstZero words
            (32 * i)
            (32 * (i + suc n))
            (elim (find_first zero_bit 32 0) as (λ _. ℕ) [
              | none ↦ scan_words n (suc i) words
              | some k ↦ 32 * i + k
            ])
    go (inl e) d = rw e record {
      from_le = omega (arith, d.from_le);
      le_to = omega (arith, d.le_to);
      ones = λ k l h. elim (Bool-cases (ltb k (32 * i + 32))) [
        | inl here ↦
            in_long words i k l (ltb→lt k (32 * i + 32) here)
            ∙ opposite_false (test_bit (k - 32 * i) (words i))
                (find_first-none zero_bit 32 0 e (k - 32 * i) (omega arith) (in_range k here l))
        | inr there ↦ d.ones k (beyond k there) h
      ];
      is_zero = λ h. d.is_zero (omega (arith, h));
    }
      where
        in_range : (k : ℕ) → ltb k (32 * i + 32) ≡ true → 32 * i ≤ k → k - 32 * i < 0 + 32
        in_range k h l = omega (arith, ltb→lt k (32 * i + 32) h)

        beyond : (k : ℕ) → ltb k (32 * i + 32) ≡ false → 32 * suc i ≤ k
        beyond k h = ground arith
    go (inr (k, e)) d =
        let (low, high, zero_here, before) = find_first-some zero_bit 32 0 k e in
        rw e record {
          from_le = omega arith;
          le_to = omega (arith, high);
          ones = λ m l h.
              in_long words i m l (omega (arith, h, high))
              ∙ opposite_false (test_bit (m - 32 * i) (words i))
                  (before (m - 32 * i) (omega arith) (omega (arith, h, l)));
          is_zero = λ h.
              in_long words i (32 * i + k) (omega arith) (omega (arith, high))
              ∙ ap (λ (b : ℕ). test_bit b (words i)) (back i k)
              ∙ opposite_true (test_bit k (words i)) zero_here;
        }
      where
        back : (i k : ℕ) → 32 * i + k - 32 * i ≡ k
        back i k = omega arith

not_both : {A : Type 0} {a : Option A} {x : A} → a ≡ none → a ≢ some x
not_both p q = cc

not_none : {A : Type 0} {a : A} → some a ≢ none
not_none e = cc

pub some-injective : {A : Type 0} {a b : A} → some a ≡ some b → a ≡ b
some-injective e = cc

-- The search in the bitmaps: where it ends, and what it has passed.
pub record IsFound (maps : ℕ → Option MapBlock) (from : ℕ) (n : ℕ) (i : ℕ) (j : ℕ) (m : MapBlock)
    : Type 0 where
  pub from_le : from ≤ i
  pub in_maps : i < from + n
  pub map_at : maps i ≡ some m
  pub bit_in : j < 8192
  pub bit_zero : map_bit m.words j ≡ false
  pub bits_before : (k : ℕ) → k < j → map_bit m.words k ≡ true
  pub full_before :
      (a : ℕ)
      → from ≤ a
      → a < i
      → (p : MapBlock) → maps a ≡ some p
      → (k : ℕ) → k < 8192
      → map_bit p.words k ≡ true

-- A bitmap with no bit 0.
abbrev IsFull : MapBlock → Type 0
IsFull p = (k : ℕ) → k < 8192 → map_bit p.words k ≡ true

find_first_zero-IsFull : (p : MapBlock) → ltb (find_first_zero p.words) 8192 ≡ false → IsFull p
find_first_zero-IsFull p e k h =
    (scan_words-IsFirstZero 256 0 p.words).ones k (omega arith) (beyond (find_first_zero p.words) e)
  where
    beyond : (z : ℕ) → ltb z 8192 ≡ false → k < z
    beyond z e = ground arith

widen :
    (maps : ℕ → Option MapBlock) (from n i j : ℕ) (m : MapBlock)
    → ((p : MapBlock) → maps from ≡ some p → IsFull p)
    → IsFound maps (suc from) n i j m
    → IsFound maps from (suc n) i j m
widen maps from n i j m first d = record {
  from_le = omega (arith, d.from_le);
  in_maps = omega (arith, d.in_maps);
  map_at = d.map_at;
  bit_in = d.bit_in;
  bit_zero = d.bit_zero;
  bits_before = d.bits_before;
  full_before = λ a l h p q. elim (ℕ_discrete from a) [
    | yes e ↦ first p (ap maps e ∙ q)
    | no n ↦ d.full_before a (omega (arith, n)) h p q
  ];
}

at_once :
    (maps : ℕ → Option MapBlock) (from n : ℕ) (p : MapBlock)
    → maps from ≡ some p
    → ltb (find_first_zero p.words) 8192 ≡ true
    → IsFound maps from (suc n) from (find_first_zero p.words) p
at_once maps from n p e y =
    let d : IsFirstZero p.words 0 8192 (find_first_zero p.words) =
      scan_words-IsFirstZero 256 0 p.words in
    record {
      from_le = omega arith;
      in_maps = omega arith;
      map_at = e;
      bit_in = ltb→lt _ 8192 y;
      bit_zero = d.is_zero (ltb→lt _ 8192 y);
      bits_before = λ k h. d.ones k (omega arith) h;
      full_before = λ a l h p q. absurd (omega (arith, l, h));
    }

pub search-IsFound :
    (n from : ℕ) (maps : ℕ → Option MapBlock) (i j : ℕ) (m : MapBlock)
    → search n from maps ≡ some (i, j, m)
    → IsFound maps from n i j m
unfolding search
search-IsFound zero from maps i j m e = cc
search-IsFound (suc n) from maps i j m e = elim (Option-cases (maps from)) [
  | inl gone ↦
      widen maps from n i j m (λ p q. absurd (not_both gone q))
        (search-IsFound n (suc from) maps i j m (rw (gone, search) at e))
  | inr (p, there) ↦ elim (Bool-cases (ltb (find_first_zero p.words) 8192)) [
    | inl y ↦
        subst (λ (r : ℕ × ℕ × MapBlock). IsFound maps from (suc n) r.0 r.1 r.2)
          (some-injective (rw (there, y, search) at e)) (at_once maps from n p there y)
    | inr full ↦
        widen maps from n i j m
          (λ r q. subst IsFull (some-injective (sym there ∙ q)) (find_first_zero-IsFull p full))
          (search-IsFound n (suc from) maps i j m (rw (there, full, search) at e))
  ]
]

-- The search finds nothing only if all bits are 1.
pub search-none :
    (n from : ℕ) (maps : ℕ → Option MapBlock)
    → search n from maps ≡ none
    → (a : ℕ) → from ≤ a
    → a < from + n
    → (p : MapBlock) → maps a ≡ some p
    → IsFull p
unfolding search
search-none zero from maps e a l h p q = absurd (omega arith)
search-none (suc n) from maps e a l h p q = elim (Option-cases (maps from)) [
  | inl gone ↦ elim (ℕ_discrete from a) [
    | yes same ↦ absurd (not_both gone (ap maps same ∙ q))
    | no other ↦
        search-none n (suc from) maps (rw (gone, search) at e) a (omega (arith, other))
          (omega arith) p q
  ]
  | inr (r, there) ↦ elim (Bool-cases (ltb (find_first_zero r.words) 8192)) [
    | inl y ↦ absurd (not_none (rw (there, y, search) at e))
    | inr full ↦ elim (ℕ_discrete from a) [
      | yes same ↦
          subst IsFull (some-injective (sym there ∙ ap maps same ∙ q))
            (find_first_zero-IsFull r full)
      | no other ↦
          search-none n (suc from) maps (rw (there, full, search) at e) a (omega (arith, other))
            (omega arith) p q
    ]
  ]
]
