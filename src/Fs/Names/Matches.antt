-- ===== src/Fs/Names/Matches.antt =====
-- fs/namei.c: match against what it means that an entry has a name.
use linux.Prelude.{
  ℕ, zero, suc, ◌+◌, ◌<◌, ◌≤◌, ◌≡◌, ◌≢◌, ◌↔◌, refl, sym, ap, ◌∙◌, arith, inl, inr, Bool, true,
  false, not, ◌&&◌, ◌||◌, ◌==◌, ltb, if◌then◌else◌, Bool-cases, ltb→lt,
}
use linux.Fs.Names.{DirEntry, same_bytes, match_name}

-- The entry is in use, and its name is the first `len` bytes of `name`, ended by a 0 if there is
-- room.
pub record IsNamed (len : ℕ) (name : ℕ → ℕ) (de : DirEntry) : Type 0 where
  pub used : de.inode ≢ 0
  pub short : len ≤ 14
  pub bytes : (k : ℕ) → k < len → de.name k ≡ name k
  pub ended : len < 14 → de.name len ≡ 0

same_bytes-agree :
    (len k : ℕ) (a b : ℕ → ℕ)
    → same_bytes len k a b ≡ true
    → (j : ℕ) → j < len
    → b (k + j) ≡ a (k + j)
unfolding same_bytes
same_bytes-agree zero k a b e j l = absurd (omega arith)
same_bytes-agree (suc len) k a b e zero l = ap b (at k) ∙ first e ∙ ap a (sym (at k))
  where
    at : (k : ℕ) → k + 0 ≡ k
    at k = omega arith

    first : (a k == b k && same_bytes len (suc k) a b) ≡ true → b k ≡ a k
    first e = ground arith
same_bytes-agree (suc len) k a b e (suc j) l =
    ap b (next k j)
    ∙ same_bytes-agree len (suc k) a b (rest e) j (omega arith)
    ∙ ap a (sym (next k j))
  where
    next : (k j : ℕ) → k + suc j ≡ suc k + j
    next k j = omega arith

    rest : (a k == b k && same_bytes len (suc k) a b) ≡ true → same_bytes len (suc k) a b ≡ true
    rest e = ground arith

agree-same_bytes :
    (len k : ℕ) (a b : ℕ → ℕ)
    → ((j : ℕ) → j < len → b (k + j) ≡ a (k + j))
    → same_bytes len k a b ≡ true
unfolding same_bytes
agree-same_bytes zero k a b h = refl
agree-same_bytes (suc len) k a b h =
    rw
      (agree-same_bytes len (suc k) a b
        (λ j l. ap b (next k j) ∙ h (suc j) (omega arith) ∙ ap a (sym (next k j))))
      (first (ap b (at k) ∙ h 0 (omega arith) ∙ ap a (sym (at k))))
  where
    at : (k : ℕ) → k ≡ k + 0
    at k = omega arith

    next : (k j : ℕ) → suc k + j ≡ k + suc j
    next k j = omega arith

    first : b k ≡ a k → (a k == b k && true) ≡ true
    first e = ground arith

tested :
    (used len last : ℕ) (same : Bool)
    → (if used == 0 || ltb 14 len
        then false
        else (if ltb len 14 && not (last == 0) then false else same))
      ≡ true
    → (used ≢ 0) × (len ≤ 14) × (len < 14 → last ≡ 0) × (same ≡ true)
tested used len last same e = (
  in_use used len last same e,
  short used len last same e,
  ended used len last same e,
  equal used len last same e,
)
  where
    Tested : (used len last : ℕ) → Bool → Type 0
    Tested used len last same =
        (if used == 0 || ltb 14 len
          then false
          else (if ltb len 14 && not (last == 0) then false else same))
        ≡ true

    in_use : (used len last : ℕ) (same : Bool) → Tested used len last same → used ≢ 0
    in_use used len last same e = ground arith

    short : (used len last : ℕ) (same : Bool) → Tested used len last same → len ≤ 14
    short used len last same e = ground arith

    ended : (used len last : ℕ) (same : Bool) → Tested used len last same → len < 14 → last ≡ 0
    ended used len last same e l = ground arith

    equal : (used len last : ℕ) (same : Bool) → Tested used len last same → same ≡ true
    equal used len last same e = ground arith

passes :
    (used len last : ℕ) (same : Bool)
    → used ≢ 0
    → len ≤ 14
    → (len < 14 → last ≡ 0)
    → same ≡ true
    → (if used == 0 || ltb 14 len
        then false
        else (if ltb len 14 && not (last == 0) then false else same))
      ≡ true
passes used len last same u l h e = elim (Bool-cases (ltb len 14)) [
  | inl below ↦ rw (zero_at below, e, below) (checked used len u l)
  | inr above ↦ rw (e, above) (checked used len u l)
]
  where
    zero_at : ltb len 14 ≡ true → last ≡ 0
    zero_at below = h (ltb→lt len 14 below)

    checked :
        (used len : ℕ)
        → used ≢ 0
        → len ≤ 14
        → (if used == 0 || ltb 14 len then false else true) ≡ true
    checked used len u l = ground arith

-- `match` holds of a name of `len` bytes, one at least, and an entry exactly when the entry is in
-- use and has that name: at most 14 bytes, the same as the entry's, which end there if it has room
-- for more.
pub match_name-IsNamed :
    (len : ℕ) (name : ℕ → ℕ) (de : DirEntry)
    → 1 ≤ len
    → (match_name len name de ≡ true) ↔ IsNamed len name de
unfolding match_name
match_name-IsNamed len name de positive = (
  (λ e.
      let (used, short, ended, same) =
        tested de.inode len (de.name len) (same_bytes len 0 name de.name) e in
      record {
        used = used;
        short = short;
        bytes = λ k l.
            ap de.name (at k) ∙ same_bytes-agree len 0 name de.name same k l ∙ ap name (sym (at k));
        ended = ended;
      }),
  (λ d. passes de.inode len (de.name len) (same_bytes len 0 name de.name) d.used d.short d.ended (
      agree-same_bytes len 0 name de.name
        (λ k l. ap de.name (sym (at k)) ∙ d.bytes k l ∙ ap name (at k)))),
)
  where
    at : (k : ℕ) → k ≡ 0 + k
    at k = omega arith
