-- ===== src/Fs/Volume/Alloc.antt =====
-- fs/bitmap.c: new_block, on the bitmaps as one.
use linux.Prelude.{
  ℕ, ◌+◌, ◌-◌, ◌*◌, ◌/◌, ◌%◌, ◌<◌, ◌≤◌, ◌≡◌, ◌≢◌, refl, sym, ap, ◌∙◌, arith, ◌⊎◌, inl, inr, Bool,
  true, false, ◌==◌, leb, if◌then◌else◌, Bool-cases, Option-cases, update, update_self, update_ne,
  Option, none, some, ok, ok-injective,
}
use mathlib.Core.Path.{ap₂, subst}
use native.Mathlib.Decide.{ℕ_discrete}
use linux.Fs.Volume.{MapBlock, Volume, map_bit, search, mark, take_zone, new_block}
use linux.Fs.Volume.Words.{IsFound, search-IsFound, search-none}
use linux.Fs.Volume.Zones.{map_used, bit_of, IsZone, is_used, IsVolume, map_used-mark}

-- Where the search ends, and what it has passed, in the bitmaps as one.
module _ (maps : ℕ → Option MapBlock) where
  pub bit-map_used :
      (z i j : ℕ) (m : MapBlock)
      → maps i ≡ some m
      → z / 8192 ≡ i
      → z % 8192 ≡ j
      → map_used maps z ≡ map_bit m.words j
  bit-map_used z i j m e p q =
      ap₂
        (λ (o : Option MapBlock) (k : ℕ). elim o as (λ _. Bool) [
          | none ↦ true
          | some n ↦ map_bit n.words k
        ])
        (ap maps p ∙ e) q

  pub found-map_used :
      (i j : ℕ) (m : MapBlock) → IsFound maps 0 8 i j m → map_used maps (j + i * 8192) ≡ false
  found-map_used i j m d =
      let h : j < 8192 = d.bit_in in
      bit-map_used (j + i * 8192) i j m d.map_at (omega arith) (omega arith) ∙ d.bit_zero

  pub before-map_used :
      (i j : ℕ) (m : MapBlock)
      → IsFound maps 0 8 i j m
      → (z : ℕ) → z < j + i * 8192
      → map_used maps z ≡ true
  before-map_used i j m d z l = elim (ℕ_discrete (z / 8192) i) [
    | yes e ↦
        bit-map_used z i (z % 8192) m d.map_at e refl
        ∙ d.bits_before (z % 8192) (omega (arith, d.bit_in))
    | no n ↦ elim (Option-cases (maps (z / 8192))) [
      | inl gone ↦ rw (gone, map_used) refl
      | inr (p, there) ↦
          bit-map_used z (z / 8192) (z % 8192) p there refl refl
          ∙ d.full_before (z / 8192) (omega arith) (omega (arith, d.bit_in, n)) p there (z % 8192)
              (omega arith)
    ]
  ]

  pub none-map_used : search 8 0 maps ≡ none → (z : ℕ) → z / 8192 < 8 → map_used maps z ≡ true
  none-map_used e z l = elim (Option-cases (maps (z / 8192))) [
    | inl gone ↦ rw (gone, map_used) refl
    | inr (p, there) ↦
        bit-map_used z (z / 8192) (z % 8192) p there refl refl
        ∙ search-none 8 0 maps e (z / 8192) (omega arith) l p there (z % 8192) (omega arith)
  ]

-- No zone has been taken or given back; other bits of the bitmaps may have changed.
pub record IsSame (v v' : Volume) : Type 0 where
  pub used_same : (b : ℕ) → IsZone v b → is_used v' b ≡ is_used v b
  pub rest_same : v' ≡ record v { zmap = v'.zmap }
  pub valid_same : IsVolume v'

-- Block `n`, which was free, is used, and holds zeros.
pub record IsTaken (n : ℕ) (v v' : Volume) : Type 0 where
  pub zone : IsZone v n
  pub was_free : is_used v n ≡ false
  pub used : (b : ℕ) → IsZone v b → is_used v' b ≡ (if b == n then true else is_used v b)
  pub rest : v' ≡ record v { zmap = v'.zmap; shorts = update v.shorts n (some (λ i. 0)) }
  pub valid : IsVolume v'

pub true_not_false : true ≢ false
true_not_false e = cc

mapped-mark :
    (v : Volume) (i j : ℕ) (m : MapBlock)
    → IsVolume v
    → (b : ℕ) → IsZone v b
    → (p : MapBlock) × (mark i j m v.zmap (bit_of v b / 8192) ≡ some p)
mapped-mark v i j m w b z = elim (ℕ_discrete i (bit_of v b / 8192)) [
  | yes e ↦ (_, ap (mark i j m v.zmap) (sym e) ∙ update_self v.zmap _ i)
  | no n ↦ let (p, q) = w.mapped b z in (p, update_ne v.zmap _ n ∙ q)
]

true_or : (c d : Bool) → d ≡ true → (if c then true else d) ≡ true
true_or c d e = ground arith

unchanged : (c d : Bool) → c ≡ false → (if c then true else d) ≡ d
unchanged c d e = ground arith

false_if : (c d : Bool) → (if c then true else d) ≡ false → (c ≡ false) × (d ≡ false)
false_if c d e = ground arith

module _ (v : Volume) (w : IsVolume v) (i j : ℕ) (m : MapBlock) (d : IsFound v.zmap 0 8 i j m) where
  -- The block of the bit.
  abbrev found_block : ℕ
  found_block = j + i * 8192 + v.firstdatazone - 1

  pub mark-IsVolume :
      (s : ℕ → Option (ℕ → ℕ)) → IsVolume (record v { zmap = mark i j m v.zmap; shorts = s })
  mark-IsVolume s = record {
    some_boot = w.some_boot;
    covered = w.covered;
    small = w.small;
    mapped = λ b z. mapped-mark v i j m w b z;
    first_set = map_used-mark v.zmap i j m d.map_at d.bit_in 0 ∙ true_or _ _ w.first_set;
    idle = λ b z e.
        w.idle b z
          (false_if _ _ (sym (map_used-mark v.zmap i j m d.map_at d.bit_in (bit_of v b)) ∙ e)).1;
  }

  not_first : 1 ≤ j + i * 8192
  not_first = elim (ℕ_discrete (j + i * 8192) 0) [
    | yes e ↦ absurd (
        true_not_false
          (sym w.first_set ∙ ap (map_used v.zmap) (sym e) ∙ found-map_used v.zmap i j m d))
    | no n ↦ omega (arith, n)
  ]

  marked :
      (b : ℕ)
      → IsZone v b
      → map_used (mark i j m v.zmap) (bit_of v b) ≡ (if b == found_block then true else is_used v b)
  marked b z =
      map_used-mark v.zmap i j m d.map_at d.bit_in (bit_of v b)
      ∙ ap (λ (c : Bool). if c then true else is_used v b) (same_block not_first w.some_boot z)
    where
      same_block :
          1 ≤ j + i * 8192
          → 1 ≤ v.firstdatazone
          → IsZone v b
          → (j + i * 8192 == bit_of v b) ≡ (b == found_block)
      same_block p q z = ground arith

  -- The blocks before it are used.
  used_before : (b : ℕ) → IsZone v b → b < found_block → is_used v b ≡ true
  used_before b z l = before-map_used v.zmap i j m d (bit_of v b) (before not_first w.some_boot z l)
    where
      before :
          1 ≤ j + i * 8192
          → 1 ≤ v.firstdatazone
          → IsZone v b
          → b < found_block
          → bit_of v b < j + i * 8192
      before p q z l = omega arith

  abbrev Outcome : Type 0
  Outcome =
      (n : ℕ) × (v' : Volume) × (take_zone i j m v ≡ ok (n, v'))
      × (((n ≡ 0) × IsSame v v' × ((b : ℕ) → IsZone v b → is_used v b ≡ true))
          ⊎ (IsTaken n v v' × ((b : ℕ) → IsZone v b → b < n → is_used v b ≡ true)))

  take_zone-outcome : Outcome
  unfolding take_zone
  take_zone-outcome = elim (Bool-cases (leb v.nzones found_block)) [
    | inl beyond ↦ (
      0,
      record v { zmap = mark i j m v.zmap },
      rw (d.bit_zero, beyond, take_zone) refl,
      inl (
        refl,
        record {
          used_same = λ b z. marked b z ∙ unchanged _ _ (not_found b z beyond);
          rest_same = refl;
          valid_same = mark-IsVolume v.shorts;
        },
        λ b z. used_before b z (below b z beyond),
      ),
    )
    | inr inside ↦ (
      found_block,
      record v { zmap = mark i j m v.zmap; shorts = update v.shorts found_block (some (λ i. 0)) },
      rw (d.bit_zero, inside, w.idle found_block (zone inside) (free inside), take_zone) refl,
      inr (
        record {
          zone = zone inside;
          was_free = free inside;
          used = marked;
          rest = refl;
          valid = mark-IsVolume (update v.shorts found_block (some (λ i. 0)));
        },
        used_before,
      ),
    )
  ]
    where
      not_found :
          (b : ℕ) → IsZone v b → leb v.nzones found_block ≡ true → (b == found_block) ≡ false
      not_found b z e = ground arith

      below : (b : ℕ) → IsZone v b → leb v.nzones found_block ≡ true → b < found_block
      below b z e = ground arith

      zone : leb v.nzones found_block ≡ false → IsZone v found_block
      zone e = (above not_first w.some_boot, within e)
        where
          above : 1 ≤ j + i * 8192 → 1 ≤ v.firstdatazone → v.firstdatazone ≤ found_block
          above p q = omega arith

          within : leb v.nzones found_block ≡ false → found_block < v.nzones
          within e = ground arith

      free : leb v.nzones found_block ≡ false → is_used v found_block ≡ false
      free e = ap (map_used v.zmap) (back not_first w.some_boot) ∙ found-map_used v.zmap i j m d
        where
          back : 1 ≤ j + i * 8192 → 1 ≤ v.firstdatazone → bit_of v found_block ≡ j + i * 8192
          back p q = omega arith

-- `new_block` on a well-formed volume does not panic. It takes the first free block of the data
-- zones, which nobody uses, marks it used and fills it with zeros, and changes nothing else; or all
-- blocks are used, and it returns 0 and changes neither their bits nor what they hold.
pub new_block_lem :
    (v : Volume)
    → IsVolume v
    → (n : ℕ) × (v' : Volume) × (new_block v ≡ ok (n, v'))
      × (((n ≡ 0) × IsSame v v' × ((b : ℕ) → IsZone v b → is_used v b ≡ true))
          ⊎ (IsTaken n v v' × ((b : ℕ) → IsZone v b → b < n → is_used v b ≡ true)))
unfolding new_block
new_block_lem v w = elim (Option-cases (search 8 0 v.zmap)) [
  | inl nothing ↦ (
    0,
    v,
    rw (nothing, new_block) refl,
    inl (
      refl,
      record { used_same = λ b z. refl; rest_same = refl; valid_same = w },
      λ b z. none-map_used v.zmap nothing (bit_of v b) (in_maps b z w.covered),
    ),
  )
  | inr ((i, j, m), found) ↦
      let (n, v', e, r) = take_zone-outcome v w i j m (search-IsFound 8 0 v.zmap i j m found) in
      (n, v', rw (found, new_block) e, r)
]
  where
    in_maps : (b : ℕ) → IsZone v b → v.nzones ≤ v.firstdatazone + 65535 → bit_of v b / 8192 < 8
    in_maps b z h = omega arith

-- The data zones are the same.
pub taken-IsZone : (n : ℕ) (v v' : Volume) → IsTaken n v v' → (b : ℕ) → IsZone v b → IsZone v' b
taken-IsZone n v v' t b z =
    omega (arith, ap (λ (u : Volume). u.firstdatazone) t.rest, ap (λ (u : Volume). u.nzones) t.rest)

pub new_block-IsTaken :
    (v : Volume) (n : ℕ) (v' : Volume)
    → IsVolume v
    → new_block v ≡ ok (n, v')
    → n ≢ 0
    → IsTaken n v v'
new_block-IsTaken v n v' w e nonzero =
    let (n₀, v₀, e₀, r) = new_block_lem v w in
    elim r [
      | inl (nought, d, u) ↦
          absurd (nonzero (sym (ap (λ (p : ℕ × Volume). p.0) (ok-injective (sym e₀ ∙ e))) ∙ nought))
      | inr (t, before) ↦
          subst (λ (p : ℕ × Volume). IsTaken p.0 v p.1) (ok-injective (sym e₀ ∙ e)) t
    ]
