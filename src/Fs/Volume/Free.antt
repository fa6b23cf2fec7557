-- ===== src/Fs/Volume/Free.antt =====
-- fs/bitmap.c: free_block, and free_block after new_block.
use linux.Prelude.{
  ℕ, ◌+◌, ◌-◌, ◌*◌, ◌/◌, ◌%◌, ◌<◌, ◌≤◌, ◌≡◌, ◌≢◌, refl, sym, ap, ◌∙◌, arith, Bool, true, false,
  ◌==◌, ◌||◌, ltb, leb, if◌then◌else◌, update, update_self, update_ne, Option, some, ok,
}
use native.Mathlib.Decide.{ℕ_discrete}
use linux.Fs.Volume.{MapBlock, Volume, map_bit, unmark, new_block, drop_zone, free_block}
use linux.Fs.Volume.Zones.{map_used, bit_of, IsZone, is_used, IsVolume, map_used-unmark}
use linux.Fs.Volume.Alloc.{taken-IsZone, new_block-IsTaken, bit-map_used}

-- Block `b` is free; nothing else has changed but what it holds.
pub record IsFreed (b : ℕ) (v v' : Volume) : Type 0 where
  pub unused : (c : ℕ) → IsZone v c → is_used v' c ≡ (if c == b then false else is_used v c)
  pub rest : v' ≡ record v { zmap = v'.zmap; shorts = update v.shorts b (v.on_disk b) }
  pub valid : IsVolume v'

-- The bit that `free_block` clears.
module _ (v : Volume) (w : IsVolume v) (b : ℕ) (z : IsZone v b) where
  abbrev slot : ℕ
  slot = b - (v.firstdatazone - 1)

  slot_is : slot ≡ bit_of v b
  slot_is = same w.some_boot z
    where
      same : 1 ≤ v.firstdatazone → IsZone v b → b - (v.firstdatazone - 1) ≡ b + 1 - v.firstdatazone
      same p z = omega arith

  module _ (m : MapBlock) (there : v.zmap (slot / 8192) ≡ some m) (s : ℕ → Option (ℕ → ℕ)) where
    abbrev cleared : Volume
    cleared = record v { zmap = unmark (slot / 8192) (slot % 8192) m v.zmap; shorts = s }

    cleared_bit :
        (c : ℕ)
        → map_used cleared.zmap c
          ≡ (if slot % 8192 + slot / 8192 * 8192 == c then false else map_used v.zmap c)
    cleared_bit c = map_used-unmark v.zmap (slot / 8192) (slot % 8192) m there (in_map slot) c
      where
        in_map : (k : ℕ) → k % 8192 < 8192
        in_map k = omega arith

    cleared_used :
        (c : ℕ) → IsZone v c → is_used cleared c ≡ (if c == b then false else is_used v c)
    cleared_used c y =
        cleared_bit (bit_of v c)
        ∙ ap (λ (t : Bool). if t then false else is_used v c) (same w.some_boot z y)
      where
        same :
            1 ≤ v.firstdatazone
            → IsZone v b
            → IsZone v c
            → (slot % 8192 + slot / 8192 * 8192 == bit_of v c) ≡ (c == b)
        same p z y = ground arith

    cleared-IsVolume : v.users b ≡ 0 → IsVolume cleared
    cleared-IsVolume u = record {
      some_boot = w.some_boot;
      covered = w.covered;
      small = w.small;
      mapped = λ c y. elim (ℕ_discrete (slot / 8192) (bit_of v c / 8192)) [
        | yes e ↦ (_, ap cleared.zmap (sym e) ∙ update_self v.zmap _ (slot / 8192))
        | no n ↦ let (p, q) = w.mapped c y in (p, update_ne v.zmap _ n ∙ q)
      ];
      first_set = cleared_bit 0 ∙ not_boot (not_first w.some_boot z) w.first_set;
      idle = λ c y e. nobody c y (sym (cleared_used c y) ∙ e);
    }
      where
        not_first :
            1 ≤ v.firstdatazone → IsZone v b → (slot % 8192 + slot / 8192 * 8192 == 0) ≡ false
        not_first p z = ground arith

        not_boot : {t d : Bool} → t ≡ false → d ≡ true → (if t then false else d) ≡ true
        not_boot p q = ground arith

        nobody :
            (c : ℕ) → IsZone v c → (if c == b then false else is_used v c) ≡ false → v.users c ≡ 0
        nobody c y e = elim (ℕ_discrete c b) [
          | yes q ↦ ap v.users q ∙ u
          | no n ↦ w.idle c y (other n e)
        ]
          where
            other : c ≢ b → (if c == b then false else is_used v c) ≡ false → is_used v c ≡ false
            other n e = ground arith

  -- A used block of the data zones that no buffer is held of is freed, without panic.
  pub free_block_lem :
      is_used v b ≡ true → v.users b ≡ 0 → (v' : Volume) × (free_block b v ≡ ok v') × IsFreed b v v'
  unfolding free_block drop_zone
  free_block_lem used idle =
      let (m, mapped) = w.mapped b z in
      let there : v.zmap (slot / 8192) ≡ some m =
        ap (λ (k : ℕ). v.zmap (k / 8192)) slot_is ∙ mapped in
      let bit : map_bit m.words (slot % 8192) ≡ true =
        sym (bit-map_used v.zmap slot (slot / 8192) (slot % 8192) m there refl refl)
        ∙ ap (map_used v.zmap) slot_is
        ∙ used in
      (
        cleared m there (update v.shorts b (v.on_disk b)),
        rw (in_zone z, idle, there, bit, free_block, drop_zone) refl,
        record {
          unused = cleared_used m there (update v.shorts b (v.on_disk b));
          rest = refl;
          valid = cleared-IsVolume m there (update v.shorts b (v.on_disk b)) idle;
        },
      )
    where
      in_zone : IsZone v b → (ltb b v.firstdatazone || leb v.nzones b) ≡ false
      in_zone z = ground arith

-- What `new_block` takes `free_block` gives back: no panic, and every data block is used or free as
-- it was before.
pub free_block-new_block :
    (v : Volume) (n : ℕ) (v' : Volume)
    → IsVolume v
    → new_block v ≡ ok (n, v')
    → n ≢ 0
    → (v'' : Volume) × (free_block n v' ≡ ok v'')
      × IsVolume v''
      × ((b : ℕ) → IsZone v b → is_used v'' b ≡ is_used v b)
      × (v''.users ≡ v.users)
free_block-new_block v n v' w e nonzero =
    let t = new_block-IsTaken v n v' w e nonzero in
    let zone : IsZone v' n = taken-IsZone n v v' t n t.zone in
    let idle : v'.users n ≡ 0 =
      ap (λ (u : Volume). u.users n) t.rest ∙ w.idle n t.zone t.was_free in
    let (v'', freed, d) = free_block_lem v' t.valid n zone (t.used n t.zone ∙ itself n _) idle in
    (
      v'',
      freed,
      d.valid,
      λ b z.
          d.unused b (taken-IsZone n v v' t b z)
          ∙ ap (λ (u : Bool). if b == n then false else u) (t.used b z)
          ∙ restored b t.was_free,
      ap (λ (u : Volume). u.users) d.rest ∙ ap (λ (u : Volume). u.users) t.rest,
    )
  where
    itself : (n : ℕ) (d : Bool) → (if n == n then true else d) ≡ true
    itself n d = ground arith

    restored :
        (b : ℕ)
        → is_used v n ≡ false
        → (if b == n then false else (if b == n then true else is_used v b)) ≡ is_used v b
    restored b free = elim (ℕ_discrete b n) [
      | yes q ↦ same b q ∙ sym (ap (is_used v) q ∙ free)
      | no d ↦ other b d
    ]
      where
        same :
            (b : ℕ)
            → b ≡ n
            → (if b == n then false else (if b == n then true else is_used v b)) ≡ false
        same b q = ground arith

        other :
            (b : ℕ)
            → b ≢ n
            → (if b == n then false else (if b == n then true else is_used v b)) ≡ is_used v b
        other b d = ground arith
