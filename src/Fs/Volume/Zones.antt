-- ===== src/Fs/Volume/Zones.antt =====
-- The bitmaps of a volume as one, and when a volume is well formed.
use linux.Prelude.{
  ℕ, ◌+◌, ◌-◌, ◌*◌, ◌/◌, ◌%◌, ◌^◌, ◌<◌, ◌≤◌, ◌≡◌, ◌≢◌, sym, ap, ◌∙◌, arith, Bool, true, false, ◌==◌,
  if◌then◌else◌, update, update_self, update_ne, Option, none, some,
}
use mathlib.Core.Path.{ap₂}
use native.Mathlib.Decide.{ℕ_discrete}
use linux.Fs.Volume.{MapBlock, Volume, map_bit, set_map_bit, clear_map_bit, mark, unmark}
use linux.Fs.Volume.Words.{map_bit-set, map_bit-clear}

-- Bit `z` of the bitmaps, one behind the other; the bits of a missing one are 1.
abbrev pub map_used : (ℕ → Option MapBlock) → (z : ℕ) → Bool
map_used maps z = elim (maps (z / 8192)) as (λ _. Bool) [
  | none ↦ true
  | some m ↦ map_bit m.words (z % 8192)
]

-- The bit of a block.
abbrev pub bit_of : Volume → (block : ℕ) → ℕ
bit_of v block = block + 1 - v.firstdatazone

abbrev pub IsZone : Volume → ℕ → Type 0
IsZone v block = (v.firstdatazone ≤ block) × (block < v.nzones)

abbrev pub is_used : Volume → (block : ℕ) → Bool
is_used v block = map_used v.zmap (bit_of v block)

-- The bitmaps cover the zones, `do_mount` has set bit 0, and nobody uses a free block.
pub record IsVolume (v : Volume) : Type 0 where
  pub some_boot : 1 ≤ v.firstdatazone
  pub covered : v.nzones ≤ v.firstdatazone + 65535
  pub small : v.nzones < 2 ^ 16
  pub mapped : (b : ℕ) → IsZone v b → (m : MapBlock) × (v.zmap (bit_of v b / 8192) ≡ some m)
  pub first_set : map_used v.zmap 0 ≡ true
  pub idle : (b : ℕ) → IsZone v b → is_used v b ≡ false → v.users b ≡ 0

-- One bit of one bitmap changes.
map_used-change :
    (b : Bool) (maps : ℕ → Option MapBlock) (i j : ℕ) (m p : MapBlock)
    → maps i ≡ some m
    → j < 8192
    → ((k : ℕ) → map_bit p.words k ≡ (if j == k then b else map_bit m.words k))
    → (z : ℕ)
    → map_used (update maps i (some p)) z ≡ (if j + i * 8192 == z then b else map_used maps z)
map_used-change b maps i j m p e h bits z = elim (ℕ_discrete i (z / 8192)) [
  | yes here ↦
      ap (λ (o : Option MapBlock). used_in o)
        (ap (update maps i (some p)) (sym here) ∙ update_self maps (some p) i)
      ∙ bits (z % 8192)
      ∙ ap₂ (λ (c d : Bool). if c then b else d) (same_bit here)
          (ap (λ (o : Option MapBlock). used_in o) (sym e ∙ ap maps here))
  | no there ↦
      ap (λ (o : Option MapBlock). used_in o) (update_ne maps (some p) there)
      ∙ ap (λ (c : Bool). if c then b else map_used maps z) (sym (other_bit there))
]
  where
    used_in : Option MapBlock → Bool
    used_in o = elim o as (λ _. Bool) [ none ↦ true | some m ↦ map_bit m.words (z % 8192) ]

    same_bit : i ≡ z / 8192 → (j == z % 8192) ≡ (j + i * 8192 == z)
    same_bit e = ground arith

    other_bit : i ≢ z / 8192 → (j + i * 8192 == z) ≡ false
    other_bit n = ground arith

module _ (maps : ℕ → Option MapBlock) (i j : ℕ) (m : MapBlock) (e : maps i ≡ some m)
    (h : j < 8192) where
  pub map_used-mark :
      (z : ℕ) → map_used (mark i j m maps) z ≡ (if j + i * 8192 == z then true else map_used maps z)
  map_used-mark =
      map_used-change true maps i j m (record { words = set_map_bit j m.words; dirt = true }) e h
        (map_bit-set j m.words)

  pub map_used-unmark :
      (z : ℕ)
      → map_used (unmark i j m maps) z ≡ (if j + i * 8192 == z then false else map_used maps z)
  map_used-unmark =
      map_used-change false maps i j m (record { words = clear_map_bit j m.words; dirt = true }) e h
        (map_bit-clear j m.words)
