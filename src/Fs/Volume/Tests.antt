-- ===== src/Fs/Volume/Tests.antt =====
-- Runs of the calls on the bitmaps of a small volume.
use linux.Prelude.{
  ℕ, ◌/◌, ◌<◌, ◌≡◌, ◌⊎◌, refl, ap, arith, true, false, ◌==◌, if◌then◌else◌, none, some, ok,
  test_bit, find_first,
}
use linux.Fs.Volume.{
  MapBlock, Volume, new_block, free_block, find_first_zero, take_zone, search, scan_words,
}
use linux.Fs.Volume.Zones.{bit_of, IsZone, is_used, IsVolume}
use linux.Fs.Volume.Alloc.{IsSame, IsTaken, new_block_lem}
use linux.Fs.Volume.Free.{free_block-new_block}

-- Bits 0, 1 and 2 are 1.
abbrev pub three_used : MapBlock
three_used = record { words = λ i. if i == 0 then 7 else 0; dirt = false }

-- Blocks 10 and 11 of 10 to 19 are used; 11 holds zeros.
abbrev pub small_volume : Volume
small_volume = record {
  zmap = λ i. if i == 0 then some three_used else none;
  imap = λ i. if i == 0 then some three_used else none;
  firstdatazone = 10;
  nzones = 20;
  ninodes = 40;
  users = λ b. 0;
  shorts = λ b. if b == 11 then some (λ i. 0) else none;
  on_disk = λ b. if b == 11 then some (λ i. 0) else none;
}

pub small_volume-IsVolume : IsVolume small_volume
unfolding test_bit
small_volume-IsVolume = record {
  some_boot = omega arith;
  covered = omega arith;
  small = omega arith;
  mapped = λ b z. (three_used, ap small_volume.zmap (first_map b z));
  first_set = refl;
  idle = λ b z e. refl;
}
  where
    first_map : (b : ℕ) → IsZone small_volume b → bit_of small_volume b / 8192 ≡ 0
    first_map b z = omega (arith, z)

fourth_bit : find_first_zero three_used.words ≡ 3
unfolding scan_words find_first test_bit
fourth_bit = refl

twelve_taken : (v : Volume) × (new_block small_volume ≡ ok (12, v))
unfolding new_block take_zone search scan_words find_first test_bit
twelve_taken = (_, refl)

new_block_lem_example :
    (n : ℕ) × (v' : Volume) × (new_block small_volume ≡ ok (n, v'))
    × (((n ≡ 0)
          × IsSame small_volume v'
          × ((b : ℕ) → IsZone small_volume b → is_used small_volume b ≡ true))
        ⊎ (IsTaken n small_volume v'
            × ((b : ℕ) → IsZone small_volume b → b < n → is_used small_volume b ≡ true)))
new_block_lem_example = new_block_lem small_volume small_volume-IsVolume

free_block-new_block_example :
    (v'' : Volume) × (free_block 12 twelve_taken.0 ≡ ok v'')
    × IsVolume v''
    × ((b : ℕ) → IsZone small_volume b → is_used v'' b ≡ is_used small_volume b)
    × (v''.users ≡ small_volume.users)
free_block-new_block_example =
    free_block-new_block small_volume 12 twelve_taken.0 small_volume-IsVolume twelve_taken.1
      (omega arith)
