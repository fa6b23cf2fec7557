-- ===== src/Fs/Inode/Tests.antt =====
-- Runs of `create_block` on a file of a small volume.
use linux.Prelude.{◌≡◌, refl, arith, false, ◌==◌, if◌then◌else◌, ok, find_first, test_bit}
use linux.Fs.Volume.{Volume, new_block, take_zone, search, scan_words}
use linux.Fs.Volume.Tests.{small_volume}
use linux.Fs.Inode.{Inode, bmap, create_block, map_block, get_zone, get_indirect, get_entry}
use linux.Fs.Inode.Create.{bmap_lem}

-- Block 0 is block 10 of the device, and the indirect block is 11.
abbrev pub short_file : Inode
short_file = record {
  mode = 32768;
  size = 3;
  mtime = 0;
  ctime = 0;
  zone = λ k. if k == 0 then 10 else if k == 7 then 11 else 0;
  dirt = false;
}

tenth_block_is :
    (ino : Inode) × (v : Volume) × (create_block 5 9 short_file small_volume ≡ ok (12, ino, v))
unfolding map_block get_zone get_indirect get_entry new_block take_zone search scan_words find_first
    test_bit
tenth_block_is = (_, _, refl)

bmap_lem_example : bmap 5 0 short_file small_volume ≡ ok (10, short_file, small_volume)
bmap_lem_example = bmap_lem 5 0 short_file small_volume (omega arith)
