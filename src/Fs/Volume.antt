-- ===== src/Fs/Volume.antt =====
-- fs/bitmap.c on one mounted device, between two sleeps: the bitmaps, and the blocks as the buffer
-- cache shows them. Block numbers are below 2 ^ 31 and the first data zone is not 0, so that the
-- source's `int`s are the numbers. A bitmap that is missing where the source follows its pointer is
-- a panic here. A device with no super block, which panics first of all, is left out.
pub mod Words
pub mod Zones
pub mod Alloc
pub mod Free
pub mod Tests
use linux.Prelude.{
  ℕ, zero, suc, ◌+◌, ◌-◌, ◌*◌, ◌/◌, ◌%◌, Bool, true, false, not, ◌||◌, ◌==◌, ltb, leb,
  if◌then◌else◌, update, Option, none, some, Result, ok, panic, require, ◌>>◌, ◌>>=◌, test_bit,
  set_bit, clear_bit, find_first,
}

-- A block of a bitmap: its longs, and `b_dirt`.
pub record MapBlock : Type 0 where
  pub words : ℕ → ℕ
  pub dirt : Bool

-- `users` is `b_count` of the buffer of a block, 0 where it has none. `shorts` is what `bread`
-- gives for a block, as `unsigned short`s, or nothing when the block cannot be read; `on_disk` is
-- what it would give if the block's buffer were not up to date.
pub record Volume : Type 0 where
  pub zmap : ℕ → Option MapBlock
  pub imap : ℕ → Option MapBlock
  pub firstdatazone : ℕ
  pub nzones : ℕ
  pub ninodes : ℕ
  pub users : ℕ → ℕ
  pub shorts : ℕ → Option (ℕ → ℕ)
  pub on_disk : ℕ → Option (ℕ → ℕ)

-- Bit `nr` of a bitmap.
abbrev pub map_bit : (words : ℕ → ℕ) → (nr : ℕ) → Bool
map_bit words nr = test_bit (nr % 32) (words (nr / 32))

-- `btsl` and `btrl`
abbrev pub set_map_bit : (nr : ℕ) → (ℕ → ℕ) → ℕ → ℕ
set_map_bit nr words = update words (nr / 32) (set_bit (nr % 32) (words (nr / 32)))

abbrev pub clear_map_bit : (nr : ℕ) → (ℕ → ℕ) → ℕ → ℕ
clear_map_bit nr words = update words (nr / 32) (clear_bit (nr % 32) (words (nr / 32)))

-- The loop of `find_first_zero`, over `n` longs from number `i` on; `notl` and `bsfl` find the first
-- bit of a long that is 0.
unfoldable pub scan_words : (n : ℕ) → (i : ℕ) → (ℕ → ℕ) → ℕ
scan_words zero i words = 32 * i
scan_words (suc n) i words =
    let rest = scan_words n (suc i) words in
    elim (find_first (λ k. not (test_bit k (words i))) 32 0) [ none ↦ rest | some k ↦ 32 * i + k ]

abbrev pub find_first_zero : (ℕ → ℕ) → ℕ
find_first_zero words = scan_words 256 0 words

-- The loop of `new_block` and `new_inode`, over `n` bitmaps from number `i` on: the bitmap, its
-- number, and the bit.
unfoldable pub search : (n : ℕ) → (i : ℕ) → (ℕ → Option MapBlock) → Option (ℕ × ℕ × MapBlock)
search zero i maps = none
search (suc n) i maps =
    let rest = search n (suc i) maps in
    elim (maps i) [
      | none ↦ rest
      | some m ↦
          if ltb (find_first_zero m.words) 8192 then some (i, find_first_zero m.words, m) else rest
    ]

-- `set_bit(j,bh->b_data)` with its panic, and `bh->b_dirt = 1`.
abbrev pub mark : (i : ℕ) → (j : ℕ) → (m : MapBlock) → (ℕ → Option MapBlock) → ℕ → Option MapBlock
mark i j m maps = update maps i (some (record { words = set_map_bit j m.words; dirt = true }))

abbrev pub unmark : (i : ℕ) → (j : ℕ) → (m : MapBlock) → (ℕ → Option MapBlock) → ℕ → Option MapBlock
unmark i j m maps = update maps i (some (record { words = clear_map_bit j m.words; dirt = true }))

-- `getblk`, with the panic for a block in use, `clear_block` and `brelse`.
abbrev pub clear_zone : (block : ℕ) → Volume → Result (ℕ × Volume)
clear_zone block v =
    require (v.users block == 0)
    >> ok (block, record v { shorts = update v.shorts block (some (λ i. 0)) })

-- `new_block` once a bit is found.
unfoldable pub take_zone : (i : ℕ) → (j : ℕ) → (m : MapBlock) → Volume → Result (ℕ × Volume)
take_zone i j m v =
    require (not (map_bit m.words j))
    >> (let v' : Volume = record v { zmap = mark i j m v.zmap } in
        let block : ℕ = j + i * 8192 + v.firstdatazone - 1 in
        if leb v.nzones block then ok (0, v') else clear_zone block v')

unfoldable pub new_block : Volume → Result (ℕ × Volume)
new_block v = elim (search 8 0 v.zmap) [ none ↦ ok (0, v) | some (i, j, m) ↦ take_zone i j m v ]

-- `clear_bit(block&8191,sb->s_zmap[block/8192]->b_data)`
unfoldable pub drop_zone : (bit : ℕ) → Volume → Result Volume
drop_zone bit v = elim (v.zmap (bit / 8192)) [
  | none ↦ panic
  | some m ↦
      require (map_bit m.words (bit % 8192))
      >> ok (record v { zmap = unmark (bit / 8192) (bit % 8192) m v.zmap })
]

-- A buffer in use is left, with one user more, and the block is not freed.
unfoldable pub free_block : (block : ℕ) → Volume → Result Volume
free_block block v =
    require (not (ltb block v.firstdatazone || leb v.nzones block))
    >> (if v.users block == 0
        then drop_zone (block - (v.firstdatazone - 1))
            (record v { shorts = update v.shorts block (v.on_disk block) })
        else ok (record v { users = update v.users block (v.users block + 1) }))

-- `new_inode` and `free_inode` on the bitmap. The number of the inode.
unfoldable pub take_inode : Volume → Result (Option ℕ × Volume)
take_inode v = elim (search 8 0 v.imap) [
  | none ↦ ok (none, v)
  | some (i, j, m) ↦
      if ltb v.ninodes (j + i * 8192)
      then ok (none, v)
      else require (not (map_bit m.words j))
        >> ok (some (j + i * 8192), record v { imap = mark i j m v.imap })
]

unfoldable pub drop_inode : (num : ℕ) → Volume → Result Volume
drop_inode num v = require (not (ltb num 1 || ltb v.ninodes num)) >> elim (v.imap (num / 8192)) [
  | none ↦ panic
  | some m ↦
      require (map_bit m.words (num % 8192))
      >> ok (record v { imap = unmark (num / 8192) (num % 8192) m v.imap })
]
