-- ===== src/Fs/Inode.antt =====
-- fs/inode.c: _bmap, bmap and create_block. A negative block number, whose pattern is 2 ^ 31 or
-- more, is above the limit here, so that the two panics are one.
pub mod Slots
pub mod Grow
pub mod Zone
pub mod Entry
pub mod Create
pub mod Tests
use linux.Prelude.{
  ℕ, zero, suc, ◌+◌, ◌-◌, ◌*◌, ◌/◌, ◌%◌, ◌^◌, Bool, true, false, ◌&&◌, ◌==◌, ltb, if◌then◌else◌,
  update, Option, none, some, Result, ok, require, ◌>>◌, ◌>>=◌,
}
use linux.Fs.Volume.{Volume, new_block}

-- The fields of `m_inode` that the files of fs/ read or write here.
pub record Inode : Type 0 where
  pub mode : ℕ
  pub size : ℕ
  pub mtime : ℕ
  pub ctime : ℕ
  pub zone : ℕ → ℕ
  pub dirt : Bool

-- `if (create && !inode->i_zone[k]) if (inode->i_zone[k]=new_block(...)) {...}`
abbrev pub set_zone : (now : ℕ) → (k : ℕ) → (n : ℕ) → Inode → Inode
set_zone now k n ino =
    let ino' : Inode = record ino { zone = update ino.zone k (n % 2 ^ 16) } in
    if n % 2 ^ 16 == 0 then ino' else record ino' { dirt = true; ctime = now }

unfoldable pub get_zone :
    (now : ℕ) → (create : Bool) → (k : ℕ) → Inode → Volume → Result (Inode × Volume)
get_zone now create k ino v =
    if create && ino.zone k == 0
    then new_block v >>= (λ (n, v'). ok (set_zone now k n ino, v'))
    else ok (ino, v)

-- A buffer that `bread` has given, until `brelse`.
abbrev pub hold : (block : ℕ) → Volume → Volume
hold block v = record v { users = update v.users block (v.users block + 1) }

abbrev pub release : (block : ℕ) → Volume → Volume
release block v = record v { users = update v.users block (v.users block - 1) }

-- `((unsigned short *) (bh->b_data))[i]=n`, when `new_block` has given a block.
abbrev pub put_short : (block : ℕ) → (i : ℕ) → (n : ℕ) → (ℕ → ℕ) → Volume → Volume
put_short block i n shorts v =
    if n == 0
    then v
    else record v { shorts = update v.shorts block (some (update shorts i (n % 2 ^ 16))) }

-- From `bread` to `brelse`: entry `i` of an indirect block. 0 when the block cannot be read.
unfoldable pub get_entry : (create : Bool) → (i : ℕ) → (block : ℕ) → Volume → Result (ℕ × Volume)
get_entry create i block v = elim (v.shorts block) [
  | none ↦ ok (0, v)
  | some shorts ↦
      if create && shorts i == 0
      then new_block (hold block v)
        >>= (λ (n, v'). ok (n, release block (put_short block i n shorts v')))
      else ok (shorts i, release block (hold block v))
]

-- The entry of a block that may be missing.
unfoldable pub get_indirect : (create : Bool) → (i : ℕ) → (block : ℕ) → Volume → Result (ℕ × Volume)
get_indirect create i block v = if block == 0 then ok (0, v) else get_entry create i block v

abbrev pub with_inode : Inode → ℕ × Volume → Result (ℕ × Inode × Volume)
with_inode ino (n, v) = ok (n, ino, v)

unfoldable pub map_block :
    (now : ℕ) → (create : Bool) → (block : ℕ) → Inode → Volume → Result (ℕ × Inode × Volume)
map_block now create block ino v =
    require (ltb block (7 + 512 + 512 * 512))
    >> (if ltb block 7
        then get_zone now create block ino v >>= (λ (ino', v'). ok (ino'.zone block, ino', v'))
        else (if ltb (block - 7) 512
            then get_zone now create 7 ino v >>= (λ (ino', v').
              get_indirect create (block - 7) (ino'.zone 7) v' >>= with_inode ino')
            else get_zone now create 8 ino v >>= (λ (ino', v').
              get_indirect create ((block - 519) / 512) (ino'.zone 8) v' >>= (λ (i, v'').
                get_indirect create ((block - 519) % 512) i v'' >>= with_inode ino'))))

abbrev pub bmap : (now : ℕ) → (block : ℕ) → Inode → Volume → Result (ℕ × Inode × Volume)
bmap now block ino v = map_block now false block ino v

abbrev pub create_block : (now : ℕ) → (block : ℕ) → Inode → Volume → Result (ℕ × Inode × Volume)
create_block now block ino v = map_block now true block ino v
