-- ===== src/Fs/Truncate.antt =====
-- fs/truncate.c on one mounted device, between two sleeps. `free_each` is the loop that free_ind,
-- free_dind and truncate have over block numbers, `free_through` what free_ind and free_dind share.
pub mod Owned
pub mod Freer
pub mod Through
pub mod Whole
pub mod Tests
use linux.Prelude.{
  ℕ, zero, suc, ◌+◌, ◌/◌, ◌%◌, Bool, true, ◌||◌, ◌==◌, ltb, if◌then◌else◌, Option, none, some,
  Result, ok, ◌>>=◌,
}
use linux.Fs.Volume.{Volume, free_block}
use linux.Fs.Inode.{Inode, hold, release}

-- `S_ISREG(mode) || S_ISDIR(mode)`
abbrev pub has_blocks : (mode : ℕ) → Bool
has_blocks mode = mode / 4096 % 16 == 8 || mode / 4096 % 16 == 4

-- Over `n` block numbers, from number `i` on.
unfoldable pub free_each :
    (n : ℕ)
    → (i : ℕ) → (free : ℕ → Volume → Result Volume) → (shorts : ℕ → ℕ) → Volume
    → Result Volume
free_each zero i free shorts v = ok v
free_each (suc n) i free shorts v =
    (if shorts i == 0 then ok v else free (shorts i) v) >>= free_each n (suc i) free shorts

-- The buffer is held during the loop. A block that cannot be read is freed without what it names.
unfoldable pub free_named :
    (free : ℕ → Volume → Result Volume) → (block : ℕ) → Volume → Result Volume
free_named free block v = elim (v.shorts block) [
  | none ↦ ok v
  | some shorts ↦ free_each 512 0 free shorts (hold block v) >>= (λ v'. ok (release block v'))
]

unfoldable pub free_through :
    (free : ℕ → Volume → Result Volume) → (block : ℕ) → Volume → Result Volume
free_through free block v =
    if block == 0 then ok v else free_named free block v >>= free_block block

abbrev pub free_ind : (block : ℕ) → Volume → Result Volume
free_ind = free_through free_block

abbrev pub free_dind : (block : ℕ) → Volume → Result Volume
free_dind = free_through free_ind

-- The inode at the end.
abbrev pub emptied : (now : ℕ) → Inode → Inode
emptied now ino = record ino {
  zone = λ k. if ltb k 9 then 0 else ino.zone k;
  size = 0;
  dirt = true;
  mtime = now;
  ctime = now;
}

-- The zones of the inode, which the loop sets to 0 one by one, are cleared at the end here: nothing
-- reads them in between.
unfoldable pub truncate : (now : ℕ) → Inode → Volume → Result (Inode × Volume)
truncate now ino v =
    if has_blocks ino.mode
    then free_each 7 0 free_block ino.zone v >>= (λ v₁.
      free_ind (ino.zone 7) v₁
      >>= (λ v₂. free_dind (ino.zone 8) v₂ >>= (λ v₃. ok (emptied now ino, v₃))))
    else ok (ino, v)
