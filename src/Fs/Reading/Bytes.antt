-- ===== src/Fs/Reading/Bytes.antt =====
-- fs/file_dev.c: file_read against the sequence of the file's bytes.
use linux.Prelude.{ℕ, ◌+◌, ◌-◌, ◌/◌, ◌%◌, ◌≤◌, ◌≡◌, ◌⊎◌, none, some, List}
use mathlib.Core.Path.{Path}
use linux.Fs.Reading.{FileBlocks, block_size, block_bytes, copy_bytes}

-- The byte at an offset of the file, 0 where the block cannot be read.
abbrev pub byte_at : FileBlocks → (offset : ℕ) → ℕ
byte_at disk offset = elim (block_bytes disk (offset / block_size)) as (λ _. ℕ) [
  | none ↦ 0
  | some bytes ↦ bytes (offset % block_size)
]

-- `n` bytes have been read from `pos` on, which is all, or the block that comes next cannot be read.
pub record IsRead (disk : FileBlocks) (pos left n : ℕ) (r : List ℕ × ℕ × ℕ) : Type 0 where
  pub at_most : n ≤ left
  pub bytes : r.0 ≡ copy_bytes n pos (byte_at disk)
  pub moved : r.1 ≡ pos + n
  pub remaining : r.2 ≡ left - n
  pub stopped : (n ≡ left) ⊎ (block_bytes disk ((pos + n) / block_size) ≡ none)

-- The part of the block that is read is not empty, is no more than is asked for, and ends in the
-- block.
abbrev Fits : (pos left c : ℕ) → Type 0
Fits pos left c = (1 ≤ c) × (c ≤ left) × (pos % block_size + c ≤ block_size)
