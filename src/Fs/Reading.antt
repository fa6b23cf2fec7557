-- ===== src/Fs/Reading.antt =====
-- fs/file_dev.c: file_read. For a block within the largest file `bmap` (fs/inode.c) and `bread`
-- (fs/buffer.c) are arguments: the number of a block of the file, 0 for none, and the bytes of a
-- block that can be read.
pub mod Bytes
mod Tests
use linux.Prelude.{
  ◌*◌, Result, ok, require, ◌>>=◌, ◌>>◌, ℕ, zero, suc, ◌+◌, ◌-◌, ◌/◌, ◌%◌, Bool, true, false, ◌==◌,
  ltb, if◌then◌else◌, add32, Option, none, some, List, [], ◌∷◌, ◌++◌, Ret, ret, fail, slt,
}

pub record FileBlocks : Type 0 where
  pub bmap : ℕ → ℕ
  pub bread : ℕ → Option (ℕ → ℕ)

abbrev pub block_size : ℕ
block_size = 1024

-- The blocks of the largest file: `bmap` panics from there on.
abbrev pub bmap_limit : ℕ
bmap_limit = 7 + 512 + 512 * 512

-- ERROR
abbrev pub error : ℕ
error = 99

-- A block within the largest file, a missing one being zeros.
abbrev pub block_bytes : FileBlocks → (block : ℕ) → Option (ℕ → ℕ)
block_bytes disk block =
    if disk.bmap block == 0 then some (λ i. 0) else disk.bread (disk.bmap block)

-- `bh`, with the panic of `bmap`; nothing when the block cannot be read.
abbrev pub read_block : FileBlocks → (block : ℕ) → Result (Option (ℕ → ℕ))
read_block disk block = require (ltb block bmap_limit) >> ok (block_bytes disk block)

-- `while (chars-->0) put_fs_byte(*(p++),buf++)`, from byte number `k` on.
unfoldable pub copy_bytes : (chars : ℕ) → (k : ℕ) → (ℕ → ℕ) → List ℕ
copy_bytes zero k bytes = []
copy_bytes (suc chars) k bytes = bytes k ∷ copy_bytes chars (suc k) bytes

-- `MIN( BLOCK_SIZE-nr , left )`
abbrev pub chunk : (pos : ℕ) → (left : ℕ) → ℕ
chunk pos left =
    let nr : ℕ = pos % block_size in if ltb (block_size - nr) left then block_size - nr else left

-- The loop, for at most so many rounds: the bytes put, `f_pos` and `left`.
unfoldable pub read_loop :
    (rounds : ℕ) → FileBlocks → (pos : ℕ) → (left : ℕ) → Result (List ℕ × ℕ × ℕ)
read_loop zero disk pos left = ok ([], pos, left)
read_loop (suc rounds) disk pos left = elim (left == 0) [
  | true ↦ ok ([], pos, left)
  | false ↦ read_block disk (pos / block_size) >>= (λ bh. elim bh [
    | none ↦ ok ([], pos, left)
    | some bytes ↦
        let chars : ℕ = chunk pos left in
        read_loop rounds disk (add32 pos chars) (left - chars) >>= (λ (rest, pos', left').
          ok (copy_bytes chars (pos % block_size) bytes ++ rest, pos', left'))
  ])
]

-- `file_read`, without the time of access: the bytes put, `f_pos`, and what it returns.
unfoldable pub file_read : FileBlocks → (pos : ℕ) → (count : ℕ) → Result (List ℕ × ℕ × Ret)
file_read disk pos count = elim (slt 0 count) [
  | false ↦ ok ([], pos, ret 0)
  | true ↦ read_loop count disk pos count >>= (λ (bytes, pos', left).
      ok (bytes, pos', if count - left == 0 then fail error else ret (count - left)))
]
