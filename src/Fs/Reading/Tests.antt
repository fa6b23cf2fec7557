-- ===== src/Fs/Reading/Tests.antt =====
-- Reading across a missing block.
use linux.Prelude.{◌≡◌, refl, ◌==◌, if◌then◌else◌, none, some, [], ◌∷◌, ret, fail, ok, panic}
use linux.Fs.Reading.{FileBlocks, copy_bytes, read_loop, file_read}

-- Block 0 has sevens, block 1 is missing, block 2 cannot be read.
abbrev disk : FileBlocks
disk = record {
  bmap = λ b. if b == 0 then 5 else (if b == 1 then 0 else 6);
  bread = λ b. if b == 5 then some (λ i. 7) else none;
}

across : file_read disk 1022 4 ≡ ok (7 ∷ 7 ∷ 0 ∷ 0 ∷ [], 1026, ret 4)
unfolding file_read read_loop copy_bytes
across = refl

unreadable : file_read disk 2048 4 ≡ ok ([], 2048, fail 99)
unfolding file_read read_loop copy_bytes
unreadable = refl

-- Behind the largest file `bmap` panics.
too_far : file_read disk 268966912 4 ≡ panic
unfolding file_read read_loop copy_bytes
too_far = refl
