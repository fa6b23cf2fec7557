-- ===== src/Fs/Names/Tests.antt =====
-- Comparing the name "ab" with two entries.
use linux.Prelude.{ℕ, ◌≡◌, ◌↔◌, refl, arith, true, false, ◌==◌, if◌then◌else◌}
use linux.Fs.Names.{DirEntry, match_name, same_bytes}
use linux.Fs.Names.Matches.{IsNamed, match_name-IsNamed}

abbrev ab : ℕ → ℕ
ab i = if i == 0 then b'a' else (if i == 1 then b'b' else 0)

abbrev file : DirEntry
file = record { inode = 5; name = ab }

abbrev longer : DirEntry
longer = record { inode = 6; name = λ i. if i == 2 then b'c' else ab i }

same_name : match_name 2 ab file ≡ true
unfolding match_name same_bytes
same_name = refl

prefix_only : match_name 2 ab longer ≡ false
unfolding match_name same_bytes
prefix_only = refl

match_name-IsNamed_example : (match_name 2 ab file ≡ true) ↔ IsNamed 2 ab file
match_name-IsNamed_example = match_name-IsNamed 2 ab file (omega arith)
