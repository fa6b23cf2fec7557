-- ===== src/Fs/Names.antt =====
-- fs/namei.c: match, the comparison of a name with an entry of a directory, for an entry that is
-- there (`de` is not NULL) and a length that is not negative.
pub mod Matches
mod Tests
use linux.Prelude.{ℕ, zero, suc, Bool, true, false, not, ◌&&◌, ◌||◌, ◌==◌, ltb, if◌then◌else◌}

pub record DirEntry : Type 0 where
  pub inode : ℕ
  pub name : ℕ → ℕ

abbrev pub name_len : ℕ
name_len = 14

-- `repe; cmpsb` of `len` bytes from number `k` on.
unfoldable pub same_bytes : (len : ℕ) → (k : ℕ) → (ℕ → ℕ) → (ℕ → ℕ) → Bool
same_bytes zero k a b = true
same_bytes (suc len) k a b = a k == b k && same_bytes len (suc k) a b

-- `match`
unfoldable pub match_name : (len : ℕ) → (name : ℕ → ℕ) → DirEntry → Bool
match_name len name de =
    if de.inode == 0 || ltb name_len len
    then false
    else (if ltb len name_len && not (de.name len == 0)
        then false
        else same_bytes len 0 name de.name)
