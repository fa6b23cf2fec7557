-- ===== src/Fs/Truncate/Tests.antt =====
-- A run of `truncate` on a file of a small volume.
use linux.Prelude.{ℕ, ◌≡◌, refl, sym, arith, ◌⊎◌, inl, inr, true, [], ◌∷◌, test_bit}
use mathlib.Core.Path.{subst}
use linux.Fs.Volume.{Volume}
use linux.Fs.Volume.Zones.{IsZone, is_used}
use linux.Fs.Volume.Tests.{small_volume}
use linux.Fs.Inode.{Inode}
use linux.Fs.Inode.Tests.{short_file}
use linux.Fs.Truncate.Owned.{member, IsOwned}
use linux.Fs.Truncate.Whole.{blocks}

pub two_blocks : blocks short_file small_volume ≡ 10 ∷ 11 ∷ []
two_blocks = refl

pub short_file-IsOwned : IsOwned small_volume (10 ∷ 11 ∷ [])
unfolding test_bit
short_file-IsOwned = record { held = λ b m. either b (which b m); apart = refl }
  where
    which : (b : ℕ) → member b (10 ∷ 11 ∷ []) ≡ true → (b ≡ 10) ⊎ (b ≡ 11)
    which b m = ground arith

    Held : ℕ → Type 0
    Held b = IsZone small_volume b × (is_used small_volume b ≡ true) × (small_volume.users b ≡ 0)

    either : (b : ℕ) → (b ≡ 10) ⊎ (b ≡ 11) → Held b
    either b (inl e) = subst Held (sym e) ((omega arith, omega arith), refl, refl)
    either b (inr e) = subst Held (sym e) ((omega arith, omega arith), refl, refl)
