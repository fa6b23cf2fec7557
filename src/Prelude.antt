-- ===== src/Prelude.antt =====
-- The names that the models of the kernel's parts share: the libraries', passed on, and those of
-- the children. `Tests` has Boolean tests, `Lists` lists indexed by native numbers, `Words` the
-- 32-bit machine words, `Bits` the single bits of a word, `Tables` fixed arrays, `Ring` rings,
-- `Returns` the value that a system call returns.
mod Tests
mod Lists
mod Words
mod Bits
mod Tables
mod Scan
mod Ring
mod Returns
pub use Tests.*
pub use Lists.*
pub use Words.*
unfoldable pub use Bits.*
pub use Tables.*
unfoldable pub use Scan.*
pub use Ring.*
pub use Returns.*
pub use Prim.Native.Nat.{ℕ, zero, suc, ◌+◌, ◌-◌, ◌*◌, ◌/◌, ◌%◌, ◌^◌, ◌≤◌, ◌<◌}
pub use mathlib.Core.Path.{◌≡◌, refl, sym, ap, ◌∙◌}
pub use mathlib.Core.Logic.{◌≢◌, ◌↔◌, ◌⊎◌, inl, inr}
pub use mathlib.Core.Bool.{Bool, true, false, not, ◌&&◌, ◌||◌}
pub use mathlib.Core.Option.{Option, none, some}
pub use mathlib.Core.List.{List, [], ◌∷◌, ◌++◌, map}
pub use native.Mathlib.Omega.{arith}
unfoldable pub use native.Mathlib.Decide.{dec_lt, ℕ_discrete}
