-- ===== src/Prelude/Returns.antt =====
-- What a system call returns: `ret n` is `return n`, `fail e` is `return -e`.
use Prim.Native.Nat.{ℕ}
use mathlib.Core.Path.{◌≡◌, refl}
use mathlib.Core.Bool.{Bool, true, false}

pub data Ret : Type 0 where
  ret : ℕ → Ret
  fail : ℕ → Ret

-- The numbers of include/errno.h that the models name.
abbrev pub eperm : ℕ
eperm = 1

abbrev pub enoent : ℕ
enoent = 2

abbrev pub esrch : ℕ
esrch = 3

abbrev pub eintr : ℕ
eintr = 4

abbrev pub ebadf : ℕ
ebadf = 9

abbrev pub echild : ℕ
echild = 10

abbrev pub eagain : ℕ
eagain = 11

abbrev pub enomem : ℕ
enomem = 12

abbrev pub eacces : ℕ
eacces = 13

abbrev pub einval : ℕ
einval = 22

abbrev pub emfile : ℕ
emfile = 24

-- A kernel routine comes back with a value, or it calls `panic`, which never returns
-- (kernel/panic.c).
pub data Result {ℓ} (A : Type ℓ) : Type ℓ where
  ok : A → Result A
  panic : Result A

infixl 5 ◌>>=◌ ◌>>◌
-- What follows a routine that came back.
abbrev pub ◌>>=◌ {ℓ κ} : {A : Type ℓ} {B : Type κ} → Result A → (A → Result B) → Result B
panic >>= next = panic
ok value >>= next = next value

-- A chain came back only if each of its parts did.
pub >>=-eq-ok {ℓ κ} :
    {A : Type ℓ} {B : Type κ} {last : B} (first : Result A) (next : A → Result B)
    → (first >>= next) ≡ ok last
    → (value : A) × (first ≡ ok value) × (next value ≡ ok last)
>>=-eq-ok panic next e = cc
>>=-eq-ok (ok value) next e = (value, refl, e)

-- One routine after another that only checks.
abbrev pub ◌>>◌ {ℓ} : {A : Type ℓ} → Result (Unit {0}) → Result A → Result A
panic >> k = panic
ok u >> k = k

-- `if (!b) panic(...)`
abbrev pub require : Bool → Result (Unit {0})
require true = ok tt
require false = panic

pub ok-injective {ℓ} : {A : Type ℓ} {a b : A} → ok a ≡ ok b → a ≡ b
ok-injective q = cc

pub require-eq-ok {ℓ} :
    {A : Type ℓ} (b : Bool) (k : Result A) {a : A}
    → (require b >> k) ≡ ok a
    → (b ≡ true) × (k ≡ ok a)
require-eq-ok true k h = (refl, h)
require-eq-ok false k h = cc
