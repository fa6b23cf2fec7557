-- ===== src/Fs/Truncate/Owned.antt =====
-- Sequences of blocks, owned by a file, and what freeing them does to a volume.
use linux.Prelude.{
  ℕ, ◌≡◌, ◌≢◌, refl, sym, ap, ◌∙◌, arith, Bool, true, false, not, ◌&&◌, ◌||◌, ◌==◌, if◌then◌else◌,
  List, [], ◌∷◌, ◌++◌, update_ne,
}
use linux.Fs.Volume.{Volume}
use linux.Fs.Volume.Zones.{IsZone, is_used, IsVolume}
use linux.Fs.Volume.Free.{IsFreed}

abbrev pub member : ℕ → List ℕ → Bool
member b [] = false
member b (c ∷ cs) = b == c || member b cs

abbrev pub distinct : List ℕ → Bool
distinct [] = true
distinct (c ∷ cs) = not (member c cs) && distinct cs

pub member-append : (b : ℕ) (xs ys : List ℕ) → member b (xs ++ ys) ≡ (member b xs || member b ys)
member-append b [] ys = refl
member-append b (x ∷ xs) ys =
    ap (λ (t : Bool). b == x || t) (member-append b xs ys)
    ∙ regroup (b == x) (member b xs) (member b ys)
  where
    regroup : (p q r : Bool) → (p || (q || r)) ≡ ((p || q) || r)
    regroup p q r = ground arith

pub distinct_left : (xs ys : List ℕ) → distinct (xs ++ ys) ≡ true → distinct xs ≡ true
distinct_left [] ys e = refl
distinct_left (x ∷ xs) ys e =
    both (member x (xs ++ ys)) (member x xs) (member x ys) (distinct xs) (distinct (xs ++ ys))
      (member-append x xs ys)
      (distinct_left xs ys (second (not (member x (xs ++ ys))) (distinct (xs ++ ys)) e)) e
  where
    second : (p q : Bool) → (p && q) ≡ true → q ≡ true
    second p q e = ground arith

    both : (p q r s t : Bool) → p ≡ (q || r) → s ≡ true → (not p && t) ≡ true → (not q && s) ≡ true
    both p q r s t e f g = ground arith

pub distinct_right : (xs ys : List ℕ) → distinct (xs ++ ys) ≡ true → distinct ys ≡ true
distinct_right [] ys e = e
distinct_right (x ∷ xs) ys e =
    distinct_right xs ys (second (not (member x (xs ++ ys))) (distinct (xs ++ ys)) e)
  where
    second : (p q : Bool) → (p && q) ≡ true → q ≡ true
    second p q e = ground arith

pub distinct_apart :
    (xs ys : List ℕ)
    → distinct (xs ++ ys) ≡ true
    → (b : ℕ) → member b ys ≡ true
    → member b xs ≡ false
distinct_apart [] ys e b m = refl
distinct_apart (x ∷ xs) ys e b m =
    neither (member x (xs ++ ys)) (member x xs) (member x ys) (member b xs) (member-append x xs ys)
      (distinct_apart xs ys (second (not (member x (xs ++ ys))) (distinct (xs ++ ys)) e) b m)
      (first (member x (xs ++ ys)) (distinct (xs ++ ys)) e)
      (λ q. ap (λ (c : ℕ). member c ys) (sym q) ∙ m)
  where
    first : (p q : Bool) → (not p && q) ≡ true → p ≡ false
    first p q e = ground arith

    second : (p q : Bool) → (p && q) ≡ true → q ≡ true
    second p q e = ground arith

    neither :
        (p q r s : Bool)
        → p ≡ (q || r)
        → s ≡ false
        → p ≡ false
        → (b ≡ x → r ≡ true)
        → (b == x || s) ≡ false
    neither p q r s e f g h = ground arith

-- The blocks are used data blocks without users, and different from one another.
pub record IsOwned (v : Volume) (bs : List ℕ) : Type 0 where
  pub held : (b : ℕ) → member b bs ≡ true → IsZone v b × (is_used v b ≡ true) × (v.users b ≡ 0)
  pub apart : distinct bs ≡ true

-- The blocks are free; all others are as they were, and so are the users.
pub record Frees (bs : List ℕ) (v v' : Volume) : Type 0 where
  pub unused : (c : ℕ) → IsZone v c → is_used v' c ≡ (if member c bs then false else is_used v c)
  pub shorts_kept : (c : ℕ) → member c bs ≡ false → v'.shorts c ≡ v.shorts c
  pub users_kept : v'.users ≡ v.users
  pub first_kept : v'.firstdatazone ≡ v.firstdatazone
  pub last_kept : v'.nzones ≡ v.nzones
  pub numbers_kept : v'.ninodes ≡ v.ninodes
  pub imap_kept : v'.imap ≡ v.imap
  pub valid : IsVolume v'

pub no-Frees : (v : Volume) → IsVolume v → Frees [] v v
no-Frees v w = record {
  unused = λ c z. refl;
  shorts_kept = λ c m. refl;
  users_kept = refl;
  first_kept = refl;
  last_kept = refl;
  numbers_kept = refl;
  imap_kept = refl;
  valid = w;
}

pub then-Frees :
    (xs ys : List ℕ) {v v₁ v₂ : Volume} → Frees xs v v₁ → Frees ys v₁ v₂ → Frees (xs ++ ys) v v₂
then-Frees xs ys {v = v} d e = record {
  unused = λ c z.
      e.unused c (omega (arith, z, d.first_kept, d.last_kept))
      ∙ ap (λ (u : Bool). if member c ys then false else u) (d.unused c z)
      ∙ either (member c (xs ++ ys)) (member c xs) (member c ys) (is_used v c)
          (member-append c xs ys);
  shorts_kept = λ c m.
      e.shorts_kept c
        (right (member c (xs ++ ys)) (member c xs) (member c ys) (member-append c xs ys) m)
      ∙ d.shorts_kept c
          (left (member c (xs ++ ys)) (member c xs) (member c ys) (member-append c xs ys) m);
  users_kept = e.users_kept ∙ d.users_kept;
  first_kept = e.first_kept ∙ d.first_kept;
  last_kept = e.last_kept ∙ d.last_kept;
  numbers_kept = e.numbers_kept ∙ d.numbers_kept;
  imap_kept = e.imap_kept ∙ d.imap_kept;
  valid = e.valid;
}
  where
    either :
        (p q r u : Bool)
        → p ≡ (q || r)
        → (if r then false else (if q then false else u)) ≡ (if p then false else u)
    either p q r u e = ground arith

    left : (p q r : Bool) → p ≡ (q || r) → p ≡ false → q ≡ false
    left p q r e f = ground arith

    right : (p q r : Bool) → p ≡ (q || r) → p ≡ false → r ≡ false
    right p q r e f = ground arith

pub freed-Frees : (b : ℕ) (v v' : Volume) → IsFreed b v v' → Frees (b ∷ []) v v'
freed-Frees b v v' d = record {
  unused = λ c z. d.unused c z ∙ one c (is_used v c);
  shorts_kept =
      λ c m. ap (λ (u : Volume). u.shorts c) d.rest ∙ update_ne v.shorts (v.on_disk b) (other c m);
  users_kept = ap (λ (u : Volume). u.users) d.rest;
  first_kept = ap (λ (u : Volume). u.firstdatazone) d.rest;
  last_kept = ap (λ (u : Volume). u.nzones) d.rest;
  numbers_kept = ap (λ (u : Volume). u.ninodes) d.rest;
  imap_kept = ap (λ (u : Volume). u.imap) d.rest;
  valid = d.valid;
}
  where
    one :
        (c : ℕ) (u : Bool) → (if c == b then false else u) ≡ (if c == b || false then false else u)
    one c u = ground arith

    other : (c : ℕ) → (c == b || false) ≡ false → b ≢ c
    other c m = ground arith

-- Parts of what is owned.
pub left-IsOwned : (xs ys : List ℕ) {v : Volume} → IsOwned v (xs ++ ys) → IsOwned v xs
left-IsOwned xs ys o = record {
  held = λ b m. o.held b (member-append b xs ys ∙ either (member b xs) (member b ys) m);
  apart = distinct_left xs ys o.apart;
}
  where
    either : (p q : Bool) → p ≡ true → (p || q) ≡ true
    either p q e = ground arith

-- What is left once the first part is freed.
pub right-IsOwned :
    (xs ys : List ℕ) {v v' : Volume} → IsOwned v (xs ++ ys) → Frees xs v v' → IsOwned v' ys
right-IsOwned xs ys {v = v} o d = record {
  held = λ b m.
      let (z, u, n) = o.held b (member-append b xs ys ∙ either (member b xs) (member b ys) m) in
      (
        omega (arith, z, d.first_kept, d.last_kept),
        d.unused b z ∙ still (member b xs) (is_used v b) (distinct_apart xs ys o.apart b m) u,
        ap (λ (f : ℕ → ℕ). f b) d.users_kept ∙ n,
      );
  apart = distinct_right xs ys o.apart;
}
  where
    either : (p q : Bool) → q ≡ true → (p || q) ≡ true
    either p q e = ground arith

    still : (p q : Bool) → p ≡ false → q ≡ true → (if p then false else q) ≡ true
    still p q e f = ground arith
