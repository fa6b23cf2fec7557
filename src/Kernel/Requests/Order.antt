-- ===== src/Kernel/Requests/Order.antt =====
-- kernel/hd.c: the order of the requests.
use linux.Prelude.{
  ℕ, ◌+◌, ◌*◌, ◌^◌, ◌<◌, ◌≤◌, ◌≡◌, ◌≢◌, refl, sym, ap, ◌∙◌, arith, inl, inr, true, false, not, ◌&&◌,
  ◌||◌, Bool-cases, ◌==◌, ltb, slt, bias, if◌then◌else◌, List, [], ◌∷◌, ◌++◌, ok,
}
use linux.Kernel.Requests.{Request, in_order, insert_after, enqueue, add_request}

-- The fields are words.
pub record IsRequest (r : Request) : Type 0 where
  pub hd_in : r.hd < 2 ^ 32
  pub sector_in : r.sector < 2 ^ 32
  pub head_in : r.head < 2 ^ 32
  pub cyl_in : r.cyl < 2 ^ 32

-- The place as one number.
abbrev pub place : Request → ℕ
place r = bias r.hd * 2 ^ 96 + (bias r.cyl * 2 ^ 64 + (bias r.head * 2 ^ 32 + bias r.sector))

by_head :
    (a b x y : ℕ)
    → a < 2 ^ 32
    → b < 2 ^ 32
    → x < 2 ^ 32
    → y < 2 ^ 32
    → (slt a b || (a == b && ltb x y)) ≡ ltb (bias a * 2 ^ 32 + x) (bias b * 2 ^ 32 + y)
by_head a b x y h k l m = ground arith

by_cyl :
    (a b x y : ℕ)
    → a < 2 ^ 32
    → b < 2 ^ 32
    → x < 2 ^ 64
    → y < 2 ^ 64
    → (slt a b || (a == b && ltb x y)) ≡ ltb (bias a * 2 ^ 64 + x) (bias b * 2 ^ 64 + y)
by_cyl a b x y h k l m = ground arith

by_hd :
    (a b x y : ℕ)
    → a < 2 ^ 32
    → b < 2 ^ 32
    → x < 2 ^ 96
    → y < 2 ^ 96
    → (slt a b || (a == b && ltb x y)) ≡ ltb (bias a * 2 ^ 96 + x) (bias b * 2 ^ 96 + y)
by_hd a b x y h k l m = ground arith

-- How often the arm has to go back on its way through the requests.
unfoldable pub returns_back : Request → List Request → ℕ
returns_back r [] = 0
returns_back r (s ∷ rest) = (if ltb (place s) (place r) then 1 else 0) + returns_back s rest

-- The requests are words, and no two of them that follow each other, nor the new one and another,
-- are for the same place.
abbrev pub IsApart : Request → Request → List Request → Type 0
IsApart req r [] = IsRequest r × (place req ≢ place r)
IsApart req r (s ∷ rest) =
    IsRequest r × (place req ≢ place r) × (place r ≢ place s) × IsApart req s rest

in_order-place :
    (r s : Request) → IsRequest r → IsRequest s → in_order r s ≡ ltb (place r) (place s)
unfolding in_order
in_order-place r s v w =
    rw
      (
        by_head r.head s.head (bias r.sector) (bias s.sector) v.head_in w.head_in (omega arith)
            (omega arith),
        by_cyl r.cyl s.cyl (bias r.head * 2 ^ 32 + bias r.sector)
            (bias s.head * 2 ^ 32 + bias s.sector) v.cyl_in w.cyl_in (omega arith) (omega arith),
      )
      (by_hd r.hd s.hd (bias r.cyl * 2 ^ 64 + (bias r.head * 2 ^ 32 + bias r.sector))
        (bias s.cyl * 2 ^ 64 + (bias s.head * 2 ^ 32 + bias s.sector)) v.hd_in w.hd_in (omega arith)
        (omega arith))

first-IsRequest : (req r : Request) (rest : List Request) → IsApart req r rest → IsRequest r
first-IsRequest req r [] apart = apart.0
first-IsRequest req r (s ∷ rest) apart = apart.0

first_apart : (req r : Request) (rest : List Request) → IsApart req r rest → place req ≢ place r
first_apart req r [] apart = apart.1
first_apart req r (s ∷ rest) apart = apart.1

-- The new request goes between two, or behind; `x`, `q` and `n` are the places of the request
-- before, of the new one and of the next.
goes_between :
    (x n q d : ℕ)
    → x ≢ n
    → q ≢ n
    → (if ltb n x then 1 else 0) + d ≤ 1
    → ((ltb x q || not (ltb x n)) && ltb q n) ≡ true
    → ((if ltb q x then 1 else 0) + ((if ltb n q then 1 else 0) + d) ≤ 1)
      × ((if ltb n x then 1 else 0) + d ≡ 0
          → x < q
          → (if ltb q x then 1 else 0) + ((if ltb n q then 1 else 0) + d) ≡ 0)
goes_between x n q d a b h c = (ground arith, λ k l. ground arith)

goes_behind :
    (x n q d d' : ℕ)
    → x ≢ n
    → q ≢ n
    → (if ltb n x then 1 else 0) + d ≤ 1
    → (d ≤ 1 → (d' ≤ 1) × (d ≡ 0 → n < q → d' ≡ 0))
    → ((ltb x q || not (ltb x n)) && ltb q n) ≡ false
    → ((if ltb n x then 1 else 0) + d' ≤ 1)
      × ((if ltb n x then 1 else 0) + d ≡ 0 → x < q → (if ltb n x then 1 else 0) + d' ≡ 0)
goes_behind x n q d d' a b h ih c = from_ih (ih (ground arith))
  where
    from_ih :
        (d' ≤ 1) × (d ≡ 0 → n < q → d' ≡ 0)
        → ((if ltb n x then 1 else 0) + d' ≤ 1)
          × ((if ltb n x then 1 else 0) + d ≡ 0 → x < q → (if ltb n x then 1 else 0) + d' ≡ 0)
    from_ih (i, j) = (ground arith, λ k l. ground arith)

goes_last :
    (x q : ℕ)
    → ((if ltb q x then 1 else 0) + 0 ≤ 1)
      × (◌≡◌ {A = ℕ} 0 0 → x < q → (if ltb q x then 1 else 0) + 0 ≡ 0)
goes_last x q = (ground arith, λ k l. ground arith)

-- What the loop does behind `tmp`: the new request is put somewhere, and if the arm had to go back
-- at most once before, it does so now.
abbrev pub IsInserted : Request → Request → List Request → List Request → Type 0
IsInserted req tmp rest t =
    ((l : List Request) × (r : List Request) × (rest ≡ l ++ r) × (t ≡ l ++ req ∷ r))
    × (returns_back tmp rest ≤ 1
        → (returns_back tmp t ≤ 1)
          × (returns_back tmp rest ≡ 0 → place tmp < place req → returns_back tmp t ≡ 0))

insert_after-IsInserted :
    (req tmp : Request) (rest : List Request)
    → IsRequest req
    → IsApart req tmp rest
    → (t : List Request) × (insert_after req tmp rest ≡ tmp ∷ t) × IsInserted req tmp rest t
unfolding insert_after returns_back
insert_after-IsInserted req tmp [] v apart =
    (req ∷ [], refl, (([], [], refl, refl), λ h. goes_last (place tmp) (place req)))
insert_after-IsInserted req tmp (next ∷ rest) v (w, a, b, apart) =
    elim (Bool-cases ((in_order tmp req || not (in_order tmp next)) && in_order req next)) [
      | inl here ↦ (
        req ∷ next ∷ rest,
        rw here refl,
        (
          ([], next ∷ rest, refl, refl),
          λ h.
              goes_between (place tmp) (place next) (place req) (returns_back next rest) b
                (first_apart req next rest apart) h (sym test ∙ here),
        ),
      )
      | inr further ↦ behind further (insert_after-IsInserted req next rest v apart)
    ]
  where
    test : ((in_order tmp req || not (in_order tmp next)) && in_order req next) ≡ (
        (ltb (place tmp) (place req) || not (ltb (place tmp) (place next)))
        && ltb (place req) (place next))
    test =
        rw
          (
            in_order-place tmp req w v,
            in_order-place tmp next w (first-IsRequest req next rest apart),
            in_order-place req next v (first-IsRequest req next rest apart),
          )
          refl

    behind :
        ((in_order tmp req || not (in_order tmp next)) && in_order req next) ≡ false
        → (t : List Request) × (insert_after req next rest ≡ next ∷ t) × IsInserted req next rest t
        → (t : List Request) × (insert_after req tmp (next ∷ rest) ≡ tmp ∷ t)
          × IsInserted req tmp (next ∷ rest) t
    behind further (t, e, ((l, r, e₁, e₂), ih)) = (
      next ∷ t,
      rw further (ap (◌∷◌ tmp) e),
      (
        (next ∷ l, r, ap (◌∷◌ next) e₁, ap (◌∷◌ next) e₂),
        λ h.
            goes_behind (place tmp) (place next) (place req) (returns_back next rest)
              (returns_back next t) b (first_apart req next rest apart) h ih (sym test ∙ further),
      ),
    )

-- A request of 2 sectors is added to a queue of at least two requests, all of them for other
-- places and each for another place than the next. It is put somewhere behind the first two, which
-- stay. If the arm has to go back at most once from the second request on, it still has to at most
-- once.
pub add_request_lem :
    (req this tmp : Request) (rest : List Request)
    → IsRequest req
    → IsApart req tmp rest
    → returns_back tmp rest ≤ 1
    → req.nsector ≡ 2
    → (t : List Request) × (add_request req (this ∷ tmp ∷ rest) ≡ ok (this ∷ tmp ∷ t))
      × ((l : List Request) × (r : List Request) × (rest ≡ l ++ r) × (t ≡ l ++ req ∷ r))
      × (returns_back tmp t ≤ 1)
unfolding add_request enqueue
add_request_lem req this tmp rest v apart h two =
    placed (insert_after-IsInserted req tmp rest v apart)
  where
    placed :
        (t : List Request) × (insert_after req tmp rest ≡ tmp ∷ t) × IsInserted req tmp rest t
        → (t : List Request) × (add_request req (this ∷ tmp ∷ rest) ≡ ok (this ∷ tmp ∷ t))
          × ((l : List Request) × (r : List Request) × (rest ≡ l ++ r) × (t ≡ l ++ req ∷ r))
          × (returns_back tmp t ≤ 1)
    placed (t, e, (where_put, back)) =
        (t, rw two refl ∙ ap (λ q. ok (this ∷ q)) e, where_put, (back h).0)
