-- ===== src/Kernel/Requests.antt =====
-- kernel/hd.c: the queue of the disk requests, from `this_request` on. `add_request` is modelled up
-- to the point where it starts the disk.
pub mod Order
use linux.Prelude.{
  ℕ, zero, suc, Bool, true, false, not, ◌&&◌, ◌||◌, ◌==◌, if◌then◌else◌, slt, List, [], ◌∷◌, Result,
  ok, panic,
}

-- The place on the disk of `struct hd_request`, and the number of sectors.
pub record Request : Type 0 where
  pub hd : ℕ
  pub nsector : ℕ
  pub sector : ℕ
  pub head : ℕ
  pub cyl : ℕ

-- IN_ORDER
unfoldable pub in_order : Request → Request → Bool
in_order r s =
    slt r.hd s.hd
    || (r.hd == s.hd
        && (slt r.cyl s.cyl
            || (r.cyl == s.cyl
                && (slt r.head s.head || (r.head == s.head && slt r.sector s.sector)))))

-- The loop of `add_request` with `tmp` and the requests behind it: the queue from `tmp` on.
unfoldable pub insert_after : (req : Request) → (tmp : Request) → List Request → List Request
insert_after req tmp [] = tmp ∷ req ∷ []
insert_after req tmp (next ∷ rest) =
    let later = insert_after req next rest in
    if (in_order tmp req || not (in_order tmp next)) && in_order req next
    then tmp ∷ req ∷ next ∷ rest
    else tmp ∷ later

unfoldable pub enqueue : (req : Request) → List Request → List Request
enqueue req [] = req ∷ []
enqueue req (this ∷ []) = this ∷ req ∷ []
enqueue req (this ∷ tmp ∷ rest) = this ∷ insert_after req tmp rest

unfoldable pub add_request : (req : Request) → List Request → Result (List Request)
add_request req queue = if req.nsector == 2 then ok (enqueue req queue) else panic
