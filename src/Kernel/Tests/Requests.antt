-- ===== src/Kernel/Tests/Requests.antt =====
-- The disk's queue.
use linux.Prelude.{ℕ, ◌≤◌, ◌≡◌, refl, arith, List, [], ◌∷◌, ◌++◌, ok}
use linux.Kernel.Requests.{Request, in_order, insert_after, enqueue, add_request}
use linux.Kernel.Requests.Order.{IsApart, returns_back, add_request_lem}

abbrev at : ℕ → Request
at c = record { hd = 0; nsector = 2; sector = 1; head = 3; cyl = c }

abbrev waiting : List Request
waiting = at 40 ∷ at 7 ∷ []

waiting-IsApart : IsApart (at 20) (at 30) waiting
waiting-IsApart = (
  omega arith,
  omega arith,
  omega arith,
  (omega arith, omega arith, omega arith, (omega arith, omega arith)),
)

on_the_way :
    add_request (at 35) (at 9 ∷ at 30 ∷ waiting) ≡ ok (at 9 ∷ at 30 ∷ at 35 ∷ at 40 ∷ at 7 ∷ [])
unfolding add_request enqueue insert_after in_order
on_the_way = refl

on_the_second_way :
    add_request (at 20) (at 9 ∷ at 30 ∷ waiting) ≡ ok (at 9 ∷ at 30 ∷ at 40 ∷ at 7 ∷ at 20 ∷ [])
unfolding add_request enqueue insert_after in_order
on_the_second_way = refl

one_return : returns_back (at 30) waiting ≤ 1
unfolding returns_back
one_return = omega arith

add_request_lem_example :
    (t : List Request) × (add_request (at 20) (at 9 ∷ at 30 ∷ waiting) ≡ ok (at 9 ∷ at 30 ∷ t))
    × ((l : List Request) × (r : List Request) × (waiting ≡ l ++ r) × (t ≡ l ++ at 20 ∷ r))
    × (returns_back (at 30) t ≤ 1)
add_request_lem_example =
    add_request_lem (at 20) (at 9) (at 30) waiting (omega arith) waiting-IsApart one_return refl
