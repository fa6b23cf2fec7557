-- ===== src/Tty/Queue/Contents.antt =====
-- The characters in a queue, oldest first.
use linux.Prelude.{
  ℕ, suc, ◌+◌, ◌%◌, ◌<◌, ◌≡◌, ◌≢◌, ap, ◌∙◌, arith, true, false, List, [], ◌∷◌, ◌++◌, update,
  update_self, ring, IsRing, ring-snoc, ring-update,
}
use mathlib.Core.Path.{ap₂}
use linux.Tty.Queue.{Queue, tty_buf_size, inc, dec, is_empty, is_full, last, chars, getch, putch}

abbrev pub IsQueue : Queue → Type 0
IsQueue q = (q.head < tty_buf_size) × (q.tail < tty_buf_size)

abbrev pub contents : Queue → List ℕ
contents q = ring inc q.buf q.tail (chars q)

around : ℕ → ℕ → ℕ
around t n = (t + n) % 1024

queue-IsRing : IsRing 1024 inc around
unfolding around
queue-IsRing = record {
  step_in = λ t h. omega arith;
  nth_zero = λ t h. omega arith;
  nth_suc = λ t n h. omega arith;
}

-- A character put into a queue that is not full comes last.
pub contents-putch :
    (c : ℕ) (q : Queue)
    → IsQueue q
    → is_full q ≡ false
    → contents (putch c q) ≡ contents q ++ c ∷ []
unfolding around
contents-putch c q v room =
    ap (ring inc (update q.buf q.head c) q.tail) grown
    ∙ ring-snoc 1024 inc around queue-IsRing (update q.buf q.head c) q.tail (chars q) v.1
    ∙ ap₂ (λ (xs : List ℕ) (x : ℕ). xs ++ x ∷ [])
        (ring-update 1024 inc around queue-IsRing q.buf c q.tail (chars q) q.head v.1
          (λ k l. not_there k (omega arith)))
        (ap (update q.buf q.head c) last_at ∙ update_self q.buf c q.head)
  where
    grown : chars (putch c q) ≡ suc (chars q)
    grown = ground arith

    last_at : (q.tail + chars q) % 1024 ≡ q.head
    last_at = omega arith

    not_there : (k : ℕ) → k < chars q → q.head ≢ (q.tail + k) % 1024
    not_there k l = omega arith

-- The character taken is the first.
pub contents-getch :
    (q : Queue) → IsQueue q → is_empty q ≡ false → contents q ≡ (getch q).0 ∷ contents (getch q).1
contents-getch q v some_left = ap (ring inc q.buf q.tail) size
  where
    size : chars q ≡ suc (chars (getch q).1)
    size = ground arith

-- DEC of the head takes the last character back.
pub contents-drop_last :
    (q : Queue)
    → IsQueue q
    → is_empty q ≡ false
    → contents q ≡ contents (record q { head = dec q.head }) ++ last q ∷ []
unfolding around
contents-drop_last q v some_left =
    ap (ring inc q.buf q.tail) size
    ∙ ring-snoc 1024 inc around queue-IsRing q.buf q.tail (chars (record q { head = dec q.head }))
        v.1
    ∙ ap (λ (i : ℕ). contents (record q { head = dec q.head }) ++ q.buf i ∷ []) at_last
  where
    size : chars q ≡ suc (chars (record q { head = dec q.head }))
    size = ground arith

    at_last : (q.tail + chars (record q { head = dec q.head })) % 1024 ≡ dec q.head
    at_last = ground arith

pub contents-empty : (q : Queue) → IsQueue q → is_empty q ≡ true → contents q ≡ []
contents-empty q v e = ap (ring inc q.buf q.tail) none_left
  where
    none_left : chars q ≡ 0
    none_left = ground arith
