-- ===== src/Tty/Console/Cooking.antt =====
-- kernel/tty_io.c: the body of the loop of copy_to_cooked, against the line discipline.
use linux.Prelude.{
  ℕ, ◌+◌, ◌^◌, ◌≤◌, ◌<◌, ◌≡◌, refl, sym, ap, ◌∙◌, arith, inl, inr, Bool, true, false, not, ◌&&◌,
  ◌||◌, length, length-ring, ◌==◌, if◌then◌else◌, Bool-cases, List, [], ◌∷◌, ◌++◌, add32,
}
use linux.Tty.Queue.{Queue, Tty, inc, is_empty, is_full, last, putch, dec, chars}
use linux.Tty.Queue.Contents.{IsQueue, contents, contents-putch, contents-drop_last, contents-empty}
use linux.Tty.Console.{
  l_canon, l_isig, is_char, erase_char, eof_char, stop_char, start_char, intr_char,
}
use linux.Tty.Console.Line.{ends_line, erased, typed, line_count, erased-snoc, line_count-snoc}

-- What happens to the cooked queue.
abbrev pub erased_queue : Tty → Queue → Queue
erased_queue t q =
    if is_empty q || last q == 10 || is_char (last q) (eof_char t)
    then q
    else record q { head = dec q.head }

abbrev pub taken_queue : Tty → (c : ℕ) → Queue → Queue
taken_queue t c q = putch c (if ends_line t c then record q { count = add32 q.count 1 } else q)

abbrev pub cooked_queue : Tty → (c : ℕ) → Queue → Queue
cooked_queue t c q =
    if l_canon t && is_char c (erase_char t)
    then erased_queue t q
    else (if l_canon t && is_char c (stop_char t)
        then q
        else (if l_canon t && is_char c (start_char t)
            then q
            else (if not (l_isig t) && is_char c (intr_char t) then q else taken_queue t c q)))

-- The queue is well formed, has these characters, and counts their lines.
pub record Holds (t : Tty) (s : List ℕ) (q : Queue) : Type 0 where
  pub queue_ok : IsQueue q
  pub text : contents q ≡ s
  pub counted : q.count ≡ line_count t s

if-Holds :
    (b : Bool) {t : Tty} {s s' : List ℕ} {q q' : Queue}
    → Holds t s q
    → Holds t s' q'
    → Holds t (if b then s else s') (if b then q else q')
if-Holds true h k = h
if-Holds false h k = k

dropped-IsQueue : (q : Queue) → IsQueue q → IsQueue (record q { head = dec q.head })
dropped-IsQueue q v = omega arith

-- With a nonempty queue the condition of `erased_queue` is `ends_line`.
stays : (a b c : Bool) → (b || c) ≡ true → (a || b || c) ≡ true
stays true b c e = refl
stays false b c e = e

goes : (b c : Bool) → (b || c) ≡ false → (false || b || c) ≡ false
goes b c e = e

Holds-text : (t : Tty) (s s' : List ℕ) (q : Queue) → s ≡ s' → Holds t s q → Holds t s' q
Holds-text t s s' q e h = record {
  queue_ok = h.queue_ok;
  text = h.text ∙ e;
  counted = h.counted ∙ ap (line_count t) e;
}

no_more : (n : ℕ) → n + 0 ≡ n
no_more n = omega arith

erased_queue-Holds :
    (t : Tty) (s : List ℕ) (q : Queue) → Holds t s q → Holds t (erased t s) (erased_queue t q)
erased_queue-Holds t s q h = elim (Bool-cases (is_empty q)) [
  | inl e ↦
      let nil : s ≡ [] = sym h.text ∙ contents-empty q h.queue_ok e in
      rw e (Holds-text t s (erased t s) q (nil ∙ sym (ap (erased t) nil)) h)
  | inr some_left ↦ elim (Bool-cases (ends_line t (last q))) [
    | inl ends ↦ rw (stays (is_empty q) (last q == 10) (is_char (last q) (eof_char t)) ends) (
        Holds-text t s (erased t s) q
          (sym (erased_text some_left ∙ rw ends (sym (whole some_left)))) h)
    | inr inside ↦
        rw (some_left, goes (last q == 10) (is_char (last q) (eof_char t)) inside)
          record {
            queue_ok = dropped-IsQueue q h.queue_ok;
            text = sym (inside_text some_left inside);
            counted = h.counted ∙ uncounted some_left inside;
          }
  ]
]
  where
    front : List ℕ
    front = contents (record q { head = dec q.head })

    whole : is_empty q ≡ false → s ≡ front ++ last q ∷ []
    whole some_left = sym h.text ∙ contents-drop_last q h.queue_ok some_left

    erased_text :
        is_empty q ≡ false
        → erased t s ≡ (if ends_line t (last q) then front ++ last q ∷ [] else front)
    erased_text some_left = ap (erased t) (whole some_left) ∙ erased-snoc t front (last q)

    inside_text : is_empty q ≡ false → ends_line t (last q) ≡ false → erased t s ≡ front
    inside_text some_left inside = erased_text some_left ∙ rw inside refl

    uncounted :
        is_empty q ≡ false
        → ends_line t (last q) ≡ false
        → line_count t s ≡ line_count t (erased t s)
    uncounted some_left inside =
        ap (line_count t) (whole some_left)
        ∙ line_count-snoc t front (last q)
        ∙ rw inside (no_more (line_count t front))
        ∙ sym (ap (line_count t) (inside_text some_left inside))

counted_line :
    (b : Bool) (n m : ℕ)
    → n ≡ m
    → n < 2 ^ 31
    → (if b then add32 n 1 else n) ≡ m + (if b then 1 else 0)
counted_line b n m e h = ground arith

line_count_le : (t : Tty) (s : List ℕ) → line_count t s ≤ length s
line_count_le t [] = omega arith
line_count_le t (c ∷ s) = ground (arith, line_count_le t s)

put_counted :
    (t : Tty) (s : List ℕ) (c n : ℕ) (q : Queue)
    → Holds t s q
    → is_full q ≡ false
    → n ≡ line_count t (s ++ c ∷ [])
    → Holds t (s ++ c ∷ []) (putch c (record q { count = n }))
put_counted t s c n q h room e = record {
  queue_ok = omega (arith, h.queue_ok);
  text = contents-putch c q h.queue_ok room ∙ ap (λ (xs : List ℕ). xs ++ c ∷ []) h.text;
  counted = e;
}

taken_queue-Holds :
    (t : Tty) (s : List ℕ) (c : ℕ) (q : Queue)
    → Holds t s q
    → is_full q ≡ false
    → Holds t (s ++ c ∷ []) (taken_queue t c q)
taken_queue-Holds t s c q h room = elim (Bool-cases (ends_line t c)) [
  | inl ends ↦ rw ends (put_counted t s c (add32 q.count 1) q h room (rw ends at counted))
  | inr inside ↦ rw inside (put_counted t s c q.count q h room (rw inside at counted))
]
  where
    few : line_count t s < 2 ^ 31
    few =
        omega
          (arith, line_count_le t s, ap length (sym h.text), length-ring inc q.buf q.tail (chars q))

    counted : (if ends_line t c then add32 q.count 1 else q.count) ≡ line_count t (s ++ c ∷ [])
    counted =
        counted_line (ends_line t c) q.count (line_count t s) h.counted
          (omega (arith, few, h.counted))
        ∙ sym (line_count-snoc t s c)

pub cooked_queue-Holds :
    (t : Tty) (s : List ℕ) (c : ℕ) (q : Queue)
    → Holds t s q
    → is_full q ≡ false
    → Holds t (typed t c s) (cooked_queue t c q)
cooked_queue-Holds t s c q h room =
    if-Holds (l_canon t && is_char c (erase_char t)) (erased_queue-Holds t s q h) (
      if-Holds (l_canon t && is_char c (stop_char t)) h (
        if-Holds (l_canon t && is_char c (start_char t)) h (
          if-Holds (not (l_isig t) && is_char c (intr_char t)) h
            (taken_queue-Holds t s c q h room))))
