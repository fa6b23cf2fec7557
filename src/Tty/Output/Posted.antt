-- ===== src/Tty/Output/Posted.antt =====
-- kernel/tty_io.c: the inner loop of tty_write.
use linux.Prelude.{
  test_bit, leb, not, ◌&&◌, ◌==◌, ◌-◌, ℕ, zero, suc, ◌+◌, ◌*◌, ◌≤◌, ◌≡◌, ◌≢◌, refl, sym, ap, ◌∙◌,
  arith, ◌⊎◌, inl, inr, Bool, true, false, if◌then◌else◌, Bool-cases, List, [], ◌∷◌, ◌++◌, length,
}
use linux.Tty.Queue.{Queue, Tty, is_full, putch}
use linux.Tty.Queue.Contents.{IsQueue, contents, contents-putch}
use linux.Tty.Output.{wants_cr, written, fill_queue}

-- What is shown for a character, by the flags of the terminal. Without OPOST (bit 0 of `oflag`) it
-- is the character itself; with it a carriage return becomes a newline under OCRNL (3), else a
-- newline a carriage return under ONLRET (5), and a small letter a capital one under OLCUC (1).
abbrev pub line_end : Tty → ℕ → ℕ
line_end t c =
    if c == 13
    then (if test_bit 3 t.oflag then 10 else 13)
    else if c == 10
    then (if test_bit 5 t.oflag then 13 else 10)
    else c

abbrev pub shown : Tty → ℕ → ℕ
shown t c =
    if not (test_bit 0 t.oflag)
    then c
    else if test_bit 1 t.oflag && (leb 97 (line_end t c) && leb (line_end t c) 122)
    then line_end t c - 32
    else line_end t c

-- A newline that is shown has a carriage return before it under ONLCR (2), unless one has just been
-- put.
abbrev pub has_cr : Tty → Bool → ℕ → Bool
has_cr t cr_flag c = test_bit 0 t.oflag && test_bit 2 t.oflag && not cr_flag && line_end t c == 10

written-shown : (t : Tty) (c : ℕ) → written t c ≡ shown t c
written-shown t c = ground arith

wants_cr-has_cr : (t : Tty) (cr_flag : Bool) (c : ℕ) → wants_cr t cr_flag c ≡ has_cr t cr_flag c
wants_cr-has_cr t cr_flag c = ground arith

-- What is to be shown for these characters.
abbrev pub posted : Tty → (cr_flag : Bool) → List ℕ → List ℕ
posted t cr_flag [] = []
posted t cr_flag (c ∷ s) =
    if has_cr t cr_flag c then 13 ∷ shown t c ∷ posted t false s else shown t c ∷ posted t false s

-- What is in the queue, and what is to come, are together as before; the loop has stopped because
-- nothing is left or the queue is full.
pub record IsFilled (t : Tty) (cr_flag : Bool) (s : List ℕ) (q : Queue) (r : List ℕ × Bool × Queue)
    : Type 0 where
  pub queue_ok : IsQueue r.2
  pub in_order : contents r.2 ++ posted t r.1 r.0 ≡ contents q ++ posted t cr_flag s
  pub stopped : (r.0 ≡ []) ⊎ (is_full r.2 ≡ true)

append_snoc : (xs : List ℕ) (c : ℕ) (ys : List ℕ) → (xs ++ c ∷ []) ++ ys ≡ xs ++ c ∷ ys
append_snoc [] c ys = refl
append_snoc (x ∷ xs) c ys = ap (◌∷◌ x) (append_snoc xs c ys)

putch-IsQueue : (c : ℕ) (q : Queue) → IsQueue q → IsQueue (putch c q)
putch-IsQueue c q v = omega arith

no_second_cr : (t : Tty) (c : ℕ) → wants_cr t true c ≡ false
no_second_cr t c = ground arith

too_few : (n : ℕ) (x : Bool) → 2 * suc n ≤ 0 + (if x then 1 else 0) → zero ≢ zero
too_few n true h = omega arith
too_few n false h = omega arith

enough_with_cr :
    (t : Tty) (c rounds n : ℕ) (cr_flag : Bool)
    → wants_cr t cr_flag c ≡ true
    → 2 * suc n ≤ suc rounds + (if cr_flag then 1 else 0)
    → 2 * suc n ≤ rounds + 1
enough_with_cr t c rounds n true e h = absurd (true_is_false (sym e ∙ no_second_cr t c))
  where
    true_is_false : true ≢ false
    true_is_false e = cc
enough_with_cr t c rounds n false e h = omega arith

enough_without :
    (rounds n : ℕ) (cr_flag : Bool)
    → 2 * suc n ≤ suc rounds + (if cr_flag then 1 else 0)
    → 2 * n ≤ rounds + 0
enough_without rounds n true h = omega arith
enough_without rounds n false h = omega arith

module _ (t : Tty) where
  -- One character put, the rest of the loop does the rest.
  put_first :
      (c : ℕ) (cr_flag next_flag : Bool) (s next : List ℕ) (q : Queue) (r : List ℕ × Bool × Queue)
      → IsQueue q
      → is_full q ≡ false
      → posted t cr_flag s ≡ c ∷ posted t next_flag next
      → IsFilled t next_flag next (putch c q) r
      → IsFilled t cr_flag s q r
  put_first c cr_flag next_flag s next q r v room e d = record {
    queue_ok = d.queue_ok;
    in_order =
        d.in_order
        ∙ ap (λ (xs : List ℕ). xs ++ posted t next_flag next) (contents-putch c q v room)
        ∙ append_snoc (contents q) c (posted t next_flag next)
        ∙ ap (λ (ys : List ℕ). contents q ++ ys) (sym e);
    stopped = d.stopped;
  }

  -- The loop that fills the write queue, with two rounds for each character at least: the queue's
  -- characters and those to be shown for what is left are, in order, those in the queue before and
  -- those to be shown for all; and nothing is left unless the queue is full.
  pub fill_queue-IsFilled :
      (rounds : ℕ) (cr_flag : Bool) (s : List ℕ) (q : Queue)
      → IsQueue q
      → 2 * length s ≤ rounds + (if cr_flag then 1 else 0)
      → IsFilled t cr_flag s q (fill_queue rounds t cr_flag s q)
  unfolding fill_queue
  fill_queue-IsFilled zero cr_flag [] q v enough = record {
    queue_ok = v;
    in_order = refl;
    stopped = inl refl;
  }
  fill_queue-IsFilled zero cr_flag (c ∷ s) q v enough =
      absurd (too_few (length s) cr_flag enough refl)
  fill_queue-IsFilled (suc rounds) cr_flag [] q v enough = record {
    queue_ok = v;
    in_order = refl;
    stopped = inl refl;
  }
  fill_queue-IsFilled (suc rounds) cr_flag (c ∷ s) q v enough = elim (Bool-cases (is_full q)) [
    | inl full ↦ rw (full, fill_queue) record { queue_ok = v; in_order = refl; stopped = inr full }
    | inr room ↦ elim (Bool-cases (wants_cr t cr_flag c)) [
      | inl cr ↦
          rw (room, cr, fill_queue)
            (put_first 13 cr_flag true (c ∷ s) (c ∷ s) q _ v room
              (rw
                (
                  sym (wants_cr-has_cr t cr_flag c) ∙ cr,
                  sym (wants_cr-has_cr t true c) ∙ no_second_cr t c,
                )
                refl)
              (fill_queue-IsFilled rounds true (c ∷ s) (putch 13 q) (putch-IsQueue 13 q v)
                (enough_with_cr t c rounds (length s) cr_flag cr enough)))
      | inr no_cr ↦
          rw (room, no_cr, fill_queue)
            (put_first (written t c) cr_flag false (c ∷ s) s q _ v room
              (rw (sym (wants_cr-has_cr t cr_flag c) ∙ no_cr)
                (ap (λ (d : ℕ). d ∷ posted t false s) (sym (written-shown t c))))
              (fill_queue-IsFilled rounds false s (putch (written t c) q)
                (putch-IsQueue (written t c) q v)
                (enough_without rounds (length s) cr_flag enough)))
    ]
  ]
