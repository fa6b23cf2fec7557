-- ===== src/Tty/Console/Drain.antt =====
-- kernel/tty_io.c: copy_to_cooked as a whole, for an output function such as `rs_write`.
use linux.Prelude.{
  ℕ, zero, suc, ◌≤◌, ◌≡◌, refl, sym, ap, ◌∙◌, arith, ◌⊎◌, inl, inr, Bool, true, false, ◌||◌,
  Bool-cases, Option, none, some, List, [], ◌∷◌, ◌++◌,
}
use mathlib.Core.Path.{ap₂, subst}
use linux.Tty.Queue.{Queue, Tty, is_empty, is_full, getch, chars}
use linux.Tty.Queue.Contents.{IsQueue, contents, contents-getch, contents-empty}
use linux.Tty.Console.{Console, translate, cook_next, copy_to_cooked}
use linux.Tty.Console.Line.{translate-meant, typed_option, typed_all, IsPlain, Input, input}
use linux.Tty.Console.Effects.{cooked_option, cook_next-input}
use linux.Tty.Console.Cooking.{Holds, cooked_queue, cooked_queue-Holds}

-- The settings that the line discipline reads.
abbrev SameSettings : Tty → Input → Type 0
SameSettings t i = (i.lflag ≡ t.lflag) × (i.iflag ≡ t.iflag) × (i.cc ≡ t.cc)

translate-settings :
    (t : Tty) (k : Console) (c : ℕ) → SameSettings t (input k) → translate k.tty c ≡ translate t c
unfolding translate
translate-settings t k c (l, i, e) = ap (λ (w : ℕ). translate (record t { iflag = w }) c) i

cooked_queue-settings :
    (t : Tty) (k : Console) (c : ℕ) (q : Queue)
    → SameSettings t (input k)
    → cooked_queue k.tty c q ≡ cooked_queue t c q
cooked_queue-settings t k c q (l, i, e) =
    ap₂ (λ (w : ℕ) (f : ℕ → ℕ). cooked_queue (record t { lflag = w; cc = f }) c q) l e

is_or : (a b : Bool) → (a || b) ≡ true → a ≡ false → b ≡ true
is_or a b e f = ground arith

not_either : (a b : Bool) → (a || b) ≡ false → (a ≡ false) × (b ≡ false)
not_either a b e = ground arith

getch-IsQueue : (q : Queue) → IsQueue q → IsQueue (getch q).1
getch-IsQueue q v = omega arith

getch-chars :
    (q : Queue) (n : ℕ) → IsQueue q → is_empty q ≡ false → chars q ≤ suc n → chars (getch q).1 ≤ n
getch-chars q n v some_left enough = ground arith

-- The characters `cs` have been taken from the read queue `before`, and `rest` is left there, which
-- is nothing unless the cooked queue is full; `s` waited to be read, and what waits now is what the
-- line discipline makes of it.
pub record Drained (t : Tty) (s : List ℕ) (cs : List ℕ) (rest : List ℕ) (before : Queue)
    (after : Input) : Type 0 where
  pub split : contents before ≡ cs ++ rest
  pub left_over : contents after.read_q ≡ rest
  pub cooked : Holds t (typed_all t cs s) after.secondary
  pub finished : (rest ≡ []) ⊎ (is_full after.secondary ≡ true)

module _ (write : Console → Console) (p : IsPlain write) where
  next-input :
      (t : Tty) (k : Console)
      → SameSettings t (input k)
      → SameSettings t (input (cook_next write k))
  next-input t k (l, i, e) = (
    ap (λ (j : Input). j.lflag) (cook_next-input write p k) ∙ l,
    ap (λ (j : Input). j.iflag) (cook_next-input write p k) ∙ i,
    ap (λ (j : Input). j.cc) (cook_next-input write p k) ∙ e,
  )

  next-read_q : (k : Console) → (cook_next write k).tty.read_q ≡ (getch k.tty.read_q).1
  next-read_q k = ap (λ (j : Input). j.read_q) (cook_next-input write p k)

  next-Holds :
      (t : Tty) (k : Console) (s : List ℕ)
      → SameSettings t (input k)
      → Holds t s k.tty.secondary
      → is_full k.tty.secondary ≡ false
      → Holds t
          (typed_option t (translate t (getch k.tty.read_q).0) s)
          (cook_next write k).tty.secondary
  next-Holds t k s e h room =
      subst (λ (q : Queue). Holds t (typed_option t o s) q) (sym next_secondary) (option-Holds o)
    where
      o : Option ℕ
      o = translate t (getch k.tty.read_q).0

      option-Holds :
          (o : Option ℕ) → Holds t (typed_option t o s) (cooked_option t o k.tty.secondary)
      option-Holds none = h
      option-Holds (some c) = cooked_queue-Holds t s c k.tty.secondary h room

      option-settings :
          (o : Option ℕ) → cooked_option k.tty o k.tty.secondary ≡ cooked_option t o k.tty.secondary
      option-settings none = refl
      option-settings (some c) = cooked_queue-settings t k c k.tty.secondary e

      next_secondary : (cook_next write k).tty.secondary ≡ cooked_option t o k.tty.secondary
      next_secondary =
          ap (λ (j : Input). j.secondary) (cook_next-input write p k)
          ∙ option-settings (translate k.tty (getch k.tty.read_q).0)
          ∙ ap (λ (p : Option ℕ). cooked_option t p k.tty.secondary)
              (translate-settings t k (getch k.tty.read_q).0 e)

  copy_to_cooked-drains :
      (fuel : ℕ) (t : Tty) (k : Console) (s : List ℕ)
      → SameSettings t (input k)
      → IsQueue k.tty.read_q
      → Holds t s k.tty.secondary
      → chars k.tty.read_q ≤ fuel
      → (cs : List ℕ) × (rest : List ℕ) × Drained t s cs rest k.tty.read_q
          (input (copy_to_cooked fuel write k))
  unfolding copy_to_cooked
  copy_to_cooked-drains zero t k s e v h enough = (
    [],
    [],
    record {
      split = contents-empty k.tty.read_q v (ground arith);
      left_over = contents-empty k.tty.read_q v (ground arith);
      cooked = h;
      finished = inl refl;
    },
  )
  copy_to_cooked-drains (suc fuel) t k s e v h enough =
      elim (Bool-cases (is_empty k.tty.read_q || is_full k.tty.secondary)) [
        | inl done ↦ rw done (elim (Bool-cases (is_empty k.tty.read_q)) [
          | inl nothing ↦ (
            [],
            [],
            record {
              split = contents-empty k.tty.read_q v nothing;
              left_over = contents-empty k.tty.read_q v nothing;
              cooked = h;
              finished = inl refl;
            },
          )
          | inr some_left ↦ (
            [],
            contents k.tty.read_q,
            record {
              split = refl;
              left_over = refl;
              cooked = h;
              finished = inr (is_or _ _ done some_left);
            },
          )
        ])
        | inr more ↦ rw more (
            after_next more (
              copy_to_cooked-drains fuel t (cook_next write k) (next_text s) (next-input t k e)
                (subst IsQueue (sym (next-read_q k)) (getch-IsQueue k.tty.read_q v))
                (next-Holds t k s e h (not_either _ _ more).1)
                (subst (λ (q : Queue). chars q ≤ fuel) (sym (next-read_q k))
                  (getch-chars k.tty.read_q fuel v (not_either _ _ more).0 enough))))
      ]
    where
      next_text : List ℕ → List ℕ
      next_text = typed_option t (translate t (getch k.tty.read_q).0)

      after_next :
          (is_empty k.tty.read_q || is_full k.tty.secondary) ≡ false
          → {after : Input}
          → (cs : List ℕ) × (rest : List ℕ) × Drained t
              (next_text s)
              cs
              rest
              (cook_next write k).tty.read_q
              after
          → (cs : List ℕ) × (rest : List ℕ) × Drained t s cs rest k.tty.read_q after
      after_next more {after = after} (cs, rest, d) = (
        (getch k.tty.read_q).0 ∷ cs,
        rest,
        record {
          split =
              contents-getch k.tty.read_q v (not_either _ _ more).0
              ∙ ap (λ (q : Queue). (getch k.tty.read_q).0 ∷ contents q) (sym (next-read_q k))
              ∙ ap (◌∷◌ (getch k.tty.read_q).0) d.split;
          left_over = d.left_over;
          cooked =
              subst
                (λ (o : Option ℕ). Holds t (typed_all t cs (typed_option t o s)) after.secondary)
                (translate-meant t (getch k.tty.read_q).0) d.cooked;
          finished = d.finished;
        },
      )

-- The loop of `copy_to_cooked`, with the output function of a terminal that leaves the settings and
-- the input queues as they are, and at least as many rounds as characters wait in the read queue: it
-- takes a first part of them, all unless the cooked queue is full at the end, leaves the others in
-- order, and then the cooked queue holds what the line discipline makes of the characters it held
-- and of those taken, and its counter is the number of line ends in it.
pub copy_to_cooked_lem :
    (write : Console → Console)
    → IsPlain write
    → (fuel : ℕ) (k : Console) (s : List ℕ) → IsQueue k.tty.read_q
    → Holds k.tty s k.tty.secondary
    → chars k.tty.read_q ≤ fuel
    → (cs : List ℕ) × (rest : List ℕ) × Drained k.tty s cs rest k.tty.read_q
        (input (copy_to_cooked fuel write k))
copy_to_cooked_lem write p fuel k s v h enough =
    copy_to_cooked-drains write p fuel k.tty k s (refl, refl, refl) v h enough
