-- ===== src/Tty/Console/Effects.antt =====
-- What the steps of `copy_to_cooked` do to the settings and the two input queues.
use linux.Prelude.{
  ℕ, ◌≡◌, refl, ap, ◌∙◌, Bool, true, false, not, ◌&&◌, ◌||◌, ◌==◌, if◌then◌else◌, Option, none,
  some, add32,
}
use linux.Tty.Queue.{Queue, Tty, is_empty, last, putch, getch, dec}
use linux.Tty.Console.{
  Console, l_canon, l_isig, l_echo, l_echoctl, is_char, is_control, put_write, put_secondary,
  tty_intr, translate, erase_last, echo_erase, drop_last, echo_chars, echo, count_line, cook,
  cook_next, cook_translated, got_read, erase_char, eof_char, stop_char, start_char, intr_char,
  on_tty,
}
use linux.Tty.Console.Line.{ends_line, IsPlain, Input, input, write-input}
use linux.Tty.Console.Cooking.{erased_queue, taken_queue, cooked_queue}

abbrev pub cooked_option : Tty → Option ℕ → Queue → Queue
cooked_option t none q = q
cooked_option t (some c) q = cooked_queue t c q

if-input :
    (b : Bool) (i : Input) (l m : Console) (q r : Queue)
    → input l ≡ record i { secondary = q }
    → input m ≡ record i { secondary = r }
    → input (if b then l else m) ≡ record i { secondary = if b then q else r }
if-input true i l m q r e f = e
if-input false i l m q r e f = f

if-same :
    (b : Bool) {i : Input} (l m : Console)
    → input l ≡ i
    → input m ≡ i
    → input (if b then l else m) ≡ i
if-same true l m e f = e
if-same false l m e f = f

echo_chars-input : (c : ℕ) (k : Console) → input (echo_chars c k) ≡ input k
echo_chars-input c k =
    if-same (c == 10) _ _ refl
      (if-same (is_control c) _ _ (if-same (l_echoctl k.tty) _ _ refl refl) refl)

tty_intr-input : (signal : ℕ) (k : Console) → input (tty_intr signal k) ≡ input k
unfolding tty_intr
tty_intr-input signal k = if-same _ _ _ refl refl

module _ (write : Console → Console) (p : IsPlain write) where
  echo-input : (c : ℕ) (k : Console) → input (echo write c k) ≡ input k
  unfolding echo
  echo-input c k =
      if-same (l_echo k.tty) (write (echo_chars c k)) k
        (write-input write p (echo_chars c k) ∙ echo_chars-input c k) refl

  echo_erase-input : (c : ℕ) (k : Console) → input (echo_erase write c k) ≡ input k
  echo_erase-input c k =
      if-same (l_echo k.tty) _ k
        (write-input write p (put_write 127 (if is_control c then put_write 127 k else k))
          ∙ if-same (is_control c) (put_write 127 k) k refl refl)
        refl

  cook-input :
      (c : ℕ) (k : Console)
      → input (cook write c k)
        ≡ record (input k) { secondary = cooked_queue k.tty c k.tty.secondary }
  unfolding cook erase_last
  cook-input c k =
      if-input (l_canon t && is_char c (erase_char t)) i _ _ (erased_queue t q) _ erased_last (
        if-input (l_canon t && is_char c (stop_char t)) i _ _ q _ refl (
          if-input (l_canon t && is_char c (start_char t)) i _ _ q _ refl (
            if-input (not (l_isig t) && is_char c (intr_char t)) i _ _ q (taken_queue t c q)
              (tty_intr-input 2 k) taken)))
    where
      t : Tty
      t = k.tty

      q : Queue
      q = k.tty.secondary

      i : Input
      i = input k

      erased_last : input (erase_last write k) ≡ record i { secondary = erased_queue t q }
      erased_last =
          if-input (is_empty q || last q == 10 || is_char (last q) (eof_char t)) i k
            (drop_last (echo_erase write (last q) k)) q (record q { head = dec q.head }) refl
            (ap
              (λ (j : Input). record j {
                secondary = record j.secondary { head = dec j.secondary.head };
              })
              (echo_erase-input (last q) k))

      counted :
          (b : Bool)
          → (let j = input (
                if b
                then on_tty
                    (λ u. record u {
                      secondary = record u.secondary { count = add32 u.secondary.count 1 };
                    })
                    k
                else k) in
              record j { secondary = putch c j.secondary })
            ≡ record i {
              secondary = putch c (if b then record q { count = add32 q.count 1 } else q);
            }
      counted true = refl
      counted false = refl

      taken :
          input (put_secondary c (echo write c (count_line c k)))
          ≡ record i { secondary = taken_queue t c q }
      taken =
          ap (λ (j : Input). record j { secondary = putch c j.secondary })
            (echo-input c (count_line c k))
          ∙ counted (ends_line t c)

  translated-input :
      (o : Option ℕ) (k : Console)
      → input (cook_translated write o k)
        ≡ record (input k) { secondary = cooked_option k.tty o k.tty.secondary }
  translated-input none k = refl
  translated-input (some c) k = cook-input c k

  pub cook_next-input :
      (k : Console)
      → input (cook_next write k) ≡ record (input k) {
        read_q = (getch k.tty.read_q).1;
        secondary = cooked_option k.tty (translate k.tty (getch k.tty.read_q).0) k.tty.secondary;
      }
  unfolding cook_next
  cook_next-input k = translated-input (translate k.tty (getch k.tty.read_q).0) (got_read k)
