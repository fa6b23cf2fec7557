-- ===== src/Tty/Console/Frame.antt =====
-- kernel/console.c: the body of the loop of con_write, on a console.
use linux.Prelude.{
  ℕ, ◌/◌, ◌<◌, ◌≤◌, ◌≡◌, refl, sym, ap, ◌∙◌, arith, ◌⊎◌, Bool, true, false, if◌then◌else◌, List, [],
  ◌∷◌,
}
use mathlib.Core.Path.{subst}
use linux.Tty.Queue.{getch}
use linux.Tty.Queue.Contents.{IsQueue}
use linux.Tty.Screen.{Screen, screen_start, screen_end, set_cursor}
use linux.Tty.Screen.Frame.{IsScreen, Draws}
use linux.Tty.Escape.{con_char}
use linux.Tty.Escape.Frame.{con_char-Draws}
use linux.Tty.Console.{
  Console, put_read, put_write, put_secondary, tty_intr, drop_last, count_line, set_stopped,
  got_read, put_all, on_tty, erase_char,
}

pub record IsConsole (k : Console) : Type 0 where
  pub screen_ok : IsScreen k.screen
  pub read_ok : IsQueue k.tty.read_q
  pub write_ok : IsQueue k.tty.write_q
  pub secondary_ok : IsQueue k.tty.secondary

-- The invariant holds after, and no memory but that of the screen is written.
pub record Shows (k : Console) (k' : Console) : Type 0 where
  pub valid : IsConsole k'
  pub keeps :
      (i : ℕ) → (i < screen_start / 2) ⊎ (screen_end / 2 ≤ i) → k'.screen.video i ≡ k.screen.video i

abbrev pub IsOutput : (Console → Console) → Type 0
IsOutput f = (k : Console) → IsConsole k → Shows k (f k)

pub Shows-trans : (k l m : Console) → Shows k l → Shows l m → Shows k m
Shows-trans k l m a b = record { valid = b.valid; keeps = λ i h. b.keeps i h ∙ a.keeps i h }

same-Shows : (k l : Console) → IsConsole l → l.screen ≡ k.screen → Shows k l
same-Shows k l v e = record { valid = v; keeps = λ i h. ap (λ (s : Screen). s.video i) e }

pub if-Shows : (b : Bool) {k l m : Console} → Shows k l → Shows k m → Shows k (if b then l else m)
if-Shows true d e = d
if-Shows false d e = e

put_read-Shows : (c : ℕ) → IsOutput (put_read c)
put_read-Shows c k v =
    same-Shows k (put_read c k)
      record {
        screen_ok = v.screen_ok;
        read_ok = omega (arith, v.read_ok);
        write_ok = v.write_ok;
        secondary_ok = v.secondary_ok;
      }
      refl

pub put_write-Shows : (c : ℕ) → IsOutput (put_write c)
put_write-Shows c k v =
    same-Shows k (put_write c k)
      record {
        screen_ok = v.screen_ok;
        read_ok = v.read_ok;
        write_ok = omega (arith, v.write_ok);
        secondary_ok = v.secondary_ok;
      }
      refl

pub put_secondary-Shows : (c : ℕ) → IsOutput (put_secondary c)
put_secondary-Shows c k v =
    same-Shows k (put_secondary c k)
      record {
        screen_ok = v.screen_ok;
        read_ok = v.read_ok;
        write_ok = v.write_ok;
        secondary_ok = omega (arith, v.secondary_ok);
      }
      refl

-- The queues stay; other fields of the terminal, or the tasks, change.
abbrev SameQueues : Console → Console → Type 0
SameQueues k l =
    (l.screen ≡ k.screen)
    × (l.tty.read_q ≡ k.tty.read_q)
    × (l.tty.write_q ≡ k.tty.write_q)
    × (l.tty.secondary.head ≡ k.tty.secondary.head)
    × (l.tty.secondary.tail ≡ k.tty.secondary.tail)

aside-Shows : (k l : Console) → SameQueues k l → IsConsole k → Shows k l
aside-Shows k l (s, r, w, h, t) v =
    same-Shows k l
      record {
        screen_ok = subst IsScreen (sym s) v.screen_ok;
        read_ok = subst IsQueue (sym r) v.read_ok;
        write_ok = subst IsQueue (sym w) v.write_ok;
        secondary_ok = omega (arith, v.secondary_ok);
      }
      s

pub tty_intr-Shows : (signal : ℕ) → IsOutput (tty_intr signal)
unfolding tty_intr
tty_intr-Shows signal k v =
    if-Shows _ (aside-Shows k _ (refl, refl, refl, refl, refl) v)
      (aside-Shows k k (refl, refl, refl, refl, refl) v)

pub set_stopped-Shows : (b : Bool) → IsOutput (set_stopped b)
set_stopped-Shows b k v = aside-Shows k (set_stopped b k) (refl, refl, refl, refl, refl) v

pub count_line-Shows : (c : ℕ) → IsOutput (count_line c)
count_line-Shows c k v =
    if-Shows _ (aside-Shows k _ (refl, refl, refl, refl, refl) v)
      (aside-Shows k k (refl, refl, refl, refl, refl) v)

pub same : (k : Console) → IsConsole k → Shows k k
same k v = same-Shows k k v refl

pub drop_last-Shows : IsOutput drop_last
drop_last-Shows k v =
    same-Shows k (drop_last k)
      record {
        screen_ok = v.screen_ok;
        read_ok = v.read_ok;
        write_ok = v.write_ok;
        secondary_ok = omega (arith, v.secondary_ok);
      }
      refl

pub put_write-after : (c : ℕ) (k l : Console) → Shows k l → Shows k (put_write c l)
put_write-after c k l d = Shows-trans k l (put_write c l) d (put_write-Shows c l d.valid)

pub got_read-Shows : IsOutput got_read
got_read-Shows k v =
    same-Shows k (got_read k)
      record {
        screen_ok = v.screen_ok;
        read_ok = omega (arith, v.read_ok);
        write_ok = v.write_ok;
        secondary_ok = v.secondary_ok;
      }
      refl

pub put_all-Shows : (s : List ℕ) → IsOutput (put_all s)
unfolding put_all
put_all-Shows [] k v = same k v
put_all-Shows (c ∷ s) k v =
    Shows-trans k (put_read c k) (put_all s (put_read c k)) (put_read-Shows c k v)
      (put_all-Shows s (put_read c k) (put_read-Shows c k v).valid)

-- A character taken from the write queue and shown.
abbrev pub draw_next : Console → Console
draw_next k = record (on_tty (λ t. record t { write_q = (getch k.tty.write_q).1 }) k) {
  screen = (con_char (erase_char k.tty) (getch k.tty.write_q).0 k.screen).0;
}

pub draw_next-Shows : IsOutput draw_next
draw_next-Shows k v =
    let d : Draws k.screen (draw_next k).screen =
      con_char-Draws (erase_char k.tty) (getch k.tty.write_q).0 k.screen v.screen_ok in
    record {
      valid = record {
        screen_ok = d.valid;
        read_ok = v.read_ok;
        write_ok = omega (arith, v.write_ok);
        secondary_ok = v.secondary_ok;
      };
      keeps = d.keeps;
    }

pub set_cursor-IsScreen : (s : Screen) → IsScreen s → IsScreen (set_cursor s)
set_cursor-IsScreen s v = ground arith
