-- ===== src/Tty/Console/Output.antt =====
-- The output of the console, for an output function that keeps the invariant, and at any depth.
use linux.Prelude.{
  ℕ, zero, suc, ◌+◌, ◌%◌, Bool, true, false, not, ◌&&◌, ◌==◌, if◌then◌else◌, Option, none, some,
}
use linux.Tty.Queue.{chars, getch, last}
use linux.Tty.Escape.{con_char}
use linux.Tty.Console.{
  Console, l_canon, l_isig, l_echoctl, is_char, is_control, put_write, put_secondary, translate,
  erase_last, echo_erase, drop_last, echo_chars, echo, count_line, cook, cook_next, cook_translated,
  got_read, copy_to_cooked, put_all, response, respond, con_loop, con_write, console_write,
  erase_char, stop_char, start_char, intr_char,
}
use linux.Tty.Console.Frame.{
  IsConsole, Shows, IsOutput, Shows-trans, same, if-Shows, drop_last-Shows, put_write-after,
  put_write-Shows, put_secondary-Shows, tty_intr-Shows, count_line-Shows, set_stopped-Shows,
  got_read-Shows, put_all-Shows, draw_next, draw_next-Shows, set_cursor-IsScreen,
}

module _ (write : Console → Console) (write-IsOutput : IsOutput write) where
  write-Shows : (k l : Console) → Shows k l → Shows k (write l)
  write-Shows k l d = Shows-trans k l (write l) d (write-IsOutput l d.valid)

  erase_last-Shows : IsOutput (erase_last write)
  unfolding erase_last
  erase_last-Shows k v = if-Shows _ (same k v) (
      Shows-trans k (echo_erase write c k) (drop_last (echo_erase write c k)) echoed
        (drop_last-Shows (echo_erase write c k) echoed.valid))
    where
      c : ℕ
      c = last k.tty.secondary

      echoed : Shows k (echo_erase write c k)
      echoed =
          if-Shows _
            (write-Shows k (put_write 127 (if is_control c then put_write 127 k else k))
              (put_write-after 127 k _ (if-Shows _ (put_write-Shows 127 k v) (same k v))))
            (same k v)

  echo-Shows : (c : ℕ) → IsOutput (echo write c)
  unfolding echo
  echo-Shows c k v =
      if-Shows _
        (write-Shows k (echo_chars c k) (
          if-Shows (c == 10) (put_write-after 13 k (put_write 10 k) (put_write-Shows 10 k v)) (
            if-Shows (is_control c)
              (if-Shows (l_echoctl k.tty)
                (put_write-after ((c + 64) % 256) k (put_write b'^' k) (put_write-Shows b'^' k v))
                (same k v))
              (put_write-Shows c k v))))
        (same k v)

  cook-Shows : (c : ℕ) → IsOutput (cook write c)
  unfolding cook
  cook-Shows c k v = if-Shows _ (erase_last-Shows k v) (
      if-Shows (l_canon k.tty && is_char c (stop_char k.tty)) (set_stopped-Shows true k v) (
        if-Shows (l_canon k.tty && is_char c (start_char k.tty)) (set_stopped-Shows false k v) (
          if-Shows (not (l_isig k.tty) && is_char c (intr_char k.tty)) (tty_intr-Shows 2 k v)
            taken)))
    where
      counted : Shows k (count_line c k)
      counted = count_line-Shows c k v

      echoed : Shows k (echo write c (count_line c k))
      echoed = Shows-trans k _ _ counted (echo-Shows c (count_line c k) counted.valid)

      taken : Shows k (put_secondary c (echo write c (count_line c k)))
      taken =
          Shows-trans k _ _ echoed
            (put_secondary-Shows c (echo write c (count_line c k)) echoed.valid)

  cook_next-Shows : IsOutput (cook_next write)
  unfolding cook_next
  cook_next-Shows k v =
      Shows-trans k (got_read k) _ (got_read-Shows k v) (
        translated (translate k.tty (getch k.tty.read_q).0) (got_read k) (got_read-Shows k v).valid)
    where
      translated : (o : Option ℕ) → IsOutput (cook_translated write o)
      translated none l w = same l w
      translated (some c) l w = cook-Shows c l w

  copy_to_cooked-Shows : (fuel : ℕ) → IsOutput (copy_to_cooked fuel write)
  unfolding copy_to_cooked
  copy_to_cooked-Shows zero k v = same k v
  copy_to_cooked-Shows (suc fuel) k v =
      let d : Shows k (cook_next write k) = cook_next-Shows k v in
      if-Shows _ (same k v) (
        Shows-trans k (cook_next write k) _ d
          (copy_to_cooked-Shows fuel (cook_next write k) d.valid))

  respond-Shows : IsOutput (respond write)
  unfolding respond
  respond-Shows k v =
      let d : Shows k (put_all response k) = put_all-Shows response k v in
      Shows-trans k (put_all response k) _ d
        (copy_to_cooked-Shows 1024 (put_all response k) d.valid)

  con_loop-Shows : (nr : ℕ) → IsOutput (con_loop nr write)
  unfolding con_loop
  con_loop-Shows zero k v = same k v
  con_loop-Shows (suc nr) k v = Shows-trans k next _ stepped (con_loop-Shows nr next stepped.valid)
    where
      asks : Bool
      asks = (con_char (erase_char k.tty) (getch k.tty.write_q).0 k.screen).1

      drawn : Shows k (draw_next k)
      drawn = draw_next-Shows k v

      next : Console
      next = if asks then respond write (draw_next k) else draw_next k

      stepped : Shows k next
      stepped =
          if-Shows asks
            (Shows-trans k (draw_next k) (respond write (draw_next k)) drawn
              (respond-Shows (draw_next k) drawn.valid))
            drawn

  con_write-Shows : IsOutput (con_write write)
  unfolding con_write
  con_write-Shows k v =
      let d : Shows k (con_loop (chars k.tty.write_q) write k) =
        con_loop-Shows (chars k.tty.write_q) k v in
      record {
        valid = record {
          screen_ok = set_cursor-IsScreen _ d.valid.screen_ok;
          read_ok = d.valid.read_ok;
          write_ok = d.valid.write_ok;
          secondary_ok = d.valid.secondary_ok;
        };
        keeps = d.keeps;
      }

-- When the screen and the queues are well formed, they are after the output of the console too,
-- whatever is in the queues and however deep it calls itself to answer; and no memory but that of
-- the screen has been written.
pub console_write-Shows : (depth : ℕ) (k : Console) → IsConsole k → Shows k (console_write depth k)
unfolding console_write
console_write-Shows zero k v = same k v
console_write-Shows (suc depth) k v =
    con_write-Shows (console_write depth) (console_write-Shows depth) k v
