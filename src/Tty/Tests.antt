-- ===== src/Tty/Tests.antt =====
-- Runs of the screen and of the line discipline.
use linux.Prelude.{
  ℕ, ◌+◌, ◌<◌, ◌≤◌, ◌≡◌, ◌⊎◌, refl, arith, false, ◌&&◌, ◌||◌, ◌==◌, ltb, leb, if◌then◌else◌,
  test_bit, List, [], ◌∷◌, none,
}
use linux.Tty.Queue.{Queue, Tty}
use linux.Tty.Queue.Contents.{contents}
use linux.Tty.Screen.{Screen, blank, lf, ri, scrup, csi_k}
use linux.Tty.Screen.Frame.{IsScreen}
use linux.Tty.Screen.Grid.{cell, rows_up, rows_down, lf-ri_lem}
use linux.Tty.Screen.Erase.{cell-csi_k}
use linux.Tty.Escape.{con_char, plain, print_char}
use linux.Tty.Console.{
  Console, cook, cook_next, translate, copy_to_cooked, erase_last, echo, console_write,
}
use linux.Tty.Output.{fill_queue}
use linux.Tty.Output.Posted.{IsFilled, fill_queue-IsFilled}
use linux.Tty.Console.Frame.{Shows}
use linux.Tty.Console.Line.{IsPlain, input}
use linux.Tty.Console.Drain.{Drained, copy_to_cooked_lem}
use linux.Tty.Console.Output.{console_write-Shows}

-- The screen after `con_init`, the cursor at the beginning of line 23, with numbers for the cells.
abbrev screen : Screen
screen = record {
  origin = 0xb8000;
  scr_end = 0xb8fa0;
  pos = 0xb8000 + 3680;
  x = 0;
  y = 23;
  top = 0;
  bottom = 25;
  state = 0;
  npar = 0;
  par = λ k. 0;
  ques = false;
  attr = 7;
  saved_x = 0;
  saved_y = 0;
  video = λ i. i;
  crtc = λ r. 0;
}

screen-IsScreen : IsScreen screen
screen-IsScreen = record {
  origin_from = omega arith;
  origin_even = omega arith;
  end_at = omega arith;
  end_in = omega arith;
  pos_at = omega arith;
  x_in = omega arith;
  y_in = omega arith;
  region_in = omega arith;
  bottom_in = omega arith;
  saved_x_in = omega arith;
  saved_y_in = omega arith;
  state_in = omega arith;
  npar_in = omega arith;
  attr_in = omega arith;
  origin_shown = omega arith;
}

abbrev low_screen : Screen
low_screen = record screen { y = 24; pos = 0xb8000 + 3840 }

low_screen-IsScreen : IsScreen low_screen
low_screen-IsScreen = record {
  origin_from = omega arith;
  origin_even = omega arith;
  end_at = omega arith;
  end_in = omega arith;
  pos_at = omega arith;
  x_in = omega arith;
  y_in = omega arith;
  region_in = omega arith;
  bottom_in = omega arith;
  saved_x_in = omega arith;
  saved_y_in = omega arith;
  state_in = omega arith;
  npar_in = omega arith;
  attr_in = omega arith;
  origin_shown = omega arith;
}

-- 'A' in the usual colours.
prints_a : cell (con_char 127 b'A' screen).0 23 0 ≡ 0x0741
unfolding con_char plain print_char
prints_a = refl

-- On the last line the lines go up.
scrolls : cell (con_char 127 10 low_screen).0 0 3 ≡ cell screen 1 3
unfolding con_char plain lf scrup
scrolls = refl

lf-ri_lem_example :
    (((24 + 1 < 25) × ((lf low_screen).y ≡ 25) × (cell (lf low_screen) 3 5 ≡ cell low_screen 3 5))
      ⊎ ((25 ≤ 24 + 1)
          × ((lf low_screen).y ≡ 24)
          × (cell (lf low_screen) 3 5 ≡ rows_up 0 25 (cell low_screen) 3 5)))
    × (((0 < 24) × ((ri low_screen).y ≡ 23) × (cell (ri low_screen) 3 5 ≡ cell low_screen 3 5))
        ⊎ ((24 ≤ 0)
            × ((ri low_screen).y ≡ 24)
            × (cell (ri low_screen) 3 5 ≡ rows_down 0 25 (cell low_screen) 3 5)))
lf-ri_lem_example = lf-ri_lem low_screen 3 5 low_screen-IsScreen (omega arith) (omega arith)

cell-csi_k_example : cell (csi_k 0 screen) 23 4 ≡ (
    if 23 == 23 && ((0 == 0 && leb 0 4) || (0 == 1 && ltb 4 0) || 0 == 2)
    then blank
    else cell screen 23 4)
cell-csi_k_example = cell-csi_k 0 screen 23 4 screen-IsScreen (omega arith) (omega arith)

-- The keys a, b, backspace, newline; echo, in canonical mode.
abbrev typed_keys : Queue
typed_keys = record {
  count = 0;
  head = 2;
  tail = 1022;
  buf = λ i. if i == 1022 then b'a' else (if i == 1023 then b'b' else (if i == 0 then 127 else 10));
}

abbrev no_keys : Queue
no_keys = record { count = 0; head = 0; tail = 0; buf = λ i. 0 }

abbrev line : Tty
line = record {
  iflag = 0;
  oflag = 0;
  lflag = 10;
  cc = λ k. if k == 2 then 127 else 0;
  pgrp = 0;
  stopped = false;
  read_q = typed_keys;
  write_q = no_keys;
  secondary = no_keys;
}

abbrev console : Console
console = record { screen = screen; tty = line; tasks = λ i. none }

-- An output function that sends everything.
abbrev send : Console → Console
send k = record k { tty = record k.tty { write_q = no_keys } }

send-IsPlain : IsPlain send
send-IsPlain = record {
  lflag_kept = λ k. refl;
  iflag_kept = λ k. refl;
  cc_kept = λ k. refl;
  read_kept = λ k. refl;
  secondary_kept = λ k. refl;
}

cooks_a_line : contents (copy_to_cooked 4 send console).tty.secondary ≡ b'a' ∷ 10 ∷ []
unfolding copy_to_cooked cook_next translate cook erase_last echo test_bit
cooks_a_line = refl

copy_to_cooked_lem_example :
    (cs : List ℕ) × (rest : List ℕ) × Drained line [] cs rest typed_keys
      (input (copy_to_cooked 4 send console))
copy_to_cooked_lem_example =
    copy_to_cooked_lem send send-IsPlain 4 console [] (omega arith)
      (record { queue_ok = omega arith; text = refl; counted = refl }) (omega arith)

-- `respond` puts seven characters into the read queue, and they are echoed.
abbrev asked : Console
asked = record console {
  tty = record line {
    write_q = record { count = 0; head = 2; tail = 0; buf = λ i. if i == 0 then 27 else b'Z' };
  };
}

console_write-Shows_example : Shows asked (console_write 3 asked)
console_write-Shows_example = console_write-Shows 3 asked (record {
  screen_ok = screen-IsScreen;
  read_ok = omega arith;
  write_ok = omega arith;
  secondary_ok = omega arith;
})

-- With ONLCR a newline becomes two characters.
abbrev cooked_line : Tty
cooked_line = record line { oflag = 5 }

shows_newline :
    contents (fill_queue 5 cooked_line false (b'a' ∷ 10 ∷ []) no_keys).2 ≡ b'a' ∷ 13 ∷ 10 ∷ []
unfolding fill_queue test_bit
shows_newline = refl

fill_queue-IsFilled_example :
    IsFilled cooked_line false
      (b'a' ∷ 10 ∷ [])
      no_keys
      (fill_queue 4 cooked_line false (b'a' ∷ 10 ∷ []) no_keys)
fill_queue-IsFilled_example =
    fill_queue-IsFilled cooked_line 4 false (b'a' ∷ 10 ∷ []) no_keys (omega arith) (omega arith)
