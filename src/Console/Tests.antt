-- ===== src/Console/Tests.antt =====
-- A colour screen of 80 by 25, and the theorem there.
use linux.Prelude.{ℕ, ◌+◌, ◌*◌, ◌≡◌, refl, List, [], ◌∷◌, false, arith}
use linux.Console.{Console, gotoxy}
use linux.Console.Init.{Setup, display, con_init}
use linux.Console.Control.{
  print_char, plain, escape, write_char, begin_parameters, parameter, final, move, con_write,
}
use linux.Console.Valid.{IsDisplay, IsValid, Keeps}
use linux.Console.Write.{con_write-Keeps}

abbrev ega : Setup
ega = record { cols = 80; lines = 25; mode = 3; ega_bx = 3; x = 0; y = 2 }

abbrev screen : Console
screen = record {
  origin = 0xb8000;
  scr_end = 0xb8000 + 4000;
  pos = 0xb8000 + 320;
  x = 0;
  y = 2;
  top = 0;
  bottom = 25;
  state = 0;
  npar = 0;
  par = 0 ∷ 0 ∷ 0 ∷ 0 ∷ 0 ∷ 0 ∷ 0 ∷ 0 ∷ 0 ∷ 0 ∷ 0 ∷ 0 ∷ 0 ∷ 0 ∷ 0 ∷ 0 ∷ [];
  ques = false;
  attr = 7;
  saved_x = 0;
  saved_y = 0;
  answer = [];
  cell = λ a. 0x0720;
}

set_up : (con_init ega (λ a. 0x0720)).pos ≡ 0xb8000 + 320
unfolding con_init display gotoxy
set_up = refl

-- ESC [ 5 ; 1 0 H x
text : List ℕ
text = 0o33 ∷ b'[' ∷ b'5' ∷ b';' ∷ b'1' ∷ b'0' ∷ b'H' ∷ b'x' ∷ []

moved : (con_write (display ega) 127 text screen).x ≡ 10
unfolding con_write write_char plain escape begin_parameters parameter final move gotoxy print_char
    display text
moved = refl

printed : (con_write (display ega) 127 text screen).cell (0xb8000 + 4 * 160 + 9 * 2) ≡ 0x0700 + b'x'
unfolding con_write write_char plain escape begin_parameters parameter final move gotoxy print_char
    display text
printed = refl

-- ESC 7 saves nothing in column 3.
not_saved :
    (con_write
      (display ega)
      127
      (0o33 ∷ b'7' ∷ [])
      (record screen { x = 3; pos = 0xb8000 + 326 })).saved_x
    ≡ 0
unfolding con_write write_char plain escape display
not_saved = refl

ega-IsDisplay : IsDisplay (display ega)
unfolding display
ega-IsDisplay = record { wide = omega arith; even = refl; row = refl; some_line = omega arith }

screen-IsValid : IsValid (display ega) screen
unfolding display
screen-IsValid = record {
  in_lines = omega arith;
  in_columns = omega arith;
  saved_in_lines = omega arith;
  saved_in_columns = omega arith;
  region = omega arith;
  region_end = omega arith;
  at_cursor = refl;
  start = omega arith;
  screen = refl;
  end_of_memory = omega arith;
  some_par = omega arith;
  pars = refl;
}

con_write-Keeps_example : Keeps (display ega) screen (con_write (display ega) 127 text screen)
con_write-Keeps_example = con_write-Keeps (display ega) ega-IsDisplay 127 text screen screen-IsValid
