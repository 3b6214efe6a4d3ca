-- ===== src/Tty/Tests.antt =====
-- A console on which a line is typed, and the theorem there.
use linux.Prelude.{ℕ, ◌≡◌, refl, List, [], ◌∷◌, false, pos, arith}
use linux.Prelude.{◌+ℤ◌}
use linux.Task.{init_task}
use linux.Tty.{Queue, Termios, put, drop_last, chars}
use linux.Tty.Cook.{
  Line, copy_to_cooked, cook, cook_char, cook_signal, map_input, rub_out, kill_line, echo_char,
  accept, tty_intr,
}
use linux.Tty.Io.{
  Read, returned, take_chars, read_end, after_take, read_round, read_rounds, tty_read, Wrote,
  tty_write, write_one, fill_queue, wrote_all,
}
use linux.Tty.Ioctl.{User, tty_ioctl}
use linux.Tty.Ring.{passing}
use linux.Tty.Ending.{Ends, tty_read-Ends}
use linux.Tty.Counted.{IsCountedLine}
use linux.Tty.Reading.{Event, arrives, cooks, happens, happen, happen-IsCounted}

abbrev no_chars : Queue
no_chars = record { count = 0; head = 0; tail = 0; buf = λ i. 0 }

-- The settings of the console in `tty_table`
abbrev console_termios : Termios
console_termios = record {
  c_iflag = 0o400;
  c_oflag = 0o5;
  c_cflag = 0;
  c_lflag = 0o5013;
  c_line = 0;
  c_cc =
      3 ∷ 0o34 ∷ 0o177 ∷ 0o25 ∷ 4 ∷ 0 ∷ 1 ∷ 0 ∷ 0o21 ∷ 0o23 ∷ 0o32 ∷ 0 ∷ 0o22 ∷ 0o17 ∷ 0o27 ∷ 0o26
      ∷ 0 ∷ [];
}

abbrev console : Line
console = record {
  tty = record {
    termios = console_termios;
    pgrp = pos 0;
    stopped = 0;
    read_q = no_chars;
    write_q = no_chars;
    secondary = no_chars;
  };
  task = [];
}

-- The driver takes all that is there.
abbrev drain : Queue → Queue
drain q = record q { tail = q.head }

-- "ab", erase, "c" and return; then a read
events : List Event
events = arrives b'a' ∷ arrives b'b' ∷ arrives 0o177 ∷ arrives b'c' ∷ arrives 13 ∷ cooks drain ∷ []

got : Read → List ℕ
got (returned n r) = r.got
got k = []

a_line : got (tty_read (happen events console).tty init_task (pos 5) 80) ≡ b'a' ∷ b'c' ∷ 10 ∷ []
unfolding got events happen happens copy_to_cooked cook cook_char cook_signal map_input rub_out
    kill_line echo_char accept tty_intr put drop_last tty_read read_rounds read_round after_take
    read_end take_chars ◌+ℤ◌
a_line = refl

counted : (happen events console).tty.secondary.count ≡ 1
unfolding events happen happens copy_to_cooked cook cook_char cook_signal map_input rub_out
    kill_line echo_char accept tty_intr put drop_last
counted = refl

written : Wrote → ℕ
written (wrote_all w) = chars w.queue
written w = 0

-- A line feed goes out as two characters.
new_line :
    written (
      tty_write
        (λ q. q)
        console.tty
        init_task
        (record { queue = no_chars; rest = b'x' ∷ 10 ∷ []; cr_flag = false }))
    ≡ 3
unfolding written tty_write fill_queue write_one put
new_line = refl

abbrev user : User
user = record { arg = pos 0; termios = console_termios; termio = console_termios; long = pos 7 }

group_set : (tty_ioctl 0x5410 user console.tty).tty.pgrp ≡ pos 7
unfolding tty_ioctl
group_set = refl

console-IsCounted : IsCountedLine console
unfolding passing
console-IsCounted = record {
  terminal = record { ring = record { head = omega arith; tail = omega arith }; counted = refl };
}

happen-IsCounted_example : IsCountedLine (happen events console)
happen-IsCounted_example = happen-IsCounted events console console-IsCounted

tty_read-Ends_example : Ends (tty_read (happen events console).tty init_task (pos 5) 80)
tty_read-Ends_example = tty_read-Ends (happen events console).tty init_task (pos 5) 80
