-- ===== src/Tty/Ioctl.antt =====
-- `tty_ioctl` of kernel/chr_drv/tty_ioctl.c, on the terminal that the device number names.
-- What the user's memory at `arg` holds, read as one type or another, is a record; what is stored
-- there is a reply. `change_speed` writes to the ports of a serial line and is left out.
use linux.Prelude.{
  ℕ, ◌+◌, ◌*◌, ◌/◌, ◌%◌, ◌^◌, ◌++◌, ◌||◌, ℤ, pos, eqb_ℤ, ◌==◌, if◌then◌else◌, take, drop,
}
use linux.Task.{error, einval}
use linux.Tty.{Tty, Termios, Queue, chars}

pub record User : Type 0 where
  pub arg : ℤ
  pub termios : Termios
  pub termio : Termios
  pub long : ℤ

pub data Stored : Type 0 where
  nothing : Stored
  a_termios : Termios → Stored
  a_termio : Termios → Stored
  a_long : ℤ → Stored

pub record Reply : Type 0 where
  pub result : ℤ
  pub stored : Stored
  pub tty : Tty

unfoldable pub flush : Queue → Queue
flush q = record q { head = q.tail }

-- The low half of a word
abbrev pub low_half : ℕ → ℕ
low_half n = n % 2 ^ 16

abbrev pub with_low_half : ℕ → ℕ → ℕ
with_low_half old new = old / 2 ^ 16 * 2 ^ 16 + low_half new

abbrev pub ncc : ℕ
ncc = 8

-- `tmp_termio` of `get_termio`: the short form of the settings
unfoldable pub get_termio : Termios → Termios
get_termio m = record {
  c_iflag = low_half m.c_iflag;
  c_oflag = low_half m.c_oflag;
  c_cflag = low_half m.c_cflag;
  c_lflag = low_half m.c_lflag;
  c_line = m.c_line;
  c_cc = take ncc m.c_cc;
}

unfoldable pub set_termio : Termios → Termios → Termios
set_termio m s = record {
  c_iflag = with_low_half m.c_iflag s.c_iflag;
  c_oflag = with_low_half m.c_oflag s.c_oflag;
  c_cflag = with_low_half m.c_cflag s.c_cflag;
  c_lflag = with_low_half m.c_lflag s.c_lflag;
  c_line = s.c_line;
  c_cc = take ncc s.c_cc ++ drop ncc m.c_cc;
}

abbrev pub done : Stored → Tty → Reply
done s t = record { result = pos 0; stored = s; tty = t }

abbrev pub refused : Tty → Reply
refused t = record { result = error einval; stored = nothing; tty = t }

abbrev pub flush_read : Tty → Tty
flush_read t = record t { read_q = flush t.read_q }

abbrev pub flush_write : Tty → Tty
flush_write t = record t { write_q = flush t.write_q }

-- TCFLSH
unfoldable pub flush_queues : ℤ → Tty → Reply
flush_queues arg t =
    if eqb_ℤ arg (pos 0)
    then done nothing (flush_read t)
    else if eqb_ℤ arg (pos 1)
    then done nothing (flush_write t)
    else if eqb_ℤ arg (pos 2)
    then done nothing (flush_write (flush_read t))
    else refused t

-- TCGETS to TCSETAF; `wait_until_sent` and `send_break` do nothing.
unfoldable pub settings_ioctl : ℕ → User → Tty → Reply
settings_ioctl cmd u t =
    if cmd == 0x5401
    then done (a_termios t.termios) t
    else if cmd == 0x5404
    then done nothing (record (flush_read t) { termios = u.termios })
    else if cmd == 0x5403 || cmd == 0x5402
    then done nothing (record t { termios = u.termios })
    else if cmd == 0x5405
    then done (a_termio (get_termio t.termios)) t
    else if cmd == 0x5408
    then done nothing (record (flush_read t) { termios = set_termio t.termios u.termio })
    else if cmd == 0x5407 || cmd == 0x5406
    then done nothing (record t { termios = set_termio t.termios u.termio })
    else refused t

-- The cases with -EINVAL are those of the default as well.
unfoldable pub tty_ioctl : ℕ → User → Tty → Reply
tty_ioctl cmd u t =
    if cmd == 0x5409
    then done nothing t
    else if cmd == 0x540b
    then flush_queues u.arg t
    else if cmd == 0x540f
    then done (a_long t.pgrp) t
    else if cmd == 0x5410
    then done nothing (record t { pgrp = u.long })
    else if cmd == 0x5411
    then done (a_long (pos (chars t.write_q))) t
    else if cmd == 0x541b
    then done (a_long (pos (chars t.secondary))) t
    else settings_ioctl cmd u t
