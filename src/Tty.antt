-- ===== src/Tty.antt =====
-- kernel/chr_drv/tty_io.c, tty_ioctl.c and include/linux/tty.h: the terminals and their queues.
-- A queue is a ring of 1024 bytes; `count` is its field `data`, which `secondary` uses to count the
-- ends of lines. `char` is signed: a byte from 128 on is less than 32, and equals no control
-- character below 128. `tty->write` is a parameter, a function pointer in the source, and takes
-- characters out of the write queue. The wake-ups of waiting tasks are left out.
pub mod Cook
pub mod Io
pub mod Ioctl
pub mod Ring
pub mod Counted
pub mod Reading
pub mod Ending
mod Tests
use linux.Prelude.{
  ℕ, zero, suc, ◌+◌, ◌-◌, ◌*◌, ◌%◌, ◌^◌, List, [], ◌∷◌, Bool, true, false, not, ◌&&◌, ◌||◌, ℤ, ltb,
  leb, ◌==◌, if◌then◌else◌, get_or,
}
use Prim.Native.Nat.{bit_and}

-- `struct termios`
pub record Termios : Type 0 where
  pub c_iflag : ℕ
  pub c_oflag : ℕ
  pub c_cflag : ℕ
  pub c_lflag : ℕ
  pub c_line : ℕ
  pub c_cc : List ℕ

-- `struct tty_queue`
pub record Queue : Type 0 where
  pub count : ℕ
  pub head : ℕ
  pub tail : ℕ
  pub buf : ℕ → ℕ

-- `struct tty_struct`
pub record Tty : Type 0 where
  pub termios : Termios
  pub pgrp : ℤ
  pub stopped : ℕ
  pub read_q : Queue
  pub write_q : Queue
  pub secondary : Queue

abbrev pub buf_size : ℕ
buf_size = 1024

-- EMPTY, LEFT, FULL, CHARS
abbrev pub is_empty : Queue → Bool
is_empty q = q.head == q.tail

abbrev pub left : Queue → ℕ
left q = (q.tail + 2 * buf_size - q.head - 1) % buf_size

abbrev pub is_full : Queue → Bool
is_full q = left q == 0

abbrev pub chars : Queue → ℕ
chars q = (q.head + buf_size - q.tail) % buf_size

-- LAST
abbrev pub last : Queue → ℕ
last q = q.buf ((q.head + buf_size - 1) % buf_size)

-- GETCH: the character, and the queue without it
abbrev pub first : Queue → ℕ
first q = q.buf q.tail

abbrev pub drop_first : Queue → Queue
drop_first q = record q { tail = (q.tail + 1) % buf_size }

-- PUTCH
pub put : ℕ → Queue → Queue
put c q = record q { buf = λ i. if i == q.head then c else q.buf i; head = (q.head + 1) % buf_size }

-- `DEC(queue.head)`
pub drop_last : Queue → Queue
drop_last q = record q { head = (q.head + buf_size - 1) % buf_size }

-- `_L_FLAG`, `_I_FLAG`, `_O_FLAG`
abbrev pub has : ℕ → ℕ → Bool
has flags f = not (bit_and flags f == 0)

abbrev pub l_isig : Tty → Bool
l_isig t = has t.termios.c_lflag 0o1

abbrev pub l_canon : Tty → Bool
l_canon t = has t.termios.c_lflag 0o2

abbrev pub l_echo : Tty → Bool
l_echo t = has t.termios.c_lflag 0o10

abbrev pub l_echoctl : Tty → Bool
l_echoctl t = has t.termios.c_lflag 0o1000

-- `c == INTR_CHAR(tty)` and the like, with the place of the character in `c_cc`.
abbrev pub equals_key : ℕ → Termios → ℕ → Bool
equals_key k m c = (c == get_or m.c_cc k 0) && ltb c 128

abbrev pub is_key : ℕ → Tty → ℕ → Bool
is_key k t c = equals_key k t.termios c

abbrev pub is_eof : Tty → ℕ → Bool
is_eof = is_key 4

-- `c<32`
abbrev pub is_control : ℕ → Bool
is_control c = ltb c 32 || leb 128 c

-- The character ends a line.
abbrev pub ends_line : Termios → ℕ → Bool
ends_line m c = c == 10 || equals_key 4 m c

abbrev pub is_end : Tty → ℕ → Bool
is_end t c = ends_line t.termios c
