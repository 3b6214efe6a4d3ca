-- ===== src/Tty/Io.antt =====
-- `tty_read` and `tty_write`.
-- A call runs until it returns, or to the point where it waits or spins; it then goes on as the same
-- call on what is left. The alarm of the reader is `current->alarm`.
use linux.Prelude.{
  ℕ, zero, suc, ◌+◌, ◌-◌, ◌*◌, ◌%◌, ◌^◌, List, [], ◌∷◌, ◌++◌, Bool, true, false, not, ◌&&◌, ◌||◌, ℤ,
  pos, ltb_ℤ, eqb_ℤ, ltb, leb, ◌==◌, if◌then◌else◌, get_or, length,
}
use linux.Prelude.{◌+ℤ◌}
use linux.Prelude.Bits.{bit_not}
use Prim.Native.Nat.{bit_and}
use linux.Task.{Task, sig_bit, error, eintr}
use linux.Tty.{
  Tty, Queue, is_empty, is_full, left, first, drop_first, put, has, l_canon, is_eof, buf_size,
}

-- The characters that the inner loop of `tty_read` takes, for `nr` more: whether it met the end of
-- the file, the characters, and the secondary queue.
pub record Taken : Type 0 where
  pub eof : Bool
  pub out : List ℕ
  pub queue : Queue

-- GETCH, with the count of the ends of lines
abbrev pub get_char : Tty → Queue → Queue
get_char t q =
    let q' = drop_first q in
    if is_eof t (first q) || (first q == 10)
    then record q' { count = (q.count + 2 ^ 32 - 1) % 2 ^ 32 }
    else q'

-- It runs while there are characters to take and `nr` is not 0.
unfoldable pub take_chars : ℕ → Tty → Queue → Taken
take_chars zero t q = record { eof = false; out = []; queue = q }
take_chars (suc nr) t q =
    let rest = take_chars nr t (get_char t q) in
    if is_empty q
    then record { eof = false; out = []; queue = q }
    else if is_eof t (first q) && l_canon t
    then record { eof = true; out = []; queue = get_char t q }
    else record rest { out = first q ∷ rest.out }

-- What a reader keeps between the rounds
pub record Reader : Type 0 where
  pub tty : Tty
  pub current : Task
  pub flag : Bool
  pub got : List ℕ

abbrev pub alarm_mask : ℕ
alarm_mask = sig_bit 14

pub data Read : Type 0 where
  returned : ℤ → Reader → Read
  waits : Reader → Read
  spins : Reader → Read
  goes_on : Reader → Read

-- `if (flag=(!oldalarm || time+jiffies<oldalarm))`
abbrev pub sooner : ℤ → ℕ → ℤ → Bool
sooner oldalarm time jiffies = eqb_ℤ oldalarm (pos 0) || ltb_ℤ (pos time +ℤ jiffies) oldalarm

-- The end of `tty_read`
unfoldable pub read_end : ℤ → Reader → Read
read_end oldalarm r =
    let r' = record r { current = record (r.current) { alarm = oldalarm } } in
    if not (r.current.signal == 0) && (length r.got == 0)
    then returned (error eintr) r'
    else returned (pos (length r.got)) r'

-- Nothing to read: the queue is empty, or it has no whole line and room for more. The call of
-- `sleep_if_empty` that follows sleeps on an empty queue only; on a part of a line it returns at
-- once, and the loop goes round with nothing changed until an interrupt changes something.
abbrev pub nothing_yet : Tty → Bool
nothing_yet t =
    is_empty t.secondary || (l_canon t && (t.secondary.count == 0) && ltb 20 (left t.secondary))

-- The characters are handed over, and a timed reader that takes no lines sets its alarm again.
abbrev pub hand_over : Taken → Reader → Reader
hand_over k r = record r { tty = record (r.tty) { secondary = k.queue }; got = r.got ++ k.out }

abbrev pub set_alarm : ℕ → ℤ → ℤ → Reader → Reader
set_alarm time oldalarm jiffies r =
    let timed = not (time == 0) && not (l_canon r.tty) in
    let flag = sooner oldalarm time jiffies in
    record r {
      flag = if timed then flag else r.flag;
      current =
          if timed
          then record (r.current) { alarm = if flag then pos time +ℤ jiffies else oldalarm }
          else r.current;
    }

-- A line was read, or enough characters.
abbrev pub enough : ℕ → Reader → Bool
enough minimum r =
    (l_canon r.tty && not (length r.got == 0))
    || (not (l_canon r.tty) && leb minimum (length r.got))

-- The end of a round that took characters
unfoldable pub after_take : ℕ → ℕ → ℤ → ℤ → Taken → Reader → Read
after_take time minimum oldalarm jiffies k r =
    let r₁ = hand_over k r in
    let r₂ = set_alarm time oldalarm jiffies r₁ in
    if k.eof
    then returned (pos (length r₁.got)) r₁
    else if enough minimum r₂
    then read_end oldalarm r₂
    else goes_on r₂

-- One round of the loop of `tty_read`, for `nr` more characters
unfoldable pub read_round : ℕ → ℕ → ℕ → ℤ → ℤ → Reader → Read
read_round nr time minimum oldalarm jiffies r =
    let t = r.tty in
    let current = r.current in
    let no_alarm = record r {
      current = record current { signal = bit_and current.signal (bit_not 32 alarm_mask) };
    } in
    if nr == 0
    then read_end oldalarm r
    else if r.flag && not (bit_and current.signal alarm_mask == 0)
    then read_end oldalarm no_alarm
    else if not (current.signal == 0)
    then read_end oldalarm r
    else if nothing_yet t
    then (if is_empty t.secondary then waits r else spins r)
    else after_take time minimum oldalarm jiffies (take_chars nr t t.secondary) r

abbrev pub read_next : Read → (Reader → Read) → Read
read_next (returned n r) f = returned n r
read_next (waits r) f = waits r
read_next (spins r) f = spins r
read_next (goes_on r) f = f r

-- Rounds until the call returns, waits or spins
unfoldable pub read_rounds : ℕ → ℕ → ℕ → ℕ → ℤ → ℤ → Reader → Read
read_rounds zero nr time minimum oldalarm jiffies r = goes_on r
read_rounds (suc fuel) nr time minimum oldalarm jiffies r =
    read_next (read_round (nr - length r.got) time minimum oldalarm jiffies r)
      (read_rounds fuel nr time minimum oldalarm jiffies)

-- `nr` is not negative and the channel one of the three; otherwise the call returns -1.
unfoldable pub tty_read : Tty → Task → ℤ → ℕ → Read
tty_read t current jiffies nr =
    let oldalarm = current.alarm in
    let time = 10 * get_or t.termios.c_cc 5 0 in
    let vmin = get_or t.termios.c_cc 6 0 in
    let timed = not (time == 0) && (vmin == 0) in
    let flag = timed && sooner oldalarm time jiffies in
    let minimum = if timed then 1 else vmin in
    read_rounds (suc nr) nr time (if ltb nr minimum then nr else minimum) oldalarm jiffies (record {
      tty = t;
      current = if flag then record current { alarm = pos time +ℤ jiffies } else current;
      flag = flag;
      got = [];
    })

-- What is left to write, and `cr_flag`
pub record Writer : Type 0 where
  pub queue : Queue
  pub rest : List ℕ
  pub cr_flag : Bool

abbrev pub to_upper : ℕ → ℕ
to_upper c = if leb b'a' c && leb c b'z' then c - 32 else c

-- What the output flags make of a character
abbrev pub map_output : Tty → ℕ → ℕ
map_output t c =
    if (c == 13) && has t.termios.c_oflag 0o10
    then 10
    else if (c == 10) && has t.termios.c_oflag 0o40
    then 13
    else c

abbrev pub map_case : Tty → ℕ → ℕ
map_case t c = if has t.termios.c_oflag 0o2 then to_upper c else c

abbrev pub o_post : Tty → Bool
o_post t = has t.termios.c_oflag 0o1

-- A round of the inner loop of `tty_write` on a queue with room; a line feed may come after a round
-- of its own for the carriage return.
unfoldable pub write_one : Tty → ℕ → List ℕ → Writer → Writer
write_one t c cs w =
    let c' = map_output t c in
    if o_post t && (c' == 10) && not w.cr_flag && has t.termios.c_oflag 0o4
    then record w { queue = put 13 w.queue; cr_flag = true }
    else record {
      queue = put (if o_post t then map_case t c' else c) w.queue;
      rest = cs;
      cr_flag = false;
    }

abbrev pub write_step : Tty → List ℕ → Writer → Writer
write_step t [] w = w
write_step t (c ∷ cs) w = write_one t c cs w

unfoldable pub fill_queue : ℕ → Tty → Writer → Writer
fill_queue zero t w = w
fill_queue (suc fuel) t w =
    let more = fill_queue fuel t (write_step t w.rest w) in
    if (length w.rest == 0) || is_full w.queue then w else more

pub data Wrote : Type 0 where
  wrote_all : Writer → Wrote
  interrupted : Writer → Wrote
  sleeps : Writer → Wrote
  yields : Writer → Wrote

-- `tty_write` up to its return, to a sleep on a queue with less than 128 places, or to the call of
-- `schedule` after `tty->write`; the count returned is the length of what is no longer left.
unfoldable pub tty_write : (Queue → Queue) → Tty → Task → Writer → Wrote
tty_write write t current w =
    let w' = fill_queue buf_size t w in
    let w'' = record w' { queue = write w'.queue } in
    if length w.rest == 0
    then wrote_all w
    else if not (current.signal == 0)
    then interrupted w
    else if is_full w.queue
    then sleeps w
    else if length w'.rest == 0
    then wrote_all w''
    else yields w''
