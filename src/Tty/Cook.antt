-- ===== src/Tty/Cook.antt =====
-- `copy_to_cooked`: from the read queue, with its editing and echo, to the secondary queue.
-- It is called by the interrupts of a terminal. `tolower` reads its table at a `signed char`; only
-- the characters below 128 are in the table, and the others are taken as they are.
use linux.Prelude.{
  ℕ, zero, suc, ◌+◌, ◌%◌, ◌^◌, [], ◌∷◌, Option, none, some, Bool, not, ◌&&◌, ◌||◌, ℤ, pos, ltb_ℤ,
  eqb_ℤ, leb, ◌==◌, if◌then◌else◌,
}
use Prim.Native.Nat.{bit_or}
use linux.Task.{Table, sig_bit}
use linux.Tty.{
  Tty, Queue, is_empty, is_full, last, first, drop_first, put, drop_last, has, l_isig, l_canon,
  l_echo, l_echoctl, is_key, is_control, is_end, chars, buf_size,
}

-- A terminal, and the tasks that it may signal
pub record Line : Type 0 where
  pub tty : Tty
  pub task : Table

-- The loop of `tty_intr`
unfoldable pub signal_group : ℤ → ℕ → Table → Table
signal_group pgrp mask [] = []
signal_group pgrp mask (none ∷ ts) = none ∷ signal_group pgrp mask ts
signal_group pgrp mask (some t ∷ ts) =
    some (if eqb_ℤ t.pgrp pgrp then record t { signal = bit_or t.signal mask } else t)
    ∷ signal_group pgrp mask ts

unfoldable pub tty_intr : ℕ → Line → Line
tty_intr mask l =
    if ltb_ℤ (pos 0) l.tty.pgrp then record l { task = signal_group l.tty.pgrp mask l.task } else l

-- SIGINT and SIGQUIT
abbrev pub int_mask : ℕ
int_mask = sig_bit 2

abbrev pub quit_mask : ℕ
quit_mask = sig_bit 3

abbrev pub to_lower : ℕ → ℕ
to_lower c = if leb b'A' c && leb c b'Z' then c + 32 else c

-- What the input flags make of a character: nothing for an ignored carriage return.
abbrev pub fold_case : Tty → ℕ → ℕ
fold_case t c = if has t.termios.c_iflag 0o1000 then to_lower c else c

unfoldable pub map_input : Tty → ℕ → Option ℕ
map_input t c =
    if c == 13
    then (if has t.termios.c_iflag 0o400
        then some (fold_case t 10)
        else if has t.termios.c_iflag 0o200
        then none
        else some (fold_case t 13))
    else if (c == 10) && has t.termios.c_iflag 0o100
    then some (fold_case t 13)
    else some (fold_case t c)

-- Characters in the write queue, and the call of `tty->write`
abbrev pub echo : (Queue → Queue) → (Queue → Queue) → Tty → Tty
echo write f t = record t { write_q = write (f t.write_q) }

-- A character of the line is deleted, and rubbed out.
unfoldable pub rub_out : (Queue → Queue) → ℕ → Tty → Tty
rub_out write c t =
    if l_echo t then echo write (λ q. put 127 (if is_control c then put 127 q else q)) t else t

abbrev pub delete_last : (Queue → Queue) → Tty → Tty
delete_last write t =
    let t' = rub_out write (last t.secondary) t in record t' { secondary = drop_last t'.secondary }

-- The line has no character to delete.
abbrev pub at_start : Tty → Bool
at_start t = is_empty t.secondary || is_end t (last t.secondary)

-- The loop of KILL_CHAR
unfoldable pub kill_line : (Queue → Queue) → ℕ → Tty → Tty
kill_line write zero t = t
kill_line write (suc fuel) t =
    let rest = kill_line write fuel (delete_last write t) in if at_start t then t else rest

-- The echo of a character
unfoldable pub echo_char : (Queue → Queue) → ℕ → Tty → Tty
echo_char write c t =
    let put_ctl = λ (q : Queue). put ((c + 64) % 256) (put b'^' q) in
    if not (l_echo t)
    then t
    else if c == 10
    then echo write (λ q. put 13 (put 10 q)) t
    else if is_control c
    then echo write (λ q. if l_echoctl t then put_ctl q else q) t
    else echo write (put c) t

-- From `if (c==10 || c==EOF_CHAR(tty))` on
unfoldable pub accept : (Queue → Queue) → ℕ → Tty → Tty
accept write c t =
    let q = t.secondary in
    let t' =
      if is_end t c
      then record t { secondary = record q { count = (q.count + 1) % 2 ^ 32 } }
      else t in
    let t'' = echo_char write c t' in record t'' { secondary = put c t''.secondary }

abbrev pub with_tty : Line → Tty → Line
with_tty l t = record l { tty = t }

-- The character is none of those that edit the line.
unfoldable pub cook_signal : (Queue → Queue) → ℕ → Line → Line
cook_signal write c l =
    if l_isig l.tty && is_key 0 l.tty c
    then tty_intr int_mask l
    else if l_isig l.tty && is_key 1 l.tty c
    then tty_intr quit_mask l
    else with_tty l (accept write c l.tty)

unfoldable pub cook_char : (Queue → Queue) → ℕ → Line → Line
cook_char write c l =
    let t = l.tty in
    if l_canon t && is_key 3 t c
    then with_tty l (kill_line write buf_size t)
    else if l_canon t && is_key 2 t c
    then (if at_start t then l else with_tty l (delete_last write t))
    else if l_canon t && is_key 9 t c
    then with_tty l (record t { stopped = 1 })
    else if l_canon t && is_key 8 t c
    then with_tty l (record t { stopped = 0 })
    else cook_signal write c l

abbrev pub cook_mapped : (Queue → Queue) → Option ℕ → Line → Line
cook_mapped write none l = l
cook_mapped write (some c) l = cook_char write c l

abbrev pub take_char : Line → Line
take_char l = with_tty l (record (l.tty) { read_q = drop_first l.tty.read_q })

-- Each round takes a character out of the read queue.
unfoldable pub cook : (Queue → Queue) → ℕ → Line → Line
cook write zero l = l
cook write (suc fuel) l =
    let t = l.tty in
    let rest = cook write fuel (cook_mapped write (map_input t (first t.read_q)) (take_char l)) in
    if is_empty t.read_q || is_full t.secondary then l else rest

unfoldable pub copy_to_cooked : (Queue → Queue) → Line → Line
copy_to_cooked write l = cook write (chars l.tty.read_q) l
