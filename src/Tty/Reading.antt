-- ===== src/Tty/Reading.antt =====
-- Typing and reading, in any order.
use linux.Prelude.{
  ℕ, zero, suc, ◌-◌, ◌≡◌, ◌∙◌, sym, subst, refl, List, [], ◌∷◌, true, false, not, ◌&&◌, ◌||◌, ℤ,
  ◌==◌, length, arith, Bool-cases, inl, inr,
}
use linux.Task.{Task}
use linux.Prelude.Bits.{bit_not}
use Prim.Native.Nat.{bit_and}
use linux.Tty.{Tty, Queue, is_empty, chars, first, put, l_canon, is_eof, ends_line}
use linux.Tty.Cook.{Line, copy_to_cooked}
use linux.Tty.Io.{
  Taken, get_char, take_chars, Reader, Read, returned, waits, spins, goes_on, read_end, nothing_yet,
  hand_over, set_alarm, enough, alarm_mask, after_take, read_round, read_next, read_rounds,
  tty_read,
}
use linux.Tty.Ring.{one_if, matches-drop_first, passing-le}
use linux.Tty.Counted.{Counts, IsCounted, IsCountedLine, copy_to_cooked-IsCounted}

get_char-Counts :
    (t : Tty) (q : Queue)
    → Counts t.termios q
    → is_empty q ≡ false
    → Counts t.termios (get_char t q)
get_char-Counts t q i e =
    let d = matches-drop_first (ends_line t.termios) q i.ring e in
    let b = passing-le (ends_line t.termios) (chars q) q.tail q.buf in
    let k = i.counted in
    elim (Bool-cases (is_eof t (first q) || (first q == 10))) [
      | inl h ↦
          let w : ends_line t.termios (first q) ≡ true = ground arith in
          let o : one_if (ends_line t.termios (first q)) ≡ 1 = rw w refl in
          rw h (record {
            ring = record { head = i.ring.head; tail = omega arith };
            counted = omega arith;
          })
      | inr h ↦
          let w : ends_line t.termios (first q) ≡ false = ground arith in
          let o : one_if (ends_line t.termios (first q)) ≡ 0 = rw w refl in
          rw h (record {
            ring = record { head = i.ring.head; tail = omega arith };
            counted = omega arith;
          })
    ]

take_chars-Counts :
    (nr : ℕ) (t : Tty) (q : Queue) → Counts t.termios q → Counts t.termios (take_chars nr t q).queue
unfolding take_chars
take_chars-Counts zero t q i = i
take_chars-Counts (suc nr) t q i = elim (Bool-cases (is_empty q)) [
  | inl e ↦ rw e i
  | inr e ↦
      let j = get_char-Counts t q i e in
      rw e (elim (Bool-cases (is_eof t (first q) && l_canon t)) [
        | inl f ↦ rw f j
        | inr f ↦ rw f (take_chars-Counts nr t (get_char t q) j)
      ])
]

-- The terminal after what a call did
abbrev pub tty_after : Read → Tty
tty_after (returned n r) = r.tty
tty_after (waits r) = r.tty
tty_after (spins r) = r.tty
tty_after (goes_on r) = r.tty

read_end_tty : (oldalarm : ℤ) (r : Reader) → tty_after (read_end oldalarm r) ≡ r.tty
unfolding read_end
read_end_tty oldalarm r = ground arith

after_take_tty :
    (time minimum : ℕ) (oldalarm jiffies : ℤ) (k : Taken) (r : Reader)
    → tty_after (after_take time minimum oldalarm jiffies k r)
      ≡ record (r.tty) { secondary = k.queue }
unfolding after_take
after_take_tty time minimum oldalarm jiffies k r = elim (Bool-cases k.eof) [
  | inl e ↦ rw e refl
  | inr e ↦
      let r₂ = set_alarm time oldalarm jiffies (hand_over k r) in
      rw e (elim (Bool-cases (enough minimum r₂)) [
        | inl f ↦ rw f (read_end_tty oldalarm r₂)
        | inr f ↦ rw f refl
      ])
]

read_round-IsCounted :
    (nr time minimum : ℕ) (oldalarm jiffies : ℤ) (r : Reader)
    → IsCounted r.tty
    → IsCounted (tty_after (read_round nr time minimum oldalarm jiffies r))
unfolding read_round
read_round-IsCounted nr time minimum oldalarm jiffies r i =
    let same =
      λ (q : Reader) (e : q.tty ≡ r.tty). subst IsCounted (sym (read_end_tty oldalarm q ∙ e)) i in
    let no_alarm : Reader = record r {
      current = record (r.current) { signal = bit_and r.current.signal (bit_not 32 alarm_mask) };
    } in
    elim (Bool-cases (nr == 0)) [
      | inl e ↦ rw e (same r refl)
      | inr e ↦ rw e (elim (Bool-cases (r.flag && not (bit_and r.current.signal alarm_mask == 0))) [
        | inl f ↦ rw f (same no_alarm refl)
        | inr f ↦ rw f (elim (Bool-cases (not (r.current.signal == 0))) [
          | inl g ↦ rw g (same r refl)
          | inr g ↦ rw g (elim (Bool-cases (nothing_yet r.tty)) [
            | inl h ↦
                rw h
                  (elim (Bool-cases (is_empty r.tty.secondary)) [ inl e ↦ rw e i | inr e ↦ rw e i ])
            | inr h ↦
                let k = take_chars nr r.tty r.tty.secondary in
                rw h (
                  subst IsCounted (sym (after_take_tty time minimum oldalarm jiffies k r))
                    (take_chars-Counts nr r.tty r.tty.secondary i))
          ])
        ])
      ])
    ]

next-IsCounted :
    (k : Read) (f : Reader → Read)
    → IsCounted (tty_after k)
    → ((r : Reader) → IsCounted r.tty → IsCounted (tty_after (f r)))
    → IsCounted (tty_after (read_next k f))
next-IsCounted (returned n r) f i h = i
next-IsCounted (waits r) f i h = i
next-IsCounted (spins r) f i h = i
next-IsCounted (goes_on r) f i h = h r i

read_rounds-IsCounted :
    (fuel nr time minimum : ℕ) (oldalarm jiffies : ℤ) (r : Reader)
    → IsCounted r.tty
    → IsCounted (tty_after (read_rounds fuel nr time minimum oldalarm jiffies r))
unfolding read_rounds
read_rounds-IsCounted zero nr time minimum oldalarm jiffies r i = i
read_rounds-IsCounted (suc fuel) nr time minimum oldalarm jiffies r i =
    next-IsCounted (read_round (nr - length r.got) time minimum oldalarm jiffies r)
      (read_rounds fuel nr time minimum oldalarm jiffies)
      (read_round-IsCounted (nr - length r.got) time minimum oldalarm jiffies r i)
      (read_rounds-IsCounted fuel nr time minimum oldalarm jiffies)

tty_read-IsCounted :
    (t : Tty) (current : Task) (jiffies : ℤ) (nr : ℕ)
    → IsCounted t
    → IsCounted (tty_after (tty_read t current jiffies nr))
unfolding tty_read
tty_read-IsCounted t current jiffies nr i =
    read_rounds-IsCounted (suc nr) nr _ _ current.alarm jiffies _ i

-- What happens to a terminal: a character arrives, those that arrived are cooked, with this way to
-- write the echo, or a task reads up to so many characters at a time.
pub data Event : Type 0 where
  arrives : ℕ → Event
  cooks : (Queue → Queue) → Event
  reads : Task → ℤ → ℕ → Event

unfoldable pub happens : Event → Line → Line
happens (arrives c) l = record l { tty = record (l.tty) { read_q = put c l.tty.read_q } }
happens (cooks write) l = copy_to_cooked write l
happens (reads current jiffies nr) l = record l {
  tty = tty_after (tty_read l.tty current jiffies nr);
}

unfoldable pub happen : List Event → Line → Line
happen [] l = l
happen (e ∷ es) l = happen es (happens e l)

happens-IsCounted : (e : Event) (l : Line) → IsCountedLine l → IsCountedLine (happens e l)
unfolding happens
happens-IsCounted (arrives c) l i = record { terminal = i.terminal }
happens-IsCounted (cooks write) l i = copy_to_cooked-IsCounted write l i
happens-IsCounted (reads current jiffies nr) l i = record {
  terminal = tty_read-IsCounted l.tty current jiffies nr i.terminal;
}

-- Whatever is typed on a terminal, edited, echoed and read, in any order, under any settings, the
-- `data` of its secondary queue is the number of ends of lines in it.
pub happen-IsCounted : (es : List Event) (l : Line) → IsCountedLine l → IsCountedLine (happen es l)
unfolding happen
happen-IsCounted [] l i = i
happen-IsCounted (e ∷ es) l i = happen-IsCounted es (happens e l) (happens-IsCounted e l i)
