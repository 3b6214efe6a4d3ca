-- ===== src/Tty/Ending.antt =====
-- The rounds of `tty_read` come to an end.
use linux.Prelude.{
  ℕ, zero, suc, ◌-◌, ◌≤◌, ◌<◌, ◌≡◌, ◌≢◌, ◌⊎◌, refl, true, false, not, ◌&&◌, ℤ, ◌==◌, length,
  length-append, arith, Bool-cases, inl, inr,
}
use linux.Prelude.Bits.{bit_not}
use Prim.Native.Nat.{bit_and}
use linux.Task.{Task}
use linux.Tty.{Tty, Queue, is_empty, left, first, l_canon, is_eof}
use linux.Tty.Io.{
  Taken, take_chars, Reader, Read, returned, waits, spins, goes_on, read_end, nothing_yet,
  hand_over, set_alarm, enough, alarm_mask, after_take, read_round, read_next, read_rounds,
  tty_read,
}

-- The call returned, or it waits on an empty queue, or spins on a part of a line. It waits or spins
-- without a signal only.
abbrev pub Ends : Read → Type 0
Ends (returned n r) = Unit
Ends (waits r) = (is_empty r.tty.secondary ≡ true) × (r.current.signal ≡ 0)
Ends (spins r) =
    (is_empty r.tty.secondary ≡ false)
    × (l_canon r.tty ≡ true)
    × (r.tty.secondary.count ≡ 0)
    × (20 < left r.tty.secondary)
    × (r.current.signal ≡ 0)
Ends (goes_on r) = ⊥

-- A round that goes on has more characters than n.
abbrev Further : ℕ → Read → Type 0
Further n (returned m r) = Unit
Further n (waits r) = Ends (waits r)
Further n (spins r) = Ends (spins r)
Further n (goes_on r) = n < length r.got

read_end-Ends : (oldalarm : ℤ) (r : Reader) → Ends (read_end oldalarm r)
unfolding read_end
read_end-Ends oldalarm r = elim (Bool-cases (not (r.current.signal == 0) && (length r.got == 0))) [
  | inl e ↦ rw e tt
  | inr e ↦ rw e tt
]

Further-of_Ends : (n : ℕ) (k : Read) → Ends k → Further n k
Further-of_Ends n (returned m r) e = tt
Further-of_Ends n (waits r) e = e
Further-of_Ends n (spins r) e = e
Further-of_Ends n (goes_on r) e = absurd e

-- A round on a queue with characters takes one, or meets the end of the file.
take_chars_some :
    (nr : ℕ) (t : Tty) (q : Queue)
    → is_empty q ≡ false
    → ((take_chars (suc nr) t q).eof ≡ true) ⊎ (1 ≤ length (take_chars (suc nr) t q).out)
unfolding take_chars
take_chars_some nr t q e = elim (Bool-cases (is_eof t (first q) && l_canon t)) [
  | inl f ↦ rw (e, f) (inl refl)
  | inr f ↦ rw (e, f) (inr (omega arith))
]

after_take-Further :
    (time minimum : ℕ) (oldalarm jiffies : ℤ) (k : Taken) (r : Reader)
    → (k.eof ≡ true) ⊎ (1 ≤ length k.out)
    → Further (length r.got) (after_take time minimum oldalarm jiffies k r)
unfolding after_take
after_take-Further time minimum oldalarm jiffies k r (inl e) = rw e tt
after_take-Further time minimum oldalarm jiffies k r (inr h) =
    let r₂ = set_alarm time oldalarm jiffies (hand_over k r) in
    let l = length-append r.got k.out in
    elim (Bool-cases k.eof) [
      | inl e ↦ rw e tt
      | inr e ↦ rw e (elim (Bool-cases (enough minimum r₂)) [
        | inl f ↦ rw f (Further-of_Ends (length r.got) _ (read_end-Ends oldalarm r₂))
        | inr f ↦ rw f (omega arith)
      ])
    ]

read_round-Further :
    (nr time minimum : ℕ) (oldalarm jiffies : ℤ) (r : Reader)
    → Further (length r.got) (read_round nr time minimum oldalarm jiffies r)
unfolding read_round
read_round-Further zero time minimum oldalarm jiffies r =
    Further-of_Ends (length r.got) _ (read_end-Ends oldalarm r)
read_round-Further (suc nr) time minimum oldalarm jiffies r =
    let ended = λ (q : Reader). Further-of_Ends (length r.got) _ (read_end-Ends oldalarm q) in
    let no_alarm : Reader = record r {
      current = record (r.current) { signal = bit_and r.current.signal (bit_not 32 alarm_mask) };
    } in
    let some_more : (suc nr == 0) ≡ false = ground arith in
    rw some_more (elim (Bool-cases (r.flag && not (bit_and r.current.signal alarm_mask == 0))) [
      | inl f ↦ rw f (ended no_alarm)
      | inr f ↦ rw f (elim (Bool-cases (not (r.current.signal == 0))) [
        | inl g ↦ rw g (ended r)
        | inr g ↦ rw g (elim (Bool-cases (nothing_yet r.tty)) [
          | inl h ↦ rw h (elim (Bool-cases (is_empty r.tty.secondary)) [
            | inl i ↦ rw i (i, ground arith)
            | inr i ↦ rw i (i, ground arith, ground arith, ground arith, ground arith)
          ])
          | inr h ↦
              let e : is_empty r.tty.secondary ≡ false = ground arith in
              rw h (
                after_take-Further time minimum oldalarm jiffies
                  (take_chars (suc nr) r.tty r.tty.secondary) r
                  (take_chars_some nr r.tty r.tty.secondary e))
        ])
      ])
    ])

last_round-Ends :
    (time minimum : ℕ) (oldalarm jiffies : ℤ) (r : Reader)
    → Ends (read_round 0 time minimum oldalarm jiffies r)
unfolding read_round
last_round-Ends time minimum oldalarm jiffies r = read_end-Ends oldalarm r

next-Ends :
    (n : ℕ) (k : Read) (f : Reader → Read)
    → Further n k
    → ((r : Reader) → n < length r.got → Ends (f r))
    → Ends (read_next k f)
next-Ends n (returned m r) f h g = tt
next-Ends n (waits r) f h g = h
next-Ends n (spins r) f h g = h
next-Ends n (goes_on r) f h g = g r h

read_next-Ends : (k : Read) (f : Reader → Read) → Ends k → Ends (read_next k f)
read_next-Ends (returned m r) f e = tt
read_next-Ends (waits r) f e = e
read_next-Ends (spins r) f e = e
read_next-Ends (goes_on r) f e = absurd e

read_rounds-Ends :
    (fuel nr time minimum : ℕ) (oldalarm jiffies : ℤ) (r : Reader)
    → nr - length r.got < fuel
    → Ends (read_rounds fuel nr time minimum oldalarm jiffies r)
unfolding read_rounds
read_rounds-Ends zero nr time minimum oldalarm jiffies r h = absurd (omega arith)
read_rounds-Ends (suc fuel) nr time minimum oldalarm jiffies r h =
    elim (Bool-cases (nr - length r.got == 0)) [
      | inl e ↦
          let z : nr - length r.got ≡ 0 = ground arith in
          rw z (read_next-Ends _ _ (last_round-Ends time minimum oldalarm jiffies r))
      | inr e ↦
          let p : nr - length r.got ≢ 0 = ground arith in
          next-Ends (length r.got) (read_round (nr - length r.got) time minimum oldalarm jiffies r)
            (read_rounds fuel nr time minimum oldalarm jiffies)
            (read_round-Further (nr - length r.got) time minimum oldalarm jiffies r)
            (λ q l. read_rounds-Ends fuel nr time minimum oldalarm jiffies q (omega arith))
    ]

-- After at most one round more than the characters asked for, `tty_read` returns, or it waits on an
-- empty queue, or it goes round a queue that holds a part of a line, with no whole line and room for
-- more than 20 characters, until an interrupt changes something; the last two without a signal only.
pub tty_read-Ends :
    (t : Tty) (current : Task) (jiffies : ℤ) (nr : ℕ) → Ends (tty_read t current jiffies nr)
unfolding tty_read
tty_read-Ends t current jiffies nr =
    read_rounds-Ends (suc nr) nr _ _ current.alarm jiffies _ (omega arith)
