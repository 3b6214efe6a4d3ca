-- ===== src/Pipe/Stream.antt =====
-- Readers and writers of one pipe, in any order.
use linux.Prelude.{ℕ, suc, ◌-◌, ◌≤◌, ◌≡◌, ap, ◌∙◌, sym, List, [], ◌∷◌, ◌++◌, length, take, arith}
use mathlib.Core.List.{append-nil, append_assoc}
use linux.Pipe.{
  Pipe, page_size, Progress, finished, sleeps, Written, wrote, broken, waits, read_pipe, write_pipe,
}
use linux.Pipe.Ring.{contents, IsValid, length-window}
use linux.Pipe.Read.{Reads, read_pipe-Reads}
use linux.Pipe.Write.{Writes, Stopped, write_pipe-Writes}

-- A pipe, the bytes that calls of `write_pipe` took so far, and those that `read_pipe` gave.
pub record Traffic : Type 0 where
  pub pipe : Pipe
  pub sent : List ℕ
  pub got : List ℕ

-- What runs next: a reader that wants so many bytes, or a writer of these, each up to its return
-- or to its next sleep; or an end is opened or closed.
pub data Call : Type 0 where
  reads : ℕ → Call
  writes : List ℕ → Call
  ends : ℕ → Call

after_read : Traffic → Progress → Traffic
after_read s (finished out p) = record s { pipe = p; got = s.got ++ out }
after_read s (sleeps out k p) = record s { pipe = p; got = s.got ++ out }
after_read s Progress.out_of_fuel = s

-- The bytes written are the first n.
after_write : Traffic → List ℕ → Written → Traffic
after_write s xs (wrote n p) = record s { pipe = p; sent = s.sent ++ take n xs }
after_write s xs (broken n p) = record s { pipe = p; sent = s.sent ++ take n xs }
after_write s xs (waits n rest p) = record s { pipe = p; sent = s.sent ++ take n xs }
after_write s xs Written.out_of_fuel = s

pub call : Call → Traffic → Traffic
unfolding after_read after_write
call (reads count) s = after_read s (read_pipe (suc count) s.pipe count [])
call (writes xs) s = after_write s xs (write_pipe (suc (length xs)) s.pipe xs 0)
call (ends n) s = record s { pipe = record (s.pipe) { i_count = n } }

pub calls : List Call → Traffic → Traffic
calls [] s = s
calls (c ∷ cs) s = calls cs (call c s)

-- Every byte sent was got, or waits in the pipe; in order.
pub record IsStream (s : Traffic) : Type 0 where
  pub valid : IsValid s.pipe
  pub flows : s.sent ≡ s.got ++ contents s.pipe

take_all : (xs : List ℕ) (n : ℕ) → n ≡ length xs → take n xs ≡ xs
take_all [] n e = let p : n ≡ 0 = omega arith in rw p
take_all (x ∷ xs) n e =
    let p : n ≡ suc (n - 1) = omega arith in
    rw p (ap (λ r. x ∷ r) (take_all xs (n - 1) (omega arith)))

take-append_left : (xs ys : List ℕ) (n : ℕ) → n ≡ length xs → take n (xs ++ ys) ≡ xs
take-append_left [] ys n e = let p : n ≡ 0 = omega arith in rw p
take-append_left (x ∷ xs) ys n e =
    let p : n ≡ suc (n - 1) = omega arith in
    rw p (ap (λ r. x ∷ r) (take-append_left xs ys (n - 1) (omega arith)))

after_read-IsStream :
    (s : Traffic) (count : ℕ) (r : Progress)
    → IsStream s
    → Reads s.pipe count [] r
    → IsStream (after_read s r)
unfolding after_read
after_read-IsStream s count (finished out p) i (bytes, o, c, d, v) = record {
  valid = v;
  flows =
      i.flows
      ∙ ap (λ l. s.got ++ l) c
      ∙ sym (append_assoc s.got bytes (contents p))
      ∙ ap (λ l. (s.got ++ l) ++ contents p) (sym o);
}
after_read-IsStream s count (sleeps out k p) i (bytes, o, c, z, pos, l, n, v) = record {
  valid = v;
  flows =
      i.flows
      ∙ ap (λ l. s.got ++ l) (c ∙ sym o)
      ∙ sym (append-nil (s.got ++ out))
      ∙ ap (λ l. (s.got ++ out) ++ l) (sym z);
}
after_read-IsStream s count Progress.out_of_fuel i h = absurd h

appended-IsStream :
    (s : Traffic) (p : Pipe) (bytes : List ℕ)
    → IsStream s
    → IsValid p
    → contents p ≡ contents s.pipe ++ bytes
    → IsStream (record s { pipe = p; sent = s.sent ++ bytes })
appended-IsStream s p bytes i v e = record {
  valid = v;
  flows =
      ap (λ l. l ++ bytes) i.flows
      ∙ append_assoc s.got (contents s.pipe) bytes
      ∙ ap (λ l. s.got ++ l) (sym e);
}

stop-IsStream :
    (s : Traffic) (xs : List ℕ) (n : ℕ) (rest : List ℕ) (p : Pipe)
    → IsStream s
    → Stopped s.pipe xs 0 n rest p
    → IsStream (record s { pipe = p; sent = s.sent ++ take n xs })
stop-IsStream s xs n rest p i t =
    let e : take n xs ≡ t.sent =
      ap (take n) t.splits ∙ take-append_left t.sent rest n (omega (arith, t.count)) in
    appended-IsStream s p (take n xs) i t.valid
      (t.appended ∙ ap (λ l. contents s.pipe ++ l) (sym e))

after_write-IsStream :
    (s : Traffic) (xs : List ℕ) (r : Written)
    → IsStream s
    → Writes s.pipe xs 0 r
    → IsStream (after_write s xs r)
unfolding after_write
after_write-IsStream s xs (wrote n p) i (e, c, v) =
    appended-IsStream s p (take n xs) i v
      (c ∙ ap (λ l. contents s.pipe ++ l) (sym (take_all xs n (omega arith))))
after_write-IsStream s xs (broken n p) i (rest, t, z) = stop-IsStream s xs n rest p i t
after_write-IsStream s xs (waits n rest p) i (t, z) = stop-IsStream s xs n rest p i t
after_write-IsStream s xs Written.out_of_fuel i h = absurd h

call-IsStream : (c : Call) (s : Traffic) → IsStream s → IsStream (call c s)
unfolding call
call-IsStream (reads count) s i =
    after_read-IsStream s count _ i
      (read_pipe-Reads (suc count) s.pipe count [] i.valid (omega arith))
call-IsStream (writes xs) s i =
    after_write-IsStream s xs _ i
      (write_pipe-Writes (suc (length xs)) s.pipe xs 0 i.valid (omega arith))
call-IsStream (ends n) s i = record {
  valid = record {
    full_page = i.valid.full_page;
    head_in = i.valid.head_in;
    tail_in = i.valid.tail_in;
  };
  flows = i.flows;
}

-- Any sequence of reads, writes, opened and closed ends keeps a stream one: if the bytes written so
-- far are those read so far followed by those in the pipe, then so they are after the sequence, and
-- the pipe never holds more than 4095 bytes.
pub calls-IsStream :
    (cs : List Call) (s : Traffic)
    → IsStream s
    → IsStream (calls cs s) × (length (contents (calls cs s).pipe) ≤ page_size - 1)
unfolding calls
calls-IsStream [] s i = (i, omega (arith, length-window s.pipe.buf s.pipe.tail))
calls-IsStream (c ∷ cs) s i = calls-IsStream cs (call c s) (call-IsStream c s i)
