-- ===== src/Tty/Ring.antt =====
-- The characters of a queue that pass a test, counted.
use linux.Prelude.{
  ℕ, zero, suc, ◌+◌, ◌-◌, ◌%◌, ◌≤◌, ◌<◌, ◌≡◌, ◌∙◌, ap, sym, refl, Bool, false, ◌==◌, if◌then◌else◌,
  arith,
}
use linux.Tty.{Queue, is_empty, is_full, chars, last, first, drop_first, put, drop_last}

abbrev pub one_if : Bool → ℕ
one_if b = if b then 1 else 0

-- Of the n characters from the place i on
unfoldable pub passing : (ℕ → Bool) → ℕ → ℕ → (ℕ → ℕ) → ℕ
passing p zero i buf = 0
passing p (suc n) i buf = one_if (p (buf i)) + passing p n ((i + 1) % 1024) buf

abbrev pub matches : (ℕ → Bool) → Queue → ℕ
matches p q = passing p (chars q) q.tail q.buf

-- The indices are places of the ring.
pub record IsRing (q : Queue) : Type 0 where
  pub head : q.head < 1024
  pub tail : q.tail < 1024

passing_snoc :
    (p : ℕ → Bool) (n i : ℕ) (buf : ℕ → ℕ)
    → i < 1024
    → passing p (suc n) i buf ≡ passing p n i buf + one_if (p (buf ((i + n) % 1024)))
unfolding passing
passing_snoc p zero i buf h = let e : (i + zero) % 1024 ≡ i = omega arith in rw e (omega arith)
passing_snoc p (suc n) i buf h =
    let ih = passing_snoc p n ((i + 1) % 1024) buf (omega arith) in
    let e : ((i + 1) % 1024 + n) % 1024 ≡ (i + suc n) % 1024 = omega arith in
    let q = ap (λ (k : ℕ). one_if (p (buf k))) e in omega arith

-- A place that is not among the n from i on
passing-put :
    (p : ℕ → Bool) (n m i c : ℕ) (buf : ℕ → ℕ)
    → i < 1024
    → n ≤ m
    → m < 1024
    → passing p n i (λ j. if j == (i + m) % 1024 then c else buf j) ≡ passing p n i buf
unfolding passing
passing-put p zero m i c buf h k l = refl
passing-put p (suc n) zero i c buf h k l = absurd (omega arith)
passing-put p (suc n) (suc m) i c buf h k l =
    let ih = passing-put p n m ((i + 1) % 1024) c buf (omega arith) (omega arith) (omega arith) in
    let e : ((i + 1) % 1024 + m) % 1024 ≡ (i + suc m) % 1024 = omega arith in
    let f : (i == (i + suc m) % 1024) ≡ false = ground arith in
    rw f (
      ap (λ (k : ℕ). one_if (p (buf i)) + k)
        (ap (λ (k : ℕ). passing p n ((i + 1) % 1024) (λ j. if j == k then c else buf j))
            (omega arith)
          ∙ ih))

-- What a character put, or taken out at either end, adds or takes.
pub matches-put :
    (p : ℕ → Bool) (c : ℕ) (q : Queue)
    → IsRing q
    → is_full q ≡ false
    → matches p (put c q) ≡ matches p q + one_if (p c)
unfolding put
matches-put p c q r f =
    let n : (chars (put c q)) ≡ suc (chars q) = ground arith in
    let m = chars q in
    let h : (q.tail + m) % 1024 ≡ q.head = ground arith in
    let buf' : ℕ → ℕ = λ i. if i == q.head then c else q.buf i in
    let new : buf' ((q.tail + m) % 1024) ≡ c = rw h (ground arith) in
    let old : passing p m q.tail buf' ≡ passing p m q.tail q.buf =
      ap (λ (k : ℕ). passing p m q.tail (λ i. if i == k then c else q.buf i)) (sym h)
      ∙ passing-put p m m q.tail c q.buf r.tail (omega arith) (omega arith) in
    let s = passing_snoc p m q.tail buf' r.tail in
    let w = ap (λ (k : ℕ). one_if (p k)) new in
    ap (λ (k : ℕ). passing p k q.tail buf') n ∙ omega arith

pub put-IsRing : (c : ℕ) (q : Queue) → IsRing q → IsRing (put c q)
unfolding put
put-IsRing c q r = record { head = omega arith; tail = r.tail }

pub matches-drop_first :
    (p : ℕ → Bool) (q : Queue)
    → IsRing q
    → is_empty q ≡ false
    → matches p q ≡ one_if (p (first q)) + matches p (drop_first q)
unfolding passing
matches-drop_first p q r f =
    let n : chars q ≡ suc (chars (drop_first q)) = ground arith in rw n refl

pub matches-drop_last :
    (p : ℕ → Bool) (q : Queue)
    → IsRing q
    → is_empty q ≡ false
    → matches p q ≡ matches p (drop_last q) + one_if (p (last q))
unfolding drop_last
matches-drop_last p q r f =
    let n : chars q ≡ suc (chars (drop_last q)) = ground arith in
    let e : (q.tail + chars (drop_last q)) % 1024 ≡ (q.head + 1024 - 1) % 1024 = ground arith in
    rw n (
      passing_snoc p (chars (drop_last q)) q.tail q.buf r.tail
      ∙ ap (λ (k : ℕ). passing p (chars (drop_last q)) q.tail q.buf + one_if (p (q.buf k))) e)

pub drop_last-IsRing : (q : Queue) → IsRing q → IsRing (drop_last q)
unfolding drop_last
drop_last-IsRing q r = record { head = omega arith; tail = r.tail }

pub drop_last_count : (q : Queue) → (drop_last q).count ≡ q.count
unfolding drop_last
drop_last_count q = refl

pub put_count : (c : ℕ) (q : Queue) → (put c q).count ≡ q.count
unfolding put
put_count c q = refl

pub passing-le : (p : ℕ → Bool) (n i : ℕ) (buf : ℕ → ℕ) → passing p n i buf ≤ n
unfolding passing
passing-le p zero i buf = omega arith
passing-le p (suc n) i buf = let ih = passing-le p n ((i + 1) % 1024) buf in ground arith
