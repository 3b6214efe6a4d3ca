-- ===== src/Tty/Counted.antt =====
-- The ends of lines in the secondary queue, and the field that counts them.
use linux.Prelude.{
  ℕ, zero, suc, ◌+◌, ◌%◌, ◌^◌, ◌≡◌, ◌∙◌, ap, sym, subst₂, refl, Option, none, some, Bool, true,
  false, ◌||◌, if◌then◌else◌, arith, Bool-cases, inl, inr,
}
use linux.Tty.{
  Tty, Queue, Termios, is_empty, is_full, last, first, put, drop_last, ends_line, is_end, chars,
  buf_size,
}
use linux.Tty.Cook.{
  Line, tty_intr, map_input, rub_out, delete_last, at_start, kill_line, echo_char, accept, with_tty,
  cook_signal, cook_char, cook_mapped, take_char, cook, copy_to_cooked, int_mask, quit_mask,
}
use linux.Tty.Ring.{
  one_if, passing-le, matches, IsRing, matches-put, put-IsRing, matches-drop_last, drop_last-IsRing,
  drop_last_count, put_count,
}

-- `secondary.data` is the number of ends of lines in the queue, by the settings of the terminal.
pub record Counts (m : Termios) (q : Queue) : Type 0 where
  pub ring : IsRing q
  pub counted : q.count ≡ matches (ends_line m) q

abbrev pub IsCounted : Tty → Type 0
IsCounted t = Counts t.termios t.secondary

rub_out_keeps :
    (write : Queue → Queue) (c : ℕ) (t : Tty)
    → ((rub_out write c t).termios ≡ t.termios) × ((rub_out write c t).secondary ≡ t.secondary)
unfolding rub_out
rub_out_keeps write c t = (ground arith, ground arith)

echo_char_keeps :
    (write : Queue → Queue) (c : ℕ) (t : Tty)
    → ((echo_char write c t).termios ≡ t.termios) × ((echo_char write c t).secondary ≡ t.secondary)
unfolding echo_char
echo_char_keeps write c t = (ground arith, ground arith)

-- A character that ends no line is taken back.
drop_last-Counts :
    (m : Termios) (q : Queue)
    → Counts m q
    → is_empty q ≡ false
    → ends_line m (last q) ≡ false
    → Counts m (drop_last q)
drop_last-Counts m q i e f =
    let r = i.ring in
    let d = matches-drop_last (ends_line m) q i.ring e in
    let z : one_if (ends_line m (last q)) ≡ 0 = rw f refl in
    record {
      ring = drop_last-IsRing q r;
      counted = drop_last_count q ∙ i.counted ∙ d ∙ omega arith;
    }

delete_last-IsCounted :
    (write : Queue → Queue) (t : Tty)
    → IsCounted t
    → at_start t ≡ false
    → IsCounted (delete_last write t)
delete_last-IsCounted write t i s =
    let (e, f) = rub_out_keeps write (last t.secondary) t in
    let w : is_empty t.secondary ≡ false = ground arith in
    let v : ends_line t.termios (last t.secondary) ≡ false = ground arith in
    subst₂ Counts (sym e) (ap drop_last (sym f)) (drop_last-Counts t.termios t.secondary i w v)

kill_line-IsCounted :
    (write : Queue → Queue) (fuel : ℕ) (t : Tty) → IsCounted t → IsCounted (kill_line write fuel t)
unfolding kill_line
kill_line-IsCounted write zero t i = i
kill_line-IsCounted write (suc fuel) t i = elim (Bool-cases (at_start t)) [
  | inl e ↦ rw e i
  | inr e ↦
      rw e
        (kill_line-IsCounted write fuel (delete_last write t) (delete_last-IsCounted write t i e))
]

-- A character is put, and counted if it ends a line.
put-Counts :
    (m : Termios) (c : ℕ) (q : Queue)
    → Counts m q
    → is_full q ≡ false
    → Counts m (put c (if ends_line m c then record q { count = (q.count + 1) % 2 ^ 32 } else q))
put-Counts m c q i f =
    let b = passing-le (ends_line m) (chars q) q.tail q.buf in
    elim (Bool-cases (ends_line m c)) [
      | inl e ↦
          let q' : Queue = record q { count = (q.count + 1) % 2 ^ 32 } in
          let r' : IsRing q' = record { head = i.ring.head; tail = i.ring.tail } in
          let p = matches-put (ends_line m) c q' r' f in
          let o : one_if (ends_line m c) ≡ 1 = rw e refl in
          let k = i.counted in
          rw e (record { ring = put-IsRing c q' r'; counted = put_count c q' ∙ omega arith })
      | inr e ↦
          let p = matches-put (ends_line m) c q i.ring f in
          let o : one_if (ends_line m c) ≡ 0 = rw e refl in
          rw e (record {
            ring = put-IsRing c q i.ring;
            counted = put_count c q ∙ i.counted ∙ omega arith;
          })
    ]

-- The end of a line is counted before the echo.
abbrev count_end : ℕ → Tty → Tty
count_end c t =
    if is_end t c
    then record t { secondary = record (t.secondary) { count = (t.secondary.count + 1) % 2 ^ 32 } }
    else t

count_end_keeps :
    (c : ℕ) (t : Tty)
    → ((count_end c t).termios ≡ t.termios)
      × ((count_end c t).secondary ≡ (
          if is_end t c
          then record (t.secondary) { count = (t.secondary.count + 1) % 2 ^ 32 }
          else t.secondary))
count_end_keeps c t = elim (Bool-cases (is_end t c)) [
  | inl e ↦ rw e (refl, refl)
  | inr e ↦ rw e (refl, refl)
]

accept-IsCounted :
    (write : Queue → Queue) (c : ℕ) (t : Tty)
    → IsCounted t
    → is_full t.secondary ≡ false
    → IsCounted (accept write c t)
unfolding accept
accept-IsCounted write c t i f =
    let (e₁, f₁) = echo_char_keeps write c (count_end c t) in
    let (e₂, f₂) = count_end_keeps c t in
    subst₂ Counts (sym (e₁ ∙ e₂)) (ap (put c) (sym (f₁ ∙ f₂)))
      (put-Counts t.termios c t.secondary i f)

pub record IsCountedLine (l : Line) : Type 0 where
  pub terminal : IsCounted l.tty

either-IsCountedLine :
    (b : Bool) (x y : Line) → IsCountedLine x → IsCountedLine y → IsCountedLine (if b then x else y)
either-IsCountedLine true x y h k = h
either-IsCountedLine false x y h k = k

with_tty-IsCounted : (l : Line) (t : Tty) → IsCounted t → IsCountedLine (with_tty l t)
with_tty-IsCounted l t i = record { terminal = i }

erase-IsCounted :
    (write : Queue → Queue) (l : Line)
    → IsCountedLine l
    → IsCountedLine (if at_start l.tty then l else with_tty l (delete_last write l.tty))
erase-IsCounted write l i = elim (Bool-cases (at_start l.tty)) [
  | inl e ↦ rw e i
  | inr e ↦ rw e (record { terminal = delete_last-IsCounted write l.tty i.terminal e })
]

tty_intr-IsCounted : (mask : ℕ) (l : Line) → IsCountedLine l → IsCountedLine (tty_intr mask l)
unfolding tty_intr
tty_intr-IsCounted mask l i = either-IsCountedLine _ _ l (record { terminal = i.terminal }) i

cook_char-IsCounted :
    (write : Queue → Queue) (c : ℕ) (l : Line)
    → IsCountedLine l
    → is_full l.tty.secondary ≡ false
    → IsCountedLine (cook_char write c l)
unfolding cook_char cook_signal
cook_char-IsCounted write c l i f =
    let either = either-IsCountedLine in
    let t = l.tty in
    let i' = i.terminal in
    let keep = with_tty-IsCounted l in
    either _ (with_tty l (kill_line write buf_size t)) _
      (keep (kill_line write buf_size t) (kill_line-IsCounted write buf_size t i'))
      (either _ (if at_start t then l else with_tty l (delete_last write t)) _
        (erase-IsCounted write l i)
        (either _ (with_tty l (record t { stopped = 1 })) _ (keep (record t { stopped = 1 }) i') (
          either _ (with_tty l (record t { stopped = 0 })) _ (keep (record t { stopped = 0 }) i') (
            either _ (tty_intr int_mask l) _ (tty_intr-IsCounted int_mask l i) (
              either _ (tty_intr quit_mask l) (with_tty l (accept write c t))
                (tty_intr-IsCounted quit_mask l i)
                (keep (accept write c t) (accept-IsCounted write c t i' f)))))))

cook_mapped-IsCounted :
    (write : Queue → Queue) (o : Option ℕ) (l : Line)
    → IsCountedLine l
    → is_full l.tty.secondary ≡ false
    → IsCountedLine (cook_mapped write o l)
cook_mapped-IsCounted write none l i f = i
cook_mapped-IsCounted write (some c) l i f = cook_char-IsCounted write c l i f

cook-IsCounted :
    (write : Queue → Queue) (fuel : ℕ) (l : Line)
    → IsCountedLine l
    → IsCountedLine (cook write fuel l)
unfolding cook
cook-IsCounted write zero l i = i
cook-IsCounted write (suc fuel) l i =
    elim (Bool-cases (is_empty l.tty.read_q || is_full l.tty.secondary)) [
      | inl e ↦ rw e i
      | inr e ↦
          let f : is_full l.tty.secondary ≡ false = ground arith in
          let o = map_input l.tty (first l.tty.read_q) in
          rw e (
            cook-IsCounted write fuel _
              (cook_mapped-IsCounted write o (take_char l) (record { terminal = i.terminal }) f))
    ]

pub copy_to_cooked-IsCounted :
    (write : Queue → Queue) (l : Line) → IsCountedLine l → IsCountedLine (copy_to_cooked write l)
unfolding copy_to_cooked
copy_to_cooked-IsCounted write l i = cook-IsCounted write (chars l.tty.read_q) l i
