-- ===== src/Pipe/Write.antt =====
-- `write_pipe`: its rounds, and where it ends.
use linux.Prelude.{
  ℕ, zero, suc, ◌+◌, ◌-◌, ◌<◌, ◌≡◌, ◌≢◌, refl, ap, ◌∙◌, sym, inl, inr, List, [], ◌∷◌, ◌++◌, ◌==◌,
  length, take, drop, Bool-cases, length-append, take-append-drop, length-take, length-drop, arith,
}
use mathlib.Core.List.{append-nil, append_assoc}
use linux.Pipe.{
  Pipe, page_size, pipe_size, pipe_room, Written, wrote, broken, waits, out_of_fuel, write_chunk,
  write_pipe,
}
use linux.Pipe.Ring.{contents, IsValid, IsAppended, write_chunk-IsAppended, length-window}

-- The pipe was full, and only the bytes before `rest` were appended.
pub record Stopped (p : Pipe) (xs : List ℕ) (before n : ℕ) (rest : List ℕ) (p' : Pipe)
    : Type 0 where
  pub sent : List ℕ
  pub splits : xs ≡ sent ++ rest
  pub not_all : 0 < length rest
  pub count : n ≡ before + length sent
  pub appended : contents p' ≡ contents p ++ sent
  pub is_full : length (contents p') ≡ page_size - 1
  pub valid : IsValid p'

-- How a write of `xs` ends, `before` bytes having been written already: with all of them appended;
-- with SIGPIPE on a full pipe without a reader; or asleep on a full pipe that has both ends.
abbrev pub Writes : Pipe → List ℕ → ℕ → Written → Type 0
Writes p xs before (wrote n p') =
    (n ≡ before + length xs) × (contents p' ≡ contents p ++ xs) × IsValid p'
Writes p xs before (broken n p') =
    (rest : List ℕ) × Stopped p xs before n rest p' × (p'.i_count ≢ 2)
Writes p xs before (waits n rest p') = Stopped p xs before n rest p' × (p'.i_count ≡ 2)
Writes p xs before out_of_fuel = ⊥

Stopped-chunk :
    {p p' q : Pipe} {before m n : ℕ} (xs : List ℕ) {rest : List ℕ}
    → IsAppended xs p m p'
    → Stopped p' (drop m xs) (before + m) n rest q
    → Stopped p xs before n rest q
Stopped-chunk {p} {m} xs {rest} a s =
    let l : length (take m xs) ≡ m = length-take m xs ∙ omega (arith, a.enough) in
    record {
      sent = take m xs ++ s.sent;
      splits =
          sym (take-append-drop m xs)
          ∙ ap (λ r. take m xs ++ r) s.splits
          ∙ sym (append_assoc (take m xs) s.sent rest);
      not_all = s.not_all;
      count = omega (arith, s.count, length-append (take m xs) s.sent, l);
      appended =
          s.appended
          ∙ ap (λ r. r ++ s.sent) a.appended
          ∙ append_assoc (contents p) (take m xs) s.sent;
      is_full = s.is_full;
      valid = s.valid;
    }

Writes-chunk :
    (p p' : Pipe) (xs : List ℕ) (before m : ℕ) (r : Written)
    → IsAppended xs p m p'
    → Writes p' (drop m xs) (before + m) r
    → Writes p xs before r
Writes-chunk p p' xs before m (wrote n q) a (e, c, v) = (
  omega (arith, e, length-drop m xs, a.enough),
  c
      ∙ ap (λ l. l ++ drop m xs) a.appended
      ∙ append_assoc (contents p) (take m xs) (drop m xs)
      ∙ ap (λ l. contents p ++ l) (take-append-drop m xs),
  v,
)
Writes-chunk p p' xs before m (broken n q) a (rest, s, i) = (rest, Stopped-chunk xs a s, i)
Writes-chunk p p' xs before m (waits n rest q) a (s, i) = (Stopped-chunk xs a s, i)
Writes-chunk p p' xs before m out_of_fuel a h = h

Stopped-full :
    (p : Pipe) (xs : List ℕ) (before : ℕ)
    → IsValid p
    → 0 < length xs
    → pipe_room p ≡ 0
    → Stopped p xs before before xs p
Stopped-full p xs before v h f = record {
  sent = [];
  splits = refl;
  not_all = h;
  count = omega arith;
  appended = sym (append-nil (contents p));
  is_full = length-window p.buf p.tail (pipe_size p) ∙ omega arith;
  valid = v;
}

nil_of_length : (xs : List ℕ) → length xs ≡ 0 → xs ≡ []
nil_of_length [] e = refl
nil_of_length (x ∷ xs) e = absurd (omega arith)

-- `write_pipe` on a pipe with its indices in the page, with more fuel than there are bytes, ends
-- with the bytes appended in order behind those that the pipe holds: all of them, or as many as
-- fit with 4095 in the pipe; then it sleeps if the pipe has both ends, and else raises SIGPIPE.
pub write_pipe-Writes :
    (fuel : ℕ) (p : Pipe) (xs : List ℕ) (before : ℕ)
    → IsValid p
    → length xs < fuel
    → Writes p xs before (write_pipe fuel p xs before)
unfolding write_pipe
write_pipe-Writes zero p xs before v h = absurd (omega arith)
write_pipe-Writes (suc fuel) p xs before v h = elim (Bool-cases (length xs == 0)) [
  | inl z ↦ rw z (
      let e = nil_of_length xs (ground arith) in
      (
        omega (arith, ap length e),
        sym (append-nil (contents p)) ∙ ap (λ l. contents p ++ l) (sym e),
        v,
      ))
  | inr nz ↦ elim (Bool-cases (pipe_room p == 0)) [
    | inr room ↦
        let a = write_chunk-IsAppended xs p v (ground arith) (ground arith) in
        let (m, p') = write_chunk xs p in
        rw (nz, room)
          (Writes-chunk p p' xs before m _ a (
            write_pipe-Writes fuel p' (drop m xs) (before + m) a.valid
              (omega (arith, a.some_bytes, a.enough, length-drop m xs))))
    | inl full ↦ elim (Bool-cases (p.i_count == 2)) [
      | inl both ↦
          rw (nz, full, both)
            (Stopped-full p xs before v (ground arith) (ground arith), ground arith)
      | inr gone ↦
          rw (nz, full, gone)
            (xs, Stopped-full p xs before v (ground arith) (ground arith), λ e. ground arith)
    ]
  ]
]
