-- ===== src/Pipe/Read.antt =====
-- `read_pipe`: its rounds, and where it ends.
use linux.Prelude.{
  ℕ, zero, suc, ◌+◌, ◌-◌, ◌<◌, ◌≡◌, ◌≢◌, refl, ap, ◌∙◌, sym, ◌⊎◌, inl, inr, List, [], ◌++◌, ◌==◌,
  length, Bool-cases, length-append, arith,
}
use mathlib.Core.List.{append-nil, append_assoc}
use linux.Pipe.{Pipe, pipe_size, Progress, finished, sleeps, out_of_fuel, read_chunk, read_pipe}
use linux.Pipe.Ring.{contents, IsValid, IsChunk, read_chunk-IsChunk}

-- How a read of at most `count` bytes ends, `done` having been handed over before. The bytes that
-- it hands over are the first that the pipe holds. It returns with all it wants, or with the pipe
-- empty and no writer left; it sleeps, wanting the rest, on an empty pipe that has both ends.
abbrev pub Reads : Pipe → ℕ → List ℕ → Progress → Type 0
Reads p count done (finished out p') =
    (bytes : List ℕ) × (out ≡ done ++ bytes)
    × (contents p ≡ bytes ++ contents p')
    × ((length bytes ≡ count) ⊎ ((length bytes < count) × (contents p' ≡ []) × (p'.i_count ≢ 2)))
    × IsValid p'
Reads p count done (sleeps out k p') =
    (bytes : List ℕ) × (out ≡ done ++ bytes)
    × (contents p ≡ bytes)
    × (contents p' ≡ [])
    × (0 < k)
    × (k + length bytes ≡ count)
    × (p'.i_count ≡ 2)
    × IsValid p'
Reads p count done out_of_fuel = ⊥

contents_empty : (p : Pipe) → pipe_size p ≡ 0 → contents p ≡ []
contents_empty p e = rw e

Reads-chunk :
    (p p' : Pipe) (count k : ℕ) (done bytes : List ℕ) (r : Progress)
    → IsChunk count p bytes p'
    → k ≡ count - length bytes
    → Reads p' k (done ++ bytes) r
    → Reads p count done r
Reads-chunk p p' count k done bytes (finished out q) c e (more, o, s, d, v) = (
  bytes ++ more,
  o ∙ append_assoc done bytes more,
  c.taken ∙ ap (λ l. bytes ++ l) s ∙ sym (append_assoc bytes more (contents q)),
  elim d [
    | inl l ↦ inl (omega (arith, length-append bytes more, c.enough))
    | inr (l, z, n) ↦ inr (omega (arith, length-append bytes more, c.enough), z, n)
  ],
  v,
)
Reads-chunk p p' count k done bytes (sleeps out j q) c e (more, o, s, z, pos, l, i, v) = (
  bytes ++ more,
  o ∙ append_assoc done bytes more,
  c.taken ∙ ap (λ l. bytes ++ l) s,
  z,
  pos,
  omega (arith, length-append bytes more, c.enough),
  i,
  v,
)
Reads-chunk p p' count k done bytes out_of_fuel c e h = h

-- `read_pipe` on a pipe with its indices in the page, with more fuel than the bytes wanted, ends,
-- and hands over the oldest bytes of the pipe in order: as many as wanted, or all of them.
pub read_pipe-Reads :
    (fuel : ℕ) (p : Pipe) (count : ℕ) (done : List ℕ)
    → IsValid p
    → count < fuel
    → Reads p count done (read_pipe fuel p count done)
unfolding read_pipe
read_pipe-Reads zero p count done v h = absurd (omega arith)
read_pipe-Reads (suc fuel) p count done v h = elim (Bool-cases (count == 0)) [
  | inl z ↦ rw z ([], sym (append-nil done), refl, inl (ground arith), v)
  | inr nz ↦ elim (Bool-cases (pipe_size p == 0)) [
    | inr some_left ↦
        let c = read_chunk-IsChunk count p v (ground arith) (ground arith) in
        let (bytes, p') = read_chunk count p in
        rw (nz, some_left)
          (Reads-chunk p p' count (count - length bytes) done bytes _ c refl (
            read_pipe-Reads fuel p' (count - length bytes) (done ++ bytes) c.valid
              (omega (arith, c.some_bytes))))
    | inl empty ↦
        let none_left = contents_empty p (ground arith) in
        elim (Bool-cases (p.i_count == 2)) [
          | inl both ↦
              rw (nz, empty, both)
                (
                  [],
                  sym (append-nil done),
                  none_left,
                  none_left,
                  ground arith,
                  omega arith,
                  ground arith,
                  v,
                )
          | inr gone ↦
              rw (nz, empty, gone)
                (
                  [],
                  sym (append-nil done),
                  refl,
                  inr (ground arith, none_left, λ e. ground arith),
                  v,
                )
        ]
  ]
]
