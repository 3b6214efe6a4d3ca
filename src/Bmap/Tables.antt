-- ===== src/Bmap/Tables.antt =====
-- What the loops of `free_ind` and `free_dind` free.
use linux.Prelude.{
  ℕ, zero, suc, ◌+◌, ◌%◌, ◌≤◌, ◌<◌, ◌≡◌, ◌≢◌, refl, sym, ap, ◌∙◌, subst, ◌⊎◌, false, ◌==◌, ltb,
  if◌then◌else◌, arith, Bool-cases, inl, inr,
}
use linux.Prelude.Outcome.{Outcome, ok, ◌>>=◌}
use linux.Disk.{Disk, hold, brelse, free_block}
use linux.Bmap.{Volume, entry, free_blocks, with_table, free_ind}
use linux.Bmap.Tree.{Place, IsPlace, block_at, child, IsTree}
use linux.Bmap.Rank.{rank}
use linux.Bmap.Clear.{Cleared, Clears, skip-Cleared, free_block-Clears}

pub Cleared-at :
    {v : Volume} {r r' : ℕ} {h : ℕ → ℕ} {d : Disk} → r ≡ r' → Cleared v r h d → Cleared v r' h d
Cleared-at {v} {h = h} {d = d} e c = subst (λ k. Cleared v k h d) e c

pub Clears-at :
    {v : Volume} {r r' : ℕ} {h : ℕ → ℕ} {o : Outcome Disk}
    → r ≡ r'
    → Clears v r h o
    → Clears v r' h o
Clears-at {v} {h = h} {o = o} e c = subst (λ k. Clears v k h o) e c

-- Nothing is there between two ranks.
pub skip_all :
    (v : Volume) (r r' : ℕ) (h : ℕ → ℕ) (d : Disk)
    → r ≤ r'
    → ((p : Place) → IsPlace p → r ≤ rank p → rank p < r' → block_at v p ≡ 0)
    → Cleared v r h d
    → Cleared v r' h d
skip_all v r r' h d l z c = record {
  gone = λ q hq u n. elim (Bool-cases (ltb (rank q) r)) [
    | inl e ↦ c.gone q hq (ground arith) n
    | inr e ↦ absurd (n (z q hq (ground arith) u))
  ];
  same = λ k f. c.same k (λ q hq u n. f q hq (omega arith) n);
  bytes = λ q hq u n. c.bytes q hq (omega arith) n;
  readable = c.readable;
  reads = c.reads;
  held = c.held;
  nzones = c.nzones;
  first = c.first;
}

abbrev pub held_too : ℕ → (ℕ → ℕ) → ℕ → ℕ
held_too t h c = if c == t then (h c + 1) % 256 else h c

pub hold-Cleared :
    (v : Volume) (r t : ℕ) (h : ℕ → ℕ) (d : Disk)
    → Cleared v r h d
    → Cleared v r (held_too t h) (hold t d)
hold-Cleared v r t h d c = record {
  gone = c.gone;
  same = c.same;
  bytes = c.bytes;
  readable = c.readable;
  reads = c.reads;
  held = λ k. let e = c.held k in rw e refl;
  nzones = c.nzones;
  first = c.first;
}

pub brelse-Cleared :
    (v : Volume) (r t : ℕ) (h : ℕ → ℕ) (d : Disk)
    → h t ≡ 0
    → Cleared v r (held_too t h) d
    → Cleared v r h (brelse t d)
brelse-Cleared v r t h d z c = record {
  gone = c.gone;
  same = c.same;
  bytes = c.bytes;
  readable = c.readable;
  reads = c.reads;
  held = λ k.
      let e = c.held k in
      elim (Bool-cases (k == t)) [
        | inl s ↦
            let y : t ≡ k = ground arith in let w : h k ≡ 0 = ap h (sym y) ∙ z in rw (e, s, w) refl
        | inr s ↦ rw (e, s) refl
      ];
  nzones = c.nzones;
  first = c.first;
}

-- One place
pub place-Clears :
    (v : Volume)
    → IsTree v
    → (p : Place) → IsPlace p
    → (h : ℕ → ℕ) (d : Disk) → Cleared v (rank p) h d
    → (block_at v p ≢ 0 → h (block_at v p) ≡ 0)
    → (b : ℕ) → b ≡ block_at v p
    → Clears v (rank p + 1) h (if b == 0 then ok d else free_block b d)
place-Clears v t p hp h d c hz b e = elim (Bool-cases (b == 0)) [
  | inl z ↦ rw z (record {
    after = d;
    ends = refl;
    cleared = skip-Cleared v t p hp h d c (let y : b ≡ 0 = ground arith in sym e ∙ y);
  })
  | inr z ↦
      let nz : block_at v p ≢ 0 = λ y. let w = e ∙ y in ground arith in
      rw z (
        subst (λ b. Clears v (rank p + 1) h (free_block b d)) (sym e)
          (free_block-Clears v t p hp h d c nz (hz nz)))
]

-- Two steps
pub then-Clears :
    (v : Volume) (r r' : ℕ) (h h' : ℕ → ℕ) (o : Outcome Disk) (f : Disk → Outcome Disk)
    → Clears v r h o
    → ((d : Disk) → Cleared v r h d → Clears v r' h' (f d))
    → Clears v r' h' (o >>= f)
then-Clears v r r' h h' o f a k =
    let b = k a.after a.cleared in
    record { after = b.after; ends = ap (λ q. q >>= f) a.ends ∙ b.ends; cleared = b.cleared }

-- The table at place `tp`, whose entries are freed from rank `r` on, and then itself
module _ (v : Volume) (t : IsTree v) (tp : Place) (htp : IsPlace tp) (r : ℕ) (sub : ℕ → Place)
    (places : (j : ℕ) → j < 512 → IsPlace (sub j)) (ranks : (j : ℕ) → rank (sub j) ≡ r + j)
    (last : rank tp ≡ r + 512)
    (is : (j : ℕ) → block_at v (sub j) ≡ child v.disk.bytes (block_at v tp) j) (h : ℕ → ℕ)
    (unheld : (j : ℕ) → j < 512 → block_at v (sub j) ≢ 0 → h (block_at v (sub j)) ≡ 0)
    (held : block_at v tp ≢ 0 → h (block_at v tp) ≡ 0) where
  apart_sub : (j : ℕ) → j < 512 → block_at v (sub j) ≢ 0 → block_at v (sub j) ≢ block_at v tp
  apart_sub j l n e =
      let w = ap rank (t.apart (sub j) tp (places j l) htp n e) in
      let q = ranks j in omega (arith, w, q, last, l)

  held_sub :
      (j : ℕ)
      → j < 512
      → block_at v (sub j) ≢ 0
      → held_too (block_at v tp) h (block_at v (sub j)) ≡ 0
  held_sub j l n =
      let a = apart_sub j l n in
      let z : (block_at v (sub j) == block_at v tp) ≡ false = ground arith in rw z (unheld j l n)

  free_blocks-Clears :
      (n i : ℕ) (d : Disk)
      → i + n ≤ 512
      → block_at v tp ≢ 0
      → Cleared v (r + i) (held_too (block_at v tp) h) d
      → Clears v (r + (i + n)) (held_too (block_at v tp) h) (free_blocks n (block_at v tp) i d)
  unfolding free_blocks
  free_blocks-Clears zero i d l nz c =
      let e : r + i ≡ r + (i + 0) = omega arith in
      record { after = d; ends = refl; cleared = Cleared-at e c }
  free_blocks-Clears (suc n) i d l nz c =
      let q = ranks i in
      let z : (block_at v tp == 0) ≡ false = ground arith in
      let cd : child v.disk.bytes (block_at v tp) i ≡ entry (v.disk.bytes (block_at v tp)) i =
        rw z refl in
      let e : entry (d.bytes (block_at v tp)) i ≡ block_at v (sub i) =
        ap (λ w. entry w i) (c.bytes tp htp (omega (arith, last)) nz) ∙ sym cd ∙ sym (is i) in
      let k : rank (sub i) + 1 ≡ r + (i + 1) = omega (arith, q) in
      let m : r + (i + 1 + n) ≡ r + (i + suc n) = omega arith in
      let hh = held_too (block_at v tp) h in
      Clears-at m (
        then-Clears v (r + (i + 1)) (r + (i + 1 + n)) hh hh _ _
          (Clears-at k (
            place-Clears v t (sub i) (places i (omega arith)) hh d (Cleared-at (sym q) c)
              (held_sub i (omega arith)) (entry (d.bytes (block_at v tp)) i) e))
          (λ d c. free_blocks-Clears n (i + 1) d (omega arith) nz c))

  table-Clears :
      (d : Disk)
      → block_at v tp ≢ 0
      → Cleared v r h d
      → Clears v (r + 512) h (with_table (free_blocks 512 (block_at v tp) 0) (block_at v tp) d)
  table-Clears d nz c =
      let rd = c.readable (block_at v tp) (t.zones tp htp nz) in
      let z : r ≡ r + 0 = omega arith in
      let a =
        free_blocks-Clears 512 0 (hold (block_at v tp) d) (omega arith) nz
          (Cleared-at z (hold-Cleared v r (block_at v tp) h d c)) in
      rw rd (record {
        after = brelse (block_at v tp) a.after;
        ends = ap (λ q. q >>= λ d₁. ok (brelse (block_at v tp) d₁)) a.ends;
        cleared = brelse-Cleared v _ (block_at v tp) h a.after (held nz) a.cleared;
      })

  -- Only the entries and the table lie between the ranks.
  none_between :
      ((p : Place) → IsPlace p → r ≤ rank p → rank p < r + 513 → (p ≡ tp) ⊎ ((j : ℕ) × (p ≡ sub j)))
      → block_at v tp ≡ 0
      → (p : Place) → IsPlace p
      → r ≤ rank p
      → rank p < r + 513
      → block_at v p ≡ 0
  none_between all z p hp l u = elim (all p hp l u) [
    | inl e ↦ ap (block_at v) e ∙ z
    | inr (j, e) ↦ ap (block_at v) e ∙ is j ∙ ap (λ t. child v.disk.bytes t j) z
  ]

  pub free_ind-Clears :
      ((p : Place) → IsPlace p → r ≤ rank p → rank p < r + 513 → (p ≡ tp) ⊎ ((j : ℕ) × (p ≡ sub j)))
      → (d : Disk) → Cleared v r h d
      → (b : ℕ) → b ≡ block_at v tp
      → Clears v (r + 513) h (free_ind b d)
  unfolding free_ind
  free_ind-Clears all d c b e =
      subst (λ b. Clears v (r + 513) h (free_ind b d)) (sym e)
        (elim (Bool-cases (block_at v tp == 0)) [
          | inl z ↦ rw z (record {
            after = d;
            ends = refl;
            cleared = skip_all v r (r + 513) h d (omega arith) (none_between all (ground arith)) c;
          })
          | inr z ↦
              let nz : block_at v tp ≢ 0 = λ y. ground arith in
              let k : rank tp + 1 ≡ r + 513 = omega (arith, last) in
              rw z (
                then-Clears v (r + 512) (r + 513) h h _ (free_block (block_at v tp))
                  (table-Clears d nz c)
                  (λ d c.
                    Clears-at k
                      (free_block-Clears v t tp htp h d (Cleared-at (sym last) c) nz (held nz))))
        ])
