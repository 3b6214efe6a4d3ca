-- ===== src/Mm/Tables/Range.antt =====
-- The users after `free_page_tables`.
use linux.Prelude.{
  ℕ, zero, suc, ◌+◌, ◌/◌, ◌%◌, ◌≤◌, ◌<◌, ◌≡◌, refl, ap, ◌∙◌, true, false, ◌==◌, arith, Bool-cases,
  inl, inr,
}
use linux.Prelude.Outcome.{Outcome, ok, ◌>>=◌}
use linux.Mm.{Memory, is_present}
use linux.Mm.Tables.{free_table, free_tables, blocks, free_page_tables}
use linux.Mm.Tables.Users.{IsCounted}
use linux.Mm.Tables.Release.{Releases, free_table-Releases}

-- `n` blocks from block `d` on are gone, and the frames are counted as before.
pub record FreesRange (extra : ℕ → ℕ) (d n : ℕ) (m : Memory) (r : Outcome Memory) : Type 0 where
  pub after : Memory
  pub ends : r ≡ ok after
  pub counted : IsCounted extra after
  pub cleared : (k : ℕ) → d ≤ k → k < d + n → is_present (after.page 0 k) ≡ false
  pub before : (k : ℕ) → k < d → after.page 0 k ≡ m.page 0 k
  pub behind : (k : ℕ) → d + n ≤ k → after.page 0 k ≡ m.page 0 k

FreesRange-cons :
    (extra : ℕ → ℕ) (d n : ℕ) (m : Memory) (r : Outcome Memory) (a : Releases extra d m r)
    → FreesRange extra (d + 1) n a.after (free_tables n (d + 1) a.after)
    → FreesRange extra d (suc n) m (r >>= λ m₁. free_tables n (d + 1) m₁)
FreesRange-cons extra d n m r a s = record {
  after = s.after;
  ends = ap (λ q. q >>= λ m₁. free_tables n (d + 1) m₁) a.ends ∙ s.ends;
  counted = s.counted;
  cleared = λ k l u. elim (Bool-cases (d == k)) [
    | inl e ↦
        let z : k ≡ d = ground arith in
        ap (λ j. is_present (s.after.page 0 j)) z
        ∙ ap is_present (s.before d (omega arith))
        ∙ a.cleared
    | inr e ↦ s.cleared k (ground arith) (omega arith)
  ];
  before = λ k l. s.before k (omega arith) ∙ a.directory k (λ e. omega arith);
  behind = λ k l. s.behind k (omega arith) ∙ a.directory k (λ e. omega arith);
}

free_tables-FreesRange :
    (extra : ℕ → ℕ) (n d : ℕ) (m : Memory)
    → 4 ≤ d
    → d + n ≤ 1024
    → IsCounted extra m
    → FreesRange extra d n m (free_tables n d m)
unfolding free_tables
free_tables-FreesRange extra zero d m lo h c = record {
  after = m;
  ends = refl;
  counted = c;
  cleared = λ k l u. absurd (omega arith);
  before = λ k l. refl;
  behind = λ k l. refl;
}
free_tables-FreesRange extra (suc n) d m lo h c =
    let a = free_table-Releases extra d m (omega arith) c in
    FreesRange-cons extra d n m (free_table d m) a
      (free_tables-FreesRange extra n (d + 1) a.after (omega arith) (omega arith) a.counted)

-- `free_page_tables` of a range that starts at a 4 MB boundary from 16 MB on, behind the kernel's own
-- blocks, and lies in the directory, where each frame has as users the entries of the blocks from
-- 16 MB on that point to it and some others: it ends, with the blocks of the range gone, the rest of
-- the directory as before, and each frame with the users that still point to it and the same others.
pub free_page_tables-FreesRange :
    (extra : ℕ → ℕ) (from size : ℕ) (m : Memory)
    → from % 0x400000 ≡ 0
    → 0x1000000 ≤ from
    → from / 0x400000 + blocks size ≤ 1024
    → IsCounted extra m
    → FreesRange extra (from / 0x400000) (blocks size) m (free_page_tables from size m)
unfolding free_page_tables
free_page_tables-FreesRange extra from size m al nz h c =
    let a : (from % 0x400000 == 0) ≡ true = ground arith in
    let b : (from == 0) ≡ false = ground arith in
    rw (a, b) (free_tables-FreesRange extra (blocks size) (from / 0x400000) m (omega arith) h c)
