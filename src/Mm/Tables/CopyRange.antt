-- ===== src/Mm/Tables/CopyRange.antt =====
-- The loop of `copy_page_tables` over the blocks of a range.
use linux.Prelude.{ℕ, zero, suc, ◌+◌, ◌/◌, ◌%◌, ◌≤◌, ◌<◌, ◌≡◌, ap, ◌∙◌, true, false, ◌==◌, arith}
use linux.Prelude.Outcome.{Outcome, ok, ◌>>=◌}
use linux.Mm.{Memory, is_present}
use linux.Mm.Alloc.{NoneFree}
use linux.Mm.Tables.{
  blocks, Copy, continues, fails, copy_next, copy_table, copy_tables, copy_page_tables,
}
use linux.Mm.Tables.Users.{IsCounted}
use linux.Mm.Tables.Copying.{
  FreeBelow, nothing, no_memory, added, EndsCopied, ends, copy_table-EndsCopied,
}
use linux.Mm.Tables.Sharing.{
  HasRoom, IsOutside, Extends, Extends-refl, Extends-cons, added-Extends, added-HasRoom,
  added-FreeBelow, head_room, next_room,
}
use linux.Mm.Tables.Whole.{IsSharing, AreApart, IsSharing-cons, nothing-IsSharing, added-IsSharing}

-- All is copied, or the frames run out on the way.
pub data RangeCopied (extra : ℕ → ℕ) (n d to : ℕ) (m : Memory) : Outcome Copy → Type 0 where
  all :
      (m' : Memory)
      → IsCounted extra m'
      → Extends n to m m'
      → IsSharing n d to m m'
      → RangeCopied extra n d to m (ok (continues m'))
  partly :
      (m' : Memory)
      → IsCounted extra m'
      → Extends n to m m'
      → NoneFree m'.mem_map
      → RangeCopied extra n d to m (ok (fails m'))

RangeCopied-cons :
    (extra : ℕ → ℕ) (n d to : ℕ) (m m₁ : Memory) (r : Outcome Copy)
    → 4 ≤ d
    → 4 ≤ to
    → d + suc n ≤ 1024
    → to + suc n ≤ 1024
    → AreApart (suc n) d to
    → Extends 1 to m m₁
    → IsSharing 1 d to m m₁
    → RangeCopied extra n (d + 1) (to + 1) m₁ r
    → RangeCopied extra (suc n) d to m r
RangeCopied-cons extra n d to m m₁ _ ld lt hd ht p x a (all m' c y b) =
    all m' c (Extends-cons n to m m₁ m' x y) (IsSharing-cons n d to m m₁ m' ld lt hd ht p x y a b)
RangeCopied-cons extra n d to m m₁ _ ld lt hd ht p x a (partly m' c y f) =
    partly m' c (Extends-cons n to m m₁ m' x y) f

-- What the loop needs of the memory
pub record IsReady (extra : ℕ → ℕ) (n d to : ℕ) (m : Memory) : Type 0 where
  pub clear : (j : ℕ) → to ≤ j → j < to + n → is_present (m.page 0 j) ≡ false
  pub counted : IsCounted extra m
  pub room : HasRoom n d m
  pub below : FreeBelow m

IsOutside-rest : (n d to : ℕ) → AreApart (suc n) d to → IsOutside to d (suc n)
IsOutside-rest n d to p = ground arith

copied_rest :
    (extra : ℕ → ℕ) (n d to : ℕ) (m : Memory) (r : Outcome Copy)
    → 4 ≤ d
    → 4 ≤ to
    → d + suc n ≤ 1024
    → to + suc n ≤ 1024
    → AreApart (suc n) d to
    → IsReady extra (suc n) d to m
    → EndsCopied extra d to m r
    → ((m₁ : Memory)
        → IsReady extra n (d + 1) (to + 1) m₁
        → RangeCopied extra n (d + 1) (to + 1) m₁ (copy_tables n 1024 (d + 1) (to + 1) m₁))
    → RangeCopied extra
        (suc n)
        d
        to
        m
        (r >>= λ x. copy_next x (copy_tables n 1024 (d + 1) (to + 1)))
copied_rest extra n d to m _ ld lt hd ht p i (ends (nothing a)) more =
    RangeCopied-cons extra n d to m m _ ld lt hd ht p (Extends-refl 1 to m)
      (nothing-IsSharing d to m a (i.clear to (omega arith) (omega arith)))
      (more m (record {
        clear = λ j l u. i.clear j (omega arith) (omega arith);
        counted = i.counted;
        room = next_room d n m i.room;
        below = i.below;
      }))
copied_rest extra n d to m _ ld lt hd ht p i (ends (no_memory f)) more =
    partly m i.counted (Extends-refl (suc n) to m) f
copied_rest extra n d to m _ ld lt hd ht p i (ends (added k m₁ q z a c₁)) more =
    let x = added-Extends extra d to k m m₁ i.counted z a in
    RangeCopied-cons extra n d to m m₁ _ ld lt hd ht p x (added-IsSharing d to k m m₁ q a) (
      more m₁ (record {
        clear = λ j l u.
            ap is_present (a.directory j (λ e. omega arith))
            ∙ i.clear j (omega arith) (omega arith);
        counted = c₁;
        room =
            added-HasRoom extra d to k n m m₁ ld hd (IsOutside-rest n d to p) q i.counted z a
              i.room;
        below = added-FreeBelow d to k m m₁ a i.below;
      }))

copy_tables-RangeCopied :
    (extra : ℕ → ℕ) (n d to : ℕ) (m : Memory)
    → 4 ≤ d
    → 4 ≤ to
    → d + n ≤ 1024
    → to + n ≤ 1024
    → AreApart n d to
    → IsReady extra n d to m
    → RangeCopied extra n d to m (copy_tables n 1024 d to m)
unfolding copy_tables
copy_tables-RangeCopied extra zero d to m ld lt hd ht p i =
    all m i.counted (Extends-refl 0 to m) (record {
      present = λ s t l u. absurd (omega arith);
      entries = λ s t q l u. absurd (omega arith);
    })
copy_tables-RangeCopied extra (suc n) d to m ld lt hd ht p i =
    copied_rest extra n d to m (copy_table 1024 d to m) ld lt hd ht p i
      (copy_table-EndsCopied extra d to m (omega arith) (omega arith)
        (i.clear to (omega arith) (omega arith)) i.counted (head_room d n m i.room) i.below)
      (λ m₁ i₁.
        copy_tables-RangeCopied extra n (d + 1) (to + 1) m₁ (omega arith) (omega arith)
          (omega arith) (omega arith) (ground arith) i₁)

-- `copy_page_tables` of a range to another one, both at 4 MB boundaries from 16 MB on, behind the
-- kernel's own blocks, and in the directory, where the new range is clear, each frame has as users
-- the entries of the blocks from 16 MB on that point to it and some others, none gets more than 255, and the free frames lie below the end of memory. It
-- ends: with the new range showing the same frames as the old one in the same words, or with no
-- frame free. In both cases each frame has the entries that point to it now and the same others
-- as users, and all other blocks of processes keep their entries of the directory and show the same frames as before.
pub copy_page_tables-RangeCopied :
    (extra : ℕ → ℕ) (from to size : ℕ) (m : Memory)
    → from % 0x400000 ≡ 0
    → to % 0x400000 ≡ 0
    → 0x1000000 ≤ from
    → 0x1000000 ≤ to
    → from / 0x400000 + blocks size ≤ 1024
    → to / 0x400000 + blocks size ≤ 1024
    → AreApart (blocks size) (from / 0x400000) (to / 0x400000)
    → IsReady extra (blocks size) (from / 0x400000) (to / 0x400000) m
    → RangeCopied extra
        (blocks size)
        (from / 0x400000)
        (to / 0x400000)
        m
        (copy_page_tables from to size m)
unfolding copy_page_tables
copy_page_tables-RangeCopied extra from to size m af at nz nt hd ht p i =
    let a : (from % 0x400000 == 0) ≡ true = ground arith in
    let b : (to % 0x400000 == 0) ≡ true = ground arith in
    let z : (from == 0) ≡ false = ground arith in
    rw (a, b, z)
      (copy_tables-RangeCopied extra (blocks size) (from / 0x400000) (to / 0x400000) m (omega arith)
        (omega arith) hd ht p i)
