-- ===== src/Mm/Tables/Tests.antt =====
-- A process with one block of which one page is shared, and the theorem there.
use linux.Prelude.{
  ℕ, zero, suc, ◌*◌, ◌-◌, ltb, subst, sym, ap, ◌∙◌, ◌+◌, ◌≡◌, refl, List, [], ◌∷◌, ◌&&◌, ◌==◌,
  if◌then◌else◌, true, false, arith, ◌≤◌, inl,
}
use linux.Prelude.Outcome.{Outcome, ok}
use linux.Mm.{Memory, low_mem, is_present, frame, free_page, get_free_page, take_page, last_free}
use linux.Mm.Tables.{
  free_entry, free_entries, free_table, free_tables, free_page_tables, Copy, continues,
  copy_page_tables, copy_tables, copy_table, fill_table, copy_entries, copy_entry, read_only,
}
use linux.Mm.Tables.Users.{
  users, points, sum, sum_changed, refs, block, table_refs, total, IsBelow, IsCounted,
}
use linux.Mm.Tables.Sharing.{HasRoom}
use linux.Mm.Tables.CopyRange.{IsReady, RangeCopied, copy_page_tables-RangeCopied}
use linux.Mm.Tables.Range.{FreesRange, free_page_tables-FreesRange}

-- The first four blocks are the kernel's, with tables in the frames 1 to 4 that show all memory. Block
-- 16 has its table in the first managed frame, which shows the second in its word 3. The second has
-- one more user, and so has the third.
abbrev process : Memory
process = record {
  mem_map = 1 ∷ 2 ∷ 1 ∷ 0 ∷ [];
  high_memory = low_mem + 4 * 4096;
  page = λ f o.
      if (f == 0) && (o == 16)
      then low_mem + 7
      else if (f == 256) && (o == 3)
      then low_mem + 4096 + 5
      else if (f == 0) && ltb o 4
      then (o + 1) * 4096 + 7
      else if ltb 0 f && ltb f 5
      then ((f - 1) * 1024 + o) * 4096 + 7
      else 0;
}

map_after : Outcome Memory → List ℕ
map_after (ok m) = m.mem_map
map_after r = []

freed : map_after (free_page_tables (16 * 0x400000) 0x400000 process) ≡ 0 ∷ 1 ∷ 1 ∷ 0 ∷ []
unfolding map_after free_page_tables free_tables free_table free_entries free_entry free_page
freed = refl

abbrev others : ℕ → ℕ
others zero = 0
others (suc zero) = 1
others (suc (suc zero)) = 1
others (suc (suc (suc i))) = 0

sum_zero : (s n : ℕ) → sum (λ k. 0) s n ≡ 0
unfolding sum
sum_zero s zero = refl
sum_zero s (suc n) = let z = sum_zero (s + 1) n in omega (arith, z)

-- Only word 3 of the table points to a frame.
refs-table : (i : ℕ) → refs (process.page 256) 0 1024 i ≡ (if 1 == i then 1 else 0)
refs-table i =
    let s =
      sum_changed (λ p. points (process.page 256 p) i) (λ k. 0) 3 0 1024
        (λ k l u ne. let z : (k == 3) ≡ false = ground arith in rw z refl) (omega arith)
        (omega arith) in
    let z = sum_zero 0 1024 in
    let e : points (low_mem + 4096 + 5) i ≡ (if 1 == i then 1 else 0) = refl in
    omega (arith, s, z, e)

total-process : (i : ℕ) → total process i ≡ (if 0 == i then 1 else 0) + (if 1 == i then 1 else 0)
total-process i =
    let s =
      sum_changed (λ k. block process k i) (λ k. 0) 16 4 1020
        (λ k l u ne.
          let z : (k == 16) ≡ false = ground arith in
          let b : ltb k 4 ≡ false = ground arith in rw (z, b) refl)
        (omega arith) (omega arith) in
    let z = sum_zero 4 1020 in
    let t = refs-table i in
    let e : block process 16 i ≡ (if 0 == i then 1 else 0) + refs (process.page 256) 0 1024 i =
      refl in
    omega (arith, s, z, t, e)

users-process :
    (i : ℕ) → users process i ≡ others i + ((if 0 == i then 1 else 0) + (if 1 == i then 1 else 0))
users-process zero = refl
users-process (suc zero) = refl
users-process (suc (suc zero)) = refl
users-process (suc (suc (suc zero))) = refl
users-process (suc (suc (suc (suc i)))) = ground arith

-- Only block 16 is there for processes.
block_16 : (d : ℕ) → 4 ≤ d → is_present (process.page 0 d) ≡ true → d ≡ 16
block_16 d l p = let b : ltb d 4 ≡ false = ground arith in ground arith

entry-IsBelow : (d : ℕ) → 4 ≤ d → IsBelow process (process.page 0 d)
entry-IsBelow d l p = let b : ltb d 4 ≡ false = ground arith in ground arith

word-IsBelow : (o : ℕ) → IsBelow process (process.page 256 o)
word-IsBelow o p = ground arith

process-IsCounted : IsCounted others process
process-IsCounted = record {
  counted = λ i. users-process i ∙ ap (λ t. others i + t) (sym (total-process i));
  mapped = omega arith;
  tables = λ d l. entry-IsBelow d (omega arith);
  pages = λ d o l p ol.
      subst (λ k. IsBelow process (process.page (frame (process.page 0 k)) o))
        (sym (block_16 d (omega arith) p)) (word-IsBelow o);
  apart = λ d e dl el ne p q.
      absurd (ne (block_16 d (omega arith) p ∙ sym (block_16 e (omega arith) q)));
  off_directory = λ d l p e.
      let z : process.page 0 16 ≡ low_mem + 7 = refl in
      let w : frame (process.page 0 16) ≡ 0 =
        ap (λ k. frame (process.page 0 k)) (sym (block_16 d (omega arith) p)) ∙ e in
      absurd (omega (arith, w, z));
}

free_page_tables-FreesRange_example :
    FreesRange others 16 1 process (free_page_tables (16 * 0x400000) 0x400000 process)
free_page_tables-FreesRange_example =
    free_page_tables-FreesRange others (16 * 0x400000) 0x400000 process refl (omega arith)
      (omega arith) process-IsCounted

copied_map : Outcome Copy → List ℕ
copied_map (ok (continues m)) = m.mem_map
copied_map r = []

-- The page is shared with block 32, whose table stands in the last frame.
copied :
    copied_map (copy_page_tables (16 * 0x400000) (32 * 0x400000) 0x400000 process)
    ≡ 1 ∷ 3 ∷ 1 ∷ 1 ∷ []
unfolding copied_map copy_page_tables copy_tables copy_table fill_table copy_entries copy_entry
    read_only get_free_page take_page last_free
copied = refl

few_users : (i : ℕ) → users process i ≤ 2
few_users zero = omega arith
few_users (suc zero) = omega arith
few_users (suc (suc zero)) = omega arith
few_users (suc (suc (suc zero))) = omega arith
few_users (suc (suc (suc (suc i)))) = omega arith

process_room : HasRoom 1 16 process
unfolding sum
process_room i =
    let u = few_users i in
    let t = refs-table i in
    let e : table_refs process 16 i ≡ refs (process.page 256) 0 1024 i = refl in ground arith

process-IsReady : IsReady others 1 16 32 process
process-IsReady = record {
  clear = λ j l u.
      let z : (j == 16) ≡ false = ground arith in
      let b : ltb j 4 ≡ false = ground arith in rw (z, b) refl;
  counted = process-IsCounted;
  room = process_room;
  below = λ k l z. omega arith;
}

copy_page_tables-RangeCopied_example :
    RangeCopied others 1 16 32 process
      (copy_page_tables (16 * 0x400000) (32 * 0x400000) 0x400000 process)
copy_page_tables-RangeCopied_example =
    copy_page_tables-RangeCopied others (16 * 0x400000) (32 * 0x400000) 0x400000 process refl refl
      (omega arith) (omega arith) (omega arith) (omega arith) (inl (omega arith)) process-IsReady
