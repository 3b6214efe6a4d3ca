-- ===== src/Mm/Tables.antt =====
-- mm/memory.c: `free_page_tables` and `copy_page_tables`, on 4 MB blocks of linear addresses. Word d
-- of frame 0 is entry d of the page directory. Entries are below 2 ^ 32, and `mem_map` is indexed
-- below PAGING_PAGES.
pub mod Users
pub mod Freed
pub mod Release
pub mod Range
pub mod Shared
pub mod Copied
pub mod Added
pub mod Fresh
pub mod Copying
pub mod Sharing
pub mod Whole
pub mod CopyRange
mod Tests
use linux.Prelude.{
  ℕ, zero, suc, ◌+◌, ◌-◌, ◌*◌, ◌/◌, ◌%◌, ◌^◌, Bool, not, ◌||◌, ltb, ◌==◌, if◌then◌else◌, get_or,
  set,
}
use Prim.Native.Nat.{bit_or}
use linux.Prelude.Outcome.{Outcome, ok, panicked, ◌>>=◌}
use linux.Mm.{Memory, low_mem, map_nr, store, frame, is_present, get_free_page, free_page}

-- `if (1 & *pg_table) free_page(0xfffff000 & *pg_table)`
unfoldable pub free_entry : ℕ → Memory → Outcome Memory
free_entry e m = if is_present e then free_page (frame e * 4096) m else ok m

-- The inner loop, from word o on
unfoldable pub free_entries : ℕ → ℕ → ℕ → Memory → Outcome Memory
free_entries zero f o m = ok m
free_entries (suc nr) f o m = do
  m₁ ← free_entry (m.page f o) m
  free_entries nr f (o + 1) (store f o 0 m₁)

-- The body of the outer loop
unfoldable pub free_table : ℕ → Memory → Outcome Memory
free_table dir m = if not (is_present (m.page 0 dir)) then ok m else do
  m₁ ← free_entries 1024 (frame (m.page 0 dir)) 0 m
  m₂ ← free_page (frame (m.page 0 dir) * 4096) m₁
  ok (store 0 dir 0 m₂)

unfoldable pub free_tables : ℕ → ℕ → Memory → Outcome Memory
free_tables zero dir m = ok m
free_tables (suc size) dir m = do m₁ ← free_table dir m; free_tables size (dir + 1) m₁

-- `(size + 0x3fffff) >> 22`
abbrev pub blocks : ℕ → ℕ
blocks size = (size + 0x3fffff) % 2 ^ 32 / 0x400000

unfoldable pub free_page_tables : ℕ → ℕ → Memory → Outcome Memory
free_page_tables from size m =
    let freed = free_tables (blocks size) (from / 0x400000) m in
    if not (from % 0x400000 == 0) then panicked else if from == 0 then panicked else freed

-- `this_page &= ~2`
unfoldable pub read_only : ℕ → ℕ
read_only this_page = if this_page / 2 % 2 == 1 then this_page - 2 else this_page

-- `mem_map[i]++` in a byte
abbrev pub add_user : ℕ → Memory → Memory
add_user i m = record m { mem_map = set m.mem_map i ((get_or m.mem_map i 0 + 1) % 256) }

-- The body of the inner loop, from word `o` of frame `f` to that of frame `g`
unfoldable pub copy_entry : ℕ → ℕ → ℕ → Memory → Memory
copy_entry f g o m =
    let this_page = read_only (m.page f o) in
    let m₁ = store g o this_page m in
    if not (is_present (m.page f o))
    then m
    else if ltb low_mem this_page
    then add_user (map_nr this_page) (store f o this_page m₁)
    else m₁

unfoldable pub copy_entries : ℕ → ℕ → ℕ → ℕ → Memory → Memory
copy_entries zero f g o m = m
copy_entries (suc nr) f g o m = copy_entries nr f g (o + 1) (copy_entry f g o m)

-- `continue`, or `return -1`
pub data Copy : Type 0 where
  continues : Memory → Copy
  fails : Memory → Copy

-- The body of the outer loop, with the page for the table taken: `nr` entries of it are copied.
unfoldable pub fill_table : ℕ → ℕ → ℕ → ℕ × Memory → Copy
fill_table nr from_dir to_dir (to_page_table, m) =
    if to_page_table == 0
    then fails m
    else continues (
        copy_entries nr (frame (m.page 0 from_dir)) (frame to_page_table) 0
          (store 0 to_dir (bit_or to_page_table 7) m))

unfoldable pub copy_table : ℕ → ℕ → ℕ → Memory → Outcome Copy
copy_table nr from_dir to_dir m =
    if is_present (m.page 0 to_dir)
    then panicked
    else if not (is_present (m.page 0 from_dir))
    then ok (continues m)
    else ok (fill_table nr from_dir to_dir (get_free_page m))

-- What follows the body of the loop
abbrev pub copy_next : Copy → (Memory → Outcome Copy) → Outcome Copy
copy_next (continues m) k = k m
copy_next (fails m) k = ok (fails m)

unfoldable pub copy_tables : ℕ → ℕ → ℕ → ℕ → Memory → Outcome Copy
copy_tables zero nr from_dir to_dir m = ok (continues m)
copy_tables (suc size) nr from_dir to_dir m = do
  c ← copy_table nr from_dir to_dir m
  copy_next c (copy_tables size nr (from_dir + 1) (to_dir + 1))

unfoldable pub copy_page_tables : ℕ → ℕ → ℕ → Memory → Outcome Copy
copy_page_tables from to size m =
    let nr = if from == 0 then 0xA0 else 1024 in
    if not (from % 0x400000 == 0) || not (to % 0x400000 == 0)
    then panicked
    else copy_tables (blocks size) nr (from / 0x400000) (to / 0x400000) m
