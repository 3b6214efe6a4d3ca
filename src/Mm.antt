-- ===== src/Mm.antt =====
-- mm/memory.c: the map of physical pages and the page tables.
-- Physical memory is read as `page f o`, word o (below 1024) of the page frame f; the frame of an
-- address is `address / 4096`, and the page directory is frame 0. `mem_map` counts the users of
-- each frame from LOW_MEM on, in bytes that wrap. `invalidate()` only drops the processor's cached
-- translations, and the `printk` of `put_page` changes nothing: both are left out.
pub mod Alloc
pub mod Free
pub mod Init
pub mod Cow
pub mod Tables
mod Tests
use linux.Prelude.{
  ℕ, zero, suc, ◌+◌, ◌-◌, ◌*◌, ◌/◌, ◌%◌, List, [], ◌∷◌, Option, none, some, Bool, ◌&&◌, ltb, leb,
  ◌==◌, if◌then◌else◌, get_or, set, replicate, not,
}
use linux.Prelude.Outcome.{Outcome, ok, panicked, exited, ◌>>=◌}
use Prim.Native.Nat.{bit_and, bit_or}

abbrev pub low_mem : ℕ
low_mem = 0x100000

abbrev pub paging_pages : ℕ
paging_pages = 15 * 1024 * 1024 / 4096

abbrev pub used : ℕ
used = 100

abbrev pub map_nr : ℕ → ℕ
map_nr addr = (addr - low_mem) / 4096

pub record Memory : Type 0 where
  pub mem_map : List ℕ
  pub high_memory : ℕ
  pub page : ℕ → ℕ → ℕ

-- A store to word o of frame f.
abbrev pub store : ℕ → ℕ → ℕ → Memory → Memory
store f o v m = record m { page = λ g p. if (g == f) && (p == o) then v else m.page g p }

-- A whole frame, given by its words.
abbrev pub fill : ℕ → (ℕ → ℕ) → Memory → Memory
fill f w m = record m { page = λ g p. if g == f then w p else m.page g p }

-- `repne scasb` from the last byte of `mem_map` down: the last index that holds 0.
pub last_free : List ℕ → ℕ → Option ℕ
last_free [] i = none
last_free (b ∷ bs) i = elim (last_free bs (suc i)) [
  | some k ↦ some k
  | none ↦ if b == 0 then some i else none
]

-- The page's address, or 0, and the memory with the page marked and cleared.
take_page : Option ℕ → Memory → ℕ × Memory
take_page none m = (0, m)
take_page (some i) m = (
  low_mem + i * 4096,
  fill (low_mem / 4096 + i) (λ o. 0) (record m { mem_map = set m.mem_map i 1 }),
)

pub get_free_page : Memory → ℕ × Memory
unfolding take_page
get_free_page m = take_page (last_free m.mem_map 0) m

-- `mem_map[i]--` where it is not 0.
abbrev pub drop_user : ℕ → Memory → Memory
drop_user i m = record m { mem_map = set m.mem_map i (get_or m.mem_map i 0 - 1) }

pub free_page : ℕ → Memory → Outcome Memory
free_page addr m =
    if ltb addr low_mem
    then ok m
    else if leb m.high_memory addr
    then panicked
    else if get_or m.mem_map (map_nr addr) 0 == 0
    then panicked
    else ok (drop_user (map_nr addr) m)

-- The frame that an entry points to, and its present bit.
abbrev pub frame : ℕ → ℕ
frame e = e / 4096

abbrev pub is_present : ℕ → Bool
is_present e = e % 2 == 1

-- The page table of a linear address, made if there is none: its frame, none if memory is out.
page_table : ℕ → Memory → Option ℕ × Memory
page_table address m =
    let dir = address / 0x400000 in
    let (tmp, m') = get_free_page m in
    if is_present (m.page 0 dir)
    then (some (frame (m.page 0 dir)), m)
    else if tmp == 0
    then (none, m')
    else (some (frame tmp), store 0 dir (bit_or tmp 7) m')

-- The address of the page, 0 if memory is out.
pub put_page : ℕ → ℕ → Memory → ℕ × Memory
unfolding page_table
put_page page address m =
    let (table, m') = page_table address m in
    elim table [
      | none ↦ (0, m')
      | some f ↦ (page, store f (address / 4096 % 1024) (bit_or page 7) m')
    ]

-- `mem_map[i]--` in a byte.
abbrev pub drop_byte : ℕ → Memory → Memory
drop_byte i m = record m { mem_map = set m.mem_map i ((get_or m.mem_map i 0 + 255) % 256) }

-- The entry that `un_wp_page` is handed stands in word o of frame f.
pub un_wp_page : ℕ → ℕ → Memory → Outcome Memory
un_wp_page f o m =
    let entry = m.page f o in
    let old_page = frame entry * 4096 in
    let (new_page, m₁) = get_free_page m in
    let m₂ = if leb low_mem old_page then drop_byte (map_nr old_page) m₁ else m₁ in
    let m₃ = store f o (bit_or new_page 7) m₂ in
    if leb low_mem old_page && (get_or m.mem_map (map_nr old_page) 0 == 1)
    then ok (store f o (bit_or entry 2) m)
    else if new_page == 0
    then exited
    else ok (fill (frame new_page) (m₃.page (frame old_page)) m₃)

pub do_wp_page : ℕ → Memory → Outcome Memory
do_wp_page address m = un_wp_page (frame (m.page 0 (address / 0x400000))) (address / 4096 % 1024) m

pub write_verify : ℕ → Memory → Outcome Memory
write_verify address m =
    let dir = m.page 0 (address / 0x400000) in
    let entry = m.page (frame dir) (address / 4096 % 1024) in
    let copied = un_wp_page (frame dir) (address / 4096 % 1024) m in
    if is_present dir then (if entry % 4 == 1 then copied else ok m) else ok m

pub get_empty_page : ℕ → Memory → Outcome Memory
get_empty_page address m =
    let (tmp, m₁) = get_free_page m in
    let (put, m₂) = put_page tmp address m₁ in
    if tmp == 0 then exited else if put == 0 then (free_page tmp m₂ >>= λ _. exited) else ok m₂

-- `for (i=0 ; i<PAGING_PAGES ; i++) mem_map[i] = USED`
pub all_used : List ℕ
all_used = replicate paging_pages used

-- `while (end_mem-->0) mem_map[i++]=0`
pub clear_from : ℕ → ℕ → List ℕ → List ℕ
clear_from i zero l = l
clear_from i (suc n) l = clear_from (i + 1) n (set l i 0)

pub mem_init : ℕ → ℕ → (ℕ → ℕ → ℕ) → Memory
mem_init start_mem end_mem page = record {
  mem_map = clear_from (map_nr start_mem) ((end_mem - start_mem) / 4096) all_used;
  high_memory = end_mem;
  page = page;
}
