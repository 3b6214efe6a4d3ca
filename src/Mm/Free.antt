-- ===== src/Mm/Free.antt =====
-- `free_page`, alone and after `get_free_page`.
use linux.Prelude.{
  ℕ, zero, suc, ◌+◌, ◌-◌, ◌*◌, ◌≤◌, ◌<◌, ◌≡◌, ◌≢◌, refl, ap, ◌∙◌, ◌⊎◌, inl, inr, List, [], ◌∷◌, ltb,
  leb, ◌==◌, false, if◌then◌else◌, Bool-cases, get_or, set, length, get_or-set_self, get_or-set_ne,
  set-set, set_same, get_or_default, arith,
}
use linux.Prelude.Outcome.{ok}
use linux.Mm.{Memory, low_mem, get_free_page, free_page, map_nr, drop_user}
use linux.Mm.Alloc.{Taken, NoneFree, get_free_page_lem}

-- The free frames of a map.
abbrev pub count_free : List ℕ → ℕ
count_free [] = 0
count_free (b ∷ l) = let n = count_free l in if b == 0 then suc n else n

pub count_free-set_used :
    (l : List ℕ) (i v : ℕ)
    → i < length l
    → get_or l i 1 ≡ 0
    → v ≢ 0
    → count_free (set l i v) + 1 ≡ count_free l
count_free-set_used [] i v h e ne = absurd (omega arith)
count_free-set_used (b ∷ l) zero v h e ne = ground arith
count_free-set_used (b ∷ l) (suc i) v h e ne = ground (arith, count_free-set_used l i v)

pub count_free-set_free :
    (l : List ℕ) (i : ℕ)
    → i < length l
    → get_or l i 0 ≢ 0
    → count_free (set l i 0) ≡ count_free l + 1
count_free-set_free [] i h ne = absurd (omega arith)
count_free-set_free (b ∷ l) zero h ne = ground arith
count_free-set_free (b ∷ l) (suc i) h ne = ground (arith, count_free-set_free l i)

pub count_free-set_kept :
    (l : List ℕ) (i v : ℕ) → get_or l i 0 ≢ 0 → v ≢ 0 → count_free (set l i v) ≡ count_free l
count_free-set_kept [] i v h ne = refl
count_free-set_kept (b ∷ l) zero v h ne = ground arith
count_free-set_kept (b ∷ l) (suc i) v h ne = ground (arith, count_free-set_kept l i v)

count_free-drop :
    (l : List ℕ) (i : ℕ)
    → i < length l
    → get_or l i 0 ≢ 0
    → count_free (set l i (get_or l i 0 - 1)) ≡ count_free l + (if get_or l i 0 == 1 then 1 else 0)
count_free-drop l i h u = elim (Bool-cases (get_or l i 0 == 1)) [
  | inl one ↦
      let z : get_or l i 0 - 1 ≡ 0 = ground arith in rw (one, z) (count_free-set_free l i h u)
  | inr more ↦
      rw more (omega (arith, count_free-set_kept l i (get_or l i 0 - 1) u (λ z. ground arith)))
]

count_free-zero : (l : List ℕ) → NoneFree l → count_free l ≡ 0
count_free-zero [] n = refl
count_free-zero (b ∷ l) n = ground (arith, n 0, count_free-zero l (λ k. n (suc k)))

-- The managed memory ends where the map does, or below.
abbrev pub IsMapped : Memory → Type 0
IsMapped m = m.high_memory ≤ low_mem + 4096 * length m.mem_map

-- `get_free_page` returns 0 exactly if no frame is free, and otherwise leaves one free frame less.
pub get_free_page-count :
    (m : Memory)
    → (((get_free_page m).0 ≡ 0) × (count_free m.mem_map ≡ 0) × ((get_free_page m).1 ≡ m))
      ⊎ (((get_free_page m).0 ≢ 0)
          × (count_free (get_free_page m).1.mem_map + 1 ≡ count_free m.mem_map))
get_free_page-count m = count (get_free_page_lem m)
  where
    count :
        ((get_free_page m ≡ (0, m)) × NoneFree m.mem_map)
          ⊎ Taken m (get_free_page m).0 (get_free_page m).1
        → (((get_free_page m).0 ≡ 0) × (count_free m.mem_map ≡ 0) × ((get_free_page m).1 ≡ m))
          ⊎ (((get_free_page m).0 ≢ 0)
              × (count_free (get_free_page m).1.mem_map + 1 ≡ count_free m.mem_map))
    count (inl (e, n)) = inl (rw e, count_free-zero m.mem_map n, rw e)
    count (inr t) = inr (
      (λ z. absurd (omega (arith, t.is_addr))),
      rw t.marked (
          count_free-set_used m.mem_map t.index 1 t.last.in_range t.last.is_free
            (λ z. absurd (omega arith))),
    )

-- `free_page` on an address of the managed memory whose frame has users: one user less, so that
-- there is one free frame more if it had one user, and as many as before if it had more. No other
-- count and no word of memory changes.
pub free_page-count :
    (addr : ℕ) (m : Memory)
    → IsMapped m
    → low_mem ≤ addr
    → addr < m.high_memory
    → get_or m.mem_map (map_nr addr) 0 ≢ 0
    → (m' : Memory) × (free_page addr m ≡ ok m')
      × (get_or m'.mem_map (map_nr addr) 0 + 1 ≡ get_or m.mem_map (map_nr addr) 0)
      × (count_free m'.mem_map
          ≡ count_free m.mem_map + (if get_or m.mem_map (map_nr addr) 0 == 1 then 1 else 0))
      × ((j : ℕ) → map_nr addr ≢ j → get_or m'.mem_map j 0 ≡ get_or m.mem_map j 0)
      × ((f o : ℕ) → m'.page f o ≡ m.page f o)
unfolding free_page
free_page-count addr m b l h u = (
  drop_user (map_nr addr) m,
  ground arith,
  omega (
    arith,
    get_or-set_self m.mem_map (map_nr addr) (get_or m.mem_map (map_nr addr) 0 - 1) 0 (omega arith),
  ),
  count_free-drop m.mem_map (map_nr addr) (omega arith) u,
  (λ j ne. get_or-set_ne m.mem_map (map_nr addr) j (get_or m.mem_map (map_nr addr) 0 - 1) 0 ne),
  λ f o. refl,
)

free_page_at :
    (addr i : ℕ) (m : Memory)
    → addr ≡ low_mem + i * 4096
    → addr < m.high_memory
    → get_or m.mem_map i 0 ≢ 0
    → free_page addr m ≡ ok (drop_user i m)
unfolding free_page
free_page_at addr i m e h u =
    let p : map_nr addr ≡ i = omega arith in
    let a : ltb addr low_mem ≡ false = ground arith in
    let b : leb m.high_memory addr ≡ false = ground arith in
    let c : (get_or m.mem_map i 0 == 0) ≡ false = ground arith in rw (a, b, p, c)

-- Freeing the page that `get_free_page` just returned gives the map of users back, if the free frames
-- lie below the end of memory.
pub free_page-get_free_page :
    (m : Memory)
    → ((k : ℕ)
        → k < length m.mem_map
        → get_or m.mem_map k 1 ≡ 0
        → low_mem + k * 4096 < m.high_memory)
    → (get_free_page m).0 ≢ 0
    → free_page (get_free_page m).0 (get_free_page m).1
      ≡ ok (record (get_free_page m).1 { mem_map = m.mem_map })
free_page-get_free_page m h ne = back (get_free_page_lem m)
  where
    back :
        ((get_free_page m ≡ (0, m)) × NoneFree m.mem_map)
          ⊎ Taken m (get_free_page m).0 (get_free_page m).1
        → free_page (get_free_page m).0 (get_free_page m).1
          ≡ ok (record (get_free_page m).1 { mem_map = m.mem_map })
    back (inl (e, n)) = absurd (ne (rw e))
    back (inr t) =
        let m' = (get_free_page m).1 in
        let c : get_or m'.mem_map t.index 0 ≡ 1 =
          rw t.marked (get_or-set_self m.mem_map t.index 1 0 t.last.in_range) in
        let z : get_or m.mem_map t.index 0 ≡ 0 =
          get_or_default m.mem_map t.index 0 1 t.last.in_range ∙ t.last.is_free in
        let q : set m'.mem_map t.index (get_or m'.mem_map t.index 0 - 1) ≡ m.mem_map =
          rw (c, t.marked, set-set m.mem_map t.index 1 0)
            (set_same m.mem_map t.index 0 0 z t.last.in_range) in
        free_page_at (get_free_page m).0 t.index m' t.is_addr
          (let b = h t.index t.last.in_range t.last.is_free in omega (arith, t.is_addr, t.high, b))
          (λ e. absurd (omega (arith, c)))
        ∙ ap (λ l. ok (record m' { mem_map = l })) q
