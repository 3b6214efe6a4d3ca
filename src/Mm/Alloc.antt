-- ===== src/Mm/Alloc.antt =====
-- `get_free_page` and `free_page`.
use linux.Prelude.{
  ℕ, zero, suc, ◌+◌, ◌*◌, ◌/◌, ◌<◌, ◌≡◌, ◌≢◌, refl, ◌⊎◌, inl, inr, List, [], ◌∷◌, Option, none,
  some, ◌==◌, if◌then◌else◌, Bool-cases, get_or, set, length, arith,
}
use linux.Mm.{Memory, low_mem, last_free, take_page, get_free_page}

-- No byte of the map is 0.
abbrev pub NoneFree : List ℕ → Type 0
NoneFree l = (k : ℕ) → get_or l k 1 ≢ 0

-- Byte k is 0, and no later one is.
pub record IsLastFree (l : List ℕ) (k : ℕ) : Type 0 where
  pub in_range : k < length l
  pub is_free : get_or l k 1 ≡ 0
  pub is_last : (j : ℕ) → k < j → get_or l j 1 ≢ 0

NoneFree-cons : (b : ℕ) (l : List ℕ) → b ≢ 0 → NoneFree l → NoneFree (b ∷ l)
NoneFree-cons b l h n zero = h
NoneFree-cons b l h n (suc k) = n k

IsLastFree-zero : (b : ℕ) (l : List ℕ) → b ≡ 0 → NoneFree l → IsLastFree (b ∷ l) 0
IsLastFree-zero b l e n = record { in_range = omega arith; is_free = e; is_last = later }
  where
    later : (j : ℕ) → 0 < j → get_or (b ∷ l) j 1 ≢ 0
    later zero h = absurd (omega arith)
    later (suc j) h = n j

IsLastFree-suc : (b : ℕ) (l : List ℕ) (k : ℕ) → IsLastFree l k → IsLastFree (b ∷ l) (suc k)
IsLastFree-suc b l k f = record {
  in_range = omega (arith, f.in_range);
  is_free = f.is_free;
  is_last = later;
}
  where
    later : (j : ℕ) → suc k < j → get_or (b ∷ l) j 1 ≢ 0
    later zero h = absurd (omega arith)
    later (suc j) h = f.is_last j (omega arith)

-- What the scan finds, the first byte being byte i.
abbrev pub Scanned : List ℕ → ℕ → Option ℕ → Type 0
Scanned l i none = NoneFree l
Scanned l i (some k) = (d : ℕ) × (k ≡ i + d) × IsLastFree l d

Scanned-cons :
    (b : ℕ) (l : List ℕ) (i : ℕ) (r : Option ℕ)
    → Scanned l (suc i) r
    → Scanned (b ∷ l) i (elim r [ some k ↦ some k | none ↦ if b == 0 then some i else none ])
Scanned-cons b l i none n = elim (Bool-cases (b == 0)) [
  | inl z ↦ rw z (0, omega arith, IsLastFree-zero b l (ground arith) n)
  | inr nz ↦ rw nz (NoneFree-cons b l (ground arith) n)
]
Scanned-cons b l i (some k) (d, e, f) = (suc d, omega arith, IsLastFree-suc b l d f)

pub last_free-Scanned : (l : List ℕ) (i : ℕ) → Scanned l i (last_free l i)
unfolding last_free
last_free-Scanned [] i = λ k. ground arith
last_free-Scanned (b ∷ l) i = Scanned-cons b l i (last_free l (suc i)) (last_free-Scanned l (suc i))

-- A page was taken: the memory m' is m with the last free frame marked and cleared.
pub record Taken (m : Memory) (addr : ℕ) (m' : Memory) : Type 0 where
  pub index : ℕ
  pub is_addr : addr ≡ low_mem + index * 4096
  pub last : IsLastFree m.mem_map index
  pub marked : m'.mem_map ≡ set m.mem_map index 1
  pub high : m'.high_memory ≡ m.high_memory
  pub cleared : (o : ℕ) → m'.page (low_mem / 4096 + index) o ≡ 0
  pub others : (f o : ℕ) → f ≢ low_mem / 4096 + index → m'.page f o ≡ m.page f o

-- `get_free_page` returns 0 and changes nothing if no frame is free. Otherwise it returns the
-- address of the last free frame, counts one user for it, fills it with zeros, and changes no
-- other count and no other frame.
pub get_free_page_lem :
    (m : Memory)
    → ((get_free_page m ≡ (0, m)) × NoneFree m.mem_map)
      ⊎ Taken m (get_free_page m).0 (get_free_page m).1
unfolding get_free_page
get_free_page_lem m = taken (last_free m.mem_map 0) (last_free-Scanned m.mem_map 0)
  where
    taken :
        (r : Option ℕ)
        → Scanned m.mem_map 0 r
        → ((take_page r m ≡ (0, m)) × NoneFree m.mem_map)
          ⊎ Taken m (take_page r m).0 (take_page r m).1
    taken none n = inl (refl, n)
    taken (some k) (d, e, f) = inr (record {
      index = k;
      is_addr = refl;
      last = let p : k ≡ d = omega arith in rw p f;
      marked = refl;
      high = refl;
      cleared = λ o. ground arith;
      others = λ g o ne. ground arith;
    })
