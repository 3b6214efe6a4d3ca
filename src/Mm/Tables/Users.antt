-- ===== src/Mm/Tables/Users.antt =====
-- How often the page tables point to each frame.
use linux.Prelude.{
  ℕ, zero, suc, ◌+◌, ◌*◌, ◌≤◌, ◌<◌, ◌≡◌, ◌≢◌, refl, ap, ap₂, true, ◌&&◌, leb, ◌==◌, if◌then◌else◌,
  get_or, arith, Bool-cases, inl, inr,
}
use linux.Mm.{Memory, low_mem, map_nr, frame, is_present}
use linux.Mm.Free.{IsMapped}

abbrev pub users : Memory → ℕ → ℕ
users m i = get_or m.mem_map i 0

-- 1 if the entry points to managed frame `i`
abbrev pub points : ℕ → ℕ → ℕ
points e i =
    if is_present e && (leb low_mem (frame e * 4096) && (map_nr (frame e * 4096) == i))
    then 1
    else 0

-- The sum of `n` terms from term `s` on
unfoldable pub sum : (ℕ → ℕ) → ℕ → ℕ → ℕ
sum b s zero = 0
sum b s (suc n) = b s + sum b (s + 1) n

-- How many of `n` words from `o` on point to the frame
abbrev pub refs : (ℕ → ℕ) → ℕ → ℕ → ℕ → ℕ
refs w o n i = sum (λ p. points (w p) i) o n

-- How many of entry `dir` of the directory and its page table do
abbrev pub block : Memory → ℕ → ℕ → ℕ
block m dir i =
    let e = m.page 0 dir in
    points e i + (if is_present e then refs (m.page (frame e)) 0 1024 i else 0)

-- The blocks behind the first four, which are the kernel's identity map (boot/head.s), whose pointers
-- `mem_map` does not count
abbrev pub IsUser : ℕ → Type 0
IsUser d = (4 ≤ d) × (d < 1024)

-- How many of the blocks of processes do
abbrev pub total : Memory → ℕ → ℕ
total m i = sum (λ d. block m d i) 4 1020

-- How many entries of the page table of block `j` point to frame `i`
abbrev pub table_refs : Memory → ℕ → ℕ → ℕ
table_refs m j i =
    if is_present (m.page 0 j) then refs (m.page (frame (m.page 0 j))) 0 1024 i else 0

abbrev pub IsBelow : Memory → ℕ → Type 0
IsBelow m e = is_present e ≡ true → frame e * 4096 < m.high_memory

-- The users of each managed frame are the entries of processes that point to it and `extra` others.
-- Tables stand in frames of their own.
pub record IsCounted (extra : ℕ → ℕ) (m : Memory) : Type 0 where
  pub counted : (i : ℕ) → users m i ≡ extra i + total m i
  pub mapped : IsMapped m
  pub tables : (d : ℕ) → IsUser d → IsBelow m (m.page 0 d)
  pub pages :
      (d o : ℕ)
      → IsUser d
      → is_present (m.page 0 d) ≡ true
      → o < 1024
      → IsBelow m (m.page (frame (m.page 0 d)) o)
  pub apart :
      (d e : ℕ)
      → IsUser d
      → IsUser e
      → d ≢ e
      → is_present (m.page 0 d) ≡ true
      → is_present (m.page 0 e) ≡ true
      → frame (m.page 0 d) ≢ frame (m.page 0 e)
  pub off_directory : (d : ℕ) → IsUser d → is_present (m.page 0 d) ≡ true → frame (m.page 0 d) ≢ 0

pub sum_ext :
    (b c : ℕ → ℕ) (s n : ℕ) → ((k : ℕ) → s ≤ k → k < s + n → b k ≡ c k) → sum b s n ≡ sum c s n
unfolding sum
sum_ext b c s zero h = refl
sum_ext b c s (suc n) h =
    ap₂ (λ x y. x + y) (h s (omega arith) (omega arith))
      (sum_ext b c (s + 1) n (λ k l u. h k (omega arith) (omega arith)))

-- Two sums that differ in one term
pub sum_changed :
    (b c : ℕ → ℕ) (d s n : ℕ)
    → ((k : ℕ) → s ≤ k → k < s + n → k ≢ d → b k ≡ c k)
    → s ≤ d
    → d < s + n
    → sum b s n + c d ≡ sum c s n + b d
unfolding sum
sum_changed b c d s zero h l u = absurd (omega arith)
sum_changed b c d s (suc n) h l u = elim (Bool-cases (s == d)) [
  | inl e ↦
      let z : s ≡ d = ground arith in
      let r = sum_ext b c (s + 1) n (λ k l u. h k (omega arith) (omega arith) (λ q. omega arith)) in
      let t = ap b z in let t' = ap c z in omega (arith, r, t, t')
  | inr e ↦
      let r =
        sum_changed b c d (s + 1) n (λ k l u. h k (omega arith) (omega arith)) (ground arith)
          (omega arith) in
      let k = h s (omega arith) (omega arith) (λ q. ground arith) in omega (arith, r, k)
]

-- A term is no more than its sum.
pub sum-le : (b : ℕ → ℕ) (d s n : ℕ) → s ≤ d → d < s + n → b d ≤ sum b s n
unfolding sum
sum-le b d s zero l u = absurd (omega arith)
sum-le b d s (suc n) l u = elim (Bool-cases (s == d)) [
  | inl e ↦ let z : s ≡ d = ground arith in let t = ap b z in omega (arith, t)
  | inr e ↦ let r = sum-le b d (s + 1) n (ground arith) (omega arith) in omega (arith, r)
]
