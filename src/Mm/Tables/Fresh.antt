-- ===== src/Mm/Tables/Fresh.antt =====
-- The frame that `copy_page_tables` takes for a page table.
use linux.Prelude.{
  ℕ, ◌+◌, ◌*◌, ◌<◌, ◌≡◌, ◌≢◌, ◌∙◌, subst, true, ◌==◌, if◌then◌else◌, get_or, set, length,
  get_or-set_self, get_or-set_ne, get_or_default, arith, Bool-cases, inl, inr,
}
use Prim.Native.Nat.{bit_or}
use linux.Prelude.Bits.{bit_or_seven}
use linux.Mm.{Memory, low_mem, frame, is_present}
use linux.Mm.Alloc.{Taken}
use linux.Mm.Tables.Users.{users, points, block, sum-le, IsUser, IsCounted}
use linux.Mm.Tables.Added.{managed}

-- The frame that is taken had no users, and so nothing points to it.
pub taken_free :
    (extra : ℕ → ℕ) (m : Memory) (addr : ℕ) (m₁ : Memory) (t : Taken m addr m₁)
    → users m t.index ≡ 0
taken_free extra m addr m₁ t = get_or_default m.mem_map t.index 0 1 t.last.in_range ∙ t.last.is_free

pub block_none :
    (extra : ℕ → ℕ) (m : Memory) (k j : ℕ)
    → IsCounted extra m
    → users m k ≡ 0
    → IsUser j
    → block m j k ≡ 0
block_none extra m k j c z jl =
    let a = c.counted k in
    let b = sum-le (λ j. block m j k) j 4 1020 (omega arith) (omega arith) in omega (arith, a, b, z)

pub fresh_frame :
    (extra : ℕ → ℕ) (m : Memory) (k j : ℕ)
    → IsCounted extra m
    → users m k ≡ 0
    → IsUser j
    → is_present (m.page 0 j) ≡ true
    → frame (m.page 0 j) ≢ managed k
fresh_frame extra m k j c z jl p e =
    let b = block_none extra m k j c z jl in
    let w : managed k * 4096 ≡ low_mem + k * 4096 = omega arith in
    let kk : (k == k) ≡ true = ground arith in
    let o : points (m.page 0 j) k ≡ 1 = rw (p, e, w) (ground arith) in absurd (omega (arith, b, o))

pub taken_users :
    (m : Memory) (k i : ℕ) (l : ℕ)
    → k < length m.mem_map
    → users m k ≡ 0
    → get_or (set m.mem_map k 1) i 0 ≡ users m i + (if k == i then 1 else 0)
taken_users m k i l h z = elim (Bool-cases (k == i)) [
  | inl e ↦
      let s : k ≡ i = ground arith in
      let q = get_or-set_self m.mem_map k 1 0 h in
      subst (λ i. get_or (set m.mem_map k 1) i 0 ≡ users m i + (if k == i then 1 else 0)) s
        (let kk : (k == k) ≡ true = ground arith in rw (q, kk) (omega (arith, z)))
  | inr e ↦ let q = get_or-set_ne m.mem_map k i 1 0 (λ w. ground arith) in rw (q, e) (omega arith)
]

pub frame_seven : (k : ℕ) → frame (bit_or (low_mem + k * 4096) 7) ≡ managed k
frame_seven k = omega (arith, bit_or_seven (low_mem + k * 4096))

pub present_seven : (k : ℕ) → is_present (bit_or (low_mem + k * 4096) 7) ≡ true
present_seven k = let b = bit_or_seven (low_mem + k * 4096) in ground arith
