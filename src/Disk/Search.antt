-- ===== src/Disk/Search.antt =====
-- The zone that `new_block` finds is the first that is free.
use linux.Prelude.{
  ℕ, zero, suc, ◌+◌, ◌-◌, ◌*◌, ◌≤◌, ◌<◌, ◌≡◌, sym, ap, ◌∙◌, subst, inl, inr, Option, none, some,
  Bool, true, ◌&&◌, ltb, ◌==◌, if◌then◌else◌, arith, Bool-cases,
}
use linux.Disk.{Disk, find_first_zero, find_zone}

-- The bits before the one that is found are set.
find_first_zero-before : (f : ℕ → Bool) (k n j : ℕ) → k ≤ j → j < find_first_zero f k n → f j ≡ true
unfolding find_first_zero
find_first_zero-before f k zero j l u = absurd (omega arith)
find_first_zero-before f k (suc n) j l u = elim (Bool-cases (f k)) [
  | inl e ↦ elim (Bool-cases (k == j)) [
    | inl s ↦ let y : k ≡ j = ground arith in subst (λ j. f j ≡ true) y e
    | inr s ↦ find_first_zero-before f (k + 1) n j (ground arith) (ground arith)
  ]
  | inr e ↦ absurd (ground arith)
]

find_first_zero-le : (f : ℕ → Bool) (k n : ℕ) → find_first_zero f k n ≤ k + n
unfolding find_first_zero
find_first_zero-le f k zero = omega arith
find_first_zero-le f k (suc n) = let r = find_first_zero-le f (k + 1) n in ground arith

-- Where the search ends, if it ends
abbrev pub Before : Option ℕ → ℕ → Type 0
Before none k = Unit {0}
Before (some m) k = k < m

const : {A B : Type 0} → B → A → B
const b a = b

beyond : {m k : ℕ} {B : Type 0} → m ≤ k → k < m → B
beyond h l = absurd (omega arith)

-- The bits of the maps before the one that is found are set, or all are if none is.
pub find_zone-Before :
    (n i : ℕ) (d : Disk) (k : ℕ)
    → i * 8192 ≤ k
    → k < (i + n) * 8192
    → k < d.s_zmap_blocks * 8192
    → Before (find_zone n i d) k
    → d.zmap k ≡ true
unfolding find_zone
find_zone-Before zero i d k l u h b = absurd (omega arith)
find_zone-Before (suc n) i d k l u h b =
    let f : ℕ → Bool = λ k. d.zmap (i * 8192 + k) in
    search (find_first_zero f 0 8192) (find_first_zero-le f 0 8192)
      (λ j jl. find_first_zero-before f 0 8192 j (omega arith) jl)
      (λ l. find_zone-Before n (i + 1) d k l (omega arith) h) b
  where
    search :
        (m : ℕ)
        → m ≤ 8192
        → ((j : ℕ) → j < m → d.zmap (i * 8192 + j) ≡ true)
        → ((i + 1) * 8192 ≤ k → Before (find_zone n (i + 1) d) k → d.zmap k ≡ true)
        → Before
            (if ltb i d.s_zmap_blocks && ltb m 8192
              then some (i * 8192 + m)
              else find_zone n (i + 1) d)
            k
        → d.zmap k ≡ true
    search m ml s r =
        let a : ltb i d.s_zmap_blocks ≡ true = ground arith in
        let y : i * 8192 + (k - i * 8192) ≡ k = omega arith in
        elim (Bool-cases (ltb (k - i * 8192) m)) [
          | inl e ↦ const (sym (ap d.zmap y) ∙ s (k - i * 8192) (ground arith))
          | inr e ↦ elim (Bool-cases (ltb m 8192)) [
            | inl q ↦ rw (a, q) (beyond (ground arith))
            | inr q ↦ rw (a, q) (r (ground arith))
          ]
        ]
