-- ===== src/Mm/Init.antt =====
-- `mem_init`: which frames are free at the start.
use linux.Prelude.{
  ℕ, zero, suc, ◌+◌, ◌-◌, ◌/◌, ◌<◌, ◌≡◌, refl, ◌∙◌, List, get_or, set, length, replicate, ltb, leb,
  ◌&&◌, if◌then◌else◌, length-replicate, length-set, get_or-set_self, get_or-set_ne, Bool-cases,
  inl, inr, ap, ◌==◌, arith,
}
use linux.Mm.{map_nr, used, paging_pages, all_used, clear_from, mem_init}

get_or-replicate : (n v d k : ℕ) → k < n → get_or (replicate n v) k d ≡ v
get_or-replicate zero v d k h = absurd (omega arith)
get_or-replicate (suc n) v d zero h = refl
get_or-replicate (suc n) v d (suc k) h = get_or-replicate n v d k (omega arith)

length-all_used : length all_used ≡ paging_pages
unfolding all_used
length-all_used = length-replicate paging_pages used

get_or-all_used : (k : ℕ) → k < paging_pages → get_or all_used k 0 ≡ used
unfolding all_used
get_or-all_used k h = get_or-replicate paging_pages used 0 k h

length-clear_from : (n i : ℕ) (l : List ℕ) → length (clear_from i n l) ≡ length l
unfolding clear_from
length-clear_from zero i l = refl
length-clear_from (suc n) i l = length-clear_from n (i + 1) (set l i 0) ∙ length-set l i 0

get_or-clear_from :
    (n i : ℕ) (l : List ℕ) (k : ℕ)
    → k < length l
    → get_or (clear_from i n l) k 0 ≡ (if leb i k && ltb k (i + n) then 0 else get_or l k 0)
unfolding clear_from
get_or-clear_from zero i l k h = ground arith
get_or-clear_from (suc n) i l k h = elim (Bool-cases (i == k)) [
  | inl e ↦ ground (
    arith,
    get_or-clear_from n (i + 1) (set l i 0) k (rw (length-set l i 0) h),
    get_or-set_self l i 0 0,
  )
  | inr ne ↦ ground (
    arith,
    get_or-clear_from n (i + 1) (set l i 0) k (rw (length-set l i 0) h),
    get_or-set_ne l i k 0 0,
  )
]

-- After `mem_init` the map has PAGING_PAGES bytes; the frames from that of `start_mem` on, as many as
-- fit before `end_mem`, are free, and every other frame is in use.
pub mem_init_free :
    (start_mem end_mem : ℕ) (page : ℕ → ℕ → ℕ) (k : ℕ)
    → k < paging_pages
    → let m = mem_init start_mem end_mem page in
      let first = map_nr start_mem in
      (length m.mem_map ≡ paging_pages)
      × (get_or m.mem_map k 0
          ≡ (if leb first k && ltb k (first + (end_mem - start_mem) / 4096) then 0 else used))
unfolding mem_init
mem_init_free start_mem end_mem page k h =
    let n = (end_mem - start_mem) / 4096 in
    let first = map_nr start_mem in
    (
      length-clear_from n first all_used ∙ length-all_used,
      get_or-clear_from n first all_used k (rw length-all_used h)
          ∙ ap (λ b. if leb first k && ltb k (first + n) then 0 else b) (get_or-all_used k h),
    )
