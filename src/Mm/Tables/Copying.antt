-- ===== src/Mm/Tables/Copying.antt =====
-- One block copied by `copy_page_tables`.
use linux.Prelude.{
  ℕ, ◌+◌, ◌*◌, ◌≤◌, ◌<◌, ◌≡◌, ◌≢◌, refl, sym, ap, ◌∙◌, subst, subst₂, fun_ext, true, false, ◌==◌,
  if◌then◌else◌, length, length-set, arith, Bool-cases, inl, inr,
}
use Prim.Native.Nat.{bit_or}
use linux.Prelude.Outcome.{Outcome, ok}
use linux.Mm.{Memory, low_mem, store, frame, is_present}
use linux.Mm.Alloc.{Taken, NoneFree, get_free_page_lem}
use linux.Mm.Tables.{copy_entries, Copy, continues, fails, fill_table, copy_table}
use linux.Mm.Tables.Users.{users, points, refs, block, table_refs, IsUser, IsCounted}
use linux.Mm.Tables.Shared.{IsAlike, IsAlike-refl}
use linux.Mm.Tables.Copied.{Copies, copy_entries-Copies}
use linux.Mm.Tables.Added.{managed, IsAdded, IsAdded-IsCounted}
use linux.Mm.Tables.Fresh.{
  taken_free, block_none, fresh_frame, taken_users, frame_seven, present_seven,
}

-- No frame would have more users than a byte counts.
abbrev pub Fits : ℕ → Memory → Type 0
Fits d m = (i : ℕ) → users m i + refs (m.page (frame (m.page 0 d))) 0 1024 i ≤ 255

-- The free frames lie below the end of memory.
abbrev pub FreeBelow : Memory → Type 0
FreeBelow m = (k : ℕ) → k < length m.mem_map → users m k ≡ 0 → managed k * 4096 < m.high_memory

absent_alike : (e : ℕ) → is_present e ≡ false → IsAlike e 0
absent_alike e h = record {
  presence = sym h;
  shown = λ p. absurd (let w : true ≡ false = sym p ∙ h in ground arith);
}

-- What `copy_page_tables` does with one block: there is nothing to copy, no frame is free, or the
-- block is added.
pub data IsCopied (extra : ℕ → ℕ) (d to : ℕ) (m : Memory) : Copy → Type 0 where
  nothing : is_present (m.page 0 d) ≡ false → IsCopied extra d to m (continues m)
  no_memory : NoneFree m.mem_map → IsCopied extra d to m (fails m)
  added :
      (k : ℕ) (m' : Memory)
      → is_present (m.page 0 d) ≡ true
      → users m k ≡ 0
      → IsAdded d to k m m'
      → IsCounted extra m'
      → IsCopied extra d to m (continues m')

pub data EndsCopied (extra : ℕ → ℕ) (d to : ℕ) (m : Memory) : Outcome Copy → Type 0 where
  ends : {r : Copy} → IsCopied extra d to m r → EndsCopied extra d to m (ok r)

module _ (extra : ℕ → ℕ) (d to : ℕ) (m m₁ : Memory) (addr : ℕ) (dl : IsUser d)
    (p : is_present (m.page 0 d) ≡ true) (c : IsCounted extra m) (t : Taken m addr m₁) where
  free : users m t.index ≡ 0
  free = taken_free extra m addr m₁ t

  started : Memory
  started = store 0 to (bit_or (low_mem + t.index * 4096) 7) m₁

  started_word : (h q : ℕ) → h ≢ 0 → h ≢ managed t.index → started.page h q ≡ m.page h q
  unfolding started
  started_word h q z n = let w : (h == 0) ≡ false = ground arith in rw w (t.others h q n)

  started_entry : (j : ℕ) → j ≢ to → started.page 0 j ≡ m.page 0 j
  unfolding started
  started_entry j n =
      let w : (j == to) ≡ false = ground arith in rw w (t.others 0 j (λ e. omega arith))

  new_entry : started.page 0 to ≡ bit_or (low_mem + t.index * 4096) 7
  unfolding started
  new_entry = let w : (to == to) ≡ true = ground arith in rw w refl

  new_table : (q : ℕ) → started.page (managed t.index) q ≡ 0
  unfolding started
  new_table q = let w : (managed t.index == 0) ≡ false = ground arith in rw w (t.cleared q)

  source_same : started.page (frame (m.page 0 d)) ≡ m.page (frame (m.page 0 d))
  source_same = fun_ext (λ q.
      started_word (frame (m.page 0 d)) q (c.off_directory d dl p)
        (fresh_frame extra m t.index d c free dl p))

  started-users : (i : ℕ) → users started i ≡ users m i + (if t.index == i then 1 else 0)
  unfolding started
  started-users i = rw t.marked (taken_users m t.index i 0 t.last.in_range free)

  started-Fits :
      Fits d m
      → (i : ℕ)
      → users m i + (if t.index == i then 1 else 0) + refs (m.page (frame (m.page 0 d))) 0 1024 i
        ≤ 255
  started-Fits u i =
      let ui = u i in
      elim (Bool-cases (t.index == i)) [
        | inl e ↦
            let s : t.index ≡ i = ground arith in
            let z : users m i ≡ 0 = subst (λ j. users m j ≡ 0) s free in
            let b = block_none extra m i d c z dl in
            let w : block m d i
                ≡ points (m.page 0 d) i + refs (m.page (frame (m.page 0 d))) 0 1024 i =
              rw p refl in
            rw e (omega (arith, z, b, w))
        | inr e ↦ rw e (omega (arith, ui))
      ]

  copied-IsAdded :
      (m' : Memory)
      → Fits d m
      → Copies 1024 (frame (m.page 0 d)) (managed t.index) 0 started m'
      → IsAdded d to t.index m m'
  unfolding started
  copied-IsAdded m' u C =
      let f = frame (m.page 0 d) in
      let zf : 0 ≢ f = λ e. c.off_directory d dl p (sym e) in
      let zg : 0 ≢ managed t.index = λ e. omega arith in
      record {
        more = λ i.
            let r : refs (started.page f) 0 1024 i ≡ refs (m.page f) 0 1024 i =
              ap (λ w. refs w 0 1024 i) source_same in
            let s = started-users i in
            let b = started-Fits u i in
            let a = C.more i (omega (arith, r, s, b)) in omega (arith, a, r, s);
        top = C.top ∙ t.high;
        size = C.size ∙ ap length t.marked ∙ length-set m.mem_map t.index 1;
        presence = ap is_present (C.words 0 to zf zg ∙ new_entry) ∙ present_seven t.index;
        shown = ap frame (C.words 0 to zf zg ∙ new_entry) ∙ frame_seven t.index;
        directory = λ j n. C.words 0 j zf zg ∙ started_entry j n;
        words = λ h q z n. elim (Bool-cases (h == f)) [
          | inl e ↦
              let w : f ≡ h = ground arith in
              subst (λ g. IsAlike (m.page g q) (m'.page g q)) w
                (subst (λ v. IsAlike (v q) (m'.page f q)) source_same (C.source q))
          | inr e ↦
              let w = C.words h q (λ w. ground arith) n ∙ started_word h q z n in
              subst (IsAlike (m.page h q)) (sym w) (IsAlike-refl (m.page h q))
        ];
        table = λ q l. elim (Bool-cases (is_present (m.page f q))) [
          | inl e ↦
              let w : is_present (started.page f q) ≡ true =
                ap (λ v. is_present (v q)) source_same ∙ e in
              subst (λ v. IsAlike (v q) (m'.page (managed t.index) q)) source_same
                (C.copied q (omega arith) l w)
          | inr e ↦
              let w : is_present (started.page f q) ≡ false =
                ap (λ v. is_present (v q)) source_same ∙ e in
              subst (IsAlike (m.page f q)) (sym (C.skipped q (omega arith) l w ∙ new_table q))
                (absent_alike (m.page f q) e)
        ];
      }

  -- The memory in which the entries are copied is mapped as before.
  started-Copies :
      Copies 1024
        (frame (m.page 0 d))
        (managed t.index)
        0
        started
        (copy_entries 1024 (frame (m.page 0 d)) (managed t.index) 0 started)
  unfolding started
  started-Copies =
      let f = frame (m.page 0 d) in
      let mm = c.mapped in
      let h = t.high in
      let l : length m₁.mem_map ≡ length m.mem_map =
        ap length t.marked ∙ length-set m.mem_map t.index 1 in
      copy_entries-Copies 1024 f (managed t.index) 0 started
        (fresh_frame extra m t.index d c free dl p) (omega (arith, mm, h, l))
        (λ q lo hi.
          subst₂ (λ v top. is_present (v q) ≡ true → frame (v q) * 4096 < top) (sym source_same)
            (sym h) (c.pages d q dl p (omega arith)))

  filled-IsCopied :
      IsUser to
      → is_present (m.page 0 to) ≡ false
      → Fits d m
      → FreeBelow m
      → IsCopied extra d to m (fill_table 1024 d to (addr, m₁))
  unfolding fill_table started
  filled-IsCopied tl absent u below =
      let k = t.index in
      let a = t.is_addr in
      let z : (addr == 0) ≡ false = ground arith in
      let w : m₁.page 0 d ≡ m.page 0 d = t.others 0 d (λ e. omega arith) in
      let g : frame (low_mem + k * 4096) ≡ managed k = omega arith in
      let n = copy_entries 1024 (frame (m.page 0 d)) (managed k) 0 started in
      let A = copied-IsAdded n u started-Copies in
      rw (z, a, w, g)
        (added k n p free A (
          IsAdded-IsCounted extra d to k m n dl tl p absent c A (below k t.last.in_range free)
            (λ j jl q. fresh_frame extra m k j c free jl q)))

table_refs-present :
    (m : Memory) (d i : ℕ)
    → is_present (m.page 0 d) ≡ true
    → table_refs m d i ≡ refs (m.page (frame (m.page 0 d))) 0 1024 i
table_refs-present m d i p = rw p refl

-- The body of its loop on a block that is not there yet, where each frame has as users the entries
-- that point to it and some others, with at most 255 users when the block is copied, and the free
-- frames lie below the end of memory: there is no such block, or no frame is free; or a frame that
-- had no users becomes its page table, with the entries of the old one, each frame has one user
-- more for each entry that points to it now, and the others are the same.
pub copy_table-EndsCopied :
    (extra : ℕ → ℕ) (d to : ℕ) (m : Memory)
    → IsUser d
    → IsUser to
    → is_present (m.page 0 to) ≡ false
    → IsCounted extra m
    → ((i : ℕ) → users m i + table_refs m d i ≤ 255)
    → FreeBelow m
    → EndsCopied extra d to m (copy_table 1024 d to m)
unfolding copy_table fill_table
copy_table-EndsCopied extra d to m dl tl absent c u below =
    elim (Bool-cases (is_present (m.page 0 d))) [
      | inl p ↦
          rw (absent, p)
            (ends (elim (get_free_page_lem m) [
              | inl (e, n) ↦ rw e (no_memory n)
              | inr t ↦
                  filled-IsCopied extra d to m _ _ dl p c t tl absent
                    (λ i.
                      let ui = u i in let w = table_refs-present m d i p in omega (arith, ui, w))
                    below
            ]))
      | inr p ↦ rw (absent, p) (ends (nothing p))
    ]
