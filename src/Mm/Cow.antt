-- ===== src/Mm/Cow.antt =====
-- Copy on write: what `un_wp_page` leaves behind a write-protected entry.
use linux.Prelude.{
  ℕ, ◌+◌, ◌-◌, ◌*◌, ◌/◌, ◌%◌, ◌≤◌, ◌<◌, ◌≡◌, ◌≢◌, subst, ◌∙◌, ◌⊎◌, inl, inr, true, false, leb, ◌==◌,
  ◌&&◌, if◌then◌else◌, Bool-cases, get_or, get_or-set_self, get_or-set_ne, arith,
}
use linux.Prelude.Bits.{bit_or_two, bit_or_seven}
use linux.Prelude.Outcome.{Outcome, ok, exited}
use Prim.Native.Nat.{bit_or}
use linux.Mm.{Memory, low_mem, get_free_page, frame, map_nr, store, fill, drop_byte, un_wp_page}
use linux.Mm.Alloc.{Taken, NoneFree, get_free_page_lem}

-- The users of a frame, none for the frames below LOW_MEM.
abbrev pub users : Memory → ℕ → ℕ
users m f = get_or m.mem_map (f - low_mem / 4096) 0

-- Frame f is not one that `get_free_page` can hand out.
abbrev pub InUse : Memory → ℕ → Type 0
InUse m f = (f < low_mem / 4096) ⊎ (get_or m.mem_map (f - low_mem / 4096) 1 ≢ 0)

-- The entry in word o of frame f is writable in m' and shows what it showed in m, in a frame that
-- it has alone if it was shared or not managed; all else that frame f or another frame in use
-- holds is the same.
pub record IsPrivate (m : Memory) (f o : ℕ) (m' : Memory) : Type 0 where
  pub writable : m'.page f o / 2 % 2 ≡ 1
  pub content : (w : ℕ) → m'.page (frame (m'.page f o)) w ≡ m.page (frame (m.page f o)) w
  pub alone : (low_mem / 4096 ≤ frame (m'.page f o)) × (users m' (frame (m'.page f o)) ≡ 1)
  pub others : (g w : ℕ) → InUse m g → (g ≢ f) ⊎ (w ≢ o) → m'.page g w ≡ m.page g w

store_at : (f o v : ℕ) (m : Memory) → (store f o v m).page f o ≡ v
store_at f o v m = ground arith

frame_two : (e : ℕ) → frame (bit_or e 2) ≡ frame e
frame_two e = omega (arith, bit_or_two e)

frame_seven : (k : ℕ) → frame (bit_or (low_mem + k * 4096) 7) ≡ low_mem / 4096 + k
frame_seven k = omega (arith, bit_or_seven (low_mem + k * 4096))

-- The only user gets the write bit.
sole-IsPrivate :
    (m : Memory) (f o : ℕ)
    → f ≢ frame (m.page f o)
    → low_mem ≤ frame (m.page f o) * 4096
    → users m (frame (m.page f o)) ≡ 1
    → IsPrivate m f o (store f o (bit_or (m.page f o) 2) m)
sole-IsPrivate m f o ne lo one =
    let e = store_at f o (bit_or (m.page f o) 2) m in
    let fr = frame_two (m.page f o) in
    record {
      writable = rw e (omega (arith, bit_or_two (m.page f o)));
      content = λ w. rw (e, fr) (ground arith);
      alone = rw (e, fr) (omega arith, one);
      others = λ g w u d. ground arith;
    }

InUse-ne : (m : Memory) (f k : ℕ) → InUse m f → get_or m.mem_map k 1 ≡ 0 → f ≢ low_mem / 4096 + k
InUse-ne m f k (inl lt) z e = absurd (omega arith)
InUse-ne m f k (inr u) z e = let p : f - low_mem / 4096 ≡ k = omega arith in u (rw p z)

-- What the copying branch leaves.
copied : ℕ → ℕ → ℕ → Memory → Memory → Memory
copied f o new_page m m₂ =
    let m₃ = store f o (bit_or new_page 7) m₂ in
    fill (frame new_page) (m₃.page (frame (m.page f o))) m₃

copy-IsPrivate :
    (m m₁ m₂ : Memory) (f o addr : ℕ)
    → Taken m addr m₁
    → f ≢ frame (m.page f o)
    → InUse m f
    → InUse m (frame (m.page f o))
    → ((g w : ℕ) → m₂.page g w ≡ m₁.page g w)
    → ((i : ℕ)
        → frame (m.page f o) ≢ low_mem / 4096 + i
        → get_or m₂.mem_map i 0 ≡ get_or m₁.mem_map i 0)
    → IsPrivate m f o (copied f o addr m m₂)
unfolding copied
copy-IsPrivate m m₁ m₂ f o addr t ne uf uo same kept =
    let k = t.index in
    let new = low_mem / 4096 + k in
    let fr : frame addr ≡ new = omega (arith, t.is_addr) in
    let nf : f ≢ new = InUse-ne m f k uf t.last.is_free in
    let no : frame (m.page f o) ≢ new = InUse-ne m (frame (m.page f o)) k uo t.last.is_free in
    let e : (copied f o addr m m₂).page f o ≡ bit_or addr 7 = rw fr (ground arith) in
    let fe : frame (bit_or addr 7) ≡ new = rw t.is_addr (frame_seven k) in
    record {
      writable = rw e (omega (arith, bit_or_seven addr));
      content = λ w.
          rw (e, fe, fr)
            (ground (arith, same (frame (m.page f o)) w, t.others (frame (m.page f o)) w no));
      alone = rw (e, fe) (alone_at k (omega arith) (kept k no));
      others = λ g w u d.
          let ng : g ≢ new = InUse-ne m g k u t.last.is_free in
          rw fr (ground (arith, same g w, t.others g w ng));
    }
  where
    alone_at :
        (i : ℕ)
        → t.index ≡ i
        → get_or m₂.mem_map i 0 ≡ get_or m₁.mem_map i 0
        → (low_mem / 4096 ≤ low_mem / 4096 + i) × (users m₂ (low_mem / 4096 + i) ≡ 1)
    alone_at i e q =
        let c : get_or m₁.mem_map t.index 0 ≡ 1 =
          rw t.marked (get_or-set_self m.mem_map t.index 1 0 t.last.in_range) in
        let p : low_mem / 4096 + i - low_mem / 4096 ≡ i = omega arith in
        (omega arith, rw p (q ∙ subst (λ j. get_or m₁.mem_map j 0 ≡ 1) e c))

-- The old frame loses a user, if it is managed.
dropped : ℕ → Memory → Memory
dropped old m = if leb low_mem (old * 4096) then drop_byte (map_nr (old * 4096)) m else m

dropped-page : (old : ℕ) (m : Memory) (g w : ℕ) → (dropped old m).page g w ≡ m.page g w
unfolding dropped
dropped-page old m g w = ground arith

dropped-kept :
    (old : ℕ) (m : Memory) (i : ℕ)
    → old ≢ low_mem / 4096 + i
    → get_or (dropped old m).mem_map i 0 ≡ get_or m.mem_map i 0
unfolding dropped
dropped-kept old m i ne = elim (Bool-cases (leb low_mem (old * 4096))) [
  | inl managed ↦
      rw managed (get_or-set_ne m.mem_map (map_nr (old * 4096)) i _ 0 (λ e. ne (ground arith)))
  | inr low ↦ rw low
]

-- The branch that copies.
copying : ℕ → ℕ → Memory → ℕ × Memory → Outcome Memory
copying f o m (new_page, m₁) =
    if new_page == 0 then exited else ok (copied f o new_page m (dropped (frame (m.page f o)) m₁))

copying_of_shared :
    (m : Memory) (f o : ℕ)
    → (leb low_mem (frame (m.page f o) * 4096) && (users m (frame (m.page f o)) == 1)) ≡ false
    → un_wp_page f o m ≡ copying f o m (get_free_page m)
unfolding un_wp_page copying dropped copied
copying_of_shared m f o e =
    let p : map_nr (frame (m.page f o) * 4096) ≡ frame (m.page f o) - low_mem / 4096 =
      omega arith in
    let q : frame (frame (m.page f o) * 4096) ≡ frame (m.page f o) = omega arith in
    rw p (rw q (rw e))

sole_eq :
    (m : Memory) (f o : ℕ)
    → (leb low_mem (frame (m.page f o) * 4096) && (users m (frame (m.page f o)) == 1)) ≡ true
    → un_wp_page f o m ≡ ok (store f o (bit_or (m.page f o) 2) m)
unfolding un_wp_page
sole_eq m f o e =
    let p : map_nr (frame (m.page f o) * 4096) ≡ frame (m.page f o) - low_mem / 4096 =
      omega arith in
    rw p (rw e)

abbrev EndsPrivate : Memory → ℕ → ℕ → Outcome Memory → Type 0
EndsPrivate m f o out =
    ((m' : Memory) × (out ≡ ok m') × IsPrivate m f o m') ⊎ ((out ≡ exited) × NoneFree m.mem_map)

copying-EndsPrivate :
    (m : Memory) (f o : ℕ) (new_page : ℕ) (m₁ : Memory)
    → f ≢ frame (m.page f o)
    → InUse m f
    → InUse m (frame (m.page f o))
    → ((new_page ≡ 0) × NoneFree m.mem_map) ⊎ Taken m new_page m₁
    → EndsPrivate m f o (copying f o m (new_page, m₁))
unfolding copying
copying-EndsPrivate m f o new_page m₁ ne uf uo (inl (e, n)) = inr (rw e, n)
copying-EndsPrivate m f o new_page m₁ ne uf uo (inr t) =
    let z : (new_page == 0) ≡ false = ground (arith, t.is_addr) in
    let old = frame (m.page f o) in
    inl (
      copied f o new_page m (dropped old m₁),
      rw z,
      copy-IsPrivate m m₁ (dropped old m₁) f o new_page t ne uf uo (dropped-page old m₁)
          (dropped-kept old m₁),
    )

-- `un_wp_page` on the entry in word o of frame f, where that frame does not show itself, and it
-- and the frame shown are in use: it returns with the entry private, or, with no frame free, ends
-- the process. It never panics. Private: the entry is writable and shows the same words as before,
-- in a managed frame whose only user it is; no other word of a frame in use has changed.
pub un_wp_page-IsPrivate :
    (m : Memory) (f o : ℕ)
    → f ≢ frame (m.page f o)
    → InUse m f
    → InUse m (frame (m.page f o))
    → ((m' : Memory) × (un_wp_page f o m ≡ ok m') × IsPrivate m f o m')
      ⊎ ((un_wp_page f o m ≡ exited) × NoneFree m.mem_map)
un_wp_page-IsPrivate m f o ne uf uo =
    let old = frame (m.page f o) in
    elim (Bool-cases (leb low_mem (old * 4096) && (users m old == 1))) [
      | inl sole ↦ inl (
        store f o (bit_or (m.page f o) 2) m,
        sole_eq m f o sole,
        sole-IsPrivate m f o ne (ground arith) (ground arith),
      )
      | inr shared ↦
          rw (copying_of_shared m f o shared)
            (copying-EndsPrivate m f o _ _ ne uf uo (free (get_free_page_lem m)))
    ]
  where
    free :
        ((get_free_page m ≡ (0, m)) × NoneFree m.mem_map)
          ⊎ Taken m (get_free_page m).0 (get_free_page m).1
        → (((get_free_page m).0 ≡ 0) × NoneFree m.mem_map)
          ⊎ Taken m (get_free_page m).0 (get_free_page m).1
    free (inl (e, n)) = inl (rw e, n)
    free (inr t) = inr t
