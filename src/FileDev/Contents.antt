-- ===== src/FileDev/Contents.antt =====
-- The bytes of a file, by their positions, and what changes them.
use linux.Prelude.{
  ℕ, zero, suc, ◌+◌, ◌-◌, ◌*◌, ◌/◌, ◌%◌, ◌<◌, ◌≡◌, ◌≢◌, refl, sym, ap, ◌∙◌, inl, inr, Bool, true,
  false, ◌&&◌, ltb, leb, ◌==◌, if◌then◌else◌, arith, Bool-cases,
}
use linux.Bmap.{Volume}
use linux.Bmap.Tree.{
  Place, zone, ind, dind, leaf, IsPlace, is_table, child, block_at, place, IsTree,
}
use linux.Bmap.Extend.{Marks, Extends, marked-IsTree}
use linux.Bmap.Get.{place-IsPlace, place_data, place-ne}
use linux.FileDev.{copy_bytes}

-- 7 + 512 + 512 * 512 blocks
abbrev pub max_size : ℕ
max_size = 268966912

-- The byte at a position: a block that is not there holds zeros.
abbrev pub content : Volume → ℕ → ℕ
content v q =
    let b = block_at v (place (q / 1024)) in if b == 0 then 0 else v.disk.bytes b (q % 1024)

abbrev pub within : ℕ → ℕ → ℕ → Bool
within a n k = leb a k && ltb k (a + n)

pub copy_bytes_lem :
    (n : ℕ) (from : ℕ → ℕ) (p : ℕ) (to : ℕ → ℕ) (q k : ℕ)
    → copy_bytes n from p to q k ≡ (if within q n k then from (p + (k - q)) else to k)
unfolding copy_bytes
copy_bytes_lem zero from p to q k = let w : within q 0 k ≡ false = ground arith in rw w refl
copy_bytes_lem (suc n) from p to q k =
    copy_bytes_lem n from (p + 1) (λ a. if a == q then from p else to a) (q + 1) k
    ∙ (elim (Bool-cases (k == q)) [
      | inl e ↦
          let a : within (q + 1) n k ≡ false = ground arith in
          let b : within q (suc n) k ≡ true = ground arith in
          let c : p ≡ p + (k - q) = ground arith in rw (a, b, e) (ap from c)
      | inr e ↦
          let b : within q (suc n) k ≡ within (q + 1) n k = ground arith in
          elim (Bool-cases (within (q + 1) n k)) [
            | inl f ↦
                let c : p + 1 + (k - (q + 1)) ≡ p + (k - q) = ground arith in rw (b, f) (ap from c)
            | inr f ↦ rw (b, f, e) refl
          ]
    ])

-- A new block does not change what the file has in it.
pub content-Extends :
    (p : Place) (v w : Volume) (q : ℕ) → q < max_size → Extends p v w → content w q ≡ content v q
content-Extends p v w q h x =
    let s = place (q / 1024) in
    let hs = place-IsPlace (q / 1024) (omega arith) in
    let ds = place_data (q / 1024) in
    elim (Bool-cases (block_at v s == 0)) [
      | inl e ↦ elim (Bool-cases (block_at w s == 0)) [
        | inl f ↦ rw (e, f) refl
        | inr f ↦ rw (e, f) (x.zeros s (q % 1024) hs ds (ground arith) (λ z. ground arith))
      ]
      | inr e ↦
          let n : block_at v s ≢ 0 = λ z. ground arith in
          let k = x.kept s hs n in
          let f : (block_at w s == 0) ≡ false = ap (λ b. b == 0) k ∙ e in
          rw (e, f) (ap (λ b. w.disk.bytes b (q % 1024)) k ∙ x.contents s (q % 1024) hs ds n)
    ]

-- Another volume where the bytes of block `b`, and no others, differ
pub record Stores (b : ℕ) (v w : Volume) : Type 0 where
  pub zones : w.inode.i_zone ≡ v.inode.i_zone
  pub elsewhere : (c o : ℕ) → c ≢ b → w.disk.bytes c o ≡ v.disk.bytes c o
  pub marks : Marks 0 v.disk w.disk

module _ (v w : Volume) (s : Place) (t : IsTree v) (hs : IsPlace s) (ds : is_table s ≡ false)
    (nz : block_at v s ≢ 0) (st : Stores (block_at v s) v w) where
  table_kept :
      (p : Place) (i : ℕ)
      → IsPlace p
      → is_table p ≡ true
      → child w.disk.bytes (block_at v p) i ≡ child v.disk.bytes (block_at v p) i
  table_kept p i hp tp = elim (Bool-cases (block_at v p == 0)) [
    | inl e ↦ rw e refl
    | inr e ↦
        let n : block_at v p ≢ block_at v s = λ z.
          let x = t.apart s p hs hp nz (sym z) in
          let y : true ≡ false = sym tp ∙ ap is_table (sym x) ∙ ds in ground arith in
        let a = st.elsewhere (block_at v p) (2 * i) n in
        let b = st.elsewhere (block_at v p) (2 * i + 1) n in rw (e, a, b) refl
  ]

  pub block_at-Stores : (q : Place) → IsPlace q → block_at w q ≡ block_at v q
  block_at-Stores (zone z) h = ap (λ f. f z) st.zones
  block_at-Stores (ind i) h =
      ap (λ f. child w.disk.bytes (f 7) i) st.zones ∙ table_kept (zone 7) i (omega arith) refl
  block_at-Stores (dind i) h =
      ap (λ f. child w.disk.bytes (f 8) i) st.zones ∙ table_kept (zone 8) i (omega arith) refl
  block_at-Stores (leaf i j) (h, k) =
      ap (λ f. child w.disk.bytes (child w.disk.bytes (f 8) i) j) st.zones
      ∙ ap (λ c. child w.disk.bytes c j) (table_kept (zone 8) i (omega arith) refl)
      ∙ table_kept (dind i) j h refl

  pub Stores-IsTree : IsTree w
  Stores-IsTree = marked-IsTree v w 0 t st.marks block_at-Stores

-- The bytes of the file that lie in the block have changed, and no others.
pub content-Stores :
    (seq : ℕ) (v w : Volume) (q : ℕ)
    → seq < 7 + 512 + 512 * 512
    → q < max_size
    → IsTree v
    → (nz : block_at v (place seq) ≢ 0) → Stores (block_at v (place seq)) v w
    → content w q
      ≡ (if q / 1024 == seq then w.disk.bytes (block_at v (place seq)) (q % 1024) else content v q)
content-Stores seq v w q h hq t nz st =
    let s = place (q / 1024) in
    let hs = place-IsPlace (q / 1024) (omega arith) in
    let hp = place-IsPlace seq h in
    let k = block_at-Stores v w (place seq) t hp (place_data seq) nz st s hs in
    elim (Bool-cases (q / 1024 == seq)) [
      | inl e ↦
          let x : q / 1024 ≡ seq = ground arith in
          let y : block_at w s ≡ block_at v (place seq) = k ∙ ap (λ n. block_at v (place n)) x in
          let f : (block_at w s == 0) ≡ false = ground arith in
          rw (e, f) (ap (λ b. w.disk.bytes b (q % 1024)) y)
      | inr e ↦ elim (Bool-cases (block_at v s == 0)) [
        | inl f ↦ let g : (block_at w s == 0) ≡ true = ap (λ b. b == 0) k ∙ f in rw (e, f, g) refl
        | inr f ↦
            let g : (block_at w s == 0) ≡ false = ap (λ b. b == 0) k ∙ f in
            let n : block_at v s ≢ block_at v (place seq) = λ z.
              place-ne (q / 1024) seq (λ y. ground arith)
                (t.apart s (place seq) hs hp (λ x. ground arith) z) in
            rw (e, f, g)
              (ap (λ b. w.disk.bytes b (q % 1024)) k ∙ st.elsewhere (block_at v s) (q % 1024) n)
      ]
    ]
