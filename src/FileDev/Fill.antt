-- ===== src/FileDev/Fill.antt =====
-- The bytes that a round of `file_write` puts into a file.
use linux.Prelude.{
  ℕ, ◌+◌, ◌-◌, ◌/◌, ◌%◌, ◌<◌, ◌≤◌, ◌≡◌, ◌≢◌, refl, ap, ◌∙◌, inl, inr, true, false, ltb, ◌==◌,
  if◌then◌else◌, min, max, arith, Bool-cases,
}
use linux.Bmap.{Inode, Volume}
use linux.Bmap.Tree.{Place, place, block_at, IsTree}
use linux.Bmap.Extend.{Extends, IsZone-before}
use linux.Bmap.Find.{held_again}
use linux.Bmap.Number.{IsReadable, IsReadable-after}
use linux.Bmap.Get.{place-IsPlace, place_data}
use linux.FileDev.{Writing, reach, store_block}
use linux.FileDev.Contents.{
  max_size, content, within, copy_bytes_lem, content-Extends, Stores, Stores-IsTree, content-Stores,
}

-- `n` bytes of the user's memory, from address `q` on, went to the file from position `p` on, and
-- nothing else of the file has changed, but for its size if they end behind it.
pub record Fills (v w : Volume) (p n q : ℕ) (user : ℕ → ℕ) : Type 0 where
  pub tree : IsTree w
  pub readable : IsReadable w
  pub bytes :
      (k : ℕ)
      → k < max_size
      → content w k ≡ (if within p n k then user (q + (k - p)) else content v k)
  pub size : w.inode.i_size ≡ (if n == 0 then v.inode.i_size else max v.inode.i_size (p + n))

pub Fills-trans :
    (u v w : Volume) (p n q m : ℕ) (user : ℕ → ℕ)
    → Fills u v p n q user
    → Fills v w (p + n) m (q + n) user
    → Fills u w p (n + m) q user
Fills-trans u v w p n q m user a b = record {
  tree = b.tree;
  readable = b.readable;
  bytes = λ k h. b.bytes k h ∙ (elim (Bool-cases (within (p + n) m k)) [
    | inl e ↦
        let f : within p (n + m) k ≡ true = ground arith in
        let g : q + n + (k - (p + n)) ≡ q + (k - p) = ground arith in rw (e, f) (ap user g)
    | inr e ↦ let f : within p (n + m) k ≡ within p n k = ground arith in rw (e, f) (a.bytes k h)
  ]);
  size = let x = a.size in let y = b.size in ground arith;
}

-- Before its bytes are stored, a new block changes nothing.
pub Extends-Fills :
    (s : Place) (v w : Volume) (p q : ℕ) (user : ℕ → ℕ)
    → IsReadable v
    → Extends s v w
    → Fills v w p 0 q user
Extends-Fills s v w p q user rd x = record {
  tree = x.tree;
  readable = IsReadable-after s v w x rd;
  bytes = λ k h. let e : within p 0 k ≡ false = ground arith in rw e (content-Extends s v w k h x);
  size = x.size;
}

abbrev pub some_bytes : ℕ → Writing → ℕ
some_bytes count w = min (1024 - w.at % 1024) (count - w.i)

module _ (count : ℕ) (user : ℕ → ℕ) (w : Writing) (t : IsTree w.volume) where
  block_held : (b : ℕ) → Stores b w.volume (store_block count user b w).volume
  unfolding store_block
  block_held b = record {
    zones = reach_zones (w.at + some_bytes count w) w.volume.inode;
    elsewhere = λ c o n. let e : (c == b) ≡ false = ground arith in rw e refl;
    marks = record {
      bits = λ k. elim (Bool-cases (k == 0)) [
        | inl h ↦ let y : k ≡ 0 = ground arith in rw h (ap w.volume.disk.zmap y ∙ t.sound.first_bit)
        | inr h ↦ rw h refl
      ];
      nzones = refl;
      first = refl;
      maps = refl;
      users = held_again b w.volume.disk t.quiet;
      readable = λ c h. h;
    };
  }
    where
      reach_zones : (p : ℕ) (i : Inode) → (reach p i).i_zone ≡ i.i_zone
      reach_zones p i = elim (Bool-cases (ltb i.i_size p)) [ inl e ↦ rw e refl | inr e ↦ rw e refl ]

  module _ (h : w.at + (count - w.i) ≤ max_size) (more : w.i < count)
      (nz : block_at w.volume (place (w.at / 1024)) ≢ 0) where
    -- The bytes of the block
    filled_bytes :
        (k : ℕ)
        → k / 1024 ≡ w.at / 1024
        → (store_block count user (block_at w.volume (place (w.at / 1024))) w).volume.disk.bytes
            (block_at w.volume (place (w.at / 1024)))
            (k % 1024)
          ≡ (if within w.at (some_bytes count w) k
              then user (w.buf + (k - w.at))
              else content w.volume k)
    unfolding store_block
    filled_bytes k s =
        let b = block_at w.volume (place (w.at / 1024)) in
        let c = some_bytes count w in
        let bb : (b == b) ≡ true = ground arith in
        let x : within (w.at % 1024) c (k % 1024) ≡ within w.at c k = ground arith in
        rw bb (
          copy_bytes_lem c user w.buf (w.volume.disk.bytes b) (w.at % 1024) (k % 1024)
          ∙ (elim (Bool-cases (within w.at c k)) [
            | inl e ↦
                let y : w.buf + (k % 1024 - w.at % 1024) ≡ w.buf + (k - w.at) = ground arith in
                rw (x, e) (ap user y)
            | inr e ↦ let z : (b == 0) ≡ false = ground arith in rw (x, e, s, z) refl
          ]))

    filled_size :
        (b : ℕ)
        → (store_block count user b w).volume.inode.i_size ≡ (
            if some_bytes count w == 0
            then w.volume.inode.i_size
            else max w.volume.inode.i_size (w.at + some_bytes count w))
    unfolding store_block
    filled_size b =
        let i = w.volume.inode in
        let p = w.at + some_bytes count w in
        let z : (some_bytes count w == 0) ≡ false = ground arith in
        elim (Bool-cases (ltb i.i_size p)) [
          | inl e ↦ rw (e, z) (ground arith)
          | inr e ↦ rw (e, z) (ground arith)
        ]

    pub store_block-Fills :
        IsReadable w.volume
        → Fills w.volume
            (store_block count user (block_at w.volume (place (w.at / 1024))) w).volume
            w.at
            (some_bytes count w)
            w.buf
            user
    store_block-Fills rd =
        let seq = w.at / 1024 in
        let b = block_at w.volume (place seq) in
        let st = block_held b in
        let hp = place-IsPlace seq (ground arith) in
        record {
          tree = Stores-IsTree w.volume _ (place seq) t hp (place_data seq) nz st;
          readable = λ c z. st.marks.readable c (rd c (IsZone-before 0 _ _ c st.marks z));
          bytes = λ k hk.
              content-Stores seq w.volume _ k (ground arith) hk t nz st
              ∙ (elim (Bool-cases (k / 1024 == seq)) [
                | inl e ↦ rw e (filled_bytes k (ground arith))
                | inr e ↦
                    let f : within w.at (some_bytes count w) k ≡ false = ground arith in
                    rw (e, f) refl
              ]);
          size = filled_size b;
        }
