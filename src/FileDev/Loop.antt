-- ===== src/FileDev/Loop.antt =====
-- The loop of `file_write`.
use linux.Prelude.{
  ℕ, zero, suc, ◌+◌, ◌-◌, ◌/◌, ◌<◌, ◌≤◌, ◌≡◌, ◌≢◌, refl, sym, ap, ◌∙◌, subst, ◌⊎◌, inl, inr, Bool,
  true, false, ◌==◌, leb, if◌then◌else◌, arith, Bool-cases,
}
use linux.Prelude.Outcome.{Outcome, ok, ◌>>=◌}
use linux.Disk.New.{IsFull}
use linux.Bmap.{Volume, create_disk_block}
use linux.Bmap.Tree.{place, block_at, IsTree}
use linux.Bmap.Get.{place-IsPlace}
use linux.Bmap.Number.{IsReadable, Creates, create_disk_block-Creates}
use linux.FileDev.{Writing, store_block, write_part, write_loop}
use linux.FileDev.Contents.{max_size, within}
use linux.FileDev.Fill.{Fills, Fills-trans, Extends-Fills, some_bytes, store_block-Fills}

-- A part of `file_write` that has still `k` bytes to write ends with `n` of them written: all, or
-- those for which there were zones.
pub record Puts (k : ℕ) (user : ℕ → ℕ) (w : Writing) (r : Outcome Writing) : Type 0 where
  pub n : ℕ
  pub after : Writing
  pub ends : r ≡ ok after
  pub at : after.at ≡ w.at + n
  pub i : after.i ≡ w.i + n
  pub enough : n ≤ k
  pub short : (n ≡ k) ⊎ IsFull after.volume.disk
  pub fills : Fills w.volume after.volume w.at n w.buf user

abbrev after_part : ℕ → ℕ → ℕ → (ℕ → ℕ) → Bool × Writing → Outcome Writing
after_part now n count user (more, w) = if more then write_loop now n count user w else ok w

-- A round stored its bytes, and the rest of the loop goes on from there.
Puts-trans :
    (count : ℕ) (user : ℕ → ℕ) (w v : Writing) (r : Outcome Writing) (c : ℕ)
    → c ≤ count - w.i
    → v.at ≡ w.at + c
    → v.i ≡ w.i + c
    → v.buf ≡ w.buf + c
    → Fills w.volume v.volume w.at c w.buf user
    → Puts (count - v.i) user v r
    → Puts (count - w.i) user w r
Puts-trans count user w v r c h a b e f p =
    let x = p.at in
    let y = p.i in
    let z = p.enough in
    record {
      n = c + p.n;
      after = p.after;
      ends = p.ends;
      at = omega (arith, a, x);
      i = omega (arith, b, y);
      enough = omega (arith, b, z, h);
      short = elim p.short [ inl s ↦ inl (omega (arith, b, s, h)) | inr s ↦ inr s ];
      fills = Fills-trans w.volume v.volume p.after.volume w.at c w.buf p.n user f (
          subst (λ q. Fills v.volume p.after.volume (w.at + c) p.n q user) e
            (subst (λ q. Fills v.volume p.after.volume q p.n v.buf user) a p.fills));
    }

no_block :
    (k : ℕ) (user : ℕ → ℕ) (w : Writing) (v : Volume)
    → IsFull v.disk
    → Fills w.volume v w.at 0 w.buf user
    → Puts k user w (ok (record w { volume = v }))
no_block k user w v f x = record {
  n = 0;
  after = record w { volume = v };
  ends = refl;
  at = omega arith;
  i = omega arith;
  enough = omega arith;
  short = inr f;
  fills = x;
}

-- Nothing is left to write.
done :
    (count : ℕ) (user : ℕ → ℕ) (w : Writing)
    → count - w.i ≡ 0
    → IsTree w.volume
    → IsReadable w.volume
    → Puts (count - w.i) user w (ok w)
done count user w z t rd = record {
  n = 0;
  after = w;
  ends = refl;
  at = omega arith;
  i = omega arith;
  enough = omega arith;
  short = inl (sym z);
  fills = record {
    tree = t;
    readable = rd;
    bytes = λ k h. let e : within w.at 0 k ≡ false = ground arith in rw e refl;
    size = refl;
  };
}

-- What the loop does from its next round on, if its hypotheses hold there
abbrev pub GoesOn : ℕ → ℕ → ℕ → (ℕ → ℕ) → Type 0
GoesOn now n count user =
    (v : Writing)
    → count - v.i ≤ n
    → v.at + (count - v.i) ≤ max_size
    → IsTree v.volume
    → IsReadable v.volume
    → Puts (count - v.i) user v (write_loop now n count user v)

-- From a block that is there on
block_written :
    (now n count : ℕ) (user : ℕ → ℕ) (w : Writing)
    → GoesOn now n count user
    → count - w.i ≤ suc n
    → w.at + (count - w.i) ≤ max_size
    → w.i < count
    → IsTree w.volume
    → IsReadable w.volume
    → block_at w.volume (place (w.at / 1024)) ≢ 0
    → Puts (count - w.i) user w (
        after_part now n count user
          (write_part count user (block_at w.volume (place (w.at / 1024))) w))
unfolding write_part store_block
block_written now n count user w go f h more t rd nz =
    let b = block_at w.volume (place (w.at / 1024)) in
    let z : (b == 0) ≡ false = ground arith in
    let x = store_block-Fills count user w t h more nz rd in
    let v = store_block count user b w in
    rw (z, rd b (t.zones (place (w.at / 1024)) (place-IsPlace (w.at / 1024) (ground arith)) nz))
      (Puts-trans count user w v _ (some_bytes count w) (ground arith) refl refl refl x
        (go v (ground arith) (ground arith) x.tree x.readable))

-- A round of the loop, and those after it
round_written :
    (now n count : ℕ) (user : ℕ → ℕ) (w : Writing) (r : Outcome (ℕ × Volume))
    → GoesOn now n count user
    → count - w.i ≤ suc n
    → w.at + (count - w.i) ≤ max_size
    → w.i < count
    → IsReadable w.volume
    → Creates (w.at / 1024) w.volume r
    → Puts (count - w.i) user w (
        r >>= λ (block, v).
        after_part now n count user (write_part count user block (record w { volume = v })))
unfolding write_part
round_written now n count user w r go f h more rd c =
    let s = place (w.at / 1024) in
    let v = c.after in
    let x = Extends-Fills s w.volume v w.at w.buf user rd c.extends in
    let e : r ≡ ok (block_at v s, v) = c.ends ∙ ap (λ b. ok (b, v)) (sym c.stands) in
    rw e (elim c.present [
      | inl nz ↦
          Puts-trans count user w (record w { volume = v }) _ 0 (omega arith) (omega arith)
            (omega arith) (omega arith) x
            (block_written now n count user (record w { volume = v }) go f h more x.tree x.readable
              (λ z. nz (sym c.stands ∙ z)))
      | inr (z, full) ↦
          let y : (block_at v s == 0) ≡ true = ap (λ b. b == 0) (c.stands ∙ z) in
          rw y (no_block (count - w.i) user w v full x)
    ])

pub write_loop-Puts : (now n count : ℕ) (user : ℕ → ℕ) → GoesOn now n count user
unfolding write_loop
write_loop-Puts now zero count user w f h t rd = done count user w (omega arith) t rd
write_loop-Puts now (suc n) count user w f h t rd = elim (Bool-cases (leb count w.i)) [
  | inl e ↦ rw e (done count user w (ground arith) t rd)
  | inr e ↦ rw e (
      round_written now n count user w (create_disk_block now (w.at / 1024) w.volume)
        (write_loop-Puts now n count user) f h (ground arith) rd
        (create_disk_block-Creates now (w.at / 1024) w.volume (ground arith) t rd))
]
