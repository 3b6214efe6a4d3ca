-- ===== src/FileDev/Read.antt =====
-- `file_read` and its loop.
use linux.Prelude.{
  ℕ, zero, suc, ◌+◌, ◌-◌, ◌*◌, ◌/◌, ◌%◌, ◌<◌, ◌≤◌, ◌≡◌, ◌≢◌, refl, sym, ap, ◌∙◌, subst, inl, inr,
  true, false, ltb, ◌==◌, if◌then◌else◌, min, arith, Bool-cases, ℤ, pos,
}
use linux.Prelude.Outcome.{Outcome, ok}
use linux.Bmap.{Volume}
use linux.Bmap.Tree.{place, block_at, IsTree}
use linux.Bmap.Number.{IsReadable}
use linux.Bmap.Get.{get_disk_block_lem, brelse-hold, place-IsPlace}
use linux.FileDev.{
  OpenFile, Reading, copy_bytes, pass_block, read_part, read_loop, set_inode, file_read,
  read_regular,
}
use linux.FileDev.Contents.{max_size, content, within, copy_bytes_lem}

-- `n` bytes of the file, from position `p` on, went to the user's memory from address `q` on.
pub record Passes (v : Volume) (p n q : ℕ) (user user' : ℕ → ℕ) : Type 0 where
  pub bytes : (a : ℕ) → user' a ≡ (if within q n a then content v (p + (a - q)) else user a)

Passes-trans :
    (v : Volume) (p n q : ℕ) (user user' user'' : ℕ → ℕ) (m : ℕ)
    → Passes v p n q user user'
    → Passes v (p + n) m (q + n) user' user''
    → Passes v p (n + m) q user user''
Passes-trans v p n q user user' user'' m a b = record { bytes = each }
  where
    each : (k : ℕ) → user'' k ≡ (if within q (n + m) k then content v (p + (k - q)) else user k)
    each k = b.bytes k ∙ (elim (Bool-cases (within (q + n) m k)) [
      | inl e ↦
          let f : within q (n + m) k ≡ true = ground arith in
          let g : p + n + (k - (q + n)) ≡ p + (k - q) = ground arith in rw (e, f) (ap (content v) g)
      | inr e ↦ let f : within q (n + m) k ≡ within q n k = ground arith in rw (e, f) (a.bytes k)
    ])

-- How a round leaves the variables of the loop: `n` bytes on
pub record Moves (n : ℕ) (r r' : Reading) : Type 0 where
  pub flags : r'.file.f_flags ≡ r.file.f_flags
  pub at : r'.file.f_pos ≡ r.file.f_pos + n
  pub same : r'.file.volume ≡ r.file.volume
  pub buf : r'.buf ≡ r.buf + n
  pub left : r'.left ≡ r.left - n
  pub bytes : Passes r.file.volume r.file.f_pos n r.buf r.user r'.user

abbrev chunk : Reading → ℕ
chunk r = min (1024 - r.file.f_pos % 1024) r.left

passed_bytes :
    (r : Reading) (block : ℕ → ℕ)
    → ((o : ℕ)
        → o < chunk r
        → block (r.file.f_pos % 1024 + o) ≡ content r.file.volume (r.file.f_pos + o))
    → Passes r.file.volume r.file.f_pos
        (chunk r)
        r.buf
        r.user
        (copy_bytes (chunk r) block (r.file.f_pos % 1024) r.user r.buf)
passed_bytes r block h = record { bytes = each }
  where
    each :
        (a : ℕ)
        → copy_bytes (chunk r) block (r.file.f_pos % 1024) r.user r.buf a ≡ (
            if within r.buf (chunk r) a
            then content r.file.volume (r.file.f_pos + (a - r.buf))
            else r.user a)
    each a =
        copy_bytes_lem (chunk r) block (r.file.f_pos % 1024) r.user r.buf a
        ∙ (elim (Bool-cases (within r.buf (chunk r) a)) [
          | inl e ↦ rw e (h (a - r.buf) (ground arith))
          | inr e ↦ rw e refl
        ])

-- A round on a readable device
read_part-Moves :
    (r : Reading)
    → r.file.f_pos / 1024 < 7 + 512 + 512 * 512
    → IsTree r.file.volume
    → IsReadable r.file.volume
    → (r' : Reading) × (read_part (block_at r.file.volume (place (r.file.f_pos / 1024))) r
        ≡ (true, r'))
      × Moves (chunk r) r r'
unfolding read_part pass_block
read_part-Moves r near t rd =
    let v = r.file.volume in
    let p = r.file.f_pos in
    let b = block_at v (place (p / 1024)) in
    let q : (o : ℕ) → o < chunk r → (p + o) / 1024 ≡ p / 1024 = λ o h. ground arith in
    let m : (o : ℕ) → o < chunk r → (p + o) % 1024 ≡ p % 1024 + o = λ o h. ground arith in
    elim (Bool-cases (b == 0)) [
      | inl e ↦ rw e (
        _,
        refl,
        record {
          flags = refl;
          at = refl;
          same = refl;
          buf = refl;
          left = refl;
          bytes = passed_bytes r (λ o. 0) (λ o h. rw (q o h, e) refl);
        },
      )
      | inr e ↦
          rw
            (
              e,
              rd b (t.zones (place (p / 1024)) (place-IsPlace (p / 1024) near) (λ z. ground arith)),
            )
            (
              _,
              refl,
              record {
                flags = refl;
                at = refl;
                same = ap (λ d. record v { disk = d }) (brelse-hold b v.disk t.quiet);
                buf = refl;
                left = refl;
                bytes = passed_bytes r (v.disk.bytes b) (λ o h. rw (q o h, m o h, e) refl);
              },
            )
    ]

Moves-trans : (n m : ℕ) (r r' r'' : Reading) → Moves n r r' → Moves m r' r'' → Moves (n + m) r r''
Moves-trans n m r r' r'' a b = record {
  flags = b.flags ∙ a.flags;
  at = let x = a.at in let y = b.at in omega (arith, x, y);
  same = b.same ∙ a.same;
  buf = let x = a.buf in let y = b.buf in omega (arith, x, y);
  left = let x = a.left in let y = b.left in omega (arith, x, y);
  bytes = Passes-trans r.file.volume r.file.f_pos n r.buf r.user r'.user r''.user m a.bytes (
      subst (λ q. Passes r.file.volume (r.file.f_pos + n) m q r'.user r''.user) a.buf
        (subst (λ p. Passes r.file.volume p m r'.buf r'.user r''.user) a.at
          (subst (λ v. Passes v r'.file.f_pos m r'.buf r'.user r''.user) a.same b.bytes)));
}

none_left : (r : Reading) → r.left ≡ 0 → Moves r.left r r
none_left r e = record {
  flags = refl;
  at = omega (arith, e);
  same = refl;
  buf = omega (arith, e);
  left = omega (arith, e);
  bytes = record { bytes = λ a. let w : within r.buf r.left a ≡ false = ground arith in rw w refl };
}

-- The loop reads all that is left.
read_loop-Moves :
    (n : ℕ) (r : Reading)
    → r.left ≤ n
    → r.file.f_pos + r.left ≤ max_size
    → IsTree r.file.volume
    → IsReadable r.file.volume
    → (r' : Reading) × (read_loop n r ≡ ok r') × Moves r.left r r'
unfolding read_loop
read_loop-Moves zero r h k t rd = (r, refl, none_left r (omega arith))
read_loop-Moves (suc n) r h k t rd = elim (Bool-cases (r.left == 0)) [
  | inl e ↦ rw e (r, refl, none_left r (ground arith))
  | inr e ↦
      let (r₁, p, m) = read_part-Moves r (ground arith) t rd in
      let a = m.left in
      let b = m.at in
      let lt = m.left in
      let g = get_disk_block_lem (r.file.f_pos / 1024) r.file.volume (ground arith) t rd in
      let (r₂, f, l) =
        read_loop-Moves n r₁ (ground arith) (ground arith) (subst IsTree (sym m.same) t)
          (subst IsReadable (sym m.same) rd) in
      let w : chunk r + r₁.left ≡ r.left = ground arith in
      rw (e, g, p) (r₂, f, subst (λ k. Moves k r r₂) w (Moves-trans (chunk r) r₁.left r r₁ r₂ m l))
]

-- The file after `n` bytes were read from it
abbrev pub read_on : ℕ → ℕ → OpenFile → OpenFile
read_on now n f =
    if n == 0
    then f
    else set_inode (λ i. record i { i_atime = now }) (record f { f_pos = f.f_pos + n })

-- A read of `n` bytes
pub record Reads (now n buf : ℕ) (user : ℕ → ℕ) (f : OpenFile)
    (r : Outcome (ℤ × (ℕ → ℕ) × OpenFile)) : Type 0 where
  pub user' : ℕ → ℕ
  pub ends : r ≡ ok (pos n, user', read_on now n f)
  pub bytes : Passes f.volume f.f_pos n buf user user'

file_moved :
    (f g : OpenFile) (n : ℕ)
    → g.f_flags ≡ f.f_flags
    → g.f_pos ≡ f.f_pos + n
    → g.volume ≡ f.volume
    → g ≡ record f { f_pos = f.f_pos + n }
file_moved f g n a b c =
    ap (λ x. record g { f_flags = x }) a
    ∙ ap (λ x. record g { f_flags = f.f_flags; f_pos = x }) b
    ∙ ap (λ x. record f { f_pos = f.f_pos + n; volume = x }) c

pub file_read-Reads :
    (now buf count : ℕ) (user : ℕ → ℕ) (f : OpenFile)
    → (count ≢ 0 → f.f_pos + count ≤ max_size)
    → IsTree f.volume
    → IsReadable f.volume
    → Reads now count buf user f (file_read now buf count user f)
unfolding file_read
file_read-Reads now buf count user f h t rd = elim (Bool-cases (count == 0)) [
  | inl e ↦
      let z : 0 ≡ count = ground arith in
      rw e (record {
        user' = user;
        ends = rw e (ap (λ n. ok (pos n, user, f)) z);
        bytes = record {
          bytes = λ a. let w : within buf count a ≡ false = ground arith in rw w refl;
        };
      })
  | inr e ↦
      let (r, g, m) =
        read_loop-Moves count (record { file = f; user = user; buf = buf; left = count })
          (omega arith) (h (λ z. ground arith)) t rd in
      let l = m.left in
      let w : count - r.left ≡ count = omega (arith, l) in
      rw (e, g, w, e)
        (record {
          user' = r.user;
          ends = rw e (
              ap (λ x. ok (pos count, r.user, set_inode (λ i. record i { i_atime = now }) x))
                (file_moved f r.file count m.flags m.at m.same));
          bytes = m.bytes;
        })
]

-- A read of a file or a directory, whose blocks are zones in use, each at one place, on a device
-- that reads its zones, where no buffer of a free zone is in use and none has 255 users, and whose size is one that a file can have: as many bytes as are wanted, or as there are
-- from the position of the file to its end. They stand in the user's memory from `buf` on, a
-- block that the file does not have giving zeros, and nothing else of that memory changes; the
-- position moves on by their number, and of the rest of the file only the time of access changes.
pub read_regular-Reads :
    (now buf count : ℕ) (user : ℕ → ℕ) (f : OpenFile)
    → f.volume.inode.i_size ≤ max_size
    → IsTree f.volume
    → IsReadable f.volume
    → Reads now
        (min count (f.volume.inode.i_size - f.f_pos))
        buf
        user
        f
        (read_regular now buf count user f)
unfolding read_regular
read_regular-Reads now buf count user f h t rd =
    let size = f.volume.inode.i_size in
    elim (Bool-cases (ltb size (count + f.f_pos))) [
      | inl e ↦
          let w : min count (size - f.f_pos) ≡ size - f.f_pos = ground arith in
          rw (e, w) (file_read-Reads now buf (size - f.f_pos) user f (λ n. ground arith) t rd)
      | inr e ↦
          let w : min count (size - f.f_pos) ≡ count = ground arith in
          rw (e, w) (file_read-Reads now buf count user f (λ n. ground arith) t rd)
    ]
