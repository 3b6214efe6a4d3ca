-- ===== src/FileDev/Write.antt =====
-- `file_write`.
use linux.Prelude.{
  ℕ, ◌+◌, ◌-◌, ◌≤◌, ◌≡◌, refl, ap, ◌∙◌, subst, ◌⊎◌, inl, inr, ◌==◌, if◌then◌else◌, arith,
  Bool-cases, ℤ, pos, negsuc,
}
use linux.Prelude.Outcome.{Outcome, ok, ◌>>=◌}
use linux.Disk.New.{IsFull}
use linux.Bmap.{Volume}
use linux.Bmap.Tree.{IsTree}
use linux.Bmap.Number.{IsReadable}
use linux.FileDev.{OpenFile, appends, set_inode, Writing, write_loop, write_result, file_write}
use linux.FileDev.Contents.{max_size}
use linux.FileDev.Fill.{Fills}
use linux.FileDev.Loop.{Puts, write_loop-Puts}

abbrev pub start_of : OpenFile → ℕ
start_of f = if appends f then f.volume.inode.i_size else f.f_pos

-- A write of `count` bytes ends with `n` of them written.
pub record Writes (count buf : ℕ) (user : ℕ → ℕ) (f : OpenFile) (r : Outcome (ℤ × OpenFile))
    : Type 0 where
  pub n : ℕ
  pub after : OpenFile
  pub ends : r ≡ ok ((if n == 0 then negsuc 0 else pos n), after)
  pub enough : n ≤ count
  pub short : (n ≡ count) ⊎ IsFull after.volume.disk
  pub fills : Fills f.volume after.volume (start_of f) n buf user
  pub position : after.f_pos ≡ (if appends f then f.f_pos else f.f_pos + n)

-- Without O_APPEND
abbrev stamped : ℕ → Writing → OpenFile → OpenFile
stamped now w f =
    set_inode (λ i. record i { i_mtime = now; i_ctime = now })
      (record f { volume = w.volume; f_pos = w.at })

stamped-IsTree :
    (v : Volume) (m c : ℕ)
    → IsTree v
    → IsTree (record v { inode = record v.inode { i_mtime = m; i_ctime = c } })
stamped-IsTree v m c t = record {
  sound = t.sound;
  quiet = t.quiet;
  idle = t.idle;
  zones = t.zones;
  used = t.used;
  apart = t.apart;
}

stamped-Fills :
    (u v : Volume) (p n q m c : ℕ) (user : ℕ → ℕ)
    → Fills u v p n q user
    → Fills u (record v { inode = record v.inode { i_mtime = m; i_ctime = c } }) p n q user
stamped-Fills u v p n q m c user x = record {
  tree = stamped-IsTree v m c x.tree;
  readable = x.readable;
  bytes = x.bytes;
  size = x.size;
}

-- What follows the loop
written-Writes :
    (now buf count : ℕ) (user : ℕ → ℕ) (f : OpenFile) (r : Outcome Writing)
    → Puts count user (record { volume = f.volume; at = start_of f; buf = buf; i = 0 }) r
    → Writes count buf user f (r >>= λ w. ok (write_result now f w))
unfolding write_result
written-Writes now buf count user f r p =
    let a = p.at in
    let y = p.i in
    let i : p.after.i ≡ p.n = omega (arith, y) in
    let w = p.after in
    let v = w.volume in
    let res : ℕ → ℤ = λ n. if n == 0 then negsuc 0 else pos n in
    elim (Bool-cases (appends f)) [
      | inl e ↦
          let g : OpenFile =
            set_inode (λ i. record i { i_mtime = now }) (record f { volume = v }) in
          record {
            n = p.n;
            after = g;
            ends =
                ap (λ r. r >>= λ w. ok (write_result now f w)) p.ends
                ∙ ap (λ c. ok (res w.i, if c then g else stamped now w f)) e
                ∙ ap (λ n. ok (res n, g)) i;
            enough = p.enough;
            short = p.short;
            fills = stamped-Fills f.volume v (start_of f) p.n buf now v.inode.i_ctime user p.fills;
            position = rw e refl;
          }
      | inr e ↦
          let g : OpenFile = stamped now w f in
          let b : start_of f ≡ f.f_pos = rw e refl in
          record {
            n = p.n;
            after = g;
            ends =
                ap (λ r. r >>= λ w. ok (write_result now f w)) p.ends
                ∙ ap
                    (λ c. ok (
                      res w.i,
                      if c
                          then set_inode (λ i. record i { i_mtime = now }) (record f { volume = v })
                          else g,
                    ))
                    e
                ∙ ap (λ n. ok (res n, g)) i;
            enough = p.enough;
            short = p.short;
            fills = stamped-Fills f.volume v (start_of f) p.n buf now now user p.fills;
            position = rw e (omega (arith, a, b));
          }
    ]

-- A write to a file whose blocks are zones in use, each at one place, on a device that reads
-- its zones, where no buffer of a free zone is in use and none has 255 users, that ends within the
-- largest size of a file: it returns the number of bytes written, all but if no
-- zone is free, or -1 if that is 0. These bytes of the user's memory stand in the file from its
-- position on, or from its end on if it was opened to append, and every other byte is as before; the
-- size is what it was, or the end of what was written if that is larger; the position moves on
-- but for O_APPEND; and the inode is as well formed as before.
pub file_write-Writes :
    (now buf count : ℕ) (user : ℕ → ℕ) (f : OpenFile)
    → start_of f + count ≤ max_size
    → IsTree f.volume
    → IsReadable f.volume
    → Writes count buf user f (file_write now buf count user f)
unfolding file_write
file_write-Writes now buf count user f h t rd =
    let n : count - 0 ≡ count = omega arith in
    let w : Writing = record { volume = f.volume; at = start_of f; buf = buf; i = 0 } in
    written-Writes now buf count user f (write_loop now count count user w) (
      subst (λ k. Puts k user w (write_loop now count count user w)) n
        (write_loop-Puts now count count user w (omega arith) (omega (arith, h)) t rd))
