-- ===== src/FileDev/Back.antt =====
-- What was written is read.
use linux.Prelude.{
  ℕ, ◌+◌, ◌-◌, ◌≤◌, ◌≡◌, refl, ap, ◌∙◌, subst, true, if◌then◌else◌, min, arith, Bool-cases, inl,
  inr, ℤ,
}
use linux.Prelude.Outcome.{Outcome}
use linux.Bmap.Tree.{IsTree}
use linux.Bmap.Number.{IsReadable}
use linux.FileDev.{OpenFile, read_regular, file_write}
use linux.FileDev.Contents.{max_size, within}
use linux.FileDev.Read.{Reads, read_regular-Reads}
use linux.FileDev.Write.{start_of, Writes, file_write-Writes}

abbrev at_position : ℕ → OpenFile → OpenFile
at_position p f = record f { f_pos = p }

-- `n` bytes that were written from address `buf` come back to address `buf'` from where they were
-- written to.
pub record ReadsBack (now' buf' buf : ℕ) (user' user : ℕ → ℕ) (f : OpenFile) (count : ℕ)
    (r : Outcome (ℤ × OpenFile)) : Type 0 where
  pub wrote : Writes count buf user f r
  pub read :
      Reads now' wrote.n buf' user'
        (at_position (start_of f) wrote.after)
        (read_regular now' buf' wrote.n user' (at_position (start_of f) wrote.after))
  pub back :
      (a : ℕ) → read.user' a ≡ (if within buf' wrote.n a then user (buf + (a - buf')) else user' a)

-- After a write to a file as in `file_write-Writes`, of a size that a file can have, a read of as
-- many bytes as were written, from where they were written to, gives them back.
pub file_write-read_regular :
    (now buf count now' buf' : ℕ) (user user' : ℕ → ℕ) (f : OpenFile)
    → start_of f + count ≤ max_size
    → f.volume.inode.i_size ≤ max_size
    → IsTree f.volume
    → IsReadable f.volume
    → ReadsBack now' buf' buf user' user f count (file_write now buf count user f)
file_write-read_regular now buf count now' buf' user user' f h z t rd =
    let w = file_write-Writes now buf count user f h t rd in
    let g = at_position (start_of f) w.after in
    let s = w.fills.size in
    let e = w.enough in
    let size : w.after.volume.inode.i_size ≤ max_size = ground arith in
    let n : min w.n (w.after.volume.inode.i_size - start_of f) ≡ w.n = ground arith in
    let r =
      subst (λ n. Reads now' n buf' user' g (read_regular now' buf' w.n user' g)) n
        (read_regular-Reads now' buf' w.n user' g size w.fills.tree w.fills.readable) in
    record {
      wrote = w;
      read = r;
      back = λ a. r.bytes.bytes a ∙ (elim (Bool-cases (within buf' w.n a)) [
        | inl i ↦
            let j : within (start_of f) w.n (start_of f + (a - buf')) ≡ true = ground arith in
            let k : start_of f + (a - buf') - start_of f ≡ a - buf' = ground arith in
            rw i (
              w.fills.bytes (start_of f + (a - buf')) (ground arith)
              ∙ rw j (ap (λ x. user (buf + x)) k))
        | inr i ↦ rw i refl
      ]);
    }
