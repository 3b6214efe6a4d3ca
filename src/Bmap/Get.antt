-- ===== src/Bmap/Get.antt =====
-- `get_diskBlock`, before and after `create_diskBlock`.
use linux.Prelude.{
  ℕ, ◌+◌, ◌-◌, ◌*◌, ◌/◌, ◌%◌, ◌<◌, ◌≡◌, ◌≢◌, refl, sym, ap, ◌∙◌, fun_ext, inl, inr, true, false,
  ◌==◌, ltb, leb, arith, Bool-cases,
}
use linux.Prelude.Outcome.{Outcome, ok, ◌>>=◌}
use linux.Disk.{Disk, hold, brelse}
use linux.Bmap.{
  Volume, entry, make_zone, make_entry, read_entry, table_entry, on_disk, direct, indirect,
  double_indirect, bmap, get_disk_block, create_disk_block,
}
use linux.Bmap.Tree.{
  Place, zone, ind, dind, leaf, place, IsPlace, is_table, block_at, child, IsTree,
}
use linux.Bmap.Find.{held_again}
use linux.Bmap.Number.{IsReadable, IsReadable-after, create_disk_block-Creates}

pub brelse-hold : (t : ℕ) (d : Disk) → ((c : ℕ) → d.held c < 255) → brelse t (hold t d) ≡ d
brelse-hold t d q = ap (λ h. record d { held = h }) (fun_ext (λ c. held_again t d q c))

-- Reading an entry changes nothing.
table_entry_read :
    (t i : ℕ) (d : Disk)
    → ((c : ℕ) → d.held c < 255)
    → (t ≢ 0 → d.readable t ≡ true)
    → table_entry false t i d ≡ ok (child d.bytes t i, d)
unfolding table_entry read_entry make_entry
table_entry_read t i d q r = elim (Bool-cases (t == 0)) [
  | inl e ↦ rw e refl
  | inr e ↦
      rw (e, r (λ z. ground arith)) (ap (λ x. ok (entry (d.bytes t) i, x)) (brelse-hold t d q))
]

get_double :
    (n : ℕ) (v : Volume)
    → n / 512 < 512
    → IsTree v
    → IsReadable v
    → double_indirect false 0 n v ≡ ok (block_at v (leaf (n / 512) (n % 512)), v)
unfolding double_indirect make_zone
get_double n v h q r =
    ap (λ x. x >>= λ (t, d). table_entry false t (n % 512) d >>= λ r. ok (on_disk v.inode r))
      (table_entry_read (v.inode.i_zone 8) (n / 512) v.disk q.quiet
        (λ z. r _ (q.zones (zone 8) (omega arith) z)))
    ∙ ap (λ x. x >>= λ r. ok (on_disk v.inode r))
        (table_entry_read (child v.disk.bytes (v.inode.i_zone 8) (n / 512)) (n % 512) v.disk q.quiet
          (λ z. r _ (q.zones (dind (n / 512)) h z)))

get_indirect :
    (i : ℕ) (v : Volume)
    → IsTree v
    → IsReadable v
    → indirect false 0 i v ≡ ok (block_at v (ind i), v)
unfolding indirect make_zone
get_indirect i v q r =
    ap (λ x. x >>= λ r. ok (on_disk v.inode r))
      (table_entry_read (v.inode.i_zone 7) i v.disk q.quiet
        (λ z. r _ (q.zones (zone 7) (omega arith) z)))

-- The block at the place of its number, and nothing else
pub get_disk_block_lem :
    (seq : ℕ) (v : Volume)
    → seq < 7 + 512 + 512 * 512
    → IsTree v
    → IsReadable v
    → get_disk_block seq v ≡ ok (block_at v (place seq), v)
unfolding get_disk_block bmap direct make_zone
get_disk_block_lem seq v h q r =
    let big : leb (7 + 512 + 512 * 512) seq ≡ false = ground arith in
    elim (Bool-cases (ltb seq 7)) [
      | inl e ↦ rw (big, e) refl
      | inr e ↦ elim (Bool-cases (ltb (seq - 7) 512)) [
        | inl f ↦ rw (big, e, f) (get_indirect (seq - 7) v q r)
        | inr f ↦ rw (big, e, f) (get_double (seq - 7 - 512) v (omega (arith, h)) q r)
      ]
    ]

-- The number of a place
abbrev pub number_of : Place → ℕ
number_of (zone z) = z
number_of (ind i) = 7 + i
number_of (dind i) = 0
number_of (leaf i j) = 7 + 512 + (i * 512 + j)

pub number_of-place : (seq : ℕ) → number_of (place seq) ≡ seq
number_of-place seq = elim (Bool-cases (ltb seq 7)) [
  | inl e ↦ rw e refl
  | inr e ↦ elim (Bool-cases (ltb (seq - 7) 512)) [
    | inl f ↦ rw (e, f) (ground arith)
    | inr f ↦ rw (e, f) (ground arith)
  ]
]

pub place-ne : (a b : ℕ) → a ≢ b → place a ≢ place b
place-ne a b n e = n (sym (number_of-place a) ∙ ap number_of e ∙ number_of-place b)

pub place-IsPlace : (seq : ℕ) → seq < 7 + 512 + 512 * 512 → IsPlace (place seq)
place-IsPlace seq h = elim (Bool-cases (ltb seq 7)) [
  | inl e ↦ rw e (ground arith)
  | inr e ↦ elim (Bool-cases (ltb (seq - 7) 512)) [
    | inl f ↦ rw (e, f) (ground arith)
    | inr f ↦ rw (e, f) (omega arith, omega arith)
  ]
]

pub place_data : (seq : ℕ) → is_table (place seq) ≡ false
place_data seq = elim (Bool-cases (ltb seq 7)) [
  | inl e ↦ rw e (ground arith)
  | inr e ↦ elim (Bool-cases (ltb (seq - 7) 512)) [
    | inl f ↦ rw (e, f) refl
    | inr f ↦ rw (e, f) refl
  ]
]

-- After block `seq` was created it is found, and every other block as before.
pub record FindsAsCreated (seq : ℕ) (v : Volume) (r : Outcome (ℕ × Volume)) : Type 0 where
  pub number : ℕ
  pub after : Volume
  pub ends : r ≡ ok (number, after)
  pub found : get_disk_block seq after ≡ ok (number, after)
  pub old : ℕ → ℕ
  pub before : (k : ℕ) → k < 7 + 512 + 512 * 512 → get_disk_block k v ≡ ok (old k, v)
  pub others :
      (k : ℕ) → k < 7 + 512 + 512 * 512 → k ≢ seq → get_disk_block k after ≡ ok (old k, after)

-- `get_diskBlock` returns what `create_diskBlock` returned for the same block number before, and
-- for each other number what it returned before that, on an inode whose blocks are zones in use,
-- each at one place, on a device that reads its zones, where no buffer of a free zone is in use and
-- none has 255 users.
pub create_disk_block-get_disk_block :
    (now seq : ℕ) (v : Volume)
    → seq < 7 + 512 + 512 * 512
    → IsTree v
    → IsReadable v
    → FindsAsCreated seq v (create_disk_block now seq v)
create_disk_block-get_disk_block now seq v h t r =
    let c = create_disk_block-Creates now seq v h t r in
    let x = c.extends in
    let ra : IsReadable c.after = IsReadable-after _ v c.after x r in
    record {
      number = c.number;
      after = c.after;
      ends = c.ends;
      found = get_disk_block_lem seq c.after h x.tree ra ∙ ap (λ b. ok (b, c.after)) c.stands;
      old = λ k. block_at v (place k);
      before = λ k l. get_disk_block_lem k v l t r;
      others = λ k l n.
          get_disk_block_lem k c.after l x.tree ra
          ∙ ap (λ b. ok (b, c.after))
              (x.others (place k) (place-IsPlace k l) (place_data k) (place-ne k seq n));
    }
