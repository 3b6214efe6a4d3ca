-- ===== src/Bmap/Empty.antt =====
-- The inode and the disk after `truncate`.
use linux.Prelude.{
  ℕ, zero, suc, ◌+◌, ◌≤◌, ◌<◌, ◌≡◌, ◌≢◌, refl, sym, ap, ◌∙◌, subst, true, false, ◌==◌, ltb,
  if◌then◌else◌, arith, Bool-cases, inl, inr,
}
use linux.Prelude.Outcome.{Outcome, ok, ◌>>=◌}
use linux.Disk.{zone_bit, free_block}
use linux.Disk.Alloc.{IsZone}
use linux.Bmap.{
  Volume, Inode, set_zone_nr, free_ind, free_dind, free_direct, has_blocks, emptied, truncate,
}
use linux.Bmap.Tree.{Place, zone, ind, dind, leaf, IsPlace, block_at, block, child, IsTree}
use linux.Bmap.Rank.{rank, rank-lt}
use linux.Bmap.Clear.{Cleared, skip-Cleared, free_block-Clears}
use linux.Bmap.Tables.{Cleared-at, free_ind-Clears}
use linux.Bmap.Truncate.{IsUnheld, entries_between, free_dind-Clears}

-- The volume after the direct zones before `z` are freed
record DirectFreed (v : Volume) (z : ℕ) (w : Volume) : Type 0 where
  before : (k : ℕ) → k < z → w.inode.i_zone k ≡ 0
  behind : (k : ℕ) → z ≤ k → w.inode.i_zone k ≡ v.inode.i_zone k
  disk : Cleared v z v.disk.held w.disk

record FreesDirect (v : Volume) (z : ℕ) (r : Outcome Volume) : Type 0 where
  after : Volume
  ends : r ≡ ok after
  freed : DirectFreed v z after

abbrev direct_step : ℕ → Volume → Outcome Volume
direct_step z w =
    if w.inode.i_zone z == 0
    then ok w
    else (free_block (w.inode.i_zone z) w.disk >>= λ d.
        ok (record { inode = set_zone_nr z 0 w.inode; disk = d }))

zone_freed :
    (v : Volume)
    → IsTree v
    → IsUnheld v
    → (z : ℕ) (w : Volume) → z < 7
    → block_at v (zone z) ≢ 0
    → DirectFreed v z w
    → FreesDirect v (z + 1) (
        free_block (block_at v (zone z)) w.disk >>= λ d.
        ok (record { inode = set_zone_nr z 0 w.inode; disk = d }))
zone_freed v t un z w l nz f =
    let e : rank (zone z) ≡ z = let b : ltb z 7 ≡ true = ground arith in rw b refl in
    let c =
      free_block-Clears v t (zone z) (omega arith) v.disk.held w.disk (Cleared-at (sym e) f.disk) nz
        (un (zone z) (omega arith) nz) in
    record {
      after = record { inode = set_zone_nr z 0 w.inode; disk = c.after };
      ends = ap (λ q. q >>= λ d. ok (record { inode = set_zone_nr z 0 w.inode; disk = d })) c.ends;
      freed = record {
        before = λ k u. elim (Bool-cases (k == z)) [
          | inl s ↦ rw s refl
          | inr s ↦ rw s (f.before k (ground arith))
        ];
        behind = λ k u. let s : (k == z) ≡ false = ground arith in rw s (f.behind k (omega arith));
        disk = Cleared-at (ap (λ k. k + 1) e) c.cleared;
      };
    }

direct_step-Frees :
    (v : Volume)
    → IsTree v
    → IsUnheld v
    → (z : ℕ) (w : Volume) → z < 7
    → DirectFreed v z w
    → FreesDirect v (z + 1) (direct_step z w)
direct_step-Frees v t un z w l f =
    let b = f.behind z (omega arith) in
    let e : rank (zone z) ≡ z = let b : ltb z 7 ≡ true = ground arith in rw b refl in
    elim (Bool-cases (w.inode.i_zone z == 0)) [
      | inl n ↦
          let y : w.inode.i_zone z ≡ 0 = ground arith in
          rw n (record {
            after = w;
            ends = refl;
            freed = record {
              before = λ k u. elim (Bool-cases (z == k)) [
                | inl s ↦ let i : z ≡ k = ground arith in subst (λ k. w.inode.i_zone k ≡ 0) i y
                | inr s ↦ f.before k (ground arith)
              ];
              behind = λ k u. f.behind k (omega arith);
              disk = Cleared-at (ap (λ k. k + 1) e) (
                  skip-Cleared v t (zone z) (omega arith) v.disk.held w.disk
                    (Cleared-at (sym e) f.disk) (sym b ∙ y));
            };
          })
      | inr n ↦ rw (n, b) (zone_freed v t un z w l (λ y. let x = b ∙ y in ground arith) f)
    ]

free_direct-Frees :
    (v : Volume)
    → IsTree v
    → IsUnheld v
    → (n z : ℕ) (w : Volume) → z + n ≤ 7
    → DirectFreed v z w
    → FreesDirect v (z + n) (free_direct n z w)
unfolding free_direct
free_direct-Frees v t un zero z w l f =
    let e : z ≡ z + 0 = omega arith in
    record { after = w; ends = refl; freed = subst (λ k. DirectFreed v k w) e f }
free_direct-Frees v t un (suc n) z w l f =
    let a = direct_step-Frees v t un z w (omega arith) f in
    let b = free_direct-Frees v t un n (z + 1) a.after (omega arith) a.freed in
    let e : z + 1 + n ≡ z + suc n = omega arith in
    subst (λ k. FreesDirect v k (direct_step z w >>= free_direct n (z + 1))) e
      (record {
        after = b.after;
        ends = ap (λ q. q >>= free_direct n (z + 1)) a.ends ∙ b.ends;
        freed = b.freed;
      })

-- The inode has no block, and of the zone map exactly the bits of the blocks that it had are clear
-- that were not.
pub record Truncates (now : ℕ) (v : Volume) (r : Outcome Volume) : Type 0 where
  pub after : Volume
  pub ends : r ≡ ok after
  pub empty : (p : Place) → IsPlace p → block_at after p ≡ 0
  pub size : after.inode.i_size ≡ 0
  pub freed :
      (p : Place)
      → IsPlace p
      → block_at v p ≢ 0
      → after.disk.zmap (zone_bit (block_at v p) v.disk) ≡ false
  pub kept :
      (k : ℕ)
      → ((p : Place) → IsPlace p → block_at v p ≢ 0 → zone_bit (block_at v p) v.disk ≢ k)
      → after.disk.zmap k ≡ v.disk.zmap k

no_blocks :
    (zones : ℕ → ℕ) (bytes : ℕ → ℕ → ℕ)
    → ((z : ℕ) → z < 9 → zones z ≡ 0)
    → (p : Place) → IsPlace p
    → block zones bytes p ≡ 0
no_blocks zones bytes e (zone z) h = e z h
no_blocks zones bytes e (ind i) h = ap (λ t. child bytes t i) (e 7 (omega arith))
no_blocks zones bytes e (dind i) h = ap (λ t. child bytes t i) (e 8 (omega arith))
no_blocks zones bytes e (leaf i j) h = ap (λ t. child bytes (child bytes t i) j) (e 8 (omega arith))

emptied_zones :
    (now : ℕ) (i : Inode)
    → ((k : ℕ) → k < 7 → i.i_zone k ≡ 0)
    → (z : ℕ) → z < 9
    → (emptied now i).i_zone z ≡ 0
emptied_zones now i e z h = elim (Bool-cases (z == 8)) [
  | inl s ↦ rw s refl
  | inr s ↦ elim (Bool-cases (z == 7)) [
    | inl r ↦ rw (s, r) refl
    | inr r ↦ rw (s, r) (e z (ground arith))
  ]
]

-- `truncate` of a regular file or a directory, whose blocks are zones in use, each at one place, and
-- have no buffer in use, on a device that reads its zones, where no
-- buffer of a free zone is in use and none has 255 users: it ends without a panic, the inode has no block and the size 0, and of the zone
-- map it clears the bit of every block that the inode had and changes no other.
pub truncate-Truncates :
    (now : ℕ) (v : Volume)
    → has_blocks v.inode ≡ true
    → IsTree v
    → IsUnheld v
    → ((c : ℕ) → IsZone c v.disk → v.disk.readable c ≡ true)
    → ((c : ℕ) → IsZone c v.disk → v.disk.reads c ≡ true)
    → Truncates now v (truncate now v)
unfolding truncate
truncate-Truncates now v hb t un rd rs =
    let a = free_direct-Frees v t un 7 0 v (omega arith) (record {
      before = λ k l. absurd (omega arith);
      behind = λ k l. refl;
      disk = record {
        gone = λ p hp l n. absurd (omega arith);
        same = λ k f. refl;
        bytes = λ p hp l n. refl;
        readable = rd;
        reads = rs;
        held = λ c. refl;
        nzones = refl;
        first = refl;
      };
    }) in
    let f = a.freed in
    let w = a.after in
    let b =
      free_ind-Clears v t (zone 7) (omega arith) 7 ind (λ j h. h) (λ j. refl) refl (λ j. refl)
        v.disk.held (λ j h n. un (ind j) h n) (λ n. un (zone 7) (omega arith) n) entries_between
        w.disk f.disk (w.inode.i_zone 7) (f.behind 7 (omega arith)) in
    let c =
      free_dind-Clears v t un b.after b.cleared (w.inode.i_zone 8) (f.behind 8 (omega arith)) in
    rw hb (record {
      after = record { inode = emptied now w.inode; disk = c.after };
      ends =
          ap
            (λ q. q >>= λ w. free_ind (w.inode.i_zone 7) w.disk >>= λ d₁.
              free_dind (w.inode.i_zone 8) d₁ >>= λ d₂.
              ok (record { inode = emptied now w.inode; disk = d₂ }))
            a.ends
          ∙ ap
              (λ q. q >>= λ d₁. free_dind (w.inode.i_zone 8) d₁ >>= λ d₂.
                ok (record { inode = emptied now w.inode; disk = d₂ }))
              b.ends
          ∙ ap (λ q. q >>= λ d₂. ok (record { inode = emptied now w.inode; disk = d₂ })) c.ends;
      empty =
          no_blocks (emptied now w.inode).i_zone c.after.bytes (emptied_zones now w.inode f.before);
      size = refl;
      freed = λ p hp n. c.cleared.gone p hp (rank-lt p hp) n;
      kept = λ k h. c.cleared.same k (λ p hp l n. h p hp n);
    })
