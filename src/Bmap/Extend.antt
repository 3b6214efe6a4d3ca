-- ===== src/Bmap/Extend.antt =====
-- An inode with one block more.
use linux.Prelude.{
  ℕ, ◌+◌, ◌-◌, ◌≡◌, ◌≢◌, refl, sym, ap, ◌∙◌, subst, ◌⊎◌, inl, inr, Bool, true, false, ◌==◌,
  if◌then◌else◌, arith, Bool-cases,
}
use linux.Disk.{Disk, zone_bit}
use linux.Disk.Alloc.{IsSound, IsZone}
use linux.Disk.New.{IsFresh, IsFull, IsIdle}
use linux.Bmap.{Volume}
use linux.Bmap.Tree.{Place, IsPlace, is_table, block_at, IsTree, Place-cases}
use linux.Bmap.Grow.{Grows}

-- The disk with bit `n` set, and the same buffers in use
pub record Marks (n : ℕ) (d d' : Disk) : Type 0 where
  pub bits : (k : ℕ) → d'.zmap k ≡ (if k == n then true else d.zmap k)
  pub nzones : d'.s_nzones ≡ d.s_nzones
  pub first : d'.s_firstdatazone ≡ d.s_firstdatazone
  pub maps : d'.s_zmap_blocks ≡ d.s_zmap_blocks
  pub users : (c : ℕ) → d'.held c ≡ d.held c
  pub readable : (c : ℕ) → d.readable c ≡ true → d'.readable c ≡ true

Marks-IsSound : (n : ℕ) (d d' : Disk) → Marks n d d' → IsSound d → IsSound d'
Marks-IsSound n d d' m s =
    let a = m.nzones in
    let b = m.first in
    let p = s.positive in
    let f = s.few in
    let g = s.covered in
    let h = s.maps in
    let i = m.maps in
    record {
      first_bit =
          m.bits 0 ∙ (elim (Bool-cases (0 == n)) [ inl e ↦ rw e refl | inr e ↦ rw e s.first_bit ]);
      positive = omega (arith, b, p);
      few = omega (arith, a, f);
      covered = omega (arith, a, g, i);
      maps = omega (arith, h, i);
    }

Marks-IsZone : (n : ℕ) (d d' : Disk) (c : ℕ) → Marks n d d' → IsZone c d → IsZone c d'
Marks-IsZone n d d' c m z =
    let a = m.nzones in
    let b = m.first in
    let f = z.from in
    let g = z.below in record { from = omega (arith, b, f); below = omega (arith, a, g) }

Marks-IsIdle : (n : ℕ) (d d' : Disk) → Marks n d d' → IsIdle d → IsIdle d'
Marks-IsIdle n d d' m i b f =
    let z = f.zone in
    let w : zone_bit b d' ≡ zone_bit b d = ap (λ k. b + 1 - k) m.first in
    let e : (if zone_bit b d == n then true else d.zmap (zone_bit b d)) ≡ false =
      sym (ap d'.zmap w ∙ m.bits (zone_bit b d)) ∙ f.free in
    let a = m.nzones in
    let c = m.first in
    let g = z.from in
    let h = z.below in
    m.users b
    ∙ i b (record {
      zone = record { from = omega (arith, c, g); below = omega (arith, a, h) };
      free = clear (zone_bit b d == n) (d.zmap (zone_bit b d)) e;
    })
  where
    clear : (x y : Bool) → (if x then true else y) ≡ false → y ≡ false
    clear true y e = absurd (ground arith)
    clear false y e = e

Marks-bit :
    (n : ℕ) (d d' : Disk) (c : ℕ)
    → Marks n d d'
    → (zone_bit c d ≡ n) ⊎ (d.zmap (zone_bit c d) ≡ true)
    → d'.zmap (zone_bit c d') ≡ true
Marks-bit n d d' c m h =
    let w : zone_bit c d' ≡ zone_bit c d = ap (λ f. c + 1 - f) m.first in
    ap d'.zmap w ∙ m.bits (zone_bit c d) ∙ (elim (Bool-cases (zone_bit c d == n)) [
      | inl e ↦ rw e refl
      | inr e ↦ rw e (elim h [ inl q ↦ absurd (ground arith) | inr q ↦ q ])
    ])

-- A free zone is no block of the inode.
pub fresh_block :
    (v : Volume) (b : ℕ)
    → IsTree v
    → IsFresh b v.disk
    → (q : Place) → IsPlace q
    → block_at v q ≢ 0
    → block_at v q ≢ b
fresh_block v b t f q h nz e =
    let a = t.used q h nz in
    let w : true ≡ false = sym a ∙ ap (λ c. v.disk.zmap (zone_bit c v.disk)) e ∙ f.free in
    ground arith

-- More bits set
pub marked-IsTree :
    (v v' : Volume) (n : ℕ)
    → IsTree v
    → Marks n v.disk v'.disk
    → ((q : Place) → IsPlace q → block_at v' q ≡ block_at v q)
    → IsTree v'
marked-IsTree v v' n t m e = record {
  sound = Marks-IsSound n v.disk v'.disk m t.sound;
  quiet = λ c. let e = m.users c in let l = t.quiet c in omega (arith, e, l);
  idle = Marks-IsIdle n v.disk v'.disk m t.idle;
  zones = λ q h nz.
      subst (λ c. IsZone c v'.disk) (sym (e q h))
        (Marks-IsZone n v.disk v'.disk _ m (t.zones q h (λ z. nz (e q h ∙ z))));
  used = λ q h nz.
      subst (λ c. v'.disk.zmap (zone_bit c v'.disk) ≡ true) (sym (e q h))
        (Marks-bit n v.disk v'.disk _ m (inr (t.used q h (λ z. nz (e q h ∙ z)))));
  apart = λ p q hp hq nz s. t.apart p q hp hq (λ z. nz (e p hp ∙ z)) (sym (e p hp) ∙ s ∙ e q hq);
}

module _ (v v' : Volume) (p : Place) (b : ℕ) (t : IsTree v) (hp : IsPlace p) (f : IsFresh b v.disk)
    (nb : b ≢ 0) (g : Grows p b v.inode.i_zone v'.inode.i_zone v.disk.bytes v'.disk.bytes)
    (m : Marks (zone_bit b v.disk) v.disk v'.disk) where
  -- What holds of the new block and of the old ones holds of all.
  each :
      (T : ℕ → Type 0)
      → T b
      → ((q : Place) → IsPlace q → block_at v q ≢ 0 → T (block_at v q))
      → (q : Place) → IsPlace q
      → block_at v' q ≢ 0
      → T (block_at v' q)
  each T new old q h nz = elim (Place-cases q p) [
    | inl e ↦ subst T (sym (ap (block_at v') e ∙ g.here)) new
    | inr n ↦ subst T (sym (g.there q h n)) (old q h (λ z. nz (g.there q h n ∙ z)))
  ]

  grown_apart :
      (q r : Place)
      → IsPlace q
      → IsPlace r
      → block_at v' q ≢ 0
      → block_at v' q ≡ block_at v' r
      → q ≡ r
  grown_apart q r hq hr nz e = elim (Place-cases q p) [
    | inl i ↦ elim (Place-cases r p) [
      | inl j ↦ i ∙ sym j
      | inr j ↦
          let w : block_at v r ≡ b = sym (g.there r hr j) ∙ sym e ∙ ap (block_at v') i ∙ g.here in
          absurd (fresh_block v b t f r hr (λ z. nb (sym w ∙ z)) w)
    ]
    | inr i ↦
        let nq : block_at v q ≢ 0 = λ z. nz (g.there q hq i ∙ z) in
        elim (Place-cases r p) [
          | inl j ↦
              let w : block_at v q ≡ b = sym (g.there q hq i) ∙ e ∙ ap (block_at v') j ∙ g.here in
              absurd (fresh_block v b t f q hq nq w)
          | inr j ↦ t.apart q r hq hr nq (sym (g.there q hq i) ∙ e ∙ g.there r hr j)
        ]
  ]

  pub grown-IsTree : IsTree v'
  grown-IsTree = record {
    sound = Marks-IsSound _ v.disk v'.disk m t.sound;
    quiet = λ c. let e = m.users c in let l = t.quiet c in omega (arith, e, l);
    idle = Marks-IsIdle _ v.disk v'.disk m t.idle;
    zones =
        each (λ c. IsZone c v'.disk) (Marks-IsZone _ v.disk v'.disk b m f.zone)
          (λ q h nz. Marks-IsZone _ v.disk v'.disk _ m (t.zones q h nz));
    used =
        each (λ c. v'.disk.zmap (zone_bit c v'.disk) ≡ true)
          (Marks-bit _ v.disk v'.disk b m (inl refl))
          (λ q h nz. Marks-bit _ v.disk v'.disk _ m (inr (t.used q h nz)));
    apart = grown_apart;
  }

-- Another inode after blocks were put at place `p` and at tables on the way to it: the blocks that
-- it had are where they were, and so is what the file has in them; no other place of the file got
-- one; a new block holds zeros.
pub record Extends (p : Place) (v v' : Volume) : Type 0 where
  pub tree : IsTree v'
  pub kept : (q : Place) → IsPlace q → block_at v q ≢ 0 → block_at v' q ≡ block_at v q
  pub others : (q : Place) → IsPlace q → is_table q ≡ false → q ≢ p → block_at v' q ≡ block_at v q
  pub contents :
      (q : Place) (o : ℕ)
      → IsPlace q
      → is_table q ≡ false
      → block_at v q ≢ 0
      → v'.disk.bytes (block_at v q) o ≡ v.disk.bytes (block_at v q) o
  pub zeros :
      (q : Place) (o : ℕ)
      → IsPlace q
      → is_table q ≡ false
      → block_at v q ≡ 0
      → block_at v' q ≢ 0
      → v'.disk.bytes (block_at v' q) o ≡ 0
  pub readable : (c : ℕ) → v.disk.readable c ≡ true → v'.disk.readable c ≡ true
  pub same_zones : (c : ℕ) → IsZone c v'.disk → IsZone c v.disk
  pub full : IsFull v.disk → IsFull v'.disk
  pub size : v'.inode.i_size ≡ v.inode.i_size

pub IsZone-before : (n : ℕ) (d d' : Disk) (c : ℕ) → Marks n d d' → IsZone c d' → IsZone c d
IsZone-before n d d' c m z =
    let a = m.nzones in
    let b = m.first in
    let f = z.from in
    let g = z.below in record { from = omega (arith, b, f); below = omega (arith, a, g) }

Marks-IsFull : (n : ℕ) (d d' : Disk) → Marks n d d' → IsFull d → IsFull d'
Marks-IsFull n d d' m f c z =
    let a = m.nzones in
    let b = m.first in
    let g = z.from in
    let h = z.below in
    Marks-bit n d d' c m
      (inr (f c (record { from = omega (arith, b, g); below = omega (arith, a, h) })))

pub Extends-refl : (p : Place) (v : Volume) → IsTree v → Extends p v v
Extends-refl p v t = record {
  tree = t;
  kept = λ q h n. refl;
  others = λ q h f n. refl;
  contents = λ q o h f n. refl;
  zeros = λ q o h f z n. absurd (n z);
  readable = λ c e. e;
  same_zones = λ c z. z;
  full = λ f. f;
  size = refl;
}

pub Extends-trans : (p : Place) (u v w : Volume) → Extends p u v → Extends p v w → Extends p u w
Extends-trans p u v w a b = record {
  tree = b.tree;
  kept = λ q h n. b.kept q h (λ z. n (sym (a.kept q h n) ∙ z)) ∙ a.kept q h n;
  others = λ q h f n. b.others q h f n ∙ a.others q h f n;
  contents = λ q o h f n.
      subst (λ c. w.disk.bytes c o ≡ v.disk.bytes c o) (a.kept q h n)
        (b.contents q o h f (λ z. n (sym (a.kept q h n) ∙ z)))
      ∙ a.contents q o h f n;
  zeros = λ q o h f z n. elim (Bool-cases (block_at v q == 0)) [
    | inl e ↦ b.zeros q o h f (ground arith) n
    | inr e ↦
        let m : block_at v q ≢ 0 = λ y. ground arith in
        let s = b.kept q h m in
        ap (λ c. w.disk.bytes c o) s ∙ b.contents q o h f m ∙ a.zeros q o h f z m
  ];
  readable = λ c e. b.readable c (a.readable c e);
  same_zones = λ c z. a.same_zones c (b.same_zones c z);
  full = λ f. b.full (a.full f);
  size = b.size ∙ a.size;
}

-- Nothing but the bits has changed.
pub marked-Extends :
    (p : Place) (v v' : Volume) (n : ℕ)
    → IsTree v
    → Marks n v.disk v'.disk
    → ((q : Place) → IsPlace q → block_at v' q ≡ block_at v q)
    → v'.disk.bytes ≡ v.disk.bytes
    → v'.inode.i_size ≡ v.inode.i_size
    → Extends p v v'
marked-Extends p v v' n t m e w l = record {
  tree = marked-IsTree v v' n t m e;
  kept = λ q h z. e q h;
  others = λ q h f z. e q h;
  contents = λ q o h f z. ap (λ b. b (block_at v q) o) w;
  zeros = λ q o h f z n. absurd (n (e q h ∙ z));
  readable = m.readable;
  same_zones = λ c. IsZone-before n v.disk v'.disk c m;
  full = Marks-IsFull n v.disk v'.disk m;
  size = l;
}

-- A block was put at `p`, or at a table.
pub grown-Extends :
    (v v' : Volume) (p s : Place) (b : ℕ)
    → IsTree v
    → IsPlace s
    → IsFresh b v.disk
    → b ≢ 0
    → block_at v s ≡ 0
    → (is_table s ≡ true) ⊎ (s ≡ p)
    → Grows s b v.inode.i_zone v'.inode.i_zone v.disk.bytes v'.disk.bytes
    → Marks (zone_bit b v.disk) v.disk v'.disk
    → ((q : Place) (o : ℕ)
        → IsPlace q
        → is_table q ≡ false
        → block_at v q ≢ 0
        → v'.disk.bytes (block_at v q) o ≡ v.disk.bytes (block_at v q) o)
    → ((o : ℕ) → v'.disk.bytes b o ≡ 0)
    → v'.inode.i_size ≡ v.inode.i_size
    → Extends p v v'
grown-Extends v v' p s b t h f nb e k g m c y l = record {
  tree = grown-IsTree v v' s b t h f nb g m;
  kept = λ q hq n. g.there q hq (λ z. n (ap (block_at v) z ∙ e));
  others = λ q hq fq n. g.there q hq (λ z. elim k [
    | inl y ↦ let w : true ≡ false = sym y ∙ ap is_table (sym z) ∙ fq in ground arith
    | inr y ↦ n (z ∙ y)
  ]);
  contents = c;
  zeros = λ q o hq fq z n. elim (Place-cases q s) [
    | inl i ↦ ap (λ c. v'.disk.bytes c o) (ap (block_at v') i ∙ g.here) ∙ y o
    | inr i ↦ absurd (n (g.there q hq i ∙ z))
  ];
  readable = m.readable;
  same_zones = λ c. IsZone-before _ v.disk v'.disk c m;
  full = Marks-IsFull _ v.disk v'.disk m;
  size = l;
}
