-- ===== src/Disk/New.antt =====
-- What `new_block` returns and leaves.
use linux.Prelude.{
  ℕ, ◌+◌, ◌≤◌, ◌<◌, ◌≡◌, refl, sym, ap, ◌∙◌, subst, fun_ext, ◌⊎◌, inl, inr, Option, none, some,
  true, false, ◌==◌, if◌then◌else◌, arith, Bool-cases,
}
use linux.Prelude.Outcome.{Outcome, ok}
use linux.Disk.{Disk, zone_bit, set_zone, clear_block, find_zone, new_block}
use linux.Disk.Alloc.{IsSound, IsZone, Allocates, full, behind, busy, grown, new_block-Allocates}
use linux.Disk.Search.{Before, find_zone-Before}

-- A zone that is free
pub record IsFresh (b : ℕ) (d : Disk) : Type 0 where
  pub zone : IsZone b d
  pub free : d.zmap (zone_bit b d) ≡ false

-- Every zone is in use.
abbrev pub IsFull : Disk → Type 0
IsFull d = (c : ℕ) → IsZone c d → d.zmap (zone_bit c d) ≡ true

-- No buffer of a free zone is in use.
abbrev pub IsIdle : Disk → Type 0
IsIdle d = (b : ℕ) → IsFresh b d → d.held b ≡ 0

-- 0, or a zone
pub data IsNew (d : Disk) : Outcome (ℕ × Disk) → Type 0 where
  nothing :
      (n : ℕ)
      → IsFull d
      → (d.zmap n ≡ true) ⊎ (d.s_nzones + 1 ≤ n + d.s_firstdatazone)
      → IsNew d (ok (0, set_zone n true d))
  something :
      (b : ℕ)
      → IsFresh b d
      → 0 < b
      → b < 65536
      → IsNew d (ok (b, clear_block b (set_zone (zone_bit b d) true d)))

set_zone-set : (n : ℕ) (d : Disk) → d.zmap n ≡ true → set_zone n true d ≡ d
set_zone-set n d e = ap (λ z. record d { zmap = z }) (fun_ext (λ k. same k))
  where
    same : (k : ℕ) → (if k == n then true else d.zmap k) ≡ d.zmap k
    same k = elim (Bool-cases (k == n)) [
      | inl h ↦ let y : n ≡ k = ground arith in rw h (sym e ∙ ap d.zmap y)
      | inr h ↦ rw h refl
    ]

zone-Before :
    (d : Disk) (c : ℕ) (o : Option ℕ)
    → IsSound d
    → IsZone c d
    → find_zone 8 0 d ≡ o
    → Before o (zone_bit c d)
    → d.zmap (zone_bit c d) ≡ true
zone-Before d c o s z e b =
    let p = s.positive in
    let f = z.from in
    let g = z.below in
    let h = s.covered in
    let i = s.maps in
    find_zone-Before 8 0 d (zone_bit c d) (omega arith) (omega (arith, p, f, g, h, i))
      (omega (arith, p, f, g, h)) (subst (λ o. Before o (zone_bit c d)) (sym e) b)

Allocates-IsNew :
    (d : Disk) (r : Outcome (ℕ × Disk)) → IsSound d → IsIdle d → Allocates d r → IsNew d r
Allocates-IsNew d _ s i (full e) =
    subst (λ q. IsNew d (ok (0, q))) (set_zone-set 0 d s.first_bit)
      (nothing 0 (λ c z. zone-Before d c none s z e tt) (inl s.first_bit))
Allocates-IsNew d _ s i (behind n e h) =
    nothing n (λ c z. let g = z.below in zone-Before d c (some n) s z e (omega (arith, h, g)))
      (inr h)
Allocates-IsNew d _ s i (busy b z f h) =
    absurd (let k = i b (record { zone = z; free = f }) in omega (arith, h, k))
Allocates-IsNew d _ s i (grown b d' g) =
    let p = s.positive in
    let q = g.zone.from in
    let r = g.zone.below in
    let w = s.few in
    subst (λ q. IsNew d (ok (b, q))) (sym g.is)
      (something b (record { zone = g.zone; free = g.was_free }) (omega (arith, p, q))
        (omega (arith, r, w)))

-- `new_block` on a device whose map is in order, with no buffer of a free zone in use: with no free
-- zone it returns 0, and sets at most a bit behind the last zone; else it returns a zone that was
-- free, which is then in use and holds zeros.
pub new_block-IsNew : (d : Disk) → IsSound d → IsIdle d → IsNew d (new_block d)
new_block-IsNew d s i = Allocates-IsNew d (new_block d) s i (new_block-Allocates d s)
