-- ===== src/Disk/Alloc.antt =====
-- What `new_block` returns, and what `free_block` gives back.
use linux.Prelude.{
  ℕ, zero, suc, ◌+◌, ◌-◌, ◌*◌, ◌%◌, ◌≤◌, ◌<◌, ◌≡◌, ◌≢◌, refl, sym, ap, ◌∙◌, ◌⊎◌, inl, inr, Option,
  none, some, Bool, true, false, ◌&&◌, ltb, leb, ◌==◌, if◌then◌else◌, arith, Bool-cases,
}
use linux.Prelude.Outcome.{Outcome, ok, panicked}
use linux.Disk.{
  Disk, zone_bit, set_zone, clear_block, find_first_zero, find_zone, take_zone, new_block,
}

find_first_zero_lem :
    (f : ℕ → Bool) (k n : ℕ) → (find_first_zero f k n ≡ k + n) ⊎ (f (find_first_zero f k n) ≡ false)
unfolding find_first_zero
find_first_zero_lem f k zero = inl (omega arith)
find_first_zero_lem f k (suc n) =
    let r = find_first_zero_lem f (k + 1) n in
    elim (Bool-cases (f k)) [
      | inl e ↦ rw e (elim r [ inl z ↦ inl (omega (arith, z)) | inr z ↦ inr z ])
      | inr e ↦ inr (rw e e)
    ]

-- What the search finds is free.
pub find_zone-free : (n i : ℕ) (d : Disk) (k : ℕ) → find_zone n i d ≡ some k → d.zmap k ≡ false
unfolding find_zone
find_zone-free zero i d k e = absurd (ground arith)
find_zone-free (suc n) i d k e =
    let j = find_first_zero (λ k. d.zmap (i * 8192 + k)) 0 8192 in
    let h = find_first_zero_lem (λ k. d.zmap (i * 8192 + k)) 0 8192 in
    let r = find_zone-free n (i + 1) d k in found j h r e
  where
    found :
        (j : ℕ)
        → (j ≡ 0 + 8192) ⊎ (d.zmap (i * 8192 + j) ≡ false)
        → (find_zone n (i + 1) d ≡ some k → d.zmap k ≡ false)
        → (if ltb i d.s_zmap_blocks && ltb j 8192
            then some (i * 8192 + j)
            else find_zone n (i + 1) d)
          ≡ some k
        → d.zmap k ≡ false
    found j h r e = ground arith

-- The device as a file system keeps it: bit 0 of the zone map is set, block 0 is no zone, zone
-- numbers fit 16 bits, and the maps have a bit for each.
pub record IsSound (d : Disk) : Type 0 where
  pub first_bit : d.zmap 0 ≡ true
  pub positive : 0 < d.s_firstdatazone
  pub few : d.s_nzones ≤ 65535
  pub covered : d.s_nzones ≤ d.s_zmap_blocks * 8192
  pub maps : d.s_zmap_blocks ≤ 8

-- A block of the data zone, its bit and its number
pub record IsZone (b : ℕ) (d : Disk) : Type 0 where
  pub from : d.s_firstdatazone ≤ b
  pub below : b < d.s_nzones

-- The maps apart from one bit, the blocks apart from one, and all else are the same.
pub record IsGrown (b : ℕ) (d d' : Disk) : Type 0 where
  pub zone : IsZone b d
  pub was_free : d.zmap (zone_bit b d) ≡ false
  pub unheld : (d.held b + 1) % 256 ≡ 1
  pub is : d' ≡ clear_block b (set_zone (zone_bit b d) true d)

-- What `new_block` does: no block is free; or the only free bit found is behind the last zone; or a
-- free block is taken and cleared.
pub data Allocates (d : Disk) : Outcome (ℕ × Disk) → Type 0 where
  full : find_zone 8 0 d ≡ none → Allocates d (ok (0, d))
  behind :
      (n : ℕ)
      → find_zone 8 0 d ≡ some n
      → d.s_nzones + 1 ≤ n + d.s_firstdatazone
      → Allocates d (ok (0, set_zone n true d))
  busy :
      (b : ℕ)
      → IsZone b d
      → d.zmap (zone_bit b d) ≡ false
      → (d.held b + 1) % 256 ≢ 1
      → Allocates d panicked
  grown : (b : ℕ) (d' : Disk) → IsGrown b d d' → Allocates d (ok (b, d'))

take_zone-Allocates :
    (o : Option ℕ) (d : Disk) → find_zone 8 0 d ≡ o → IsSound d → Allocates d (take_zone o d)
unfolding take_zone
take_zone-Allocates none d e s = full e
take_zone-Allocates (some n) d e s =
    let z = find_zone-free 8 0 d n e in
    let p = s.positive in
    let f = s.first_bit in
    let b = n + d.s_firstdatazone - 1 in
    let nz : n ≢ 0 = λ k. let w : d.zmap 0 ≡ false = ap d.zmap (sym k) ∙ z in ground arith in
    let w : zone_bit b d ≡ n = omega arith in
    rw z (elim (Bool-cases (leb d.s_nzones b)) [
      | inl h ↦ rw h (behind n e (ground arith))
      | inr h ↦
          let zone : IsZone b d = record { from = omega arith; below = ground arith } in
          rw h (elim (Bool-cases ((d.held b + 1) % 256 == 1)) [
            | inl u ↦ rw u (
                grown b _ (record {
                  zone = zone;
                  was_free = ap d.zmap w ∙ z;
                  unheld = ground arith;
                  is = rw w refl;
                }))
            | inr u ↦ rw u (busy b zone (ap d.zmap w ∙ z) (λ q. ground arith))
          ])
    ])

pub new_block-Allocates : (d : Disk) → IsSound d → Allocates d (new_block d)
unfolding new_block
new_block-Allocates d s = take_zone-Allocates (find_zone 8 0 d) d refl s
